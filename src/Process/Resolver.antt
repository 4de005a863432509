-- ===== src/Process/Resolver.antt =====
-- internal/process/process.go: the older resolver, which keys its map by the text of the port. It
-- asks the system the same questions as the tracker. Every method holds the mutex, so it is one step.
use undertow.Base.{
  ℕ, zero, suc, ◌+◌, ◌*◌, String, Bool, ◌&&◌, Option, none, some, List, [], ◌∷◌, ltb, leb, nat_eq,
  if◌then◌else◌, length, drop,
}
use undertow.Base.Eq.{string_eq}
use undertow.Base.Dict.{Dict, get, put, values, or_else}
use undertow.Base.Int.{ℤ, pos, negsuc}
use undertow.Base.Text.{concat, dec}
use undertow.Base.Strings.{split, fields, has_prefix}
use undertow.Base.Numerals.{parse_hex16, atoi, int_text}
use undertow.Packet.{Time, second}
use undertow.Process.{
  Goos, linux, windows, darwin, other, System, field, last_field, inode_of, process_name_of,
}
use undertow.Process.Refresh.{before_arrow}

pub record ProcessInfo : Type 0 where
  pub pid : ℤ
  pub name : String
  pub path : String
  pub local_port : ℕ
  pub remote_port : ℕ
  pub protocol : String
  pub last_updated : Time

pub record Resolver : Type 0 where
  pub socket_map : Dict String ProcessInfo
  pub last_lookup : Time

-- The `ProcessInfo` that every refresh writes.
abbrev pub process_info : ℤ → String → String → Time → ProcessInfo
process_info pid name path now = record {
  pid = pid;
  name = name;
  path = path;
  local_port = 0;
  remote_port = 0;
  protocol = "";
  last_updated = now;
}

abbrev pub put_key : Dict String String → String → Option ℕ → Dict String String
put_key inodes inode none = inodes
put_key inodes inode (some p) = put inodes inode (dec p)

-- One line of /proc/net/tcp: the text of the inode's local port.
unfoldable pub net_line : Dict String String → List String → Dict String String
net_line inodes fs =
    let parts = split b':' (field fs 1) in
    if ltb (length fs) 10
    then inodes
    else if nat_eq (length parts) 2
    then put_key inodes (field fs 9) (parse_hex16 (field parts 1))
    else inodes

unfoldable pub net_lines : Dict String String → List String → Dict String String
unfolding net_line
net_lines inodes [] = inodes
net_lines inodes (l ∷ ls) = net_lines (net_line inodes (fields l)) ls

-- `parseProcNet`: the first line is the header.
unfoldable pub parse_net : Dict String String → Option (List String) → Dict String String
unfolding net_lines
parse_net inodes none = inodes
parse_net inodes (some ls) = net_lines inodes (drop 1 ls)

abbrev pub put_found :
    Dict String ProcessInfo → Option String → ProcessInfo → Dict String ProcessInfo
put_found m none info = m
put_found m (some port_key) info = put m port_key info

-- The descriptors of a process: those that are sockets with a known inode give it their port.
unfoldable pub take_links :
    Dict String ProcessInfo
    → Dict String String
    → List (Option String)
    → ProcessInfo
    → Dict String ProcessInfo
take_links m inodes [] info = m
take_links m inodes (none ∷ ts) info = take_links m inodes ts info
take_links m inodes (some t ∷ ts) info =
    take_links (if has_prefix t "socket:[" then put_found m (get inodes (inode_of t)) info else m)
      inodes ts info

unfoldable pub take_descriptors :
    System
    → Dict String ProcessInfo
    → Dict String String
    → ℤ
    → Option (List (Option String))
    → Time
    → Dict String ProcessInfo
unfolding take_links
take_descriptors sys m inodes pid none now = m
take_descriptors sys m inodes pid (some ts) now =
    take_links m inodes ts (process_info pid (process_name_of sys pid) (sys.exe pid) now)

-- One directory of /proc: its name has to be a number.
unfoldable pub take_process :
    System
    → Dict String ProcessInfo
    → Dict String String
    → Option ℤ
    → Time
    → Dict String ProcessInfo
unfolding take_descriptors
take_process sys m inodes none now = m
take_process sys m inodes (some pid) now =
    take_descriptors sys m inodes pid (sys.fd_targets pid) now

unfoldable pub take_files :
    System
    → Dict String ProcessInfo
    → Dict String String
    → List (String × Bool)
    → Time
    → Dict String ProcessInfo
unfolding take_process
take_files sys m inodes [] now = m
take_files sys m inodes ((name, is_dir) ∷ es) now =
    take_files sys (if is_dir then take_process sys m inodes (atoi name) now else m) inodes es now

abbrev pub take_dir :
    System
    → Dict String ProcessInfo
    → Dict String String
    → Option (List (String × Bool))
    → Time
    → Dict String ProcessInfo
take_dir sys m inodes none now = m
take_dir sys m inodes (some es) now = take_files sys m inodes es now

-- `refreshLinux`
unfoldable pub resolve_linux : System → Dict String ProcessInfo → Time → Dict String ProcessInfo
unfolding parse_net take_files
resolve_linux sys m now =
    let inodes =
      parse_net (parse_net [] (sys.net_lines "/proc/net/tcp")) (sys.net_lines "/proc/net/udp") in
    take_dir sys m inodes sys.proc_entries now

-- A port that `Atoi` read, if it is positive, by its text.
unfoldable put_port : Dict String ProcessInfo → Option ℤ → ProcessInfo → Dict String ProcessInfo
put_port m none info = m
put_port m (some (negsuc n)) info = m
put_port m (some (pos zero)) info = m
put_port m (some (pos (suc n))) info = put m (dec (suc n)) info

abbrev put_netstat :
    Dict String ProcessInfo → List String → Option ℤ → Time → Dict String ProcessInfo
put_netstat m parts none now = m
put_netstat m parts (some pid) now =
    if leb 2 (length parts)
    then put_port m (atoi (last_field parts))
        (process_info pid (concat ("Process_" ∷ int_text pid ∷ [])) "" now)
    else m

-- One line of netstat.
unfoldable windows_line : Dict String ProcessInfo → List String → Time → Dict String ProcessInfo
unfolding put_port
windows_line m fs now =
    if leb 4 (length fs) && has_prefix (field fs 0) "TCP"
    then put_netstat m (split b':' (field fs 1)) (atoi (last_field fs)) now
    else m

-- One line of lsof. The number of the process is 0 where it is no numeral.
unfoldable mac_line : Dict String ProcessInfo → List String → Time → Dict String ProcessInfo
unfolding put_port
mac_line m fs now =
    let parts = split b':' (field fs 8) in
    if leb 9 (length fs) && leb 2 (length parts)
    then put_port m (atoi (before_arrow (last_field parts)))
        (process_info (or_else (atoi (field fs 1)) (pos 0)) (field fs 0) "" now)
    else m

unfoldable socket_lines :
    (Dict String ProcessInfo → List String → Time → Dict String ProcessInfo)
    → Dict String ProcessInfo
    → List String
    → Time
    → Dict String ProcessInfo
socket_lines f m [] now = m
socket_lines f m (l ∷ ls) now = socket_lines f (f m (fields l) now) ls now

-- `refreshWindows`, and `refreshMacOS`, which passes over the header
unfoldable resolve_windows :
    Dict String ProcessInfo → Option String → Time → Dict String ProcessInfo
unfolding socket_lines windows_line
resolve_windows m none now = m
resolve_windows m (some out) now = socket_lines windows_line m (split 10 out) now

unfoldable resolve_mac_os : Dict String ProcessInfo → Option String → Time → Dict String ProcessInfo
unfolding socket_lines mac_line
resolve_mac_os m none now = m
resolve_mac_os m (some out) now = socket_lines mac_line m (drop 1 (split 10 out)) now

unfoldable pub resolve_on : System → Goos → Dict String ProcessInfo → Time → Dict String ProcessInfo
unfolding resolve_linux resolve_windows resolve_mac_os
resolve_on sys linux m now = resolve_linux sys m now
resolve_on sys windows m now = resolve_windows m sys.netstat now
resolve_on sys darwin m now = resolve_mac_os m sys.lsof now
resolve_on sys other m now = m

-- `Refresh` at the time `now`
unfoldable pub resolve_sockets : System → Resolver → Time → Resolver
unfolding resolve_on
resolve_sockets sys r now =
    if ltb now (r.last_lookup + 2 * second) && ltb 0 (length r.socket_map)
    then r
    else record { socket_map = resolve_on sys sys.goos r.socket_map now; last_lookup = now }

-- `NewResolver`
unfoldable pub new_resolver : System → Time → Resolver
unfolding resolve_sockets
new_resolver sys now = resolve_sockets sys (record { socket_map = []; last_lookup = 0 }) now

abbrev pub found_or_unknown : Option ProcessInfo → ℤ × String × String
found_or_unknown none = (pos 0, "Unknown", "")
found_or_unknown (some info) = (info.pid, info.name, info.path)

-- `Lookup`
unfoldable pub lookup_port : Resolver → ℕ → ℤ × String × String
lookup_port r port = found_or_unknown (get r.socket_map (dec port))

-- `GetAllProcesses`
unfoldable pub get_all_processes : Resolver → List ProcessInfo
get_all_processes r = values r.socket_map
