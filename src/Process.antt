-- ===== src/Process.antt =====
-- internal/process/tracker.go: which process owns a port. Every method holds the mutex, so it is one
-- step. What the operating system says enters as `System`.
pub mod Refresh
pub mod Keys
pub mod Resolver
pub mod Agree
use Prim.Native.String
use undertow.Base.{
  ℕ, zero, suc, ◌+◌, ◌-◌, ◌*◌, ◌%◌, String, Bool, true, false, ◌&&◌, Option, none, some, List, [],
  ◌∷◌, ltb, leb, nat_eq, if◌then◌else◌, length, get_or, drop,
}
use undertow.Base.Eq.{◌==◌, string_eq, number_eq}
use undertow.Base.Dict.{Dict, get, put, values, or_else}
use undertow.Base.Int.{ℤ, pos, negsuc}
use undertow.Base.Text.{concat}
use undertow.Base.Strings.{split, fields, has_prefix, trim_prefix, trim_suffix, trim_space}
use undertow.Base.Numerals.{parse_hex16, atoi, int_text}
use undertow.Packet.{Time, second, FlowKey}

pub record FlowProcessInfo : Type 0 where
  pub pid : ℤ
  pub process_name : String
  pub executable_path : String
  pub user : String
  pub local_port : ℕ
  pub remote_port : ℕ
  pub protocol : String
  pub last_updated : Time

pub record Tracker : Type 0 where
  pub port_map : Dict ℕ FlowProcessInfo
  pub last_lookup : Time

-- `runtime.GOOS`
pub data Goos : Type 0 where
  linux windows darwin other : Goos

-- The lines of a file, or none where it cannot be opened; the entries of /proc, each with whether it
-- is a directory; for a process the texts of its files, empty where reading fails, and the targets
-- of its descriptors; the name of a user; the output of a command.
pub record System : Type 0 where
  pub goos : Goos
  pub net_lines : String → Option (List String)
  pub proc_entries : Option (List (String × Bool))
  pub comm : ℤ → String
  pub exe : ℤ → String
  pub status : ℤ → String
  pub fd_targets : ℤ → Option (List (Option String))
  pub user_name : String → Option String
  pub netstat : Option String
  pub lsof : Option String

abbrev pub field : List String → ℕ → String
field fs i = get_or fs i ""

abbrev pub last_field : List String → String
last_field fs = get_or fs (length fs - 1) ""

-- `t.portMap[port] = &FlowProcessInfo{…}`
unfoldable pub assign :
    Dict ℕ FlowProcessInfo → ℕ → ℤ → String → String → String → Time → Dict ℕ FlowProcessInfo
assign m port pid name exe user now = put m port (record {
  pid = pid;
  process_name = name;
  executable_path = exe;
  user = user;
  local_port = port;
  remote_port = 0;
  protocol = "";
  last_updated = now;
})

abbrev pub put_inode : Dict String ℕ → String → Option ℕ → Dict String ℕ
put_inode inodes inode none = inodes
put_inode inodes inode (some p) = put inodes inode p

-- One line of /proc/net/tcp: the inode's local port.
unfoldable pub proc_net_line : Dict String ℕ → List String → Dict String ℕ
proc_net_line inodes fs =
    let parts = split b':' (field fs 1) in
    if ltb (length fs) 10
    then inodes
    else if nat_eq (length parts) 2
    then put_inode inodes (field fs 9) (parse_hex16 (field parts 1))
    else inodes

unfoldable pub proc_net_lines : Dict String ℕ → List String → Dict String ℕ
unfolding proc_net_line
proc_net_lines inodes [] = inodes
proc_net_lines inodes (l ∷ ls) = proc_net_lines (proc_net_line inodes (fields l)) ls

-- `parseProcNet`: the first line is the header.
unfoldable pub parse_proc_net : Dict String ℕ → Option (List String) → Dict String ℕ
unfolding proc_net_lines
parse_proc_net inodes none = inodes
parse_proc_net inodes (some ls) = proc_net_lines inodes (drop 1 ls)

-- The owner of a process, by the first line of its status that starts with "Uid:".
unfoldable pub owner : (String → Option String) → List String → String
owner user_name [] = "root"
owner user_name (l ∷ ls) =
    let rest = owner user_name ls in
    if has_prefix l "Uid:"
    then (if leb 2 (length (fields l))
        then or_else (user_name (field (fields l) 1)) "root"
        else "root")
    else rest

abbrev pub inode_of : String → String
inode_of target = trim_suffix b']' (trim_prefix target "socket:[")

abbrev pub assign_found :
    Dict ℕ FlowProcessInfo → Option ℕ → ℤ → String → String → String → Time → Dict ℕ FlowProcessInfo
assign_found m none pid name exe user now = m
assign_found m (some port) pid name exe user now = assign m port pid name exe user now

-- The descriptors of a process: those that are sockets with a known inode give it their port.
unfoldable pub take_targets :
    Dict ℕ FlowProcessInfo
    → Dict String ℕ
    → List (Option String)
    → ℤ
    → String
    → String
    → String
    → Time
    → Dict ℕ FlowProcessInfo
take_targets m inodes [] pid name exe user now = m
take_targets m inodes (none ∷ ts) pid name exe user now =
    take_targets m inodes ts pid name exe user now
take_targets m inodes (some t ∷ ts) pid name exe user now =
    take_targets
      (if has_prefix t "socket:["
        then assign_found m (get inodes (inode_of t)) pid name exe user now
        else m)
      inodes ts pid name exe user now

abbrev pub process_name_of : System → ℤ → String
process_name_of sys pid =
    let name = trim_space (sys.comm pid) in
    if name == "" then concat ("PID_" ∷ int_text pid ∷ []) else name

unfoldable pub take_fds :
    System
    → Dict ℕ FlowProcessInfo
    → Dict String ℕ
    → ℤ
    → Option (List (Option String))
    → Time
    → Dict ℕ FlowProcessInfo
unfolding take_targets
take_fds sys m inodes pid none now = m
take_fds sys m inodes pid (some ts) now =
    take_targets m inodes ts pid (process_name_of sys pid) (sys.exe pid)
      (owner sys.user_name (split 10 (sys.status pid))) now

-- One directory of /proc: its name has to be a number.
unfoldable pub take_pid :
    System → Dict ℕ FlowProcessInfo → Dict String ℕ → Option ℤ → Time → Dict ℕ FlowProcessInfo
unfolding take_fds
take_pid sys m inodes none now = m
take_pid sys m inodes (some pid) now = take_fds sys m inodes pid (sys.fd_targets pid) now

unfoldable pub take_entries :
    System
    → Dict ℕ FlowProcessInfo
    → Dict String ℕ
    → List (String × Bool)
    → Time
    → Dict ℕ FlowProcessInfo
unfolding take_pid
take_entries sys m inodes [] now = m
take_entries sys m inodes ((name, is_dir) ∷ es) now =
    take_entries sys (if is_dir then take_pid sys m inodes (atoi name) now else m) inodes es now

unfoldable pub take_proc :
    System
    → Dict ℕ FlowProcessInfo
    → Dict String ℕ
    → Option (List (String × Bool))
    → Time
    → Dict ℕ FlowProcessInfo
unfolding take_entries
take_proc sys m inodes none now = m
take_proc sys m inodes (some es) now = take_entries sys m inodes es now

-- `refreshLinux`
unfoldable pub refresh_linux : System → Dict ℕ FlowProcessInfo → Time → Dict ℕ FlowProcessInfo
unfolding parse_proc_net take_proc
refresh_linux sys m now =
    let inodes =
      parse_proc_net (parse_proc_net [] (sys.net_lines "/proc/net/tcp"))
        (sys.net_lines "/proc/net/udp") in
    take_proc sys m inodes sys.proc_entries now
