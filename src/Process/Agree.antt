-- ===== src/Process/Agree.antt =====
-- The resolver of process.go and the tracker of tracker.go on Linux: one map in two forms.
use mathlib.Core.Option
use undertow.Base.{
  ℕ, ◌≡◌, refl, ap, sym, inl, inr, String, Bool, true, false, ◌&&◌, Option, none, some, List, [],
  ◌∷◌, ◌+◌, ◌*◌, ltb, nat_eq, if◌then◌else◌, length, drop, All, map, Bool-cases, if_app,
}
use undertow.Base.Eq.{string_eq, number_eq}
use undertow.Base.Dict.{Dict, get, put}
use undertow.Base.Int.{ℤ}
use undertow.Base.Text.{dec}
use undertow.Base.Decimal.{dec_injective}
use undertow.Base.Rename.{renamed, put-renamed, get-renamed, values-renamed, length-renamed}
use undertow.Base.Strings.{split, fields, has_prefix}
use undertow.Base.Numerals.{parse_hex16, atoi}
use undertow.Packet.{Time, second}
use undertow.Process.{
  FlowProcessInfo, Tracker, linux, System, field, inode_of, process_name_of, assign, put_inode,
  proc_net_line, proc_net_lines, parse_proc_net, owner, assign_found, take_targets, take_fds,
  take_pid, take_entries, take_proc, refresh_linux,
}
use undertow.Process.Refresh.{refresh_on, refresh, new_tracker, get_process_matrix}
use undertow.Process.Resolver.{
  ProcessInfo, Resolver, process_info, put_key, net_line, net_lines, parse_net, put_found,
  take_links, take_descriptors, take_process, take_files, take_dir, resolve_linux, resolve_on,
  resolve_sockets, new_resolver, found_or_unknown, lookup_port, get_all_processes,
}

-- A process as the resolver keeps it, and the tracker's maps in the resolver's form.
abbrev pub seen : FlowProcessInfo → ProcessInfo
seen info = process_info info.pid info.process_name info.executable_path info.last_updated

abbrev sockets : Dict ℕ FlowProcessInfo → Dict String ProcessInfo
sockets m = renamed dec seen m

abbrev keys : Dict String ℕ → Dict String String
keys m = renamed (λ i. i) dec m

put-keys : (m : Dict String ℕ) (i : String) (p : ℕ) → put (keys m) i (dec p) ≡ keys (put m i p)
put-keys m i p = put-renamed (λ i. i) dec (λ i j e. e) m i p

net_line-keys :
    (m : Dict String ℕ) (fs : List String) → net_line (keys m) fs ≡ keys (proc_net_line m fs)
unfolding net_line proc_net_line
net_line-keys m fs = elim (Bool-cases (ltb (length fs) 10)) [
  | inl short ↦ rw short
  | inr long ↦ rw long (
      parts (nat_eq (length (split b':' (field fs 1))) 2)
        (parse_hex16 (field (split b':' (field fs 1)) 1)))
]
  where
    parts :
        (b : Bool) (o : Option ℕ)
        → (if b then put_key (keys m) (field fs 9) o else keys m)
          ≡ keys (if b then put_inode m (field fs 9) o else m)
    parts false o = refl
    parts true none = refl
    parts true (some p) = put-keys m (field fs 9) p

net_lines-keys :
    (m : Dict String ℕ) (ls : List String) → net_lines (keys m) ls ≡ keys (proc_net_lines m ls)
unfolding net_lines proc_net_lines
net_lines-keys m [] = refl
net_lines-keys m (l ∷ ls) =
    rw (net_line-keys m (fields l)) (net_lines-keys (proc_net_line m (fields l)) ls)

parse_net-keys :
    (m : Dict String ℕ) (o : Option (List String))
    → parse_net (keys m) o ≡ keys (parse_proc_net m o)
unfolding parse_net parse_proc_net
parse_net-keys m none = refl
parse_net-keys m (some ls) = net_lines-keys m (drop 1 ls)

module _ (pid : ℤ) (name exe user : String) (now : Time) where
  put_found-sockets :
      (m : Dict ℕ FlowProcessInfo) (o : Option ℕ)
      → put_found (sockets m) (Option.map dec o) (process_info pid name exe now)
        ≡ sockets (assign_found m o pid name exe user now)
  unfolding assign
  put_found-sockets m none = refl
  put_found-sockets m (some p) = put-renamed dec seen dec_injective m p _

  take_links-sockets :
      (m : Dict ℕ FlowProcessInfo) (inodes : Dict String ℕ) (ts : List (Option String))
      → take_links (sockets m) (keys inodes) ts (process_info pid name exe now)
        ≡ sockets (take_targets m inodes ts pid name exe user now)
  unfolding take_links take_targets
  take_links-sockets m inodes [] = refl
  take_links-sockets m inodes (none ∷ ts) = take_links-sockets m inodes ts
  take_links-sockets m inodes (some t ∷ ts) = elim (Bool-cases (has_prefix t "socket:[")) [
    | inl h ↦
        rw
          (
            h,
            get-renamed (λ i. i) dec (λ i j e. e) inodes (inode_of t),
            put_found-sockets m (get inodes (inode_of t)),
          )
          (take_links-sockets (assign_found m (get inodes (inode_of t)) pid name exe user now)
            inodes ts)
    | inr h ↦ rw h (take_links-sockets m inodes ts)
  ]

module _ (sys : System) (now : Time) where
  take_process-sockets :
      (m : Dict ℕ FlowProcessInfo) (inodes : Dict String ℕ) (o : Option ℤ)
      → take_process sys (sockets m) (keys inodes) o now ≡ sockets (take_pid sys m inodes o now)
  unfolding take_process take_pid take_descriptors take_fds
  take_process-sockets m inodes none = refl
  take_process-sockets m inodes (some pid) = at (sys.fd_targets pid)
    where
      at :
          (o : Option (List (Option String)))
          → take_descriptors sys (sockets m) (keys inodes) pid o now
            ≡ sockets (take_fds sys m inodes pid o now)
      at none = refl
      at (some ts) =
          take_links-sockets pid (process_name_of sys pid) (sys.exe pid)
            (owner sys.user_name (split 10 (sys.status pid))) now m inodes ts

  take_files-sockets :
      (m : Dict ℕ FlowProcessInfo) (inodes : Dict String ℕ) (es : List (String × Bool))
      → take_files sys (sockets m) (keys inodes) es now ≡ sockets (take_entries sys m inodes es now)
  unfolding take_files take_entries
  take_files-sockets m inodes [] = refl
  take_files-sockets m inodes ((name, true) ∷ es) =
      rw (take_process-sockets m inodes (atoi name))
        (take_files-sockets (take_pid sys m inodes (atoi name) now) inodes es)
  take_files-sockets m inodes ((name, false) ∷ es) = take_files-sockets m inodes es

  resolve_linux-sockets :
      (m : Dict ℕ FlowProcessInfo)
      → resolve_linux sys (sockets m) now ≡ sockets (refresh_linux sys m now)
  unfolding resolve_linux refresh_linux
  resolve_linux-sockets m =
      rw
        (
          parse_net-keys [] (sys.net_lines "/proc/net/tcp"),
          parse_net-keys (parse_proc_net [] (sys.net_lines "/proc/net/tcp"))
              (sys.net_lines "/proc/net/udp"),
        )
        (at sys.proc_entries)
    where
      inodes : Dict String ℕ
      inodes =
          parse_proc_net (parse_proc_net [] (sys.net_lines "/proc/net/tcp"))
            (sys.net_lines "/proc/net/udp")

      at :
          (o : Option (List (String × Bool)))
          → take_dir sys (sockets m) (keys inodes) o now ≡ sockets (take_proc sys m inodes o now)
      at none = unfold take_proc in refl
      at (some es) = unfold take_proc in take_files-sockets m inodes es

-- The refreshes of one run, each with what the system says then.
abbrev pub refresh_all : Tracker → List (System × Time) → Tracker
refresh_all t [] = t
refresh_all t ((sys, now) ∷ rest) = refresh_all (refresh sys t now) rest

abbrev pub resolve_all : Resolver → List (System × Time) → Resolver
resolve_all r [] = r
resolve_all r ((sys, now) ∷ rest) = resolve_all (resolve_sockets sys r now) rest

-- The resolver that holds what the tracker holds.
abbrev as_resolver : Tracker → Resolver
as_resolver t = record { socket_map = sockets t.port_map; last_lookup = t.last_lookup }

resolve_sockets-as_resolver :
    (sys : System) (t : Tracker) (now : Time)
    → sys.goos ≡ linux
    → resolve_sockets sys (as_resolver t) now ≡ as_resolver (refresh sys t now)
unfolding resolve_sockets refresh resolve_on refresh_on
resolve_sockets-as_resolver sys t now h =
    rw (length-renamed dec seen t.port_map, h, resolve_linux-sockets sys now t.port_map)
      (sym (
        if_app as_resolver (ltb now (t.last_lookup + 2 * second) && ltb 0 (length t.port_map)) t
          (record { port_map = refresh_linux sys t.port_map now; last_lookup = now })))

resolve_all-as_resolver :
    (runs : List (System × Time)) (t : Tracker)
    → All (λ (e : System × Time). e.0.goos ≡ linux) runs
    → resolve_all (as_resolver t) runs ≡ as_resolver (refresh_all t runs)
resolve_all-as_resolver [] t h = refl
resolve_all-as_resolver ((sys, now) ∷ runs) t h =
    rw (resolve_sockets-as_resolver sys t now h.0)
      (resolve_all-as_resolver runs (refresh sys t now) h.1)

-- On Linux, where both see the same system at the same times, the resolver holds what the tracker
-- holds: it answers for every port with the number, name and path of the tracker's process for this
-- port, or "Unknown" where the tracker has none, and lists the same processes.
pub linux_agree :
    (sys : System) (now : Time) (runs : List (System × Time)) (port : ℕ)
    → sys.goos ≡ linux
    → All (λ (e : System × Time). e.0.goos ≡ linux) runs
    → let r = resolve_all (new_resolver sys now) runs in
      let t = refresh_all (new_tracker sys now) runs in
      (lookup_port r port ≡ found_or_unknown (Option.map seen (get t.port_map port)))
      × (get_all_processes r ≡ map seen (get_process_matrix t))
unfolding new_resolver new_tracker lookup_port get_all_processes get_process_matrix
linux_agree sys now runs port h hs =
    rw
      (
        resolve_sockets-as_resolver sys (record { port_map = []; last_lookup = 0 }) now h,
        resolve_all-as_resolver runs (refresh sys (record { port_map = []; last_lookup = 0 }) now)
            hs,
      )
      (ap found_or_unknown (get-renamed dec seen dec_injective _ port), values-renamed dec seen _)
