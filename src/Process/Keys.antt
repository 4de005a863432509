-- ===== src/Process/Keys.antt =====
-- The port map: under every key stands a process of that port, and every key is a port.
use undertow.Base.{
  ℕ, zero, suc, ◌+◌, ◌*◌, ◌%◌, ◌<◌, ◌≡◌, refl, inl, inr, String, Bool, ◌&&◌, Option, none, some,
  List, [], ◌∷◌, arith, ltb, leb, nat_eq, if◌then◌else◌, length, drop, All, if_both, Bool-cases,
}
use undertow.Base.Eq.{◌==◌, string_eq, number_eq}
use undertow.Base.Dict.{Dict, get, All-put}
use undertow.Base.Int.{ℤ, pos, negsuc}
use undertow.Base.Strings.{split, fields, has_prefix}
use undertow.Base.Numerals.{parse_hex16, parse_hex16-lt, atoi}
use undertow.Packet.{Time, second}
use undertow.Process.{
  FlowProcessInfo, Tracker, Goos, linux, windows, darwin, other, System, field, last_field, assign,
  put_inode, proc_net_line, proc_net_lines, parse_proc_net, inode_of, assign_found, take_targets,
  take_fds, take_pid, take_entries, take_proc, refresh_linux,
}
use undertow.Process.Refresh.{
  assign_port, assign_netstat, netstat_line, lsof_line, each_line, refresh_windows, refresh_mac_os,
  refresh_on, refresh,
}

abbrev pub IsKeyed : Dict ℕ FlowProcessInfo → Type 0
IsKeyed m = All (λ (e : ℕ × FlowProcessInfo). (e.1.local_port ≡ e.0) × (e.0 < 65536)) m

-- Every inode stands for a port.
abbrev HasPorts : Dict String ℕ → Type 0
HasPorts m = All (λ (e : String × ℕ). e.1 < 65536) m

HasPorts-get : (m : Dict String ℕ) (k : String) (p : ℕ) → HasPorts m → get m k ≡ some p → p < 65536
unfolding get
HasPorts-get [] k p a e = absurd (ground (arith, e))
HasPorts-get ((j, q) ∷ m) k p a e = elim (Bool-cases (j == k)) [
  | inl h ↦ ground (arith, e, h, a.0)
  | inr h ↦ HasPorts-get m k p a.1 (ground (arith, e, h))
]

module _ (now : Time) where
  assign-IsKeyed :
      (m : Dict ℕ FlowProcessInfo) (port : ℕ) (pid : ℤ) (name exe user : String)
      → port < 65536
      → IsKeyed m
      → IsKeyed (assign m port pid name exe user now)
  unfolding assign
  assign-IsKeyed m port pid name exe user h k =
      All-put (λ (e : ℕ × FlowProcessInfo). (e.1.local_port ≡ e.0) × (e.0 < 65536)) m port _
        (refl, h) k

  assign_found-IsKeyed :
      (m : Dict ℕ FlowProcessInfo) (o : Option ℕ) (pid : ℤ) (name exe user : String)
      → ((p : ℕ) → o ≡ some p → p < 65536)
      → IsKeyed m
      → IsKeyed (assign_found m o pid name exe user now)
  assign_found-IsKeyed m none pid name exe user h k = k
  assign_found-IsKeyed m (some p) pid name exe user h k =
      assign-IsKeyed m p pid name exe user (h p refl) k

  take_targets-IsKeyed :
      (m : Dict ℕ FlowProcessInfo) (inodes : Dict String ℕ) (ts : List (Option String)) (pid : ℤ)
      (name exe user : String)
      → HasPorts inodes
      → IsKeyed m
      → IsKeyed (take_targets m inodes ts pid name exe user now)
  unfolding take_targets
  take_targets-IsKeyed m inodes [] pid name exe user h k = k
  take_targets-IsKeyed m inodes (none ∷ ts) pid name exe user h k =
      take_targets-IsKeyed m inodes ts pid name exe user h k
  take_targets-IsKeyed m inodes (some t ∷ ts) pid name exe user h k =
      take_targets-IsKeyed
        (if has_prefix t "socket:["
          then assign_found m (get inodes (inode_of t)) pid name exe user now
          else m)
        inodes ts pid name exe user h
        (if_both IsKeyed (has_prefix t "socket:[")
          (assign_found-IsKeyed m (get inodes (inode_of t)) pid name exe user
            (λ p. HasPorts-get inodes (inode_of t) p h) k)
          k)

  take_pid-IsKeyed :
      (sys : System) (m : Dict ℕ FlowProcessInfo) (inodes : Dict String ℕ) (o : Option ℤ)
      → HasPorts inodes
      → IsKeyed m
      → IsKeyed (take_pid sys m inodes o now)
  unfolding take_pid
  take_pid-IsKeyed sys m inodes none h k = k
  take_pid-IsKeyed sys m inodes (some pid) h k = fds (sys.fd_targets pid)
    where
      fds : (o : Option (List (Option String))) → IsKeyed (take_fds sys m inodes pid o now)
      fds none = unfold take_fds in k
      fds (some ts) = unfold take_fds in take_targets-IsKeyed m inodes ts pid _ _ _ h k

  take_entries-IsKeyed :
      (sys : System) (m : Dict ℕ FlowProcessInfo) (inodes : Dict String ℕ)
      (es : List (String × Bool))
      → HasPorts inodes
      → IsKeyed m
      → IsKeyed (take_entries sys m inodes es now)
  unfolding take_entries
  take_entries-IsKeyed sys m inodes [] h k = k
  take_entries-IsKeyed sys m inodes ((name, is_dir) ∷ es) h k =
      take_entries-IsKeyed sys (if is_dir then take_pid sys m inodes (atoi name) now else m) inodes
        es h (if_both IsKeyed is_dir (take_pid-IsKeyed sys m inodes (atoi name) h k) k)

  assign_port-IsKeyed :
      (m : Dict ℕ FlowProcessInfo) (o : Option ℤ) (pid : ℤ) (name user : String)
      → IsKeyed m
      → IsKeyed (assign_port m o pid name user now)
  unfolding assign_port
  assign_port-IsKeyed m none pid name user k = k
  assign_port-IsKeyed m (some (negsuc n)) pid name user k = k
  assign_port-IsKeyed m (some (pos zero)) pid name user k = k
  assign_port-IsKeyed m (some (pos (suc n))) pid name user k =
      assign-IsKeyed m (suc n % 65536) pid name "" user (omega arith) k

  netstat_line-IsKeyed :
      (m : Dict ℕ FlowProcessInfo) (fs : List String) → IsKeyed m → IsKeyed (netstat_line m fs now)
  unfolding netstat_line
  netstat_line-IsKeyed m fs k =
      if_both IsKeyed (leb 4 (length fs) && has_prefix (field fs 0) "TCP")
        (line (atoi (last_field fs))) k
    where
      line : (o : Option ℤ) → IsKeyed (assign_netstat m (split b':' (field fs 1)) o now)
      line none = k
      line (some pid) =
          if_both IsKeyed (leb 2 (length (split b':' (field fs 1))))
            (assign_port-IsKeyed m (atoi (last_field (split b':' (field fs 1)))) pid _ "SYSTEM" k) k

  lsof_line-IsKeyed :
      (m : Dict ℕ FlowProcessInfo) (fs : List String) → IsKeyed m → IsKeyed (lsof_line m fs now)
  unfolding lsof_line
  lsof_line-IsKeyed m fs k =
      if_both IsKeyed (leb 9 (length fs) && leb 2 (length (split b':' (field fs 8))))
        (assign_port-IsKeyed m _ _ (field fs 0) (field fs 2) k) k

  each_line-IsKeyed :
      (f : Dict ℕ FlowProcessInfo → List String → Time → Dict ℕ FlowProcessInfo)
      (m : Dict ℕ FlowProcessInfo) (ls : List String)
      → ((m' : Dict ℕ FlowProcessInfo) (fs : List String) → IsKeyed m' → IsKeyed (f m' fs now))
      → IsKeyed m
      → IsKeyed (each_line f m ls now)
  unfolding each_line
  each_line-IsKeyed f m [] h k = k
  each_line-IsKeyed f m (l ∷ ls) h k =
      each_line-IsKeyed f (f m (fields l) now) ls h (h m (fields l) k)

proc_net_line-HasPorts :
    (inodes : Dict String ℕ) (fs : List String)
    → HasPorts inodes
    → HasPorts (proc_net_line inodes fs)
unfolding proc_net_line
proc_net_line-HasPorts inodes fs h = if_both HasPorts (ltb (length fs) 10) h (
    if_both HasPorts (nat_eq (length (split b':' (field fs 1))) 2)
      (port (parse_hex16 (field (split b':' (field fs 1)) 1))
        (parse_hex16-lt (field (split b':' (field fs 1)) 1)))
      h)
  where
    port :
        (o : Option ℕ)
        → ((p : ℕ) → o ≡ some p → p < 65536)
        → HasPorts (put_inode inodes (field fs 9) o)
    port none lt = h
    port (some p) lt = All-put (λ (e : String × ℕ). e.1 < 65536) inodes (field fs 9) p (lt p refl) h

parse_proc_net-HasPorts :
    (inodes : Dict String ℕ) (o : Option (List String))
    → HasPorts inodes
    → HasPorts (parse_proc_net inodes o)
unfolding parse_proc_net
parse_proc_net-HasPorts inodes none h = h
parse_proc_net-HasPorts inodes (some ls) h = lines inodes (drop 1 ls) h
  where
    lines : (m : Dict String ℕ) (ss : List String) → HasPorts m → HasPorts (proc_net_lines m ss)
    lines m [] k = unfold proc_net_lines in k
    lines m (s ∷ ss) k =
        unfold proc_net_lines in
        lines (proc_net_line m (fields s)) ss (proc_net_line-HasPorts m (fields s) k)

module _ (sys : System) where
  refresh_on-IsKeyed :
      (goos : Goos) (m : Dict ℕ FlowProcessInfo) (now : Time)
      → IsKeyed m
      → IsKeyed (refresh_on sys goos m now)
  unfolding refresh_on refresh_linux refresh_windows refresh_mac_os take_proc
  refresh_on-IsKeyed linux m now k = entries sys.proc_entries
    where
      inodes : Dict String ℕ
      inodes =
          parse_proc_net (parse_proc_net [] (sys.net_lines "/proc/net/tcp"))
            (sys.net_lines "/proc/net/udp")

      ports : HasPorts inodes
      ports =
          parse_proc_net-HasPorts (parse_proc_net [] (sys.net_lines "/proc/net/tcp"))
            (sys.net_lines "/proc/net/udp")
            (parse_proc_net-HasPorts [] (sys.net_lines "/proc/net/tcp") tt)

      entries : (o : Option (List (String × Bool))) → IsKeyed (take_proc sys m inodes o now)
      entries none = k
      entries (some es) = take_entries-IsKeyed now sys m inodes es ports k
  refresh_on-IsKeyed windows m now k = at sys.netstat
    where
      at : (o : Option String) → IsKeyed (refresh_windows m o now)
      at none = k
      at (some out) =
          each_line-IsKeyed now netstat_line m (split 10 out) (netstat_line-IsKeyed now) k
  refresh_on-IsKeyed darwin m now k = at sys.lsof
    where
      at : (o : Option String) → IsKeyed (refresh_mac_os m o now)
      at none = k
      at (some out) =
          each_line-IsKeyed now lsof_line m (drop 1 (split 10 out)) (lsof_line-IsKeyed now) k
  refresh_on-IsKeyed other m now k = k

  -- Whatever the system says, on every operating system: a refresh of a map where every key is a
  -- port, below 65536, with an entry of this port leaves such a map.
  pub refresh-IsKeyed :
      (t : Tracker) (now : Time) → IsKeyed t.port_map → IsKeyed (refresh sys t now).port_map
  unfolding refresh
  refresh-IsKeyed t now k =
      if_both (λ (u : Tracker). IsKeyed u.port_map)
        (ltb now (t.last_lookup + 2 * second) && ltb 0 (length t.port_map)) k
        (refresh_on-IsKeyed sys.goos t.port_map now k)
