-- ===== src/Process/Refresh.antt =====
-- internal/process/tracker.go: the refresh on each system and the lookups.
use undertow.Base.{
  ℕ, zero, suc, ◌+◌, ◌*◌, ◌%◌, String, ◌&&◌, Option, none, some, List, [], ◌∷◌, ltb, leb,
  if◌then◌else◌, length, drop,
}
use undertow.Base.Eq.{string_eq, number_eq}
use undertow.Base.Dict.{Dict, get, values, or_else}
use undertow.Base.Int.{ℤ, pos, negsuc}
use undertow.Base.Text.{concat}
use undertow.Base.Strings.{split, fields, has_prefix}
use undertow.Base.Numerals.{atoi, int_text}
use undertow.Packet.{Time, second, FlowKey}
use undertow.Process.{
  linux, windows, darwin, other, FlowProcessInfo, Tracker, Goos, System, field, last_field, assign,
  refresh_linux,
}

-- A port that `Atoi` read, if it is positive: `uint16` keeps its low 16 bits.
unfoldable pub assign_port :
    Dict ℕ FlowProcessInfo → Option ℤ → ℤ → String → String → Time → Dict ℕ FlowProcessInfo
assign_port m none pid name user now = m
assign_port m (some (negsuc n)) pid name user now = m
assign_port m (some (pos zero)) pid name user now = m
assign_port m (some (pos (suc n))) pid name user now = assign m (suc n % 65536) pid name "" user now

abbrev pub assign_netstat :
    Dict ℕ FlowProcessInfo → List String → Option ℤ → Time → Dict ℕ FlowProcessInfo
assign_netstat m parts none now = m
assign_netstat m parts (some pid) now =
    if leb 2 (length parts)
    then assign_port m (atoi (last_field parts)) pid (concat ("Process_" ∷ int_text pid ∷ []))
        "SYSTEM" now
    else m

-- One line of netstat.
unfoldable pub netstat_line : Dict ℕ FlowProcessInfo → List String → Time → Dict ℕ FlowProcessInfo
netstat_line m fs now =
    if leb 4 (length fs) && has_prefix (field fs 0) "TCP"
    then assign_netstat m (split b':' (field fs 1)) (atoi (last_field fs)) now
    else m

-- The text before the first "->".
unfoldable pub before_arrow : String → String
unfolding has_prefix
before_arrow String.[] = String.[]
before_arrow (String.◌∷◌ c s) =
    if has_prefix (String.◌∷◌ c s) "->" then String.[] else String.◌∷◌ c (before_arrow s)

-- One line of lsof. The number of the process is 0 where it is no numeral.
unfoldable pub lsof_line : Dict ℕ FlowProcessInfo → List String → Time → Dict ℕ FlowProcessInfo
lsof_line m fs now =
    let parts = split b':' (field fs 8) in
    if leb 9 (length fs) && leb 2 (length parts)
    then assign_port m (atoi (before_arrow (last_field parts)))
        (or_else (atoi (field fs 1)) (pos 0)) (field fs 0) (field fs 2) now
    else m

unfoldable pub each_line :
    (Dict ℕ FlowProcessInfo → List String → Time → Dict ℕ FlowProcessInfo)
    → Dict ℕ FlowProcessInfo
    → List String
    → Time
    → Dict ℕ FlowProcessInfo
each_line f m [] now = m
each_line f m (l ∷ ls) now = each_line f (f m (fields l) now) ls now

-- `refreshWindows` and `refreshMacOS`, which passes over the header
unfoldable pub refresh_windows :
    Dict ℕ FlowProcessInfo → Option String → Time → Dict ℕ FlowProcessInfo
unfolding each_line
refresh_windows m none now = m
refresh_windows m (some out) now = each_line netstat_line m (split 10 out) now

unfoldable pub refresh_mac_os :
    Dict ℕ FlowProcessInfo → Option String → Time → Dict ℕ FlowProcessInfo
unfolding each_line
refresh_mac_os m none now = m
refresh_mac_os m (some out) now = each_line lsof_line m (drop 1 (split 10 out)) now

unfoldable pub refresh_on : System → Goos → Dict ℕ FlowProcessInfo → Time → Dict ℕ FlowProcessInfo
unfolding refresh_linux refresh_windows refresh_mac_os
refresh_on sys linux m now = refresh_linux sys m now
refresh_on sys windows m now = refresh_windows m sys.netstat now
refresh_on sys darwin m now = refresh_mac_os m sys.lsof now
refresh_on sys other m now = m

-- `Refresh` at the time `now`: at most once in two seconds, unless the map is empty.
unfoldable pub refresh : System → Tracker → Time → Tracker
unfolding refresh_on
refresh sys t now =
    if ltb now (t.last_lookup + 2 * second) && ltb 0 (length t.port_map)
    then t
    else record { port_map = refresh_on sys sys.goos t.port_map now; last_lookup = now }

-- `NewTracker`
unfoldable pub new_tracker : System → Time → Tracker
new_tracker sys now = refresh sys (record { port_map = []; last_lookup = 0 }) now

abbrev pub answer : FlowProcessInfo → ℤ × String × String × String
answer info = (info.pid, info.process_name, info.executable_path, info.user)

abbrev answer_or :
    Option FlowProcessInfo → ℤ × String × String × String → ℤ × String × String × String
answer_or none other_answer = other_answer
answer_or (some info) other_answer = answer info

-- `ResolveFlow`
unfoldable resolve_flow : Tracker → FlowKey → ℤ × String × String × String
resolve_flow t fk =
    answer_or (get t.port_map fk.src_port)
      (answer_or (get t.port_map fk.dst_port) (pos 0, "System/Kernel", "-", "root"))

-- `GetProcessMatrix`
unfoldable pub get_process_matrix : Tracker → List FlowProcessInfo
get_process_matrix t = values t.port_map
