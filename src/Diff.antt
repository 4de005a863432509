-- ===== src/Diff.antt =====
-- internal/diff/diff.go: two exported snapshots compared. Reading the files and parsing the JSON are a
-- parameter; the order of a map's keys is that of its entries.
pub mod Endpoints
use undertow.Base.{
  ℕ, ◌+◌, ◌-◌, ◌%◌, String, Bool, Option, none, some, List, [], ◌∷◌, ◌++◌, map, ltb, if◌then◌else◌,
  is_some, u64_mod, length, get_or,
}
use undertow.Base.Eq.{string_eq}
use undertow.Base.Dict.{Dict, get, put}
use undertow.Base.Text.{concat, dec}
use undertow.Base.Strings.{split}
use undertow.Base.Float.{FloatOps}
use undertow.Stats.{TalkerStat, total_bytes, Snapshot}

-- `mapA[t.IP] = t` for every talker: a later one takes the place of an earlier one.
unfoldable pub by_ip : Dict String TalkerStat → List TalkerStat → Dict String TalkerStat
by_ip m [] = m
by_ip m (t ∷ ts) = by_ip (put m t.ip t) ts

-- The loops over the keys of one map that the other one lacks: `range mapB`, and `range mapA`.
unfoldable pub new_endpoints : Dict String TalkerStat → Dict String TalkerStat → List String
new_endpoints a [] = []
new_endpoints a ((ip, stat_b) ∷ b) =
    let rest = new_endpoints a b in if is_some (get a ip) then rest else ip ∷ rest

unfoldable pub removed_endpoints : Dict String TalkerStat → Dict String TalkerStat → List String
removed_endpoints [] b = []
removed_endpoints ((ip, stat_a) ∷ a) b =
    let rest = removed_endpoints a b in if is_some (get b ip) then rest else ip ∷ rest

-- `filepathBase`
unfoldable pub filepath_base : String → String
filepath_base path =
    let parts = split b'/' path in
    if ltb 0 (length parts) then get_or parts (length parts - 1) "" else path

-- `int64(b) - int64(a)`, as the 64 bits that it has
abbrev sub64 : ℕ → ℕ → ℕ
sub64 b a = (b + u64_mod - a) % u64_mod

abbrev section : String → String → String → List String → List String
section title closing mark [] = []
section title closing mark (e ∷ es) =
    title
    ∷ dec (length (e ∷ es))
    ∷ closing
    ∷ map (λ s. concat ("   " ∷ mark ∷ " " ∷ s ∷ "\n" ∷ [])) (e ∷ es)

module _ (F : FloatOps) where
  pub record DiffResult : Type 0 where
    pub new_endpoints : List String
    pub removed_endpoints : List String
    pub drifted_talkers : List String
    pub new_ja3_hashes : List String
    pub total_bytes_diff_pct : F.Float
    pub total_packets_diff : ℕ
    pub summary_text : String

  -- The line for a host in both maps, where its traffic changed by more than 20 per cent.
  unfoldable pub drift_line : String → TalkerStat → TalkerStat → List String
  drift_line ip stat_a stat_b =
      let bytes_a = F.of_nat (total_bytes stat_a) in
      let bytes_b = F.of_nat (total_bytes stat_b) in
      let drift = F.mul (F.abs (F.div (F.sub bytes_b bytes_a) bytes_a)) (F.of_nat 100) in
      if F.gt bytes_a (F.of_nat 0)
      then (if F.gt drift (F.of_nat 20)
          then concat (
              ip
              ∷ ": "
              ∷ F.fixed 1 (F.div bytes_a (F.of_nat 1048576))
              ∷ " MB -> "
              ∷ F.fixed 1 (F.div bytes_b (F.of_nat 1048576))
              ∷ " MB (Drift: "
              ∷ F.fixed 1 drift
              ∷ "%)"
              ∷ [])
            ∷ []
          else [])
      else []

  abbrev drift_of : String → Option TalkerStat → TalkerStat → List String
  drift_of ip none stat_b = []
  drift_of ip (some stat_a) stat_b = drift_line ip stat_a stat_b

  unfoldable pub drifted : Dict String TalkerStat → Dict String TalkerStat → List String
  drifted a [] = []
  drifted a ((ip, stat_b) ∷ b) = drift_of ip (get a ip) stat_b ++ drifted a b

  abbrev bytes_pct : ℕ → ℕ → F.Float
  bytes_pct a b =
      if ltb 0 a
      then F.mul (F.div (F.sub (F.of_nat b) (F.of_nat a)) (F.of_nat a)) (F.of_nat 100)
      else F.of_nat 0

  -- The text for the terminal
  unfoldable pub summary_of :
      String
      → String
      → Snapshot
      → Snapshot
      → F.Float
      → List String
      → List String
      → List String
      → String
  summary_of file_a file_b a b pct added removed drift = concat (
      ("========================================================\n"
        ∷ " 🔍 UNDERTOW SESSION SNAPSHOT DIFF: "
        ∷ filepath_base file_a
        ∷ " vs "
        ∷ filepath_base file_b
        ∷ "\n"
        ∷ "========================================================\n\n"
        ∷ "• Total Traffic Drift: "
        ∷ F.fixed 1 pct
        ∷ "% ("
        ∷ dec a.total_packets
        ∷ " -> "
        ∷ dec b.total_packets
        ∷ " packets)\n"
        ∷ [])
      ++ (section "\n➕ New Active Endpoints (" "):\n" "+" added
          ++ (section "\n➖ Removed Endpoints (" "):\n" "-" removed
              ++ section "\n📈 Host Throughput Deviations (>20% Drift) (" "):\n" "~" drift)))

  unfoldable pub compare_loaded : String → String → Snapshot → Snapshot → DiffResult
  compare_loaded file_a file_b a b =
      let map_a = by_ip [] a.top_talkers in
      let map_b = by_ip [] b.top_talkers in
      let pct = bytes_pct a.total_bytes b.total_bytes in
      record {
        new_endpoints = new_endpoints map_a map_b;
        removed_endpoints = removed_endpoints map_a map_b;
        drifted_talkers = drifted map_a map_b;
        new_ja3_hashes = [];
        total_bytes_diff_pct = pct;
        total_packets_diff = sub64 b.total_packets a.total_packets;
        summary_text =
            summary_of file_a file_b a b pct (new_endpoints map_a map_b)
              (removed_endpoints map_a map_b) (drifted map_a map_b);
      }

  compare_from : String → String → Option Snapshot → Option Snapshot → Option DiffResult
  compare_from file_a file_b none b = none
  compare_from file_a file_b (some a) none = none
  compare_from file_a file_b (some a) (some b) = some (compare_loaded file_a file_b a b)

  -- `CompareSnapshots`; `load_snapshot` reads and parses a file, `none` where that fails.
  unfoldable compare_snapshots : (String → Option Snapshot) → String → String → Option DiffResult
  unfolding compare_from
  compare_snapshots load_snapshot file_a file_b =
      compare_from file_a file_b (load_snapshot file_a) (load_snapshot file_b)
