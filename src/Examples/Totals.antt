-- ===== src/Examples/Totals.antt =====
-- The aggregator at a concrete schedule.
use mathlib.Core.List.{Perm}
use undertow.Base.{ℕ, ◌≡◌, refl, String, Bool, true, Option, none, List, [], ◌∷◌, last}
use undertow.Base.Dict.{Dict, values}
use undertow.Base.Eq.{string_eq}
use undertow.Base.Sort.{desc, IsSorted}
use undertow.Ring
use undertow.Ring.{slice, push_all}
use undertow.Ring.Refine.{slice-push_all-new}
use undertow.Baseline.{HostMetrics, new_manager, load_from_file}
use undertow.Stats.{total_bytes}
use undertow.Stats.Manager.{StatsManager, new_stats_manager, get_snapshot, publish_snapshot}
use undertow.Stats.Lookup.{top_talkers_ranked}
use undertow.Aggregator.{Event, done, packet, second_tick, snap_tick, add_packets, run}
use undertow.Aggregator.Book.{empty, log_run}
use undertow.Aggregator.Run.{IsGoodOutcome, run_from_start}
use undertow.Examples.Data.{halves, first, second, third, detector_config, baseline_config}

slice-push_all-new_example :
    slice {T = ℕ} 0 (push_all (Ring.new 0 2) (1 ∷ 2 ∷ 3 ∷ [])) ≡ last 2 (1 ∷ 2 ∷ 3 ∷ [])
slice-push_all-new_example = slice-push_all-new 0 2 (1 ∷ 2 ∷ 3 ∷ [])

abbrev started : StatsManager halves
started = new_stats_manager halves 2 2 2 none detector_config baseline_config (λ path. none) "" 0

abbrev schedule : List Event
schedule =
    packet first ∷ second_tick 10 11 ∷ packet second ∷ snap_tick 12 ∷ done (third ∷ []) 13 ∷ []

abbrev dir : String → String
dir path = ""

abbrev mkdir : String → Bool
mkdir path = true

abbrev marshal : Option (Dict String (Option (HostMetrics halves))) → Option String
marshal hosts = none

abbrev write : String → String → Bool
write path text = true

run_from_start_example :
    IsGoodOutcome halves
      (run halves dir mkdir marshal write started schedule)
      (log_run empty schedule)
unfolding new_manager load_from_file undertow.Base.Dict.get
run_from_start_example =
    run_from_start halves 2 2 2 none detector_config baseline_config (λ path. none) "" 0 dir mkdir
      marshal write schedule (λ ip. refl)

abbrev busy : StatsManager halves
busy = add_packets halves started (first ∷ third ∷ second ∷ [])

top_talkers_ranked_example :
    Perm
      (get_snapshot halves
        (record (publish_snapshot halves busy 20) { stats = started.stats })).top_talkers
      (values busy.stats.top_talkers)
    × IsSorted
        (desc total_bytes)
        (get_snapshot halves
          (record (publish_snapshot halves busy 20) { stats = started.stats })).top_talkers
top_talkers_ranked_example = top_talkers_ranked halves busy 20 started.stats
