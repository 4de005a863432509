-- ===== src/Examples/Detection.antt =====
-- The detector and the baseline at concrete inputs.
use undertow.Base.{
  ◌≡◌, ◌≤◌, ◌<◌, ◌*◌, ◌+◌, refl, true, none, some, List, [], ◌∷◌, All, arith, length,
}
use undertow.Base.Eq.{string_eq}
use undertow.Base.Dict.{get}
use undertow.Anomaly.{TimestampedPort, Detector, check_packet, check_port_scan}
use undertow.Anomaly.Scan.{IsQuiet, any, scan_run, scan_detected, check_port_scan-IsQuiet, history}
use undertow.Anomaly.Transfer.{transfer_alerts, transfer_alerts_once}
use undertow.Anomaly.Events.{IsFrom, check_packet-IsFrom}
use undertow.Baseline.{Manager, observe_host, new_manager}
use undertow.Baseline.Learning.{Sample, events_for, learning_silent, null_file_panics}
use undertow.Examples.Data.{halves, first, second, big_flow, detector_config, baseline_config}

abbrev detector : Detector halves
detector = record { config = detector_config; port_scan_track = []; flagged_flows = [] }

abbrev ports : List TimestampedPort
ports =
    record { port = 80; timestamp = 1_000_000_000 }
    ∷ record { port = 443; timestamp = 3_000_000_000 }
    ∷ []

detector-IsQuiet : IsQuiet halves detector
unfolding get
detector-IsQuiet = record { below = λ ip. omega arith }

scan_detected_example : any halves (scan_run halves detector "10.0.0.1" ports) ≡ true
unfolding get
scan_detected_example =
    scan_detected halves detector "10.0.0.1" ports (omega arith) detector-IsQuiet
      (tt, ((omega arith, tt), tt)) (omega arith)

check_port_scan-IsQuiet_example :
    IsQuiet halves (check_port_scan halves detector "10.0.0.1" 80 1_000_000_000).1
    × All
        (λ e. 1_000_000_000 < e.timestamp + 10 * 1_000_000_000)
        (history halves (check_port_scan halves detector "10.0.0.1" 80 1_000_000_000).1 "10.0.0.1")
check_port_scan-IsQuiet_example =
    check_port_scan-IsQuiet halves detector "10.0.0.1" 80 1_000_000_000 (omega arith) (omega arith)
      detector-IsQuiet

transfer_alerts_once_example :
    transfer_alerts halves big_flow.key detector
        ((first, some big_flow) ∷ (second, some big_flow) ∷ [])
      + 0
    ≤ 1
unfolding get
transfer_alerts_once_example =
    transfer_alerts_once halves big_flow.key detector
      ((first, some big_flow) ∷ (second, some big_flow) ∷ [])

check_packet-IsFrom_example :
    All (IsFrom halves first "10.0.0.1" refl) (check_packet halves detector first (some big_flow)).0
    × (length (check_packet halves detector first (some big_flow)).0 ≤ 3)
check_packet-IsFrom_example =
    check_packet-IsFrom halves first "10.0.0.1" refl detector (some big_flow)

abbrev sample : Sample halves
sample = record { ip = "10.0.0.1"; pkts_sec = 20; bytes_sec = 4000; ports_min = 2; now = 100 }

abbrev manager : Manager halves
manager = record { hosts = some []; config = baseline_config; start_time = 0 }

learning_silent_example :
    events_for halves "10.0.0.1" manager (sample ∷ sample ∷ sample ∷ []) ≡ some []
unfolding get
learning_silent_example =
    learning_silent halves "10.0.0.1" manager [] (sample ∷ sample ∷ sample ∷ []) refl (λ ip. refl)
      (omega arith)

null_file_panics_example :
    observe_host halves
      (new_manager halves (λ path. some none) baseline_config 0)
      "10.0.0.1"
      20
      4000
      2
      100
    ≡ none
null_file_panics_example =
    null_file_panics halves (λ path. some none) baseline_config 0 sample
      (ground (arith, string_eq.same_iff "baseline.json" "")) refl
