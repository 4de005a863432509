-- ===== src/Anomaly/Scan.antt =====
-- `checkPortScan`: when it alerts, and what it keeps.
use mathlib.Core.List.{append-nil, append_assoc}
use undertow.Base.{
  ℕ, suc, ◌+◌, ◌*◌, ◌≤◌, ◌<◌, ◌^◌, ltb, ◌≡◌, refl, sym, ◌∙◌, ap, inl, inr, String, Bool, true,
  false, List, [], ◌∷◌, ◌++◌, map, arith, leb, if◌then◌else◌, is_some, length, filter, All,
  All-append, All-filter, Bool-cases, ◌||◌, ltb→lt, lt→ltb,
}
use undertow.Base.Eq.{◌==◌, string_eq, number_eq}
use undertow.Base.Dict.{Dict, get, put, or_else, get-put}
use undertow.Base.Float.{FloatOps}
use undertow.Base.Int.{is_after-negated}
use undertow.Packet.{Time, second}
use undertow.Anomaly.{
  TimestampedPort, in_window, distinct_ports, Detector, scan_entries, check_port_scan,
}

-- How many distinct numbers a list holds: each one counts at its last occurrence.
abbrev occurs : ℕ → List ℕ → Bool
occurs x [] = false
occurs x (y ∷ ys) = if y == x then true else occurs x ys

abbrev count_distinct : List ℕ → ℕ
count_distinct [] = 0
count_distinct (x ∷ xs) = if occurs x xs then count_distinct xs else suc (count_distinct xs)

length-put :
    (m : Dict ℕ Bool) (k : ℕ) (v : Bool)
    → length (put m k v) ≡ (if is_some (get m k) then length m else suc (length m))
unfolding put get
length-put [] k v = refl
length-put ((j, w) ∷ m) k v = ground (arith, length-put m k v)

-- The map's keys are the ports that occur.
get-distinct_ports :
    (es : List TimestampedPort) (k : ℕ)
    → is_some (get (distinct_ports es) k) ≡ occurs k (map (λ e. e.port) es)
unfolding distinct_ports get
get-distinct_ports [] k = refl
get-distinct_ports (e ∷ es) k = rw get-put (ground (arith, get-distinct_ports es k))

length-distinct_ports :
    (es : List TimestampedPort) → length (distinct_ports es) ≡ count_distinct (map (λ e. e.port) es)
unfolding distinct_ports
length-distinct_ports [] = refl
length-distinct_ports (e ∷ es) = rw (
  length-put (distinct_ports es) e.port true,
  get-distinct_ports es e.port,
  length-distinct_ports es,
)

abbrev ports : List TimestampedPort → List ℕ
ports es = map (λ e. e.port) es

module _ (F : FloatOps) where
  -- The host's history, and the part of it that is still in the window.
  abbrev pub history : Detector F → String → List TimestampedPort
  history d ip = or_else (get d.port_scan_track ip) []

  abbrev pub recent : Detector F → String → Time → List TimestampedPort
  recent d ip now = filter (in_window now d.config.scan_window_sec) (history d ip)

  -- `checkPortScan` alerts exactly when the distinct ports among the recent history of the host and
  -- the new one reach the threshold.
  check_port_scan_exact :
      (d : Detector F) (ip : String) (port : ℕ) (now : Time)
      → is_some (check_port_scan F d ip port now).0
        ≡ leb d.config.scan_threshold (
            count_distinct
              (map (λ e. e.port) (recent d ip now ++ record { port = port; timestamp = now } ∷ [])))
  unfolding check_port_scan scan_entries
  check_port_scan_exact d ip port now =
      rw length-distinct_ports
        (elim (Bool-cases
          (leb d.config.scan_threshold (count_distinct (ports (scan_entries F d ip port now))))) [
            | inl h ↦ rw h
            | inr h ↦ rw h
          ])

  -- What `checkPortScan` leaves as the history of a host.
  history-check_port_scan :
      (d : Detector F) (ip j : String) (port : ℕ) (now : Time)
      → history (check_port_scan F d ip port now).1 j ≡ (
          if ip == j
          then (if is_some (check_port_scan F d ip port now).0
              then []
              else recent d ip now ++ record { port = port; timestamp = now } ∷ [])
          else history d j)
  unfolding check_port_scan scan_entries
  history-check_port_scan d ip j port now =
      elim (Bool-cases
        (leb d.config.scan_threshold (length (distinct_ports (scan_entries F d ip port now))))) [
          | inl h ↦ rw (h, get-put) (ground arith)
          | inr h ↦ rw (h, get-put) (ground arith)
        ]

  config-check_port_scan :
      (d : Detector F) (ip : String) (port : ℕ) (now : Time)
      → (check_port_scan F d ip port now).1.config ≡ d.config
  unfolding check_port_scan
  config-check_port_scan d ip port now =
      elim (Bool-cases
        (leb d.config.scan_threshold (length (distinct_ports (scan_entries F d ip port now))))) [
          | inl h ↦ rw h
          | inr h ↦ rw h
        ]

  -- No host's history has reached the threshold.
  pub record IsQuiet (d : Detector F) : Type 0 where
    pub below : (ip : String) → count_distinct (ports (history d ip)) < d.config.scan_threshold

  check-IsQuiet :
      (d : Detector F) (ip : String) (port : ℕ) (now : Time)
      → IsQuiet d
      → IsQuiet (check_port_scan F d ip port now).1
  check-IsQuiet d ip port now q = record {
    below = λ j.
        rw (config-check_port_scan, history-check_port_scan)
          (ground (arith, check_port_scan_exact d ip port now, q.below j));
  }

  -- Without an alert the host's history is what was recent and the new entry.
  history_silent :
      (d : Detector F) (ip : String) (port : ℕ) (now : Time)
      → is_some (check_port_scan F d ip port now).0 ≡ false
      → history (check_port_scan F d ip port now).1 ip
        ≡ recent d ip now ++ record { port = port; timestamp = now } ∷ []
  history_silent d ip port now h =
      rw (history-check_port_scan, (string_eq.same_iff ip ip).1 refl, h)

  -- A window of seconds whose nanoseconds fit an int64: what is in it, and a history within it.
  in_window-fits :
      (now n : ℕ) (e : TimestampedPort)
      → n * second < 2 ^ 63
      → in_window now n e ≡ ltb now (e.timestamp + n * second)
  in_window-fits now n e fits = is_after-negated e.timestamp now n second (omega arith) fits

  -- With a window of at least a second whose nanoseconds fit an int64: after every packet no host's
  -- history holds as many distinct ports as the threshold if that was so before, and every entry kept
  -- for the packet's host is within the window of the packet.
  pub check_port_scan-IsQuiet :
      (d : Detector F) (ip : String) (port : ℕ) (now : Time)
      → 0 < d.config.scan_window_sec
      → d.config.scan_window_sec * second < 2 ^ 63
      → IsQuiet d
      → IsQuiet (check_port_scan F d ip port now).1
        × All
            (λ e. now < e.timestamp + d.config.scan_window_sec * second)
            (history (check_port_scan F d ip port now).1 ip)
  check_port_scan-IsQuiet d ip port now w fits q = (check-IsQuiet d ip port now q, within)
    where
      within :
          All
            (λ e. now < e.timestamp + d.config.scan_window_sec * second)
            (history (check_port_scan F d ip port now).1 ip)
      within = elim (Bool-cases (is_some (check_port_scan F d ip port now).0)) [
        | inl h ↦ rw (history-check_port_scan, (string_eq.same_iff ip ip).1 refl, h) tt
        | inr h ↦ rw (history_silent d ip port now h) (
            All-append
              (λ (e : TimestampedPort). now < e.timestamp + d.config.scan_window_sec * second)
              (recent d ip now) (record { port = port; timestamp = now } ∷ [])
              (All-filter
                (λ (e : TimestampedPort). now < e.timestamp + d.config.scan_window_sec * second)
                (in_window now d.config.scan_window_sec) (history d ip)
                (λ e k.
                  ltb→lt now (e.timestamp + d.config.scan_window_sec * second)
                    (sym (in_window-fits now d.config.scan_window_sec e fits) ∙ k)))
              (omega arith, tt))
      ]

  -- The alerts of a run of packets from one host.
  abbrev pub scan_run : Detector F → String → List TimestampedPort → List Bool
  scan_run d ip [] = []
  scan_run d ip (e ∷ es) =
      let (o, d') = check_port_scan F d ip e.port e.timestamp in is_some o ∷ scan_run d' ip es

  abbrev pub any : List Bool → Bool
  any [] = false
  any (b ∷ bs) = b || any bs

  -- No entry leaves the window while the packets `es` arrive after the history `h`.
  abbrev StaysInWindow : ℕ → List TimestampedPort → List TimestampedPort → Type 0
  StaysInWindow w h [] = Unit
  StaysInWindow w h (e ∷ es) =
      All (λ x. e.timestamp < x.timestamp + w) h × StaysInWindow w (h ++ e ∷ []) es

  filter_same :
      (now n : ℕ) (h : List TimestampedPort)
      → n * second < 2 ^ 63
      → All (λ x. now < x.timestamp + n * second) h
      → filter (in_window now n) h ≡ h
  filter_same now n [] fits a = refl
  filter_same now n (x ∷ h) fits a = rw (
    in_window-fits now n x fits,
    lt→ltb now (x.timestamp + n * second) a.0,
    filter_same now n h fits a.1,
  )

  -- From a detector where no history has reached the threshold, with a window whose nanoseconds fit
  -- an int64: a host whose packets, together with its history, reach the threshold of distinct ports
  -- without any entry leaving the window is reported.
  pub scan_detected :
      (d : Detector F) (ip : String) (es : List TimestampedPort)
      → d.config.scan_window_sec * second < 2 ^ 63
      → IsQuiet d
      → StaysInWindow (d.config.scan_window_sec * second) (history d ip) es
      → d.config.scan_threshold ≤ count_distinct (ports (history d ip ++ es))
      → any (scan_run d ip es) ≡ true
  scan_detected d ip [] fits q s h =
      absurd
        (omega (arith, q.below ip, ap (λ l. count_distinct (ports l)) (append-nil (history d ip))))
  scan_detected d ip (e ∷ es) fits q s h =
      elim (Bool-cases (is_some (check_port_scan F d ip e.port e.timestamp).0)) [
        | inl a ↦ rw a
        | inr a ↦ rw a (
            scan_detected (check_port_scan F d ip e.port e.timestamp).1 ip es
              (rw config-check_port_scan fits) (check-IsQuiet d ip e.port e.timestamp q)
              (rw (config-check_port_scan, kept a) s.1)
              (rw (config-check_port_scan, kept a, append_assoc) h))
      ]
    where
      kept :
          is_some (check_port_scan F d ip e.port e.timestamp).0 ≡ false
          → history (check_port_scan F d ip e.port e.timestamp).1 ip ≡ history d ip ++ e ∷ []
      kept a =
          history_silent d ip e.port e.timestamp a
          ∙ ap (λ l. l ++ e ∷ [])
              (filter_same e.timestamp d.config.scan_window_sec (history d ip) fits s.0)
