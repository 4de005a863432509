-- ===== src/Baseline/Learning.antt =====
-- `ObserveHost`: hosts do not disturb one another, a new host is learned in silence, and the nil map.
use undertow.Base.{
  ℕ, suc, ◌+◌, ◌≤◌, ◌≡◌, ◌≢◌, refl, ap, ◌∙◌, subst, inl, inr, String, Bool, true, false, ◌&&◌,
  Option, none, some, List, [], ◌∷◌, ◌++◌, arith, if◌then◌else◌, if_app, if_both, add64, Bool-cases,
}
use undertow.Base.Eq.{◌==◌, string_eq}
use undertow.Base.Dict.{Dict, get, put, get-put}
use undertow.Base.Float.{FloatOps}
use undertow.Packet.{Time, AnomalyEvent}
use undertow.Baseline.{
  HostMetrics, Config, Manager, Load, load_from_file, new_manager, host_metrics, is_warmed_up,
  int64_gt, updated, observe_known, observe_entry, observe_in, observe_host,
}

module _ (F : FloatOps) where
  abbrev count_in : Option (HostMetrics F) → ℕ
  count_in none = 0
  count_in (some hm) = hm.sample_count

  -- An entry by what it points to, and whether it is not a nil pointer.
  abbrev target : Option (Option (HostMetrics F)) → Option (HostMetrics F)
  target none = none
  target (some o) = o

  abbrev pub is_known : Option (Option (HostMetrics F)) → Bool
  is_known none = true
  is_known (some none) = false
  is_known (some (some hm)) = true

  abbrev pub is_safe : Option (Dict String (Option (HostMetrics F))) → String → Bool
  is_safe none ip = false
  is_safe (some hosts) ip = is_known (get hosts ip)

  -- The map is not nil, and no entry of it is.
  abbrev pub IsLoaded : Option (Dict String (Option (HostMetrics F))) → Type 0
  IsLoaded o = (ip : String) → is_safe o ip ≡ true

  put-IsLoaded :
      (hosts : Dict String (Option (HostMetrics F))) (ip : String) (hm : HostMetrics F)
      → IsLoaded (some hosts)
      → IsLoaded (some (put hosts ip (some hm)))
  put-IsLoaded hosts ip hm h j =
      rw get-put
        (if_both (λ (o : Option (Option (HostMetrics F))). is_known o ≡ true) (ip == j) refl (h j))

  -- How many samples a table holds of a host.
  abbrev pub samples : Dict String (Option (HostMetrics F)) → String → ℕ
  samples hosts ip = count_in (target (get hosts ip))

  -- One call of `ObserveHost`.
  pub record Sample : Type 0 where
    pub ip : String
    pub pkts_sec : F.Float
    pub bytes_sec : F.Float
    pub ports_min : F.Float
    pub now : Time

  abbrev pub after :
      Option (List AnomalyEvent × Manager F)
      → (List AnomalyEvent → Manager F → Option (List AnomalyEvent))
      → Option (List AnomalyEvent)
  after none k = none
  after (some (events, m)) k = k events m

  abbrev pub keep :
      Bool → List AnomalyEvent → Option (List AnomalyEvent) → Option (List AnomalyEvent)
  keep mine events none = none
  keep mine events (some rest) = some (if mine then events ++ rest else rest)

  -- How often a host is sampled.
  abbrev pub occurrences : String → List Sample → ℕ
  occurrences ip [] = 0
  occurrences ip (s ∷ ss) = if s.ip == ip then suc (occurrences ip ss) else occurrences ip ss

  -- The calls in order: the events of the host `ip`, or the panic.
  abbrev pub events_for : String → Manager F → List Sample → Option (List AnomalyEvent)
  events_for ip m [] = some []
  events_for ip m (s ∷ ss) =
      after (observe_host F m s.ip s.pkts_sec s.bytes_sec s.ports_min s.now)
        (λ events m'. keep (s.ip == ip) events (events_for ip m' ss))

  sample_count-host_metrics :
      (o : Option (HostMetrics F)) (ip : String) (p b q : F.Float) (now : Time)
      → (host_metrics F o ip p b q now).sample_count ≡ count_in o
  unfolding host_metrics
  sample_count-host_metrics none ip p b q now = refl
  sample_count-host_metrics (some hm) ip p b q now = refl

  -- A host with at most ten samples gives no event.
  observe_known-silent :
      (m : Manager F) (hosts : Dict String (Option (HostMetrics F))) (hm : HostMetrics F)
      (ip : String) (p b q : F.Float) (now : Time)
      → hm.sample_count ≤ 10
      → (observe_known F m hosts hm ip p b q now).0 ≡ []
  unfolding observe_known
  observe_known-silent m hosts hm ip p b q now h =
      rw (few hm.sample_count h, and_false (is_warmed_up F m hm now))
    where
      few : (n : ℕ) → n ≤ 10 → int64_gt n 10 ≡ false
      few n h = ground arith

      and_false : (x : Bool) → (x && false) ≡ false
      and_false true = refl
      and_false false = refl

  -- The table after a call: one sample more of its host, the others as they were.
  samples-observe :
      (m : Manager F) (hosts : Dict String (Option (HostMetrics F))) (hm : HostMetrics F)
      (ip j : String) (p b q : F.Float) (now : Time)
      → samples (put hosts ip (some (updated F m.config hm p b q now))) j
        ≡ (if ip == j then add64 hm.sample_count 1 else samples hosts j)
  unfolding updated
  samples-observe m hosts hm ip j p b q now = rw get-put (
      if_app (λ o. count_in (target o)) (ip == j) (some (some (updated F m.config hm p b q now)))
        (get hosts j))

  -- With a table and an entry that is not nil, a call does not panic.
  observe_entry_known :
      (m : Manager F) (hosts : Dict String (Option (HostMetrics F)))
      (o : Option (Option (HostMetrics F))) (ip : String) (p b q : F.Float) (now : Time)
      → is_known o ≡ true
      → observe_entry F m hosts o ip p b q now
        ≡ some (observe_known F m hosts (host_metrics F (target o) ip p b q now) ip p b q now)
  observe_entry_known m hosts none ip p b q now k = unfold observe_entry in refl
  observe_entry_known m hosts (some none) ip p b q now k = absurd (ground (arith, k))
  observe_entry_known m hosts (some (some hm)) ip p b q now k = unfold observe_entry in refl

  observe_host_known :
      (m : Manager F) (hosts : Dict String (Option (HostMetrics F))) (ip : String) (p b q : F.Float)
      (now : Time)
      → m.hosts ≡ some hosts
      → IsLoaded (some hosts)
      → observe_host F m ip p b q now
        ≡ some (
            observe_known F m hosts
              (host_metrics F (target (get hosts ip)) ip p b q now)
              ip
              p
              b
              q
              now)
  unfolding observe_host
  observe_host_known m hosts ip p b q now e k =
      ap (λ o. observe_in F m o ip p b q now) e
      ∙ observe_entry_known m hosts (get hosts ip) ip p b q now (k ip)

  -- With such a table a call gives events and a manager that has such a table again.
  pub observe_host-IsLoaded :
      (m : Manager F) (ip : String) (p b q : F.Float) (now : Time)
      → IsLoaded m.hosts
      → (r : List AnomalyEvent × Manager F) × (observe_host F m ip p b q now ≡ some r)
        × IsLoaded r.1.hosts
  unfolding observe_host observe_known
  observe_host-IsLoaded m ip p b q now h = at m.hosts h
    where
      at :
          (o : Option (Dict String (Option (HostMetrics F))))
          → IsLoaded o
          → (r : List AnomalyEvent × Manager F) × (observe_in F m o ip p b q now ≡ some r)
            × IsLoaded r.1.hosts
      at none e = absurd (ground (arith, e ip))
      at (some hosts) e = (
        observe_known F m hosts (host_metrics F (target (get hosts ip)) ip p b q now) ip p b q now,
        observe_entry_known m hosts (get hosts ip) ip p b q now (e ip),
        put-IsLoaded hosts ip _ e,
      )

  hosts-observe_known :
      (m : Manager F) (hosts : Dict String (Option (HostMetrics F))) (hm : HostMetrics F)
      (ip : String) (p b q : F.Float) (now : Time)
      → (observe_known F m hosts hm ip p b q now).1.hosts
        ≡ some (put hosts ip (some (updated F m.config hm p b q now)))
  unfolding observe_known
  hosts-observe_known m hosts hm ip p b q now = refl

  -- The metrics that a sample meets, and the table after it.
  abbrev metrics_at : Dict String (Option (HostMetrics F)) → Sample → HostMetrics F
  metrics_at hosts s =
      host_metrics F (target (get hosts s.ip)) s.ip s.pkts_sec s.bytes_sec s.ports_min s.now

  abbrev hosts_after :
      Manager F
      → Dict String (Option (HostMetrics F))
      → Sample
      → Dict String (Option (HostMetrics F))
  hosts_after m hosts s =
      put hosts s.ip
        (some (updated F m.config (metrics_at hosts s) s.pkts_sec s.bytes_sec s.ports_min s.now))

  counted :
      (hosts : Dict String (Option (HostMetrics F))) (s : Sample)
      → (metrics_at hosts s).sample_count ≡ samples hosts s.ip
  counted hosts s =
      sample_count-host_metrics (target (get hosts s.ip)) s.ip s.pkts_sec s.bytes_sec s.ports_min
        s.now

  -- Where the samples of a host and those to come are eleven at most, it has ten at most when one of
  -- them comes, and the bound holds again after it.
  room_before :
      (hosts : Dict String (Option (HostMetrics F))) (ip : String) (s : Sample) (ss : List Sample)
      → samples hosts ip + occurrences ip (s ∷ ss) ≤ 11
      → s.ip == ip ≡ true
      → (metrics_at hosts s).sample_count + suc (occurrences ip ss) ≤ 11
  room_before hosts ip s ss h k =
      rw (counted hosts s, (string_eq.same_iff s.ip ip).0 k)
        (subst
          (λ b. samples hosts ip + (if b then suc (occurrences ip ss) else occurrences ip ss) ≤ 11)
          k h)

  room_after :
      (m : Manager F) (hosts : Dict String (Option (HostMetrics F))) (ip : String) (s : Sample)
      (ss : List Sample)
      → samples hosts ip + occurrences ip (s ∷ ss) ≤ 11
      → samples (hosts_after m hosts s) ip + occurrences ip ss ≤ 11
  room_after m hosts ip s ss h =
      rw
        (samples-observe m hosts (metrics_at hosts s) s.ip ip s.pkts_sec s.bytes_sec s.ports_min
          s.now)
        (elim (Bool-cases (s.ip == ip)) [
          | inl k ↦ rw k (omega (arith, room_before hosts ip s ss h k))
          | inr k ↦ rw k (
              subst
                (λ b.
                  samples hosts ip + (if b then suc (occurrences ip ss) else occurrences ip ss)
                  ≤ 11)
                k h)
        ])

  quiet_before :
      (m : Manager F) (hosts : Dict String (Option (HostMetrics F))) (ip : String) (s : Sample)
      (ss : List Sample)
      → samples hosts ip + occurrences ip (s ∷ ss) ≤ 11
      → s.ip == ip ≡ true
      → (observe_known F m hosts
          (metrics_at hosts s)
          s.ip
          s.pkts_sec
          s.bytes_sec
          s.ports_min
          s.now).0
        ≡ []
  quiet_before m hosts ip s ss h k =
      observe_known-silent m hosts (metrics_at hosts s) s.ip s.pkts_sec s.bytes_sec s.ports_min
        s.now (omega (arith, room_before hosts ip s ss h k))

  -- The first eleven samples of a host give no event, whatever is observed of other hosts between
  -- them, and no call panics, if the map is not nil and none of its entries is.
  pub learning_silent :
      (ip : String) (m : Manager F) (hosts : Dict String (Option (HostMetrics F)))
      (ss : List Sample)
      → m.hosts ≡ some hosts
      → IsLoaded (some hosts)
      → samples hosts ip + occurrences ip ss ≤ 11
      → events_for ip m ss ≡ some []
  learning_silent ip m hosts [] e k h = refl
  learning_silent ip m hosts (s ∷ ss) e k h =
      let hm = metrics_at hosts s in
      rw
        (
          observe_host_known m hosts s.ip s.pkts_sec s.bytes_sec s.ports_min s.now e k,
          learning_silent ip
              (observe_known F m hosts hm s.ip s.pkts_sec s.bytes_sec s.ports_min s.now).1
              (hosts_after m hosts s) ss
              (hosts-observe_known m hosts hm s.ip s.pkts_sec s.bytes_sec s.ports_min s.now)
              (put-IsLoaded hosts s.ip _ k) (room_after m hosts ip s ss h),
        )
        (elim (Bool-cases (s.ip == ip)) [
          | inl a ↦ rw (a, quiet_before m hosts ip s ss h a)
          | inr a ↦ rw a
        ])

  -- A baseline file that holds `null` makes the table nil: the first observation panics.
  pub null_file_panics :
      (load : Load F) (cfg : Config F) (start : Time) (s : Sample)
      → cfg.file_path ≢ ""
      → load cfg.file_path ≡ some none
      → observe_host F (new_manager F load cfg start) s.ip s.pkts_sec s.bytes_sec s.ports_min s.now
        ≡ none
  unfolding new_manager load_from_file observe_host
  null_file_panics load cfg start s h e = rw (path, e)
    where
      path : (cfg.file_path == "") ≡ false
      path = ground (arith, string_eq.same_iff cfg.file_path "")
