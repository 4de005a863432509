-- ===== src/Command/Plan.antt =====
-- What a run of the program leaves behind: reports and recordings.
use undertow.Base.{
  ◌≡◌, refl, ap, ◌∙◌, inl, inr, String, true, not, ◌&&◌, ◌||◌, Option, none, some, List, [], ◌∷◌,
  ◌++◌, map, nat_eq, if◌then◌else◌, Bool-cases, if_both, if_app,
}
use mathlib.Core.List.{append-nil}
use undertow.Base.Strings.{contains}
use undertow.Base.Eq.{◌==◌, string_eq}
use undertow.Base.Float.{FloatOps}
use undertow.Stats.{Snapshot}
use undertow.Outbound.{apply_bpf_filter}
use undertow.Command.{
  Flags, Answers, Action, prints, opens_handle, captures, closes_handle, closes_recorder, shows,
  exports, Ended, before, export_file, is_headless, fed, device_line, listed_devices, load_feed,
  served, served_addr, list_interfaces, handle_diff_subcommand,
}
use undertow.Command.Modes.{
  replay_line, dashboard_ended, replay_opened, live_line, live_shown, exported, live_running,
  recorder_made, filter_applied, handle_opened, live_mode, replay_mode, main,
}

abbrev put_first : Option String → List String → List String
put_first none rest = rest
put_first (some file) rest = file ∷ rest

put_first-append :
    (o : Option String) (xs ys : List String) → put_first o (xs ++ ys) ≡ put_first o xs ++ ys
put_first-append none xs ys = refl
put_first-append (some file) xs ys = refl

module _ (F : FloatOps) where
  abbrev report : Action F → Option String
  report (exports file) = some file
  report action = none

  -- The files of the reports that are exported.
  abbrev pub exported_files : List (Action F) → List String
  exported_files [] = []
  exported_files (x ∷ xs) = put_first (report x) (exported_files xs)

  exported_files-append :
      (xs ys : List (Action F)) → exported_files (xs ++ ys) ≡ exported_files xs ++ exported_files ys
  exported_files-append [] ys = refl
  exported_files-append (x ∷ xs) ys =
      ap (put_first (report x)) (exported_files-append xs ys)
      ∙ put_first-append (report x) (exported_files xs) (exported_files ys)

  -- Actions among which nothing is exported.
  abbrev IsPlain : List (Action F) → Type 0
  IsPlain xs = exported_files xs ≡ []

  append-IsPlain : (xs ys : List (Action F)) → IsPlain xs → IsPlain ys → IsPlain (xs ++ ys)
  append-IsPlain xs ys h k = exported_files-append xs ys ∙ rw (h, k)

  skip-IsPlain :
      (xs ys : List (Action F)) → IsPlain xs → exported_files (xs ++ ys) ≡ exported_files ys
  skip-IsPlain xs ys h = exported_files-append xs ys ∙ rw h

  map-IsPlain :
      (f : Snapshot → Action F) (snaps : List Snapshot)
      → ((s : Snapshot) → report (f s) ≡ none)
      → IsPlain (map f snaps)
  map-IsPlain f [] h = refl
  map-IsPlain f (s ∷ ss) h = rw h (map-IsPlain f ss h)

  module _ (a : Answers F) (fl : Flags F) where
    served-IsPlain : IsPlain (served F fl)
    served-IsPlain = if_both IsPlain (not (served_addr F fl == "")) refl refl

    dashboard_ended-IsPlain : (o : Option String) → IsPlain (dashboard_ended F a fl o)
    dashboard_ended-IsPlain none = refl
    dashboard_ended-IsPlain (some err) = refl

    load_feed-IsPlain : IsPlain (load_feed F a fl)
    unfolding load_feed
    load_feed-IsPlain =
        if_both IsPlain (not (fl.threat_feed_file == ""))
          (fed-IsPlain (a.feed_error fl.threat_feed_file)) refl
      where
        fed-IsPlain : (o : Option String) → IsPlain (fed F fl.threat_feed_file o)
        fed-IsPlain none = refl
        fed-IsPlain (some err) = refl

    list_interfaces-IsPlain : IsPlain (list_interfaces F a)
    unfolding list_interfaces
    list_interfaces-IsPlain = listed a.devices
      where
        listed : (o : Option (List (String × List String))) → IsPlain (listed_devices F a o)
        listed none = refl
        listed (some devs) = lines devs
          where
            lines : (devs' : List (String × List String)) → IsPlain (map (device_line F) devs')
            lines [] = refl
            lines (d ∷ ds) = lines ds

    replay_mode-IsPlain : IsPlain (replay_mode F a fl).actions
    unfolding replay_mode
    replay_mode-IsPlain = opened (a.replay_error fl.replay_file)
      where
        opened : (o : Option String) → IsPlain (replay_opened F a fl o).actions
        opened (some err) = refl
        opened none =
            skip-IsPlain (served F fl) _ served-IsPlain
            ∙ if_both IsPlain (is_headless F fl)
                (map-IsPlain (replay_line F a fl) a.ticks (λ s. refl))
                (dashboard_ended-IsPlain a.dashboard_error)

    -- A run in live mode that does not fail exports the report; one that fails exports nothing.
    abbrev Reports : Ended F → Type 0
    Reports e =
        exported_files e.actions
        ≡ (if nat_eq e.code 0 && not (export_file F fl == "") then export_file F fl ∷ [] else [])

    exported-Reports :
        exported_files (exported F a fl)
        ≡ (if not (export_file F fl == "") then export_file F fl ∷ [] else [])
    exported-Reports = if_app exported_files (not (export_file F fl == "")) _ _

    live_running-Reports :
        (deferred : List (Action F)) → IsPlain deferred → Reports (live_running F a fl deferred)
    live_running-Reports deferred h =
        skip-IsPlain (served F fl) _ served-IsPlain
        ∙ skip-IsPlain (captures fl.iface ∷ live_shown F a fl) (exported F a fl ++ deferred) (
            if_both IsPlain (is_headless F fl) {s = prints _ ∷ map (live_line F a fl) a.ticks}
              {t = shows fl.iface fl.filter_expr true fl.redact_ips
                ∷ dashboard_ended F a fl a.dashboard_error}
              (map-IsPlain (live_line F a fl) a.ticks (λ s. refl))
              (dashboard_ended-IsPlain a.dashboard_error))
        ∙ exported_files-append (exported F a fl) deferred
        ∙ rw h (append-nil _)
        ∙ exported-Reports

    recorder_made-Reports : (o : Option String) → Reports (recorder_made F a fl o)
    recorder_made-Reports (some err) = refl
    recorder_made-Reports none = live_running-Reports (closes_recorder ∷ closes_handle ∷ []) refl

    filter_applied-Reports : (o : Option String) → Reports (filter_applied F a fl o)
    filter_applied-Reports (some err) = refl
    filter_applied-Reports none =
        if_both Reports (not (fl.record_file == ""))
          (recorder_made-Reports (a.recorder_error fl.record_file))
          (live_running-Reports (closes_handle ∷ []) refl)

    handle_opened-Reports : (o : Option String) → Reports (handle_opened F a fl o)
    handle_opened-Reports (some err) =
        if_both IsPlain (contains err "operation not permitted" || contains err "permission denied")
          refl refl
    handle_opened-Reports none =
        if_both (λ e. Reports (before F (opens_handle fl.iface ∷ []) e))
          (not (fl.filter_expr == ""))
          (filter_applied-Reports (apply_bpf_filter (some a.handle) fl.filter_expr).0)
          (filter_applied-Reports none)

    live_mode-Reports : Reports (live_mode F a fl)
    unfolding live_mode
    live_mode-Reports =
        if_both Reports (fl.iface == "") list_interfaces-IsPlain
          (handle_opened-Reports (a.live_error fl.iface))

    -- Where the arguments ask for no comparison: the run exports the report to the file that the
    -- flags name, by either spelling, exactly once if it is a live run that does not fail, and none if
    -- it fails, if no file is named, or if it is a replay.
    pub main_reports :
        (args : List String)
        → handle_diff_subcommand F a args ≡ none
        → let ended = main F a fl args in
          exported_files ended.actions ≡ (
            if fl.replay_file == "" && (nat_eq ended.code 0 && not (export_file F fl == ""))
            then export_file F fl ∷ []
            else [])
    unfolding main
    main_reports args e = elim (Bool-cases (fl.replay_file == "")) [
      | inl h ↦ rw (e, h) (skip-IsPlain (load_feed F a fl) _ load_feed-IsPlain ∙ live_mode-Reports)
      | inr h ↦
          rw (e, h) (skip-IsPlain (load_feed F a fl) _ load_feed-IsPlain ∙ replay_mode-IsPlain)
    ]
