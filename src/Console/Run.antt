-- ===== src/Console/Run.antt =====
-- The dashboard under any sequence of what can happen to it.
use mathlib.Core.Option
use undertow.Base.{◌≡◌, subst, String, Bool, Option, none, some, List, [], ◌∷◌}
use undertow.Base.Float.{FloatOps}
use undertow.Packet.{Time}
use undertow.Process.{System}
use undertow.Replay.{ReplayEngine}
use undertow.Panels.{throughput}
use undertow.Panels.Alerts.{PacketLogPanel, update_log}
use undertow.Panels.Talkers.{TableOps}
use undertow.Console.{
  PagesOps, KeyCode, key_rune, enter, escape, key_left, key_right, home, end_, other_key, KeyEvent,
  Dashboard, World, new_dashboard,
}
use undertow.Console.Pages.{
  Page, main, name, PagesLaws, IsOpen, shown_under, front-IsOpen, hide_filter-IsOpen,
  without_filter, new-IsOpen,
}
use undertow.Console.Keys.{Pressed, press}
use undertow.Console.Paint.{painted, repaint, apply_to, applied, filter_done, answered, cancelled}
use undertow.Console.Modal.{next_page, Leads, press-Leads}

module _ (F : FloatOps) (P : PagesOps) (T : TableOps) (clock stamp date : Time → String) where
  pub data Input : Type 0 where
    -- A key reaches the dashboard; the filter's field is typed into, and a key ends its input.
    key : World F P T → KeyEvent → Input
    typed : String → Input
    done : KeyCode → Input
    paint : World F P T → Input
    answer : String → Input
    cancel : Input

  abbrev after_press : Option (Pressed F P T) → Option (Dashboard F P T)
  after_press none = none
  after_press (some p) = some p.dashboard

  abbrev pub feed : Dashboard F P T → Input → Option (Dashboard F P T)
  feed d (key w ev) = after_press (press F P T clock stamp date d w ev)
  feed d (typed text) = some (record d { filter_text = text })
  feed d (done code) = some (filter_done F P T d code)
  feed d (paint w) = Option.map (λ r. r.0) (repaint F P T clock d w)
  feed d (answer summary) = some (answered F P T d summary)
  feed d cancel = some (cancelled F P T d)

  abbrev feed_on : Option (Dashboard F P T) → List Input → Option (Dashboard F P T)
  feed_on o [] = o
  feed_on none (i ∷ is) = feed_on none is
  feed_on (some d) (i ∷ is) = feed_on (feed d i) is

  abbrev pub feed_all : Dashboard F P T → List Input → Option (Dashboard F P T)
  feed_all d is = feed_on (some d) is

  module _ (L : PagesLaws P) where
    -- Some page is in front, with at most the main page behind it.
    abbrev IsSettled : Dashboard F P T → Type 0
    IsSettled d = (front : Page) × IsOpen P L d.pages front

    abbrev Settles : Option (Dashboard F P T) → Type 0
    Settles none = Unit
    Settles (some d) = IsSettled d

    applied-IsSettled :
        (d : Dashboard F P T) (o : Option String) → IsSettled d → IsSettled (applied F P T d o)
    applied-IsSettled d (some err) h = h
    applied-IsSettled d none (front, o) =
        (without_filter P L front, hide_filter-IsOpen P L d.pages front o)

    filter_done-IsSettled :
        (d : Dashboard F P T) (code : KeyCode) → IsSettled d → IsSettled (filter_done F P T d code)
    unfolding filter_done
    filter_done-IsSettled d enter h =
        applied-IsSettled d (apply_to F P T d.apply_filter_func d.filter_text) h
    filter_done-IsSettled d escape (front, o) =
        (without_filter P L front, hide_filter-IsOpen P L d.pages front o)
    filter_done-IsSettled d key_rune h = h
    filter_done-IsSettled d key_left h = h
    filter_done-IsSettled d key_right h = h
    filter_done-IsSettled d home h = h
    filter_done-IsSettled d end_ h = h
    filter_done-IsSettled d other_key h = h

    press-Settles :
        (d : Dashboard F P T) (w : World F P T) (ev : KeyEvent)
        → IsSettled d
        → Settles (feed d (key w ev))
    press-Settles d w ev (front, o) =
        at (press F P T clock stamp date d w ev)
          (press-Leads F P T L clock stamp date d w ev front o)
      where
        at :
            (r : Option (Pressed F P T))
            → Leads F P T L clock stamp date (next_page front ev) r
            → Settles (after_press r)
        at none l = tt
        at (some p) l = (next_page front ev, l)

    feed-Settles : (d : Dashboard F P T) (i : Input) → IsSettled d → Settles (feed d i)
    unfolding repaint answered cancelled
    feed-Settles d (key w ev) h = press-Settles d w ev h
    feed-Settles d (typed text) h = h
    feed-Settles d (done code) h = filter_done-IsSettled d code h
    feed-Settles d (paint w) h =
        painted-Settles (update_log d.packet_log w.log_text) (throughput F w.snap)
      where
        painted-Settles :
            (l : Option PacketLogPanel) (o : Option String)
            → Settles (Option.map (λ r. r.0) (painted F P T clock d w l o))
        painted-Settles none o = tt
        painted-Settles (some log) none = tt
        painted-Settles (some log) (some drawn) = h
    feed-Settles d (answer summary) h = h
    feed-Settles d cancel h = h

    feed_on-Settles :
        (is : List Input) (o : Option (Dashboard F P T)) → Settles o → Settles (feed_on o is)
    feed_on-Settles [] o h = h
    feed_on-Settles (i ∷ is) none h = feed_on-Settles is none tt
    feed_on-Settles (i ∷ is) (some d) h = feed_on-Settles is (feed d i) (feed-Settles d i h)

    pub run-IsSettled :
        (iface expr : String) (apply_filter : Option (String → Option String)) (redact : Bool)
        (engine : Option (ReplayEngine F)) (sys : System) (now : Time) (is : List Input)
        (d : Dashboard F P T)
        → feed_all (new_dashboard F P T iface expr apply_filter redact engine sys now) is ≡ some d
        → IsSettled d
    unfolding new_dashboard
    run-IsSettled iface expr apply_filter redact engine sys now is d e =
        subst Settles e (feed_on-Settles is _ (main, new-IsOpen P L))

    -- However keys, the filter's field, repaints and answers come: unless one of them panics, one page
    -- is in front and visible, the main page is visible, and no third one is. So no two dialogs are
    -- ever open at once.
    pub dialogs_settled :
        (iface expr : String) (apply_filter : Option (String → Option String)) (redact : Bool)
        (engine : Option (ReplayEngine F)) (sys : System) (now : Time) (is : List Input)
        (d : Dashboard F P T)
        → feed_all (new_dashboard F P T iface expr apply_filter redact engine sys now) is ≡ some d
        → (front : Page) × (P.front_page d.pages ≡ name front)
          × ((page : Page) → L.visible d.pages (name page) ≡ shown_under front page)
    dialogs_settled iface expr apply_filter redact engine sys now is d e =
        let (front, o) = run-IsSettled iface expr apply_filter redact engine sys now is d e in
        (front, front-IsOpen P L d.pages front o, o.only)
