-- ===== src/Console/Outcome.antt =====
-- What a key does to the dialogs, and the answers of the filter's dialog.
use undertow.Base.{ℕ, ◌≡◌, refl, ap, subst, String, Bool, Option, none, some, List, [], ◌∷◌}
use undertow.Base.Float.{FloatOps}
use undertow.Base.Text.{concat}
use undertow.Packet.{Time}
use undertow.Process.{System}
use undertow.Replay.{ReplayEngine}
use undertow.Panels.Talkers.{TableOps}
use undertow.Console.{PagesOps, enter, escape, KeyEvent, Dashboard, World, new_dashboard}
use undertow.Console.Pages.{
  Page, main, filter, story, topo, ai, name, PagesLaws, IsOpen, front-IsOpen, hide_filter-IsOpen,
}
use undertow.Console.Keys.{Pressed, replay_key, press_main, press}
use undertow.Console.Paint.{apply_to, applied, filter_done}
use undertow.Console.Modal.{next_page, Leads, press-Leads}
use undertow.Console.Run.{Input, feed_all, run-IsSettled}

module _ (F : FloatOps) (P : PagesOps) (T : TableOps) (L : PagesLaws P)
    (clock stamp date : Time → String) where
  -- A key that does not panic takes the page in front to the next one: on the main page g and G open
  -- the topology, a and A the AI's dialog, / the filter's, s, S, n and N the story, and any other key,
  -- P among them, opens none; the filter's dialog stays; on another dialog Escape, g, P, a and A lead
  -- back to the main page and any other key changes nothing.
  pub press_page :
      (d : Dashboard F P T) (w : World F P T) (ev : KeyEvent) (front : Page) (p : Pressed F P T)
      → IsOpen P L d.pages front
      → press F P T clock stamp date d w ev ≡ some p
      → IsOpen P L p.dashboard.pages (next_page front ev)
  press_page d w ev front p o e =
      subst (Leads F P T L clock stamp date (next_page front ev)) e
        (press-Leads F P T L clock stamp date d w ev front o)

  -- What Enter makes of the dashboard, by the verdict on the filter that was typed.
  abbrev pub Answers : Dashboard F P T → Option String → Dashboard F P T → Type 0
  Answers d (some err) d' =
      d' ≡ record d { filter_error = concat ("[red]Error: " ∷ err ∷ "[white]" ∷ []) }
  Answers d none d' = (P.front_page d'.pages ≡ "main") × (d'.bpf_filter_expr ≡ d.filter_text)

  -- Where the field of the filter's dialog ends with Enter: on an error of the filter the dashboard
  -- shows it, and nothing else changes; without an error, and always where there is no function that
  -- applies a filter, what was typed becomes the filter and the main page is in front.
  filter_done-enter :
      (d : Dashboard F P T) (verdict : Option String)
      → IsOpen P L d.pages filter
      → apply_to F P T d.apply_filter_func d.filter_text ≡ verdict
      → Answers d verdict (filter_done F P T d enter)
  unfolding filter_done
  filter_done-enter d (some err) o e = ap (applied F P T d) e
  filter_done-enter d none o e =
      rw e (front-IsOpen P L _ main (hide_filter-IsOpen P L d.pages filter o), refl)

  abbrev escape_key : ℕ → KeyEvent
  escape_key rune = record { code = escape; rune = rune }

  abbrev HasPressed : Dashboard F P T → World F P T → KeyEvent → Type 0
  HasPressed d w ev = (p : Pressed F P T) × (press F P T clock stamp date d w ev ≡ some p)

  main_escape :
      (d : Dashboard F P T) (w : World F P T) (rune : ℕ) (engine : Option (ReplayEngine F))
      → (p : Pressed F P T) × (press_main F P T clock stamp date d w (escape_key rune) engine
          ≡ some p)
  unfolding replay_key
  main_escape d w rune none = (_, refl)
  main_escape d w rune (some re) = (_, refl)

  escape-HasPressed :
      (d : Dashboard F P T) (w : World F P T) (rune : ℕ) (front : Page)
      → IsOpen P L d.pages front
      → HasPressed d w (escape_key rune)
  unfolding press
  escape-HasPressed d w rune main o =
      rw (front-IsOpen P L d.pages main o) (main_escape d w rune d.replay_engine)
  escape-HasPressed d w rune filter o = rw (front-IsOpen P L d.pages filter o) (_, refl)
  escape-HasPressed d w rune story o = rw (front-IsOpen P L d.pages story o) (_, refl)
  escape-HasPressed d w rune topo o = rw (front-IsOpen P L d.pages topo o) (_, refl)
  escape-HasPressed d w rune ai o = rw (front-IsOpen P L d.pages ai o) (_, refl)

  -- Escape, for the filter's dialog in its field, brings the main page to the front.
  abbrev pub ComesHome : Dashboard F P T → World F P T → ℕ → Page → Type 0
  ComesHome d w rune filter = P.front_page (filter_done F P T d escape).pages ≡ "main"
  ComesHome d w rune front =
      (p : Pressed F P T) × (press F P T clock stamp date d w (escape_key rune) ≡ some p)
      × (P.front_page p.dashboard.pages ≡ "main")

  pressed_home :
      (d : Dashboard F P T) (w : World F P T) (rune : ℕ) (front : Page)
      → IsOpen P L d.pages front
      → next_page front (escape_key rune) ≡ main
      → (p : Pressed F P T) × (press F P T clock stamp date d w (escape_key rune) ≡ some p)
        × (P.front_page p.dashboard.pages ≡ "main")
  pressed_home d w rune front o h =
      let (p, e) = escape-HasPressed d w rune front o in
      (
        p,
        e,
        front-IsOpen P L p.dashboard.pages main
            (subst (IsOpen P L p.dashboard.pages) h (press_page d w (escape_key rune) front p o e)),
      )

  comes_home :
      (d : Dashboard F P T) (w : World F P T) (rune : ℕ) (front : Page)
      → IsOpen P L d.pages front
      → ComesHome d w rune front
  unfolding filter_done
  comes_home d w rune filter o = front-IsOpen P L _ main (hide_filter-IsOpen P L d.pages filter o)
  comes_home d w rune main o = pressed_home d w rune main o refl
  comes_home d w rune story o = pressed_home d w rune story o refl
  comes_home d w rune topo o = pressed_home d w rune topo o refl
  comes_home d w rune ai o = pressed_home d w rune ai o refl

  -- Whatever happened to the dashboard, short of a panic, one press of Escape brings the main page to
  -- the front without a panic: in the field of the filter's dialog where that is in front, else at
  -- the dashboard.
  pub escape_home :
      (iface expr : String) (apply_filter : Option (String → Option String)) (redact : Bool)
      (engine : Option (ReplayEngine F)) (sys : System) (now : Time)
      (is : List (Input F P T clock stamp date)) (d : Dashboard F P T) (w : World F P T) (rune : ℕ)
      → feed_all F P T clock stamp date
          (new_dashboard F P T iface expr apply_filter redact engine sys now)
          is
        ≡ some d
      → (front : Page) × (P.front_page d.pages ≡ name front) × ComesHome d w rune front
  escape_home iface expr apply_filter redact engine sys now is d w rune e =
      let (front, o) =
        run-IsSettled F P T clock stamp date L iface expr apply_filter redact engine sys now is d
          e in
      (front, front-IsOpen P L d.pages front o, comes_home d w rune front o)
