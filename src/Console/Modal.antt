-- ===== src/Console/Modal.antt =====
-- The dialogs of the dashboard as a machine over the page in front.
use undertow.Base.{
  ℕ, ◌≡◌, refl, ap, inl, inr, String, false, Option, none, some, List, [], ◌∷◌, arith, nat_eq,
  if◌then◌else◌, Bool-cases,
}
use undertow.Base.Eq.{◌==◌, string_eq}
use undertow.Base.Float.{FloatOps}
use undertow.Packet.{Time}
use undertow.Base.Int.{pos, negsuc}
use undertow.Replay.{ReplayEngine, step_sec, jump_start, jump_end}
use undertow.Panels.Talkers.{TableOps}
use undertow.Console.{
  PagesOps, KeyCode, key_rune, enter, escape, key_left, key_right, home, end_, other_key, KeyEvent,
  is_rune, closes, Dashboard, World,
}
use undertow.Console.Pages.{
  Page, main, filter, story, topo, ai, name, PagesLaws, IsOpen, front-IsOpen, show-IsOpen,
  show_missing-IsOpen, hide-IsOpen,
}
use undertow.Console.Keys.{
  Pressed, replay_key, press_rune, press_other, press_moved, press_main, press_info, press,
}

-- What a rune asks for on the main page: no dialog, the one of the processes, which was not added, or
-- a page.
pub data Asked : Type 0 where
  nothing missing : Asked
  opens : Page → Asked

abbrev openers : List (ℕ × Asked)
openers =
    (b'g', opens topo)
    ∷ (b'G', opens topo)
    ∷ (b'P', missing)
    ∷ (b'a', opens ai)
    ∷ (b'A', opens ai)
    ∷ (b'/', opens filter)
    ∷ (b's', opens story)
    ∷ (b'S', opens story)
    ∷ (b'n', opens story)
    ∷ (b'N', opens story)
    ∷ []

abbrev opener : List (ℕ × Asked) → ℕ → Asked
opener [] rune = nothing
opener ((r, asked) ∷ rest) rune = if nat_eq rune r then asked else opener rest rune

abbrev landing : Asked → Page
landing nothing = main
landing missing = main
landing (opens page) = page

-- The page in front after a key.
abbrev pub next_page : Page → KeyEvent → Page
next_page main ev = if is_rune ev.code then landing (opener openers ev.rune) else main
next_page filter ev = filter
next_page story ev = if closes ev then main else story
next_page topo ev = if closes ev then main else topo
next_page ai ev = if closes ev then main else ai

module _ (F : FloatOps) (P : PagesOps) (T : TableOps) (L : PagesLaws P) where
  abbrev shown : P.Pages → Asked → P.Pages
  shown p nothing = p
  shown p missing = P.show_page p "procModal"
  shown p (opens page) = P.show_page p (name page)

  module _ (clock stamp date : Time → String) where
    press_rune-pages :
        (d : Dashboard F P T) (w : World F P T) (rune : ℕ)
        → (press_rune F P T clock stamp date d w rune).dashboard.pages
          ≡ shown d.pages (opener openers rune)
    unfolding press_rune
    press_rune-pages d w rune = ground arith

    abbrev pub Leads : Page → Option (Pressed F P T) → Type 0
    Leads front none = Unit
    Leads front (some p) = IsOpen P L p.dashboard.pages front

    shown-IsOpen :
        (p : P.Pages) (asked : Asked)
        → IsOpen P L p main
        → IsOpen P L (shown p asked) (landing asked)
    shown-IsOpen p nothing o = o
    shown-IsOpen p missing o = show_missing-IsOpen P L p main o
    shown-IsOpen p (opens page) o = show-IsOpen P L p page o

    press_other-IsOpen :
        (d : Dashboard F P T) (w : World F P T) (ev : KeyEvent)
        → IsOpen P L d.pages main
        → IsOpen P L (press_other F P T clock stamp date d w ev).dashboard.pages (next_page main ev)
    press_other-IsOpen d w ev o = elim (Bool-cases (is_rune ev.code)) [
      | inl r ↦
          rw (r, press_rune-pages d w ev.rune) (shown-IsOpen d.pages (opener openers ev.rune) o)
      | inr r ↦ rw r o
    ]

    module _ (d : Dashboard F P T) (w : World F P T) (ev : KeyEvent) where
      moved-Leads :
          (moved : Option (ReplayEngine F))
          → is_rune ev.code ≡ false
          → IsOpen P L d.pages main
          → Leads (next_page main ev) (press_moved F P T clock stamp date d w ev (some moved))
      moved-Leads none r o = tt
      moved-Leads (some re) r o = rw r o

      replay_key-Leads :
          (re : ReplayEngine F) (code : KeyCode)
          → ev.code ≡ code
          → IsOpen P L d.pages main
          → Leads
              (next_page main ev)
              (press_moved F P T clock stamp date d w ev (replay_key F P T re code))
      unfolding replay_key
      replay_key-Leads re key_right e o = moved-Leads (step_sec F re (pos 5)) (ap is_rune e) o
      replay_key-Leads re key_left e o = moved-Leads (step_sec F re (negsuc 4)) (ap is_rune e) o
      replay_key-Leads re home e o = moved-Leads (some (jump_start F re)) (ap is_rune e) o
      replay_key-Leads re end_ e o = moved-Leads (some (jump_end F re)) (ap is_rune e) o
      replay_key-Leads re key_rune e o = press_other-IsOpen d w ev o
      replay_key-Leads re enter e o = press_other-IsOpen d w ev o
      replay_key-Leads re escape e o = press_other-IsOpen d w ev o
      replay_key-Leads re other_key e o = press_other-IsOpen d w ev o

      press_main-Leads :
          (engine : Option (ReplayEngine F))
          → IsOpen P L d.pages main
          → Leads (next_page main ev) (press_main F P T clock stamp date d w ev engine)
      press_main-Leads none o = press_other-IsOpen d w ev o
      press_main-Leads (some re) o = replay_key-Leads re ev.code refl o

      press_info-Leads :
          (front : Page)
          → (name front == "main") ≡ false
          → IsOpen P L d.pages front
          → IsOpen P L
              (press_info F P T clock stamp date d w ev (name front)).dashboard.pages
              (if closes ev then main else front)
      press_info-Leads front h o = elim (Bool-cases (closes ev)) [
        | inl c ↦ rw c (hide-IsOpen P L d.pages front h o)
        | inr c ↦ rw c o
      ]

      pub press-Leads :
          (front : Page)
          → IsOpen P L d.pages front
          → Leads (next_page front ev) (press F P T clock stamp date d w ev)
      unfolding press
      press-Leads main o = rw (front-IsOpen P L d.pages main o) (press_main-Leads d.replay_engine o)
      press-Leads filter o = rw (front-IsOpen P L d.pages filter o) o
      press-Leads story o = rw (front-IsOpen P L d.pages story o) (press_info-Leads story refl o)
      press-Leads topo o = rw (front-IsOpen P L d.pages topo o) (press_info-Leads topo refl o)
      press-Leads ai o = rw (front-IsOpen P L d.pages ai o) (press_info-Leads ai refl o)
