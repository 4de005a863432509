-- ===== src/Examples/Screen.antt =====
-- The dashboard at concrete inputs: pages as a list of names with what is visible, and a table as a
-- function from places to texts.
use undertow.Base.{
  ℕ, ◌<◌, ◌≡◌, refl, String, Bool, false, not, ◌&&◌, ◌||◌, Option, none, some, List, [], ◌∷◌, ◌++◌,
  arith, nat_eq, if◌then◌else◌,
}
use undertow.Base.Eq.{◌==◌, string_eq}
use undertow.Packet.{Time}
use undertow.Stats.{Snapshot, blank_talker}
use undertow.Process.{Goos, System}
use undertow.Panels.{throughput}
use undertow.Panels.Chart.{throughput_drawn}
use undertow.Panels.Talkers.{TableOps, update_top_talkers, selected_ip}
use undertow.Panels.Talkers.Selection.{TableLaws, update_top_talkers-selection}
use undertow.Report.{Output}
use undertow.Console.{PagesOps, key_rune, KeyEvent, Dashboard, World, new_dashboard}
use undertow.Console.Pages.{
  Page, main, topo, name, shown_under, listed, frontmost, PagesLaws, IsOpen, new-IsOpen,
}
use undertow.Console.Keys.{Pressed, consumed, press_g, press}
use undertow.Console.Run.{Input, key, feed_all, dialogs_settled}
use undertow.Console.Outcome.{press_page, ComesHome, escape_home}
use undertow.Examples.Data.{halves}

record NamedPages : Type 0 where
  names : List String
  seen : String → Bool

abbrev named_pages : PagesOps
named_pages = record {
  Pages = NamedPages;
  new_pages = record { names = []; seen = λ r. false };
  add_page = λ p q v. record {
    names = if listed p.names q then p.names else p.names ++ q ∷ [];
    seen = λ r. if q == r then v else p.seen r;
  };
  show_page = λ p q. record p { seen = λ r. (q == r && listed p.names q) || p.seen r };
  hide_page = λ p q. record p { seen = λ r. not (q == r) && p.seen r };
  front_page = λ p. frontmost p.seen "" p.names;
}

named_pages_order :
    (p : NamedPages) (q : String)
    → listed p.names q ≡ false
    → (if listed p.names q then p.names else p.names ++ q ∷ []) ≡ p.names ++ q ∷ []
named_pages_order p q h = rw h

abbrev named_laws : PagesLaws named_pages
named_laws = record {
  visible = λ p. p.seen;
  order = λ p. p.names;
  order-new = refl;
  order-add = λ p q v. named_pages_order p q;
  order-show = λ p q. refl;
  order-hide = λ p q. refl;
  visible-add = λ p q r v. refl;
  visible-show = λ p q r. refl;
  visible-hide = λ p q r. refl;
  front_page-visible = λ p. refl;
}

record Cells : Type 0 where
  text_at : ℕ → ℕ → Option String
  rows : ℕ
  row : ℕ

abbrev cells : TableOps
cells = record {
  Table = Cells;
  new_table = record { text_at = λ r c. none; rows = 0; row = 0 };
  row_count = λ t. t.rows;
  remove_row = λ t r. t;
  set_cell = λ t r c text. record t {
    text_at = λ r' c'. if nat_eq c c' && nat_eq r r' then some text else t.text_at r' c';
  };
  cell_text = λ t. t.text_at;
  select = λ t r. record t { row = r };
  selection = λ t. t.row;
}

abbrev cells_laws : TableLaws cells
cells_laws = record {
  cell-set = λ t r c r' c' text. refl;
  cell-select = λ t r r' c'. refl;
  selection-select = λ t r. refl;
}

abbrev noon : Time → String
noon t = "12:00:00"

abbrev quiet_system : System
quiet_system = record {
  goos = Goos.other;
  net_lines = λ path. none;
  proc_entries = none;
  comm = λ pid. "";
  exe = λ pid. "";
  status = λ pid. "";
  fd_targets = λ pid. none;
  user_name = λ id. none;
  netstat = none;
  lsof = none;
}

abbrev quiet_snapshot : Snapshot
quiet_snapshot = record {
  timestamp = 0;
  start_time = 0;
  total_packets = 1;
  total_bytes = 100;
  dropped_packets = 0;
  protocol_counts = ("TCP", 1) ∷ [];
  top_talkers = blank_talker "10.0.0.1" ∷ [];
  flows = [];
  throughput_history = 5 ∷ 7 ∷ [];
  recent_packets = [];
  anomalies = [];
}

abbrev disk : Output
disk = record { parse_error = none; create_error = λ f. none; execute_error = λ d. none }

abbrev world : World halves named_pages cells
world = record {
  snap = quiet_snapshot;
  tracker = none;
  system = quiet_system;
  output = disk;
  log_text = some "";
  now = 0;
}

abbrev letter_g : KeyEvent
letter_g = record { code = key_rune; rune = b'g' }

abbrev fresh : Dashboard halves named_pages cells
fresh = new_dashboard halves named_pages cells "eth0" "" none false none quiet_system 0

abbrev inputs : List (Input halves named_pages cells noon noon noon)
inputs = key world letter_g ∷ []

abbrev pressed : Pressed halves named_pages cells
pressed = consumed halves named_pages cells (press_g halves named_pages cells fresh world) world

pressed_lem : press halves named_pages cells noon noon noon fresh world letter_g ≡ some pressed
unfolding press new_dashboard
pressed_lem = refl

-- The dashboard after the key g.
abbrev opened : Dashboard halves named_pages cells
opened = pressed.dashboard

opened_lem :
    feed_all halves named_pages cells noon noon noon
      (new_dashboard halves named_pages cells "eth0" "" none false none quiet_system 0)
      inputs
    ≡ some opened
unfolding press new_dashboard
opened_lem = refl

dialogs_settled_example :
    (front : Page) × (frontmost opened.pages.seen "" opened.pages.names ≡ name front)
    × ((page : Page) → opened.pages.seen (name page) ≡ shown_under front page)
dialogs_settled_example =
    dialogs_settled halves named_pages cells noon noon noon named_laws "eth0" "" none false none
      quiet_system 0 inputs opened opened_lem

escape_home_example :
    (front : Page) × (frontmost opened.pages.seen "" opened.pages.names ≡ name front)
    × ComesHome halves named_pages cells named_laws noon noon noon opened world 27 front
escape_home_example =
    escape_home halves named_pages cells named_laws noon noon noon "eth0" "" none false none
      quiet_system 0 inputs opened world 27 opened_lem

press_page_example : IsOpen named_pages named_laws pressed.dashboard.pages topo
unfolding new_dashboard
press_page_example =
    press_page halves named_pages cells named_laws noon noon noon fresh world letter_g main pressed
      (new-IsOpen named_pages named_laws) pressed_lem

update_top_talkers-selection_example :
    (0 < 1)
    × (cells.selection
          (update_top_talkers cells halves noon cells.new_table quiet_snapshot.top_talkers)
        ≡ 1)
    × (selected_ip cells
          (update_top_talkers cells halves noon cells.new_table quiet_snapshot.top_talkers)
        ≡ "10.0.0.1")
update_top_talkers-selection_example =
    update_top_talkers-selection cells cells_laws halves noon cells.new_table
      quiet_snapshot.top_talkers (omega arith)

abbrev busy_snapshot : Snapshot
busy_snapshot = record quiet_snapshot { throughput_history = 3 ∷ 0 ∷ 4 ∷ [] }

throughput_drawn_example : (text : String) × (throughput halves busy_snapshot ≡ some text)
throughput_drawn_example =
    throughput_drawn halves (λ v m h fits le. refl) busy_snapshot
      (omega arith, (omega arith, (omega arith, tt)))
