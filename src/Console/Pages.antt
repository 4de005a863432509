-- ===== src/Console/Pages.antt =====
-- What the dashboard relies on of `tview.Pages`, and the page in front under these laws.
use undertow.Base.{
  ◌≡◌, refl, sym, ap, ◌∙◌, String, Bool, true, false, not, ◌&&◌, ◌||◌, List, [], ◌∷◌, ◌++◌, map,
  if◌then◌else◌,
}
use undertow.Base.Eq.{◌==◌, string_eq}
use undertow.Console.{PagesOps}

abbrev pub listed : List String → String → Bool
listed [] q = false
listed (p ∷ ps) q = p == q || listed ps q

-- The last name, from the back to the front, whose page is visible.
abbrev pub frontmost : (String → Bool) → String → List String → String
frontmost visible front [] = front
frontmost visible front (p ∷ ps) = frontmost visible (if visible p then p else front) ps

-- The documented behaviour: pages lie in the order in which they were added, showing and hiding
-- leaves this order and passes over a name that was not added, and the front page is the frontmost
-- visible one.
pub record PagesLaws (P : PagesOps) : Type 0 where
  pub visible : P.Pages → String → Bool
  pub order : P.Pages → List String
  pub order-new : order P.new_pages ≡ []
  pub order-add :
      (p : P.Pages) (q : String) (v : Bool)
      → listed (order p) q ≡ false
      → order (P.add_page p q v) ≡ order p ++ q ∷ []
  pub order-show : (p : P.Pages) (q : String) → order (P.show_page p q) ≡ order p
  pub order-hide : (p : P.Pages) (q : String) → order (P.hide_page p q) ≡ order p
  pub visible-add :
      (p : P.Pages) (q r : String) (v : Bool)
      → visible (P.add_page p q v) r ≡ (if q == r then v else visible p r)
  pub visible-show :
      (p : P.Pages) (q r : String)
      → visible (P.show_page p q) r ≡ ((q == r && listed (order p) q) || visible p r)
  pub visible-hide :
      (p : P.Pages) (q r : String) → visible (P.hide_page p q) r ≡ (not (q == r) && visible p r)
  pub front_page-visible : (p : P.Pages) → P.front_page p ≡ frontmost (visible p) "" (order p)

-- The pages of the dashboard.
pub data Page : Type 0 where
  main filter story topo ai : Page

abbrev pub name : Page → String
name main = "main"
name filter = "filterModal"
name story = "storyModal"
name topo = "topoModal"
name ai = "aiModal"

abbrev all_pages : List Page
all_pages = main ∷ filter ∷ story ∷ topo ∷ ai ∷ []

-- With `front` in front, the main page and `front` are visible and nothing else is.
abbrev pub shown_under : Page → Page → Bool
shown_under front page = name main == name page || name front == name page

abbrev seen_front : (Page → Bool) → String → List Page → String
seen_front shown front [] = front
seen_front shown front (p ∷ ps) = seen_front shown (if shown p then name p else front) ps

frontmost-seen :
    (visible : String → Bool) (shown : Page → Bool)
    → ((page : Page) → visible (name page) ≡ shown page)
    → (front : String) (ps : List Page)
    → frontmost visible front (map name ps) ≡ seen_front shown front ps
frontmost-seen visible shown h front [] = refl
frontmost-seen visible shown h front (p ∷ ps) =
    ap (λ b. frontmost visible (if b then name p else front) (map name ps)) (h p)
    ∙ frontmost-seen visible shown h (if shown p then name p else front) ps

seen_front-name : (front : Page) → seen_front (shown_under front) "" all_pages ≡ name front
seen_front-name main = refl
seen_front-name filter = refl
seen_front-name story = refl
seen_front-name topo = refl
seen_front-name ai = refl

or_merge : (a b : Bool) → (b || (a || a)) ≡ (a || b)
or_merge true true = refl
or_merge true false = refl
or_merge false true = refl
or_merge false false = refl

and_true : (a : Bool) → (a && true) ≡ a
and_true true = refl
and_true false = refl

and_false : (a : Bool) → (a && false) ≡ false
and_false true = refl
and_false false = refl

all-listed : (page : Page) → listed (map name all_pages) (name page) ≡ true
all-listed main = refl
all-listed filter = refl
all-listed story = refl
all-listed topo = refl
all-listed ai = refl

not_and : (a : Bool) → (not a && a) ≡ false
not_and true = refl
not_and false = refl

module _ (P : PagesOps) (L : PagesLaws P) where
  open L use {
    visible, order, order-new, order-add, order-show, order-hide, visible-add, visible-show,
    visible-hide, front_page-visible,
  }

  -- One page is in front, with at most the main page behind it.
  pub record IsOpen (p : P.Pages) (front : Page) : Type 0 where
    pub in_order : order p ≡ map name all_pages
    pub only : (page : Page) → visible p (name page) ≡ shown_under front page

  pub front-IsOpen : (p : P.Pages) (front : Page) → IsOpen p front → P.front_page p ≡ name front
  front-IsOpen p front o =
      front_page-visible p
      ∙ ap (frontmost (visible p) "") o.in_order
      ∙ frontmost-seen (visible p) (shown_under front) o.only "" all_pages
      ∙ seen_front-name front

  -- Showing a page over the main page.
  pub show-IsOpen :
      (p : P.Pages) (page : Page) → IsOpen p main → IsOpen (P.show_page p (name page)) page
  show-IsOpen p page o = record {
    in_order = order-show p (name page) ∙ o.in_order;
    only = λ r.
        visible-show p (name page) (name r)
        ∙ rw (o.in_order, all-listed page, and_true (name page == name r), o.only r)
            (or_merge (name main == name r) (name page == name r));
  }

  -- Showing a page that was not added changes nothing.
  pub show_missing-IsOpen :
      (p : P.Pages) (front : Page) → IsOpen p front → IsOpen (P.show_page p "procModal") front
  show_missing-IsOpen p front o = record {
    in_order = order-show p "procModal" ∙ o.in_order;
    only = λ r.
        visible-show p "procModal" (name r)
        ∙ rw (o.in_order, and_false ("procModal" == name r)) (o.only r);
  }

  hidden :
      (front r : Page)
      → (name front == "main") ≡ false
      → (not (name front == name r) && shown_under front r) ≡ shown_under main r
  hidden front main h = rw h
  hidden front r h = not_and (name front == name r)

  pub hide-IsOpen :
      (p : P.Pages) (front : Page)
      → (name front == "main") ≡ false
      → IsOpen p front
      → IsOpen (P.hide_page p (name front)) main
  hide-IsOpen p front h o = record {
    in_order = order-hide p (name front) ∙ o.in_order;
    only = λ r. visible-hide p (name front) (name r) ∙ rw (o.only r) (hidden front r h);
  }

  -- The pages in the order in which the dashboard adds them.
  abbrev pub added : P.Pages → List Page → P.Pages
  added p [] = p
  added p (page ∷ pages) = added (P.add_page p (name page) (name page == "main")) pages

  order_step :
      (p : P.Pages) (before : List String) (page : Page) (v : Bool)
      → order p ≡ before
      → listed before (name page) ≡ false
      → order (P.add_page p (name page) v) ≡ before ++ name page ∷ []
  order_step p before page v e h =
      order-add p (name page) v (rw e h) ∙ ap (λ l. l ++ name page ∷ []) e

  new-shown :
      (page : Page) → visible (added P.new_pages all_pages) (name page) ≡ shown_under main page
  new-shown main = simp visible-add
  new-shown filter = simp visible-add
  new-shown story = simp visible-add
  new-shown topo = simp visible-add
  new-shown ai = simp visible-add

  pub new-IsOpen : IsOpen (added P.new_pages all_pages) main
  new-IsOpen = record {
    in_order =
        order_step _ (map name (main ∷ filter ∷ story ∷ topo ∷ [])) ai false
          (order_step _ (map name (main ∷ filter ∷ story ∷ [])) topo false
            (order_step _ (map name (main ∷ filter ∷ [])) story false
              (order_step _ (map name (main ∷ [])) filter false
                (order_step P.new_pages [] main true order-new refl) refl)
              refl)
            refl)
          refl;
    only = new-shown;
  }

  unhidden :
      (front r : Page)
      → (name front == "filterModal") ≡ false
      → (not (name filter == name r) && shown_under front r) ≡ shown_under front r
  unhidden front filter h = sym h
  unhidden front main h = refl
  unhidden front story h = refl
  unhidden front topo h = refl
  unhidden front ai h = refl

  kept-IsOpen :
      (p : P.Pages) (front : Page)
      → (name front == "filterModal") ≡ false
      → IsOpen p front
      → IsOpen (P.hide_page p "filterModal") front
  kept-IsOpen p front h o = record {
    in_order = order-hide p "filterModal" ∙ o.in_order;
    only = λ r. visible-hide p "filterModal" (name r) ∙ rw (o.only r) (unhidden front r h);
  }

  -- The page in front once the filter's dialog is hidden.
  abbrev pub without_filter : Page → Page
  without_filter filter = main
  without_filter front = front

  pub hide_filter-IsOpen :
      (p : P.Pages) (front : Page)
      → IsOpen p front
      → IsOpen (P.hide_page p "filterModal") (without_filter front)
  hide_filter-IsOpen p filter o = hide-IsOpen p filter refl o
  hide_filter-IsOpen p main o = kept-IsOpen p main refl o
  hide_filter-IsOpen p story o = kept-IsOpen p story refl o
  hide_filter-IsOpen p topo o = kept-IsOpen p topo refl o
  hide_filter-IsOpen p ai o = kept-IsOpen p ai refl o
