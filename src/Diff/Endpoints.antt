-- ===== src/Diff/Endpoints.antt =====
-- The endpoints that a comparison reports.
use undertow.Base.{
  ◌≡◌, refl, ap, ◌∙◌, inl, inr, String, Bool, false, not, ◌&&◌, ◌||◌, Option, some, List, [], ◌∷◌,
  arith, if◌then◌else◌, is_some, if_app, Bool-cases,
}
use undertow.Base.Eq.{◌==◌, string_eq}
use undertow.Base.Dict.{Dict, get, put, get-put}
use undertow.Base.Float.{FloatOps}
use undertow.Stats.{TalkerStat, Snapshot}
use undertow.Diff.{by_ip, new_endpoints, removed_endpoints, compare_loaded}

abbrev pub reports : List String → String → Bool
reports [] ip = false
reports (s ∷ ss) ip = s == ip || reports ss ip

-- A snapshot has a talker with the address.
abbrev pub talks : List TalkerStat → String → Bool
talks [] ip = false
talks (t ∷ ts) ip = t.ip == ip || talks ts ip

get-by_ip :
    (m : Dict String TalkerStat) (ts : List TalkerStat) (ip : String)
    → is_some (get (by_ip m ts) ip) ≡ (talks ts ip || is_some (get m ip))
unfolding by_ip
get-by_ip m [] ip = refl
get-by_ip m (t ∷ ts) ip =
    get-by_ip (put m t.ip t) ts ip
    ∙ rw (get-put, if_app is_some (t.ip == ip) (some t) (get m ip)) (ground arith)

-- One key of the map that is walked: `o` is what the other map has for it.
lacking :
    (o o' : Option TalkerStat) (j ip : String) (s : TalkerStat) (rest : Option TalkerStat)
    (found : List String)
    → reports found ip ≡ (is_some rest && not (is_some o'))
    → (j ≡ ip → is_some o ≡ is_some o')
    → reports (if is_some o then found else j ∷ found) ip
      ≡ (is_some (if j == ip then some s else rest) && not (is_some o'))
lacking o o' j ip s rest found e same = elim (Bool-cases (j == ip)) [
  | inl h ↦ rw h (ground (arith, same ((string_eq.same_iff j ip).0 h)))
  | inr h ↦ rw h (ground arith)
]

nothing_more : (x y : Bool) → ((x || false) && not (y || false)) ≡ (x && not y)
nothing_more x y = ground arith

reports-new_endpoints :
    (a b : Dict String TalkerStat) (ip : String)
    → reports (new_endpoints a b) ip ≡ (is_some (get b ip) && not (is_some (get a ip)))
unfolding new_endpoints get
reports-new_endpoints a [] ip = refl
reports-new_endpoints a ((j, s) ∷ b) ip =
    lacking (get a j) (get a ip) j ip s (get b ip) (new_endpoints a b)
      (reports-new_endpoints a b ip) (λ e. ap (λ k. is_some (get a k)) e)

reports-removed_endpoints :
    (a b : Dict String TalkerStat) (ip : String)
    → reports (removed_endpoints a b) ip ≡ (is_some (get a ip) && not (is_some (get b ip)))
unfolding removed_endpoints get
reports-removed_endpoints [] b ip = refl
reports-removed_endpoints ((j, s) ∷ a) b ip =
    lacking (get b j) (get b ip) j ip s (get a ip) (removed_endpoints a b)
      (reports-removed_endpoints a b ip) (λ e. ap (λ k. is_some (get b k)) e)

-- The new endpoints are the addresses that talk in the second snapshot and not in the first, the
-- removed ones those that talk in the first and not in the second.
pub endpoints_exact :
    (F : FloatOps) (file_a file_b : String) (a b : Snapshot) (ip : String)
    → (reports (compare_loaded F file_a file_b a b).new_endpoints ip
        ≡ (talks b.top_talkers ip && not (talks a.top_talkers ip)))
      × (reports (compare_loaded F file_a file_b a b).removed_endpoints ip
          ≡ (talks a.top_talkers ip && not (talks b.top_talkers ip)))
unfolding compare_loaded
endpoints_exact F file_a file_b a b ip = (
  unfold get in
      rw (reports-new_endpoints, get-by_ip [] a.top_talkers ip, get-by_ip [] b.top_talkers ip)
        (nothing_more (talks b.top_talkers ip) (talks a.top_talkers ip)),
  unfold get in
      rw (reports-removed_endpoints, get-by_ip [] a.top_talkers ip, get-by_ip [] b.top_talkers ip)
        (nothing_more (talks a.top_talkers ip) (talks b.top_talkers ip)),
)
