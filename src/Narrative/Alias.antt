-- ===== src/Narrative/Alias.antt =====
-- `formatIP` with redaction: what an alias promises, and where the alphabet ends.
use undertow.Base.{
  ℕ, ◌+◌, ◌-◌, ◌%◌, ◌≡◌, ◌≢◌, refl, sym, ap, ◌∙◌, inl, inr, String, true, false, Option, none, some,
  List, [], ◌∷◌, arith, Bool-cases, get_or,
}
use undertow.Base.Eq.{◌==◌, string_eq}
use undertow.Base.Dict.{get, get-put, get-put_self}
use undertow.Base.Text.{concat}
use undertow.Narrative.{StoryTracker, alias_name, alias_for, format_ip, letters}

-- The tracker after addresses were redacted, one after another.
abbrev pub redact_all : StoryTracker → List String → StoryTracker
redact_all st [] = st
redact_all st (x ∷ xs) = redact_all (format_ip st x true).1 xs

-- The first redaction gives the address an alias.
alias-format_ip :
    (st : StoryTracker) (ip : String)
    → (ip == "") ≡ false
    → get (format_ip st ip true).1.ip_alias ip ≡ some (format_ip st ip true).0
unfolding format_ip alias_for
alias-format_ip st ip h = rw h (at (get st.ip_alias ip) refl)
  where
    at :
        (o : Option String)
        → get st.ip_alias ip ≡ o
        → get (alias_for st ip o).1.ip_alias ip ≡ some (alias_for st ip o).0
    at none e = get-put_self st.ip_alias ip (alias_name (st.alias_seq + 1))
    at (some a) e = e

-- Redacting any address leaves the aliases that there are.
alias_kept :
    (st : StoryTracker) (ip x a : String)
    → get st.ip_alias ip ≡ some a
    → get (format_ip st x true).1.ip_alias ip ≡ some a
unfolding format_ip alias_for
alias_kept st ip x a h = elim (Bool-cases (x == "")) [
  | inl e ↦ rw e h
  | inr e ↦ rw e (at (get st.ip_alias x) refl)
]
  where
    at : (o : Option String) → get st.ip_alias x ≡ o → get (alias_for st x o).1.ip_alias ip ≡ some a
    at none k = elim (Bool-cases (x == ip)) [
      | inl e ↦ absurd (
          ground (
            arith,
            (string_eq.same_iff x ip).0 e,
            ap (get st.ip_alias) ((string_eq.same_iff x ip).0 e),
            h,
            k,
          ))
      | inr e ↦ rw (get-put, e) h
    ]
    at (some b) k = h

alias_kept_all :
    (xs : List String) (st : StoryTracker) (ip a : String)
    → get st.ip_alias ip ≡ some a
    → get (redact_all st xs).ip_alias ip ≡ some a
alias_kept_all [] st ip a h = h
alias_kept_all (x ∷ xs) st ip a h =
    alias_kept_all xs (format_ip st x true).1 ip a (alias_kept st ip x a h)

unnamed :
    (st : StoryTracker) (ip : String)
    → (ip == "") ≡ true
    → ◌≡◌ {A = String × StoryTracker} (format_ip st ip true) ("-", st)
unfolding format_ip
unnamed st ip h = rw h

named :
    (st : StoryTracker) (ip a : String)
    → (ip == "") ≡ false
    → get st.ip_alias ip ≡ some a
    → ◌≡◌ {A = String × StoryTracker} (format_ip st ip true) (a, st)
unfolding format_ip alias_for
named st ip a h e = rw (h, e)

-- After an address was redacted once, whatever addresses are redacted then, it keeps its alias, and
-- redacting it again changes nothing.
pub format_ip_stable :
    (st : StoryTracker) (ip : String) (xs : List String)
    → let (alias, st') = format_ip st ip true in
      ◌≡◌ {A = String × StoryTracker}
        (format_ip (redact_all st' xs) ip true)
        (alias, redact_all st' xs)
format_ip_stable st ip xs = elim (Bool-cases (ip == "")) [
  | inl h ↦
      let st'' = redact_all (format_ip st ip true).1 xs in
      unnamed st'' ip h ∙ ap (λ q. (q.0, st'')) (sym (unnamed st ip h))
  | inr h ↦
      let (alias, st') = format_ip st ip true in
      named (redact_all st' xs) ip alias h
        (alias_kept_all xs st' ip alias (alias-format_ip st ip h))
]

-- The alias of the 27th address is that of the first: the names repeat after 26 addresses.
alias_name_repeats : (n : ℕ) → alias_name (n + 26 + 1) ≡ alias_name (n + 1)
unfolding alias_name
alias_name_repeats n =
    ap (λ k. concat ("HOST_" ∷ get_or letters k "" ∷ [])) {x = (n + 26 + 1 - 1) % 26}
      {y = (n + 1 - 1) % 26} (omega arith)

-- Two addresses without an alias, met when the counter has moved on by 26, are shown by one name.
pub redaction_collides :
    (s t : StoryTracker) (a b : String)
    → a ≢ ""
    → b ≢ ""
    → get s.ip_alias a ≡ none
    → get t.ip_alias b ≡ none
    → t.alias_seq ≡ s.alias_seq + 26
    → (format_ip s a true).0 ≡ (format_ip t b true).0
unfolding format_ip alias_for
redaction_collides s t a b ha hb fa fb e =
    rw (not_empty a ha, not_empty b hb, fa, fb, e) (sym (alias_name_repeats s.alias_seq))
  where
    not_empty : (x : String) → x ≢ "" → (x == "") ≡ false
    not_empty x h = ground (arith, string_eq.same_iff x "")
