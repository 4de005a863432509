-- ===== src/Threat/Match.antt =====
-- What the engine reports after any number of feeds, against the texts of the feeds.
use undertow.Base.{
  ◌≡◌, refl, ap, ◌∙◌, inl, inr, String, Bool, true, false, ◌||◌, Option, none, some, List, [], ◌∷◌,
  ◌++◌, arith, Bool-cases,
}
use undertow.Base.Eq.{◌==◌, string_eq}
use undertow.Base.Dict.{Dict, put, get-put}
use undertow.Base.Strings.{trim_space}
use undertow.Threat.{
  ThreatFeed, NetOps, Engine, normal_domain, listed, add_ips, add_domains, with_cidr, add_cidrs,
  add_feed, match_block, match_parsed, match_ip, match_domain,
}

-- Whether a text of the feed stands for the key.
abbrev mentions : (String → String) → List String → String → Bool
mentions f [] k = false
mentions f (s ∷ ss) k = f s == k || mentions f ss k

or_swap : (a b c : Bool) → (a || (b || c)) ≡ (b || (a || c))
or_swap a b c = ground arith

or_assoc : (a b c : Bool) → (a || (b || c)) ≡ (a || b || c)
or_assoc a b c = ground arith

listed-add_ips :
    (m : Dict String Bool) (ips : List String) (k : String)
    → listed (add_ips m ips) k ≡ (mentions trim_space ips k || listed m k)
unfolding add_ips
listed-add_ips m [] k = refl
listed-add_ips m (ip ∷ ips) k =
    listed-add_ips (put m (trim_space ip) true) ips k ∙ rw get-put (ground arith)

listed-add_domains :
    (m : Dict String Bool) (ds : List String) (k : String)
    → listed (add_domains m ds) k ≡ (mentions normal_domain ds k || listed m k)
unfolding add_domains
listed-add_domains m [] k = refl
listed-add_domains m (d ∷ ds) k =
    listed-add_domains (put m (normal_domain d) true) ds k ∙ rw get-put (ground arith)

module _ (N : NetOps) where
  abbrev pub add_feeds : Engine N → List ThreatFeed → Engine N
  add_feeds e [] = e
  add_feeds e (feed ∷ feeds) = add_feeds (add_feed N e feed) feeds

  -- Whether an address lies in a block.
  abbrev holds? : Option (N.Net) → Option (N.Addr) → Bool
  holds? none ip = false
  holds? (some net) none = false
  holds? (some net) (some ip) = N.holds net ip

  abbrev in_blocks : List String → Option (N.Addr) → Bool
  in_blocks [] ip = false
  in_blocks (b ∷ bs) ip = holds? (N.parse_cidr b) ip || in_blocks bs ip

  -- What the feeds say of an address and of a domain.
  abbrev pub reported_ip : List ThreatFeed → String → Bool
  reported_ip [] s = false
  reported_ip (feed ∷ feeds) s =
      (mentions trim_space feed.malicious_ips (trim_space s)
        || in_blocks feed.ip_blocks (N.parse_ip (trim_space s)))
      || reported_ip feeds s

  abbrev pub reported_domain : List ThreatFeed → String → Bool
  reported_domain [] s = false
  reported_domain (feed ∷ feeds) s =
      mentions normal_domain feed.c2_domains (normal_domain s) || reported_domain feeds s

  last_block :
      (ns : List N.Net) (net : N.Net) (a : N.Addr)
      → (match_block N (ns ++ net ∷ []) a).0 ≡ (N.holds net a || (match_block N ns a).0)
  unfolding match_block
  last_block [] net a = ground arith
  last_block (n ∷ ns) net a = elim (Bool-cases (N.holds n a)) [
    | inl e ↦ rw e (ground arith)
    | inr e ↦ rw e (last_block ns net a)
  ]

  match-add_cidrs :
      (nets : List N.Net) (bs : List String) (ip : Option N.Addr)
      → (match_parsed N (add_cidrs N nets bs) ip).0
        ≡ (in_blocks bs ip || (match_parsed N nets ip).0)
  unfolding add_cidrs
  match-add_cidrs nets [] ip = refl
  match-add_cidrs nets (b ∷ bs) ip =
      match-add_cidrs (with_cidr N nets (N.parse_cidr b)) bs ip
      ∙ ap (λ x. in_blocks bs ip || x) (one (N.parse_cidr b) ip)
      ∙ or_swap (in_blocks bs ip) (holds? (N.parse_cidr b) ip) (match_parsed N nets ip).0
      ∙ or_assoc (holds? (N.parse_cidr b) ip) (in_blocks bs ip) (match_parsed N nets ip).0
    where
      one :
          (o : Option N.Net) (a : Option N.Addr)
          → (match_parsed N (with_cidr N nets o) a).0 ≡ (holds? o a || (match_parsed N nets a).0)
      one none a = refl
      one (some net) none = unfold match_parsed in refl
      one (some net) (some a) = unfold match_parsed in last_block nets net a

  -- The verdict on an address: an exact match, or a block.
  verdict :
      (e : Engine N) (s : String)
      → (match_ip N e s).0 ≡ (
          listed e.exact_ips (trim_space s)
          || (match_parsed N e.cidrs (N.parse_ip (trim_space s))).0)
  unfolding match_ip
  verdict e s = elim (Bool-cases (listed e.exact_ips (trim_space s))) [
    | inl h ↦ rw h
    | inr h ↦ rw h
  ]

  domain_verdict :
      (e : Engine N) (s : String) → (match_domain N e s).0 ≡ listed e.c2_domains (normal_domain s)
  unfolding match_domain
  domain_verdict e s = elim (Bool-cases (listed e.c2_domains (normal_domain s))) [
    | inl h ↦ rw h
    | inr h ↦ rw h
  ]

  mix : (a b c d : Bool) → ((a || c) || (b || d)) ≡ ((a || b) || (c || d))
  mix a b c d = ground arith

  one_feed :
      (e : Engine N) (feed : ThreatFeed) (s : String)
      → (match_ip N (add_feed N e feed) s).0 ≡ (
          mentions trim_space feed.malicious_ips (trim_space s)
          || in_blocks feed.ip_blocks (N.parse_ip (trim_space s))
          || (match_ip N e s).0)
  one_feed e feed s =
      verdict (add_feed N e feed) s
      ∙ unfold add_feed in
        rw (listed-add_ips, match-add_cidrs, verdict e s)
          (mix (mentions trim_space feed.malicious_ips (trim_space s))
            (in_blocks feed.ip_blocks (N.parse_ip (trim_space s)))
            (listed e.exact_ips (trim_space s))
            (match_parsed N e.cidrs (N.parse_ip (trim_space s))).0)

  one_feed_domain :
      (e : Engine N) (feed : ThreatFeed) (s : String)
      → (match_domain N (add_feed N e feed) s).0
        ≡ (mentions normal_domain feed.c2_domains (normal_domain s) || (match_domain N e s).0)
  one_feed_domain e feed s =
      domain_verdict (add_feed N e feed) s
      ∙ unfold add_feed in rw (listed-add_domains, domain_verdict e s)

  -- After any feeds, MatchIP reports an address exactly if it did before, or some feed lists it or a
  -- block that holds it; MatchDomain reports a domain exactly if it did before, or some feed lists it
  -- up to surrounding space and case. So a later feed never takes a match back.
  pub match_after_feeds :
      (e : Engine N) (feeds : List ThreatFeed) (s : String)
      → ((match_ip N (add_feeds e feeds) s).0 ≡ (reported_ip feeds s || (match_ip N e s).0))
        × ((match_domain N (add_feeds e feeds) s).0
            ≡ (reported_domain feeds s || (match_domain N e s).0))
  match_after_feeds e [] s = (refl, refl)
  match_after_feeds e (feed ∷ feeds) s =
      let rest = match_after_feeds (add_feed N e feed) feeds s in
      (
        rest.0
            ∙ rw (one_feed e feed s) (
                ahead (reported_ip feeds s)
                  (mentions trim_space feed.malicious_ips (trim_space s)
                    || in_blocks feed.ip_blocks (N.parse_ip (trim_space s)))
                  (match_ip N e s).0),
        rest.1
            ∙ rw (one_feed_domain e feed s) (
                ahead (reported_domain feeds s)
                  (mentions normal_domain feed.c2_domains (normal_domain s))
                  (match_domain N e s).0),
      )
    where
      ahead : (r a m : Bool) → (r || (a || m)) ≡ (a || r || m)
      ahead r a m = ground arith
