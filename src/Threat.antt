-- ===== src/Threat.antt =====
-- internal/security/threat.go: the offline threat lists. Loading and matching hold the mutex, so each
-- is one step. Package net is a parameter: `Net` is an `*net.IPNet`, `Addr` a `net.IP`.
pub mod Match
use undertow.Base.{
  String, Bool, true, false, Option, none, some, List, [], ◌∷◌, ◌++◌, if◌then◌else◌,
}
use undertow.Base.Eq.{◌==◌, string_eq}
use undertow.Base.Dict.{Dict, get, put, or_else}
use undertow.Base.Text.{concat}
use undertow.Base.Strings.{trim_space, to_lower}

pub record ThreatFeed : Type 0 where
  pub ip_blocks : List String
  pub c2_domains : List String
  pub malicious_ips : List String

-- `net.ParseCIDR`, `net.ParseIP`, `IPNet.Contains` and `IPNet.String`
pub record NetOps : Type 1 where
  pub Net : Type 0
  pub Addr : Type 0
  pub parse_cidr : String → Option Net
  pub parse_ip : String → Option Addr
  pub holds : Net → Addr → Bool
  pub net_string : Net → String

unfoldable pub normal_domain : String → String
normal_domain s = to_lower (trim_space s)

-- A missing key of a Go `map[string]bool` reads as false.
abbrev pub listed : Dict String Bool → String → Bool
listed m k = or_else (get m k) false

unfoldable pub add_ips : Dict String Bool → List String → Dict String Bool
add_ips m [] = m
add_ips m (ip ∷ ips) = add_ips (put m (trim_space ip) true) ips

unfoldable pub add_domains : Dict String Bool → List String → Dict String Bool
unfolding normal_domain
add_domains m [] = m
add_domains m (d ∷ ds) = add_domains (put m (normal_domain d) true) ds

module _ (N : NetOps) where
  pub record Engine : Type 0 where
    pub cidrs : List N.Net
    pub exact_ips : Dict String Bool
    pub c2_domains : Dict String Bool

  abbrev pub with_cidr : List N.Net → Option N.Net → List N.Net
  with_cidr nets none = nets
  with_cidr nets (some net) = nets ++ net ∷ []

  -- A block that does not parse is passed over.
  unfoldable pub add_cidrs : List N.Net → List String → List N.Net
  add_cidrs nets [] = nets
  add_cidrs nets (b ∷ bs) = add_cidrs (with_cidr nets (N.parse_cidr b)) bs

  unfoldable pub add_feed : Engine → ThreatFeed → Engine
  add_feed e feed = record {
    cidrs = add_cidrs e.cidrs feed.ip_blocks;
    exact_ips = add_ips e.exact_ips feed.malicious_ips;
    c2_domains = add_domains e.c2_domains feed.c2_domains;
  }

  -- `loadFeedBytes` on what `json.Unmarshal` made of the bytes: the Boolean says that there was no
  -- error.
  unfoldable load_feed_bytes : Engine → Option ThreatFeed → Bool × Engine
  load_feed_bytes e none = (false, e)
  load_feed_bytes e (some feed) = (true, add_feed e feed)

  load_data : (String → Option ThreatFeed) → Engine → Option String → Bool × Engine
  unfolding load_feed_bytes
  load_data unmarshal e none = (false, e)
  load_data unmarshal e (some text) = load_feed_bytes e (unmarshal text)

  -- `LoadCustomFeed`, with `os.ReadFile` and `json.Unmarshal`
  unfoldable load_custom_feed :
      (String → Option String) → (String → Option ThreatFeed) → Engine → String → Bool × Engine
  unfolding load_data
  load_custom_feed read unmarshal e path = load_data unmarshal e (read path)

  -- `NewEngine` with the feed that is embedded at build time
  unfoldable new_engine : Option ThreatFeed → Engine
  new_engine embedded =
      (load_feed_bytes (record { cidrs = []; exact_ips = []; c2_domains = [] }) embedded).1

  -- The first block that holds the address
  unfoldable pub match_block : List N.Net → N.Addr → Bool × String
  match_block [] ip = (false, "")
  match_block (net ∷ nets) ip =
      let rest = match_block nets ip in
      if N.holds net ip
      then (true, concat ("Spamhaus DROP Block (" ∷ N.net_string net ∷ ")" ∷ []))
      else rest

  unfoldable pub match_parsed : List N.Net → Option N.Addr → Bool × String
  unfolding match_block
  match_parsed nets none = (false, "")
  match_parsed nets (some ip) = match_block nets ip

  -- `MatchIP`
  unfoldable pub match_ip : Engine → String → Bool × String
  unfolding match_parsed
  match_ip e ip_str =
      let ip = trim_space ip_str in
      let parsed = match_parsed e.cidrs (N.parse_ip ip) in
      if listed e.exact_ips ip then (true, "Malicious C2 Host") else parsed

  -- `MatchDomain`
  unfoldable pub match_domain : Engine → String → Bool × String
  unfolding normal_domain
  match_domain e domain =
      if listed e.c2_domains (normal_domain domain)
      then (true, "Malicious C2 Domain")
      else (false, "")
