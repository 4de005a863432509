-- ===== src/Tls/Ja4.antt =====
-- internal/decode/ja4.go: the JA4 fingerprint and its label.
use undertow.Base.{
  ℕ, ◌+◌, ◌-◌, String, Bool, true, false, not, ◌&&◌, ◌||◌, Option, none, some, List, [], ◌∷◌, ◌++◌,
  map, ltb, leb, nat_eq, if◌then◌else◌, length, min,
}
use undertow.Base.Eq.{◌==◌, string_eq}
use undertow.Base.Sort.{sort, asc}
use undertow.Base.Text.{concat, join, dec2, hex4}
use undertow.Base.Strings.{to_lower, contains}
use undertow.Base.Bytes.{Slice, with_byte, with_word, with_part, words, byte_text}
use undertow.Tls.{is_grease, no_grease, Hello, walk}

pub record Ja4Result : Type 0 where
  pub ja4_string : String
  pub label : String
  pub is_malware : Bool

-- What the loop over the extensions sets.
pub record Found : Type 0 where
  pub has_sni : Bool
  pub alpn : String
  pub is_13 : Bool
  pub extensions : List ℕ
  pub sig_algs : List ℕ

abbrev pub nothing_found : Found
nothing_found = record {
  has_sni = false;
  alpn = "00";
  is_13 = false;
  extensions = [];
  sig_algs = [];
}

unfoldable pub note_extension4 : Found → ℕ → Found
note_extension4 f type =
    if not (is_grease type) then record f { extensions = f.extensions ++ type ∷ [] } else f

-- The first and the last byte of the first ALPN name, as text.
unfoldable pub alpn_of : Found → Slice → Option Found
alpn_of f data_ = with_word data_ 0 (λ list_len.
    if leb (2 + list_len) data_.len && ltb 1 list_len
    then with_byte data_ 2 (λ first_len.
      if leb (3 + first_len) data_.len && ltb 0 first_len
      then with_part data_ 3 (3 + first_len) (λ name. with_byte name 0 (λ first.
        with_byte name (first_len - 1)
          (λ last. some (record f { alpn = concat (byte_text first ∷ byte_text last ∷ []) }))))
      else some f)
    else some f)

abbrev has : ℕ → List ℕ → Bool
has v [] = false
has v (w ∷ ws) = nat_eq w v || has v ws

unfoldable pub add_versions : Found → Option (List ℕ) → Option Found
add_versions f none = none
add_versions f (some raw) = some (record f { is_13 = f.is_13 || has 0x0304 raw })

unfoldable pub add_sig_algs : Found → Option (List ℕ) → Option Found
add_sig_algs f none = none
add_sig_algs f (some raw) = some (record f { sig_algs = f.sig_algs ++ no_grease raw })

-- Extensions 0 (SNI), 16 (ALPN), 43 (supported versions) and 13 (signature algorithms): the types
-- exclude one another, so the `if`s in a row are one chain.
unfoldable pub handle_extension4 : Found → ℕ → Slice → Option Found
unfolding add_versions add_sig_algs alpn_of
handle_extension4 f type data_ =
    if nat_eq type 0
    then some (record f { has_sni = true })
    else if nat_eq type 0x10 && leb 2 data_.len
    then alpn_of f data_
    else if nat_eq type 0x2b && leb 1 data_.len
    then with_byte data_ 0 (λ versions_len.
      if leb (1 + versions_len) data_.len
      then add_versions f (words data_ 1 versions_len)
      else some f)
    else if nat_eq type 0x0d && leb 2 data_.len
    then with_word data_ 0 (λ algs_len.
      if leb (2 + algs_len) data_.len then add_sig_algs f (words data_ 2 algs_len) else some f)
    else some f

-- The `switch` on the version of the handshake.
unfoldable pub version_text : ℕ → String
version_text v =
    if nat_eq v 0x0304
    then "13"
    else if nat_eq v 0x0303
    then "12"
    else if nat_eq v 0x0302
    then "11"
    else if nat_eq v 0x0301
    then "10"
    else "12"

-- `sortUint16s`
abbrev sort_uint16s : List ℕ → List ℕ
sort_uint16s = sort (asc (λ n. n))

-- `sha256_hex12` is the first 12 hexadecimal digits of the SHA-256 of a text, and `ja4_lookup` the
-- database that is embedded at build time.
module _ (sha256_hex12 : String → String) (ja4_lookup : String → Option String) where
  unfoldable pub truncated_sha256 : String → String
  truncated_sha256 input = if input == "" then "000000000000" else sha256_hex12 input

  -- The three parts. The counts stop at 99.
  unfoldable pub part1 : String → Found → List ℕ → String
  part1 version f ciphers = concat (
      "t"
      ∷ version
      ∷ (if f.has_sni then "d" else "i")
      ∷ dec2 (min (length ciphers) 99)
      ∷ dec2 (min (length f.extensions) 99)
      ∷ f.alpn
      ∷ [])

  unfoldable pub part2 : List ℕ → String
  part2 ciphers = truncated_sha256 (join "," (map hex4 (sort_uint16s ciphers)))

  unfoldable pub part3 : Found → String
  part3 f = truncated_sha256 (
      join "," (
        map hex4 (sort_uint16s f.extensions)
        ++ (if ltb 0 (length f.sig_algs)
            then concat ("_" ∷ join "," (map hex4 f.sig_algs) ∷ []) ∷ []
            else [])))

  unfoldable pub fingerprint : ℕ → Found → List ℕ → String
  fingerprint version f ciphers = concat (
      part1 (if f.is_13 then "13" else version_text version) f ciphers
      ∷ "_"
      ∷ part2 ciphers
      ∷ "_"
      ∷ part3 f
      ∷ [])

  unfoldable pub is_malware_label : String → Bool
  is_malware_label label =
      contains (to_lower label) "beacon"
      || (contains (to_lower label) "c2"
          || (contains (to_lower label) "malware" || contains (to_lower label) "stealer"))

  unfoldable labelled : String → Option String → Ja4Result
  labelled ja4 none = record { ja4_string = ja4; label = "Unknown TLS Client"; is_malware = false }
  labelled ja4 (some label) = record {
    ja4_string = ja4;
    label = label;
    is_malware = is_malware_label label;
  }

  unfoldable pub ja4_result : Hello note_extension4 handle_extension4 → Ja4Result
  unfolding labelled
  ja4_result hello =
      let ja4 = fingerprint hello.version hello.found hello.ciphers in labelled ja4 (ja4_lookup ja4)

  unfoldable pub ja4_of :
      Option (Option (Hello note_extension4 handle_extension4)) → Option (Option Ja4Result)
  ja4_of none = none
  ja4_of (some none) = some none
  ja4_of (some (some hello)) = some (some (ja4_result hello))

  -- `CalculateJA4`: `none` is a panic, `some none` the result false.
  unfoldable pub calculate_ja4 : Slice → Option (Option Ja4Result)
  unfolding ja4_of
  calculate_ja4 payload = ja4_of (walk note_extension4 handle_extension4 nothing_found payload)
