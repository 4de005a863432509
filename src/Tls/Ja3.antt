-- ===== src/Tls/Ja3.antt =====
-- internal/tls/ja3.go: the JA3 text, its hash and the label.
use undertow.Base.{
  ℕ, ◌+◌, String, not, ◌&&◌, Option, none, some, List, [], ◌∷◌, ◌++◌, map, leb, nat_eq,
  if◌then◌else◌,
}
use undertow.Base.Eq.{string_eq}
use undertow.Base.Dict.{Dict, get, or_else}
use undertow.Base.Text.{concat, join, dec}
use undertow.Base.Bytes.{Slice, with_byte, with_word, words, bytes}
use undertow.Tls.{is_grease, no_grease, Hello, walk}

pub record Ja3Result : Type 0 where
  pub raw_string : String
  pub hash : String
  pub label : String

-- `WellKnownJA3`
abbrev well_known_ja3 : Dict String String
well_known_ja3 =
    ("cd2dde6459319854499d3910c2269a8b", "curl / libcurl")
    ∷ ("b323091232d556d4e201b120d694da5c", "Go net/http Client")
    ∷ ("6734f37431670b3ab4292b8f60a29984", "Google Chrome (Desktop)")
    ∷ ("04666f2c31c77f0a8d67280d96d2ff86", "Python urllib / requests")
    ∷ ("e7ed67db2926c10e231664e5b7e81281", "Firefox Browser")
    ∷ ("9e49c717034c44e99990e6ff05f56475", "Safari / iOS WebKit")
    ∷ []

-- The slices that the loop over the extensions appends to.
pub record Lists : Type 0 where
  pub extensions : List ℕ
  pub curves : List ℕ
  pub points : List ℕ

unfoldable pub note_extension : Lists → ℕ → Lists
note_extension l type =
    if not (is_grease type) then record l { extensions = l.extensions ++ type ∷ [] } else l

unfoldable pub add_curves : Lists → Option (List ℕ) → Option Lists
add_curves l none = none
add_curves l (some raw) = some (record l { curves = l.curves ++ no_grease raw })

unfoldable pub add_points : Lists → Option (List ℕ) → Option Lists
add_points l none = none
add_points l (some raw) = some (record l { points = l.points ++ raw })

-- Extension 10, the groups, and extension 11, the point formats.
unfoldable pub handle_extension : Lists → ℕ → Slice → Option Lists
unfolding add_curves add_points
handle_extension l type data_ =
    if nat_eq type 10 && leb 2 data_.len
    then with_word data_ 0 (λ curves_len.
      if leb (2 + curves_len) data_.len then add_curves l (words data_ 2 curves_len) else some l)
    else if nat_eq type 11 && leb 1 data_.len
    then with_byte data_ 0 (λ points_len.
      if leb (1 + points_len) data_.len then add_points l (bytes data_ 1 points_len) else some l)
    else some l

abbrev decimals : List ℕ → String
decimals ns = join "-" (map dec ns)

-- `md5_hex` is the MD5 of a text in hexadecimal.
module _ (md5_hex : String → String) where
  unfoldable pub ja3_result : Hello note_extension handle_extension → Ja3Result
  ja3_result hello =
      let raw = concat (
        dec hello.version
        ∷ ","
        ∷ decimals hello.ciphers
        ∷ ","
        ∷ decimals hello.found.extensions
        ∷ ","
        ∷ decimals hello.found.curves
        ∷ ","
        ∷ decimals hello.found.points
        ∷ []) in
      record {
        raw_string = raw;
        hash = md5_hex raw;
        label = or_else (get well_known_ja3 (md5_hex raw)) "Unknown TLS Client";
      }

  unfoldable pub ja3_of :
      Option (Option (Hello note_extension handle_extension)) → Option (Option Ja3Result)
  ja3_of none = none
  ja3_of (some none) = some none
  ja3_of (some (some hello)) = some (some (ja3_result hello))

  -- `ParseClientHello`: `none` is a panic, `some none` the result false.
  unfoldable pub parse_client_hello : Slice → Option (Option Ja3Result)
  unfolding ja3_of
  parse_client_hello payload = ja3_of (
      walk note_extension handle_extension (record { extensions = []; curves = []; points = [] })
        payload)
