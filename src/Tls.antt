-- ===== src/Tls.antt =====
-- The ClientHello that internal/tls/ja3.go and internal/decode/ja4.go both walk through, with the same
-- tests in the same order: the walk once, with what to do at an extension as an argument.
pub mod Ja3
pub mod Ja4
pub mod Safety
pub mod Accept
pub mod Rounds
use undertow.Base.{
  ℕ, zero, suc, ◌+◌, ◌*◌, ◌/◌, ◌%◌, Bool, true, false, not, ◌&&◌, ◌||◌, Option, none, some, List,
  [], ◌∷◌, ltb, leb, nat_eq, if◌then◌else◌, length, filter, drop, min,
}
use undertow.Base.Bytes.{Slice, with_byte, with_word, with_part, words}

-- `IsGREASE` and `IsGREASE4`: `val & 0x0f0f == 0x0a0a`, by the low half of each byte
unfoldable pub is_grease : ℕ → Bool
is_grease v = nat_eq (v % 16) 10 && nat_eq (v / 256 % 16) 10

abbrev pub no_grease : List ℕ → List ℕ
no_grease = filter (λ v. not (is_grease v))

-- The handshake of a record, where the header says that there is one: `payload[5 : 5+recordLen]`. The
-- outer `none` is a panic, the inner one a payload that is turned down.
unfoldable pub handshake_of : Slice → Option (Option Slice)
handshake_of payload =
    if ltb payload.len 45
    then some none
    else with_byte payload 0 (λ type.
      if not (nat_eq type 0x16)
      then some none
      else with_byte payload 1 (λ version.
        if not (nat_eq version 3)
        then some none
        else with_word payload 3 (λ record_len.
          if ltb payload.len (5 + record_len)
          then some none
          else with_part payload 5 (5 + record_len) (λ handshake.
            if ltb handshake.len 38
            then some none
            else with_byte handshake 0
                (λ message. if not (nat_eq message 1) then some none else some (some handshake))))))

-- Where the list of ciphers starts and how many bytes it has, if it lies within the handshake.
unfoldable pub ciphers_at : Slice → Option (Option (ℕ × ℕ))
ciphers_at h =
    if leb h.len 38
    then some none
    else with_byte h 38 (λ session_len.
      let offset = 39 + session_len in
      if ltb h.len (offset + 2)
      then some none
      else with_word h offset (λ cipher_len.
        if ltb h.len (offset + 2 + cipher_len)
        then some none
        else some (some (offset + 2, cipher_len))))

module _ {ℓ} {A : Type ℓ} (note : A → ℕ → A) (handle : A → ℕ → Slice → Option A) where
  abbrev pub and_then : Option A → (A → Option A) → Option A
  and_then none k = none
  and_then (some a) k = k a

  -- The loop over the extensions up to `end_ext`: the type is noted, and if the data lies within the
  -- extensions it is handled, else the loop breaks. `none` is a panic. A round takes 4 bytes or more.
  unfoldable pub extension_loop : Slice → ℕ → ℕ → ℕ → A → Option A
  extension_loop h end_ext zero offset acc = some acc
  extension_loop h end_ext (suc fuel) offset acc =
      if leb (offset + 4) end_ext
      then with_word h offset (λ type. with_word h (offset + 2) (λ data_len.
        if ltb end_ext (offset + 4 + data_len)
        then some (note acc type)
        else with_part h (offset + 4) (offset + 4 + data_len) (λ data_.
          and_then (handle (note acc type) type data_)
            (extension_loop h end_ext fuel (offset + 4 + data_len)))))
      else some acc

  -- The extensions, if there is room for their length.
  unfoldable pub extensions : Slice → ℕ → A → Option A
  unfolding extension_loop
  extensions h offset acc =
      if leb (offset + 2) h.len
      then with_word h offset
          (λ ext_len. extension_loop h (min (offset + 2 + ext_len) h.len) h.len (offset + 2) acc)
      else some acc

  -- What the walk gathers.
  pub record Hello : Type ℓ where
    pub version : ℕ
    pub ciphers : List ℕ
    pub found : A

  pub hello : ℕ → List ℕ → Option A → Option (Option Hello)
  hello version ciphers none = none
  hello version ciphers (some found) =
      some (some (record { version = version; ciphers = ciphers; found = found }))

  -- After the ciphers: the compression methods, whose first byte has to be there, and the extensions.
  pub after_ciphers : ℕ → Slice → ℕ → A → Option (List ℕ) → Option (Option Hello)
  unfolding hello extensions
  after_ciphers version h offset start none = none
  after_ciphers version h offset start (some raw) =
      if ltb h.len (offset + 1)
      then some none
      else with_byte h offset
          (λ comp_len. hello version (no_grease raw) (extensions h (offset + 1 + comp_len) start))

  pub walk_ciphers : ℕ → Slice → A → Option (Option (ℕ × ℕ)) → Option (Option Hello)
  unfolding after_ciphers
  walk_ciphers version h start none = none
  walk_ciphers version h start (some none) = some none
  walk_ciphers version h start (some (some (offset, cipher_len))) =
      after_ciphers version h (offset + cipher_len) start (words h offset cipher_len)

  pub walk_handshake : A → Option (Option Slice) → Option (Option Hello)
  unfolding walk_ciphers ciphers_at
  walk_handshake start none = none
  walk_handshake start (some none) = some none
  walk_handshake start (some (some h)) =
      with_word h 4 (λ version. walk_ciphers version h start (ciphers_at h))

  -- The whole walk: `none` is a panic, `some none` is a payload that is turned down.
  unfoldable pub walk : A → Slice → Option (Option Hello)
  unfolding walk_handshake handshake_of
  walk start payload = walk_handshake start (handshake_of payload)
