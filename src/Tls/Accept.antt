-- ===== src/Tls/Accept.antt =====
-- The two ClientHello parsers: what they accept, when they cannot panic, and when they do.
use undertow.Base.{
  ℕ, zero, suc, ◌+◌, ◌-◌, ◌%◌, ◌≤◌, ◌<◌, ◌≡◌, refl, ◌∙◌, inl, inr, String, true, false, ◌&&◌,
  Option, none, some, List, arith, ltb, leb, nat_eq, is_some, length, Bool-cases, leb→le, if_both,
}
use undertow.Base.Bytes.{
  Slice, byte, word, part_of, with_word, with_word-none, word?, words, words-is_some, bytes-is_some,
  prepend,
}
use undertow.Tls.{
  handshake_of, ciphers_at, Hello, after_ciphers, walk_ciphers, walk_handshake, walk,
}
use undertow.Tls.Ja3.{
  Lists, note_extension, add_curves, add_points, handle_extension, ja3_of, parse_client_hello,
}
use undertow.Tls.Ja4.{
  Found, nothing_found, alpn_of, note_extension4, handle_extension4, add_versions, add_sig_algs,
  ja4_of, calculate_ja4,
}
use undertow.Tls.Safety.{
  HasSpare, has_room, byte_some, word_some, part_some, is_client_hello, ending, ending-walk,
}

-- The handlers read at most one byte behind the data.
handle_extension-is_some :
    (l : Lists) (type : ℕ) (s : Slice) → HasSpare s → is_some (handle_extension l type s) ≡ true
unfolding handle_extension
handle_extension-is_some l type s spare = elim (Bool-cases (nat_eq type 10 && leb 2 s.len)) [
  | inl a ↦ rw a (
      word_some s 0 _ (ground (arith, a)) (elim (Bool-cases (leb (2 + word s 0) s.len)) [
        | inl e ↦
            rw e (
              curves _
                (words-is_some s 2 (word s 0) (omega (arith, leb→le (2 + word s 0) s.len e))))
        | inr e ↦ rw e
      ]))
  | inr a ↦ rw a (elim (Bool-cases (nat_eq type 11 && leb 1 s.len)) [
    | inl b ↦ rw b (
        byte_some s 0 _ (ground (arith, b)) (elim (Bool-cases (leb (1 + byte s 0) s.len)) [
          | inl e ↦ rw e (
              points _
                (bytes-is_some s 1 (byte s 0) (omega (arith, leb→le (1 + byte s 0) s.len e))))
          | inr e ↦ rw e
        ]))
    | inr b ↦ rw b
  ])
]
  where
    curves : (o : Option (List ℕ)) → is_some o ≡ true → is_some (add_curves l o) ≡ true
    curves none e = absurd (ground (arith, e))
    curves (some raw) e = unfold add_curves in refl

    points : (o : Option (List ℕ)) → is_some o ≡ true → is_some (add_points l o) ≡ true
    points none e = absurd (ground (arith, e))
    points (some raw) e = unfold add_points in refl

alpn_of-is_some :
    (f : Found) (s : Slice) → HasSpare s → leb 2 s.len ≡ true → is_some (alpn_of f s) ≡ true
unfolding alpn_of
alpn_of-is_some f s spare a =
    word_some s 0 _ (ground (arith, a))
      (elim (Bool-cases (leb (2 + word s 0) s.len && ltb 1 (word s 0))) [
        | inl b ↦ rw b (
            byte_some s 2 _ (ground (arith, b))
              (elim (Bool-cases (leb (3 + byte s 2) s.len && ltb 0 (byte s 2))) [
                | inl c ↦ rw c (
                    part_some s 3 (3 + byte s 2) _ (omega arith) (ground (arith, c)) (
                      byte_some (part_of s 3 (3 + byte s 2)) 0 _ (ground (arith, c)) (
                        byte_some (part_of s 3 (3 + byte s 2)) (byte s 2 - 1) _ (ground (arith, c))
                          refl)))
                | inr c ↦ rw c
              ]))
        | inr b ↦ rw b
      ])

handle_extension4-is_some :
    (f : Found) (type : ℕ) (s : Slice) → HasSpare s → is_some (handle_extension4 f type s) ≡ true
unfolding handle_extension4
handle_extension4-is_some f type s spare =
    if_both Good (nat_eq type 0) refl (elim (Bool-cases (nat_eq type 0x10 && leb 2 s.len)) [
      | inl a ↦ rw a (alpn_of-is_some f s spare (ground (arith, a)))
      | inr a ↦ rw a (elim (Bool-cases (nat_eq type 0x2b && leb 1 s.len)) [
        | inl b ↦ rw b (
            byte_some s 0 _ (ground (arith, b)) (elim (Bool-cases (leb (1 + byte s 0) s.len)) [
              | inl e ↦ rw e (
                  versions _
                    (words-is_some s 1 (byte s 0) (omega (arith, leb→le (1 + byte s 0) s.len e))))
              | inr e ↦ rw e
            ]))
        | inr b ↦ rw b (elim (Bool-cases (nat_eq type 0x0d && leb 2 s.len)) [
          | inl c ↦ rw c (
              word_some s 0 _ (ground (arith, c)) (elim (Bool-cases (leb (2 + word s 0) s.len)) [
                | inl e ↦ rw e (
                    algs _
                      (words-is_some s 2 (word s 0) (omega (arith, leb→le (2 + word s 0) s.len e))))
                | inr e ↦ rw e
              ]))
          | inr c ↦ rw c
        ])
      ])
    ])
  where
    Good : Option Found → Type 0
    Good o = is_some o ≡ true

    versions : (o : Option (List ℕ)) → is_some o ≡ true → is_some (add_versions f o) ≡ true
    versions none e = absurd (ground (arith, e))
    versions (some raw) e = unfold add_versions in refl

    algs : (o : Option (List ℕ)) → is_some o ≡ true → is_some (add_sig_algs f o) ≡ true
    algs none e = absurd (ground (arith, e))
    algs (some raw) e = unfold add_sig_algs in refl

module _ (md5_hex : String → String) where
  ending-ja3_of :
      (o : Option (Option (Hello note_extension handle_extension)))
      → ending (ja3_of md5_hex o) ≡ ending o
  unfolding ja3_of
  ending-ja3_of none = refl
  ending-ja3_of (some none) = refl
  ending-ja3_of (some (some h)) = refl

module _ (sha256_hex12 : String → String) (ja4_lookup : String → Option String) where
  ending-ja4_of :
      (o : Option (Option (Hello note_extension4 handle_extension4)))
      → ending (ja4_of sha256_hex12 ja4_lookup o) ≡ ending o
  unfolding ja4_of
  ending-ja4_of none = refl
  ending-ja4_of (some none) = refl
  ending-ja4_of (some (some h)) = refl

-- Where a payload that is a TLS record of a handshake goes on in its buffer for a byte behind the
-- record, neither parser panics, and both accept the same payloads: those with a header, a handshake
-- that lies within the payload, and a list of ciphers, followed by at least one byte, that lies
-- within the handshake.
pub fingerprints_agree :
    (md5_hex sha256_hex12 : String → String) (ja4_lookup : String → Option String) (payload : Slice)
    → has_room payload ≡ true
    → (ending (parse_client_hello md5_hex payload) ≡ some (is_client_hello payload))
      × (ending (calculate_ja4 sha256_hex12 ja4_lookup payload) ≡ some (is_client_hello payload))
unfolding parse_client_hello calculate_ja4
fingerprints_agree md5_hex sha256_hex12 ja4_lookup payload room = (
  ending-ja3_of md5_hex _
      ∙ ending-walk note_extension handle_extension handle_extension-is_some _ payload room,
  ending-ja4_of sha256_hex12 ja4_lookup _
      ∙ ending-walk note_extension4 handle_extension4 handle_extension4-is_some nothing_found
          payload room,
)

-- An odd list that ends where the buffer ends.
words-odd : (s : Slice) (at n : ℕ) → n % 2 ≡ 1 → length s.cells ≤ at + n → words s at n ≡ none
unfolding words word? with_word
words-odd s at zero odd le = absurd (omega arith)
words-odd s at (suc zero) odd le = rw (over (omega arith))
  where
    over : length s.cells < at + 2 → leb (at + 2) (length s.cells) ≡ false
    over lt = ground arith
words-odd s at (suc (suc n)) odd le =
    rw (words-odd s (at + 2) n (omega arith) (omega arith)) (lost _)
  where
    lost : (o : Option ℕ) → prepend o none ≡ none
    lost none = refl
    lost (some w) = refl

-- A handshake whose list of ciphers has an odd number of bytes and ends where the buffer ends makes
-- both parsers panic.
pub odd_ciphers_panic :
    (md5_hex sha256_hex12 : String → String) (ja4_lookup : String → Option String)
    (payload h : Slice) (offset n : ℕ)
    → handshake_of payload ≡ some (some h)
    → ciphers_at h ≡ some (some (offset, n))
    → n % 2 ≡ 1
    → length h.cells ≤ offset + n
    → (parse_client_hello md5_hex payload ≡ none)
      × (calculate_ja4 sha256_hex12 ja4_lookup payload ≡ none)
unfolding parse_client_hello calculate_ja4 walk walk_handshake walk_ciphers after_ciphers ja3_of
    ja4_of
odd_ciphers_panic md5_hex sha256_hex12 ja4_lookup payload h offset n eh ec odd full = (
  rw (eh, ec, words-odd h offset n odd full, with_word-none h 4 _ refl),
  rw (eh, ec, words-odd h offset n odd full, with_word-none h 4 _ refl),
)
