-- ===== src/Tls/Safety.antt =====
-- The walk over a ClientHello: what it accepts, and that it does not panic where its handlers do not.
use undertow.Base.{
  ℕ, zero, suc, ◌+◌, ◌≤◌, ◌<◌, ◌≡◌, refl, sym, ap, ◌∙◌, inl, inr, Bool, true, false, not, ◌&&◌,
  ◌||◌, Option, none, some, List, arith, ltb, leb, nat_eq, is_some, length, length-drop, min,
  Bool-cases, leb→le, ltb-false, ltb→lt, if_app, if◌then◌else◌, le→leb,
}
use undertow.Base.Bytes.{
  Slice, byte, word, part_of, with_byte, with_word, with_part, with_byte-in, with_word-in,
  with_part-in, words-is_some,
}
use undertow.Tls.{
  no_grease, handshake_of, ciphers_at, and_then, extension_loop, extensions, hello, after_ciphers,
  walk_ciphers, walk_handshake, walk,
}

-- A byte more than the slice shows can be read.
abbrev pub HasSpare : Slice → Type 0
HasSpare s = s.len < length s.cells

part_of-HasSpare : (s : Slice) (i j : ℕ) → i ≤ j → j < length s.cells → HasSpare (part_of s i j)
part_of-HasSpare s i j le lt = omega (arith, length-drop i s.cells)

-- What a record has to be for its ClientHello to be accepted.
abbrev pub is_client_hello : Slice → Bool
is_client_hello p =
    let rl = word p 3 in
    let h = part_of p 5 (5 + rl) in
    let at = 39 + byte h 38 in
    leb 45 p.len
    && (nat_eq (byte p 0) 0x16
        && (nat_eq (byte p 1) 3
            && (leb (5 + rl) p.len
                && (leb 38 rl && (nat_eq (byte h 0) 1 && leb (at + 2 + word h at + 1) rl)))))

-- How a parser ends: a panic, or whether it accepts.
abbrev pub ending {ℓ} : {R : Type ℓ} → Option (Option R) → Option Bool
ending none = none
ending (some r) = some (is_some r)

-- A payload that is no TLS record of a handshake, or whose buffer goes on for a byte behind the record
-- that its header announces.
abbrev pub has_room : Slice → Bool
has_room p =
    not (leb 45 p.len && (nat_eq (byte p 0) 0x16 && nat_eq (byte p 1) 3))
    || ltb (5 + word p 3) (length p.cells)

module _ {ℓ} {R : Type ℓ} (s : Slice) where
  pub byte_some :
      (i : ℕ) (k : ℕ → Option R)
      → i < s.len
      → is_some (k (byte s i)) ≡ true
      → is_some (with_byte s i k) ≡ true
  byte_some i k h e = rw (with_byte-in s i k h) e

  pub word_some :
      (i : ℕ) (k : ℕ → Option R)
      → i + 2 ≤ length s.cells
      → is_some (k (word s i)) ≡ true
      → is_some (with_word s i k) ≡ true
  word_some i k h e = rw (with_word-in s i k h) e

  pub part_some :
      (i j : ℕ) (k : Slice → Option R)
      → i ≤ j
      → j ≤ length s.cells
      → is_some (k (part_of s i j)) ≡ true
      → is_some (with_part s i j k) ≡ true
  part_some i j k h h' e = rw (with_part-in s i j k h h') e

-- Where the ciphers are, and the handshake, by the tests alone: no read panics.
abbrev ciphers_found : Slice → Option (ℕ × ℕ)
ciphers_found h =
    let offset = 39 + byte h 38 in
    if leb h.len 38
    then none
    else if ltb h.len (offset + 2)
    then none
    else if ltb h.len (offset + 2 + word h offset)
    then none
    else some (offset + 2, word h offset)

ciphers_at-HasSpare : (h : Slice) → HasSpare h → ciphers_at h ≡ some (ciphers_found h)
unfolding ciphers_at
ciphers_at-HasSpare h spare = elim (Bool-cases (leb h.len 38)) [
  | inl a ↦ rw a
  | inr a ↦
      rw (a, with_byte-in h 38 _ (ground (arith, a)))
        (elim (Bool-cases (ltb h.len (39 + byte h 38 + 2))) [
          | inl b ↦ rw b
          | inr b ↦
              rw
                (
                  b,
                  with_word-in h (39 + byte h 38) _
                      (omega (arith, ltb-false h.len (39 + byte h 38 + 2) b)),
                )
                (sym (
                  if_app some (ltb h.len (39 + byte h 38 + 2 + word h (39 + byte h 38))) none
                    (some (39 + byte h 38 + 2, word h (39 + byte h 38)))))
        ])
]

abbrev handshake_found : Slice → Option Slice
handshake_found p =
    let h = part_of p 5 (5 + word p 3) in
    if ltb p.len 45
    then none
    else if not (nat_eq (byte p 0) 0x16)
    then none
    else if not (nat_eq (byte p 1) 3)
    then none
    else if ltb p.len (5 + word p 3)
    then none
    else if ltb h.len 38
    then none
    else if not (nat_eq (byte h 0) 1)
    then none
    else some h

handshake_of-room : (p : Slice) → has_room p ≡ true → handshake_of p ≡ some (handshake_found p)
unfolding handshake_of
handshake_of-room p room = elim (Bool-cases (ltb p.len 45)) [
  | inl a ↦ rw a
  | inr a ↦
      rw (a, with_byte-in p 0 _ (omega (arith, ltb-false p.len 45 a)))
        (elim (Bool-cases (not (nat_eq (byte p 0) 0x16))) [
          | inl b ↦ rw b
          | inr b ↦
              rw (b, with_byte-in p 1 _ (omega (arith, ltb-false p.len 45 a)))
                (elim (Bool-cases (not (nat_eq (byte p 1) 3))) [
                  | inl c ↦ rw c
                  | inr c ↦
                      rw (c, with_word-in p 3 _ (ground (arith, room, a, b, c)))
                        (elim (Bool-cases (ltb p.len (5 + word p 3))) [
                          | inl d ↦ rw d
                          | inr d ↦
                              rw
                                (
                                  d,
                                  with_part-in p 5 (5 + word p 3) _ (omega arith)
                                      (ground (arith, room, a, b, c)),
                                )
                                (started (part_of p 5 (5 + word p 3)))
                        ])
                ])
        ])
]
  where
    started :
        (h : Slice)
        → ◌≡◌ {A = Option (Option Slice)}
            (if ltb h.len 38
              then some none
              else with_byte h 0
                  (λ message. if not (nat_eq message 1) then some none else some (some h)))
            (some
              (if ltb h.len 38 then none else if not (nat_eq (byte h 0) 1) then none else some h))
    started h = elim (Bool-cases (ltb h.len 38)) [
      | inl e ↦ rw e
      | inr e ↦
          rw (e, with_byte-in h 0 _ (omega (arith, ltb-false h.len 38 e)))
            (sym (if_app some (not (nat_eq (byte h 0) 1)) none (some h)))
    ]

module _ {ℓ} {A : Type ℓ} (note : A → ℕ → A) (handle : A → ℕ → Slice → Option A) where
  and_then-is_some :
      (o : Option A) (k : A → Option A)
      → is_some o ≡ true
      → ((a : A) → is_some (k a) ≡ true)
      → is_some (and_then note handle o k) ≡ true
  and_then-is_some none k e h = absurd (ground (arith, e))
  and_then-is_some (some a) k e h = h a

  module _
      (total : (a : A) (type : ℕ) (s : Slice) → HasSpare s → is_some (handle a type s) ≡ true) where
    loop-is_some :
        (h : Slice) (end_ext fuel offset : ℕ) (acc : A)
        → HasSpare h
        → end_ext ≤ h.len
        → is_some (extension_loop note handle h end_ext fuel offset acc) ≡ true
    unfolding extension_loop
    loop-is_some h end_ext zero offset acc spare le = refl
    loop-is_some h end_ext (suc fuel) offset acc spare le =
        elim (Bool-cases (leb (offset + 4) end_ext)) [
          | inr e ↦ rw e
          | inl e ↦ rw e (
              word_some h offset _ (omega (arith, leb→le (offset + 4) end_ext e)) (
                word_some h (offset + 2) _ (omega (arith, leb→le (offset + 4) end_ext e))
                  (elim (Bool-cases (ltb end_ext (offset + 4 + word h (offset + 2)))) [
                    | inl k ↦ rw k
                    | inr k ↦ rw k (
                        handled (word h (offset + 2)) k (λ a.
                          loop-is_some h end_ext fuel (offset + 4 + word h (offset + 2)) a spare
                            le))
                  ])))
        ]
      where
        handled :
            (n : ℕ)
            → ltb end_ext (offset + 4 + n) ≡ false
            → ((a : A)
                → is_some (extension_loop note handle h end_ext fuel (offset + 4 + n) a) ≡ true)
            → is_some (
                with_part h (offset + 4) (offset + 4 + n) (λ data_.
                  and_then note handle
                    (handle (note acc (word h offset)) (word h offset) data_)
                    (extension_loop note handle h end_ext fuel (offset + 4 + n))))
              ≡ true
        handled n k rest =
            part_some h (offset + 4) (offset + 4 + n) _ (omega arith)
              (omega (arith, ltb-false end_ext (offset + 4 + n) k))
              (and_then-is_some (handle _ _ _) _
                (total _ _ (part_of h (offset + 4) (offset + 4 + n)) (
                  part_of-HasSpare h (offset + 4) (offset + 4 + n) (omega arith)
                    (omega (arith, ltb-false end_ext (offset + 4 + n) k))))
                rest)

    ending-hello :
        (version : ℕ) (ciphers : List ℕ) (o : Option A)
        → is_some o ≡ true
        → ending (hello note handle version ciphers o) ≡ some true
    unfolding hello
    ending-hello version ciphers none e = absurd (ground (arith, e))
    ending-hello version ciphers (some a) e = refl

    extensions-is_some :
        (h : Slice) (offset : ℕ) (acc : A)
        → HasSpare h
        → is_some (extensions note handle h offset acc) ≡ true
    unfolding extensions
    extensions-is_some h offset acc spare = elim (Bool-cases (leb (offset + 2) h.len)) [
      | inl e ↦ rw e (
          word_some h offset _ (omega (arith, leb→le (offset + 2) h.len e)) (
            loop-is_some h (min (offset + 2 + word h offset) h.len) h.len (offset + 2) acc spare
              (omega arith)))
      | inr e ↦ rw e
    ]

    ending-after_ciphers :
        (version : ℕ) (h : Slice) (offset : ℕ) (start : A) (o : Option (List ℕ))
        → HasSpare h
        → is_some o ≡ true
        → ending (after_ciphers note handle version h offset start o)
          ≡ some (leb (offset + 1) h.len)
    unfolding after_ciphers
    ending-after_ciphers version h offset start none spare e = absurd (ground (arith, e))
    ending-after_ciphers version h offset start (some raw) spare e =
        elim (Bool-cases (ltb h.len (offset + 1))) [
          | inl k ↦ rw k (ap some (sym (over (ltb→lt h.len (offset + 1) k))))
          | inr k ↦
              rw (k, with_byte-in h offset _ (omega (arith, ltb-false h.len (offset + 1) k)))
                (ending-hello version (no_grease raw) _
                    (extensions-is_some h (offset + 1 + byte h offset) start spare)
                  ∙ ap some (sym (le→leb (offset + 1) h.len (ltb-false h.len (offset + 1) k))))
        ]
      where
        over : h.len < offset + 1 → leb (offset + 1) h.len ≡ false
        over lt = ground arith

    ending-walk_ciphers :
        (version : ℕ) (h : Slice) (start : A)
        → HasSpare h
        → ending (walk_ciphers note handle version h start (some (ciphers_found h)))
          ≡ some (leb (39 + byte h 38 + 2 + word h (39 + byte h 38) + 1) h.len)
    unfolding walk_ciphers
    ending-walk_ciphers version h start spare = elim (Bool-cases (leb h.len 38)) [
      | inl a ↦ rw a (ap some (sym (short (omega (arith, leb→le h.len 38 a)))))
      | inr a ↦ elim (Bool-cases (ltb h.len (39 + byte h 38 + 2))) [
        | inl b ↦
            rw (a, b) (ap some (sym (short (omega (arith, ltb→lt h.len (39 + byte h 38 + 2) b)))))
        | inr b ↦ elim (Bool-cases (ltb h.len (39 + byte h 38 + 2 + word h (39 + byte h 38)))) [
          | inl c ↦
              rw (a, b, c)
                (ap some (
                  sym (
                    short (
                      omega
                        (arith, ltb→lt h.len (39 + byte h 38 + 2 + word h (39 + byte h 38)) c)))))
          | inr c ↦
              rw (a, b, c)
                (ending-after_ciphers version h (39 + byte h 38 + 2 + word h (39 + byte h 38)) start
                  _ spare
                  (words-is_some h (39 + byte h 38 + 2) (word h (39 + byte h 38)) (
                    omega
                      (arith, ltb-false h.len (39 + byte h 38 + 2 + word h (39 + byte h 38)) c))))
        ]
      ]
    ]
      where
        short :
            h.len < 39 + byte h 38 + 2 + word h (39 + byte h 38) + 1
            → leb (39 + byte h 38 + 2 + word h (39 + byte h 38) + 1) h.len ≡ false
        short lt = ground arith

    ending-walk_handshake :
        (h : Slice) (start : A)
        → HasSpare h
        → 6 ≤ h.len
        → ending (walk_handshake note handle start (some (some h)))
          ≡ some (leb (39 + byte h 38 + 2 + word h (39 + byte h 38) + 1) h.len)
    unfolding walk_handshake
    ending-walk_handshake h start spare long =
        rw (with_word-in h 4 _ (omega arith), ciphers_at-HasSpare h spare)
          (ending-walk_ciphers (word h 4) h start spare)

    -- A walk over a payload with room for its record.
    pub ending-walk :
        (start : A) (payload : Slice)
        → has_room payload ≡ true
        → ending (walk note handle start payload) ≡ some (is_client_hello payload)
    unfolding walk
    ending-walk start payload room =
        rw (handshake_of-room payload room) (elim (Bool-cases (ltb payload.len 45)) [
          | inl a ↦ rw a (turned_down (ground (arith, a)))
          | inr a ↦ elim (Bool-cases (not (nat_eq (byte payload 0) 0x16))) [
            | inl b ↦ rw (a, b) (turned_down (ground (arith, b)))
            | inr b ↦ elim (Bool-cases (not (nat_eq (byte payload 1) 3))) [
              | inl c ↦ rw (a, b, c) (turned_down (ground (arith, c)))
              | inr c ↦ elim (Bool-cases (ltb payload.len (5 + word payload 3))) [
                | inl d ↦ rw (a, b, c, d) (turned_down (ground (arith, d)))
                | inr d ↦ elim (Bool-cases (ltb h.len 38)) [
                  | inl f ↦ rw (a, b, c, d, f) (turned_down (ground (arith, f)))
                  | inr f ↦ elim (Bool-cases (not (nat_eq (byte h 0) 1))) [
                    | inl g ↦ rw (a, b, c, d, f, g) (turned_down (ground (arith, g)))
                    | inr g ↦
                        rw (a, b, c, d, f, g)
                          (ending-walk_handshake h start
                              (part_of-HasSpare payload 5 (5 + word payload 3) (omega arith)
                                (ground (arith, room, a, b, c)))
                              (omega (arith, ltb-false h.len 38 f))
                            ∙ ap some (ground (arith, a, b, c, d, f, g)))
                  ]
                ]
              ]
            ]
          ]
        ])
      where
        h : Slice
        h = part_of payload 5 (5 + word payload 3)

        header : Bool
        header =
            leb 45 payload.len
            && (nat_eq (byte payload 0) 0x16
                && (nat_eq (byte payload 1) 3
                    && (leb (5 + word payload 3) payload.len
                        && (leb 38 (word payload 3) && nat_eq (byte h 0) 1))))

        turned_down :
            header ≡ false
            → ending (walk_handshake note handle start (some none)) ≡ some (is_client_hello payload)
        turned_down e = unfold walk_handshake in ap some (ground (arith, e))
