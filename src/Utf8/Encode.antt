-- ===== src/Utf8/Encode.antt =====
-- Encoding a rune and decoding it again.
use fingered.Base.{
  ℕ, zero, suc, ◌+◌, ◌-◌, ◌/◌, ◌%◌, ◌<◌, ◌≤◌, ◌≡◌, ◌≢◌, refl, ap, ◌∙◌, inl, inr, List, [], ◌∷◌,
  ◌++◌, arith, ltb, within, false, Bool-cases, Bytes, All, length, append_each, ◌⊎◌, ◌||◌,
}
use fingered.Utf8.Ascii.{decode_rune_ascii}
use fingered.Utf8.{decode_rune, encode_rune, pieces_from, runes_of, runes, none_invalid, valid}

-- A Unicode scalar value: no surrogate and at most 0x10ffff.
abbrev pub IsScalar : ℕ → Type 0
IsScalar r = (r < 0xd800) ⊎ ((0xdfff < r) × (r ≤ 0x10ffff))

pub decode_rune-IsScalar : (s : Bytes) → IsScalar (decode_rune s).0
unfolding decode_rune
decode_rune-IsScalar [] = ground arith
decode_rune-IsScalar (c ∷ []) = ground arith
decode_rune-IsScalar (c ∷ c1 ∷ []) = ground arith
decode_rune-IsScalar (c ∷ c1 ∷ c2 ∷ []) = ground arith
decode_rune-IsScalar (c ∷ c1 ∷ c2 ∷ c3 ∷ s) = ground arith

decode_encode2 :
    (r : ℕ) (s : Bytes)
    → 0x80 ≤ r
    → r < 0x800
    → decode_rune ((0xc0 + r / 64) ∷ (0x80 + r % 64) ∷ s) ≡ (r, 2)
unfolding decode_rune
decode_encode2 r s h k = ground arith

decode_encode3 :
    (r : ℕ) (s : Bytes)
    → 0x800 ≤ r
    → r < 0x10000
    → IsScalar r
    → decode_rune ((0xe0 + r / 4096) ∷ (0x80 + r / 64 % 64) ∷ (0x80 + r % 64) ∷ s) ≡ (r, 3)
unfolding decode_rune
decode_encode3 r s h k i = ground arith

decode_encode4 :
    (r : ℕ) (s : Bytes)
    → 0x10000 ≤ r
    → r ≤ 0x10ffff
    → decode_rune
        ((0xf0 + r / 262144) ∷ (0x80 + r / 4096 % 64) ∷ (0x80 + r / 64 % 64) ∷ (0x80 + r % 64) ∷ s)
      ≡ (r, 4)
unfolding decode_rune
decode_encode4 r s h k = ground arith

-- The bytes of a scalar value are read back as that value, whatever follows them.
pub decode_rune-encode_rune :
    (r : ℕ) (s : Bytes)
    → IsScalar r
    → decode_rune (encode_rune r ++ s) ≡ (r, length (encode_rune r))
unfolding encode_rune
decode_rune-encode_rune r s h = elim (Bool-cases (ltb r 0x80)) [
  | inl e ↦ rw e (decode_rune_ascii r s (ground arith))
  | inr e ↦ elim (Bool-cases (ltb r 0x800)) [
    | inl f ↦ rw (e, f) (decode_encode2 r s (ground arith) (ground arith))
    | inr f ↦ elim (Bool-cases (ltb r 0x10000)) [
      | inl g ↦
          let scalar : (ltb 0x10ffff r || within 0xd800 0xdfff r) ≡ false = ground arith in
          rw (e, f, scalar, g) (decode_encode3 r s (ground arith) (ground arith) h)
      | inr g ↦
          let scalar : (ltb 0x10ffff r || within 0xd800 0xdfff r) ≡ false = ground arith in
          rw (e, f, scalar, g) (decode_encode4 r s (ground arith) (ground arith))
    ]
  ]
]

encode_rune-ne-nil : (r : ℕ) → encode_rune r ≢ []
unfolding encode_rune
encode_rune-ne-nil r = ground arith

pieces_from-skip : (cs s : Bytes) → pieces_from (length cs) (cs ++ s) ≡ pieces_from 0 s
unfolding pieces_from
pieces_from-skip [] s = refl
pieces_from-skip (c ∷ cs) s = pieces_from-skip cs s

pieces_from-piece :
    (r : ℕ) (t s : Bytes)
    → t ≢ []
    → decode_rune (t ++ s) ≡ (r, length t)
    → pieces_from 0 (t ++ s) ≡ (r, length t) ∷ pieces_from 0 s
pieces_from-piece r [] s h e = absurd (h refl)
pieces_from-piece r (c ∷ cs) s h e =
    let one : suc (length cs) - 1 ≡ length cs = omega arith in
    let start : pieces_from 0 (c ∷ (cs ++ s))
        ≡ (r, suc (length cs)) ∷ pieces_from (suc (length cs) - 1) (cs ++ s) =
      unfold pieces_from in ap (λ (d : ℕ × ℕ). d ∷ pieces_from (d.1 - 1) (cs ++ s)) e in
    start
    ∙ ap (◌∷◌ (r, suc (length cs)))
        (ap (λ (n : ℕ). pieces_from n (cs ++ s)) one ∙ pieces_from-skip cs s)

-- The pieces of an encoded rune in front of a text
pub pieces_from-encode_rune :
    (r : ℕ) (s : Bytes)
    → IsScalar r
    → pieces_from 0 (encode_rune r ++ s) ≡ (r, length (encode_rune r)) ∷ pieces_from 0 s
pieces_from-encode_rune r s h =
    pieces_from-piece r (encode_rune r) s (encode_rune-ne-nil r) (decode_rune-encode_rune r s h)

-- A rune outside ASCII has no ASCII byte, and one of ASCII is its own encoding.
pub encode_rune-high : (r : ℕ) → 0x80 ≤ r → All (λ b. (0x80 ≤ b)) (encode_rune r)
unfolding encode_rune
encode_rune-high r h =
    let high : ltb r 0x80 ≡ false = ground arith in
    elim (Bool-cases (ltb r 0x800)) [
      | inl f ↦ rw (high, f) (omega arith)
      | inr f ↦ elim (Bool-cases (ltb 0x10ffff r || within 0xd800 0xdfff r)) [
        | inl g ↦ rw (high, f, g) (omega arith)
        | inr g ↦ elim (Bool-cases (ltb r 0x10000)) [
          | inl k ↦ rw (high, f, g, k) (omega arith)
          | inr k ↦ rw (high, f, g, k) (omega arith)
        ]
      ]
    ]

pub encode_rune_ascii : (r : ℕ) → r < 0x80 → encode_rune r ≡ r ∷ []
unfolding encode_rune
encode_rune_ascii r h = ground arith

pub none_invalid-encode_rune :
    (r : ℕ) (s : Bytes)
    → IsScalar r
    → none_invalid (pieces_from 0 (encode_rune r ++ s)) ≡ none_invalid (pieces_from 0 s)
none_invalid-encode_rune r s h = ap none_invalid (pieces_from-encode_rune r s h) ∙ kept
  where
    kept :
        none_invalid ((r, length (encode_rune r)) ∷ pieces_from 0 s)
        ≡ none_invalid (pieces_from 0 s)
    kept = unfold encode_rune in ground arith

runes_of-append_each :
    (rs : List ℕ) → All IsScalar rs → runes_of (pieces_from 0 (append_each encode_rune rs)) ≡ rs
runes_of-append_each [] h = unfold pieces_from in refl
runes_of-append_each (r ∷ rs) (hr, h) =
    ap runes_of (pieces_from-encode_rune r (append_each encode_rune rs) hr)
    ∙ ap (◌∷◌ r) (runes_of-append_each rs h)

pub runes-append_each : (rs : List ℕ) → All IsScalar rs → runes (append_each encode_rune rs) ≡ rs
unfolding runes
runes-append_each rs h = runes_of-append_each rs h

runes_of-IsScalar : (skip : ℕ) (s : Bytes) → All IsScalar (runes_of (pieces_from skip s))
unfolding pieces_from
runes_of-IsScalar zero [] = tt
runes_of-IsScalar zero (c ∷ s) =
    (decode_rune-IsScalar (c ∷ s), runes_of-IsScalar ((decode_rune (c ∷ s)).1 - 1) s)
runes_of-IsScalar (suc skip) [] = tt
runes_of-IsScalar (suc skip) (c ∷ s) = runes_of-IsScalar skip s

-- The runes of any text are scalar values.
pub runes-IsScalar : (s : Bytes) → All IsScalar (runes s)
unfolding runes
runes-IsScalar s = runes_of-IsScalar 0 s

pub valid-encode_rune : (r : ℕ) (s : Bytes) → IsScalar r → valid (encode_rune r ++ s) ≡ valid s
unfolding valid
valid-encode_rune r s h = none_invalid-encode_rune r s h
