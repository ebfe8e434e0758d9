-- ===== src/Utf8/Ascii.antt =====
-- Text all of whose runes are ASCII is read byte by byte.
use fingered.Base.{
  ℕ, ◌<◌, ◌≤◌, ◌≡◌, refl, ap, inl, inr, [], ◌∷◌, arith, ltb, Bool, true, Bool-cases, Bytes, All,
  all,
}
use fingered.Utf8.{decode_rune, pieces_from, runes_of, runes, none_invalid, valid}

-- A byte below 0x80 is a rune of width 1; any other begins a rune that is at least 0x80.
pub decode_rune_ascii : (c : ℕ) (s : Bytes) → c < 0x80 → decode_rune (c ∷ s) ≡ (c, 1)
unfolding decode_rune
decode_rune_ascii c s h = ground arith

pub le-decode_rune : (c : ℕ) (s : Bytes) → 0x80 ≤ c → 0x80 ≤ (decode_rune (c ∷ s)).0
unfolding decode_rune
le-decode_rune c [] h = ground arith
le-decode_rune c (c1 ∷ []) h = ground arith
le-decode_rune c (c1 ∷ c2 ∷ []) h = ground arith
le-decode_rune c (c1 ∷ c2 ∷ c3 ∷ s) h = ground arith

abbrev pub IsAscii : Bytes → Type 0
IsAscii = All (λ c. c < 0x80)

pieces_from_ascii :
    (c : ℕ) (s : Bytes) → c < 0x80 → pieces_from 0 (c ∷ s) ≡ (c, 1) ∷ pieces_from 0 s
unfolding pieces_from
pieces_from_ascii c s h = rw (decode_rune_ascii c s h)

runes_of_ascii : (s : Bytes) → IsAscii s → runes_of (pieces_from 0 s) ≡ s
runes_of_ascii [] h = unfold pieces_from in refl
runes_of_ascii (c ∷ s) (hc, h) = rw (pieces_from_ascii c s hc) (ap (◌∷◌ c) (runes_of_ascii s h))

pub runes_ascii : (s : Bytes) → IsAscii s → runes s ≡ s
unfolding runes
runes_ascii s h = runes_of_ascii s h

none_invalid_ascii : (s : Bytes) → IsAscii s → none_invalid (pieces_from 0 s) ≡ true
none_invalid_ascii [] h = unfold pieces_from in refl
none_invalid_ascii (c ∷ s) (hc, h) =
    rw (pieces_from_ascii c s hc) (ground (arith, none_invalid_ascii s h))

-- ASCII text is valid UTF-8.
pub valid_ascii : (s : Bytes) → IsAscii s → valid s ≡ true
unfolding valid
valid_ascii s h = none_invalid_ascii s h

-- A test of every rune that refuses the runes outside ASCII is a test of every byte.
module _ (test : ℕ → Bool) (ascii : (r : ℕ) → test r ≡ true → r < 0x80) where
  all-runes_of :
      (s : Bytes) → all test (runes_of (pieces_from 0 s)) ≡ true → All (λ c. test c ≡ true) s
  all-runes_of [] h = tt
  all-runes_of (c ∷ s) h = elim (Bool-cases (ltb c 0x80)) [
    | inl e ↦
        let eq = pieces_from_ascii c s (ground arith) in
        let h' : all test (c ∷ runes_of (pieces_from 0 s)) ≡ true = rw eq at h in
        (ground arith, all-runes_of s (ground arith))
    | inr e ↦
        let high = le-decode_rune c s (ground arith) in
        let ok : test (decode_rune (c ∷ s)).0 ≡ true = unfold pieces_from in ground arith in
        absurd (omega (arith, ascii (decode_rune (c ∷ s)).0 ok, high))
  ]

  pub all-runes : (s : Bytes) → all test (runes s) ≡ true → All (λ c. test c ≡ true) s
  unfolding runes
  all-runes s h = all-runes_of s h
