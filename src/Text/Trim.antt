-- ===== src/Text/Trim.antt =====
-- `TrimSpace`, with the decoding of a text's last rune, and what it keeps.
use fingered.Base.{
  ℕ, zero, suc, ◌-◌, ◌≤◌, ◌≡◌, refl, Bool, inl, inr, ◌||◌, [], ◌∷◌, reverse, arith, ltb, ◌==◌,
  within, if◌then◌else◌, Bool-cases, Bytes, length, All, length-append, codes, All-reverse,
}
use mathlib.Core.List.{reverse-cons}
use fingered.Utf8.{decode_rune, invalid, rune_error}

-- `unicode.IsSpace`
unfoldable pub is_space : ℕ → Bool
is_space r =
    within 0x09 0x0d r
    || r == 0x20
    || r == 0x85
    || r == 0xa0
    || r == 0x1680
    || within 0x2000 0x200a r
    || r == 0x2028
    || r == 0x2029
    || r == 0x202f
    || r == 0x205f
    || r == 0x3000

-- The bytes from where the last rune may start, found from the back, at most four bytes back.
window : ℕ → Bytes → Bytes → Bytes
window n acc [] = acc
window zero acc (b ∷ rs) = b ∷ acc
window (suc n) acc (b ∷ rs) =
    let longer = window n (b ∷ acc) rs in if within 0x80 0xbf b then longer else b ∷ acc

-- `DecodeLastRuneInString` on the reversed text
unfoldable pub decode_last_rune : Bytes → ℕ × ℕ
unfolding window decode_rune
decode_last_rune [] = (rune_error, 0)
decode_last_rune (c ∷ rs) =
    let w = window 3 (c ∷ []) rs in
    let (r, size) = decode_rune w in
    if ltb c 0x80 then (c, 1) else if size == length w then (r, size) else invalid

trim_left_from : ℕ → Bytes → Bytes
trim_left_from skip [] = []
trim_left_from zero (c ∷ s) =
    let (r, size) = decode_rune (c ∷ s) in
    let rest = trim_left_from (size - 1) s in if is_space r then rest else c ∷ s
trim_left_from (suc skip) (c ∷ s) = trim_left_from skip s

-- on the reversed text
trim_right_from : ℕ → Bytes → Bytes
trim_right_from skip [] = []
trim_right_from zero (c ∷ rs) =
    let (r, size) = decode_last_rune (c ∷ rs) in
    let rest = trim_right_from (size - 1) rs in if is_space r then rest else c ∷ rs
trim_right_from (suc skip) (c ∷ rs) = trim_right_from skip rs

-- `TrimSpace(s)`
unfoldable pub trim_space : Bytes → Bytes
unfolding trim_left_from trim_right_from is_space decode_rune decode_last_rune
trim_space s = reverse (trim_right_from 0 (reverse (trim_left_from 0 s)))

trim_tests :
    (trim_space (codes " \t a b\r\n ") ≡ codes "a b")
    × (trim_space (codes "  ") ≡ [])
    × (trim_space (0xc2 ∷ 0xa0 ∷ b'x' ∷ 0xe3 ∷ 0x80 ∷ 0x80 ∷ []) ≡ b'x' ∷ [])
    × (trim_space (b'x' ∷ 0xa0 ∷ []) ≡ b'x' ∷ 0xa0 ∷ [])
unfolding trim_space
trim_tests = (refl, refl, refl, refl)

module _ {κ} (P : ℕ → Type κ) where
  All-trim_left_from : (skip : ℕ) (s : Bytes) → All P s → All P (trim_left_from skip s)
  unfolding trim_left_from
  All-trim_left_from skip [] h = h
  All-trim_left_from zero (c ∷ s) h = elim (Bool-cases (is_space (decode_rune (c ∷ s)).0)) [
    | inl e ↦ rw e (All-trim_left_from _ s h.1)
    | inr e ↦ rw e h
  ]
  All-trim_left_from (suc skip) (c ∷ s) h = All-trim_left_from skip s h.1

  All-trim_right_from : (skip : ℕ) (s : Bytes) → All P s → All P (trim_right_from skip s)
  unfolding trim_right_from
  All-trim_right_from skip [] h = h
  All-trim_right_from zero (c ∷ s) h = elim (Bool-cases (is_space (decode_last_rune (c ∷ s)).0)) [
    | inl e ↦ rw e (All-trim_right_from _ s h.1)
    | inr e ↦ rw e h
  ]
  All-trim_right_from (suc skip) (c ∷ s) h = All-trim_right_from skip s h.1

  -- Trimming leaves bytes of the text.
  pub All-trim_space : (s : Bytes) → All P s → All P (trim_space s)
  unfolding trim_space
  All-trim_space s h =
      All-reverse P _ (All-trim_right_from 0 _ (All-reverse P _ (All-trim_left_from 0 s h)))

length-reverse : (s : Bytes) → length (reverse s) ≡ length s
length-reverse [] = refl
length-reverse (c ∷ s) =
    rw reverse-cons (omega (arith, length-append (reverse s) (c ∷ []), length-reverse s))

length-trim_left_from : (skip : ℕ) (s : Bytes) → length (trim_left_from skip s) ≤ length s
unfolding trim_left_from
length-trim_left_from skip [] = omega arith
length-trim_left_from zero (c ∷ s) =
    ground (arith, length-trim_left_from ((decode_rune (c ∷ s)).1 - 1) s)
length-trim_left_from (suc skip) (c ∷ s) = omega (arith, length-trim_left_from skip s)

length-trim_right_from : (skip : ℕ) (s : Bytes) → length (trim_right_from skip s) ≤ length s
unfolding trim_right_from
length-trim_right_from skip [] = omega arith
length-trim_right_from zero (c ∷ s) =
    ground (arith, length-trim_right_from ((decode_last_rune (c ∷ s)).1 - 1) s)
length-trim_right_from (suc skip) (c ∷ s) = omega (arith, length-trim_right_from skip s)

pub length-trim_space : (s : Bytes) → length (trim_space s) ≤ length s
unfolding trim_space
length-trim_space s = omega (
  arith,
  length-reverse,
  length-trim_left_from 0 s,
  length-trim_right_from 0 (reverse (trim_left_from 0 s)),
)
