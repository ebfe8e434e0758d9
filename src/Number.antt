-- ===== src/Number.antt =====
-- Go's strconv, as far as the source uses it: `Atoi` and `Itoa` on a 64-bit platform, and `ParseInt`.
pub mod Decimal
use fingered.Base.{
  ℕ, zero, suc, ◌/◌, ◌%◌, ◌+◌, ◌-◌, ◌*◌, ◌^◌, ◌≡◌, refl, Bool, true, false, ◌&&◌, [], ◌∷◌, Option,
  none, some, ltb, leb, ◌==◌, if◌then◌else◌, Bytes, codes,
}
use fingered.Base.Int.{ℤ, pos, negsuc, sub_ℕ}

-- The digits of a text in a base up to ten, behind a number read so far. The source stops at the first
-- number out of range; such a text is refused below whatever follows.
pub digits_value : ℕ → ℕ → Bytes → Option ℕ
digits_value base n [] = some n
digits_value base n (c ∷ s) =
    if leb b'0' c && ltb c (b'0' + base) then digits_value base (n * base + (c - b'0')) s else none

unfoldable pub parse_uint : ℕ → Bytes → Option ℕ
unfolding digits_value
parse_uint base [] = none
parse_uint base (c ∷ s) = digits_value base 0 (c ∷ s)

-- The signed number, if it fits in `half` = 2 ^ (bits - 1) on both sides
abbrev signed : ℕ → Bool → Option ℕ → Option ℤ
signed half minus none = none
signed half true (some n) = if leb n half then some (sub_ℕ 0 n) else none
signed half false (some n) = if ltb n half then some (pos n) else none

-- `ParseInt(s, base, bits)`, with half = 2 ^ (bits - 1)
unfoldable pub parse_int : ℕ → ℕ → Bytes → Option ℤ
unfolding parse_uint
parse_int base half [] = none
parse_int base half (c ∷ s) =
    if c == b'-'
    then signed half true (parse_uint base s)
    else if c == b'+'
    then signed half false (parse_uint base s)
    else signed half false (parse_uint base (c ∷ s))

-- `Atoi(s)`
unfoldable pub atoi : Bytes → Option ℤ
unfolding parse_int
atoi s = parse_int 10 (2 ^ 63) s

-- The decimal digits of a number in front of others. Twenty rounds are enough for 64 bits.
unfoldable pub decimal_from : ℕ → ℕ → Bytes → Bytes
decimal_from zero n digits = digits
decimal_from (suc fuel) n digits =
    let rest = decimal_from fuel (n / 10) ((b'0' + n % 10) ∷ digits) in
    if ltb n 10 then (b'0' + n) ∷ digits else rest

-- `Itoa(n)`, and `%d`
unfoldable pub itoa : ℤ → Bytes
unfolding decimal_from
itoa (pos n) = decimal_from 20 n []
itoa (negsuc n) = b'-' ∷ decimal_from 20 (suc n) []

atoi_tests :
    (atoi (codes "7979") ≡ some (pos 7979))
    × (atoi (codes "-12") ≡ some (negsuc 11))
    × (atoi (codes "+5") ≡ some (pos 5))
    × (atoi (codes "9223372036854775807") ≡ some (pos (2 ^ 63 - 1)))
    × (atoi (codes "9223372036854775808") ≡ none)
    × (atoi (codes "") ≡ none)
    × (atoi (codes "1_0") ≡ none)
unfolding atoi
atoi_tests = (refl, refl, refl, refl, refl, refl, refl)
