-- ===== src/Text/Lower.antt =====
-- The lower case of an ASCII text, and the texts that end in a word in whatever case.
use fingered.Base.{
  ℕ, ◌+◌, ◌≤◌, ◌<◌, ◌≡◌, ◌⊎◌, inl, inr, refl, ap, ◌∙◌, false, ◌==◌, true, [], ◌∷◌, ◌++◌, map, Bytes,
  eqb, eqb_iff, All, arith, Bool-cases, within,
}
use fingered.Utf8.Ascii.{IsAscii, decode_rune_ascii}
use fingered.Text.{lower_byte, lower_head, lower_from, to_lower, has_suffix}
use fingered.Text.Laws.{has_suffix-append}

-- The byte itself, or its upper case
abbrev pub IsInCase : ℕ → ℕ → Type 0
IsInCase c d = (c ≡ d) ⊎ ((b'A' ≤ c) × (c ≤ b'Z') × (c + 32 ≡ d))

-- A word in whatever case
abbrev pub IsSpelt : Bytes → Bytes → Type 0
IsSpelt [] [] = Unit
IsSpelt [] (d ∷ word) = ⊥
IsSpelt (c ∷ s) [] = ⊥
IsSpelt (c ∷ s) (d ∷ word) = IsInCase c d × IsSpelt s word

-- A word that has no upper case
abbrev pub IsLower : Bytes → Type 0
IsLower = All (λ d. within b'A' b'Z' d ≡ false)

lower_head_ascii : (c : ℕ) (s : Bytes) → c < 0x80 → lower_head c s ≡ (lower_byte c, 0)
unfolding lower_head
lower_head_ascii c s h =
    let not_dotted : (c == 0x130) ≡ false = ground arith in
    let not_kelvin : (c == 0x212a) ≡ false = ground arith in
    rw (decode_rune_ascii c s h) (rw (not_dotted, not_kelvin) refl)

lower_from_ascii : (s : Bytes) → IsAscii s → lower_from 0 s ≡ map lower_byte s
unfolding lower_from
lower_from_ascii [] h = refl
lower_from_ascii (c ∷ s) (hc, h) =
    rw (lower_head_ascii c s hc) (ap (◌∷◌ (lower_byte c)) (lower_from_ascii s h))

to_lower_ascii : (s : Bytes) → IsAscii s → to_lower s ≡ map lower_byte s
unfolding to_lower
to_lower_ascii s h = lower_from_ascii s h

lower_byte-IsInCase : (c d : ℕ) → lower_byte c ≡ d → IsInCase c d
lower_byte-IsInCase c d h = elim (Bool-cases (within b'A' b'Z' c)) [
  | inl e ↦ inr (ground arith, ground arith, rw e at h)
  | inr e ↦ inl (rw e at h)
]

IsInCase-lower_byte : (c d : ℕ) → within b'A' b'Z' d ≡ false → IsInCase c d → lower_byte c ≡ d
IsInCase-lower_byte c d n (inl e) = rw e (rw n refl)
IsInCase-lower_byte c d n (inr (lo, hi, e)) = ground arith

map-IsSpelt : (s word : Bytes) → map lower_byte s ≡ word → IsSpelt s word
map-IsSpelt [] [] h = tt
map-IsSpelt [] (d ∷ word) h = absurd (cc)
map-IsSpelt (c ∷ s) [] h = absurd (cc)
map-IsSpelt (c ∷ s) (d ∷ word) h = (lower_byte-IsInCase c d (cc), map-IsSpelt s word (cc))

IsSpelt-map : (s word : Bytes) → IsLower word → IsSpelt s word → map lower_byte s ≡ word
IsSpelt-map [] [] n h = refl
IsSpelt-map [] (d ∷ word) n h = absurd h
IsSpelt-map (c ∷ s) [] n h = absurd h
IsSpelt-map (c ∷ s) (d ∷ word) (nd, n) (e, h) =
    ap (λ (x : ℕ). x ∷ map lower_byte s) (IsInCase-lower_byte c d nd e)
    ∙ ap (◌∷◌ d) (IsSpelt-map s word n h)

-- Where a text ends in the word
abbrev pub EndsIn : Bytes → Bytes → Type 0
EndsIn s word = (front : Bytes) × (ext : Bytes) × (s ≡ front ++ ext) × IsSpelt ext word

has_suffix-EndsIn : (s word : Bytes) → has_suffix (map lower_byte s) word ≡ true → EndsIn s word
unfolding has_suffix
has_suffix-EndsIn [] word h = ([], [], refl, map-IsSpelt [] word ((eqb_iff [] word).0 h))
has_suffix-EndsIn (c ∷ s) word h = elim (Bool-cases (eqb (map lower_byte (c ∷ s)) word)) [
  | inl e ↦
      ([], c ∷ s, refl, map-IsSpelt (c ∷ s) word ((eqb_iff (map lower_byte (c ∷ s)) word).0 e))
  | inr e ↦
      let (front, ext, same, spelt) = has_suffix-EndsIn s word (rw e at h) in
      (c ∷ front, ext, ap (◌∷◌ c) same, spelt)
]

map-append : (xs ys : Bytes) → map lower_byte (xs ++ ys) ≡ map lower_byte xs ++ map lower_byte ys
map-append [] ys = refl
map-append (x ∷ xs) ys = ap (◌∷◌ (lower_byte x)) (map-append xs ys)

-- The lower case of an ASCII text ends in a word exactly if the text ends in it in some case.
pub to_lower-EndsIn :
    (s word : Bytes) → IsAscii s → has_suffix (to_lower s) word ≡ true → EndsIn s word
to_lower-EndsIn s word a h = has_suffix-EndsIn s word (rw (to_lower_ascii s a) at h)

pub EndsIn-to_lower :
    (s word : Bytes)
    → IsAscii s
    → IsLower word
    → EndsIn s word
    → has_suffix (to_lower s) word ≡ true
EndsIn-to_lower s word a n (front, ext, same, spelt) =
    ap (λ (t : Bytes). has_suffix t word)
      (to_lower_ascii s a
        ∙ ap (map lower_byte) same
        ∙ map-append front ext
        ∙ ap (◌++◌ (map lower_byte front)) (IsSpelt-map ext word n spelt))
    ∙ has_suffix-append (map lower_byte front) word
