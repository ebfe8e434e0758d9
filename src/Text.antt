-- ===== src/Text.antt =====
-- Go's package strings, as far as the source uses it, over lists of bytes.
pub mod Laws
pub mod Lower
pub mod Pieces
pub mod Trim
pub mod Replace
use fingered.Base.{
  ℕ, zero, suc, ◌-◌, ◌+◌, ◌≤◌, Bool, true, false, ◌&&◌, ◌||◌, List, [], ◌∷◌, ◌++◌, reverse, Option,
  none, some, ltb, ◌==◌, within, if◌then◌else◌, Bytes, eqb, length, codes,
}
use fingered.Utf8.{decode_rune}

-- `HasPrefix(s, prefix)`
unfoldable pub has_prefix : Bytes → Bytes → Bool
has_prefix s [] = true
has_prefix [] (p ∷ ps) = false
has_prefix (c ∷ s) (p ∷ ps) = c == p && has_prefix s ps

-- `HasSuffix(s, suffix)`
unfoldable pub has_suffix : Bytes → Bytes → Bool
has_suffix [] suffix = eqb [] suffix
has_suffix (c ∷ s) suffix = eqb (c ∷ s) suffix || has_suffix s suffix

-- `TrimSuffix(s, suffix)`
unfoldable pub trim_suffix : Bytes → Bytes → Bytes
trim_suffix [] suffix = []
trim_suffix (c ∷ s) suffix = if eqb (c ∷ s) suffix then [] else c ∷ trim_suffix s suffix

-- `IndexByte(s, b)`; `none` for -1.
unfoldable pub index_byte : Bytes → ℕ → Option ℕ
index_byte [] b = none
index_byte (c ∷ s) b =
    if c == b then some 0 else elim (index_byte s b) [ none ↦ none | some i ↦ some (suc i) ]

-- `Count(s, sub)` for a text of one byte
unfoldable pub count_byte : Bytes → ℕ → ℕ
count_byte [] b = 0
count_byte (c ∷ s) b = (if c == b then 1 else 0) + count_byte s b

-- `Contains(s, sub)`
unfoldable pub contains : Bytes → Bytes → Bool
contains [] sub = has_prefix [] sub
contains (c ∷ s) sub = has_prefix (c ∷ s) sub || contains s sub

-- `ContainsAny(s, chars)` for ASCII chars
unfoldable pub contains_any : Bytes → Bytes → Bool
contains_any [] chars = false
contains_any (c ∷ s) chars = ltb 0 (count_byte chars c) || contains_any s chars

-- `ToLower(s)`. Each result is compared with ASCII texts only: the two runes outside ASCII whose
-- lower case is ASCII are U+0130 and U+212A, and any other is left as it is.
abbrev pub lower_byte : ℕ → ℕ
lower_byte c = if within b'A' b'Z' c then c + 32 else c

pub lower_head : ℕ → Bytes → ℕ × ℕ
lower_head c s =
    let r = (decode_rune (c ∷ s)).0 in
    if r == 0x130 then (b'i', 1) else if r == 0x212a then (b'k', 2) else (lower_byte c, 0)

pub lower_from : ℕ → Bytes → Bytes
lower_from skip [] = []
lower_from zero (c ∷ s) = let (b, skip) = lower_head c s in b ∷ lower_from skip s
lower_from (suc skip) (c ∷ s) = lower_from skip s

unfoldable pub to_lower : Bytes → Bytes
unfolding lower_from lower_head decode_rune
to_lower s = lower_from 0 s

-- `asciiSpace`
abbrev pub is_ascii_space : ℕ → Bool
is_ascii_space c = within b'\t' b'\r' c || c == b' '

-- A part that `Fields` keeps: a part that is not empty.
abbrev pub flush : Bytes → List Bytes → List Bytes
flush [] parts = parts
flush (c ∷ cur) parts = (c ∷ cur) ∷ parts

fields_from : Bytes → Bytes → List Bytes
fields_from cur [] = flush cur []
fields_from cur (c ∷ s) = elim (is_ascii_space c) [
  | true ↦ flush cur (fields_from [] s)
  | false ↦ fields_from (cur ++ c ∷ []) s
]

-- `Fields(s)` of an ASCII text; the source calls it on nothing else.
unfoldable pub fields : Bytes → List Bytes
unfolding fields_from
fields s = fields_from [] s

split_from : ℕ → Bytes → Bytes → List Bytes
split_from sep cur [] = cur ∷ []
split_from sep cur (c ∷ s) = elim (c == sep) [
  | true ↦ cur ∷ split_from sep [] s
  | false ↦ split_from sep (cur ++ c ∷ []) s
]

-- `Split(s, sep)` for a separator of one byte
unfoldable pub split : Bytes → ℕ → List Bytes
unfolding split_from
split s sep = split_from sep [] s

-- `Join(parts, sep)`
unfoldable pub join : List Bytes → Bytes → Bytes
join [] sep = []
join (p ∷ []) sep = p
join (p ∷ q ∷ ps) sep = p ++ (sep ++ join (q ∷ ps) sep)

replace_from : ℕ → Bytes → Bytes → Bytes → Bytes
replace_from skip old new [] = []
replace_from (suc skip) old new (c ∷ s) = replace_from skip old new s
replace_from zero old new (c ∷ s) =
    let found = new ++ replace_from (length old - 1) old new s in
    let kept = c ∷ replace_from 0 old new s in if has_prefix (c ∷ s) old then found else kept

-- `ReplaceAll(s, old, new)` for an `old` that is not empty
unfoldable pub replace_all : Bytes → Bytes → Bytes → Bytes
unfolding replace_from has_prefix
replace_all s old new = replace_from 0 old new s
