-- ===== src/Utf8.antt =====
-- Go's unicode/utf8, as far as the server uses it: decoding from the front and from the back,
-- validity and encoding. A rune is a number.
pub mod Ascii
pub mod Encode
use fingered.Base.{
  ℕ, zero, suc, ◌+◌, ◌-◌, ◌*◌, ◌/◌, ◌%◌, Bool, true, false, ◌&&◌, ◌||◌, List, [], ◌∷◌, ltb, ◌==◌,
  within, if◌then◌else◌, Bytes,
}

abbrev pub rune_error : ℕ
rune_error = 0xfffd

-- A byte that is no part of a valid encoding is read as `RuneError` of width 1.
abbrev pub invalid : ℕ × ℕ
invalid = (rune_error, 1)

abbrev pub is_continuation : ℕ → Bool
is_continuation c = within 0x80 0xbf c

pub decode2 : ℕ → Bytes → ℕ × ℕ
decode2 c0 [] = invalid
decode2 c0 (c1 ∷ _) = if is_continuation c1 then (c0 % 32 * 64 + c1 % 64, 2) else invalid

-- The second byte of a three-byte encoding: no overlong form and no surrogate.
pub accepts3 : ℕ → ℕ → Bool
accepts3 c0 c1 =
    if c0 == 0xe0
    then within 0xa0 0xbf c1
    else if c0 == 0xed
    then within 0x80 0x9f c1
    else is_continuation c1

pub decode3 : ℕ → Bytes → ℕ × ℕ
decode3 c0 (c1 ∷ c2 ∷ _) =
    if accepts3 c0 c1 && is_continuation c2
    then (c0 % 16 * 4096 + c1 % 64 * 64 + c2 % 64, 3)
    else invalid
decode3 c0 _ = invalid

-- The second byte of a four-byte encoding: no overlong form and nothing above 0x10ffff.
pub accepts4 : ℕ → ℕ → Bool
accepts4 c0 c1 =
    if c0 == 0xf0
    then within 0x90 0xbf c1
    else if c0 == 0xf4
    then within 0x80 0x8f c1
    else is_continuation c1

pub decode4 : ℕ → Bytes → ℕ × ℕ
decode4 c0 (c1 ∷ c2 ∷ c3 ∷ _) =
    if accepts4 c0 c1 && (is_continuation c2 && is_continuation c3)
    then (c0 % 8 * 262144 + c1 % 64 * 4096 + c2 % 64 * 64 + c3 % 64, 4)
    else invalid
decode4 c0 _ = invalid

-- `DecodeRune`: the first rune and its width.
unfoldable pub decode_rune : Bytes → ℕ × ℕ
unfolding decode2 decode3 decode4 accepts3 accepts4
decode_rune [] = (rune_error, 0)
decode_rune (c0 ∷ s) =
    if ltb c0 0x80
    then (c0, 1)
    else if ltb c0 0xc2
    then invalid
    else if ltb c0 0xe0
    then decode2 c0 s
    else if ltb c0 0xf0
    then decode3 c0 s
    else if ltb c0 0xf5
    then decode4 c0 s
    else invalid

-- The runes of a text with their widths; `skip` bytes of the rune just read are still ahead.
pub pieces_from : ℕ → Bytes → List (ℕ × ℕ)
pieces_from skip [] = []
pieces_from zero (c ∷ s) =
    let (r, size) = decode_rune (c ∷ s) in (r, size) ∷ pieces_from (size - 1) s
pieces_from (suc skip) (c ∷ s) = pieces_from skip s

abbrev runes_of : List (ℕ × ℕ) → List ℕ
runes_of [] = []
runes_of ((r, _) ∷ ps) = r ∷ runes_of ps

-- `for _, r := range s`
unfoldable pub runes : Bytes → List ℕ
unfolding pieces_from decode_rune
runes s = runes_of (pieces_from 0 s)

abbrev is_invalid : ℕ × ℕ → Bool
is_invalid (r, size) = r == rune_error && size == 1

abbrev none_invalid : List (ℕ × ℕ) → Bool
none_invalid [] = true
none_invalid (p ∷ ps) = if is_invalid p then false else none_invalid ps

-- `Valid`, `ValidString`
unfoldable pub valid : Bytes → Bool
unfolding pieces_from decode_rune
valid s = none_invalid (pieces_from 0 s)

-- `string(r)`, `WriteRune`: the encoding; a surrogate and what is above 0x10ffff is `RuneError`.
unfoldable pub encode_rune : ℕ → Bytes
encode_rune r =
    if ltb r 0x80
    then r ∷ []
    else if ltb r 0x800
    then (0xc0 + r / 64) ∷ (0x80 + r % 64) ∷ []
    else if ltb 0x10ffff r || within 0xd800 0xdfff r
    then 0xef ∷ 0xbf ∷ 0xbd ∷ []
    else if ltb r 0x10000
    then (0xe0 + r / 4096) ∷ (0x80 + r / 64 % 64) ∷ (0x80 + r % 64) ∷ []
    else (0xf0 + r / 262144) ∷ (0x80 + r / 4096 % 64) ∷ (0x80 + r / 64 % 64) ∷ (0x80 + r % 64) ∷ []
