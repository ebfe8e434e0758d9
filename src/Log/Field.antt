-- ===== src/Log/Field.antt =====
-- `sanitizeLog` and `trimLogField`
use fingered.Base.{
  ℕ, zero, suc, ◌+◌, ◌-◌, ◌/◌, ◌%◌, Bool, true, false, ◌||◌, List, [], ◌∷◌, ◌++◌, reverse, Option,
  none, some, ltb, ◌==◌, within, if◌then◌else◌, Bytes, codes, length, take,
}
use fingered.Utf8.{runes, encode_rune}
use fingered.Text.Trim.{trim_space, decode_last_rune}

abbrev pub max_log_field_bytes : ℕ
max_log_field_bytes = 160

abbrev pub log_truncation_mark : Bytes
log_truncation_mark = codes "..."

-- `strconv.FormatInt(n, 16)` below 256
abbrev pub hex_digit : ℕ → ℕ
hex_digit d = if ltb d 10 then b'0' + d else b'a' + (d - 10)

unfoldable pub format_hex : ℕ → Bytes
format_hex n = if ltb n 16 then hex_digit n ∷ [] else hex_digit (n / 16) ∷ hex_digit (n % 16) ∷ []

-- `utf8.RuneLen`; `none` for -1
unfoldable pub rune_len : ℕ → Option ℕ
rune_len r =
    if ltb r 0x80
    then some 1
    else if ltb r 0x800
    then some 2
    else if within 0xd800 0xdfff r
    then none
    else if ltb r 0x10000
    then some 3
    else if ltb 0x10ffff r
    then none
    else some 4

-- A chunk goes into the buffer if it fits; `none` stops the loop.
abbrev pub append_chunk : Bytes → ℕ → Bytes → Option Bytes
append_chunk b size chunk =
    if ltb max_log_field_bytes (length b + size) then none else some (b ++ chunk)

abbrev pub append_printed : Bytes → ℕ → Option ℕ → Option Bytes
append_printed b r none = none
append_printed b r (some size) = append_chunk b size (encode_rune r)

-- The `switch` of the loop
unfoldable pub append_rune : Bytes → ℕ → Option Bytes
unfolding rune_len
append_rune b r =
    if r == b'\r' || r == b'\n' || r == b'\t'
    then append_chunk b 1 (codes " ")
    else if ltb r 0x20 || r == 0x7f
    then append_chunk b (length (codes "\\x" ++ format_hex r)) (codes "\\x" ++ format_hex r)
    else append_printed b r (rune_len r)

-- The loop, with `truncated`
unfoldable pub append_runes : Bytes → List ℕ → Bytes × Bool
append_runes b [] = (b, false)
append_runes b (r ∷ rs) = elim (append_rune b r) [ none ↦ (b, true) | some c ↦ append_runes c rs ]

-- `s[:len(s)-size]` with the size of the last rune
unfoldable pub drop_last_rune : Bytes → Bytes
drop_last_rune s =
    let size = (decode_last_rune (reverse s)).1 in
    take (length s - (if size == 0 then 1 else size)) s

-- The loop of `trimLogField`; each round takes a byte or more, so `length s` rounds are enough.
unfoldable pub shorten : ℕ → ℕ → Bytes → Bytes
shorten zero max s = s
shorten (suc fuel) max s = elim (ltb max (length s)) [
  | true ↦ shorten fuel max (drop_last_rune s)
  | false ↦ s
]

unfoldable pub trim_log_field : Bytes → ℕ → Bytes
unfolding shorten
trim_log_field s zero = []
trim_log_field s (suc max) = trim_space (shorten (length s) (suc max) s)

abbrev pub marked : Bytes → Bool → Bytes
marked out truncated =
    if truncated
    then trim_log_field out (max_log_field_bytes - length log_truncation_mark)
      ++ log_truncation_mark
    else out

abbrev pub or_dash : Bytes → Bytes → Bytes
or_dash [] out = codes "-"
or_dash (c ∷ s) out = out

unfoldable pub sanitize_log : Bytes → Bytes
unfolding append_rune append_runes trim_log_field
sanitize_log [] = codes "-"
sanitize_log (c ∷ s) =
    let (b, truncated) = append_runes [] (runes (c ∷ s)) in
    or_dash (trim_space b) (marked (trim_space b) truncated)
