-- ===== src/Log/Clean.antt =====
-- What `sanitizeLog` returns is short, visible text.
use fingered.Base.{
  ℕ, zero, suc, ◌+◌, ◌/◌, ◌%◌, ◌<◌, ◌≤◌, ◌≡◌, ◌≢◌, ap, inl, inr, Bool, true, false, List, [], ◌∷◌,
  ◌++◌, ◌||◌, some, ltb, ◌==◌, Bytes, codes, Bool-cases, Option-cases, length, arith, All,
  All-append, All-map, All_left, length-append,
}
use fingered.Utf8.{runes, encode_rune}
use fingered.Utf8.Encode.{encode_rune-high, encode_rune_ascii}
use fingered.Text.Trim.{trim_space, All-trim_space, length-trim_space}
use fingered.Log.Field.{
  max_log_field_bytes, log_truncation_mark, hex_digit, format_hex, rune_len, append_chunk,
  append_printed, append_rune, append_runes, shorten, trim_log_field, marked, or_dash, sanitize_log,
}
use fingered.Log.Shorten.{shorten_ends, shorten_prefix}

-- No control byte and no DEL
abbrev pub IsVisible : ℕ → Type 0
IsVisible c = (0x20 ≤ c) × (c ≢ 0x7f)

pub record IsField (s : Bytes) : Type 0 where
  pub visible : All IsVisible s
  pub short : length s ≤ max_log_field_bytes
  pub not_empty : s ≢ []

-- The buffer in the loop
record IsBuffer (b : Bytes) : Type 0 where
  visible : All IsVisible b
  short : length b ≤ max_log_field_bytes

hex_digit-visible : (d : ℕ) → d < 16 → IsVisible (hex_digit d)
hex_digit-visible d h = ground arith

format_hex-visible : (n : ℕ) → n < 0x80 → All IsVisible (format_hex n)
unfolding format_hex
format_hex-visible n h = elim (Bool-cases (ltb n 16)) [
  | inl e ↦ rw e (hex_digit-visible n (ground arith), tt)
  | inr e ↦
      rw e
        (hex_digit-visible (n / 16) (omega arith), (hex_digit-visible (n % 16) (omega arith), tt))
]

encode_rune-visible : (r : ℕ) → 0x20 ≤ r → r ≢ 0x7f → All IsVisible (encode_rune r)
encode_rune-visible r h k = elim (Bool-cases (ltb r 0x80)) [
  | inl e ↦ rw (encode_rune_ascii r (ground arith)) ((h, k), tt)
  | inr e ↦
      All-map _ _ (λ b g. (omega arith, λ q. omega arith)) (encode_rune r)
        (encode_rune-high r (ground arith))
]

append_chunk-IsBuffer :
    (b : Bytes) (size : ℕ) (chunk c : Bytes)
    → length chunk ≤ size
    → All IsVisible chunk
    → IsBuffer b
    → append_chunk b size chunk ≡ some c
    → IsBuffer c
append_chunk-IsBuffer b size chunk c fits h i e =
    let same : b ++ chunk ≡ c = ground arith in
    rw (← same) (record {
      visible = All-append IsVisible b chunk i.visible h;
      short = omega (arith, length-append b chunk, small);
    })
  where
    small : length b + size ≤ max_log_field_bytes
    small = ground arith

rune_len_lem : (r size : ℕ) → rune_len r ≡ some size → length (encode_rune r) ≡ size
unfolding rune_len encode_rune
rune_len_lem r size h = ground arith

append_printed-IsBuffer :
    (b : Bytes) (r : ℕ) (c : Bytes)
    → 0x20 ≤ r
    → r ≢ 0x7f
    → IsBuffer b
    → append_printed b r (rune_len r) ≡ some c
    → IsBuffer c
append_printed-IsBuffer b r c h k i e = elim (Option-cases (rune_len r)) [
  | inl none_len ↦ absurd (ground arith)
  | inr (size, f) ↦
      append_chunk-IsBuffer b size (encode_rune r) c (omega (arith, rune_len_lem r size f))
        (encode_rune-visible r h k) i (ground arith)
]

append_rune-IsBuffer :
    (b : Bytes) (r : ℕ) (c : Bytes) → IsBuffer b → append_rune b r ≡ some c → IsBuffer c
unfolding append_rune
append_rune-IsBuffer b r c i e = elim (Bool-cases (r == b'\r' || r == b'\n' || r == b'\t')) [
  | inl blank ↦
      append_chunk-IsBuffer b 1 (codes " ") c (omega arith) (omega arith, tt) i (ground arith)
  | inr printed ↦ elim (Bool-cases (ltb r 0x20 || r == 0x7f)) [
    | inl control ↦
        append_chunk-IsBuffer b (length (codes "\\x" ++ format_hex r)) (codes "\\x" ++ format_hex r)
          c (omega arith) (omega arith, (omega arith, format_hex-visible r (ground arith))) i
          (ground arith)
    | inr other ↦ append_printed-IsBuffer b r c (ground arith) (ground arith) i (ground arith)
  ]
]

append_runes-IsBuffer : (b : Bytes) (rs : List ℕ) → IsBuffer b → IsBuffer (append_runes b rs).0
unfolding append_runes
append_runes-IsBuffer b [] i = i
append_runes-IsBuffer b (r ∷ rs) i = elim (Option-cases (append_rune b r)) [
  | inl e ↦ rw (e, append_runes) i
  | inr (c, e) ↦ rw (e, append_runes) (append_runes-IsBuffer c rs (append_rune-IsBuffer b r c i e))
]

trim_log_field-visible :
    (s : Bytes) (max : ℕ) → All IsVisible s → All IsVisible (trim_log_field s max)
unfolding trim_log_field
trim_log_field-visible s zero h = tt
trim_log_field-visible s (suc max) h =
    let (rest, e) = shorten_prefix (length s) (suc max) s in
    All-trim_space IsVisible _ (All_left IsVisible _ rest (rw e at h))

length-trim_log_field : (s : Bytes) (max : ℕ) → length (trim_log_field s max) ≤ max
unfolding trim_log_field
length-trim_log_field s zero = omega arith
length-trim_log_field s (suc max) = omega (
  arith,
  length-trim_space (shorten (length s) (suc max) s),
  shorten_ends (length s) (suc max) s (omega arith),
)

marked-IsField :
    (out : Bytes) (truncated : Bool) → IsBuffer out → out ≢ [] → IsField (marked out truncated)
marked-IsField out false i h = record { visible = i.visible; short = i.short; not_empty = h }
marked-IsField out true i h = record {
  visible =
      All-append IsVisible _ log_truncation_mark (trim_log_field-visible out _ i.visible)
        (omega arith);
  short = omega (
    arith,
    length-append (trim_log_field out 157) log_truncation_mark,
    length-trim_log_field out 157,
  );
  not_empty =
      λ e. omega (arith, ap length e, length-append (trim_log_field out 157) log_truncation_mark);
}

or_dash-IsField : (s out : Bytes) → (s ≢ [] → IsField out) → IsField (or_dash s out)
or_dash-IsField [] out h = record {
  visible = (omega arith, tt);
  short = omega arith;
  not_empty = λ e. cc;
}
or_dash-IsField (c ∷ s) out h = h (λ e. cc)

-- Whatever the text, what the log gets for it is 1 to 160 bytes with no control byte and no DEL.
pub sanitize_log-IsField : (s : Bytes) → IsField (sanitize_log s)
unfolding sanitize_log
sanitize_log-IsField [] = record {
  visible = (omega arith, tt);
  short = omega arith;
  not_empty = λ e. cc;
}
sanitize_log-IsField (c ∷ s) =
    let (b, truncated) = append_runes [] (runes (c ∷ s)) in
    let i : IsBuffer b =
      append_runes-IsBuffer [] (runes (c ∷ s)) (record { visible = tt; short = omega arith }) in
    let trimmed : IsBuffer (trim_space b) = record {
      visible = All-trim_space IsVisible b i.visible;
      short = omega (arith, length-trim_space b, i.short);
    } in
    or_dash-IsField (trim_space b) (marked (trim_space b) truncated)
      (λ h. marked-IsField (trim_space b) truncated trimmed h)
