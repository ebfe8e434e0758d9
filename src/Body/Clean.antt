-- ===== src/Body/Clean.antt =====
-- Every text that `sanitizeBody` returns consists of allowed bytes and of CRLF line ends.
use fingered.Base.{
  ℕ, ◌≤◌, ◌<◌, ◌≡◌, ◌≢◌, ◌⊎◌, inl, inr, Bool, true, false, List, [], ◌∷◌, ◌++◌, arith, ltb, ◌==◌,
  Bytes, append_each, ok, All, All-map, Bool-cases,
}
use fingered.Utf8.{runes, encode_rune}
use fingered.Utf8.Encode.{encode_rune-high, encode_rune_ascii}
use fingered.Body.{
  valid_output_rune, valid_output_byte, render_rune, render_byte, normalize_newlines, sanitize_body,
}

-- A byte inside a line: a tab, or neither a control byte nor DEL, and without UTF-8 no byte from 0x80 to 0x9f either.
abbrev pub IsTextByte : Bool → ℕ → Type 0
IsTextByte true b = (b ≡ b'\t') ⊎ ((0x20 ≤ b) × (b ≢ 0x7f))
IsTextByte false b = (b ≡ b'\t') ⊎ ((0x20 ≤ b) × (b ≢ 0x7f) × ((b < 0x80) ⊎ (0x9f < b)))

-- Lines of such bytes. A carriage return stands only before a line feed, and the other way round.
pub data IsBody (utf8 : Bool) : Bytes → Type 0 where
  done : IsBody utf8 []
  line_end : {s : Bytes} → IsBody utf8 s → IsBody utf8 (b'\r' ∷ b'\n' ∷ s)
  byte : {b : ℕ} {s : Bytes} → IsTextByte utf8 b → IsBody utf8 s → IsBody utf8 (b ∷ s)

IsBody-bytes :
    (utf8 : Bool) (t s : Bytes) → All (IsTextByte utf8) t → IsBody utf8 s → IsBody utf8 (t ++ s)
IsBody-bytes utf8 [] s h k = k
IsBody-bytes utf8 (b ∷ t) s (hb, h) k = byte hb (IsBody-bytes utf8 t s h k)

render_byte-IsBody : (b : ℕ) (s : Bytes) → IsBody false s → IsBody false (render_byte b ++ s)
unfolding render_byte valid_output_byte
render_byte-IsBody b s h = elim (Bool-cases (b == b'\n')) [
  | inl e ↦ rw e (line_end h)
  | inr e ↦ elim (Bool-cases (valid_output_byte b)) [
    | inl v ↦ rw (e, v) (byte (ground arith) h)
    | inr v ↦ rw (e, v) (byte (inr (omega arith, omega arith, inl (omega arith))) h)
  ]
]

append_each-byte-IsBody : (t : Bytes) → IsBody false (append_each render_byte t)
append_each-byte-IsBody [] = done
append_each-byte-IsBody (b ∷ t) =
    render_byte-IsBody b (append_each render_byte t) (append_each-byte-IsBody t)

encode_rune-text : (r : ℕ) → valid_output_rune r ≡ true → All (IsTextByte true) (encode_rune r)
unfolding valid_output_rune
encode_rune-text r h = elim (Bool-cases (ltb r 0x80)) [
  | inl e ↦ rw (encode_rune_ascii r (ground arith)) (ground arith, tt)
  | inr e ↦
      All-map _ _ (λ b k. inr (omega arith, omega arith)) (encode_rune r)
        (encode_rune-high r (ground arith))
]

render_rune-IsBody : (r : ℕ) (s : Bytes) → IsBody true s → IsBody true (render_rune r ++ s)
unfolding render_rune
render_rune-IsBody r s h = elim (Bool-cases (r == b'\n')) [
  | inl e ↦ rw e (line_end h)
  | inr e ↦ elim (Bool-cases (valid_output_rune r)) [
    | inl v ↦ rw (e, v) (IsBody-bytes true (encode_rune r) s (encode_rune-text r v) h)
    | inr v ↦ rw (e, v) (byte (inr (omega arith, omega arith)) h)
  ]
]

append_each-rune-IsBody : (t : List ℕ) → IsBody true (append_each render_rune t)
append_each-rune-IsBody [] = done
append_each-rune-IsBody (r ∷ t) =
    render_rune-IsBody r (append_each render_rune t) (append_each-rune-IsBody t)

-- What `sanitizeBody` returns consists of text bytes and of CRLF line ends: it holds no NUL, no other
-- control byte than a tab, and no carriage return or line feed outside CRLF.
pub sanitize_body-IsBody :
    (raw : Bytes) (utf8 : Bool) (out : Bytes) → sanitize_body raw utf8 ≡ ok out → IsBody utf8 out
unfolding sanitize_body
sanitize_body-IsBody raw true out h =
    let same : append_each render_rune (runes (normalize_newlines raw)) ≡ out = ground arith in
    rw (← same) (append_each-rune-IsBody (runes (normalize_newlines raw)))
sanitize_body-IsBody raw false out h =
    let same : append_each render_byte (normalize_newlines raw) ≡ out = ground arith in
    rw (← same) (append_each-byte-IsBody (normalize_newlines raw))
