-- ===== src/Body/Fixed.antt =====
-- The headline laws of `sanitizeBody`: its result is UTF-8 where that is required, and is a fixed point.
use fingered.Base.{
  ℕ, ◌<◌, ◌≡◌, refl, sym, ap, ◌∙◌, inl, inr, Bool, true, false, List, [], ◌∷◌, ◌++◌, arith, ◌==◌,
  if◌then◌else◌, Bytes, append_each, ok, All, Bool-cases, map,
}
use fingered.Utf8.{runes, valid, encode_rune}
use fingered.Utf8.Encode.{IsScalar, encode_rune_ascii, valid-encode_rune, runes-IsScalar}
use fingered.Body.{
  valid_output_rune, render_rune, render_byte, normalize_newlines, sanitize_body, has_byte,
}
use fingered.Body.Clean.{sanitize_body-IsBody}
use fingered.Body.Stable.{
  shown, has_nul-IsBody, stable_bytes, stable_runes, IsScalar-shown, plain_runes,
}

valid_ascii_cons : (c : ℕ) (s : Bytes) → c < 0x80 → valid (c ∷ s) ≡ valid s
valid_ascii_cons c s h =
    ap (λ (t : Bytes). valid (t ++ s)) (sym (encode_rune_ascii c h))
    ∙ valid-encode_rune c s (inl (omega arith))

valid-append_each :
    (render : ℕ → Bytes)
    → ((r : ℕ) (s : Bytes) → IsScalar r → valid (render r ++ s) ≡ valid s)
    → (rs : List ℕ) → All IsScalar rs
    → valid (append_each render rs) ≡ true
valid-append_each render step [] h = unfold valid in refl
valid-append_each render step (r ∷ rs) (hr, h) =
    step r (append_each render rs) hr ∙ valid-append_each render step rs h

valid-render_rune : (r : ℕ) (s : Bytes) → IsScalar r → valid (render_rune r ++ s) ≡ valid s
unfolding render_rune
valid-render_rune r s h = elim (Bool-cases (r == b'\n')) [
  | inl e ↦
      rw e
        (valid_ascii_cons b'\r' (b'\n' ∷ s) (omega arith) ∙ valid_ascii_cons b'\n' s (omega arith))
  | inr e ↦ elim (Bool-cases (valid_output_rune r)) [
    | inl v ↦ rw (e, v) (valid-encode_rune r s h)
    | inr v ↦ rw (e, v) (valid_ascii_cons b'?' s (omega arith))
  ]
]

-- Where UTF-8 is required, what is returned is valid UTF-8.
sanitize_body-valid : (raw out : Bytes) → sanitize_body raw true ≡ ok out → valid out ≡ true
unfolding sanitize_body
sanitize_body-valid raw out h =
    let rs = runes (normalize_newlines raw) in
    let same : append_each render_rune rs ≡ out = ground arith in
    rw (← same)
      (valid-append_each render_rune valid-render_rune rs (runes-IsScalar (normalize_newlines raw)))

-- The tests pass on a text without NUL whose normal form is valid.
sanitize_again :
    (s : Bytes) (utf8 : Bool) (t : Bytes)
    → has_byte s 0 ≡ false
    → (if utf8 then valid (normalize_newlines s) else true) ≡ true
    → (if utf8
        then append_each render_rune (runes (normalize_newlines s))
        else append_each render_byte (normalize_newlines s))
      ≡ t
    → sanitize_body s utf8 ≡ ok t
unfolding sanitize_body
sanitize_again s true t n v e = rw (n, v) (ap ok e)
sanitize_again s false t n v e = rw n (ap ok e)

-- Sanitizing what was returned once more returns it unchanged.
sanitize_body_idempotent :
    (raw : Bytes) (utf8 : Bool) (out : Bytes)
    → sanitize_body raw utf8 ≡ ok out
    → sanitize_body out utf8 ≡ ok out
sanitize_body_idempotent raw false out h =
    let t = normalize_newlines raw in
    let same : append_each render_byte t ≡ out = unfold sanitize_body in ground arith in
    sanitize_again out false out (has_nul-IsBody (sanitize_body-IsBody raw false out h)) refl (
      ap (λ (s : Bytes). append_each render_byte (normalize_newlines s)) (sym same)
      ∙ stable_bytes t
      ∙ same)
sanitize_body_idempotent raw true out h =
    let rs = runes (normalize_newlines raw) in
    let scalars = runes-IsScalar (normalize_newlines raw) in
    let same : append_each render_rune rs ≡ out = unfold sanitize_body in ground arith in
    let text : normalize_newlines out ≡ append_each encode_rune (map (shown valid_output_rune) rs) =
      ap normalize_newlines (sym same) ∙ plain_runes rs in
    sanitize_again out true out (has_nul-IsBody (sanitize_body-IsBody raw true out h))
      (ap valid text
        ∙ valid-append_each encode_rune valid-encode_rune _ (IsScalar-shown rs scalars))
      (ap (λ (s : Bytes). append_each render_rune (runes (normalize_newlines s))) (sym same)
        ∙ stable_runes rs scalars
        ∙ same)

-- Sanitizing what was returned once more returns it unchanged, and where UTF-8 is required it is valid
-- UTF-8.
pub sanitize_body-IsFixed :
    (raw : Bytes) (utf8 : Bool) (out : Bytes)
    → sanitize_body raw utf8 ≡ ok out
    → (sanitize_body out utf8 ≡ ok out) × ((if utf8 then valid out else true) ≡ true)
sanitize_body-IsFixed raw false out h = (sanitize_body_idempotent raw false out h, refl)
sanitize_body-IsFixed raw true out h =
    (sanitize_body_idempotent raw true out h, sanitize_body-valid raw out h)
