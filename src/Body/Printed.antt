-- ===== src/Body/Printed.antt =====
-- `sanitizeBody` on one line of text.
use fingered.Base.{
  ℕ, ◌<◌, ◌≡◌, ◌≢◌, refl, ap, ◌∙◌, Bool, true, false, [], ◌∷◌, ◌++◌, Bytes, codes, append_each, All,
  All-append, All-map, Lacks, ok, arith,
}
use fingered.Text.{replace_all}
use fingered.Text.Laws.{index_byte-Lacks}
use fingered.Text.Replace.{replace_all-Lacks}
use fingered.Utf8.Ascii.{IsAscii, runes_ascii, valid_ascii}
use fingered.Utf8.Encode.{encode_rune_ascii}
use fingered.Request.Sound.{IsPrintable}
use fingered.Body.{
  has_byte, normalize_newlines, render_byte, render_rune, valid_output_byte, valid_output_rune,
  sanitize_body,
}

-- ASCII without NUL and CR
abbrev IsLow : ℕ → Type 0
IsLow c = (c ≢ 0) × (c ≢ b'\r') × (c < 0x80)

-- A line of text without the newline
abbrev line_bytes : Bytes → Bytes
line_bytes line = line ++ codes "\n"

line_bytes-IsLow : (line : Bytes) → IsPrintable line → All IsLow (line_bytes line)
line_bytes-IsLow line h =
    All-append IsLow line (codes "\n")
      (All-map _ IsLow
        (λ c p. (λ e. omega (arith, p, e), λ e. omega (arith, p, e), omega (arith, p))) line h)
      (omega arith)

rendered_bytes :
    (line : Bytes)
    → IsPrintable line
    → append_each render_byte (line_bytes line) ≡ line ++ codes "\r\n"
unfolding render_byte valid_output_byte
rendered_bytes [] h = refl
rendered_bytes (c ∷ line) (p, h) =
    let same : render_byte c ≡ c ∷ [] = ground arith in rw same (ap (◌∷◌ c) (rendered_bytes line h))

rendered_runes :
    (line : Bytes)
    → IsPrintable line
    → append_each render_rune (line_bytes line) ≡ line ++ codes "\r\n"
unfolding render_rune valid_output_rune
rendered_runes [] h = refl
rendered_runes (c ∷ line) (p, h) =
    let same : render_rune c ≡ c ∷ [] = ground (arith, encode_rune_ascii c (omega (arith, p))) in
    rw same (ap (◌∷◌ c) (rendered_runes line h))

module _ (line : Bytes) (h : IsPrintable line) where
  normalized : normalize_newlines (line_bytes line) ≡ line_bytes line
  unfolding normalize_newlines
  normalized =
      let no_cr : Lacks b'\r' (line_bytes line) =
        All-map _ _ (λ c p. p.1) (line_bytes line) (line_bytes-IsLow line h) in
      ap (λ (s : Bytes). replace_all s (codes "\r") (codes "\n"))
        (replace_all-Lacks (line_bytes line) b'\r' (codes "\n") (codes "\n") no_cr)
      ∙ replace_all-Lacks (line_bytes line) b'\r' [] (codes "\n") no_cr

  no_nul : has_byte (line_bytes line) 0 ≡ false
  no_nul = rw (
    index_byte-Lacks (line_bytes line) 0
        (All-map _ _ (λ c p. p.0) (line_bytes line) (line_bytes-IsLow line h)),
    has_byte,
  )

  ascii : IsAscii (line_bytes line)
  ascii = All-map _ _ (λ c p. p.2) (line_bytes line) (line_bytes-IsLow line h)

  -- A line of text, sanitized in either mode, ends in CRLF instead of its newline.
  pub sanitize_body_line :
      (u : Bool) → sanitize_body (line_bytes line) u ≡ ok (line ++ codes "\r\n")
  unfolding sanitize_body
  sanitize_body_line true =
      rw
        (
          no_nul,
          normalized,
          valid_ascii (line_bytes line) ascii,
          runes_ascii (line_bytes line) ascii,
          rendered_runes line h,
        )
        refl
  sanitize_body_line false = rw (no_nul, normalized, rendered_bytes line h) refl
