-- ===== src/Body/Stable.antt =====
-- `sanitizeBody` changes nothing of what it returned, and with UTF-8 required it returns UTF-8.
use fingered.Base.{
  ℕ, ◌≡◌, ◌≢◌, ◌⊎◌, refl, sym, ap, ◌∙◌, inl, inr, Bool, true, false, ◌||◌, List, [], ◌∷◌, ◌++◌,
  arith, ltb, ◌==◌, if◌then◌else◌, Bytes, codes, append_each, All, All-map, All-append, Lacks,
  Bool-cases, map,
}
use fingered.Text.{replace_all}
use fingered.Text.Laws.{index_byte-Lacks}
use fingered.Text.Replace.{replace_all-append, replace_all-Lacks, replace_all-crlf}
use fingered.Utf8.{runes, encode_rune}
use fingered.Utf8.Encode.{IsScalar, encode_rune-high, encode_rune_ascii, runes-append_each}
use fingered.Body.{
  valid_output_rune, valid_output_byte, render_rune, render_byte, normalize_newlines, has_byte,
}
use fingered.Body.Clean.{IsBody, line_end, byte, IsTextByte}

module _ (render plain : ℕ → Bytes) where
  -- An item is a line end, or is sent as it stands and has no carriage return.
  abbrev Fits : ℕ → Type 0
  Fits x =
      ((render x ≡ codes "\r\n") × (plain x ≡ codes "\n"))
      ⊎ ((render x ≡ plain x) × Lacks b'\r' (plain x))

  plain-Lacks : (x : ℕ) → Fits x → Lacks b'\r' (plain x)
  plain-Lacks x (inl (_, e)) = rw e (omega arith)
  plain-Lacks x (inr (_, h)) = h

  append_each-Lacks : (xs : List ℕ) → All Fits xs → Lacks b'\r' (append_each plain xs)
  append_each-Lacks [] h = tt
  append_each-Lacks (x ∷ xs) (hx, h) =
      All-append _ (plain x) (append_each plain xs) (plain-Lacks x hx) (append_each-Lacks xs h)

  replace_all-append_each :
      (xs : List ℕ)
      → All Fits xs
      → replace_all (append_each render xs) (codes "\r\n") (codes "\n") ≡ append_each plain xs
  replace_all-append_each [] h = replace_all-Lacks [] b'\r' (codes "\n") (codes "\n") tt
  replace_all-append_each (x ∷ xs) (inl (r, p), h) =
      rw (r, p)
        (replace_all-crlf (append_each render xs) ∙ ap (◌∷◌ b'\n') (replace_all-append_each xs h))
  replace_all-append_each (x ∷ xs) (inr (r, l), h) = rw r (
      replace_all-append (plain x) (append_each render xs) b'\r' (codes "\n") (codes "\n") l
      ∙ ap (λ (t : Bytes). plain x ++ t) (replace_all-append_each xs h))

  normalize_newlines-append_each :
      (xs : List ℕ)
      → All Fits xs
      → normalize_newlines (append_each render xs) ≡ append_each plain xs
  unfolding normalize_newlines
  normalize_newlines-append_each xs h =
      rw (replace_all-append_each xs h)
        (replace_all-Lacks _ b'\r' [] (codes "\n") (append_each-Lacks xs h))

text-ne-nul : (u : Bool) (b : ℕ) → IsTextByte u b → b ≢ 0
text-ne-nul true b h = omega arith
text-ne-nul false b h = omega arith

IsBody-Lacks_nul : {u : Bool} {s : Bytes} → IsBody u s → Lacks 0 s
IsBody-Lacks_nul IsBody.done = tt
IsBody-Lacks_nul (line_end h) = (omega arith, (omega arith, IsBody-Lacks_nul h))
IsBody-Lacks_nul {u} (byte {b} t h) = (text-ne-nul u b t, IsBody-Lacks_nul h)

pub has_nul-IsBody : {u : Bool} {s : Bytes} → IsBody u s → has_byte s 0 ≡ false
has_nul-IsBody {s} h = rw (index_byte-Lacks s 0 (IsBody-Lacks_nul h), has_byte)

-- What each item is sent as: itself, if it may be sent, and `?` otherwise.
abbrev pub shown : (ℕ → Bool) → ℕ → ℕ
shown test x = if x == b'\n' || test x then x else b'?'

-- The bytes
abbrev one_byte : ℕ → Bytes
one_byte b = b ∷ []

render_byte-shown : (b : ℕ) → render_byte b ≡ render_byte (shown valid_output_byte b)
unfolding render_byte valid_output_byte
render_byte-shown b = ground arith

Fits-shown_byte : (b : ℕ) → Fits render_byte one_byte (shown valid_output_byte b)
unfolding render_byte valid_output_byte
Fits-shown_byte b = ground arith

append_each-shown :
    (render : ℕ → Bytes) (test : ℕ → Bool)
    → ((x : ℕ) → render x ≡ render (shown test x))
    → (xs : List ℕ) → append_each render xs ≡ append_each render (map (shown test) xs)
append_each-shown render test h [] = refl
append_each-shown render test h (x ∷ xs) = cc (h x, append_each-shown render test h xs)

All-shown :
    (P : ℕ → Type 0) (test : ℕ → Bool)
    → ((x : ℕ) → P (shown test x))
    → (xs : List ℕ) → All P (map (shown test) xs)
All-shown P test h [] = tt
All-shown P test h (x ∷ xs) = (h x, All-shown P test h xs)

append_each-one_byte : (s : Bytes) → append_each one_byte s ≡ s
append_each-one_byte [] = refl
append_each-one_byte (b ∷ s) = ap (◌∷◌ b) (append_each-one_byte s)

pub stable_bytes :
    (t : Bytes)
    → append_each render_byte (normalize_newlines (append_each render_byte t))
      ≡ append_each render_byte t
stable_bytes t =
    let xs = map (shown valid_output_byte) t in
    let same = append_each-shown render_byte valid_output_byte render_byte-shown t in
    let fits = All-shown (Fits render_byte one_byte) valid_output_byte Fits-shown_byte t in
    let plain : normalize_newlines (append_each render_byte t) ≡ xs =
      ap normalize_newlines same
      ∙ normalize_newlines-append_each render_byte one_byte xs fits
      ∙ append_each-one_byte xs in
    ap (append_each render_byte) plain ∙ sym same

-- The runes
render_rune-shown : (r : ℕ) → render_rune r ≡ render_rune (shown valid_output_rune r)
unfolding render_rune valid_output_rune encode_rune
render_rune-shown r = ground arith

encode_rune-Lacks_cr : (r : ℕ) → r ≢ b'\r' → Lacks b'\r' (encode_rune r)
encode_rune-Lacks_cr r h = elim (Bool-cases (ltb r 0x80)) [
  | inl e ↦ rw (encode_rune_ascii r (ground arith)) (h, tt)
  | inr e ↦
      All-map _ _ (λ b k. omega (arith, k)) (encode_rune r) (encode_rune-high r (ground arith))
]

Fits-rune : (r : ℕ) → (r ≡ b'\n') ⊎ (valid_output_rune r ≡ true) → Fits render_rune encode_rune r
unfolding render_rune
Fits-rune r (inl e) = rw e (inl (refl, encode_rune_ascii b'\n' (omega arith)))
Fits-rune r (inr v) = elim (Bool-cases (r == b'\n')) [
  | inl e ↦
      let e' : r ≡ b'\n' = ground arith in rw e' (inl (refl, encode_rune_ascii b'\n' (omega arith)))
  | inr e ↦
      rw (e, v) (inr (refl, encode_rune-Lacks_cr r (unfold valid_output_rune in ground arith)))
]

Fits-shown_rune : (r : ℕ) → Fits render_rune encode_rune (shown valid_output_rune r)
Fits-shown_rune r = Fits-rune (shown valid_output_rune r) (unfold valid_output_rune in ground arith)

pub IsScalar-shown :
    (rs : List ℕ) → All IsScalar rs → All IsScalar (map (shown valid_output_rune) rs)
IsScalar-shown [] h = tt
IsScalar-shown (r ∷ rs) (hr, h) = (ground arith, IsScalar-shown rs h)

-- The newlines of a rendered text, normalized: the runes that it shows
pub plain_runes :
    (rs : List ℕ)
    → normalize_newlines (append_each render_rune rs)
      ≡ append_each encode_rune (map (shown valid_output_rune) rs)
plain_runes rs =
    let xs = map (shown valid_output_rune) rs in
    let same = append_each-shown render_rune valid_output_rune render_rune-shown rs in
    let fits = All-shown (Fits render_rune encode_rune) valid_output_rune Fits-shown_rune rs in
    ap normalize_newlines same ∙ normalize_newlines-append_each render_rune encode_rune xs fits

pub stable_runes :
    (rs : List ℕ)
    → All IsScalar rs
    → append_each render_rune (runes (normalize_newlines (append_each render_rune rs)))
      ≡ append_each render_rune rs
stable_runes rs h =
    ap (λ (s : Bytes). append_each render_rune (runes s)) (plain_runes rs)
    ∙ ap (append_each render_rune)
        (runes-append_each (map (shown valid_output_rune) rs) (IsScalar-shown rs h))
    ∙ sym (append_each-shown render_rune valid_output_rune render_rune-shown rs)
