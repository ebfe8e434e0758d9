-- ===== src/Text/Pieces.antt =====
-- `Fields`, `Split` and `Join`: what the parts are, and the ways back.
use fingered.Base.{
  ℕ, ◌≡◌, ◌≢◌, refl, sym, ap, ◌∙◌, inl, inr, true, false, List, [], ◌∷◌, ◌++◌, arith, ◌==◌, Bytes,
  All, Lacks, append_assoc, append-nil, All-append, Bool-cases, ==_iff,
}
use fingered.Text.{is_ascii_space, flush, fields_from, fields, split_from, split, join}

abbrev pub IsSpaceless : Bytes → Type 0
IsSpaceless = All (λ c. is_ascii_space c ≡ false)

-- A token: not empty, and free of white space.
abbrev pub IsToken : Bytes → Type 0
IsToken t = (t ≢ []) × IsSpaceless t

flush-IsToken :
    (cur : Bytes) (parts : List Bytes)
    → IsSpaceless cur
    → All IsToken parts
    → All IsToken (flush cur parts)
flush-IsToken [] parts h hs = hs
flush-IsToken (c ∷ cur) parts h hs = ((λ e. cc e, h), hs)

fields_from_space :
    (cur : Bytes) (c : ℕ) (s : Bytes)
    → is_ascii_space c ≡ true
    → fields_from cur (c ∷ s) ≡ flush cur (fields_from [] s)
unfolding fields_from
fields_from_space cur c s e = ground arith

fields_from_other :
    (cur : Bytes) (c : ℕ) (s : Bytes)
    → is_ascii_space c ≡ false
    → fields_from cur (c ∷ s) ≡ fields_from (cur ++ c ∷ []) s
unfolding fields_from
fields_from_other cur c s e = ground arith

fields_from-IsToken : (cur s : Bytes) → IsSpaceless cur → All IsToken (fields_from cur s)
unfolding fields_from
fields_from-IsToken cur [] h = flush-IsToken cur [] h tt
fields_from-IsToken cur (c ∷ s) h = elim (Bool-cases (is_ascii_space c)) [
  | inl e ↦ rw (fields_from_space cur c s e) (flush-IsToken cur _ h (fields_from-IsToken [] s tt))
  | inr e ↦
      rw (fields_from_other cur c s e)
        (fields_from-IsToken (cur ++ c ∷ []) s (All-append _ cur (c ∷ []) h (e, tt)))
]

-- Every field is a token.
pub fields-IsToken : (s : Bytes) → All IsToken (fields s)
unfolding fields
fields-IsToken s = fields_from-IsToken [] s tt

fields_from-append :
    (t cur rest : Bytes) → IsSpaceless t → fields_from cur (t ++ rest) ≡ fields_from (cur ++ t) rest
unfolding fields_from
fields_from-append [] cur rest h = rw append-nil
fields_from-append (c ∷ t) cur rest (hc, h) =
    fields_from_other cur c (t ++ rest) hc
    ∙ fields_from-append t (cur ++ c ∷ []) rest h
    ∙ rw append_assoc

flush_token : (t : Bytes) (parts : List Bytes) → t ≢ [] → flush t parts ≡ t ∷ parts
flush_token [] parts h = absurd (h refl)
flush_token (c ∷ t) parts h = refl

-- Tokens joined by single spaces are the fields of the result.
pub fields-join : (ts : List Bytes) → All IsToken ts → fields (join ts (b' ' ∷ [])) ≡ ts
unfolding fields join
fields-join [] _ = unfold fields_from in refl
fields-join (t ∷ []) ((ne, h), _) =
    ap fields (sym (append-nil t))
    ∙ fields_from-append t [] [] h
    ∙ unfold fields_from in flush_token t [] ne
fields-join (t ∷ u ∷ ts) ((ne, h), hs) =
    fields_from-append t [] _ h
    ∙ (unfold fields_from in flush_token t _ ne)
    ∙ ap (◌∷◌ t) (fields-join (u ∷ ts) hs)

split_from_sep :
    (sep : ℕ) (cur : Bytes) (c : ℕ) (s : Bytes)
    → (c == sep) ≡ true
    → split_from sep cur (c ∷ s) ≡ cur ∷ split_from sep [] s
unfolding split_from
split_from_sep sep cur c s e = ground arith

split_from_other :
    (sep : ℕ) (cur : Bytes) (c : ℕ) (s : Bytes)
    → (c == sep) ≡ false
    → split_from sep cur (c ∷ s) ≡ split_from sep (cur ++ c ∷ []) s
unfolding split_from
split_from_other sep cur c s e = ground arith

split_from-append :
    (sep : ℕ) (t cur rest : Bytes)
    → Lacks sep t
    → split_from sep cur (t ++ rest) ≡ split_from sep (cur ++ t) rest
unfolding split_from
split_from-append sep [] cur rest h = rw append-nil
split_from-append sep (c ∷ t) cur rest (hc, h) =
    ground (arith, split_from-append sep t (cur ++ c ∷ []) rest h, append_assoc cur (c ∷ []) t)

split_from-Lacks :
    (sep : ℕ) (cur s : Bytes) → Lacks sep cur → All (Lacks sep) (split_from sep cur s)
unfolding split_from
split_from-Lacks sep cur [] h = (h, tt)
split_from-Lacks sep cur (c ∷ s) h = elim (Bool-cases (c == sep)) [
  | inl e ↦ rw (split_from_sep sep cur c s e) (h, split_from-Lacks sep [] s tt)
  | inr e ↦
      rw (split_from_other sep cur c s e)
        (split_from-Lacks sep (cur ++ c ∷ []) s (All-append _ cur (c ∷ []) h (ground arith, tt)))
]

-- No part of a split holds the separator.
pub split-Lacks : (s : Bytes) (sep : ℕ) → All (Lacks sep) (split s sep)
unfolding split
split-Lacks s sep = split_from-Lacks sep [] s tt

split_from-ne-nil : (sep : ℕ) (cur s : Bytes) → split_from sep cur s ≢ []
unfolding split_from
split_from-ne-nil sep cur [] = λ e. cc e
split_from-ne-nil sep cur (c ∷ s) = elim (Bool-cases (c == sep)) [
  | inl e ↦ rw (split_from_sep sep cur c s e) (λ eq. cc eq)
  | inr e ↦ rw (split_from_other sep cur c s e) (split_from-ne-nil sep (cur ++ c ∷ []) s)
]

join-cons :
    (p : Bytes) (ps : List Bytes) (sep : Bytes)
    → ps ≢ []
    → join (p ∷ ps) sep ≡ p ++ (sep ++ join ps sep)
unfolding join
join-cons p [] sep h = absurd (h refl)
join-cons p (q ∷ ps) sep h = refl

join-split_from : (sep : ℕ) (cur s : Bytes) → join (split_from sep cur s) (sep ∷ []) ≡ cur ++ s
unfolding split_from join
join-split_from sep cur [] = sym (append-nil cur)
join-split_from sep cur (c ∷ s) = elim (Bool-cases (c == sep)) [
  | inl e ↦
      rw (split_from_sep sep cur c s e, join-cons cur _ (sep ∷ []) (split_from-ne-nil sep [] s))
        (ap (λ (t : Bytes). cur ++ sep ∷ t) (join-split_from sep [] s)
          ∙ ap (λ (b : ℕ). cur ++ b ∷ s) (sym ((==_iff c sep).0 e)))
  | inr e ↦
      rw (split_from_other sep cur c s e) (join-split_from sep (cur ++ c ∷ []) s ∙ rw append_assoc)
]

-- The parts of a split, joined by the separator, are the text.
pub join-split : (s : Bytes) (sep : ℕ) → join (split s sep) (sep ∷ []) ≡ s
unfolding split
join-split s sep = join-split_from sep [] s

split_from-join :
    (sep : ℕ) (p : Bytes) (ps : List Bytes) (cur : Bytes)
    → All (Lacks sep) (p ∷ ps)
    → split_from sep cur (join (p ∷ ps) (sep ∷ [])) ≡ (cur ++ p) ∷ ps
unfolding join
split_from-join sep p [] cur (h, _) =
    ap (split_from sep cur) (sym (append-nil p))
    ∙ split_from-append sep p cur [] h
    ∙ unfold split_from in refl
split_from-join sep p (q ∷ ps) cur (h, hs) =
    split_from-append sep p cur (sep ∷ join (q ∷ ps) (sep ∷ [])) h
    ∙ split_from_sep sep (cur ++ p) sep _ ((==_iff sep sep).1 refl)
    ∙ ap (◌∷◌ (cur ++ p)) (split_from-join sep q ps [] hs)

-- Parts that lack the separator are the parts of the split of their join.
pub split-join :
    (p : Bytes) (ps : List Bytes) (sep : ℕ)
    → All (Lacks sep) (p ∷ ps)
    → split (join (p ∷ ps) (sep ∷ [])) sep ≡ p ∷ ps
unfolding split
split-join p ps sep h = split_from-join sep p ps [] h

split_from_twice :
    (sep : ℕ) (cur s t : Bytes)
    → split_from sep cur (s ++ sep ∷ t) ≡ split_from sep cur s ++ split_from sep [] t
unfolding split_from
split_from_twice sep cur [] t = split_from_sep sep cur sep t ((==_iff sep sep).1 refl)
split_from_twice sep cur (c ∷ s) t = elim (Bool-cases (c == sep)) [
  | inl e ↦
      rw (split_from_sep sep cur c s e, split_from_sep sep cur c (s ++ sep ∷ t) e)
        (ap (◌∷◌ cur) (split_from_twice sep [] s t))
  | inr e ↦
      rw (split_from_other sep cur c s e, split_from_other sep cur c (s ++ sep ∷ t) e)
        (split_from_twice sep (cur ++ c ∷ []) s t)
]

-- Around a separator the parts are those of both sides.
pub split_twice : (s t : Bytes) (sep : ℕ) → split (s ++ sep ∷ t) sep ≡ split s sep ++ split t sep
unfolding split
split_twice s t sep = split_from_twice sep [] s t
