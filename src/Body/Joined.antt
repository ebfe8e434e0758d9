-- ===== src/Body/Joined.antt =====
-- `joinSegments` against its meaning: each part, ended by CRLF, one after the other.
use fingered.Base.{
  ℕ, ◌≡◌, ◌≢◌, refl, sym, ap, ◌∙◌, ◌⊎◌, inl, inr, Bool, true, false, List, [], ◌∷◌, ◌++◌, arith,
  if◌then◌else◌, Bytes, codes, Bool-cases, append_assoc, append-nil, eqb,
}
use fingered.Text.{has_suffix, trim_suffix}
use fingered.Text.Laws.{has_suffix-trim_suffix, has_suffix-append}
use fingered.Body.{end_line, join_segments_from, join_segments}

-- The parts in order; one that is empty gives nothing, and one that lacks a final CRLF gets it.
abbrev pub ended_parts : List Bytes → Bytes
ended_parts [] = []
ended_parts (part ∷ parts) = end_line part ++ ended_parts parts

-- Nothing, or text that ends in CRLF
abbrev pub IsComplete : Bytes → Type 0
IsComplete s = (s ≡ []) ⊎ ((t : Bytes) × (s ≡ t ++ codes "\r\n"))

eqb_long : (a b c : ℕ) (s : Bytes) → eqb (a ∷ b ∷ c ∷ s) (codes "\r\n") ≡ false
unfolding eqb
eqb_long a b c s = ground arith

has_suffix-crlf_append :
    (t : Bytes) (c : ℕ) (part : Bytes)
    → has_suffix (t ++ (codes "\r\n" ++ (c ∷ part))) (codes "\r\n")
      ≡ has_suffix (c ∷ part) (codes "\r\n")
unfolding has_suffix
has_suffix-crlf_append [] c part = ground (arith, eqb_long b'\r' b'\n' c part, eqb_mid c part)
  where
    eqb_mid : (c : ℕ) (part : Bytes) → eqb (b'\n' ∷ c ∷ part) (codes "\r\n") ≡ false
    eqb_mid c part = unfold eqb in ground arith
has_suffix-crlf_append (a ∷ []) c part =
    ground (arith, has_suffix-crlf_append [] c part, eqb_long a b'\r' b'\n' (c ∷ part))
has_suffix-crlf_append (a ∷ b ∷ []) c part =
    ground (arith, has_suffix-crlf_append (b ∷ []) c part, eqb_long a b b'\r' (b'\n' ∷ c ∷ part))
has_suffix-crlf_append (a ∷ b ∷ d ∷ t) c part = ground (
  arith,
  has_suffix-crlf_append (b ∷ d ∷ t) c part,
  eqb_long a b d (t ++ (codes "\r\n" ++ (c ∷ part))),
)

end_line-cons :
    (c : ℕ) (s : Bytes)
    → end_line (c ∷ s)
      ≡ (if has_suffix (c ∷ s) (codes "\r\n") then c ∷ s else (c ∷ s) ++ codes "\r\n")
unfolding end_line
end_line-cons c s = ground arith

end_line-ne-nil :
    (s : Bytes)
    → s ≢ []
    → end_line s ≡ (if has_suffix s (codes "\r\n") then s else s ++ codes "\r\n")
end_line-ne-nil [] h = absurd (h refl)
end_line-ne-nil (c ∷ s) h = end_line-cons c s

end_line_complete : (s : Bytes) → IsComplete s → end_line s ≡ s
unfolding end_line
end_line_complete s (inl e) = rw e
end_line_complete s (inr (t, e)) = rw e (rw (has_suffix-append t (codes "\r\n")) (ground arith))

IsComplete-end_line : (s : Bytes) → IsComplete (end_line s)
IsComplete-end_line [] = inl (unfold end_line in refl)
IsComplete-end_line (c ∷ s) = elim (Bool-cases (has_suffix (c ∷ s) (codes "\r\n"))) [
  | inl e ↦ inr (
    trim_suffix (c ∷ s) (codes "\r\n"),
    end_line-cons c s ∙ rw e (has_suffix-trim_suffix (c ∷ s) (codes "\r\n") e),
  )
  | inr e ↦ inr (c ∷ s, end_line-cons c s ∙ rw e)
]

-- The ending of a part that is not empty does not depend on what stands before it.
end_line-append :
    (before : Bytes) (c : ℕ) (part : Bytes)
    → IsComplete before
    → end_line (before ++ (c ∷ part)) ≡ before ++ end_line (c ∷ part)
end_line-append before c part (inl e) = rw e
end_line-append before c part (inr (t, e)) =
    let tail : (t ++ codes "\r\n") ++ (c ∷ part) ≡ t ++ (codes "\r\n" ++ (c ∷ part)) =
      append_assoc t (codes "\r\n") (c ∷ part) in
    rw e (
      end_line-ne-nil ((t ++ codes "\r\n") ++ (c ∷ part)) (ne t)
      ∙ ap
          (λ (b : Bool).
            if b
            then (t ++ codes "\r\n") ++ (c ∷ part)
            else ((t ++ codes "\r\n") ++ (c ∷ part)) ++ codes "\r\n")
          (ap (λ (s : Bytes). has_suffix s (codes "\r\n")) tail ∙ has_suffix-crlf_append t c part)
      ∙ if-append (has_suffix (c ∷ part) (codes "\r\n")) (t ++ codes "\r\n") (c ∷ part)
      ∙ ap (λ (s : Bytes). (t ++ codes "\r\n") ++ s) (sym (end_line-cons c part)))
  where
    ne : (u : Bytes) → (u ++ codes "\r\n") ++ (c ∷ part) ≢ []
    ne [] = λ k. cc k
    ne (x ∷ u) = λ k. cc k

    if-append :
        (b : Bool) (u v : Bytes)
        → (if b then u ++ v else (u ++ v) ++ codes "\r\n")
          ≡ u ++ (if b then v else v ++ codes "\r\n")
    if-append true u v = refl
    if-append false u v = append_assoc u v (codes "\r\n")

IsComplete-append : (s t : Bytes) → IsComplete s → IsComplete t → IsComplete (s ++ t)
IsComplete-append s t h (inl e) = rw (e, append-nil) h
IsComplete-append s t h (inr (u, e)) = inr (s ++ u, rw (e, append_assoc))

join_segments_from-ended_parts :
    (parts : List Bytes) (before part : Bytes)
    → IsComplete before
    → join_segments_from (before ++ part) parts ≡ before ++ (end_line part ++ ended_parts parts)
unfolding join_segments_from
join_segments_from-ended_parts [] before [] h =
    ap end_line (append-nil before) ∙ end_line_complete before h ∙ sym (append-nil before)
join_segments_from-ended_parts [] before (c ∷ part) h =
    end_line-append before c part h
    ∙ ap (λ (s : Bytes). before ++ s) (sym (append-nil (end_line (c ∷ part))))
join_segments_from-ended_parts ([] ∷ parts) before part h =
    join_segments_from-ended_parts parts before part h
join_segments_from-ended_parts ((d ∷ next) ∷ parts) before part h =
    let done = before ++ end_line part in
    let complete = IsComplete-append before (end_line part) h (IsComplete-end_line part) in
    ap (λ (s : Bytes). join_segments_from (s ++ (d ∷ next)) parts) (ended part)
    ∙ join_segments_from-ended_parts parts done (d ∷ next) complete
    ∙ append_assoc before (end_line part) (ended_parts ((d ∷ next) ∷ parts))
  where
    ended : (p : Bytes) → end_line (before ++ p) ≡ before ++ end_line p
    ended [] =
        ap end_line (append-nil before) ∙ end_line_complete before h ∙ sym (append-nil before)
    ended (c ∷ p) = end_line-append before c p h

-- Joining is the parts in order, without the empty ones, each ended by CRLF if it is not already.
pub join_segments-ended_parts : (parts : List Bytes) → join_segments parts ≡ ended_parts parts
unfolding join_segments
join_segments-ended_parts parts = join_segments_from-ended_parts parts [] [] (inl refl)

ended_parts-IsComplete : (parts : List Bytes) → IsComplete (ended_parts parts)
ended_parts-IsComplete [] = inl refl
ended_parts-IsComplete (part ∷ parts) =
    IsComplete-append (end_line part) (ended_parts parts) (IsComplete-end_line part)
      (ended_parts-IsComplete parts)

pub join_segments-IsComplete : (parts : List Bytes) → IsComplete (join_segments parts)
join_segments-IsComplete parts = rw (join_segments-ended_parts parts) (ended_parts-IsComplete parts)
