-- ===== src/Request/Rebuilt.antt =====
-- A structured request is rebuilt from its flags and its target, by way of the canonical form.
use fingered.Base.{
  ◌≡◌, refl, sym, ap, ◌∙◌, inl, inr, true, false, ◌⊎◌, List, [], ◌∷◌, ◌++◌, some, arith, Bytes, eqb,
  codes, append_assoc,
}
use fingered.Text.{join, fields, trim_suffix}
use fingered.Text.Laws.{trim_suffix-append, has_suffix-append}
use fingered.Utf8.Ascii.{valid_ascii}
use fingered.Token.{Protocol, finger, fingers, Flag}
use fingered.Token.Target.{parse_target_complete}
use fingered.Request.{
  Request, no_tokens, canonical_parts, build_canonical_request, finish_request,
  parse_structured_request, is_empty, empty_request, trim_line_ending, parse_finger_request,
  parse_fingers_request,
}
use fingered.Request.Invariant.{IsFlagList, scan_tokens-IsFlagList}
use fingered.Request.Sound.{
  IsTargetOrNone, no_flags, build_canonical_request-IsPrintable, finish_request_sound,
  parse_structured_request_inv,
}
use fingered.Request.Canonical.{
  scan_tokens-canonical_parts, fields-build_canonical_request, IsPrintable-valid_request_runes,
  IsPrintable-IsAscii,
}

finish_request_complete :
    (line : Bytes) (p : Protocol) (fs : List Flag) (target : Bytes)
    → IsTargetOrNone target
    → finish_request line p (record { flags = fs; target_token = target })
      ≡ some (record {
        raw = line;
        canonical = build_canonical_request fs target;
        target = target;
        flags = fs;
      })
unfolding finish_request eqb
finish_request_complete line p fs [] t = refl
finish_request_complete line p fs (c ∷ target) (inl e) = cc
finish_request_complete line p fs (c ∷ target) (inr t) = rw (parse_target_complete p (c ∷ target) t)

-- The request with these flags and this target, as its own canonical form gives it.
abbrev pub rebuilt : List Flag → Bytes → Request
rebuilt fs target = record {
  raw = build_canonical_request fs target;
  canonical = build_canonical_request fs target;
  target = target;
  flags = fs;
}

parse_canonical :
    (p : Protocol) (fs : List Flag) (target : Bytes)
    → IsFlagList fs
    → IsTargetOrNone target
    → is_empty (canonical_parts fs target) ≡ false
    → parse_structured_request (build_canonical_request fs target) p ≡ some (rebuilt fs target)
unfolding parse_structured_request
parse_canonical p fs target h t ne =
    let line = build_canonical_request fs target in
    rw
      (
        IsPrintable-valid_request_runes line
            (build_canonical_request-IsPrintable fs target h.each t),
        fields-build_canonical_request fs target h.each t,
        ne,
        scan_tokens-canonical_parts fs [] target h.each h.distinct h.few t,
      )
      (finish_request_complete line p fs target t)

-- There is a part, or the request is the empty one.
canonical_cases :
    (fs : List Flag) (target : Bytes)
    → ((eqb (build_canonical_request fs target) [] ≡ true) × (empty_request ≡ rebuilt fs target))
      ⊎ ((eqb (build_canonical_request fs target) [] ≡ false)
          × (is_empty (canonical_parts fs target) ≡ false))
unfolding build_canonical_request eqb join
canonical_cases [] [] = inl (refl, refl)
canonical_cases [] (c ∷ target) = inr (refl, refl)
canonical_cases (f ∷ fs) target = inr (ground arith, refl)

-- What the round trip needs of an accepted request.
pub record IsRebuilt (req : Request) : Type 0 where
  pub flags : IsFlagList req.flags
  pub target : IsTargetOrNone req.target
  pub canonical : req.canonical ≡ build_canonical_request req.flags req.target

pub structured-IsRebuilt :
    (line : Bytes) (p : Protocol) (req : Request)
    → parse_structured_request line p ≡ some req
    → IsRebuilt req
structured-IsRebuilt line p req h =
    let (st, scanned, finished, _, _) = parse_structured_request_inv line p req h in
    let (target, _, same) = finish_request_sound line p st req finished in
    record {
      flags = rw same (scan_tokens-IsFlagList no_tokens st (fields line) no_flags scanned);
      target = target;
      canonical =
          ap (λ (r : Request). r.canonical) same
          ∙ ap (λ (fs : List Flag). build_canonical_request fs req.target)
              (sym (ap (λ (r : Request). r.flags) same));
    }

pub empty-IsRebuilt : (req : Request) → some empty_request ≡ some req → IsRebuilt req
unfolding build_canonical_request join eqb
empty-IsRebuilt req h =
    let same : empty_request ≡ req = ground arith in
    rw (← same) (record { flags = no_flags; target = inl refl; canonical = refl })

pub trim_line_ending-crlf : (s : Bytes) → trim_line_ending (s ++ codes "\r\n") ≡ s
unfolding trim_line_ending
trim_line_ending-crlf s =
    ap (λ (t : Bytes). trim_suffix (trim_suffix t (codes "\n")) (codes "\r"))
      (sym (append_assoc s (codes "\r") (codes "\n")))
    ∙ ap (λ (t : Bytes). trim_suffix t (codes "\r"))
        (trim_suffix-append (s ++ codes "\r") (codes "\n") (λ e. cc e))
    ∙ trim_suffix-append s (codes "\r") (λ e. cc e)

-- The line parser of either protocol, at a canonical line.
module _ (fs : List Flag) (target : Bytes) (h : IsFlagList fs) (t : IsTargetOrNone target) where
  pub extended_again :
      parse_finger_request (build_canonical_request fs target ++ codes "\r\n") true
      ≡ some (rebuilt fs target)
  unfolding parse_finger_request
  extended_again =
      rw (trim_line_ending-crlf (build_canonical_request fs target))
        (elim (canonical_cases fs target) [
          | inl (e, same) ↦ rw e (ap some same)
          | inr (e, ne) ↦ rw e (parse_canonical finger fs target h t ne)
        ])

  pub fingers_again :
      parse_fingers_request (build_canonical_request fs target ++ codes "\r\n")
      ≡ some (rebuilt fs target)
  unfolding parse_fingers_request
  fingers_again =
      let line = build_canonical_request fs target in
      let ascii =
        IsPrintable-IsAscii line (build_canonical_request-IsPrintable fs target h.each t) in
      rw
        (
          trim_suffix-append line (codes "\r\n") (λ e. cc e),
          has_suffix-append line (codes "\r\n"),
          valid_ascii line ascii,
        )
        (elim (canonical_cases fs target) [
          | inl (e, same) ↦ rw e (ap some same)
          | inr (e, ne) ↦ rw e (parse_canonical fingers fs target h t ne)
        ])

pub rebuilt_is :
    (req : Request)
    → IsRebuilt req
    → rebuilt req.flags req.target ≡ record req { raw = req.canonical }
rebuilt_is req h = λ i. record {
  raw = sym h.canonical i;
  canonical = sym h.canonical i;
  target = req.target;
  flags = req.flags;
}
