-- ===== src/Request/Plain.antt =====
-- A line without the extended syntax: a target, alone or behind `/W`, or `/W` alone.
use fingered.Base.{
  ◌≡◌, refl, sym, ◌∙◌, inl, inr, true, ◌⊎◌, [], ◌++◌, some, arith, Bytes, Bool-cases, eqb, eqb_iff,
  All-append, codes, drop,
}
use fingered.Text.{has_prefix}
use fingered.Text.Laws.{has_prefix-drop}
use fingered.Token.Target.{IsTarget, valid_target_component-IsTarget}
use fingered.Request.{Request, plain_request, parse_plain_line}
use fingered.Request.Sound.{IsTargetOrNone, IsPrintable, IsRequest, no_flags, IsTarget-IsPrintable}

-- The canonical form is the line itself.
pub record IsPlain (line : Bytes) (req : Request) : Type 0 where
  pub raw : req.raw ≡ line
  pub canonical : req.canonical ≡ line
  pub flags : req.flags ≡ []
  pub target : IsTargetOrNone req.target
  pub shape :
      ((line ≡ codes "/W") × (req.target ≡ []))
      ⊎ ((line ≡ req.target) ⊎ (line ≡ codes "/W " ++ req.target))

plain_request_sound :
    (line target canonical : Bytes) (req : Request)
    → plain_request line target canonical ≡ some req
    → IsTarget target
      × (record { raw = line; canonical = canonical; target = target; flags = [] } ≡ req)
unfolding plain_request
plain_request_sound line target canonical req h =
    (valid_target_component-IsTarget target (ground arith), ground arith)

pub parse_plain_line-IsPlain :
    (line : Bytes) (req : Request) → parse_plain_line line ≡ some req → IsPlain line req
unfolding parse_plain_line
parse_plain_line-IsPlain line req h = elim (Bool-cases (eqb line (codes "/W"))) [
  | inl w ↦
      let eq = (eqb_iff line (codes "/W")).0 w in
      let same : record { raw = line; canonical = codes "/W"; target = []; flags = [] } ≡ req =
        ground arith in
      rw (← same) (record {
        raw = refl;
        canonical = sym eq;
        flags = refl;
        target = inl refl;
        shape = inl (eq, refl);
      })
  | inr not_w ↦ elim (Bool-cases (has_prefix line (codes "/W"))) [
    | inl prefixed ↦
        let spaced : has_prefix line (codes "/W ") ≡ true = ground arith in
        let eq = has_prefix-drop line (codes "/W ") spaced in
        let h' : plain_request line (drop 3 line) (codes "/W " ++ drop 3 line) ≡ some req =
          ground arith in
        let (target, same) =
          plain_request_sound line (drop 3 line) (codes "/W " ++ drop 3 line) req h' in
        rw (← same) (record {
          raw = refl;
          canonical = sym eq;
          flags = refl;
          target = inr target;
          shape = inr (inr eq);
        })
    | inr other ↦
        let (target, same) = plain_request_sound line line line req (ground arith) in
        rw (← same) (record {
          raw = refl;
          canonical = refl;
          flags = refl;
          target = inr target;
          shape = inr (inl refl);
        })
  ]
]

shape-IsPrintable :
    (line target : Bytes)
    → IsTargetOrNone target
    → ((line ≡ codes "/W") × (target ≡ [])) ⊎ ((line ≡ target) ⊎ (line ≡ codes "/W " ++ target))
    → IsPrintable line
shape-IsPrintable line target t (inl e) = rw e.0 (omega arith)
shape-IsPrintable line target (inl t) (inr (inl e)) = rw (e ∙ t) tt
shape-IsPrintable line target (inr t) (inr (inl e)) = rw e (IsTarget-IsPrintable target t)
shape-IsPrintable line target (inl t) (inr (inr e)) = rw (e, t) (omega arith)
shape-IsPrintable line target (inr t) (inr (inr e)) =
    rw e (All-append _ (codes "/W ") target (omega arith) (IsTarget-IsPrintable target t))

pub IsPlain-IsRequest : (line : Bytes) (req : Request) → IsPlain line req → IsRequest req
IsPlain-IsRequest line req h = record {
  flags = rw h.flags no_flags;
  target = h.target;
  canonical = rw h.canonical (shape-IsPrintable line req.target h.target h.shape);
}
