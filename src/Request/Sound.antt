-- ===== src/Request/Sound.antt =====
-- What holds of every accepted request.
use fingered.Base.{
  ℕ, ◌≤◌, ◌<◌, ◌≡◌, refl, sym, inl, inr, Bool, true, false, ◌⊎◌, List, [], ◌∷◌, some, arith, Bytes,
  All, Bool-cases, eqb, eqb_iff, All-append, codes, All-map,
}
use fingered.Text.{fields, join}
use fingered.Token.{Protocol, Flag, parse_target, flag_text, is_flag_rune}
use fingered.Token.Flags.{IsWord, IsFlag, HasValue}
use fingered.Token.Target.{IsTarget, parse_target_sound, IsTarget-printable}
use fingered.Request.{
  Request, Scan, ◌>>=◌, scan_tokens, no_tokens, canonical_parts, build_canonical_request,
  finish_request, parse_structured_request, valid_request_runes, is_empty,
}
use fingered.Request.Invariant.{IsFlagList, >>=-eq-some, scan_tokens-IsFlagList}

-- The target is empty, which asks for the index, or one local file name.
abbrev pub IsTargetOrNone : Bytes → Type 0
IsTargetOrNone t = (t ≡ []) ⊎ IsTarget t

-- Printable ASCII and spaces: one line of text.
abbrev pub IsPrintable : Bytes → Type 0
IsPrintable = All (λ c. (b' ' ≤ c) × (c < 0x7f))

pub record IsRequest (req : Request) : Type 0 where
  pub flags : IsFlagList req.flags
  pub target : IsTargetOrNone req.target
  pub canonical : IsPrintable req.canonical

pub no_flags : IsFlagList []
no_flags = record { each = tt; distinct = tt; few = omega arith }

is_flag_rune_printable : (c : ℕ) → is_flag_rune c ≡ true → (b' ' ≤ c) × (c < 0x7f)
unfolding is_flag_rune
is_flag_rune_printable c h = (ground arith, ground arith)

IsWord-IsPrintable : {n : ℕ} (s : Bytes) → IsWord n s → IsPrintable s
IsWord-IsPrintable s h = All-map _ _ is_flag_rune_printable s h.bytes

pub IsTarget-IsPrintable : (s : Bytes) → IsTarget s → IsPrintable s
IsTarget-IsPrintable s h = All-map _ _ (λ c e. (omega (arith, e.0), e.1)) s (IsTarget-printable s h)

flag_text-IsPrintable :
    (name value : Bytes) (bare : Bool)
    → IsWord 32 name
    → HasValue bare value
    → IsPrintable (flag_text (record { name = name; value = value; bare = bare }))
flag_text-IsPrintable name value true h k = ((omega arith, omega arith), IsWord-IsPrintable name h)
flag_text-IsPrintable name value false h k = (
  (omega arith, omega arith),
  All-append _ name (b'=' ∷ value) (IsWord-IsPrintable name h)
      ((omega arith, omega arith), IsWord-IsPrintable value k),
)

canonical_parts-IsPrintable :
    (fs : List Flag) (target : Bytes)
    → All IsFlag fs
    → IsTargetOrNone target
    → All IsPrintable (canonical_parts fs target)
unfolding canonical_parts eqb
canonical_parts-IsPrintable [] [] _ t = tt
canonical_parts-IsPrintable [] (c ∷ target) _ (inl e) = cc
canonical_parts-IsPrintable [] (c ∷ target) _ (inr t) = (IsTarget-IsPrintable _ t, tt)
canonical_parts-IsPrintable (f ∷ fs) target (h, hs) t = (
  flag_text-IsPrintable f.name f.value f.bare h.name h.value,
  canonical_parts-IsPrintable fs target hs t,
)

join-IsPrintable : (ps : List Bytes) → All IsPrintable ps → IsPrintable (join ps (codes " "))
unfolding join
join-IsPrintable [] h = tt
join-IsPrintable (p ∷ []) h = h.0
join-IsPrintable (p ∷ q ∷ ps) (h, hs) =
    All-append _ p _ h ((omega arith, omega arith), join-IsPrintable (q ∷ ps) hs)

pub build_canonical_request-IsPrintable :
    (fs : List Flag) (target : Bytes)
    → All IsFlag fs
    → IsTargetOrNone target
    → IsPrintable (build_canonical_request fs target)
unfolding build_canonical_request
build_canonical_request-IsPrintable fs target h t =
    join-IsPrintable _ (canonical_parts-IsPrintable fs target h t)

-- The request that `finish_request` returns, spelled out.
pub finish_request_sound :
    (line : Bytes) (p : Protocol) (st : Scan) (req : Request)
    → finish_request line p st ≡ some req
    → IsTargetOrNone req.target
      × (req.target ≡ st.target_token)
      × (req ≡ record {
        raw = line;
        canonical = build_canonical_request st.flags req.target;
        target = req.target;
        flags = st.flags;
      })
unfolding finish_request
finish_request_sound line p st req h = elim (Bool-cases (eqb st.target_token [])) [
  | inl e ↦
      let same : record {
        raw = line;
        canonical = build_canonical_request st.flags [];
        target = [];
        flags = st.flags;
      }
          ≡ req =
        ground arith in
      rw (← same) (inl refl, sym ((eqb_iff st.target_token []).0 e), refl)
  | inr e ↦
      let h' : (parse_target st.target_token p >>= λ target. some (record {
        raw = line;
        canonical = build_canonical_request st.flags target;
        target = target;
        flags = st.flags;
      }))
          ≡ some req =
        ground arith in
      let (target, parsed, same) = >>=-eq-some (parse_target st.target_token p) _ h' in
      let (ok, eq) = parse_target_sound p st.target_token target parsed in
      let same' : record {
        raw = line;
        canonical = build_canonical_request st.flags target;
        target = target;
        flags = st.flags;
      }
          ≡ req =
        ground arith in
      rw (← same') (inr ok, sym eq, refl)
]

-- A structured request comes from a scan of the fields of the line.
pub parse_structured_request_inv :
    (line : Bytes) (p : Protocol) (req : Request)
    → parse_structured_request line p ≡ some req
    → (st : Scan) × (scan_tokens no_tokens (fields line) ≡ some st)
      × (finish_request line p st ≡ some req)
      × (is_empty (fields line) ≡ false)
      × (valid_request_runes line ≡ true)
unfolding parse_structured_request
parse_structured_request_inv line p req h =
    let runes_ok : valid_request_runes line ≡ true = ground arith in
    let some_token : is_empty (fields line) ≡ false = ground arith in
    let h' : (scan_tokens no_tokens (fields line) >>= finish_request line p) ≡ some req =
      ground arith in
    let (st, scanned, finished) =
      >>=-eq-some (scan_tokens no_tokens (fields line)) (finish_request line p) h' in
    (st, scanned, finished, some_token, runes_ok)

pub parse_structured_request-IsRequest :
    (line : Bytes) (p : Protocol) (req : Request)
    → parse_structured_request line p ≡ some req
    → IsRequest req
parse_structured_request-IsRequest line p req h =
    let (st, scanned, finished, _, _) = parse_structured_request_inv line p req h in
    let flags = scan_tokens-IsFlagList no_tokens st (fields line) no_flags scanned in
    let (target, _, same) = finish_request_sound line p st req finished in
    record {
      flags = rw same flags;
      target = target;
      canonical =
          rw same (build_canonical_request-IsPrintable st.flags req.target flags.each target);
    }
