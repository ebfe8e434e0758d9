-- ===== src/Request/Canonical.antt =====
-- The canonical form of a structured request is read back to the same flags and target.
use fingered.Base.{
  ◌≤◌, ◌<◌, ◌≡◌, refl, ◌∙◌, inl, inr, Bool, true, false, List, [], ◌∷◌, ◌++◌, some, arith, Bytes,
  length, All, eqb, eqb_iff, All-append, codes, length-append, All-map, append_assoc, append-nil,
  all-of_All,
}
use fingered.Text.{has_prefix, fields}
use fingered.Text.Pieces.{IsToken, fields-join}
use fingered.Utf8.Ascii.{IsAscii, runes_ascii}
use fingered.Token.{Flag, flag_text}
use fingered.Token.Flags.{IsWord, IsWord-IsSpaceless, IsFlag, HasValue, parse_flag-flag_text}
use fingered.Token.Target.{IsTarget, IsTarget-IsToken, IsTarget-Lacks_slash}
use fingered.Request.{
  add_flag, scan_token, scan_tokens, canonical_parts, build_canonical_request, seen,
  valid_request_runes, valid_request_rune,
}
use fingered.Request.Invariant.{HasDistinctNames, seen-append}
use fingered.Request.Sound.{IsTargetOrNone, IsPrintable}

flag_text_slash : (f : Flag) → has_prefix (flag_text f) (codes "/") ≡ true
unfolding has_prefix
flag_text_slash f = ground arith

-- The loop keeps a new flag that fits.
scan_token-flag_text :
    (done : List Flag) (f : Flag)
    → IsFlag f
    → seen f.name done ≡ false
    → length done < 16
    → scan_token (record { flags = done; target_token = [] }) (flag_text f)
      ≡ some (record { flags = done ++ f ∷ []; target_token = [] })
unfolding scan_token add_flag eqb
scan_token-flag_text done f h new few = ground (arith, flag_text_slash f, parse_flag-flag_text f h)

scan_token-target :
    (done : List Flag) (t : Bytes)
    → IsTarget t
    → scan_token (record { flags = done; target_token = [] }) t
      ≡ some (record { flags = done; target_token = t })
unfolding scan_token eqb has_prefix
scan_token-target done [] h = absurd (omega (arith, h.pos))
scan_token-target done (c ∷ t) h = ground (arith, IsTarget-Lacks_slash (c ∷ t) h)

seen_of_distinct :
    (done : List Flag) (f : Flag) (fs : List Flag)
    → HasDistinctNames (done ++ f ∷ fs)
    → seen f.name done ≡ false
unfolding seen
seen_of_distinct [] f fs h = refl
seen_of_distinct (g ∷ done) f fs h = ground (
  arith,
  seen-append g.name done (f ∷ fs),
  seen_of_distinct done f fs h.1,
  eqb_iff f.name g.name,
  eqb_iff g.name f.name,
)

-- The canonical parts are scanned back to the flags and the target, behind flags already kept.
pub scan_tokens-canonical_parts :
    (fs done : List Flag) (target : Bytes)
    → All IsFlag fs
    → HasDistinctNames (done ++ fs)
    → length (done ++ fs) ≤ 16
    → IsTargetOrNone target
    → scan_tokens (record { flags = done; target_token = [] }) (canonical_parts fs target)
      ≡ some (record { flags = done ++ fs; target_token = target })
unfolding scan_tokens canonical_parts eqb
scan_tokens-canonical_parts [] done [] h d n t = rw append-nil
scan_tokens-canonical_parts [] done (c ∷ target) h d n (inl t) = cc
scan_tokens-canonical_parts [] done (c ∷ target) h d n (inr t) =
    rw (scan_token-target done (c ∷ target) t, append-nil)
scan_tokens-canonical_parts (f ∷ fs) done target (h, hs) d n t =
    rw
      (scan_token-flag_text done f h (seen_of_distinct done f fs d)
        (omega (arith, length-append done (f ∷ fs))))
      (scan_tokens-canonical_parts fs (done ++ f ∷ []) target hs (rw append_assoc d)
          (rw append_assoc n) t
        ∙ rw append_assoc)

flag_text-IsToken :
    (name value : Bytes) (bare : Bool)
    → IsWord 32 name
    → HasValue bare value
    → IsToken (flag_text (record { name = name; value = value; bare = bare }))
flag_text-IsToken name value true h k = (λ e. cc e, (refl, IsWord-IsSpaceless name h))
flag_text-IsToken name value false h k = (
  λ e. cc e,
  (
    refl,
    All-append _ name (b'=' ∷ value) (IsWord-IsSpaceless name h) (refl, IsWord-IsSpaceless value k),
  ),
)

canonical_parts_tokens :
    (fs : List Flag) (target : Bytes)
    → All IsFlag fs
    → IsTargetOrNone target
    → All IsToken (canonical_parts fs target)
unfolding canonical_parts eqb
canonical_parts_tokens [] [] _ t = tt
canonical_parts_tokens [] (c ∷ target) _ (inl e) = cc
canonical_parts_tokens [] (c ∷ target) _ (inr t) = (IsTarget-IsToken _ t, tt)
canonical_parts_tokens (f ∷ fs) target (h, hs) t =
    (flag_text-IsToken f.name f.value f.bare h.name h.value, canonical_parts_tokens fs target hs t)

pub fields-build_canonical_request :
    (fs : List Flag) (target : Bytes)
    → All IsFlag fs
    → IsTargetOrNone target
    → fields (build_canonical_request fs target) ≡ canonical_parts fs target
unfolding build_canonical_request
fields-build_canonical_request fs target h t = fields-join _ (canonical_parts_tokens fs target h t)

pub IsPrintable-IsAscii : (s : Bytes) → IsPrintable s → IsAscii s
IsPrintable-IsAscii s h = All-map _ _ (λ c e. omega (arith, e.1)) s h

pub IsPrintable-valid_request_runes : (s : Bytes) → IsPrintable s → valid_request_runes s ≡ true
unfolding valid_request_runes
IsPrintable-valid_request_runes s h =
    rw (runes_ascii s (IsPrintable-IsAscii s h))
      (all-of_All _ valid_request_rune (λ c e. ground (arith, e.0, e.1)) s h)
