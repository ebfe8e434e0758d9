-- ===== src/Request/Invariant.antt =====
-- What the loop over the tokens keeps true of the flags and the target token.
use fingered.Base.{
  ◌≤◌, ◌<◌, ◌≡◌, refl, inl, inr, false, ◌||◌, List, [], ◌∷◌, ◌++◌, Option, none, some, arith, Bytes,
  length, All, Bool-cases, eqb, eqb_iff, All-append, codes, length-append,
}
use fingered.Text.{has_prefix}
use fingered.Token.{Flag, parse_flag}
use fingered.Token.Flags.{IsFlag, parse_flag_sound}
use fingered.Request.{seen, Scan, add_flag, ◌>>=◌, scan_token, scan_tokens}

-- No two flags have one name.
abbrev pub HasDistinctNames : List Flag → Type 0
HasDistinctNames [] = Unit
HasDistinctNames (f ∷ fs) = (seen f.name fs ≡ false) × HasDistinctNames fs

pub record IsFlagList (fs : List Flag) : Type 0 where
  pub each : All IsFlag fs
  pub distinct : HasDistinctNames fs
  pub few : length fs ≤ 16

eqb_sym : (s t : Bytes) → eqb s t ≡ false → eqb t s ≡ false
eqb_sym s t h = elim (Bool-cases (eqb t s)) [
  | inl e ↦ ground (arith, eqb_iff s t, eqb_iff t s)
  | inr e ↦ e
]

pub seen-append :
    (name : Bytes) (fs gs : List Flag) → seen name (fs ++ gs) ≡ (seen name fs || seen name gs)
unfolding seen
seen-append name [] gs = refl
seen-append name (f ∷ fs) gs = ground (arith, seen-append name fs gs)

HasDistinctNames-concat :
    (fs : List Flag) (g : Flag)
    → HasDistinctNames fs
    → seen g.name fs ≡ false
    → HasDistinctNames (fs ++ g ∷ [])
unfolding seen
HasDistinctNames-concat [] g h e = (refl, tt)
HasDistinctNames-concat (f ∷ fs) g (hf, h) e = (
  ground (arith, seen-append f.name fs (g ∷ []), eqb_sym g.name f.name),
  HasDistinctNames-concat fs g h (ground arith),
)

add_flag-IsFlagList :
    (st st' : Scan) (f : Flag)
    → IsFlagList st.flags
    → IsFlag f
    → add_flag st f ≡ some st'
    → IsFlagList st'.flags × (st'.target_token ≡ st.target_token)
unfolding add_flag
add_flag-IsFlagList st st' f h hf e = elim (Bool-cases (seen f.name st.flags)) [
  | inl old ↦ let same : st ≡ st' = ground arith in rw (← same) (h, refl)
  | inr new ↦
      let few : length st.flags < 16 = ground arith in
      let same : record st { flags = st.flags ++ f ∷ [] } ≡ st' = ground arith in
      rw (← same) (
        record {
          each = All-append IsFlag st.flags (f ∷ []) h.each (hf, tt);
          distinct = HasDistinctNames-concat st.flags f h.distinct new;
          few = omega (arith, length-append st.flags (f ∷ []));
        },
        refl,
      )
]

pub >>=-eq-some {ℓ κ} :
    {A : Type ℓ} {B : Type κ} (m : Option A) (f : A → Option B) {b : B}
    → (m >>= f) ≡ some b
    → (a : A) × (m ≡ some a) × (f a ≡ some b)
>>=-eq-some none f h = cc
>>=-eq-some (some a) f h = (a, refl, h)

scan_token-IsFlagList :
    (st st' : Scan) (token : Bytes)
    → IsFlagList st.flags
    → scan_token st token ≡ some st'
    → IsFlagList st'.flags
unfolding scan_token
scan_token-IsFlagList st st' token h e = elim (Bool-cases (has_prefix token (codes "/"))) [
  | inl slash ↦
      let e' : (parse_flag token >>= add_flag st) ≡ some st' = ground arith in
      let (f, parsed, added) = >>=-eq-some (parse_flag token) (add_flag st) e' in
      (add_flag-IsFlagList st st' f h (parse_flag_sound token f parsed).0 added).0
  | inr other ↦ let same : record st { target_token = token } ≡ st' = ground arith in rw (← same) h
]

-- Whatever the tokens, the flags kept are at most 16 flags with distinct names.
pub scan_tokens-IsFlagList :
    (st st' : Scan) (tokens : List Bytes)
    → IsFlagList st.flags
    → scan_tokens st tokens ≡ some st'
    → IsFlagList st'.flags
unfolding scan_tokens
scan_tokens-IsFlagList st st' [] h e = let same : st ≡ st' = ground arith in rw (← same) h
scan_tokens-IsFlagList st st' (t ∷ ts) h e =
    let (mid, here, later) = >>=-eq-some (scan_token st t) (λ s. scan_tokens s ts) e in
    scan_tokens-IsFlagList mid st' ts (scan_token-IsFlagList st mid t h here) later
