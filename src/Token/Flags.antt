-- ===== src/Token/Flags.antt =====
-- What a flag is, and that `parseFlag` reads back exactly the texts of flags.
use fingered.Base.{
  ℕ, suc, ◌+◌, ◌≤◌, ◌<◌, ◌≡◌, ◌≢◌, ◌↔◌, refl, sym, ap, ◌∙◌, inl, inr, Bool, true, false, [], ◌∷◌,
  ◌++◌, some, arith, Bytes, length, take, drop, All, All-of_all, Lacks, Option-cases, All-map,
  all-of_All, length-append,
}
use fingered.Text.{index_byte, count_byte, is_ascii_space}
use fingered.Text.Laws.{index_byte_split, index_byte-append, index_byte-Lacks}
use fingered.Text.Pieces.{IsSpaceless}
use fingered.Token.{
  is_flag_rune, valid_flag_name, valid_flag_value, Flag, bare_flag, valued_flag, parse_flag_body,
  parse_flag, flag_text, first_is,
}

-- Letters, digits, `-` and `_`, at least one byte and at most `most`.
pub record IsWord (most : ℕ) (s : Bytes) : Type 0 where
  pub pos : 0 < length s
  pub short : length s ≤ most
  pub bytes : All (λ c. is_flag_rune c ≡ true) s

-- A bare flag has no value; any other has one.
abbrev pub HasValue : Bool → Bytes → Type 0
HasValue true value = value ≡ []
HasValue false value = IsWord 64 value

pub record IsFlag (f : Flag) : Type 0 where
  pub name : IsWord 32 f.name
  pub value : HasValue f.bare f.value

valid_flag_name-IsWord : (s : Bytes) → valid_flag_name s ≡ true → IsWord 32 s
unfolding valid_flag_name
valid_flag_name-IsWord s h = record {
  pos = ground arith;
  short = ground arith;
  bytes = All-of_all _ is_flag_rune (λ c e. e) s (ground arith);
}

IsWord-valid_flag_name : (s : Bytes) → IsWord 32 s → valid_flag_name s ≡ true
unfolding valid_flag_name
IsWord-valid_flag_name s h =
    ground (arith, all-of_All _ is_flag_rune (λ c e. e) s h.bytes, h.pos, h.short)

valid_flag_value-IsWord : (s : Bytes) → valid_flag_value s ≡ true → IsWord 64 s
unfolding valid_flag_value
valid_flag_value-IsWord s h = record {
  pos = ground arith;
  short = ground arith;
  bytes = All-of_all _ is_flag_rune (λ c e. e) s (ground arith);
}

IsWord-valid_flag_value : (s : Bytes) → IsWord 64 s → valid_flag_value s ≡ true
unfolding valid_flag_value
IsWord-valid_flag_value s h =
    ground (arith, all-of_All _ is_flag_rune (λ c e. e) s h.bytes, h.pos, h.short)

is_flag_rune-ne : (c : ℕ) → is_flag_rune c ≡ true → (c ≢ b'=') × (is_ascii_space c ≡ false)
unfolding is_flag_rune
is_flag_rune-ne c h = (λ e. ground arith, ground arith)

pub IsWord-Lacks : {n : ℕ} (s : Bytes) → IsWord n s → Lacks b'=' s
IsWord-Lacks s h = All-map _ _ (λ c e. (is_flag_rune-ne c e).0) s h.bytes

pub IsWord-IsSpaceless : {n : ℕ} (s : Bytes) → IsWord n s → IsSpaceless s
IsWord-IsSpaceless s h = All-map _ _ (λ c e. (is_flag_rune-ne c e).1) s h.bytes

count_byte-Lacks : (s : Bytes) (b : ℕ) → Lacks b s → count_byte s b ≡ 0
unfolding count_byte
count_byte-Lacks [] b h = refl
count_byte-Lacks (c ∷ s) b h = ground (arith, count_byte-Lacks s b h.1)

count_byte-append : (s t : Bytes) (b : ℕ) → count_byte (s ++ t) b ≡ count_byte s b + count_byte t b
unfolding count_byte
count_byte-append [] t b = omega arith
count_byte-append (c ∷ s) t b = omega (arith, count_byte-append s t b)

take-length_append : (s t : Bytes) → take (length s) (s ++ t) ≡ s
take-length_append [] t = refl
take-length_append (c ∷ s) t = ap (◌∷◌ c) (take-length_append s t)

drop-length_append : (s t : Bytes) (c : ℕ) → drop (suc (length s)) (s ++ c ∷ t) ≡ t
drop-length_append [] t c = refl
drop-length_append (b ∷ s) t c = drop-length_append s t c

parse_flag_body_bare :
    (name : Bytes) → IsWord 32 name → parse_flag_body name ≡ some (bare_flag name)
unfolding parse_flag_body
parse_flag_body_bare name h = ground (
  arith,
  count_byte-Lacks name b'=' (IsWord-Lacks name h),
  index_byte-Lacks name b'=' (IsWord-Lacks name h),
  IsWord-valid_flag_name name h,
)

count_byte_self : (s : Bytes) (b : ℕ) → count_byte (b ∷ s) b ≡ 1 + count_byte s b
unfolding count_byte
count_byte_self s b = ground arith

count_byte_one :
    (name value : Bytes)
    → IsWord 32 name
    → IsWord 64 value
    → count_byte (name ++ b'=' ∷ value) b'=' ≡ 1
count_byte_one name value h k = omega (
  arith,
  count_byte-append name (b'=' ∷ value) b'=',
  count_byte-Lacks name b'=' (IsWord-Lacks name h),
  count_byte-Lacks value b'=' (IsWord-Lacks value k),
  count_byte_self value b'=',
)

parse_flag_body_valued :
    (name value : Bytes)
    → IsWord 32 name
    → IsWord 64 value
    → parse_flag_body (name ++ b'=' ∷ value) ≡ some (valued_flag name value)
unfolding parse_flag_body
parse_flag_body_valued name value h k = rw (
  count_byte_one name value h k,
  index_byte-append name value b'=' (IsWord-Lacks name h),
  take-length_append name (b'=' ∷ value),
  drop-length_append name value b'=',
  IsWord-valid_flag_name name h,
  IsWord-valid_flag_value value k,
)

parse_flag-slash :
    (body : Bytes) → 0 < length body → parse_flag (b'/' ∷ body) ≡ parse_flag_body body
unfolding parse_flag
parse_flag-slash body h = ground arith

parse_flag-flag_text_by :
    (name value : Bytes) (bare : Bool)
    → IsWord 32 name
    → HasValue bare value
    → parse_flag (flag_text (record { name = name; value = value; bare = bare }))
      ≡ some (record { name = name; value = value; bare = bare })
parse_flag-flag_text_by name value true h k =
    parse_flag-slash name h.pos
    ∙ parse_flag_body_bare name h
    ∙ ap (λ (v : Bytes). some (record { name = name; value = v; bare = true })) (sym k)
parse_flag-flag_text_by name value false h k =
    parse_flag-slash _ (omega (arith, length-append name (b'=' ∷ value)))
    ∙ parse_flag_body_valued name value h k

pub parse_flag-flag_text : (f : Flag) → IsFlag f → parse_flag (flag_text f) ≡ some f
parse_flag-flag_text f h = parse_flag-flag_text_by f.name f.value f.bare h.name h.value

parse_flag_body_sound :
    (body : Bytes) (f : Flag)
    → parse_flag_body body ≡ some f
    → IsFlag f × (b'/' ∷ body ≡ flag_text f)
unfolding parse_flag_body
parse_flag_body_sound body f h = elim (Option-cases (index_byte body b'=')) [
  | inl e ↦
      let name : valid_flag_name body ≡ true = ground arith in
      let same : bare_flag body ≡ f = ground arith in
      rw (← same) (record { name = valid_flag_name-IsWord body name; value = refl }, refl)
  | inr (idx, e) ↦
      let name : valid_flag_name (take idx body) ≡ true = ground arith in
      let value : valid_flag_value (drop (suc idx) body) ≡ true = ground arith in
      let same : valued_flag (take idx body) (drop (suc idx) body) ≡ f = ground arith in
      rw (← same) (
        record { name = valid_flag_name-IsWord _ name; value = valid_flag_value-IsWord _ value },
        ap (◌∷◌ b'/') (index_byte_split body b'=' idx e).0,
      )
]

first_is_cons : (c : ℕ) (s : Bytes) → first_is c s ≡ true → s ≡ c ∷ drop 1 s
first_is_cons c [] h = cc
first_is_cons c (b ∷ s) h = ground arith

pub parse_flag_sound :
    (token : Bytes) (f : Flag) → parse_flag token ≡ some f → IsFlag f × (token ≡ flag_text f)
unfolding parse_flag
parse_flag_sound token f h =
    let slash : first_is b'/' token ≡ true = ground arith in
    let (ok, text) = parse_flag_body_sound (drop 1 token) f (ground arith) in
    (ok, first_is_cons b'/' token slash ∙ text)

-- `parseFlag` accepts a token exactly if it is the text of a flag with a name of 1 to 32 and, unless
-- it is bare, a value of 1 to 64 letters, digits, dashes and underscores; the result is that flag.
pub parse_flag_iff :
    (token : Bytes) (f : Flag) → (parse_flag token ≡ some f) ↔ (IsFlag f × (token ≡ flag_text f))
parse_flag_iff token f =
    (parse_flag_sound token f, λ h. ap parse_flag h.1 ∙ parse_flag-flag_text f h.0)
