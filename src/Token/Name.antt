-- ===== src/Token/Name.antt =====
-- The names that are accepted as targets, as a grammar of their bytes.
use fingered.Base.{
  ℕ, ◌≤◌, ◌<◌, ◌≡◌, ◌≢◌, ◌⊎◌, ◌↔◌, Bool, inl, inr, refl, ap, ◌∙◌, true, false, [], ◌∷◌, some, arith,
  Bytes, length, All, All-map, codes, Bool-cases, ◌==◌,
}
use fingered.Text.{contains, has_prefix}
use fingered.Text.Lower.{EndsIn, to_lower-EndsIn, EndsIn-to_lower}
use fingered.Utf8.Ascii.{IsAscii}
use fingered.Token.{is_target_rune, first_is, last_is, Protocol, parse_target}
use fingered.Token.Target.{IsTarget, parse_target_sound, parse_target_complete}

-- A letter, a digit, `-`, `_` or `~`
abbrev pub IsNameByte : ℕ → Type 0
IsNameByte c =
    ((b'a' ≤ c) × (c ≤ b'z'))
    ⊎ (((b'A' ≤ c) × (c ≤ b'Z'))
        ⊎ (((b'0' ≤ c) × (c ≤ b'9')) ⊎ ((c ≡ b'-') ⊎ ((c ≡ b'_') ⊎ (c ≡ b'~')))))

-- Such bytes, one or more, with single dots between them
pub data IsDotted : Bytes → Type 0 where
  last : (c : ℕ) → IsNameByte c → IsDotted (c ∷ [])
  next : (c : ℕ) (s : Bytes) → IsNameByte c → IsDotted s → IsDotted (c ∷ s)
  dot : (c : ℕ) (s : Bytes) → IsNameByte c → IsDotted s → IsDotted (c ∷ b'.' ∷ s)

-- Such a name of at most 64 bytes that does not end in `.txt` or `.cgi`, in whatever case
pub record IsName (s : Bytes) : Type 0 where
  pub dotted : IsDotted s
  pub short : length s ≤ 64
  pub no_txt : ¬ EndsIn s (codes ".txt")
  pub no_cgi : ¬ EndsIn s (codes ".cgi")

is_target_rune-IsNameByte : (c : ℕ) → is_target_rune c ≡ true → c ≢ b'.' → IsNameByte c
unfolding is_target_rune
is_target_rune-IsNameByte c h n = ground arith

IsNameByte-is_target_rune : (c : ℕ) → IsNameByte c → is_target_rune c ≡ true
unfolding is_target_rune
IsNameByte-is_target_rune c h = ground arith

IsNameByte-ne_dot : (c : ℕ) → IsNameByte c → (c == b'.') ≡ false
IsNameByte-ne_dot c h = ground arith

contains_tail :
    (c : ℕ) (s : Bytes) → contains (c ∷ s) (codes "..") ≡ false → contains s (codes "..") ≡ false
unfolding contains
contains_tail c s k = ground arith

second_dot :
    (e : ℕ) (s : Bytes) → contains (b'.' ∷ e ∷ s) (codes "..") ≡ false → (e == b'.') ≡ false
unfolding contains has_prefix
second_dot e s k = ground arith

dotted :
    (c : ℕ) (s : Bytes)
    → All (λ b. is_target_rune b ≡ true) (c ∷ s)
    → contains (c ∷ s) (codes "..") ≡ false
    → (c == b'.') ≡ false
    → last_is b'.' (c ∷ s) ≡ false
    → IsDotted (c ∷ s)
dotted c [] (hc, _) k n l = last c (is_target_rune-IsNameByte c hc (λ e. ground arith))
dotted c (d ∷ []) (hc, (hd, _)) k n l =
    next c (d ∷ []) (is_target_rune-IsNameByte c hc (λ e. ground arith))
      (last d (is_target_rune-IsNameByte d hd (λ e. ground arith)))
dotted c (d ∷ e ∷ s) (hc, (hd, h)) k n l = elim (Bool-cases (d == b'.')) [
  | inl x ↦
      let same : d ≡ b'.' = ground arith in
      let rest = contains_tail d (e ∷ s) (contains_tail c (d ∷ e ∷ s) k) in
      rw same (
        dot c (e ∷ s) (is_target_rune-IsNameByte c hc (λ y. ground arith))
          (dotted e s h rest (second_dot e s (rw same at (contains_tail c (d ∷ e ∷ s) k))) l))
  | inr x ↦
      next c (d ∷ e ∷ s) (is_target_rune-IsNameByte c hc (λ y. ground arith))
        (dotted d (e ∷ s) (hd, h) (contains_tail c (d ∷ e ∷ s) k) x l)
]

IsDotted-bytes : (s : Bytes) → IsDotted s → All (λ c. is_target_rune c ≡ true) s
unfolding is_target_rune
IsDotted-bytes _ (last c h) = (IsNameByte-is_target_rune c h, tt)
IsDotted-bytes _ (next c s h d) = (IsNameByte-is_target_rune c h, IsDotted-bytes s d)
IsDotted-bytes _ (dot c s h d) = (IsNameByte-is_target_rune c h, (refl, IsDotted-bytes s d))

IsDotted-first : (s : Bytes) → IsDotted s → first_is b'.' s ≡ false
IsDotted-first _ (last c h) = IsNameByte-ne_dot c h
IsDotted-first _ (next c s h d) = IsNameByte-ne_dot c h
IsDotted-first _ (dot c s h d) = IsNameByte-ne_dot c h

last_is-cons : (c : ℕ) (s : Bytes) → IsDotted s → last_is b'.' (c ∷ s) ≡ last_is b'.' s
last_is-cons c _ (last d h) = refl
last_is-cons c _ (next d s h k) = refl
last_is-cons c _ (dot d s h k) = refl

IsDotted-last : (s : Bytes) → IsDotted s → last_is b'.' s ≡ false
IsDotted-last _ (last c h) = IsNameByte-ne_dot c h
IsDotted-last _ (next c s h d) = last_is-cons c s d ∙ IsDotted-last s d
IsDotted-last _ (dot c s h d) = last_is-cons b'.' s d ∙ IsDotted-last s d

first-has_prefix : (s : Bytes) → first_is b'.' s ≡ false → has_prefix s (codes ".") ≡ false
unfolding has_prefix
first-has_prefix [] h = refl
first-has_prefix (c ∷ s) h = ground arith

IsDotted-contains : (s : Bytes) → IsDotted s → contains s (codes "..") ≡ false
unfolding contains has_prefix
IsDotted-contains _ (last c h) = ground (arith, IsNameByte-ne_dot c h)
IsDotted-contains _ (next c s h d) = ground (arith, IsNameByte-ne_dot c h, IsDotted-contains s d)
IsDotted-contains _ (dot c s h d) =
    ground
      (arith, IsNameByte-ne_dot c h, first-has_prefix s (IsDotted-first s d), IsDotted-contains s d)

IsDotted-pos : (s : Bytes) → IsDotted s → 0 < length s
IsDotted-pos _ (last c h) = omega arith
IsDotted-pos _ (next c s h d) = omega arith
IsDotted-pos _ (dot c s h d) = omega arith

target_bytes-IsAscii : (s : Bytes) → All (λ c. is_target_rune c ≡ true) s → IsAscii s
target_bytes-IsAscii s h = All-map _ _ target_rune-lt s h
  where
    target_rune-lt : (c : ℕ) → is_target_rune c ≡ true → c < 0x80
    target_rune-lt c e = unfold is_target_rune in ground arith

-- A test that the converse of would make true
false_of : (b : Bool) → (b ≡ true → ⊥) → b ≡ false
false_of true h = absurd (h refl)
false_of false h = refl

IsTarget-IsName : (s : Bytes) → IsTarget s → IsName s
IsTarget-IsName [] h = absurd (omega (arith, h.pos))
IsTarget-IsName (c ∷ s) h =
    let ascii = target_bytes-IsAscii (c ∷ s) h.bytes in
    record {
      dotted = dotted c s h.bytes h.no_dots h.no_first_dot h.no_last_dot;
      short = h.short;
      no_txt = λ e.
          let bad =
            EndsIn-to_lower (c ∷ s) (codes ".txt") ascii (refl, (refl, (refl, (refl, tt)))) e in
          cc (bad, h.no_txt);
      no_cgi = λ e.
          let bad =
            EndsIn-to_lower (c ∷ s) (codes ".cgi") ascii (refl, (refl, (refl, (refl, tt)))) e in
          cc (bad, h.no_cgi);
    }

IsName-IsTarget : (s : Bytes) → IsName s → IsTarget s
IsName-IsTarget s h =
    let bytes = IsDotted-bytes s h.dotted in
    let ascii = target_bytes-IsAscii s bytes in
    record {
      pos = IsDotted-pos s h.dotted;
      short = h.short;
      bytes = bytes;
      no_dots = IsDotted-contains s h.dotted;
      no_first_dot = IsDotted-first s h.dotted;
      no_last_dot = IsDotted-last s h.dotted;
      no_txt = false_of _ (λ e. h.no_txt (to_lower-EndsIn s (codes ".txt") ascii e));
      no_cgi = false_of _ (λ e. h.no_cgi (to_lower-EndsIn s (codes ".cgi") ascii e));
    }

-- Under either protocol a token is accepted as a target exactly if it is a name of at most 64 bytes: of
-- letters, digits, `-`, `_` and `~` with single dots between them, that does not end in `.txt` or
-- `.cgi` in whatever case. The target is the token.
pub parse_target_iff :
    (p : Protocol) (token target : Bytes)
    → (parse_target token p ≡ some target) ↔ (IsName target × (token ≡ target))
parse_target_iff p token target = (
  λ h. let (t, same) = parse_target_sound p token target h in (IsTarget-IsName target t, same),
  λ h.
      ap (λ (t : Bytes). parse_target t p) h.1
      ∙ parse_target_complete p target (IsName-IsTarget target h.0),
)
