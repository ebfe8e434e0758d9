-- ===== src/Token/Target.antt =====
-- What an accepted target is.
use fingered.Base.{
  ℕ, ◌≤◌, ◌<◌, ◌≡◌, ◌≢◌, ap, true, false, [], some, arith, Bytes, length, All, All-of_all, Lacks,
  codes, All-map, all-of_All,
}
use fingered.Text.{is_ascii_space, contains, has_suffix, to_lower}
use fingered.Text.Laws.{Lacks-contains}
use fingered.Text.Pieces.{IsToken}
use fingered.Token.{
  is_target_rune, valid_target_component, parse_target, first_is, last_is, Protocol, finger,
  fingers,
}

-- One local file name: 1 to 64 letters, digits, `-`, `_`, `.` and `~`, with no dot at an end, no two
-- dots in a row, and no name of a text or CGI file, in whatever case.
pub record IsTarget (s : Bytes) : Type 0 where
  pub pos : 0 < length s
  pub short : length s ≤ 64
  pub bytes : All (λ c. is_target_rune c ≡ true) s
  pub no_dots : contains s (codes "..") ≡ false
  pub no_first_dot : first_is b'.' s ≡ false
  pub no_last_dot : last_is b'.' s ≡ false
  pub no_txt : has_suffix (to_lower s) (codes ".txt") ≡ false
  pub no_cgi : has_suffix (to_lower s) (codes ".cgi") ≡ false

pub valid_target_component-IsTarget : (s : Bytes) → valid_target_component s ≡ true → IsTarget s
unfolding valid_target_component
valid_target_component-IsTarget s h = record {
  pos = ground arith;
  short = ground arith;
  bytes = All-of_all _ is_target_rune (λ c e. e) s (ground arith);
  no_dots = ground arith;
  no_first_dot = ground arith;
  no_last_dot = ground arith;
  no_txt = ground arith;
  no_cgi = ground arith;
}

pub IsTarget-valid_target_component : (s : Bytes) → IsTarget s → valid_target_component s ≡ true
unfolding valid_target_component
IsTarget-valid_target_component s h = ground (
  arith,
  all-of_All _ is_target_rune (λ c e. e) s h.bytes,
  h.pos,
  h.short,
  h.no_dots,
  h.no_first_dot,
  h.no_last_dot,
  h.no_txt,
  h.no_cgi,
)

is_target_rune-ne :
    (c : ℕ)
    → is_target_rune c ≡ true
    → (c ≢ b'/') × (c ≢ b'@') × (is_ascii_space c ≡ false) × (b' ' < c) × (c < 0x7f)
unfolding is_target_rune
is_target_rune-ne c h =
    (λ e. ground arith, λ e. ground arith, ground arith, ground arith, ground arith)

module _ (s : Bytes) (h : IsTarget s) where
  pub IsTarget-Lacks_slash : Lacks b'/' s
  IsTarget-Lacks_slash = All-map _ _ (λ c e. (is_target_rune-ne c e).0) s h.bytes

  IsTarget-Lacks_at : Lacks b'@' s
  IsTarget-Lacks_at = All-map _ _ (λ c e. (is_target_rune-ne c e).1) s h.bytes

  -- The bytes are printable ASCII other than the space.
  pub IsTarget-printable : All (λ c. (b' ' < c) × (c < 0x7f)) s
  IsTarget-printable =
      All-map _ _ (λ c e. ((is_target_rune-ne c e).3, (is_target_rune-ne c e).4)) s h.bytes

  pub IsTarget-ne-nil : s ≢ []
  IsTarget-ne-nil e = absurd (omega (arith, h.pos, ap length e))

  pub IsTarget-IsToken : IsToken s
  IsTarget-IsToken = (IsTarget-ne-nil, All-map _ _ (λ c e. (is_target_rune-ne c e).2) s h.bytes)

pub parse_target_sound :
    (p : Protocol) (token target : Bytes)
    → parse_target token p ≡ some target
    → IsTarget target × (token ≡ target)
unfolding parse_target
parse_target_sound finger token target h =
    let valid : valid_target_component token ≡ true = ground arith in
    let same : token ≡ target = ground arith in
    (rw (← same) (valid_target_component-IsTarget token valid), same)
parse_target_sound fingers token target h =
    let valid : valid_target_component token ≡ true = ground arith in
    let same : token ≡ target = ground arith in
    (rw (← same) (valid_target_component-IsTarget token valid), same)

pub parse_target_complete : (p : Protocol) (s : Bytes) → IsTarget s → parse_target s p ≡ some s
unfolding parse_target
parse_target_complete finger s h =
    ground
      (arith, IsTarget-valid_target_component s h, Lacks-contains s b'@' (IsTarget-Lacks_at s h))
parse_target_complete fingers s h =
    ground
      (arith, IsTarget-valid_target_component s h, Lacks-contains s b'@' (IsTarget-Lacks_at s h))
