-- ===== src/Token.antt =====
-- internal/server/request.go: the characters, flags and targets of a request.
pub mod Flags
pub mod Target
pub mod Name
use fingered.Base.{
  ℕ, suc, Bool, true, false, not, ◌||◌, [], ◌∷◌, ◌++◌, Option, none, some, ltb, ◌==◌, within,
  if◌then◌else◌, Bytes, codes, length, take, drop, all,
}
use fingered.Text.{has_suffix, index_byte, contains, count_byte, to_lower}

-- The reason of an error is `errInvalidRequest` throughout, so a failed parse is `none`.
abbrev pub max_target_component_bytes : ℕ
max_target_component_bytes = 64

abbrev pub max_flag_name_bytes : ℕ
max_flag_name_bytes = 32

abbrev pub max_flag_value_bytes : ℕ
max_flag_value_bytes = 64

abbrev pub max_flags_per_request : ℕ
max_flags_per_request = 16

pub data Protocol : Type 0 where
  finger fingers : Protocol

pub record Flag : Type 0 where
  pub name : Bytes
  pub value : Bytes
  pub bare : Bool

unfoldable pub is_alpha_num : ℕ → Bool
is_alpha_num b = within b'a' b'z' b || within b'A' b'Z' b || within b'0' b'9' b

unfoldable pub is_flag_rune : ℕ → Bool
unfolding is_alpha_num
is_flag_rune b = is_alpha_num b || b == b'-' || b == b'_'

unfoldable pub is_target_rune : ℕ → Bool
unfolding is_alpha_num
is_target_rune b = is_alpha_num b || b == b'-' || b == b'_' || b == b'.' || b == b'~'

unfoldable pub valid_flag_name : Bytes → Bool
valid_flag_name s =
    if length s == 0 || ltb max_flag_name_bytes (length s) then false else all is_flag_rune s

unfoldable pub valid_flag_value : Bytes → Bool
valid_flag_value s =
    if length s == 0 || ltb max_flag_value_bytes (length s) then false else all is_flag_rune s

-- `s[0] == c`, of a text that is not empty
abbrev pub first_is : ℕ → Bytes → Bool
first_is c [] = false
first_is c (b ∷ s) = b == c

-- `s[len(s)-1] == c`, of a text that is not empty
abbrev pub last_is : ℕ → Bytes → Bool
last_is c [] = false
last_is c (b ∷ []) = b == c
last_is c (b ∷ d ∷ s) = last_is c (d ∷ s)

unfoldable pub valid_target_component : Bytes → Bool
valid_target_component s =
    let lower = to_lower s in
    if length s == 0 || ltb max_target_component_bytes (length s)
    then false
    else if has_suffix lower (codes ".txt") || has_suffix lower (codes ".cgi")
    then false
    else if first_is b'.' s || last_is b'.' s || contains s (codes "..")
    then false
    else all is_target_rune s

-- The two cases of the source's switch make the same tests.
unfoldable pub parse_target : Bytes → Protocol → Option Bytes
parse_target token finger =
    if contains token (codes "@") || not (valid_target_component token) then none else some token
parse_target token fingers =
    if contains token (codes "@")
    then none
    else if not (valid_target_component token)
    then none
    else some token

abbrev pub bare_flag : Bytes → Flag
bare_flag name = record { name = name; value = []; bare = true }

abbrev pub valued_flag : Bytes → Bytes → Flag
valued_flag name value = record { name = name; value = value; bare = false }

-- `parseFlag` after the test of the slash, on `token[1:]`
unfoldable pub parse_flag_body : Bytes → Option Flag
parse_flag_body body = if ltb 1 (count_byte body b'=') then none else elim (index_byte body b'=') [
  | some idx ↦
      if not (valid_flag_name (take idx body)) || not (valid_flag_value (drop (suc idx) body))
      then none
      else some (valued_flag (take idx body) (drop (suc idx) body))
  | none ↦ if not (valid_flag_name body) then none else some (bare_flag body)
]

unfoldable pub parse_flag : Bytes → Option Flag
unfolding parse_flag_body
parse_flag token =
    if ltb (length token) 2 || not (first_is b'/' token)
    then none
    else parse_flag_body (drop 1 token)

-- One part of the canonical request
abbrev pub flag_text : Flag → Bytes
flag_text f = if f.bare then b'/' ∷ f.name else b'/' ∷ (f.name ++ b'=' ∷ f.value)
