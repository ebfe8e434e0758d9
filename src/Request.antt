-- ===== src/Request.antt =====
-- internal/server/request.go: a request line is split into flags and a target.
pub mod Invariant
pub mod Sound
pub mod Plain
pub mod Accepted
pub mod Canonical
pub mod Rebuilt
pub mod RoundTrip
use fingered.Base.{
  ℕ, Bool, true, false, not, ◌||◌, List, [], ◌∷◌, ◌++◌, Option, none, some, ltb, leb, ◌==◌,
  if◌then◌else◌, Bytes, codes, eqb, length, drop, all,
}
use fingered.Text.{has_prefix, has_suffix, trim_suffix, fields, join}
use fingered.Text.Trim.{trim_space}
use fingered.Utf8.{runes, valid}
use fingered.Token.{
  max_flags_per_request, Protocol, finger, fingers, Flag, valid_target_component, parse_target,
  parse_flag, flag_text,
}

abbrev pub invalid_request_body : Bytes
invalid_request_body = codes "Error: Invalid Request\r\n"

abbrev pub no_content_body : Bytes
no_content_body = codes "Error: No content configured for this request.\r\n"

abbrev pub credits_body : Bytes
credits_body = codes "\r\n_____________________________\r\nfinger://lanterns.io/fingered\r\n"

pub record Request : Type 0 where
  pub raw : Bytes
  pub canonical : Bytes
  pub target : Bytes
  pub flags : List Flag

unfoldable pub trim_line_ending : Bytes → Bytes
trim_line_ending s = trim_suffix (trim_suffix s (codes "\n")) (codes "\r")

-- `seenFlags[name]`: the names of the flags kept so far
unfoldable pub seen : Bytes → List Flag → Bool
seen name [] = false
seen name (f ∷ fs) = eqb name f.name || seen name fs

-- What the loop over the tokens holds: `req.Flags` and `targetToken`.
pub record Scan : Type 0 where
  pub flags : List Flag
  pub target_token : Bytes

-- The duplicate test, the limit and the append for a token that is a flag
unfoldable pub add_flag : Scan → Flag → Option Scan
unfolding seen
add_flag st flag =
    if seen flag.name st.flags
    then some st
    else if leb max_flags_per_request (length st.flags)
    then none
    else some (record st { flags = st.flags ++ flag ∷ [] })

-- `len(tokens) == 0`
abbrev pub is_empty {ℓ} : {A : Type ℓ} → List A → Bool
is_empty [] = true
is_empty (_ ∷ _) = false

infixl 5 ◌>>=◌
abbrev pub ◌>>=◌ {ℓ κ} : {A : Type ℓ} {B : Type κ} → Option A → (A → Option B) → Option B
none >>= f = none
some a >>= f = f a

-- One round of the loop over the tokens
unfoldable pub scan_token : Scan → Bytes → Option Scan
unfolding add_flag parse_flag
scan_token st token =
    if has_prefix token (codes "/")
    then (if not (eqb st.target_token []) then none else (parse_flag token >>= add_flag st))
    else if not (eqb st.target_token [])
    then none
    else some (record st { target_token = token })

unfoldable pub scan_tokens : Scan → List Bytes → Option Scan
unfolding scan_token
scan_tokens st [] = some st
scan_tokens st (token ∷ tokens) = scan_token st token >>= λ st'. scan_tokens st' tokens

unfoldable pub canonical_parts : List Flag → Bytes → List Bytes
canonical_parts [] target = if not (eqb target []) then target ∷ [] else []
canonical_parts (f ∷ fs) target = flag_text f ∷ canonical_parts fs target

unfoldable pub build_canonical_request : List Flag → Bytes → Bytes
unfolding canonical_parts
build_canonical_request flags target = join (canonical_parts flags target) (codes " ")

-- `switch { case r == ' ': continue; case r < 0x21 || r > 0x7e: return false }`
abbrev pub valid_request_rune : ℕ → Bool
valid_request_rune r = r == b' ' || not (ltb r 0x21 || ltb 0x7e r)

unfoldable pub valid_request_runes : Bytes → Bool
valid_request_runes line = all valid_request_rune (runes line)

-- The end of `parseStructuredRequest`: the target token, if there is one, is checked.
unfoldable pub finish_request : Bytes → Protocol → Scan → Option Request
finish_request line protocol st =
    (if not (eqb st.target_token []) then parse_target st.target_token protocol else some [])
    >>= λ target. some (record {
      raw = line;
      canonical = build_canonical_request st.flags target;
      target = target;
      flags = st.flags;
    })

abbrev pub no_tokens : Scan
no_tokens = record { flags = []; target_token = [] }

unfoldable pub parse_structured_request : Bytes → Protocol → Option Request
unfolding finish_request scan_tokens
parse_structured_request line protocol =
    if not (valid_request_runes line)
    then none
    else if is_empty (fields line)
    then none
    else (scan_tokens no_tokens (fields line) >>= finish_request line protocol)

abbrev pub empty_request : Request
empty_request = record { raw = []; canonical = []; target = []; flags = [] }

-- The end of `parseFingerRequest`, with the target and the canonical form of the line
unfoldable pub plain_request : Bytes → Bytes → Bytes → Option Request
plain_request line target canonical =
    if not (valid_target_component target)
    then none
    else some (record { raw = line; canonical = canonical; target = target; flags = [] })

unfoldable pub parse_plain_line : Bytes → Option Request
unfolding plain_request
parse_plain_line line =
    if eqb line (codes "/W")
    then some (record { raw = line; canonical = codes "/W"; target = []; flags = [] })
    else if has_prefix line (codes "/W")
    then (if not (has_prefix line (codes "/W "))
        then none
        else if eqb (drop 3 line) [] || not (eqb (trim_space (drop 3 line)) (drop 3 line))
        then none
        else plain_request line (drop 3 line) (codes "/W " ++ drop 3 line))
    else plain_request line line line

unfoldable pub parse_finger_request : Bytes → Bool → Option Request
unfolding parse_plain_line
parse_finger_request raw_line extend_finger =
    let line = trim_line_ending raw_line in
    if eqb line []
    then some empty_request
    else if extend_finger
    then parse_structured_request line finger
    else parse_plain_line line

unfoldable pub parse_fingers_request : Bytes → Option Request
parse_fingers_request raw_line =
    let line = trim_suffix raw_line (codes "\r\n") in
    if not (has_suffix raw_line (codes "\r\n"))
    then none
    else if not (valid line)
    then none
    else if eqb line []
    then some empty_request
    else parse_structured_request line fingers

unfoldable pub parse_request : Bytes → Protocol → Bool → Option Request
parse_request raw_line finger extend_finger = parse_finger_request raw_line extend_finger
parse_request raw_line fingers extend_finger = parse_fingers_request raw_line
