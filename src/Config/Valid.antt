-- ===== src/Config/Valid.antt =====
-- What `Validate` accepts: the configurations of the record below, and no others.
use fingered.Base.{
  ◌≡◌, ◌≢◌, ◌↔◌, ◌⊎◌, Bool, true, false, not, ◌&&◌, ◌||◌, List, [], ◌∷◌, Option, none, some,
  if◌then◌else◌, Bytes, eqb, eqb_iff, arith,
}
use fingered.Base.Int.{ℤ, pos, leb_ℤ, ◌≤ℤ◌}
use fingered.FilePath.{is_abs}
use fingered.Text.{has_prefix}
use fingered.Addr.{is_valid}
use fingered.Config.{
  Config, log_format_rfc3164, log_format_rfc5424, tls_enable_no, tls_enable_yes_both,
  tls_enable_strict, tls_enabled,
}
use fingered.Config.Validate.{
  Problem, is_port, is_abs_path, is_nil, validate_tls, validate_rest, first_problem, validate,
}

abbrev pub IsPort : ℤ → Type 0
IsPort n = (pos 1 ≤ℤ n) × (n ≤ℤ pos 65535)

-- What TLS needs when it is on
pub record IsTls (c : Config) : Type 0 where
  pub tls_port : IsPort c.tls_port
  pub tls_cert : is_abs c.tls_cert ≡ true
  pub tls_key : is_abs c.tls_key ≡ true
  pub two_ports : c.tls_enable ≡ tls_enable_yes_both → c.tls_port ≢ c.port

pub record IsBounded (c : Config) : Type 0 where
  pub max_request_bytes : pos 1 ≤ℤ c.max_request_bytes
  pub cgi_max_stdout_bytes : pos 1 ≤ℤ c.cgi_max_stdout_bytes
  pub max_response_bytes : pos 1 ≤ℤ c.max_response_bytes
  pub read_timeout : pos 1 ≤ℤ c.read_timeout
  pub write_timeout : pos 1 ≤ℤ c.write_timeout
  pub cgi_timeout : pos 1 ≤ℤ c.cgi_timeout
  pub log_format : (c.log_format ≡ log_format_rfc3164) ⊎ (c.log_format ≡ log_format_rfc5424)
  pub log_root : (c.log_errors || c.log_requests) ≡ true → is_abs c.log_root ≡ true
  pub log_group : c.log_group ≢ []
  pub trusted_proxy_ips : c.proxy_protocol ≡ true → c.trusted_proxy_ips ≢ []

pub record IsValidConfig (c : Config) : Type 0 where
  pub bind_ip : is_valid c.bind_ip ≡ true
  pub port : IsPort c.port
  pub doc_root : is_abs c.doc_root ≡ true
  pub tls_enable :
      (c.tls_enable ≡ tls_enable_no)
      ⊎ ((c.tls_enable ≡ tls_enable_yes_both) ⊎ (c.tls_enable ≡ tls_enable_strict))
  pub tls_doc_root : c.tls_doc_root ≢ [] → is_abs c.tls_doc_root ≡ true
  pub tls : tls_enabled c ≡ true → IsTls c
  pub bounded : IsBounded c

-- One check of the chain
check_iff :
    (b : Bool) (p : Problem) (rest : Option Problem)
    → ((if b then some p else rest) ≡ none) ↔ ((b ≡ false) × (rest ≡ none))
check_iff b p rest = ground arith

-- The first five checks of `Validate`, with the others as `rest`
five_checks :
    (a b c d e : Bool) (p q r s t : Problem) (rest : Option Problem)
    → (if a
        then some p
        else if b
        then some q
        else if c
        then some r
        else if d
        then some s
        else if e
        then some t
        else rest)
      ≡ none
    → (a ≡ false) × (b ≡ false) × (c ≡ false) × (d ≡ false) × (e ≡ false) × (rest ≡ none)
five_checks a b c d e p q r s t rest h =
    (ground arith, ground arith, ground arith, ground arith, ground arith, ground arith)

first_problem_iff :
    (b : Bool) (o rest : Option Problem)
    → (first_problem (if b then o else none) rest ≡ none) ↔ ((b ≡ true → o ≡ none) × (rest ≡ none))
first_problem_iff true none rest = ground arith
first_problem_iff true (some p) rest = ground arith
first_problem_iff false o rest = ground arith

not-false : (b : Bool) → not b ≡ false → b ≡ true
not-false b h = ground arith

unset_or_abs :
    (path : Bytes)
    → (not (eqb path []) && not (is_abs path)) ≡ false
    → path ≢ []
    → is_abs path ≡ true
unset_or_abs path h set = ground (arith, eqb_iff path [])

is_port_iff : (n : ℤ) → (not (is_port n) ≡ false) ↔ IsPort n
is_port_iff n = ground arith

is_abs_path_iff : (path : Bytes) → (not (is_abs_path path) ≡ false) ↔ (is_abs path ≡ true)
unfolding eqb is_abs has_prefix
is_abs_path_iff [] = ground arith
is_abs_path_iff (c ∷ path) = ground arith

positive_iff : (n : ℤ) → (leb_ℤ n (pos 0) ≡ false) ↔ (pos 1 ≤ℤ n)
positive_iff n = ground arith

same_port_iff : (a b : ℤ) → ((leb_ℤ a b && leb_ℤ b a) ≡ true) ↔ (a ≡ b)
same_port_iff a b = ground arith

is_nil_iff {ℓ} : {A : Type ℓ} (xs : List A) → (is_nil xs ≡ false) ↔ (xs ≢ [])
is_nil_iff [] = ground arith
is_nil_iff (x ∷ xs) = ground arith

eqb-false_iff : (s t : Bytes) → (eqb s t ≡ false) ↔ (s ≢ t)
eqb-false_iff s t = ground (arith, eqb_iff s t)

pub validate_rest_iff : (c : Config) → (validate_rest c ≡ none) ↔ IsBounded c
unfolding validate_rest
validate_rest_iff c = (
  λ h. record {
    max_request_bytes = ground arith;
    cgi_max_stdout_bytes = ground arith;
    max_response_bytes = ground arith;
    read_timeout = ground arith;
    write_timeout = ground arith;
    cgi_timeout = ground arith;
    log_format =
        ground
          (arith, eqb_iff c.log_format log_format_rfc3164, eqb_iff c.log_format log_format_rfc5424);
    log_root = ground (arith, is_abs_path_iff c.log_root);
    log_group = ground (arith, eqb-false_iff c.log_group []);
    trusted_proxy_ips = ground (arith, is_nil_iff c.trusted_proxy_ips);
  },
  λ b. ground (
    arith,
    b.log_format,
    eqb_iff c.log_format log_format_rfc3164,
    eqb_iff c.log_format log_format_rfc5424,
    is_abs_path_iff c.log_root,
    eqb-false_iff c.log_group [],
    is_nil_iff c.trusted_proxy_ips,
  ),
)

mode_known :
    (mode : Bytes)
    → (not (eqb mode tls_enable_no)
        && (not (eqb mode tls_enable_yes_both) && not (eqb mode tls_enable_strict)))
      ≡ false
    → (mode ≡ tls_enable_no) ⊎ ((mode ≡ tls_enable_yes_both) ⊎ (mode ≡ tls_enable_strict))
mode_known mode h = ground (
  arith,
  eqb_iff mode tls_enable_no,
  eqb_iff mode tls_enable_yes_both,
  eqb_iff mode tls_enable_strict,
)

pub validate_tls_iff : (c : Config) → (validate_tls c ≡ none) ↔ IsTls c
unfolding validate_tls
validate_tls_iff c = (
  λ h. record {
    tls_port = ground arith;
    tls_cert = ground (arith, is_abs_path_iff c.tls_cert);
    tls_key = ground (arith, is_abs_path_iff c.tls_key);
    two_ports =
        ground (arith, eqb_iff c.tls_enable tls_enable_yes_both, same_port_iff c.tls_port c.port);
  },
  λ t. ground (
    arith,
    is_abs_path_iff c.tls_cert,
    is_abs_path_iff c.tls_key,
    eqb_iff c.tls_enable tls_enable_yes_both,
    same_port_iff c.tls_port c.port,
  ),
)

-- Validate returns no error exactly if the address is valid, the port and, with TLS, its port are in
-- 1 to 65535 and differ when both listen, the paths that are needed are absolute, the modes of TLS
-- and of the log are known ones, every size and timeout is positive, the log group is not empty, and
-- a proxy that may speak for a client is named where the PROXY protocol is on.
pub validate_iff : (c : Config) → (validate c ≡ none) ↔ IsValidConfig c
unfolding validate
validate_iff c = (
  λ h.
      let (ip, port, root, mode, tls_root, rest) = five_checks _ _ _ _ _ _ _ _ _ _ _ h in
      let (on, bounded) =
        (first_problem_iff (tls_enabled c) (validate_tls c) (validate_rest c)).0 rest in
      record {
        bind_ip = not-false (is_valid c.bind_ip) ip;
        port = (is_port_iff c.port).0 port;
        doc_root = (is_abs_path_iff c.doc_root).0 root;
        tls_enable = mode_known c.tls_enable mode;
        tls_doc_root = unset_or_abs c.tls_doc_root tls_root;
        tls = λ e. (validate_tls_iff c).0 (on e);
        bounded = (validate_rest_iff c).0 bounded;
      },
  λ v. ground (
    arith,
    is_abs_path_iff c.doc_root,
    eqb_iff c.tls_enable tls_enable_no,
    eqb_iff c.tls_enable tls_enable_yes_both,
    eqb_iff c.tls_enable tls_enable_strict,
    eqb_iff c.tls_doc_root [],
    (first_problem_iff (tls_enabled c) (validate_tls c) (validate_rest c)).1
        (λ on. (validate_tls_iff c).1 (v.tls on), (validate_rest_iff c).1 v.bounded),
  ),
)
