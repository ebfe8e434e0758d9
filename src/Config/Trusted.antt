-- ===== src/Config/Trusted.antt =====
-- The trusted proxies of a configuration that Load returns.
use fingered.Base.{
  ◌^◌, ◌≡◌, inl, inr, true, List, [], ◌∷◌, Option, none, some, Bytes, eqb, All, Option-cases,
  Bool-cases,
}
use fingered.Text.{split}
use fingered.Text.Trim.{trim_space}
use fingered.Addr.{Addr, is_valid}
use fingered.Addr.Parse.{parse_addr}
use fingered.Addr.Parse.Valid.{parse_addr-is_valid}
use fingered.Config.{
  Config, Key, default_config, bind_ip, port, doc_root, tpl_extend, tls_enable, tls_port, tls_cert,
  tls_key, tls_doc_root, tls_cgi_enable, read_timeout_ms, write_timeout_ms, max_request_bytes,
  cgi_timeout_ms, cgi_max_stdout_bytes, max_response_bytes, cgi_enable, tpl_wrapper, tpl_credits,
  log_root, log_group, log_umask, log_format, log_errors, log_requests, proxy_protocol,
  trusted_proxy_ips,
}
use fingered.Config.Apply.{
  ◌>>=◌, parse_positive_int, parse_millis, parse_yes_no, parse_tls_enable, parse_group, parse_ips,
  parse_trusted_ips, apply_value,
}
use fingered.Number.{parse_int}
use fingered.Config.Load.{File, loaded, load}
use fingered.Config.Settings.{apply_all}
use fingered.Config.Loaded.{load_iff}

abbrev pub AreValid : List Addr → Type 0
AreValid = All (λ ip. is_valid ip ≡ true)

-- No configuration, or one whose trusted proxies are valid
abbrev Keeps : Option Config → Type 0
Keeps none = Unit
Keeps (some c) = AreValid c.trusted_proxy_ips

bind-Keeps {ℓ} :
    {A : Type ℓ} (o : Option A) (f : A → Option Config) → ((a : A) → Keeps (f a)) → Keeps (o >>= f)
bind-Keeps none f h = tt
bind-Keeps (some a) f h = h a

-- None, or valid addresses
abbrev AreValidOrNone : Option (List Addr) → Type 0
AreValidOrNone none = Unit
AreValidOrNone (some ips) = AreValid ips

more-AreValidOrNone :
    (ip : Addr) (o : Option (List Addr))
    → is_valid ip ≡ true
    → AreValidOrNone o
    → AreValidOrNone (do ips ← o; some (ip ∷ ips))
more-AreValidOrNone ip none v h = tt
more-AreValidOrNone ip (some ips) v h = (v, h)

parse_ips-AreValidOrNone : (parts : List Bytes) → AreValidOrNone (parse_ips parts)
unfolding parse_ips
parse_ips-AreValidOrNone [] = tt
parse_ips-AreValidOrNone (part ∷ parts) = elim (Option-cases (parse_addr (trim_space part))) [
  | inl e ↦ rw e tt
  | inr (ip, e) ↦ rw e (
      more-AreValidOrNone ip (parse_ips parts) (parse_addr-is_valid (trim_space part) ip e)
        (parse_ips-AreValidOrNone parts))
]

parse_trusted_ips-AreValidOrNone : (v : Bytes) → AreValidOrNone (parse_trusted_ips v)
unfolding parse_trusted_ips
parse_trusted_ips-AreValidOrNone v = elim (Bool-cases (eqb (trim_space v) [])) [
  | inl e ↦ rw e tt
  | inr e ↦ rw e (parse_ips-AreValidOrNone (split v b','))
]

trusted-Keeps :
    (c : Config) (o : Option (List Addr))
    → AreValidOrNone o
    → Keeps (do ips ← o; some (record c { trusted_proxy_ips = ips }))
trusted-Keeps c none h = tt
trusted-Keeps c (some ips) h = h

apply_value-Keeps :
    (c : Config) (k : Key) (v : Bytes) → AreValid c.trusted_proxy_ips → Keeps (apply_value c k v)
unfolding apply_value
apply_value-Keeps c bind_ip v h = bind-Keeps (parse_addr v) _ (λ x. h)
apply_value-Keeps c port v h = bind-Keeps (parse_positive_int v) _ (λ x. h)
apply_value-Keeps c doc_root v h = h
apply_value-Keeps c tpl_extend v h = bind-Keeps (parse_yes_no v) _ (λ x. h)
apply_value-Keeps c tls_enable v h = bind-Keeps (parse_tls_enable v) _ (λ x. h)
apply_value-Keeps c tls_port v h = bind-Keeps (parse_positive_int v) _ (λ x. h)
apply_value-Keeps c tls_cert v h = h
apply_value-Keeps c tls_key v h = h
apply_value-Keeps c tls_doc_root v h = h
apply_value-Keeps c tls_cgi_enable v h = bind-Keeps (parse_yes_no v) _ (λ x. h)
apply_value-Keeps c read_timeout_ms v h = bind-Keeps (parse_millis v) _ (λ x. h)
apply_value-Keeps c write_timeout_ms v h = bind-Keeps (parse_millis v) _ (λ x. h)
apply_value-Keeps c max_request_bytes v h = bind-Keeps (parse_positive_int v) _ (λ x. h)
apply_value-Keeps c cgi_timeout_ms v h = bind-Keeps (parse_millis v) _ (λ x. h)
apply_value-Keeps c cgi_max_stdout_bytes v h = bind-Keeps (parse_positive_int v) _ (λ x. h)
apply_value-Keeps c max_response_bytes v h = bind-Keeps (parse_positive_int v) _ (λ x. h)
apply_value-Keeps c cgi_enable v h = bind-Keeps (parse_yes_no v) _ (λ x. h)
apply_value-Keeps c tpl_wrapper v h = bind-Keeps (parse_yes_no v) _ (λ x. h)
apply_value-Keeps c tpl_credits v h = bind-Keeps (parse_yes_no v) _ (λ x. h)
apply_value-Keeps c log_root v h = h
apply_value-Keeps c log_group v h = bind-Keeps (parse_group v) _ (λ x. h)
apply_value-Keeps c log_umask v h = bind-Keeps (parse_int 8 (2 ^ 31) v) _ (λ x. h)
apply_value-Keeps c log_format v h = h
apply_value-Keeps c log_errors v h = bind-Keeps (parse_yes_no v) _ (λ x. h)
apply_value-Keeps c log_requests v h = bind-Keeps (parse_yes_no v) _ (λ x. h)
apply_value-Keeps c proxy_protocol v h = bind-Keeps (parse_yes_no v) _ (λ x. h)
apply_value-Keeps c trusted_proxy_ips v h =
    trusted-Keeps c (parse_trusted_ips v) (parse_trusted_ips-AreValidOrNone v)

apply_all-Keeps :
    (c : Config) (settings : List (Key × Bytes))
    → AreValid c.trusted_proxy_ips
    → Keeps (apply_all c settings)
apply_all-Keeps c [] h = h
apply_all-Keeps c ((k, v) ∷ settings) h = elim (Option-cases (apply_value c k v)) [
  | inl e ↦ rw e tt
  | inr (d, e) ↦ rw e (apply_all-Keeps d settings (rw e at (apply_value-Keeps c k v h)))
]

-- Each trusted proxy of a configuration that Load returns is a valid address.
pub load-AreValid : (f : File) (c : Config) → load f ≡ loaded c → AreValid c.trusted_proxy_ips
load-AreValid f c h =
    let (lines, same, l) = (load_iff f c).0 h in
    rw l.applied at (apply_all-Keeps default_config l.settings tt)
