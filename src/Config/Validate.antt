-- ===== src/Config/Validate.antt =====
-- `Validate`: the checks in the source's order, and what holds when none of them fails.
use fingered.Base.{
  Bool, true, false, not, ◌&&◌, ◌||◌, List, [], ◌∷◌, Option, none, some, if◌then◌else◌, Bytes, eqb,
}
use fingered.Base.Int.{ℤ, pos, leb_ℤ, ltb_ℤ}
use fingered.FilePath.{is_abs}
use fingered.Addr.{is_valid}
use fingered.Config.{
  Config, log_format_rfc3164, log_format_rfc5424, tls_enable_no, tls_enable_yes_both,
  tls_enable_strict, tls_enabled,
}

-- The error of each check
pub data Problem : Type 0 where
  bind_ip_required port_range doc_root_relative tls_enable_unknown tls_doc_root_relative : Problem
  tls_port_range tls_cert_relative tls_key_relative tls_port_same : Problem
  max_request_bytes_zero cgi_max_stdout_bytes_zero max_response_bytes_zero timeouts_zero : Problem
  log_format_unknown log_root_relative log_group_empty trusted_proxy_ips_unset : Problem

abbrev pub is_port : ℤ → Bool
is_port n = not (ltb_ℤ n (pos 1) || ltb_ℤ (pos 65535) n)

abbrev pub is_abs_path : Bytes → Bool
is_abs_path path = not (eqb path [] || not (is_abs path))

abbrev pub is_nil {ℓ} : {A : Type ℓ} → List A → Bool
is_nil [] = true
is_nil (_ ∷ _) = false

-- The checks made when TLS is on
unfoldable pub validate_tls : Config → Option Problem
validate_tls c =
    if not (is_port c.tls_port)
    then some tls_port_range
    else if not (is_abs_path c.tls_cert)
    then some tls_cert_relative
    else if not (is_abs_path c.tls_key)
    then some tls_key_relative
    else if eqb c.tls_enable tls_enable_yes_both
        && (leb_ℤ c.tls_port c.port && leb_ℤ c.port c.tls_port)
    then some tls_port_same
    else none

-- The checks behind those of TLS
unfoldable pub validate_rest : Config → Option Problem
validate_rest c =
    if leb_ℤ c.max_request_bytes (pos 0)
    then some max_request_bytes_zero
    else if leb_ℤ c.cgi_max_stdout_bytes (pos 0)
    then some cgi_max_stdout_bytes_zero
    else if leb_ℤ c.max_response_bytes (pos 0)
    then some max_response_bytes_zero
    else if leb_ℤ c.read_timeout (pos 0)
        || leb_ℤ c.write_timeout (pos 0)
        || leb_ℤ c.cgi_timeout (pos 0)
    then some timeouts_zero
    else if not (eqb c.log_format log_format_rfc3164) && not (eqb c.log_format log_format_rfc5424)
    then some log_format_unknown
    else if (c.log_errors || c.log_requests) && not (is_abs_path c.log_root)
    then some log_root_relative
    else if eqb c.log_group []
    then some log_group_empty
    else if c.proxy_protocol && is_nil c.trusted_proxy_ips
    then some trusted_proxy_ips_unset
    else none

abbrev pub first_problem : Option Problem → Option Problem → Option Problem
first_problem (some p) rest = some p
first_problem none rest = rest

-- `none` for no error
unfoldable pub validate : Config → Option Problem
unfolding validate_tls validate_rest
validate c =
    if not (is_valid c.bind_ip)
    then some bind_ip_required
    else if not (is_port c.port)
    then some port_range
    else if not (is_abs_path c.doc_root)
    then some doc_root_relative
    else if not (eqb c.tls_enable tls_enable_no)
        && (not (eqb c.tls_enable tls_enable_yes_both) && not (eqb c.tls_enable tls_enable_strict))
    then some tls_enable_unknown
    else if not (eqb c.tls_doc_root []) && not (is_abs c.tls_doc_root)
    then some tls_doc_root_relative
    else first_problem (if tls_enabled c then validate_tls c else none) (validate_rest c)
