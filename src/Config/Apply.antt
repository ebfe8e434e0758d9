-- ===== src/Config/Apply.antt =====
-- `applyValue` and the parsers of values. An error is `none`; `Load` adds the key and the line to it.
use fingered.Base.{
  ◌^◌, Bool, true, false, ◌||◌, List, [], ◌∷◌, Option, none, some, if◌then◌else◌, Bytes, codes, eqb,
}
use fingered.Base.Int.{ℤ, pos, leb_ℤ, mul64}
use fingered.Text.{to_lower, contains_any, split}
use fingered.Text.Trim.{trim_space}
use fingered.Number.{atoi, parse_int}
use fingered.FilePath.{clean}
use fingered.Addr.{Addr}
use fingered.Addr.Parse.{parse_addr}
use fingered.Config.{
  Config, Key, bind_ip, port, doc_root, tpl_extend, tls_enable, tls_port, tls_cert, tls_key,
  tls_doc_root, tls_cgi_enable, read_timeout_ms, write_timeout_ms, max_request_bytes,
  cgi_timeout_ms, cgi_max_stdout_bytes, max_response_bytes, cgi_enable, tpl_wrapper, tpl_credits,
  log_root, log_group, log_umask, log_format, log_errors, log_requests, proxy_protocol,
  trusted_proxy_ips, tls_enable_no, tls_enable_yes_both, tls_enable_strict, millisecond,
}

infixl 5 ◌>>=◌
abbrev pub ◌>>=◌ {ℓ κ} : {A : Type ℓ} {B : Type κ} → Option A → (A → Option B) → Option B
none >>= f = none
some a >>= f = f a

unfoldable pub parse_positive_int : Bytes → Option ℤ
parse_positive_int value = do n ← atoi value; if leb_ℤ n (pos 0) then none else some n

-- `time.Duration(n) * time.Millisecond` wraps around.
unfoldable pub parse_millis : Bytes → Option ℤ
parse_millis value = do n ← parse_positive_int value; some (mul64 n millisecond)

unfoldable pub parse_yes_no : Bytes → Option Bool
parse_yes_no value =
    let word = to_lower (trim_space value) in
    if eqb word (codes "yes") then some true else if eqb word (codes "no") then some false else none

unfoldable pub parse_tls_enable : Bytes → Option Bytes
parse_tls_enable value =
    let word = to_lower (trim_space value) in
    if eqb word tls_enable_no
    then some tls_enable_no
    else if eqb word tls_enable_yes_both
    then some tls_enable_yes_both
    else if eqb word tls_enable_strict
    then some tls_enable_strict
    else none

unfoldable pub parse_group : Bytes → Option Bytes
parse_group value =
    let group = trim_space value in
    if eqb group [] || contains_any group (codes " \t\r\n") then none else some group

-- The addresses of a list of texts
unfoldable pub parse_ips : List Bytes → Option (List Addr)
parse_ips [] = some []
parse_ips (part ∷ parts) = do
  ip ← parse_addr (trim_space part)
  ips ← parse_ips parts
  some (ip ∷ ips)

unfoldable pub parse_trusted_ips : Bytes → Option (List Addr)
unfolding parse_ips
parse_trusted_ips value =
    if eqb (trim_space value) [] then some [] else parse_ips (split value b',')

unfoldable pub apply_value : Config → Key → Bytes → Option Config
apply_value c bind_ip v = do ip ← parse_addr v; some (record c { bind_ip = ip })
apply_value c port v = do n ← parse_positive_int v; some (record c { port = n })
apply_value c doc_root v = some (record c { doc_root = clean v })
apply_value c tpl_extend v = do b ← parse_yes_no v; some (record c { extend_finger = b })
apply_value c tls_enable v = do mode ← parse_tls_enable v; some (record c { tls_enable = mode })
apply_value c tls_port v = do n ← parse_positive_int v; some (record c { tls_port = n })
apply_value c tls_cert v = some (record c { tls_cert = clean v })
apply_value c tls_key v = some (record c { tls_key = clean v })
apply_value c tls_doc_root v = some (record c { tls_doc_root = clean v })
apply_value c tls_cgi_enable v = do
  b ← parse_yes_no v
  some (record c { tls_cgi_enable = b; tls_cgi_enable_set = true })
apply_value c read_timeout_ms v = do d ← parse_millis v; some (record c { read_timeout = d })
apply_value c write_timeout_ms v = do d ← parse_millis v; some (record c { write_timeout = d })
apply_value c max_request_bytes v = do
  n ← parse_positive_int v
  some (record c { max_request_bytes = n })
apply_value c cgi_timeout_ms v = do d ← parse_millis v; some (record c { cgi_timeout = d })
apply_value c cgi_max_stdout_bytes v = do
  n ← parse_positive_int v
  some (record c { cgi_max_stdout_bytes = n })
apply_value c max_response_bytes v = do
  n ← parse_positive_int v
  some (record c { max_response_bytes = n })
apply_value c cgi_enable v = do b ← parse_yes_no v; some (record c { cgi_enable = b })
apply_value c tpl_wrapper v = do b ← parse_yes_no v; some (record c { tpl_enable = b })
apply_value c tpl_credits v = do b ← parse_yes_no v; some (record c { credits_enable = b })
apply_value c log_root v = some (record c { log_root = clean v })
apply_value c log_group v = do group ← parse_group v; some (record c { log_group = group })
apply_value c log_umask v = do n ← parse_int 8 (2 ^ 31) v; some (record c { log_umask = n })
apply_value c log_format v = some (record c { log_format = to_lower v })
apply_value c log_errors v = do b ← parse_yes_no v; some (record c { log_errors = b })
apply_value c log_requests v = do b ← parse_yes_no v; some (record c { log_requests = b })
apply_value c proxy_protocol v = do b ← parse_yes_no v; some (record c { proxy_protocol = b })
apply_value c trusted_proxy_ips v = do
  ips ← parse_trusted_ips v
  some (record c { trusted_proxy_ips = ips })
