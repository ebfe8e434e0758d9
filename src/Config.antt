-- ===== src/Config.antt =====
-- internal/config/config.go: the configuration and its keys. `Apply` stores a value, `Load` reads a
-- file, `Validate` checks the result. A Go int is a 64-bit integer, and a duration counts nanoseconds.
pub mod Apply
pub mod Validate
pub mod Valid
pub mod Load
pub mod Settings
pub mod Loaded
pub mod Trusted
use fingered.Base.{
  ℕ, ◌*◌, Bool, true, false, not, List, [], ◌∷◌, Bytes, codes, eqb, if◌then◌else◌, Option, none,
  some,
}
use fingered.Base.Int.{ℤ, pos}
use fingered.Addr.{Addr, invalid}

pub record Config : Type 0 where
  pub bind_ip : Addr
  pub port : ℤ
  pub doc_root : Bytes
  pub extend_finger : Bool
  pub tls_enable : Bytes
  pub tls_port : ℤ
  pub tls_cert : Bytes
  pub tls_key : Bytes
  pub tls_doc_root : Bytes
  pub tls_cgi_enable : Bool
  pub tls_cgi_enable_set : Bool
  pub read_timeout : ℤ
  pub write_timeout : ℤ
  pub max_request_bytes : ℤ
  pub cgi_timeout : ℤ
  pub cgi_max_stdout_bytes : ℤ
  pub max_response_bytes : ℤ
  pub cgi_enable : Bool
  pub tpl_enable : Bool
  pub credits_enable : Bool
  pub log_root : Bytes
  pub log_group : Bytes
  pub log_umask : ℤ
  pub log_format : Bytes
  pub log_errors : Bool
  pub log_requests : Bool
  pub proxy_protocol : Bool
  pub trusted_proxy_ips : List Addr

abbrev pub log_format_rfc3164 : Bytes
log_format_rfc3164 = codes "rfc3164"

abbrev pub log_format_rfc5424 : Bytes
log_format_rfc5424 = codes "rfc5424"

abbrev pub tls_enable_no : Bytes
tls_enable_no = codes "no"

abbrev pub tls_enable_yes_both : Bytes
tls_enable_yes_both = codes "yes_both"

abbrev pub tls_enable_strict : Bytes
tls_enable_strict = codes "yes_strict"

-- `time.Second` and `time.Millisecond`
abbrev pub second : ℕ
second = 1_000_000_000

abbrev pub millisecond : ℕ
millisecond = 1_000_000

-- `Default()`; the fields that it does not name have their zero values.
abbrev pub default_config : Config
default_config = record {
  bind_ip = invalid;
  port = pos 0;
  doc_root = [];
  extend_finger = false;
  tls_enable = tls_enable_no;
  tls_port = pos 8179;
  tls_cert = [];
  tls_key = [];
  tls_doc_root = [];
  tls_cgi_enable = false;
  tls_cgi_enable_set = false;
  read_timeout = pos second;
  write_timeout = pos second;
  max_request_bytes = pos 256;
  cgi_timeout = pos second;
  cgi_max_stdout_bytes = pos 262144;
  max_response_bytes = pos 262144;
  cgi_enable = false;
  tpl_enable = false;
  credits_enable = true;
  log_root = codes "/home/finger/logs/fingered/";
  log_group = codes "finger";
  log_umask = pos 0o007;
  log_format = log_format_rfc5424;
  log_errors = true;
  log_requests = false;
  proxy_protocol = false;
  trusted_proxy_ips = [];
}

-- The keys of the file, in the order of `allowed`
pub data Key : Type 0 where
  bind_ip port doc_root tpl_extend tls_enable tls_port tls_cert tls_key tls_doc_root : Key
  tls_cgi_enable read_timeout_ms write_timeout_ms max_request_bytes cgi_timeout_ms : Key
  cgi_max_stdout_bytes max_response_bytes cgi_enable tpl_wrapper tpl_credits log_root : Key
  log_group log_umask log_format log_errors log_requests proxy_protocol trusted_proxy_ips : Key

abbrev pub allowed : List (Bytes × Key)
allowed =
    (codes "bind_ip", bind_ip)
    ∷ (codes "port", port)
    ∷ (codes "doc_root", doc_root)
    ∷ (codes "tpl_extend", tpl_extend)
    ∷ (codes "tls_enable", tls_enable)
    ∷ (codes "tls_port", tls_port)
    ∷ (codes "tls_cert", tls_cert)
    ∷ (codes "tls_key", tls_key)
    ∷ (codes "tls_doc_root", tls_doc_root)
    ∷ (codes "tls_cgi_enable", tls_cgi_enable)
    ∷ (codes "read_timeout_ms", read_timeout_ms)
    ∷ (codes "write_timeout_ms", write_timeout_ms)
    ∷ (codes "max_request_bytes", max_request_bytes)
    ∷ (codes "cgi_timeout_ms", cgi_timeout_ms)
    ∷ (codes "cgi_max_stdout_bytes", cgi_max_stdout_bytes)
    ∷ (codes "max_response_bytes", max_response_bytes)
    ∷ (codes "cgi_enable", cgi_enable)
    ∷ (codes "tpl_wrapper", tpl_wrapper)
    ∷ (codes "tpl_credits", tpl_credits)
    ∷ (codes "log_root", log_root)
    ∷ (codes "log_group", log_group)
    ∷ (codes "log_umask", log_umask)
    ∷ (codes "log_format", log_format)
    ∷ (codes "log_errors", log_errors)
    ∷ (codes "log_requests", log_requests)
    ∷ (codes "proxy_protocol", proxy_protocol)
    ∷ (codes "trusted_proxy_ips", trusted_proxy_ips)
    ∷ []

unfoldable pub find_key : List (Bytes × Key) → Bytes → Option Key
find_key [] name = none
find_key ((text, k) ∷ ks) name = if eqb text name then some k else find_key ks name

unfoldable pub tls_enabled : Config → Bool
tls_enabled c = not (eqb c.tls_enable tls_enable_no)

unfoldable pub plain_enabled : Config → Bool
plain_enabled c = not (eqb c.tls_enable tls_enable_strict)

unfoldable pub effective_tls_doc_root : Config → Bytes
effective_tls_doc_root c = if not (eqb c.tls_doc_root []) then c.tls_doc_root else c.doc_root

unfoldable pub effective_tls_cgi_enable : Config → Bool
effective_tls_cgi_enable c = if c.tls_cgi_enable_set then c.tls_cgi_enable else c.cgi_enable
