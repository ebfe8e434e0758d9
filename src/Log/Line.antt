-- ===== src/Log/Line.antt =====
-- `Error`, `Access` and `write`: one line for each call. The clock, the process and the text of an
-- address are parameters.
use fingered.Base.{ℕ, ◌+◌, [], ◌∷◌, ◌++◌, Option, none, some, if◌then◌else◌, Bytes, codes, eqb}
use fingered.Base.Int.{ℤ, pos}
use fingered.Number.{itoa}
use fingered.Addr.{Addr, is_valid}
use fingered.Config.{log_format_rfc3164}
use fingered.Log.Field.{sanitize_log}

-- `os.Hostname`, with `none` for an error
unfoldable pub hostname_or_dash : Option Bytes → Bytes
hostname_or_dash none = codes "-"
hostname_or_dash (some []) = codes "-"
hostname_or_dash (some (c ∷ host)) = sanitize_log (c ∷ host)

-- The fields of `Logger`, without the files
pub record Header : Type 0 where
  pub host : Bytes
  pub pid : ℤ
  pub format : Bytes

-- The time of the call in the two layouts, and `Addr.String`
pub record Texts : Type 0 where
  pub stamp_rfc3164 : Bytes
  pub stamp_rfc3339 : Bytes
  pub show : Addr → Bytes

unfoldable pub ip_or_dash : Texts → Addr → Bytes
ip_or_dash t addr = if is_valid addr then t.show addr else codes "-"

-- `<pri>`, with the facility 1
abbrev pub priority : ℕ → Bytes
priority severity = codes "<" ++ (itoa (pos (8 + severity)) ++ codes ">")

-- The line of `write` without its newline
unfoldable pub format_line : Header → Texts → ℕ → Bytes → Bytes → Bytes
format_line h t severity kind msg =
    if eqb h.format log_format_rfc3164
    then priority severity
      ++ (t.stamp_rfc3164
          ++ (codes " "
              ++ (h.host
                  ++ (codes " fingered["
                      ++ (itoa h.pid ++ (codes "]: " ++ (kind ++ (codes " " ++ msg))))))))
    else priority severity
      ++ (codes "1 "
          ++ (t.stamp_rfc3339
              ++ (codes " "
                  ++ (h.host
                      ++ (codes " fingered "
                          ++ (itoa h.pid ++ (codes " - - " ++ (kind ++ (codes " " ++ msg)))))))))

-- What both messages begin with
pub record Origin : Type 0 where
  pub protocol : Bytes
  pub port : ℤ
  pub client_ip : Addr
  pub peer_ip : Addr

abbrev pub origin_text : Texts → Origin → Bytes
origin_text t o =
    codes "protocol="
    ++ (sanitize_log o.protocol
        ++ (codes " port="
            ++ (itoa o.port
                ++ (codes " client_ip="
                    ++ (ip_or_dash t o.client_ip
                        ++ (codes " peer_ip=" ++ ip_or_dash t o.peer_ip))))))

unfoldable pub error_line : Header → Texts → Origin → Bytes → Bytes
error_line h t o summary =
    format_line h t 3 (codes "ERROR") (origin_text t o ++ (codes " msg=" ++ sanitize_log summary))
    ++ codes "\n"

unfoldable pub access_line : Header → Texts → Origin → Bytes → Bytes → ℤ → ℤ → Bytes
access_line h t o request outcome bytes_sent milliseconds =
    format_line h t 6 (codes "ACCESS") (
      origin_text t o
      ++ (codes " request="
          ++ (sanitize_log request
              ++ (codes " outcome="
                  ++ (sanitize_log outcome
                      ++ (codes " bytes="
                          ++ (itoa bytes_sent ++ (codes " duration_ms=" ++ itoa milliseconds))))))))
    ++ codes "\n"
