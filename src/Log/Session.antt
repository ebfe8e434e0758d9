-- ===== src/Log/Session.antt =====
-- internal/server/server.go and logger.go: the entries that one connection leaves in the logs. The
-- clock, the write to the connection and the message of a failed read are parameters.
use fingered.Base.{ℕ, ◌+◌, List, [], ◌∷◌, ◌++◌, Option, none, some, if◌then◌else◌, Bytes, codes}
use fingered.Base.Int.{ℤ}
use fingered.Addr.{Addr}
use fingered.Token.{Protocol, finger, fingers}
use fingered.Reader.{Ending, ReadError, read_ended, line_too_long}
use fingered.Content.Resolve.{
  ListenerMode, ContentError, not_opened, read_failed, not_clean, content_exceeds, cgi_timed_out,
  cgi_exceeds, no_executable, cgi_failed, cgi_reported, Outcome, hit, miss, cgi_hit, cgi_fail,
  invalid, Event, content_error, template_skipped,
}
use fingered.Connection.{
  Summary, proxy_read_failed, invalid_proxy_header, handshake_failed, Effect, summary_logged,
  event_logged, answered,
}
use fingered.Log.Field.{sanitize_log}
use fingered.Log.Line.{Header, Texts, Origin, error_line, access_line}
use fingered.Log.Open.{LogFiles}

-- `Logger`
pub record Logger : Type 0 where
  pub header : Header
  pub files : LogFiles

-- One write, to the file with that path
pub data Entry : Type 0 where
  in_errors in_access : Bytes → Bytes → Entry

-- `Error`, which writes nothing if that log is off
unfoldable pub log_error : Logger → Texts → Origin → Bytes → List Entry
log_error l t o summary = elim l.files.errors_file [
  | none ↦ []
  | some path ↦ in_errors path (error_line l.header t o summary) ∷ []
]

-- `Access`
unfoldable pub log_access : Logger → Texts → Origin → Bytes → Bytes → ℤ → ℤ → List Entry
log_access l t o request outcome bytes_sent milliseconds = elim l.files.access_file [
  | none ↦ []
  | some path ↦
      in_access path (access_line l.header t o request outcome bytes_sent milliseconds) ∷ []
]

-- What `conn.Write` returns
pub record Written : Type 0 where
  pub bytes_sent : ℤ
  pub error : Option Bytes

-- `clock` has the time of each entry, `milliseconds` what has passed when the answer is logged.
pub record Session : Type 0 where
  pub logger : Logger
  pub mode : ListenerMode
  pub peer : Addr
  pub clock : ℕ → Texts
  pub milliseconds : ℤ
  pub write : Bytes → Written
  pub read_message : Ending → Bytes

abbrev pub protocol_text : Protocol → Bytes
protocol_text finger = codes "finger"
protocol_text fingers = codes "fingers"

abbrev pub origin_of : Session → Addr → Origin
origin_of s client = record {
  protocol = protocol_text s.mode.protocol;
  port = s.mode.port;
  client_ip = client;
  peer_ip = s.peer;
}

abbrev pub read_error_text : Session → ReadError → Bytes
read_error_text s (read_ended e) = s.read_message e
read_error_text s line_too_long = codes "request line too long"

-- The summaries of `prepareConn`
abbrev pub summary_text : Session → Summary → Bytes
summary_text s (proxy_read_failed e) = codes "proxy header read failed: " ++ read_error_text s e
summary_text s invalid_proxy_header =
    if s.mode.tls
    then codes "invalid PROXY header on tls listener"
    else codes "invalid PROXY header on finger listener"
summary_text s (handshake_failed e) = codes "tls handshake failed: " ++ e

-- The messages of `loadStatic` and `runCGI`
abbrev pub error_text : ContentError → Bytes
error_text (not_opened e) = e
error_text (read_failed e) = e
error_text (not_clean e) = e
error_text content_exceeds = codes "content exceeds max_response_bytes"
error_text (cgi_timed_out pid) = codes "cgi timeout"
error_text cgi_exceeds = codes "cgi output exceeds cgi_max_stdout_bytes"
error_text (no_executable e) = e
error_text (cgi_failed e) = codes "cgi failed: " ++ e
error_text (cgi_reported stderr) = codes "cgi failed: " ++ sanitize_log stderr

-- `logContentError` and `logTemplateSkip`
abbrev pub event_text : Event → Bytes
event_text (content_error name e) = name ++ (codes ": " ++ error_text e)
event_text (template_skipped name) =
    codes "skipping " ++ (name ++ codes " wrapper: no valid template found")

abbrev pub outcome_text : Outcome → Bytes
outcome_text hit = codes "hit"
outcome_text miss = codes "miss"
outcome_text cgi_hit = codes "cgi_hit"
outcome_text cgi_fail = codes "cgi_fail"
outcome_text invalid = codes "invalid"

-- `write failed`, if the write did
abbrev pub log_write_error : Session → Texts → Addr → Option Bytes → List Entry
log_write_error s t client none = []
log_write_error s t client (some e) =
    log_error s.logger t (origin_of s client) (codes "write failed: " ++ e)

-- The entries of `writeAndLog`, at two times
unfoldable pub write_and_log : Session → Texts → Texts → Addr → Bytes → Bytes → Bytes → List Entry
write_and_log s t u client request outcome body =
    log_write_error s t client (s.write body).error
    ++ log_access s.logger u (origin_of s client) request outcome (s.write body).bytes_sent
        s.milliseconds

-- The entries of an effect. The summary is logged before the client is known.
abbrev pub entries_of : Session → ℕ → Effect → List Entry
entries_of s k (summary_logged summary) =
    log_error s.logger (s.clock k) (origin_of s s.peer) (summary_text s summary)
entries_of s k (event_logged client event) =
    log_error s.logger (s.clock k) (origin_of s client) (event_text event)
entries_of s k (answered client request outcome body) =
    write_and_log s (s.clock k) (s.clock (k + 1)) client request (outcome_text outcome) body

unfoldable pub entries : Session → ℕ → List Effect → List Entry
unfolding log_error log_access write_and_log
entries s k [] = []
entries s k (x ∷ xs) = entries_of s k x ++ entries s (k + 2) xs
