-- ===== src/Connection.antt =====
-- internal/server/server.go: one connection from its first byte to its response. The deadlines, the
-- TLS handshake and the bytes that arrive are parameters; what the handler does is a list of effects.
pub mod Client
pub mod Answer
pub mod Served
pub mod Peer
use fingered.Base.{
  ℕ, Bool, true, false, not, ◌&&◌, List, [], ◌∷◌, ◌++◌, Option, none, some, if◌then◌else◌, Bytes,
  map, Result, ok, err,
}
use fingered.Base.Int.{pos}
use fingered.Addr.{Addr}
use fingered.Proxy.{parse_proxy_line, is_trusted_proxy}
use fingered.Reader.{
  Reader, ReadError, read_ended, line_too_long, end_of_file, timed_out, failed, LineRead, read_line,
  Discarded, discard_line,
}
use fingered.Request.{Request, invalid_request_body, trim_line_ending, parse_request}
use fingered.Config.{Config}
use fingered.Content.Resolve.{World, ListenerMode, Outcome, invalid, Event}
use fingered.Content.Response.{Content, build_valid_response}

-- The connection as the server meets it: whether each of its deadlines can be set, and what the
-- handshake makes of the bytes behind the PROXY header, which is the decrypted stream or an error
pub record Connection : Type 0 where
  pub peer : Addr
  pub reader : Reader
  pub sets_header_deadline : Bool
  pub sets_handshake_deadline : Bool
  pub sets_read_deadline : Bool
  pub handshake : Reader → Result Reader

-- `logSummary`
pub data Summary : Type 0 where
  proxy_read_failed : ReadError → Summary
  invalid_proxy_header : Summary
  handshake_failed : Bytes → Summary

-- The results of `prepareConn`: it closes the connection, maybe with a summary, or it goes on.
pub data Prepared : Type 0 where
  closed : Option Summary → Prepared
  ready : Reader → Addr → Prepared

pub data Effect : Type 0 where
  summary_logged : Summary → Effect
  event_logged : Addr → Event → Effect
  answered : Addr → Bytes → Outcome → Bytes → Effect

unfoldable pub should_silently_close : Option ReadError → Bool → Bool
should_silently_close (some (read_ended end_of_file)) false = true
should_silently_close (some (read_ended timed_out)) complete = true
should_silently_close _ complete = false

abbrev pub proxied : Reader → Option Addr → Prepared
proxied rest none = closed (some invalid_proxy_header)
proxied rest (some ip) = ready rest ip

-- From the error of `readLine` on
abbrev pub proxy_read : LineRead → Option ReadError → Prepared
proxy_read r (some e) = closed (some (proxy_read_failed e))
proxy_read r none = proxied r.reader (parse_proxy_line r.line)

-- The PROXY header, which both kinds of listener read in the same way
unfoldable pub read_proxy_header : Reader → Prepared
read_proxy_header reader =
    let r = read_line reader (pos 108) in
    if should_silently_close r.error r.complete then closed none else proxy_read r r.error

-- `s.cfg.ProxyProtocol && s.isTrustedProxy(peerIP)`
unfoldable pub speaks_for_clients : Config → Addr → Bool
speaks_for_clients c peer = c.proxy_protocol && is_trusted_proxy c.trusted_proxy_ips peer

abbrev pub handshaken : Addr → Result Reader → Prepared
handshaken client (err e) = closed (some (handshake_failed e))
handshaken client (ok decrypted) = ready decrypted client

abbrev pub start_tls : Connection → Prepared → Prepared
start_tls conn (closed why) = closed why
start_tls conn (ready reader client) =
    if not conn.sets_handshake_deadline
    then closed none
    else handshaken client (conn.handshake reader)

unfoldable pub prepare_tls : Config → Connection → Prepared
unfolding read_proxy_header
prepare_tls c conn =
    if not conn.sets_header_deadline
    then closed none
    else start_tls conn (
        if speaks_for_clients c conn.peer
        then read_proxy_header conn.reader
        else ready conn.reader conn.peer)

unfoldable pub prepare_plain : Config → Connection → Prepared
unfolding read_proxy_header
prepare_plain c conn =
    if speaks_for_clients c conn.peer
    then (if not conn.sets_header_deadline then closed none else read_proxy_header conn.reader)
    else ready conn.reader conn.peer

unfoldable pub prepare_conn : Config → ListenerMode → Connection → Prepared
prepare_conn c mode conn = if mode.tls then prepare_tls c conn else prepare_plain c conn

-- `writeAndLog` with the invalid outcome
abbrev pub refuse : Addr → Bytes → List Effect
refuse client request = answered client request invalid invalid_request_body ∷ []

unfoldable pub respond : World → Config → ListenerMode → Addr → Request → List Effect
respond w c mode client req =
    let content = build_valid_response w c req mode in
    map (event_logged client) content.events
    ++ (answered client req.canonical content.outcome content.body ∷ [])

abbrev pub serve_request :
    World → Config → ListenerMode → Addr → Bytes → Option Request → List Effect
serve_request w c mode client line none = refuse client (trim_line_ending line)
serve_request w c mode client line (some req) = respond w c mode client req

-- Behind a line that is too long: the rest of it is read first.
unfoldable pub discard_and_refuse : Addr → Reader → List Effect
discard_and_refuse client rest =
    let d = discard_line rest in
    if should_silently_close d.error d.complete then [] else refuse client []

abbrev pub serve_error : Addr → LineRead → ReadError → List Effect
serve_error client r line_too_long = discard_and_refuse client r.reader
serve_error client r (read_ended e) =
    if should_silently_close (some (read_ended e)) r.complete then [] else refuse client []

abbrev pub serve_read :
    World → Config → ListenerMode → Addr → LineRead → Option ReadError → List Effect
serve_read w c mode client r (some e) = serve_error client r e
serve_read w c mode client r none =
    serve_request w c mode client r.line (parse_request r.line mode.protocol c.extend_finger)

unfoldable pub serve_line : World → Config → ListenerMode → Addr → Reader → List Effect
unfolding discard_and_refuse
serve_line w c mode client reader =
    let r = read_line reader c.max_request_bytes in serve_read w c mode client r r.error

abbrev pub serve_prepared : World → Config → ListenerMode → Connection → Prepared → List Effect
serve_prepared w c mode conn (closed none) = []
serve_prepared w c mode conn (closed (some s)) = summary_logged s ∷ []
serve_prepared w c mode conn (ready reader client) =
    if not conn.sets_read_deadline then [] else serve_line w c mode client reader

unfoldable pub serve_conn : World → Config → ListenerMode → Connection → List Effect
unfolding prepare_tls prepare_plain
serve_conn w c mode conn = serve_prepared w c mode conn (prepare_conn c mode conn)
