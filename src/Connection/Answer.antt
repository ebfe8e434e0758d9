-- ===== src/Connection/Answer.antt =====
-- What a connection is sent.
use fingered.Base.{
  ◌≡◌, refl, sym, subst, Bool, true, false, not, List, [], ◌∷◌, ◌++◌, Option, none, some,
  if◌then◌else◌, Bytes, codes, map,
}
use fingered.Addr.{Addr}
use fingered.Reader.{
  Reader, ReadError, read_ended, line_too_long, LineRead, read_line, discard_line,
}
use fingered.Request.{Request, trim_line_ending}
use fingered.Body.Clean.{IsBody, line_end, done}
use fingered.Config.{Config}
use fingered.Content.Resolve.{World, ListenerMode, Event}
use fingered.Content.Response.{utf8_required, build_valid_response}
use fingered.Content.Clean.{IsBody-shown}
use fingered.Content.Lines.{build_valid_response-IsBody}
use fingered.Connection.{
  Connection, Prepared, closed, ready, Effect, summary_logged, event_logged, answered,
  should_silently_close, refuse, respond, serve_request, discard_and_refuse, serve_error,
  serve_read, serve_line, serve_prepared, serve_conn, prepare_conn,
}

-- The bodies that are sent
abbrev pub answers : List Effect → List Bytes
answers [] = []
answers (summary_logged s ∷ es) = answers es
answers (event_logged client e ∷ es) = answers es
answers (answered client request outcome body ∷ es) = body ∷ answers es

-- Nothing, or one body of text
abbrev pub IsAnswer : Bool → List Bytes → Type 0
IsAnswer u [] = Unit
IsAnswer u (body ∷ []) = IsBody u body
IsAnswer u (body ∷ other ∷ bodies) = ⊥

if-IsAnswer :
    (u b : Bool) (x y : List Effect)
    → IsAnswer u (answers x)
    → IsAnswer u (answers y)
    → IsAnswer u (answers (if b then x else y))
if-IsAnswer u true x y h k = h
if-IsAnswer u false x y h k = k

pub answers-events :
    (client : Addr) (events : List Event) (es : List Effect)
    → answers (map (event_logged client) events ++ es) ≡ answers es
answers-events client [] es = refl
answers-events client (e ∷ events) es = answers-events client events es

refuse-IsAnswer :
    (u : Bool) (client : Addr) (request : Bytes) → IsAnswer u (answers (refuse client request))
refuse-IsAnswer u client request =
    IsBody-shown u (codes "Error: Invalid Request") (codes "\r\n") refl (line_end done)

module _ (w : World) (c : Config) (mode : ListenerMode) where
  respond-IsAnswer :
      (client : Addr) (req : Request)
      → IsAnswer (utf8_required mode) (answers (respond w c mode client req))
  unfolding respond
  respond-IsAnswer client req =
      subst (IsAnswer (utf8_required mode))
        (sym (answers-events client (build_valid_response w c req mode).events _))
        (build_valid_response-IsBody w c req mode)

  serve_request-IsAnswer :
      (client : Addr) (line : Bytes) (o : Option Request)
      → IsAnswer (utf8_required mode) (answers (serve_request w c mode client line o))
  serve_request-IsAnswer client line none =
      refuse-IsAnswer (utf8_required mode) client (trim_line_ending line)
  serve_request-IsAnswer client line (some req) = respond-IsAnswer client req

  serve_error-IsAnswer :
      (client : Addr) (r : LineRead) (e : ReadError)
      → IsAnswer (utf8_required mode) (answers (serve_error client r e))
  unfolding discard_and_refuse
  serve_error-IsAnswer client r line_too_long =
      let d = discard_line r.reader in
      if-IsAnswer (utf8_required mode) (should_silently_close d.error d.complete) [] _ tt
        (refuse-IsAnswer (utf8_required mode) client [])
  serve_error-IsAnswer client r (read_ended e) =
      if-IsAnswer (utf8_required mode) (should_silently_close (some (read_ended e)) r.complete) [] _
        tt (refuse-IsAnswer (utf8_required mode) client [])

  serve_read-IsAnswer :
      (client : Addr) (r : LineRead) (o : Option ReadError)
      → IsAnswer (utf8_required mode) (answers (serve_read w c mode client r o))
  serve_read-IsAnswer client r none = serve_request-IsAnswer client r.line _
  serve_read-IsAnswer client r (some e) = serve_error-IsAnswer client r e

  serve_line-IsAnswer :
      (client : Addr) (reader : Reader)
      → IsAnswer (utf8_required mode) (answers (serve_line w c mode client reader))
  unfolding serve_line
  serve_line-IsAnswer client reader =
      let r = read_line reader c.max_request_bytes in serve_read-IsAnswer client r r.error

  serve_prepared-IsAnswer :
      (conn : Connection) (p : Prepared)
      → IsAnswer (utf8_required mode) (answers (serve_prepared w c mode conn p))
  serve_prepared-IsAnswer conn (closed none) = tt
  serve_prepared-IsAnswer conn (closed (some s)) = tt
  serve_prepared-IsAnswer conn (ready reader client) =
      if-IsAnswer (utf8_required mode) (not conn.sets_read_deadline) [] _ tt
        (serve_line-IsAnswer client reader)

-- Whatever a client sends, however its connection behaves and whatever the files and scripts hold, it
-- is sent nothing or one body, and the body consists of text bytes and CRLF line ends.
pub serve_conn-IsAnswer :
    (w : World) (c : Config) (mode : ListenerMode) (conn : Connection)
    → IsAnswer (utf8_required mode) (answers (serve_conn w c mode conn))
unfolding serve_conn
serve_conn-IsAnswer w c mode conn = serve_prepared-IsAnswer w c mode conn (prepare_conn c mode conn)
