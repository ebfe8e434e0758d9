-- ===== src/Connection/Served.antt =====
-- A client whose line arrives is answered.
use fingered.Base.{
  ℕ, suc, ◌+◌, ◌<◌, ◌^◌, ◌≡◌, refl, ap, ◌∙◌, true, [], ◌∷◌, ◌++◌, Option, none, some, Bytes, codes,
  length, take, drop, Lacks, arith,
}
use fingered.Base.Int.{pos}
use fingered.Addr.{Addr}
use fingered.Text.Laws.{index_byte-append}
use fingered.Reader.{Ending, line_read, read_line}
use fingered.Reader.Index.{by_position, read_line-by_position}
use fingered.Request.{Request, invalid_request_body, parse_request}
use fingered.Config.{Config}
use fingered.Content.Resolve.{World, ListenerMode}
use fingered.Content.Response.{build_valid_response}
use fingered.Connection.{
  Connection, ready, prepare_conn, serve_request, respond, serve_line, serve_conn,
}
use fingered.Connection.Answer.{answers, answers-events}

take_past : (s : Bytes) (c : ℕ) (t : Bytes) → take (suc (length s)) (s ++ c ∷ t) ≡ s ++ c ∷ []
take_past [] c t = refl
take_past (x ∷ s) c t = ap (◌∷◌ x) (take_past s c t)

drop_past : (s : Bytes) (c : ℕ) (t : Bytes) → drop (suc (length s)) (s ++ c ∷ t) ≡ t
drop_past [] c t = refl
drop_past (x ∷ s) c t = drop_past s c t

read_line-arrived :
    (line rest : Bytes) (e : Ending) (max : ℕ)
    → max + 2 < 2 ^ 63
    → length line < max + 2
    → Lacks b'\n' line
    → read_line (record { input = line ++ b'\n' ∷ rest; ending = e }) (pos max)
      ≡ line_read (line ++ codes "\n") rest e
read_line-arrived line rest e max h k l =
    read_line-by_position (record { input = line ++ b'\n' ∷ rest; ending = e }) max h
    ∙ ap (by_position (max + 2) e [] (line ++ b'\n' ∷ rest)) (index_byte-append line rest b'\n' l)
    ∙ ground (arith, take_past line b'\n' rest, drop_past line b'\n' rest)

-- The body for a line: the response to its request, or the one that refuses it
abbrev pub body_of : World → Config → ListenerMode → Option Request → Bytes
body_of w c mode none = invalid_request_body
body_of w c mode (some req) = (build_valid_response w c req mode).body

answers-serve_request :
    (w : World) (c : Config) (mode : ListenerMode) (client : Addr) (line : Bytes)
    (o : Option Request)
    → answers (serve_request w c mode client line o) ≡ body_of w c mode o ∷ []
unfolding respond
answers-serve_request w c mode client line none = refl
answers-serve_request w c mode client line (some req) =
    answers-events client (build_valid_response w c req mode).events _

-- On either kind of listener, a client whose connection is prepared, and whose line arrives with its
-- newline within the limit, is sent exactly one body: the response to the request that the line parses
-- to, or the body that refuses it if it does not parse.
pub serve_conn-arrived :
    (w : World) (c : Config) (mode : ListenerMode) (conn : Connection) (client : Addr)
    (line rest : Bytes) (e : Ending) (max : ℕ)
    → prepare_conn c mode conn ≡ ready (record { input = line ++ b'\n' ∷ rest; ending = e }) client
    → conn.sets_read_deadline ≡ true
    → c.max_request_bytes ≡ pos max
    → max + 2 < 2 ^ 63
    → length line < max + 2
    → Lacks b'\n' line
    → answers (serve_conn w c mode conn)
      ≡ body_of w c mode (parse_request (line ++ codes "\n") mode.protocol c.extend_finger) ∷ []
unfolding serve_conn serve_line
serve_conn-arrived w c mode conn client line rest e max prepared deadline limit h k l =
    let arrived =
      ap (read_line (record { input = line ++ b'\n' ∷ rest; ending = e })) limit
      ∙ read_line-arrived line rest e max h k l in
    rw (prepared, deadline, arrived) (answers-serve_request w c mode client (line ++ codes "\n") _)
