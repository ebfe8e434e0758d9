-- ===== src/Goroutine.antt =====
-- internal/server/server.go: what the goroutines of `runListener` and of its connections do. Of a
-- connection others see that it writes its log entries.
use fingered.Base.{◌≡◌, Bool, true, false, List, [], ◌∷◌, ◌++◌, Option, none, some, Bytes, All}
use fingered.Config.{Config}
use fingered.Content.Resolve.{World, ListenerMode}
use fingered.Connection.{Connection, serve_conn}
use fingered.Log.Session.{Logger, Entry, Session, entries}

-- What all goroutines share and none changes
pub record Setup : Type 0 where
  pub config : Config
  pub logger : Logger

-- The goroutine of a connection: what the system answers it, the entries that it has written, the last
-- one first, and those that it will write. When none is left it calls `wg.Done`.
pub record Job : Type 0 where
  pub world : World
  pub session : Session
  pub conn : Connection
  pub written : List Entry
  pub pending : List Entry

-- `s.serveConn(c, mode)`
abbrev pub script : Setup → World → Session → Connection → List Entry
script u world session conn = entries session 0 (serve_conn world u.config session.mode conn)

abbrev pub new_job : Setup → World → Session → Connection → Job
new_job u world session conn = record {
  session = session;
  conn = conn;
  written = [];
  pending = script u world session conn;
  world = world;
}

-- Where the goroutine of a listener stands: in `runListener` before `net.Listen`, at `ln.Accept`, asleep
-- behind a temporary error, at `wg.Wait`; behind `runListener` with its error; behind the test of that;
-- behind the send; behind `wg.Done`.
pub data Place : Type 0 where
  opening accepting sleeping waiting : Place
  left : Option Bytes → Place
  failing cancelling : Bytes → Place
  ended : Option Bytes → Place

-- A listener, with its socket and the goroutines of its connections
pub record Port : Type 0 where
  pub mode : ListenerMode
  pub place : Place
  pub open_socket : Bool
  pub jobs : List Job

abbrev pub IsDone : Job → Type 0
IsDone j = j.pending ≡ []

-- The wait group of `runListener` is at zero.
abbrev pub AllDone : Port → Type 0
AllDone p = All IsDone p.jobs

-- A session on a listener: the server's logger and the listener's mode, and the connection's peer
pub record IsSession (u : Setup) (mode : ListenerMode) (conn : Connection) (s : Session)
    : Type 0 where
  pub logger : s.logger ≡ u.logger
  pub mode_same : s.mode ≡ mode
  pub peer : s.peer ≡ conn.peer

-- The moves inside `runListener`. The goroutine that waits for the context closes the socket, and so
-- does each return. `Accept` fails on a closed socket, and may fail on an open one. Its error ends the
-- loop if the context is cancelled (`break_off`, `fail_late`); else it is temporary, or it is returned.
pub data Move (u : Setup) (cancelled : Bool) (p q : Port) : Type 0 where
  listen :
      p.place ≡ opening
      → q ≡ record p { place = accepting; open_socket = true }
      → Move u cancelled p q
  refuse :
      (e : Bytes)
      → p.place ≡ opening
      → q ≡ record p { place = left (some e) }
      → Move u cancelled p q
  take_conn :
      (world : World) (session : Session) (conn : Connection)
      → p.place ≡ accepting
      → p.open_socket ≡ true
      → IsSession u p.mode conn session
      → q ≡ record p { jobs = new_job u world session conn ∷ p.jobs }
      → Move u cancelled p q
  close_socket :
      p.open_socket ≡ true
      → cancelled ≡ true
      → q ≡ record p { open_socket = false }
      → Move u cancelled p q
  break_off :
      p.place ≡ accepting
      → p.open_socket ≡ false
      → cancelled ≡ true
      → q ≡ record p { place = waiting }
      → Move u cancelled p q
  fail_late :
      p.place ≡ accepting
      → p.open_socket ≡ true
      → cancelled ≡ true
      → q ≡ record p { place = waiting }
      → Move u cancelled p q
  sleep :
      p.place ≡ accepting
      → cancelled ≡ false
      → q ≡ record p { place = sleeping }
      → Move u cancelled p q
  wake : p.place ≡ sleeping → q ≡ record p { place = accepting } → Move u cancelled p q
  give_up :
      (e : Bytes)
      → p.place ≡ accepting
      → cancelled ≡ false
      → q ≡ record p { place = left (some e); open_socket = false }
      → Move u cancelled p q
  leave :
      p.place ≡ waiting
      → AllDone p
      → q ≡ record p { place = left none; open_socket = false }
      → Move u cancelled p q

-- `err != nil && ctx.Err() == nil`, behind `runListener`
abbrev pub after_test : Option Bytes → Bool → Place
after_test (some e) false = failing e
after_test (some e) true = ended (some e)
after_test none cancelled = ended none

abbrev pub failures_after : Option Bytes → Bool → List Bytes → List Bytes
failures_after (some e) false failures = e ∷ failures
failures_after (some e) true failures = failures
failures_after none cancelled failures = failures

-- One goroutine of a connection writes its next entry.
pub data Writes (p q : Port) (entry : Entry) : Type 0 where
  write_next :
      (before after : List Job) (j : Job) (rest : List Entry)
      → p.jobs ≡ before ++ j ∷ after
      → j.pending ≡ entry ∷ rest
      → q ≡ record p {
        jobs = before ++ record j { written = entry ∷ j.written; pending = rest } ∷ after;
      }
      → Writes p q entry

abbrev pub new_port : ListenerMode → Port
new_port mode = record { mode = mode; place = opening; open_socket = false; jobs = [] }

abbrev pub is_ended : Place → Bool
is_ended (ended o) = true
is_ended opening = false
is_ended accepting = false
is_ended sleeping = false
is_ended waiting = false
is_ended (left o) = false
is_ended (failing e) = false
is_ended (cancelling e) = false
