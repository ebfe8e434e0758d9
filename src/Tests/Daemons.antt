-- ===== src/Tests/Daemons.antt =====
-- A server with one listener that serves one connection.
use fingered.Base.{◌≡◌, refl, subst, Bool, true, false, List, [], ◌∷◌, map, none, some, codes}
use fingered.Base.Int.{pos}
use fingered.Tests.{sessions}
use fingered.Tests.Connections.{world, config, mode, conn}
use fingered.Tests.Sessions.{session}
use fingered.Content.Resolve.{listener_modes}
use fingered.Log.Session.{Entry, in_errors, in_access}
use fingered.Run.{selecting, returned}
use fingered.Run
use fingered.Goroutine.{
  Setup, Job, script, new_job, IsSession, Place, opening, accepting, waiting, left, ended, Port,
  listen, take_conn, close_socket, break_off, leave, write_next, new_port,
}
use fingered.Daemon.{Daemon, signal, move, write, test, start, Reach, here, later}
use fingered.Daemon.Refined.{view, Reach-refines}
use fingered.Daemon.Complete.{IsComplete, graceful_logs}
use fingered.Daemon.Abandoned.{run_may_abandon}

abbrev setup : Setup
setup = record {
  config = record config { port = pos 79; doc_root = codes "/www"; cgi_enable = true };
  logger = session.logger;
}

one_listener : listener_modes setup.config ≡ mode ∷ []
unfolding sessions
one_listener = refl

session-IsSession : IsSession setup mode conn session
session-IsSession = record { logger = refl; mode_same = refl; peer = refl }

abbrev broken : Entry
broken = in_errors (codes "/logs/error.log") (
    codes
      "<11>1 1970-01-01T00:00:00Z box fingered 42 - - ERROR protocol=finger port=79 client_ip=8.8.4.4 peer_ip=8.8.4.4 msg=write failed: broken pipe\n")

abbrev served : Entry
served = in_access (codes "/logs/access.log") (
    codes
      "<14>1 1970-01-01T00:00:00Z box fingered 42 - - ACCESS protocol=finger port=79 client_ip=8.8.4.4 peer_ip=8.8.4.4 request=alice outcome=hit bytes=4 duration_ms=3\n")

script_run : script setup world session conn ≡ broken ∷ served ∷ []
unfolding sessions
script_run = refl

-- The connection with what it has written, and the listener and the daemon with it
abbrev job : List Entry → List Entry → Job
job written pending = record {
  world = world;
  session = session;
  conn = conn;
  written = written;
  pending = pending;
}

abbrev port : Place → Bool → List Job → Port
port place open_socket jobs = record {
  mode = mode;
  place = place;
  open_socket = open_socket;
  jobs = jobs;
}

abbrev daemon : Bool → Port → List Entry → Daemon
daemon signalled p log = record {
  ports = p ∷ [];
  main = selecting;
  cancelled = signalled;
  sent = [];
  failures = [];
  signalled = signalled;
  log = log;
}

abbrev accepted : Daemon
accepted = daemon false (port accepting true (job [] (script setup world session conn) ∷ [])) []

abbrev written_one : Daemon
written_one =
    daemon false (port accepting true (job (broken ∷ []) (served ∷ []) ∷ [])) (broken ∷ [])

abbrev stopped : Daemon
stopped =
    daemon true (port (ended none) false (job (served ∷ broken ∷ []) [] ∷ []))
      (served ∷ broken ∷ [])

accepted-Reach : Reach setup accepted
accepted-Reach =
    let r0 : Reach setup (daemon false (port opening false []) []) =
      subst (λ ms. Reach setup (record (start setup) { ports = map new_port ms })) one_listener
        here in
    later
      (later r0
        (move [] [] (port opening false []) (port accepting true []) refl (listen refl refl) refl))
      (move [] [] (port accepting true [])
        (port accepting true (new_job setup world session conn ∷ [])) refl
        (take_conn world session conn refl refl session-IsSession refl) refl)

written_one-Reach : Reach setup written_one
written_one-Reach = later accepted-Reach (
    write [] [] _ _ broken refl
      (write_next [] [] (new_job setup world session conn) (served ∷ []) refl script_run refl) refl)

-- The signal comes while the connection has an entry to write.
stopped-Reach : Reach setup stopped
stopped-Reach =
    let done = job (served ∷ broken ∷ []) [] ∷ [] in
    let r1 = later written_one-Reach (signal refl refl) in
    let half = job (broken ∷ []) (served ∷ []) ∷ [] in
    let closed =
      later r1 (move [] [] _ (port accepting false half) refl (close_socket refl refl refl) refl) in
    let r2 = later closed (
      move [] [] (port accepting false half) (port waiting false half) refl
        (break_off refl refl refl refl) refl) in
    let r3 = later r2 (
      write [] [] _ (port waiting false done) served refl
        (write_next [] [] (job (broken ∷ []) (served ∷ [])) [] refl refl refl) refl) in
    let r4 =
      later r3
        (move [] [] _ (port (left none) false done) refl (leave refl (refl, tt) refl) refl) in
    later r4 (test [] [] (port (left none) false done) none refl refl refl)

Reach-refines_example : Run.Reach 1 (view stopped)
unfolding sessions
Reach-refines_example = Reach-refines {u = setup} {s = stopped} stopped-Reach

graceful_logs_example : IsComplete setup stopped.ports stopped.log
graceful_logs_example = graceful_logs setup stopped stopped-Reach (refl, tt)

-- With the socket closed behind the signal
abbrev closed_one : Daemon
closed_one = daemon true (port accepting false (job (broken ∷ []) (served ∷ []) ∷ [])) (broken ∷ [])

run_may_abandon_example :
    (s : Daemon) × Reach setup s
    × (s.main ≡ returned (some (codes "accept: invalid argument")))
    × (s.log ≡ [])
    × (s.ports
        ≡ port
            (ended (some (codes "accept: invalid argument")))
            false
            (new_job setup world session conn ∷ [])
          ∷ [])
run_may_abandon_example =
    run_may_abandon setup mode (codes "accept: invalid argument") world session conn one_listener
      session-IsSession
