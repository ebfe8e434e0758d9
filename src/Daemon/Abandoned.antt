-- ===== src/Daemon/Abandoned.antt =====
-- A listener that fails leaves its connections behind.
use fingered.Base.{◌≡◌, refl, subst, Bool, true, false, List, [], ◌∷◌, map, some, Bytes}
use fingered.Content.Resolve.{World, ListenerMode, listener_modes}
use fingered.Log.Session.{Session}
use fingered.Connection.{Connection}
use fingered.Run.{selecting, returned, send}
use fingered.Goroutine.{
  Setup, Job, new_job, IsSession, Place, opening, accepting, left, failing, cancelling, ended, Port,
  listen, take_conn, give_up, new_port,
}
use fingered.Daemon.{Daemon, move, test, report, cancel, receive, drain, start, Reach, here, later}

-- Of one listener and the goroutine of its connection, at a time
abbrev port_at : ListenerMode → Place → Bool → List Job → Port
port_at mode place open_socket jobs = record {
  mode = mode;
  place = place;
  open_socket = open_socket;
  jobs = jobs;
}

-- With one listener: if `net.Listen` succeeds, a connection is accepted, and `Accept` then returns an
-- error that is not temporary, `runListener` returns it without waiting, and `Run` can have returned it
-- while the connection has all its entries still to write and the logs have none.
pub run_may_abandon :
    (u : Setup) (mode : ListenerMode) (e : Bytes) (world : World) (session : Session)
    (conn : Connection)
    → listener_modes u.config ≡ mode ∷ []
    → IsSession u mode conn session
    → (s : Daemon) × Reach u s
      × (s.main ≡ returned (some e))
      × (s.log ≡ [])
      × (s.ports
          ≡ record {
            mode = mode;
            place = ended (some e);
            open_socket = false;
            jobs = new_job u world session conn ∷ [];
          }
            ∷ [])
unfolding send
run_may_abandon u mode e world session conn one h =
    let jobs = new_job u world session conn ∷ [] in
    let ports = λ (place : Place) (o : Bool) (js : List Job). port_at mode place o js ∷ [] in
    let s0 : Daemon = record {
      ports = port_at mode opening false [] ∷ [];
      main = selecting;
      cancelled = false;
      sent = [];
      failures = [];
      signalled = false;
      log = [];
    } in
    let r0 : Reach u s0 =
      subst (λ ms. Reach u (record (start u) { ports = map new_port ms })) one here in
    let r1 = later r0 (
      move [] [] (port_at mode opening false []) (port_at mode accepting true []) refl
        (listen refl refl) refl) in
    let r2 = later r1 (
      move [] [] (port_at mode accepting true []) (port_at mode accepting true jobs) refl
        (take_conn world session conn refl refl h refl) refl) in
    let r3 = later r2 (
      move [] [] (port_at mode accepting true jobs) (port_at mode (left (some e)) false jobs) refl
        (give_up e refl refl refl) refl) in
    let r4 =
      later r3 (test [] [] (port_at mode (left (some e)) false jobs) (some e) refl refl refl) in
    let r5 = later r4 (report [] [] (port_at mode (failing e) false jobs) e refl refl refl) in
    let r6 = later r5 (receive e [] refl refl refl) in
    let r7 = later r6 (cancel [] [] (port_at mode (cancelling e) false jobs) e refl refl refl) in
    let r8 = later r7 (drain e refl (refl, tt) refl) in (_, r8, refl, refl, refl)
