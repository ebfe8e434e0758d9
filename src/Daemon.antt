-- ===== src/Daemon.antt =====
-- internal/server/server.go: `Run` with the goroutines of its listeners and of their connections, as a
-- step relation.
pub mod Calm
pub mod Refined
pub mod Stops
pub mod Progress
pub mod Ends
pub mod Effects
pub mod Journal
pub mod Graceful
pub mod Complete
pub mod Abandoned
use fingered.Base.{
  ℕ, ◌≡◌, Bool, true, false, List, [], ◌∷◌, ◌++◌, map, Option, none, some, Bytes, length, All,
}
use fingered.Config.{Config}
use fingered.Content.Resolve.{World, ListenerMode, listener_modes}
use fingered.Connection.{Connection, serve_conn}
use fingered.Log.Session.{Logger, Entry, Session, entries}
use fingered.Run.{Main, selecting, draining, returned, send}
use fingered.Goroutine.{
  Setup, Job, script, new_job, Place, Port, IsDone, AllDone, IsSession, Move, after_test,
  failures_after, Writes, new_port, is_ended, opening, accepting, sleeping, waiting, left, failing,
  cancelling, ended, listen, refuse, take_conn, close_socket, break_off, sleep, wake, give_up,
  leave, write_next,
}

-- `sent` is the buffer of `errCh`, and `log` what the logs got, the last entry first. What happened is
-- kept too, as in `Run`.
pub record Daemon : Type 0 where
  pub ports : List Port
  pub main : Main
  pub cancelled : Bool
  pub sent : List Bytes
  pub failures : List Bytes
  pub signalled : Bool
  pub log : List Entry

-- The wait group of `Run` is at zero, so `done` is closed.
abbrev pub AllEnded : Daemon → Type 0
AllEnded s = All (λ p. is_ended p.place ≡ true) s.ports

pub data Step (u : Setup) (s t : Daemon) : Type 0 where
  signal : s.signalled ≡ false → t ≡ record s { signalled = true; cancelled = true } → Step u s t
  move :
      (before after : List Port) (p q : Port)
      → s.ports ≡ before ++ p ∷ after
      → Move u s.cancelled p q
      → t ≡ record s { ports = before ++ q ∷ after }
      → Step u s t
  write :
      (before after : List Port) (p q : Port) (entry : Entry)
      → s.ports ≡ before ++ p ∷ after
      → Writes p q entry
      → t ≡ record s { ports = before ++ q ∷ after; log = entry ∷ s.log }
      → Step u s t
  test :
      (before after : List Port) (p : Port) (o : Option Bytes)
      → s.ports ≡ before ++ p ∷ after
      → p.place ≡ left o
      → t ≡ record s {
        ports = before ++ record p { place = after_test o s.cancelled } ∷ after;
        failures = failures_after o s.cancelled s.failures;
      }
      → Step u s t
  report :
      (before after : List Port) (p : Port) (e : Bytes)
      → s.ports ≡ before ++ p ∷ after
      → p.place ≡ failing e
      → t ≡ record s {
        ports = before ++ record p { place = cancelling e } ∷ after;
        sent = send (length s.ports) e s.sent;
      }
      → Step u s t
  cancel :
      (before after : List Port) (p : Port) (e : Bytes)
      → s.ports ≡ before ++ p ∷ after
      → p.place ≡ cancelling e
      → t ≡ record s {
        ports = before ++ record p { place = ended (some e) } ∷ after;
        cancelled = true;
      }
      → Step u s t
  receive :
      (e : Bytes) (rest : List Bytes)
      → s.main ≡ selecting
      → s.sent ≡ e ∷ rest
      → t ≡ record s { main = draining e; sent = rest }
      → Step u s t
  finish :
      s.main ≡ selecting
      → AllEnded s
      → t ≡ record s { main = returned none; cancelled = true }
      → Step u s t
  drain :
      (e : Bytes)
      → s.main ≡ draining e
      → AllEnded s
      → t ≡ record s { main = returned (some e); cancelled = true }
      → Step u s t

-- `Run`, with a goroutine for each of `listenerModes`
abbrev pub start : Setup → Daemon
start u = record {
  ports = map new_port (listener_modes u.config);
  main = selecting;
  cancelled = false;
  sent = [];
  failures = [];
  signalled = false;
  log = [];
}

pub data Reach (u : Setup) : Daemon → Type 0 where
  here : Reach u (start u)
  later : {s t : Daemon} → Reach u s → Step u s t → Reach u t
