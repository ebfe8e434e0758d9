-- ===== src/Daemon/Effects.antt =====
-- What a step does to the connections and to the log.
use fingered.Base.{◌≡◌, refl, Bool, List, [], ◌∷◌, ◌++◌, some}
use fingered.Log.Session.{Entry, Session}
use fingered.Connection.{Connection}
use fingered.Content.Resolve.{World}
use fingered.Goroutine.{
  Setup, cancelling, ended, after_test, Job, new_job, IsSession, Port, Move, listen, refuse,
  take_conn, close_socket, break_off, fail_late, sleep, wake, give_up, leave, Writes, write_next,
}
use fingered.Daemon.{
  Daemon, Step, signal, move, write, test, report, cancel, receive, finish, drain,
}

-- A port keeps its connections, accepts one, or one of them writes an entry.
pub data Change (u : Setup) (p q : Port) (new : List Entry) : Type 0 where
  kept : q.mode ≡ p.mode → q.jobs ≡ p.jobs → new ≡ [] → Change u p q new
  accepted :
      (world : World) (session : Session) (conn : Connection)
      → IsSession u p.mode conn session
      → q.mode ≡ p.mode
      → q.jobs ≡ new_job u world session conn ∷ p.jobs
      → new ≡ []
      → Change u p q new
  wrote :
      (before after : List Job) (j : Job) (entry : Entry) (rest : List Entry)
      → q.mode ≡ p.mode
      → p.jobs ≡ before ++ j ∷ after
      → j.pending ≡ entry ∷ rest
      → q.jobs ≡ before ++ record j { written = entry ∷ j.written; pending = rest } ∷ after
      → new ≡ entry ∷ []
      → Change u p q new

-- What is new in the log, and the port that changes, if there is one
pub data Effect (u : Setup) (s t : Daemon) : Type 0 where
  quiet : t.ports ≡ s.ports → t.log ≡ s.log → Effect u s t
  at_port :
      (before after : List Port) (p q : Port) (new : List Entry)
      → s.ports ≡ before ++ p ∷ after
      → t.ports ≡ before ++ q ∷ after
      → Change u p q new
      → t.log ≡ new ++ s.log
      → Effect u s t

Move-Change : {u : Setup} {c : Bool} {p q : Port} → Move u c p q → Change u p q []
Move-Change (listen m e) = kept (rw e refl) (rw e refl) refl
Move-Change (refuse x m e) = kept (rw e refl) (rw e refl) refl
Move-Change (take_conn world session conn m o k e) =
    accepted world session conn k (rw e refl) (rw e refl) refl
Move-Change (close_socket o c e) = kept (rw e refl) (rw e refl) refl
Move-Change (break_off m k c e) = kept (rw e refl) (rw e refl) refl
Move-Change (fail_late m k c e) = kept (rw e refl) (rw e refl) refl
Move-Change (sleep m c e) = kept (rw e refl) (rw e refl) refl
Move-Change (wake m e) = kept (rw e refl) (rw e refl) refl
Move-Change (give_up x m c e) = kept (rw e refl) (rw e refl) refl
Move-Change (leave m d e) = kept (rw e refl) (rw e refl) refl

Writes-Change :
    {u : Setup} {p q : Port} {entry : Entry} → Writes p q entry → Change u p q (entry ∷ [])
Writes-Change (write_next before after j rest x y e) =
    wrote before after j _ rest (rw e refl) x y (rw e refl) refl

pub Step-Effect : {u : Setup} {s t : Daemon} → Step u s t → Effect u s t
Step-Effect (signal x e) = quiet (rw e refl) (rw e refl)
Step-Effect (move before after p q x m e) =
    at_port before after p q [] x (rw e refl) (Move-Change m) (rw e refl)
Step-Effect (write before after p q entry x k e) =
    at_port before after p q (entry ∷ []) x (rw e refl) (Writes-Change k) (rw e refl)
Step-Effect {s = s} (test before after p o x l e) =
    at_port before after p (record p { place = after_test o s.cancelled }) [] x (rw e refl)
      (kept refl refl refl) (rw e refl)
Step-Effect (report before after p y x m e) =
    at_port before after p (record p { place = cancelling y }) [] x (rw e refl)
      (kept refl refl refl) (rw e refl)
Step-Effect (cancel before after p y x m e) =
    at_port before after p (record p { place = ended (some y) }) [] x (rw e refl)
      (kept refl refl refl) (rw e refl)
Step-Effect (receive y rest m w e) = quiet (rw e refl) (rw e refl)
Step-Effect (finish m a e) = quiet (rw e refl) (rw e refl)
Step-Effect (drain y m a e) = quiet (rw e refl) (rw e refl)
