-- ===== src/Run.antt =====
-- internal/server/server.go: `Run` with its goroutines, as a step relation. A step is one access to what
-- they share: the context, the channel of errors and the wait group. The call of `cancel` and the
-- `wg.Done` behind it, with nothing between them, are one step.
pub mod Invariant
pub mod Preserved
pub mod Reported
pub mod Progress
use fingered.Base.{
  replicate, ℕ, zero, suc, ◌+◌, ◌≡◌, Bool, true, false, List, [], ◌∷◌, ◌++◌, Option, none, some,
  if◌then◌else◌, Bytes, ltb, length, All,
}

-- Where the goroutine of a listener stands: in `runListener`; behind the test of its error and of the
-- context; behind the send; behind `wg.Done`.
pub data Listener : Type 0 where
  listening : Listener
  failing : Bytes → Listener
  cancelling ended : Listener

-- Where `Run` stands: at its `select`; behind the receive, at `<-done`; returned.
pub data Main : Type 0 where
  selecting : Main
  draining : Bytes → Main
  returned : Option Bytes → Main

-- `sent` is the buffer of `errCh`. What happened is kept too: the errors of the listeners that failed
-- before the context was cancelled, and whether the caller cancelled the context.
pub record Server : Type 0 where
  pub listeners : List Listener
  pub main : Main
  pub cancelled : Bool
  pub sent : List Bytes
  pub failures : List Bytes
  pub signalled : Bool

-- `select { case errCh <- err: default: }`, with the capacity of the channel
unfoldable pub send : ℕ → Bytes → List Bytes → List Bytes
send capacity e sent = if ltb (length sent) capacity then sent ++ e ∷ [] else sent

abbrev pub IsEnded : Listener → Type 0
IsEnded l = l ≡ ended

-- The wait group is at zero, so `done` is closed.
abbrev pub AllEnded : Server → Type 0
AllEnded s = All IsEnded s.listeners

-- A listener stops when `runListener` returns with the context cancelled, with an error or none; it
-- fails when that returns an error before. With the context alive it does not return without an error.
pub data Step (s t : Server) : Type 0 where
  signal : s.signalled ≡ false → t ≡ record s { signalled = true; cancelled = true } → Step s t
  stop :
      (before after : List Listener)
      → s.listeners ≡ before ++ listening ∷ after
      → s.cancelled ≡ true
      → t ≡ record s { listeners = before ++ ended ∷ after }
      → Step s t
  fail :
      (before after : List Listener) (e : Bytes)
      → s.listeners ≡ before ++ listening ∷ after
      → s.cancelled ≡ false
      → t ≡ record s { listeners = before ++ failing e ∷ after; failures = e ∷ s.failures }
      → Step s t
  report :
      (before after : List Listener) (e : Bytes)
      → s.listeners ≡ before ++ failing e ∷ after
      → t ≡ record s {
        listeners = before ++ cancelling ∷ after;
        sent = send (length s.listeners) e s.sent;
      }
      → Step s t
  cancel :
      (before after : List Listener)
      → s.listeners ≡ before ++ cancelling ∷ after
      → t ≡ record s { listeners = before ++ ended ∷ after; cancelled = true }
      → Step s t
  receive :
      (e : Bytes) (rest : List Bytes)
      → s.main ≡ selecting
      → s.sent ≡ e ∷ rest
      → t ≡ record s { main = draining e; sent = rest }
      → Step s t
  finish :
      s.main ≡ selecting
      → AllEnded s
      → t ≡ record s { main = returned none; cancelled = true }
      → Step s t
  drain :
      (e : Bytes)
      → s.main ≡ draining e
      → AllEnded s
      → t ≡ record s { main = returned (some e); cancelled = true }
      → Step s t

-- `Run` with n listener modes
abbrev pub start : ℕ → Server
start n = record {
  listeners = replicate n listening;
  main = selecting;
  cancelled = false;
  sent = [];
  failures = [];
  signalled = false;
}

pub data Reach (n : ℕ) : Server → Type 0 where
  here : Reach n (start n)
  later : {s t : Server} → Reach n s → Step s t → Reach n t
