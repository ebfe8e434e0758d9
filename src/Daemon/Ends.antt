-- ===== src/Daemon/Ends.antt =====
-- A cancelled daemon always has a way to where `Run` has returned.
use fingered.Base.{Option, Bytes, ℕ, suc, ◌≤◌, ◌≡◌, true}
use fingered.Run.Invariant.{is_returned}
use fingered.Goroutine.{Setup}
use fingered.Daemon.{Daemon, Step}
use fingered.Daemon.Stops.{work}
use fingered.Content.Resolve.{ListenerMode}
use fingered.Daemon.Progress.{IsOwn}

-- The states after k steps
pub data Runs (u : Setup) (s : Daemon) : ℕ → Daemon → Type 0 where
  none_yet : Runs u s 0 s
  and_then : {k : ℕ} {t v : Daemon} → Runs u s k t → Step u t v → Runs u s (suc k) v

-- Steps of the daemon itself, where `net.Listen` has these answers
pub data OwnRuns (u : Setup) (answer : ListenerMode → Option Bytes) (s : Daemon)
    : ℕ → Daemon → Type 0 where
  there : OwnRuns u answer s 0 s
  on :
      {k : ℕ} {t v : Daemon}
      → OwnRuns u answer s k t
      → (step : Step u t v) → IsOwn answer step
      → OwnRuns u answer s (suc k) v

-- A run of the daemon itself to the end of `Run`, in at most so many steps
pub record Returns (u : Setup) (answer : ListenerMode → Option Bytes) (s : Daemon) (bound : ℕ)
    : Type 0 where
  pub steps : ℕ
  pub end : Daemon
  pub run : OwnRuns u answer s steps end
  pub soon : steps ≤ bound
  pub done : is_returned end.main ≡ true
  pub same_work : work end ≡ work s
