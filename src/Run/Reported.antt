-- ===== src/Run/Reported.antt =====
-- What `Run` returns.
use fingered.Base.{ℕ, ◌<◌, ◌≡◌, ◌≢◌, refl, ap, true, false, [], ◌∷◌, Option, none, some, Bytes}
use fingered.Run.{returned, Server, AllEnded, fail, report, cancel, finish, Reach, here, later}
use fingered.Run.Invariant.{IsAmong, is_returned, traced, Inv}
use fingered.Run.Preserved.{Reach-Inv, ended-cancelled}

-- An error that is returned is a listener's; without one, and if the caller did not cancel the context,
-- an error is left in the channel.
abbrev pub IsOutcome : Server → Option Bytes → Type 0
IsOutcome s none = s.signalled ≡ false → s.sent ≢ []
IsOutcome s (some e) = IsAmong e s.failures

outcome :
    {n : ℕ} (s : Server) (o : Option Bytes) → 0 < n → Inv n s → s.main ≡ returned o → IsOutcome s o
outcome s (some e) h inv m = rw m at inv.reported
outcome {n} s none h inv m = λ quiet empty.
    let cancelled : s.cancelled ≡ true =
      ended-cancelled n s.failures s.cancelled (traced s) s.listeners h inv.count
        (inv.final (ap is_returned m)) inv.sound in
    let trace : traced s ≡ true = inv.silent quiet cancelled in
    let gone : false ≡ true = rw m at (rw empty at trace) in cc

-- When Run has returned, every listener has ended. An error that it returns is that of a listener which
-- failed before the context was cancelled. If it returns none though the caller has not cancelled the
-- context, a listener's error is left in the channel.
pub run-IsOutcome :
    {n : ℕ} {s : Server} (o : Option Bytes)
    → 0 < n
    → Reach n s
    → s.main ≡ returned o
    → AllEnded s × IsOutcome s o
run-IsOutcome {n} {s} o h r m =
    let inv = Reach-Inv h r in (inv.final (ap is_returned m), outcome s o h inv m)

-- Whatever the error with which the only listener fails, Run may return none: the error is in the
-- channel when the wait group reaches zero, and the select takes the other case.
pub run_may_lose_error :
    (e : Bytes)
    → (s : Server) × Reach 1 s
      × (s.main ≡ returned none)
      × (s.signalled ≡ false)
      × (s.failures ≡ e ∷ [])
run_may_lose_error e = (
  _,
  later
      (later (later (later here (fail [] [] e refl refl refl)) (report [] [] e refl refl))
        (cancel [] [] refl refl))
      (finish refl (refl, tt) refl),
  refl,
  refl,
  refl,
)
