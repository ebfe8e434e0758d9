-- ===== src/Daemon/Progress.antt =====
-- A cancelled daemon is never stuck before `Run` has returned.
use fingered.Base.{
  Bool, Option, Option-cases, Bytes, length, none, some, ◌≡◌, ◌⊎◌, inl, inr, refl, ap, true, false,
  List, [], ◌∷◌, ◌++◌, All, arith, Bool-cases,
}
use fingered.Content.Resolve.{ListenerMode}
use fingered.Log.Session.{Entry}
use fingered.Run.{Main, selecting, draining, returned}
use fingered.Run.Invariant.{is_returned}
use fingered.Goroutine.{
  after_test, Setup, Job, Place, opening, accepting, sleeping, waiting, left, failing, cancelling,
  ended, Port, IsDone, Move, listen, refuse, take_conn, close_socket, break_off, fail_late, sleep,
  wake, give_up, leave, write_next, is_ended,
}
use fingered.Daemon.{
  Daemon, AllEnded, Step, signal, move, write, test, report, cancel, receive, finish, drain,
}
use fingered.Daemon.Stops.{work, sum_by, sum_by_middle, job_work, port_work}

-- A connection that has an entry to write
abbrev HasPending : List Job → Type 0
HasPending js =
    (before : List Job) × (j : Job) × (after : List Job) × (entry : Entry) × (rest : List Entry)
    × (js ≡ before ++ j ∷ after)
    × (j.pending ≡ entry ∷ rest)

first_pending :
    (j : Job) (js : List Job) (es : List Entry)
    → j.pending ≡ es
    → All IsDone js ⊎ HasPending js
    → All IsDone (j ∷ js) ⊎ HasPending (j ∷ js)
first_pending j js (entry ∷ rest) e h = inr ([], j, js, entry, rest, refl, e)
first_pending j js [] e (inl h) = inl (e, h)
first_pending j js [] e (inr (before, k, after, entry, rest, split, x)) =
    inr (j ∷ before, k, after, entry, rest, ap (◌∷◌ j) split, x)

find_pending : (js : List Job) → All IsDone js ⊎ HasPending js
find_pending [] = inl tt
find_pending (j ∷ js) = first_pending j js j.pending refl (find_pending js)

-- A move that waits for nobody: no connection comes and no `Accept` of an open socket fails, and
-- `net.Listen` has its answer.
abbrev pub IsOwnMove :
    {u : Setup} {c : Bool} {p q : Port} → (ListenerMode → Option Bytes) → Move u c p q → Type 0
IsOwnMove {p = p} answer (listen m e) = answer p.mode ≡ none
IsOwnMove {p = p} answer (refuse x m e) = answer p.mode ≡ some x
IsOwnMove answer (take_conn world session conn m o k e) = ⊥
IsOwnMove answer (close_socket o c e) = Unit
IsOwnMove answer (break_off m o c e) = Unit
IsOwnMove answer (fail_late m o c e) = ⊥
IsOwnMove answer (sleep m c e) = ⊥
IsOwnMove answer (wake m e) = Unit
IsOwnMove answer (give_up x m c e) = ⊥
IsOwnMove answer (leave m d e) = Unit

-- A step of the daemon itself
abbrev pub IsOwn : {u : Setup} {s t : Daemon} → (ListenerMode → Option Bytes) → Step u s t → Type 0
IsOwn answer (signal x e) = ⊥
IsOwn answer (move before after p q x m e) = IsOwnMove answer m
IsOwn answer (write before after p q entry x k e) = Unit
IsOwn answer (test before after p o x l e) = Unit
IsOwn answer (report before after p y x m e) = Unit
IsOwn answer (cancel before after p y x m e) = Unit
IsOwn answer (receive y rest m w e) = Unit
IsOwn answer (finish m a e) = Unit
IsOwn answer (drain y m a e) = Unit

-- A step of the daemon itself, with which no connection is accepted
abbrev pub GoesOn : Setup → (ListenerMode → Option Bytes) → Daemon → Type 0
GoesOn u answer s = (t : Daemon) × (step : Step u s t) × IsOwn answer step × (work t ≡ work s)

work_same :
    (s : Daemon) (before after : List Port) (p q : Port)
    → s.ports ≡ before ++ p ∷ after
    → port_work q ≡ port_work p
    → sum_by port_work (before ++ q ∷ after) ≡ work s
work_same s before after p q x e = rw x (
    omega
      (arith, sum_by_middle port_work before after p, sum_by_middle port_work before after q, e))

jobs_work :
    (js before after : List Job) (j : Job) (entry : Entry) (rest : List Entry)
    → js ≡ before ++ j ∷ after
    → j.pending ≡ entry ∷ rest
    → sum_by job_work (before ++ record j { written = entry ∷ j.written; pending = rest } ∷ after)
      ≡ sum_by job_work js
jobs_work js before after j entry rest x y =
    let k : Job = record j { written = entry ∷ j.written; pending = rest } in
    rw x (
      omega (
        arith,
        ap length y,
        sum_by_middle job_work before after j,
        sum_by_middle job_work before after k,
      ))

module _ {u : Setup} (answer : ListenerMode → Option Bytes) (s : Daemon)
    (c : s.cancelled ≡ true) where
  waiting-GoesOn :
      (before after : List Port) (p : Port)
      → s.ports ≡ before ++ p ∷ after
      → p.place ≡ waiting
      → GoesOn u answer s
  waiting-GoesOn before after p x m = elim (find_pending p.jobs) [
    | inl d ↦ (
      _,
      move before after p _ x (leave m d refl) refl,
      tt,
      work_same s before after p (record p { place = left none; open_socket = false }) x refl,
    )
    | inr (b, j, a, entry, rest, split, y) ↦ (
      _,
      write before after p _ entry x (write_next b a j rest split y refl) refl,
      tt,
      work_same s before after p
          (record p { jobs = b ++ record j { written = entry ∷ j.written; pending = rest } ∷ a }) x
          (jobs_work p.jobs b a j entry rest split y),
    )
  ]

  port-GoesOn :
      (before after : List Port) (p : Port) (m : Place)
      → s.ports ≡ before ++ p ∷ after
      → p.place ≡ m
      → is_ended m ≡ false
      → GoesOn u answer s
  port-GoesOn before after p opening x m n = elim (Option-cases (answer p.mode)) [
    | inl a ↦ (
      _,
      move before after p _ x (listen m refl) refl,
      a,
      work_same s before after p (record p { place = accepting; open_socket = true }) x refl,
    )
    | inr (e, a) ↦ (
      _,
      move before after p _ x (refuse e m refl) refl,
      a,
      work_same s before after p (record p { place = left (some e) }) x refl,
    )
  ]
  port-GoesOn before after p accepting x m n = elim (Bool-cases p.open_socket) [
    | inl o ↦ (
      _,
      move before after p _ x (close_socket o c refl) refl,
      tt,
      work_same s before after p (record p { open_socket = false }) x refl,
    )
    | inr o ↦ (
      _,
      move before after p _ x (break_off m o c refl) refl,
      tt,
      work_same s before after p (record p { place = waiting }) x refl,
    )
  ]
  port-GoesOn before after p sleeping x m n = (
    _,
    move before after p _ x (wake m refl) refl,
    tt,
    work_same s before after p (record p { place = accepting }) x refl,
  )
  port-GoesOn before after p waiting x m n = waiting-GoesOn before after p x m
  port-GoesOn before after p (left o) x m n = (
    _,
    test before after p o x m refl,
    tt,
    work_same s before after p (record p { place = after_test o s.cancelled }) x refl,
  )
  port-GoesOn before after p (failing e) x m n = (
    _,
    report before after p e x m refl,
    tt,
    work_same s before after p (record p { place = cancelling e }) x refl,
  )
  port-GoesOn before after p (cancelling e) x m n = (
    _,
    cancel before after p e x m refl,
    tt,
    work_same s before after p (record p { place = ended (some e) }) x refl,
  )
  port-GoesOn before after p (ended o) x m n = absurd (cc)

  main-GoesOn : (m : Main) → s.main ≡ m → is_returned m ≡ false → AllEnded s → GoesOn u answer s
  main-GoesOn selecting e r a = (_, finish e a refl, tt, refl)
  main-GoesOn (draining x) e r a = (_, drain x e a refl, tt, refl)
  main-GoesOn (returned o) e r a = absurd (cc)

-- A listener that has not ended, if there is one
find_running :
    (ps : List Port)
    → All (λ p. is_ended p.place ≡ true) ps
      ⊎ ((before : List Port) × (p : Port) × (after : List Port) × (ps ≡ before ++ p ∷ after)
          × (is_ended p.place ≡ false))
find_running [] = inl tt
find_running (p ∷ ps) = elim (Bool-cases (is_ended p.place)) [
  | inr n ↦ inr ([], p, ps, refl, n)
  | inl e ↦ elim (find_running ps) [
    | inl h ↦ inl (e, h)
    | inr (before, q, after, split, n) ↦ inr (p ∷ before, q, after, ap (◌∷◌ p) split, n)
  ]
]

pub continues :
    (u : Setup) (answer : ListenerMode → Option Bytes) (s : Daemon)
    → s.cancelled ≡ true
    → is_returned s.main ≡ false
    → GoesOn u answer s
continues u answer s c r = elim (find_running s.ports) [
  | inl a ↦ main-GoesOn answer s c s.main refl r a
  | inr (before, p, after, split, n) ↦ port-GoesOn answer s c before after p p.place split refl n
]
