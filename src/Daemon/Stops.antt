-- ===== src/Daemon/Stops.antt =====
-- A cancelled daemon comes to its end: what is left to do, and that it can always be gone on with.
use fingered.Base.{
  ℕ, ◌+◌, ◌<◌, ◌≡◌, refl, ap, Bool, true, false, List, [], ◌∷◌, ◌++◌, Option, none, some, Bytes,
  length, arith, if◌then◌else◌,
}
use fingered.Log.Session.{Entry}
use fingered.Run.Progress.{main_weight}
use fingered.Goroutine.{
  Setup, Job, Place, opening, accepting, sleeping, waiting, left, failing, cancelling, ended, Port,
  Move, listen, refuse, take_conn, close_socket, break_off, fail_late, sleep, wake, give_up, leave,
  Writes, write_next, after_test,
}
use fingered.Daemon.{
  Daemon, Step, signal, move, write, test, report, cancel, receive, finish, drain,
}

-- The steps that a listener can still take
abbrev pub place_weight : Place → ℕ
place_weight opening = 9
place_weight sleeping = 8
place_weight accepting = 7
place_weight waiting = 6
place_weight (left o) = 4
place_weight (failing e) = 2
place_weight (cancelling e) = 1
place_weight (ended o) = 0

abbrev pub sum_by {ℓ} : {A : Type ℓ} → (A → ℕ) → List A → ℕ
sum_by f [] = 0
sum_by f (x ∷ xs) = f x + sum_by f xs

abbrev pub socket_weight : Bool → ℕ
socket_weight open_socket = if open_socket then 1 else 0

-- The entries that a connection has still to write, and all its work: its entries and its acceptance
abbrev pub job_weight : Job → ℕ
job_weight j = length j.pending

abbrev pub job_work : Job → ℕ
job_work j = 1 + length j.written + length j.pending

abbrev pub port_weight : Port → ℕ
port_weight p = place_weight p.place + socket_weight p.open_socket + sum_by job_weight p.jobs

abbrev pub port_work : Port → ℕ
port_work p = sum_by job_work p.jobs

abbrev pub measure : Daemon → ℕ
measure s = sum_by port_weight s.ports + main_weight s.main + (if s.signalled then 0 else 1)

abbrev pub work : Daemon → ℕ
work s = sum_by port_work s.ports

pub sum_by_middle {ℓ} :
    {A : Type ℓ} (f : A → ℕ) (before after : List A) (x : A)
    → sum_by f (before ++ x ∷ after) ≡ sum_by f before + f x + sum_by f after
sum_by_middle f [] after x = omega arith
sum_by_middle f (b ∷ before) after x = omega (arith, sum_by_middle f before after x)

-- One step of a cancelled listener costs a unit, and an acceptance brings the work of its connection.
Move-lt :
    {u : Setup} {c : Bool} {p q : Port}
    → c ≡ true
    → Move u c p q
    → port_weight q + port_work p < port_weight p + port_work q
Move-lt c (listen m e) = rw (e, m) (ground arith)
Move-lt c (refuse x m e) = rw (e, m) (ground arith)
Move-lt c (take_conn world session conn m o k e) = rw e (ground arith)
Move-lt c (close_socket o d e) = rw (e, o) (ground arith)
Move-lt c (break_off m k d e) = rw (e, m) (ground arith)
Move-lt c (fail_late m k d e) = rw (e, m) (ground arith)
Move-lt c (sleep m d e) = absurd (cc)
Move-lt c (wake m e) = rw (e, m) (ground arith)
Move-lt c (give_up x m d e) = absurd (cc)
Move-lt c (leave m d e) = rw (e, m) (ground arith)

Writes-lt :
    {p q : Port} {entry : Entry}
    → Writes p q entry
    → port_weight q + port_work p < port_weight p + port_work q
Writes-lt {p} {q} {entry} (write_next before after j rest x y e) =
    let k : Job = record j { written = entry ∷ j.written; pending = rest } in
    rw (e, x)
      (omega (
        arith,
        ap length y,
        sum_by_middle job_weight before after j,
        sum_by_middle job_work before after j,
        sum_by_middle job_weight before after k,
        sum_by_middle job_work before after k,
      ))

-- The same for the daemon, where one of its listeners has taken a step.
ports_lt :
    (s : Daemon) (before after : List Port) (p q : Port)
    → s.ports ≡ before ++ p ∷ after
    → port_weight q + port_work p < port_weight p + port_work q
    → sum_by port_weight (before ++ q ∷ after) + work s
      < sum_by port_weight s.ports + sum_by port_work (before ++ q ∷ after)
ports_lt s before after p q e h = rw e (
    omega (
      arith,
      h,
      sum_by_middle port_weight before after p,
      sum_by_middle port_work before after p,
      sum_by_middle port_weight before after q,
      sum_by_middle port_work before after q,
    ))

test_lt : (o : Option Bytes) (c : Bool) → place_weight (after_test o c) < 4
test_lt (some e) true = omega arith
test_lt (some e) false = omega arith
test_lt none c = omega arith

place_lt :
    (p : Port) (m : Place)
    → place_weight m < place_weight p.place
    → port_weight (record p { place = m }) + port_work (record p { place = m })
      < port_weight p + port_work p
place_lt p m h = omega (arith, h)

pub Step-lt :
    {u : Setup} {s t : Daemon}
    → s.cancelled ≡ true
    → Step u s t
    → measure t + work s < measure s + work t
Step-lt c (signal x e) = rw e (rw x (omega arith))
Step-lt {s = s} c (move before after p q x m e) =
    rw e (omega (arith, ports_lt s before after p q x (Move-lt c m)))
Step-lt {s = s} c (write before after p q entry x k e) =
    rw e (omega (arith, ports_lt s before after p q x (Writes-lt k)))
Step-lt {s = s} c (test before after p o x l e) =
    let m = after_test o s.cancelled in
    rw e (
      omega (
        arith,
        ports_lt s before after p (record p { place = m }) x
            (place_lt p m (rw l (test_lt o s.cancelled))),
      ))
Step-lt {s = s} c (report before after p y x m e) = rw e (
    omega (
      arith,
      ports_lt s before after p (record p { place = cancelling y }) x
          (place_lt p (cancelling y) (rw m (omega arith))),
    ))
Step-lt {s = s} c (cancel before after p y x m e) = rw e (
    omega (
      arith,
      ports_lt s before after p (record p { place = ended (some y) }) x
          (place_lt p (ended (some y)) (rw m (omega arith))),
    ))
Step-lt c (receive y rest m w e) = rw e (rw m (omega arith))
Step-lt c (finish m a e) = rw e (rw m (omega arith))
Step-lt c (drain y m a e) = rw e (rw m (omega arith))

-- The context stays cancelled.
pub Step-cancelled :
    {u : Setup} {s t : Daemon} → Step u s t → s.cancelled ≡ true → t.cancelled ≡ true
Step-cancelled (signal x e) c = rw e refl
Step-cancelled (move before after p q x m e) c = rw e c
Step-cancelled (write before after p q entry x k e) c = rw e c
Step-cancelled (test before after p o x l e) c = rw e c
Step-cancelled (report before after p y x m e) c = rw e c
Step-cancelled (cancel before after p y x m e) c = rw e refl
Step-cancelled (receive y rest m w e) c = rw e c
Step-cancelled (finish m a e) c = rw e refl
Step-cancelled (drain y m a e) c = rw e refl
