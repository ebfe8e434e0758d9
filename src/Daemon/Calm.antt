-- ===== src/Daemon/Calm.antt =====
-- When a listener waits for its connections: only behind a cancelled context.
use fingered.Base.{
  ◌≡◌, refl, Bool, true, false, List, [], ◌∷◌, ◌++◌, map, Option, none, some, Bytes, All, All-map,
  All_middle,
}
use fingered.Content.Resolve.{listener_modes, ListenerMode}
use fingered.Goroutine.{
  Setup, Place, opening, accepting, sleeping, waiting, left, failing, cancelling, ended, Port, Move,
  listen, refuse, take_conn, close_socket, break_off, fail_late, sleep, wake, give_up, leave,
  write_next, after_test, new_port,
}
use fingered.Daemon.{
  Daemon, Step, signal, move, write, test, report, cancel, receive, finish, drain, Reach, here,
  later,
}

-- `runListener` waits for its connections, and returns no error, only behind a cancelled context.
abbrev pub IsCalmPlace : Bool → Place → Type 0
IsCalmPlace c opening = Unit
IsCalmPlace c accepting = Unit
IsCalmPlace c sleeping = Unit
IsCalmPlace c waiting = c ≡ true
IsCalmPlace c (left none) = c ≡ true
IsCalmPlace c (left (some e)) = Unit
IsCalmPlace c (failing e) = Unit
IsCalmPlace c (cancelling e) = Unit
IsCalmPlace c (ended o) = Unit

abbrev pub IsCalm : Bool → Port → Type 0
IsCalm c p = IsCalmPlace c p.place

abbrev pub AreCalm : Daemon → Type 0
AreCalm s = All (IsCalm s.cancelled) s.ports

calm_cancelled : (c : Bool) (m : Place) → IsCalmPlace c m → IsCalmPlace true m
calm_cancelled c opening h = tt
calm_cancelled c accepting h = tt
calm_cancelled c sleeping h = tt
calm_cancelled c waiting h = refl
calm_cancelled c (left none) h = refl
calm_cancelled c (left (some e)) h = tt
calm_cancelled c (failing e) h = tt
calm_cancelled c (cancelling e) h = tt
calm_cancelled c (ended o) h = tt

all_cancelled : (s : Daemon) → AreCalm s → All (IsCalm true) s.ports
all_cancelled s h =
    All-map (IsCalm s.cancelled) (IsCalm true) (λ p. calm_cancelled s.cancelled p.place) s.ports h

-- One port in another place
put :
    (s : Daemon) (before after : List Port) (p q : Port)
    → s.ports ≡ before ++ p ∷ after
    → (IsCalm s.cancelled p → IsCalm s.cancelled q)
    → AreCalm s
    → All (IsCalm s.cancelled) (before ++ q ∷ after)
put s before after p q e f h =
    let (hp, rest) = All_middle (IsCalm s.cancelled) before after p (rw e at h) in rest q (f hp)

Move-IsCalm : {u : Setup} {c : Bool} {p q : Port} → Move u c p q → IsCalm c p → IsCalm c q
Move-IsCalm (listen m e) h = rw e tt
Move-IsCalm (refuse x m e) h = rw e tt
Move-IsCalm (take_conn world session conn m o k e) h = rw e h
Move-IsCalm (close_socket o c e) h = rw e h
Move-IsCalm (break_off m k c e) h = rw e c
Move-IsCalm (fail_late m k c e) h = rw e c
Move-IsCalm (sleep m c e) h = rw e tt
Move-IsCalm (wake m e) h = rw e tt
Move-IsCalm (give_up x m c e) h = rw e tt
Move-IsCalm (leave m d e) h = rw e (rw m at h)

after_test-IsCalm : (o : Option Bytes) (c : Bool) → IsCalmPlace c (after_test o c)
after_test-IsCalm (some e) true = tt
after_test-IsCalm (some e) false = tt
after_test-IsCalm none c = tt

Step-AreCalm : {u : Setup} {s t : Daemon} → Step u s t → AreCalm s → AreCalm t
Step-AreCalm {s = s} (signal x e) h = rw e (all_cancelled s h)
Step-AreCalm {s = s} (move before after p q x m e) h =
    rw e (put s before after p q x (Move-IsCalm m) h)
Step-AreCalm {s = s} (write before after p q entry x (write_next b a j rest y z k) e) h =
    rw e (put s before after p q x (λ g. rw k g) h)
Step-AreCalm {s = s} (test before after p o x l e) h =
    rw e (put s before after p _ x (λ g. after_test-IsCalm o s.cancelled) h)
Step-AreCalm {s = s} (report before after p x y m e) h = rw e (put s before after p _ y (λ g. tt) h)
Step-AreCalm {s = s} (cancel before after p x y m e) h = rw e (
    let put_calm = All_middle (IsCalm true) before after p (rw y at (all_cancelled s h)) in
    put_calm.1 _ tt)
Step-AreCalm (receive x rest m w e) h = rw e h
Step-AreCalm {s = s} (finish m a e) h = rw e (all_cancelled s h)
Step-AreCalm {s = s} (drain x m a e) h = rw e (all_cancelled s h)

start-AreCalm : (ms : List ListenerMode) → All (IsCalm false) (map new_port ms)
start-AreCalm [] = tt
start-AreCalm (m ∷ ms) = (tt, start-AreCalm ms)

pub Reach-AreCalm : {u : Setup} {s : Daemon} → Reach u s → AreCalm s
Reach-AreCalm {u} here = start-AreCalm (listener_modes u.config)
Reach-AreCalm (later r step) = Step-AreCalm step (Reach-AreCalm r)
