-- ===== src/Daemon/Graceful.antt =====
-- Listeners that have left without an error have waited for their connections.
use fingered.Base.{
  ◌≡◌, Bool, true, false, List, [], ◌∷◌, ◌++◌, map, Option, none, some, Bytes, All, All_middle,
}
use fingered.Content.Resolve.{ListenerMode, listener_modes}
use fingered.Log.Session.{Entry}
use fingered.Goroutine.{
  Setup, Job, Place, opening, accepting, sleeping, waiting, left, failing, cancelling, ended, Port,
  IsDone, Move, listen, refuse, take_conn, close_socket, break_off, fail_late, sleep, wake, give_up,
  leave, Writes, write_next, after_test, new_port,
}
use fingered.Daemon.{
  Daemon, Step, signal, move, write, test, report, cancel, receive, finish, drain, Reach, here,
  later,
}

-- Behind `wg.Wait`, all connections are done.
abbrev IsSettledAt : Place → List Job → Type 0
IsSettledAt opening js = Unit
IsSettledAt accepting js = Unit
IsSettledAt sleeping js = Unit
IsSettledAt waiting js = Unit
IsSettledAt (left none) js = All IsDone js
IsSettledAt (left (some e)) js = Unit
IsSettledAt (failing e) js = Unit
IsSettledAt (cancelling e) js = Unit
IsSettledAt (ended none) js = All IsDone js
IsSettledAt (ended (some e)) js = Unit

abbrev pub IsSettled : Port → Type 0
IsSettled p = IsSettledAt p.place p.jobs

unsettled :
    (m : Place) (js ks : List Job) → (All IsDone js → ⊥) → IsSettledAt m js → IsSettledAt m ks
unsettled opening js ks n h = tt
unsettled accepting js ks n h = tt
unsettled sleeping js ks n h = tt
unsettled waiting js ks n h = tt
unsettled (left none) js ks n h = absurd (n h)
unsettled (left (some e)) js ks n h = tt
unsettled (failing e) js ks n h = tt
unsettled (cancelling e) js ks n h = tt
unsettled (ended none) js ks n h = absurd (n h)
unsettled (ended (some e)) js ks n h = tt

after_test-IsSettled :
    (o : Option Bytes) (c : Bool) (js : List Job)
    → IsSettledAt (left o) js
    → IsSettledAt (after_test o c) js
after_test-IsSettled (some e) true js h = tt
after_test-IsSettled (some e) false js h = tt
after_test-IsSettled none c js h = h

Move-IsSettled : {u : Setup} {c : Bool} {p q : Port} → Move u c p q → IsSettled p → IsSettled q
Move-IsSettled (listen m e) h = rw e tt
Move-IsSettled (refuse x m e) h = rw e tt
Move-IsSettled (take_conn world session conn m o k e) h = rw (e, m) tt
Move-IsSettled (close_socket o c e) h = rw e h
Move-IsSettled (break_off m k c e) h = rw e tt
Move-IsSettled (fail_late m k c e) h = rw e tt
Move-IsSettled (sleep m c e) h = rw e tt
Move-IsSettled (wake m e) h = rw e tt
Move-IsSettled (give_up x m c e) h = rw e tt
Move-IsSettled (leave m d e) h = rw e d

Writes-IsSettled : {p q : Port} {entry : Entry} → Writes p q entry → IsSettled p → IsSettled q
Writes-IsSettled {p} (write_next before after j rest x y e) h = rw e (
    unsettled p.place p.jobs _
      (λ d. let gone = (All_middle IsDone before after j (rw x at d)).0 in cc (gone, y)) h)

put :
    (s : Daemon) (before after : List Port) (p q : Port)
    → s.ports ≡ before ++ p ∷ after
    → (IsSettled p → IsSettled q)
    → All IsSettled s.ports
    → All IsSettled (before ++ q ∷ after)
put s before after p q e f h =
    let (hp, others) = All_middle IsSettled before after p (rw e at h) in others q (f hp)

Step-AreSettled :
    {u : Setup} {s t : Daemon} → Step u s t → All IsSettled s.ports → All IsSettled t.ports
Step-AreSettled (signal x e) h = rw e h
Step-AreSettled {s = s} (move before after p q x m e) h =
    rw e (put s before after p q x (Move-IsSettled m) h)
Step-AreSettled {s = s} (write before after p q entry x k e) h =
    rw e (put s before after p q x (Writes-IsSettled k) h)
Step-AreSettled {s = s} (test before after p o x l e) h = rw e (
    put s before after p (record p { place = after_test o s.cancelled }) x
      (λ g. after_test-IsSettled o s.cancelled p.jobs (rw l at g)) h)
Step-AreSettled {s = s} (report before after p y x m e) h =
    rw e (put s before after p (record p { place = cancelling y }) x (λ g. tt) h)
Step-AreSettled {s = s} (cancel before after p y x m e) h =
    rw e (put s before after p (record p { place = ended (some y) }) x (λ g. tt) h)
Step-AreSettled (receive y rest m w e) h = rw e h
Step-AreSettled (finish m a e) h = rw e h
Step-AreSettled (drain y m a e) h = rw e h

new_port-IsSettled : (ms : List ListenerMode) → All IsSettled (map new_port ms)
new_port-IsSettled [] = tt
new_port-IsSettled (m ∷ ms) = (tt, new_port-IsSettled ms)

pub Reach-AreSettled : {u : Setup} {s : Daemon} → Reach u s → All IsSettled s.ports
Reach-AreSettled {u} here = new_port-IsSettled (listener_modes u.config)
Reach-AreSettled (later r step) = Step-AreSettled step (Reach-AreSettled r)
