-- ===== src/Daemon/Refined.antt =====
-- The daemon refines `Run`: each of its steps is a step of that relation, or none.
use fingered.Base.{
  ◌≡◌, ◌⊎◌, inl, inr, refl, sym, subst, ap, ◌∙◌, Bool, true, false, List, [], ◌∷◌, ◌++◌, map,
  Option, none, some, Bytes, length, All, All_middle, map_middle, length-map, replicate,
}
use fingered.Content.Resolve.{listener_modes, ListenerMode}
use fingered.Run.{Listener, listening, Server}
use fingered.Run
use fingered.Goroutine.{
  Setup, Place, opening, accepting, sleeping, waiting, left, failing, cancelling, ended, Port, Move,
  listen, refuse, take_conn, close_socket, break_off, fail_late, sleep, wake, give_up, leave,
  write_next, after_test, failures_after, is_ended, new_port,
}
use fingered.Daemon.{
  Daemon, Step, signal, move, write, test, report, cancel, receive, finish, drain, start, Reach,
  here, later,
}
use fingered.Daemon.Calm.{IsCalmPlace, IsCalm, AreCalm, Reach-AreCalm}

-- Inside `runListener` a listener is listening.
abbrev pub view_place : Place → Listener
view_place opening = listening
view_place accepting = listening
view_place sleeping = listening
view_place waiting = listening
view_place (left o) = listening
view_place (failing e) = Run.failing e
view_place (cancelling e) = Run.cancelling
view_place (ended o) = Run.ended

abbrev pub view_port : Port → Listener
view_port p = view_place p.place

abbrev pub view : Daemon → Server
view s = record {
  listeners = map view_port s.ports;
  main = s.main;
  cancelled = s.cancelled;
  sent = s.sent;
  failures = s.failures;
  signalled = s.signalled;
}

-- Moves inside `runListener` and writes are not seen from outside.
Move-view : {u : Setup} {c : Bool} {p q : Port} → Move u c p q → view_port p ≡ view_port q
Move-view (listen m e) = rw (e, m) refl
Move-view (refuse x m e) = rw (e, m) refl
Move-view (take_conn world session conn m o k e) = rw e refl
Move-view (close_socket o c e) = rw e refl
Move-view (break_off m k c e) = rw (e, m) refl
Move-view (fail_late m k c e) = rw (e, m) refl
Move-view (sleep m c e) = rw (e, m) refl
Move-view (wake m e) = rw (e, m) refl
Move-view (give_up x m c e) = rw (e, m) refl
Move-view (leave m d e) = rw (e, m) refl

view_split :
    (s : Daemon) (before after : List Port) (p : Port) (l : Listener)
    → s.ports ≡ before ++ p ∷ after
    → view_port p ≡ l
    → map view_port s.ports ≡ map view_port before ++ l ∷ map view_port after
view_split s before after p l e v =
    ap (map view_port) e ∙ rw⁻¹ v (map_middle view_port before after p)

same_view :
    (s : Daemon) (before after : List Port) (p q : Port)
    → s.ports ≡ before ++ p ∷ after
    → view_port p ≡ view_port q
    → map view_port (before ++ q ∷ after) ≡ map view_port s.ports
same_view s before after p q e v =
    map_middle view_port before after q ∙ sym (view_split s before after p (view_port q) e v)

all-IsEnded :
    (ps : List Port) → All (λ p. is_ended p.place ≡ true) ps → All Run.IsEnded (map view_port ps)
all-IsEnded [] h = tt
all-IsEnded (p ∷ ps) (e, h) = (place_ended p.place e, all-IsEnded ps h)
  where
    place_ended : (m : Place) → is_ended m ≡ true → view_place m ≡ Run.ended
    place_ended (ended o) e = refl
    place_ended opening e = absurd (cc)
    place_ended accepting e = absurd (cc)
    place_ended sleeping e = absurd (cc)
    place_ended waiting e = absurd (cc)
    place_ended (left o) e = absurd (cc)
    place_ended (failing x) e = absurd (cc)
    place_ended (cancelling x) e = absurd (cc)

-- Behind `runListener`, the test of its error is a step of `Run`.
tested :
    (s : Daemon) (before after : List Port) (p : Port) (o : Option Bytes) (c : Bool)
    → s.ports ≡ before ++ p ∷ after
    → p.place ≡ left o
    → s.cancelled ≡ c
    → IsCalmPlace c (left o)
    → Run.Step (view s) (record (view s) {
      listeners = map view_port before ++ view_place (after_test o c) ∷ map view_port after;
      failures = failures_after o c s.failures;
    })
tested s before after p (some x) false e l c h =
    Run.fail (map view_port before) (map view_port after) x
      (view_split s before after p listening e (rw l refl)) c refl
tested s before after p (some x) true e l c h =
    Run.stop (map view_port before) (map view_port after)
      (view_split s before after p listening e (rw l refl)) c refl
tested s before after p none c e l d h =
    Run.stop (map view_port before) (map view_port after)
      (view_split s before after p listening e (rw l refl)) (d ∙ h) refl

-- Every step of the daemon that `Run` can see is a step of `Run`.
Step-view :
    {u : Setup} {s t : Daemon}
    → AreCalm s
    → Step u s t
    → (view t ≡ view s) ⊎ Run.Step (view s) (view t)
Step-view h (signal x e) = inr (Run.signal x (ap view e))
Step-view {s = s} h (move before after p q x m e) = inl (
    ap view e
    ∙ ap (λ ls. record (view s) { listeners = ls }) (same_view s before after p q x (Move-view m)))
Step-view {s = s} h (write before after p q entry x (write_next b a j rest y z k) e) = inl (
    ap view e
    ∙ ap (λ ls. record (view s) { listeners = ls }) (same_view s before after p q x (rw k refl)))
Step-view {s = s} {t = t} h (test before after p o x l e) =
    let calm = (All_middle (IsCalm s.cancelled) before after p (rw x at h)).0 in
    inr (
      subst (Run.Step (view s))
        (ap
            (λ ls. record (view s) {
              listeners = ls;
              failures = failures_after o s.cancelled s.failures;
            })
            (sym
              (map_middle view_port before after (record p { place = after_test o s.cancelled })))
          ∙ ap view (sym e))
        (tested s before after p o s.cancelled x l refl (rw l at calm)))
Step-view {s = s} h (report before after p y x m e) = inr (
    Run.report (map view_port before) (map view_port after) y
      (view_split s before after p (Run.failing y) x (rw m refl))
      (ap view e
        ∙ ap (λ ls. record (view s) { listeners = ls; sent = Run.send (length s.ports) y s.sent })
            (map_middle view_port before after (record p { place = cancelling y }))
        ∙ ap
            (λ n. record (view s) {
              listeners = map view_port before ++ Run.cancelling ∷ map view_port after;
              sent = Run.send n y s.sent;
            })
            (sym (length-map view_port s.ports))))
Step-view {s = s} h (cancel before after p y x m e) = inr (
    Run.cancel (map view_port before) (map view_port after)
      (view_split s before after p Run.cancelling x (rw m refl))
      (ap view e
        ∙ ap (λ ls. record (view s) { listeners = ls; cancelled = true })
            (map_middle view_port before after (record p { place = ended (some y) }))))
Step-view h (receive y rest m w e) = inr (Run.receive y rest m w (ap view e))
Step-view {s = s} h (finish m a e) = inr (Run.finish m (all-IsEnded s.ports a) (ap view e))
Step-view {s = s} h (drain y m a e) = inr (Run.drain y m (all-IsEnded s.ports a) (ap view e))

view-start : (u : Setup) → view (start u) ≡ Run.start (length (listener_modes u.config))
view-start u =
    ap (λ ls. record (view (start u)) { listeners = ls }) (all_listening (listener_modes u.config))
  where
    all_listening :
        (ms : List ListenerMode) → map view_port (map new_port ms) ≡ replicate (length ms) listening
    all_listening [] = refl
    all_listening (m ∷ ms) = ap (◌∷◌ listening) (all_listening ms)

-- Whatever the goroutines of the listeners and of their connections do, and in whatever order, what can
-- be seen of them from `Run` is a run of its step relation with as many listeners as the configuration
-- has: there a listener stops without an error only if the context is cancelled.
pub Reach-refines :
    {u : Setup} {s : Daemon} → Reach u s → Run.Reach (length (listener_modes u.config)) (view s)
Reach-refines {u} here =
    subst (Run.Reach (length (listener_modes u.config))) (sym (view-start u)) Run.here
Reach-refines {u} (later r step) = elim (Step-view (Reach-AreCalm r) step) [
  | inl e ↦ subst (Run.Reach (length (listener_modes u.config))) (sym e) (Reach-refines r)
  | inr st ↦ Run.later (Reach-refines r) st
]
