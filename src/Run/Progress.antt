-- ===== src/Run/Progress.antt =====
-- `Run` ends: no step can be taken for ever, and a cancelled server that has not returned has a step.
use fingered.Base.{
  replicate, ℕ, zero, suc, ◌+◌, ◌*◌, ◌<◌, ◌≤◌, ◌≡◌, ◌≢◌, ◌⊎◌, inl, inr, refl, ap, true, false, List,
  [], ◌∷◌, ◌++◌, All, arith, if◌then◌else◌, Bool-cases,
}
use fingered.Run.{
  Listener, listening, failing, cancelling, ended, Main, selecting, draining, returned, Server,
  IsEnded, AllEnded, Step, signal, stop, fail, report, cancel, receive, finish, drain, start,
}
use fingered.Run.Invariant.{is_returned}

-- How many steps a part can still take
abbrev pub weight : Listener → ℕ
weight listening = 3
weight (failing e) = 2
weight cancelling = 1
weight ended = 0

abbrev pub total : List Listener → ℕ
total [] = 0
total (l ∷ ls) = weight l + total ls

abbrev pub main_weight : Main → ℕ
main_weight selecting = 2
main_weight (draining e) = 1
main_weight (returned o) = 0

abbrev pub measure : Server → ℕ
measure s = total s.listeners + main_weight s.main + (if s.signalled then 0 else 1)

total_middle :
    (before after : List Listener) (l : Listener)
    → total (before ++ l ∷ after) ≡ total before + weight l + total after
total_middle [] after l = omega arith
total_middle (b ∷ before) after l = omega (arith, total_middle before after l)

moved :
    (s : Server) (before after : List Listener) (l m : Listener)
    → s.listeners ≡ before ++ l ∷ after
    → weight m < weight l
    → total (before ++ m ∷ after) < total s.listeners
moved s before after l m at_l h =
    rw at_l (omega (arith, total_middle before after l, total_middle before after m))

Step-lt : {s t : Server} → Step s t → measure t < measure s
Step-lt {s} {t} (signal quiet q) = rw q (rw quiet (omega arith))
Step-lt {s} {t} (stop before after at_l c q) =
    rw q (omega (arith, moved s before after listening ended at_l (omega arith)))
Step-lt {s} {t} (fail before after e at_l c q) =
    rw q (omega (arith, moved s before after listening (failing e) at_l (omega arith)))
Step-lt {s} {t} (report before after e at_l q) =
    rw q (omega (arith, moved s before after (failing e) cancelling at_l (omega arith)))
Step-lt {s} {t} (cancel before after at_l q) =
    rw q (omega (arith, moved s before after cancelling ended at_l (omega arith)))
Step-lt {s} {t} (receive e rest m w q) = rw q (rw m (omega arith))
Step-lt {s} {t} (finish m a q) = rw q (rw m (omega arith))
Step-lt {s} {t} (drain e m a q) = rw q (rw m (omega arith))

-- A listener that has not ended, if there is one
find_running :
    (ls : List Listener)
    → All IsEnded ls
      ⊎ ((before : List Listener) × (l : Listener) × (after : List Listener) × (ls
            ≡ before ++ l ∷ after)
          × (l ≢ ended))
find_running [] = inl tt
find_running (listening ∷ ls) = inr ([], listening, ls, refl, λ e. cc e)
find_running (failing e ∷ ls) = inr ([], failing e, ls, refl, λ e. cc e)
find_running (cancelling ∷ ls) = inr ([], cancelling, ls, refl, λ e. cc e)
find_running (ended ∷ ls) = elim (find_running ls) [
  | inl h ↦ inl (refl, h)
  | inr (before, l, after, e, ne) ↦ inr (ended ∷ before, l, after, ap (◌∷◌ ended) e, ne)
]

step_of_listener :
    (s : Server) (before : List Listener) (l : Listener) (after : List Listener)
    → s.cancelled ≡ true
    → s.listeners ≡ before ++ l ∷ after
    → l ≢ ended
    → (t : Server) × Step s t
step_of_listener s before listening after c e ne = (_, stop before after e c refl)
step_of_listener s before (failing x) after c e ne = (_, report before after x e refl)
step_of_listener s before cancelling after c e ne = (_, cancel before after e refl)
step_of_listener s before ended after c e ne = absurd (ne refl)

step_of_main :
    (s : Server) (m : Main)
    → s.main ≡ m
    → is_returned m ≡ false
    → AllEnded s
    → (t : Server) × Step s t
step_of_main s selecting e r a = (_, finish e a refl)
step_of_main s (draining x) e r a = (_, drain x e a refl)
step_of_main s (returned o) e r a = absurd (cc)

pub step_of :
    (s : Server) → s.cancelled ≡ true → is_returned s.main ≡ false → (t : Server) × Step s t
step_of s c r = elim (find_running s.listeners) [
  | inl a ↦ step_of_main s s.main refl r a
  | inr (before, l, after, e, ne) ↦ step_of_listener s before l after c e ne
]

-- The states after k steps
pub data Runs (s : Server) : ℕ → Server → Type 0 where
  none_yet : Runs s 0 s
  and_then : {k : ℕ} {t u : Server} → Runs s k t → Step t u → Runs s (suc k) u

Runs-le : {s : Server} {k : ℕ} {t : Server} → Runs s k t → k + measure t ≤ measure s
Runs-le none_yet = omega arith
Runs-le (and_then r step) = omega (arith, Runs-le r, Step-lt step)

total-replicate : (n : ℕ) → total (replicate n listening) ≡ 3 * n
total-replicate zero = refl
total-replicate (suc n) = omega (arith, total-replicate n)

-- Run with n listeners takes at most 3 * n + 3 steps, and wherever it stands with the context
-- cancelled, it has returned or can go on.
pub run_ends :
    {k : ℕ} {s : Server} (n : ℕ)
    → Runs (start n) k s
    → (k ≤ 3 * n + 3)
      × (s.cancelled ≡ true → (is_returned s.main ≡ true) ⊎ ((t : Server) × Step s t))
run_ends {k} {s} n r = (
  omega (arith, Runs-le r, total-replicate n),
  λ c. elim (Bool-cases (is_returned s.main)) [ inl e ↦ inl e | inr e ↦ inr (step_of s c e) ],
)
