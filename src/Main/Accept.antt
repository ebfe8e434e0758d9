-- ===== src/Main/Accept.antt =====
-- `runListener`: the accept loop, over what `Accept` yields.
use fingered.Base.{◌≡◌, ◌⊎◌, Bool, true, false, List, [], ◌∷◌, ◌++◌, Option, none, some, Bytes, All}
use fingered.Connection.{Connection}

-- A connection, or an error: whether the context is cancelled then, and whether the error is temporary
pub data Accept : Type 0 where
  accepted : Connection → Accept
  accept_failed : Bool → Bool → Bytes → Accept

-- Whether the listener still waits, and what it has returned if it does not
pub data Listened : Type 0 where
  waiting : Listened
  stopped : Option Bytes → Listened

unfoldable pub accept_loop : List Accept → List Connection × Listened
accept_loop [] = ([], waiting)
accept_loop (accepted conn ∷ es) = let (conns, end) = accept_loop es in (conn ∷ conns, end)
accept_loop (accept_failed true temporary e ∷ es) = ([], stopped none)
accept_loop (accept_failed false true e ∷ es) = accept_loop es
accept_loop (accept_failed false false e ∷ es) = ([], stopped (some e))

-- `runListener`, with the error of `net.Listen`
unfoldable pub run_listener : Option Bytes → List Accept → List Connection × Listened
unfolding accept_loop
run_listener (some e) es = ([], stopped (some e))
run_listener none es = accept_loop es

-- The loop goes on behind a connection, and behind a temporary error while the context is alive.
abbrev pub Continues : Accept → Type 0
Continues (accepted conn) = Unit
Continues (accept_failed cancelled temporary e) = (cancelled ≡ false) × (temporary ≡ true)

abbrev pub connections : List Accept → List Connection
connections [] = []
connections (accepted conn ∷ es) = conn ∷ connections es
connections (accept_failed cancelled temporary e ∷ es) = connections es

-- What the loop returns by the first event behind which it does not go on
abbrev pub IsEnd : List Accept → Listened → Type 0
IsEnd [] r = r ≡ waiting
IsEnd (accepted conn ∷ rest) r = ⊥
IsEnd (accept_failed cancelled temporary e ∷ rest) r =
    ((cancelled ≡ true) × (r ≡ stopped none))
    ⊎ ((cancelled ≡ false) × (temporary ≡ false) × (r ≡ stopped (some e)))

pub record IsAcceptRun (es : List Accept) (conns : List Connection) (r : Listened) : Type 0 where
  pub before : List Accept
  pub rest : List Accept
  pub split : es ≡ before ++ rest
  pub continues : All Continues before
  pub served : conns ≡ connections before
  pub end : IsEnd rest r

-- What `runListener` does with the answer of `net.Listen` and what `Accept` yields
abbrev pub IsListenerRun : Option Bytes → List Accept → List Connection → Listened → Type 0
IsListenerRun (some e) es conns r = (conns ≡ []) × (r ≡ stopped (some e))
IsListenerRun none es conns r = IsAcceptRun es conns r
