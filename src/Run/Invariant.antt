-- ===== src/Run/Invariant.antt =====
-- What holds in every state of `Run`.
use fingered.Base.{
  replicate, ℕ, zero, suc, ◌≡◌, ◌⊎◌, refl, ap, Bool, true, false, ◌||◌, List, [], ◌∷◌, none, some,
  Bytes, length, All,
}
use fingered.Run.{
  Listener, listening, failing, cancelling, ended, Main, selecting, draining, returned, Server,
  AllEnded, start,
}

-- The error is one of the list.
abbrev pub IsAmong : Bytes → List Bytes → Type 0
IsAmong e [] = ⊥
IsAmong e (x ∷ xs) = (e ≡ x) ⊎ IsAmong e xs

abbrev pub is_taken : Main → Bool
is_taken selecting = false
is_taken (draining e) = true
is_taken (returned none) = false
is_taken (returned (some e)) = true

abbrev pub is_returned : Main → Bool
is_returned (returned o) = true
is_returned selecting = false
is_returned (draining e) = false

abbrev pub is_cons {ℓ} : {A : Type ℓ} → List A → Bool
is_cons [] = false
is_cons (x ∷ xs) = true

-- An error waits in the channel, or it has been received.
abbrev pub traced : Server → Bool
traced s = is_cons s.sent || is_taken s.main

-- What a listener has left behind: the record of its error, the trace of its report, the cancelled context
abbrev pub IsSound : List Bytes → Bool → Bool → Listener → Type 0
IsSound failures cancelled traced listening = Unit
IsSound failures cancelled traced (failing e) = IsAmong e failures
IsSound failures cancelled traced cancelling = traced ≡ true
IsSound failures cancelled traced ended = cancelled ≡ true

abbrev pub IsReported : List Bytes → Main → Type 0
IsReported failures selecting = Unit
IsReported failures (draining e) = IsAmong e failures
IsReported failures (returned none) = Unit
IsReported failures (returned (some e)) = IsAmong e failures

pub record Inv (n : ℕ) (s : Server) : Type 0 where
  pub count : length s.listeners ≡ n
  pub sound : All (IsSound s.failures s.cancelled (traced s)) s.listeners
  pub recorded : All (λ e. IsAmong e s.failures) s.sent
  pub reported : IsReported s.failures s.main
  pub final : is_returned s.main ≡ true → AllEnded s
  pub silent : s.signalled ≡ false → s.cancelled ≡ true → traced s ≡ true

pub IsSound-grow :
    (fs gs : List Bytes) (c d v w : Bool) (l : Listener)
    → ((e : Bytes) → IsAmong e fs → IsAmong e gs)
    → (c ≡ true → d ≡ true)
    → (v ≡ true → w ≡ true)
    → IsSound fs c v l
    → IsSound gs d w l
IsSound-grow fs gs c d v w listening f g h k = tt
IsSound-grow fs gs c d v w (failing e) f g h k = f e k
IsSound-grow fs gs c d v w cancelling f g h k = h k
IsSound-grow fs gs c d v w ended f g h k = g k

replicate-listening : (n : ℕ) → All (IsSound [] false false) (replicate n listening)
replicate-listening zero = tt
replicate-listening (suc n) = (tt, replicate-listening n)

length-replicate : (n : ℕ) → length (replicate n listening) ≡ n
length-replicate zero = refl
length-replicate (suc n) = ap suc (length-replicate n)

pub start-Inv : (n : ℕ) → Inv n (start n)
start-Inv n = record {
  count = length-replicate n;
  sound = replicate-listening n;
  recorded = tt;
  reported = tt;
  final = λ e. absurd (cc);
  silent = λ e f. f;
}
