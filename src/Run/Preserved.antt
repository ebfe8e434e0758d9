-- ===== src/Run/Preserved.antt =====
-- Every step of `Run` keeps the invariant.
use fingered.Base.{
  All_middle, length_middle, ℕ, ◌<◌, ◌≡◌, ◌≢◌, inl, inr, refl, sym, subst, ap, ◌∙◌, Bool, true,
  false, ◌||◌, List, [], ◌∷◌, ◌++◌, none, some, Bytes, ltb, length, All, All-append, All-map, arith,
  Bool-cases,
}
use fingered.Run.{
  Listener, listening, failing, cancelling, ended, Main, selecting, draining, returned, Server,
  send, IsEnded, Step, signal, stop, fail, report, cancel, receive, finish, drain, Reach, here,
  later,
}
use fingered.Run.Invariant.{
  IsAmong, is_taken, is_returned, is_cons, traced, IsSound, IsReported, Inv, IsSound-grow,
  start-Inv,
}

is_cons-send :
    (capacity : ℕ) (e : Bytes) (sent : List Bytes)
    → 0 < capacity
    → is_cons (send capacity e sent) ≡ true
unfolding send
is_cons-send capacity e [] h = ground arith
is_cons-send capacity e (x ∷ sent) h = ground arith

All-send :
    (P : Bytes → Type 0) (capacity : ℕ) (e : Bytes) (sent : List Bytes)
    → P e
    → All P sent
    → All P (send capacity e sent)
unfolding send
All-send P capacity e sent pe h = elim (Bool-cases (ltb (length sent) capacity)) [
  | inl x ↦ rw x (All-append P sent (e ∷ []) h (pe, tt))
  | inr x ↦ rw x h
]

IsReported-grow : (fs : List Bytes) (e : Bytes) (m : Main) → IsReported fs m → IsReported (e ∷ fs) m
IsReported-grow fs e selecting h = tt
IsReported-grow fs e (draining x) h = inr h
IsReported-grow fs e (returned none) h = tt
IsReported-grow fs e (returned (some x)) h = inr h

pos-length_middle : (before after : List Listener) (l : Listener) → 0 < length (before ++ l ∷ after)
pos-length_middle [] after l = omega arith
pos-length_middle (b ∷ before) after l = omega arith

-- A listener that has ended shows that the context is cancelled.
pub ended-cancelled :
    (n : ℕ) (fs : List Bytes) (c v : Bool) (ls : List Listener)
    → 0 < n
    → length ls ≡ n
    → All IsEnded ls
    → All (IsSound fs c v) ls
    → c ≡ true
ended-cancelled n fs c v [] h k a b = absurd (omega arith)
ended-cancelled n fs c v (l ∷ ls) h k (e, a) (b, bs) = rw e at b

-- The invariant with its listeners grown, and then one of them in another place
grown :
    (s : Server) (gs : List Bytes) (d w : Bool)
    → ((e : Bytes) → IsAmong e s.failures → IsAmong e gs)
    → (s.cancelled ≡ true → d ≡ true)
    → (traced s ≡ true → w ≡ true)
    → All (IsSound s.failures s.cancelled (traced s)) s.listeners
    → All (IsSound gs d w) s.listeners
grown s gs d w f g h k =
    All-map _ (IsSound gs d w) (λ l. IsSound-grow s.failures gs s.cancelled d (traced s) w l f g h)
      s.listeners k

module _ {n : ℕ} (s : Server) (inv : Inv n s) (before after : List Listener) (l m : Listener)
    (at_l : s.listeners ≡ before ++ l ∷ after) where
  put : (P : Listener → Type 0) → All P s.listeners → P m → All P (before ++ m ∷ after)
  put P h pm = (All_middle P before after l (rw at_l at h)).1 m pm

  taken_out : (P : Listener → Type 0) → All P s.listeners → P l
  taken_out P h = (All_middle P before after l (rw at_l at h)).0

  not_final : l ≢ ended → is_returned s.main ≡ true → ⊥
  not_final ne r = ne (taken_out IsEnded (inv.final r))

  count_put : length (before ++ m ∷ after) ≡ n
  count_put = length_middle before after m l ∙ ap length (sym at_l) ∙ inv.count

  several : 0 < length s.listeners
  several = rw at_l (pos-length_middle before after l)

Step-Inv : {n : ℕ} {s t : Server} → 0 < n → Inv n s → Step s t → Inv n t
Step-Inv {n} {s} h inv (signal quiet q) = subst (Inv n) (sym q) (record {
  count = inv.count;
  sound = grown s s.failures true (traced s) (λ e k. k) (λ k. refl) (λ k. k) inv.sound;
  recorded = inv.recorded;
  reported = inv.reported;
  final = inv.final;
  silent = λ e f. absurd (cc);
})
Step-Inv {n} {s} h inv (stop before after at_l c q) = subst (Inv n) (sym q) (record {
  count = count_put s inv before after listening ended at_l;
  sound = put s inv before after listening ended at_l _ inv.sound c;
  recorded = inv.recorded;
  reported = inv.reported;
  final = λ r. absurd (not_final s inv before after listening ended at_l (λ e. cc) r);
  silent = inv.silent;
})
Step-Inv {n} {s} h inv (fail before after e at_l c q) = subst (Inv n) (sym q) (record {
  count = count_put s inv before after listening (failing e) at_l;
  sound =
      put s inv before after listening (failing e) at_l _
        (grown s (e ∷ s.failures) s.cancelled (traced s) (λ x k. inr k) (λ k. k) (λ k. k) inv.sound)
        (inl refl);
  recorded = All-map _ _ (λ x k. inr k) s.sent inv.recorded;
  reported = IsReported-grow s.failures e s.main inv.reported;
  final = λ r. absurd (not_final s inv before after listening ended at_l (λ x. cc) r);
  silent = λ x f. absurd (cc);
})
Step-Inv {n} {s} h inv (report before after e at_l q) =
    let full =
      is_cons-send (length s.listeners) e s.sent
        (several s inv before after (failing e) ended at_l) in
    let seen : (is_cons (send (length s.listeners) e s.sent) || is_taken s.main) ≡ true =
      rw full refl in
    subst (Inv n) (sym q) (record {
      count = count_put s inv before after (failing e) cancelling at_l;
      sound =
          put s inv before after (failing e) cancelling at_l _
            (grown s s.failures s.cancelled _ (λ x k. k) (λ k. k) (λ k. seen) inv.sound) seen;
      recorded =
          All-send _ (length s.listeners) e s.sent
            (taken_out s inv before after (failing e) ended at_l _ inv.sound) inv.recorded;
      reported = inv.reported;
      final = λ r. absurd (not_final s inv before after (failing e) ended at_l (λ x. cc) r);
      silent = λ x f. seen;
    })
Step-Inv {n} {s} h inv (cancel before after at_l q) = subst (Inv n) (sym q) (record {
  count = count_put s inv before after cancelling ended at_l;
  sound =
      put s inv before after cancelling ended at_l _
        (grown s s.failures true (traced s) (λ x k. k) (λ k. refl) (λ k. k) inv.sound) refl;
  recorded = inv.recorded;
  reported = inv.reported;
  final = λ r. absurd (not_final s inv before after cancelling ended at_l (λ x. cc) r);
  silent = λ x f. taken_out s inv before after cancelling ended at_l _ inv.sound;
})
Step-Inv {n} {s} h inv (receive e rest m w q) = subst (Inv n) (sym q) (record {
  count = inv.count;
  sound =
      grown s s.failures s.cancelled _ (λ x k. k) (λ k. k) (λ k. or_true (is_cons rest)) inv.sound;
  recorded = (rw w at inv.recorded).1;
  reported = (rw w at inv.recorded).0;
  final = λ r. absurd (cc);
  silent = λ x f. or_true (is_cons rest);
})
  where
    or_true : (b : Bool) → (b || true) ≡ true
    or_true b = ground arith
Step-Inv {n} {s} h inv (finish m a q) =
    let c =
      ended-cancelled n s.failures s.cancelled (traced s) s.listeners h inv.count a inv.sound in
    let kept : traced s ≡ true → (is_cons s.sent || false) ≡ true = ground (arith, ap is_taken m) in
    subst (Inv n) (sym q) (record {
      count = inv.count;
      sound = grown s s.failures true _ (λ x k. k) (λ k. refl) kept inv.sound;
      recorded = inv.recorded;
      reported = tt;
      final = λ r. a;
      silent = λ x f. kept (inv.silent x c);
    })
Step-Inv {n} {s} h inv (drain e m a q) = subst (Inv n) (sym q) (record {
  count = inv.count;
  sound =
      grown s s.failures true _ (λ x k. k) (λ k. refl) (λ k. or_true (is_cons s.sent)) inv.sound;
  recorded = inv.recorded;
  reported = rw m at inv.reported;
  final = λ r. a;
  silent = λ x f. or_true (is_cons s.sent);
})
  where
    or_true : (b : Bool) → (b || true) ≡ true
    or_true b = ground arith

pub Reach-Inv : {n : ℕ} {s : Server} → 0 < n → Reach n s → Inv n s
Reach-Inv {n} h here = start-Inv n
Reach-Inv h (later r step) = Step-Inv h (Reach-Inv h r) step
