-- ===== src/Content/Listeners.antt =====
-- `listenerModes` of a valid configuration.
use fingered.Base.{
  ◌≡◌, ◌≢◌, ◌⊎◌, inl, inr, refl, true, List, [], ◌∷◌, ◌++◌, eqb, eqb_iff, arith, All, All-append,
  Bool-cases,
}
use fingered.FilePath.{is_abs}
use fingered.Config.{Config, tls_enabled, plain_enabled, effective_tls_doc_root}
use fingered.Config.Valid.{IsValidConfig, IsPort}
use fingered.Content.Resolve.{ListenerMode, plain_mode, tls_mode, listener_modes}

-- A listener that can be opened
abbrev pub IsListener : ListenerMode → Type 0
IsListener m = IsPort m.port × (is_abs m.doc_root ≡ true)

effective_tls_doc_root-abs :
    (c : Config) → IsValidConfig c → is_abs (effective_tls_doc_root c) ≡ true
unfolding effective_tls_doc_root
effective_tls_doc_root-abs c v = elim (Bool-cases (eqb c.tls_doc_root [])) [
  | inl e ↦ rw e v.doc_root
  | inr e ↦ rw e (v.tls_doc_root (λ same. ground (arith, eqb_iff c.tls_doc_root [])))
]

plain_mode-IsListener : (c : Config) → IsValidConfig c → All IsListener (plain_mode c)
unfolding plain_mode
plain_mode-IsListener c v = elim (Bool-cases (plain_enabled c)) [
  | inl e ↦ rw e ((v.port, v.doc_root), tt)
  | inr e ↦ rw e tt
]

tls_mode-IsListener : (c : Config) → IsValidConfig c → All IsListener (tls_mode c)
unfolding tls_mode
tls_mode-IsListener c v = elim (Bool-cases (tls_enabled c)) [
  | inl e ↦ rw e (((v.tls e).tls_port, effective_tls_doc_root-abs c v), tt)
  | inr e ↦ rw e tt
]

some_mode : (c : Config) → IsValidConfig c → (plain_enabled c ≡ true) ⊎ (tls_enabled c ≡ true)
some_mode c v = elim v.tls_enable [
  | inl e ↦ inl (unfold plain_enabled eqb in rw e refl)
  | inr (inl e) ↦ inl (unfold plain_enabled eqb in rw e refl)
  | inr (inr e) ↦ inr (unfold tls_enabled eqb in rw e refl)
]

cons-ne-nil : (m : ListenerMode) (before after : List ListenerMode) → before ++ (m ∷ after) ≢ []
cons-ne-nil m [] after = λ e. cc e
cons-ne-nil m (x ∷ before) after = λ e. cc e

listener_modes-ne-nil : (c : Config) → IsValidConfig c → listener_modes c ≢ []
unfolding listener_modes plain_mode tls_mode
listener_modes-ne-nil c v = elim (some_mode c v) [
  | inl e ↦ rw e (cons-ne-nil _ [] (tls_mode c))
  | inr e ↦ rw e (cons-ne-nil _ (plain_mode c) [])
]

-- A valid configuration has at least one listener, and each of its listeners has a port in 1 to 65535
-- and an absolute document root.
pub listener_modes-IsListener :
    (c : Config) → IsValidConfig c → All IsListener (listener_modes c) × (listener_modes c ≢ [])
unfolding listener_modes
listener_modes-IsListener c v = (
  All-append IsListener (plain_mode c) (tls_mode c) (plain_mode-IsListener c v)
      (tls_mode-IsListener c v),
  listener_modes-ne-nil c v,
)
