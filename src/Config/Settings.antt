-- ===== src/Config/Settings.antt =====
-- The loop of `Load` in two phases: the settings of the lines, then each of them applied in turn.
use fingered.Base.{
  ℕ, suc, ◌≡◌, inl, inr, refl, sym, ◌∙◌, Bool, false, ◌||◌, List, [], ◌∷◌, Option, none, some,
  Bytes, if◌then◌else◌, arith, Option-cases, Bool-cases,
}
use fingered.Text.Trim.{trim_space}
use fingered.Config.{Config, Key, allowed, find_key}
use fingered.Config.Apply.{apply_value, ◌>>=◌}
use fingered.Config.Load.{
  Loading, Outcome, loaded, failed, split_kv, is_bind_ip, is_port_key, is_doc_root, mark_required,
  store, load_known, load_setting, is_ignored, load_line, load_lines,
}

-- The setting of a line that is not ignored
abbrev pub setting_of : Bytes → Option (Key × Bytes)
setting_of line = do (key, value) ← split_kv line; k ← find_key allowed key; some (k, value)

-- The settings of the lines, in their order; `none` if a line is malformed or its key unknown
abbrev pub settings_of : List Bytes → Option (List (Key × Bytes))
settings_of [] = some []
settings_of (text ∷ texts) =
    let line = trim_space text in
    let settings = settings_of texts in
    if is_ignored line
    then settings
    else do setting ← setting_of line; rest ← settings; some (setting ∷ rest)

abbrev pub apply_all : Config → List (Key × Bytes) → Option Config
apply_all c [] = some c
apply_all c ((k, value) ∷ settings) = do next ← apply_value c k value; apply_all next settings

abbrev pub sets : (Key → Bool) → List (Key × Bytes) → Bool
sets test [] = false
sets test ((k, value) ∷ settings) = test k || sets test settings

-- The same with the marks of the required keys
abbrev pub mark_all : Loading → List (Key × Bytes) → Loading
mark_all s settings = record s {
  seen_bind_ip = sets is_bind_ip settings || s.seen_bind_ip;
  seen_port = sets is_port_key settings || s.seen_port;
  seen_doc_root = sets is_doc_root settings || s.seen_doc_root;
}

abbrev pub forget {ℓ} : {A : Type ℓ} → Outcome A → Option A
forget (loaded a) = some a
forget (failed e) = none

abbrev pub run : Loading → List (Key × Bytes) → Option Loading
run s settings = do
  c ← apply_all s.config settings
  some (record (mark_all s settings) { config = c })

or_swap : (a b c : Bool) → ((a || b) || c) ≡ (b || (a || c))
or_swap a b c = ground arith

run_cons :
    (s : Loading) (k : Key) (value : Bytes) (settings : List (Key × Bytes)) (c : Config)
    → apply_value s.config k value ≡ some c
    → run s ((k, value) ∷ settings) ≡ run (record (mark_required k s) { config = c }) settings
run_cons s k value settings c h = rw h (elim (Option-cases (apply_all c settings)) [
  | inl e ↦ rw e refl
  | inr (d, e) ↦ rw e (
      rw (or_swap (is_bind_ip k) (sets is_bind_ip settings) s.seen_bind_ip) (
        rw (or_swap (is_port_key k) (sets is_port_key settings) s.seen_port)
          (rw (or_swap (is_doc_root k) (sets is_doc_root settings) s.seen_doc_root) refl)))
])

abbrev apply_marked : Loading → Key × Bytes → Option Loading
apply_marked s (k, value) = do
  c ← apply_value s.config k value
  some (record (mark_required k s) { config = c })

forget-store :
    (n : ℕ) (key : Bytes) (s : Loading) (k : Key) (o : Option Config)
    → forget (store n key (mark_required k s) o)
      ≡ (do c ← o; some (record (mark_required k s) { config = c }))
forget-store n key s k none = refl
forget-store n key s k (some c) = refl

forget-load_known :
    (n : ℕ) (key value : Bytes) (s : Loading) (o : Option Key)
    → forget (load_known n key value s o) ≡ ((do k ← o; some (k, value)) >>= apply_marked s)
forget-load_known n key value s none = refl
forget-load_known n key value s (some k) = forget-store n key s k (apply_value s.config k value)

forget-load_setting :
    (n : ℕ) (s : Loading) (o : Option (Bytes × Bytes))
    → forget (load_setting n s o)
      ≡ ((do (key, value) ← o; k ← find_key allowed key; some (k, value)) >>= apply_marked s)
forget-load_setting n s none = refl
forget-load_setting n s (some (key, value)) = forget-load_known n key value s (find_key allowed key)

forget-load_line :
    (n : ℕ) (text : Bytes) (s : Loading)
    → forget (load_line n text s) ≡ (
        if is_ignored (trim_space text)
        then some s
        else (setting_of (trim_space text) >>= apply_marked s))
unfolding load_line
forget-load_line n text s = elim (Bool-cases (is_ignored (trim_space text))) [
  | inl e ↦ rw e refl
  | inr e ↦ rw e (forget-load_setting n s (split_kv (trim_space text)))
]

run-setting :
    (s : Loading) (setting : Key × Bytes) (o : Option (List (Key × Bytes)))
    → (apply_marked s setting >>= λ next. o >>= run next)
      ≡ ((do rest ← o; some (setting ∷ rest)) >>= run s)
run-setting s (k, value) o = elim (Option-cases (apply_value s.config k value)) [
  | inl e ↦ rw e (go o e)
  | inr (c, e) ↦ rw e (go_some c o e)
]
  where
    go :
        (o : Option (List (Key × Bytes)))
        → apply_value s.config k value ≡ none
        → none ≡ ((do rest ← o; some ((k, value) ∷ rest)) >>= run s)
    go none e = refl
    go (some settings) e = rw e refl

    go_some :
        (c : Config) (o : Option (List (Key × Bytes)))
        → apply_value s.config k value ≡ some c
        → (o >>= run (record (mark_required k s) { config = c }))
          ≡ ((do rest ← o; some ((k, value) ∷ rest)) >>= run s)
    go_some c none e = refl
    go_some c (some settings) e = sym (run_cons s k value settings c e)

run-setting_of :
    (s : Loading) (setting : Option (Key × Bytes)) (o : Option (List (Key × Bytes)))
    → ((setting >>= apply_marked s) >>= λ next. o >>= run next)
      ≡ ((do first ← setting; rest ← o; some (first ∷ rest)) >>= run s)
run-setting_of s none o = refl
run-setting_of s (some setting) o = run-setting s setting o

continue :
    (n : ℕ) (texts : List Bytes) (o : Outcome Loading)
    → ((next : Loading) → forget (load_lines n texts next) ≡ (settings_of texts >>= run next))
    → forget (elim o [ loaded next ↦ load_lines n texts next | failed e ↦ failed e ])
      ≡ (forget o >>= λ next. settings_of texts >>= run next)
continue n texts (loaded next) h = h next
continue n texts (failed e) h = refl

-- The loop reads the settings, then applies them.
pub load_lines-settings :
    (n : ℕ) (lines : List Bytes) (s : Loading)
    → forget (load_lines n lines s) ≡ (settings_of lines >>= run s)
unfolding load_lines
load_lines-settings n [] s = refl
load_lines-settings n (text ∷ texts) s =
    continue (suc n) texts (load_line n text s) (load_lines-settings (suc n) texts)
    ∙ (rw (forget-load_line n text s) (elim (Bool-cases (is_ignored (trim_space text))) [
      | inl e ↦ rw e refl
      | inr e ↦ rw e (run-setting_of s (setting_of (trim_space text)) (settings_of texts))
    ]))
