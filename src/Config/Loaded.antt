-- ===== src/Config/Loaded.antt =====
-- What `Load` returns when it succeeds.
use fingered.Base.{
  ◌≡◌, ◌↔◌, refl, sym, ap, ◌∙◌, Bool, true, false, ◌&&◌, ◌||◌, List, Option, none, some, Bytes,
  arith,
}
use fingered.Config.{Config, Key, default_config}
use fingered.Config.Apply.{◌>>=◌}
use fingered.Config.Validate.{Problem, validate}
use fingered.Config.Valid.{IsValidConfig, validate_iff}
use fingered.Config.Load.{
  Loading, Outcome, loaded, failed, start, is_bind_ip, is_port_key, is_doc_root, load_lines,
  checked, finish_load, File, opened, unopened, load,
}
use fingered.Config.Settings.{
  settings_of, apply_all, sets, mark_all, forget, run, load_lines-settings,
}

-- What `Load` makes of lines that it accepts
pub record IsLoaded (lines : List Bytes) (c : Config) : Type 0 where
  pub settings : List (Key × Bytes)
  pub read : settings_of lines ≡ some settings
  pub applied : apply_all default_config settings ≡ some c
  pub bind_ip : sets is_bind_ip settings ≡ true
  pub port : sets is_port_key settings ≡ true
  pub doc_root : sets is_doc_root settings ≡ true
  pub valid : IsValidConfig c

checked_iff :
    (a : Config) (p : Option Problem) (c : Config)
    → (checked a p ≡ loaded c) ↔ ((p ≡ none) × (a ≡ c))
checked_iff a none c = ground arith
checked_iff a (some p) c = ground arith

finish_load_iff :
    (e : Option Bytes) (s : Loading) (c : Config)
    → (finish_load e s ≡ loaded c) ↔ (
        (e ≡ none)
        × ((s.seen_bind_ip && (s.seen_port && s.seen_doc_root)) ≡ true)
        × (validate s.config ≡ none)
        × (s.config ≡ c))
unfolding finish_load
finish_load_iff (some e) s c = ground arith
finish_load_iff none s c = ground (arith, checked_iff s.config (validate s.config) c)

forget_iff {ℓ} : {A : Type ℓ} (o : Outcome A) (a : A) → (forget o ≡ some a) ↔ (o ≡ loaded a)
forget_iff (loaded b) a = ground arith
forget_iff (failed e) a = ground arith

and_left : (a b c : Bool) → (a && (b && c)) ≡ true → (a ≡ true) × (b ≡ true) × (c ≡ true)
and_left a b c h = (ground arith, ground arith, ground arith)

or_false : (b : Bool) → (b || false) ≡ b
or_false b = ground arith

-- The loop and what comes behind it
load_split :
    (lines : List Bytes) (e : Option Bytes) (c : Config)
    → load (opened lines e) ≡ loaded c
    → (s : Loading) × (load_lines 1 lines start ≡ loaded s) × (finish_load e s ≡ loaded c)
unfolding load
load_split lines e c h = go (load_lines 1 lines start) refl h
  where
    go :
        (o : Outcome Loading)
        → load_lines 1 lines start ≡ o
        → elim o [ failed why ↦ failed why | loaded s ↦ finish_load e s ] ≡ loaded c
        → (s : Loading) × (load_lines 1 lines start ≡ loaded s) × (finish_load e s ≡ loaded c)
    go (loaded s) x y = (s, x, y)
    go (failed why) x y = ground arith

run_split :
    (lines : List Bytes) (s : Loading)
    → (settings_of lines >>= run start) ≡ some s
    → (settings : List (Key × Bytes)) × (c : Config) × (settings_of lines ≡ some settings)
      × (apply_all default_config settings ≡ some c)
      × (record (mark_all start settings) { config = c } ≡ s)
run_split lines s h = go (settings_of lines) refl h
  where
    apply :
        (settings : List (Key × Bytes)) (o : Option Config)
        → apply_all default_config settings ≡ o
        → (do c ← o; some (record (mark_all start settings) { config = c })) ≡ some s
        → (c : Config) × (apply_all default_config settings ≡ some c)
          × (record (mark_all start settings) { config = c } ≡ s)
    apply settings none x y = ground arith
    apply settings (some c) x y = (c, x, ground arith)

    go :
        (o : Option (List (Key × Bytes)))
        → settings_of lines ≡ o
        → (o >>= run start) ≡ some s
        → (settings : List (Key × Bytes)) × (c : Config) × (settings_of lines ≡ some settings)
          × (apply_all default_config settings ≡ some c)
          × (record (mark_all start settings) { config = c } ≡ s)
    go none x y = ground arith
    go (some settings) x y =
        let (c, a, b) = apply settings (apply_all default_config settings) refl y in
        (settings, c, x, a, b)

load-IsLoaded :
    (lines : List Bytes) (e : Option Bytes) (c : Config)
    → load (opened lines e) ≡ loaded c
    → (e ≡ none) × IsLoaded lines c
load-IsLoaded lines e c h =
    let (s, looped, finished) = load_split lines e c h in
    let (ends, all_seen, sound, same) = (finish_load_iff e s c).0 finished in
    let (seen_ip, seen_port, seen_root) =
      and_left s.seen_bind_ip s.seen_port s.seen_doc_root all_seen in
    let (settings, d, read, applied, marked) =
      run_split lines s (sym (load_lines-settings 1 lines start) ∙ ap forget looped) in
    (
      ends,
      record {
        settings = settings;
        read = read;
        applied = applied ∙ ap some (ap (λ t. t.config) marked ∙ same);
        bind_ip =
            sym (or_false (sets is_bind_ip settings)) ∙ ap (λ t. t.seen_bind_ip) marked ∙ seen_ip;
        port =
            sym (or_false (sets is_port_key settings)) ∙ ap (λ t. t.seen_port) marked ∙ seen_port;
        doc_root =
            sym (or_false (sets is_doc_root settings))
            ∙ ap (λ t. t.seen_doc_root) marked
            ∙ seen_root;
        valid = (validate_iff c).0 (ap validate (sym same) ∙ sound);
      },
    )

IsLoaded-load :
    (lines : List Bytes) (c : Config) → IsLoaded lines c → load (opened lines none) ≡ loaded c
unfolding load
IsLoaded-load lines c l =
    let s : Loading = record (mark_all start l.settings) { config = c } in
    let looped : load_lines 1 lines start ≡ loaded s =
      (forget_iff (load_lines 1 lines start) s).0
        (load_lines-settings 1 lines start ∙ rw l.read (rw l.applied refl)) in
    rw (looped, load)
      ((finish_load_iff none s c).1
        (refl, rw l.bind_ip (rw l.port (rw l.doc_root refl)), (validate_iff c).1 l.valid, refl))

-- Load returns a configuration exactly if the file opens and is read to its end, each of its lines is
-- blank, a comment or a setting with a known key, the settings applied in turn to the defaults give
-- that configuration, bind_ip, port and doc_root are among them, and the configuration is valid.
pub load_iff :
    (f : File) (c : Config)
    → (load f ≡ loaded c) ↔ ((lines : List Bytes) × (f ≡ opened lines none) × IsLoaded lines c)
load_iff f c = (from f, λ (lines, same, l). ap load same ∙ IsLoaded-load lines c l)
  where
    from :
        (f : File)
        → load f ≡ loaded c
        → (lines : List Bytes) × (f ≡ opened lines none) × IsLoaded lines c
    from (unopened why) h = unfold load in ground arith
    from (opened lines e) h =
        let (ends, l) = load-IsLoaded lines e c h in (lines, ap (opened lines) ends, l)
