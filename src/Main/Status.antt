-- ===== src/Main/Status.antt =====
-- The exit status, and what `main` leaves behind.
use fingered.Base.{
  ◌∙◌, ap, ◌≡◌, inl, inr, refl, sym, false, Option, none, some, Bytes, Result, ok, err, Bool-cases,
  Option-cases,
}
use fingered.Config.{Config, tls_enabled}
use fingered.Config.Valid.{IsValidConfig}
use fingered.Config.Load.{Outcome as LoadOutcome, loaded, failed as not_loaded, load}
use fingered.Config.Loaded.{load_iff}
use fingered.Log.Open.{Process, LogCalls, LogFiles, open_logger, close_logger}
use fingered.Log.Resources.{IsStart, files_of, with_files, open_logger-IsStart}
use fingered.Main.{
  Server, with_tls, with_logger, new_server, Flags, Environment, cgi_helper, load_config,
  init_server, run_server, Ending, becomes_script, exits, served, started, configured, main,
}

-- A server of that configuration, whose log files are all that is open for it
pub record IsServer (calls : LogCalls) (c : Config) (p : Process) (srv : Server) (after : Process)
    : Type 0 where
  pub config : srv.config ≡ c
  pub logger : srv.logger ≡ files_of c
  pub has_tls : srv.has_tls ≡ tls_enabled c
  pub opened : after ≡ with_files srv.logger p
  pub closed : (close_logger calls srv.logger after).1 ≡ p

abbrev pub IsNew : LogCalls → Config → Process → Result Server × Process → Type 0
IsNew calls c p (err e, after) = after ≡ p
IsNew calls c p (ok srv, after) = IsServer calls c p srv after

with_tls-IsNew :
    (calls : LogCalls) (c : Config) (load_pair : Bytes → Bytes → Option Bytes) (logger : LogFiles)
    (p after : Process)
    → logger ≡ files_of c
    → after ≡ with_files logger p
    → (close_logger calls logger after).1 ≡ p
    → IsNew calls c p (with_tls calls c load_pair logger after)
with_tls-IsNew calls c load_pair logger p after l o k = elim (Bool-cases (tls_enabled c)) [
  | inl on ↦ elim (Option-cases (load_pair c.tls_cert c.tls_key)) [
    | inl e ↦
        rw (on, e) (record { config = refl; logger = l; has_tls = sym on; opened = o; closed = k })
    | inr (e, f) ↦ rw (on, f) k
  ]
  | inr off ↦
      rw off (record { config = refl; logger = l; has_tls = sym off; opened = o; closed = k })
]

with_logger-IsNew :
    (calls : LogCalls) (c : Config) (load_pair : Bytes → Bytes → Option Bytes) (p : Process)
    (r : Result LogFiles × Process)
    → IsStart calls c p r
    → IsNew calls c p (with_logger calls c load_pair r)
with_logger-IsNew calls c load_pair p (err e, after) h = h
with_logger-IsNew calls c load_pair p (ok logger, after) (l, o, k) =
    with_tls-IsNew calls c load_pair logger p after l o k

-- Whatever the system answers, New fails and leaves the process as it was, or the server has the
-- configuration, the log files that it asks for and TLS exactly if it is on, and closing the logger
-- brings the process back to what it was.
pub new_server-IsNew :
    (calls : LogCalls) (c : Config) (load_pair : Bytes → Bytes → Option Bytes) (p : Process)
    → IsNew calls c p (new_server calls c load_pair p)
unfolding new_server
new_server-IsNew calls c load_pair p =
    with_logger-IsNew calls c load_pair p (open_logger calls c p) (open_logger-IsStart calls c p)

-- The server that main runs: of the configuration that it has read, which is valid
pub record IsStarted (env : Environment) (p : Process) (srv : Server) (after : Process)
    : Type 0 where
  pub config : Config
  pub read : load env.file ≡ loaded config
  pub valid : IsValidConfig config
  pub is_server : IsServer env.log_calls config p srv after

-- What an ending of `main` as a server says
abbrev pub IsMain : Environment → Process → Ending × Process → Type 0
IsMain env p (becomes_script, q) = ⊥
IsMain env p (exits none, q) =
    ((srv : Server) × (after : Process) × IsStarted env p srv after × (env.run srv ≡ none))
    × (q ≡ p)
IsMain env p (exits (some (cgi_helper e)), q) = ⊥
IsMain env p (exits (some (load_config e)), q) = (load env.file ≡ not_loaded e) × (q ≡ p)
IsMain env p (exits (some (init_server e)), q) =
    (c : Config) × (load env.file ≡ loaded c)
    × IsValidConfig c
    × (new_server env.log_calls c env.load_pair p ≡ (err e, p))
    × (q ≡ p)
IsMain env p (exits (some (run_server e)), q) =
    (srv : Server) × IsStarted env p srv q × (env.run srv ≡ some e)

module _ (env : Environment) (p : Process) (c : Config) (h : load env.file ≡ loaded c) where
  config-IsValid : IsValidConfig c
  config-IsValid = ((load_iff env.file c).0 h).2.valid

  served-IsMain :
      (after : Process) (srv : Server) (o : Option Bytes)
      → IsServer env.log_calls c p srv after
      → env.run srv ≡ o
      → IsMain env p (served env srv after o)
  served-IsMain after srv none s r =
      let started : IsStarted env p srv after = record {
        config = c;
        read = h;
        valid = config-IsValid;
        is_server = s;
      } in
      ((srv, after, started, r), s.closed)
  served-IsMain after srv (some e) s r =
      (srv, record { config = c; read = h; valid = config-IsValid; is_server = s }, r)

  started-IsMain :
      (r : Result Server × Process)
      → new_server env.log_calls c env.load_pair p ≡ r
      → IsNew env.log_calls c p r
      → IsMain env p (started env r)
  started-IsMain (err e, after) m n = (c, h, config-IsValid, m ∙ ap (λ q. (err e, q)) n, n)
  started-IsMain (ok srv, after) m n = served-IsMain after srv (env.run srv) n refl

configured-IsMain :
    (env : Environment) (p : Process) (o : LoadOutcome Config)
    → load env.file ≡ o
    → IsMain env p (configured env p o)
configured-IsMain env p (not_loaded e) h = (h, refl)
configured-IsMain env p (loaded c) h =
    started-IsMain env p c h (new_server env.log_calls c env.load_pair p) refl
      (new_server-IsNew env.log_calls c env.load_pair p)

-- As a server, main exits with status 0 only behind a run that returned no error, on a server made of
-- the configuration in the file, which is valid, and with the process as it was before. An error of the
-- configuration leaves the process as it was, and so does one of New, which is for a valid
-- configuration. An error of Run is that of a server of the valid configuration, and the process is as
-- it was but for that server's log files, which are open.
pub main-IsMain :
    (env : Environment) (flags : Flags) (p : Process)
    → flags.internal_cgi_helper ≡ false
    → IsMain env p (main env flags p)
unfolding main
main-IsMain env flags p h = rw h (configured-IsMain env p (load env.file) refl)
