-- ===== src/Main.antt =====
-- cmd/fingered/main.go, and `New` and the accept loop of internal/server/server.go: from the flags to the
-- exit status.
pub mod Accept
pub mod Status
use fingered.Base.{
  ℕ, Bool, true, false, List, [], ◌∷◌, Option, none, some, if◌then◌else◌, Bytes, codes, Result, ok,
  err,
}
use fingered.Base.Int.{ℤ, pos}
use fingered.Config.{Config, tls_enabled}
use fingered.Config.Load.{
  File, LoadError, Outcome as LoadOutcome, loaded, failed as not_loaded, load,
}
use fingered.Log.Open.{Process, LogCalls, LogFiles, open_logger, close_logger}
use fingered.Helper.{Kernel, HelperError, Outcome, returned, failed, exec_cgi_helper}

-- `Server`: the configuration, the files of its logger, and whether `tlsConfig` is set
pub record Server : Type 0 where
  pub config : Config
  pub logger : LogFiles
  pub has_tls : Bool

-- The certificate is loaded if TLS is on; the logger is closed if that fails.
abbrev pub with_tls :
    LogCalls
    → Config
    → (Bytes → Bytes → Option Bytes)
    → LogFiles
    → Process
    → Result Server × Process
with_tls calls c load_pair logger p =
    if tls_enabled c
    then elim (load_pair c.tls_cert c.tls_key) [
      | none ↦ (ok (record { config = c; logger = logger; has_tls = true }), p)
      | some e ↦ (err e, (close_logger calls logger p).1)
    ]
    else (ok (record { config = c; logger = logger; has_tls = false }), p)

abbrev pub with_logger :
    LogCalls
    → Config
    → (Bytes → Bytes → Option Bytes)
    → Result LogFiles × Process
    → Result Server × Process
with_logger calls c load_pair (err e, p) = (err e, p)
with_logger calls c load_pair (ok logger, p) = with_tls calls c load_pair logger p

-- `New`; the error of `tls.LoadX509KeyPair` is a parameter.
unfoldable pub new_server :
    LogCalls → Config → (Bytes → Bytes → Option Bytes) → Process → Result Server × Process
new_server calls c load_pair p = with_logger calls c load_pair (open_logger calls c p)

-- `Close`; New leaves no server without a logger.
abbrev pub close_server : LogCalls → Server → Process → Option Bytes × Process
close_server calls srv p = close_logger calls srv.logger p

-- The flags
pub record Flags : Type 0 where
  pub internal_cgi_helper : Bool
  pub internal_cgi_root : Bytes
  pub internal_cgi_argv0 : Bytes

-- What `main` meets: the configuration file, the answers of the system, and what `Run` returns
pub record Environment : Type 0 where
  pub file : File
  pub log_calls : LogCalls
  pub load_pair : Bytes → Bytes → Option Bytes
  pub run : Server → Option Bytes
  pub kernel : Kernel

pub data MainError : Type 0 where
  cgi_helper : HelperError → MainError
  load_config : LoadError → MainError
  init_server run_server : Bytes → MainError

-- How the process goes on: another program, or an exit, with status 0 without an error and 1 with one
pub data Ending : Type 0 where
  becomes_script : Ending
  exits : Option MainError → Ending

abbrev pub helper_ended : Outcome (Unit {0}) → Ending
helper_ended (returned _ calls) = becomes_script
helper_ended (failed e calls) = exits (some (cgi_helper e))

-- `srv.Close` is deferred, so it is called at the end of `main`, and not before `os.Exit`.
abbrev pub served : Environment → Server → Process → Option Bytes → Ending × Process
served env srv p none = (exits none, (close_server env.log_calls srv p).1)
served env srv p (some e) = (exits (some (run_server e)), p)

abbrev pub started : Environment → Result Server × Process → Ending × Process
started env (err e, p) = (exits (some (init_server e)), p)
started env (ok srv, p) = served env srv p (env.run srv)

abbrev pub configured : Environment → Process → LoadOutcome Config → Ending × Process
configured env p (not_loaded e) = (exits (some (load_config e)), p)
configured env p (loaded c) = started env (new_server env.log_calls c env.load_pair p)

-- `main`
unfoldable pub main : Environment → Flags → Process → Ending × Process
main env flags p =
    if flags.internal_cgi_helper
    then (
      helper_ended
          (exec_cgi_helper flags.internal_cgi_root flags.internal_cgi_argv0 (pos 3) env.kernel []),
      p,
    )
    else configured env p (load env.file)
