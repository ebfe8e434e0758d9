-- ===== src/Tests/Servers.antt =====
-- Runs of the server, of its accept loop and of `main`.
use fingered.Base.{
  ◌≡◌, refl, true, false, List, [], ◌∷◌, Option, none, some, Bytes, codes, err, arith,
}
use fingered.Base.Int.{pos}
use fingered.Config.{Config, default_config, tls_enable_yes_both}
use fingered.Config.Load.{opened}
use fingered.Log.Open.{Process, LogCalls}
use fingered.Content.Files.{answer, regular}
use fingered.Run.{
  Server, ended, returned, fail, report, cancel, receive, drain, Reach, here, later, AllEnded,
}
use fingered.Run.Reported.{IsOutcome, run-IsOutcome, run_may_lose_error}
use fingered.Main.{Environment, Flags, main, new_server}
use fingered.Tests.Connections.{conn}
use fingered.Main.Accept.{accepted, Accept, accept_failed, stopped, waiting, run_listener}
use fingered.Main.Status.{IsMain, main-IsMain}
use fingered.Tests.{servers}
use fingered.Tests.Helpers.{old_kernel}

abbrev broken : Bytes
broken = codes "accept: broken"

-- The end of a run whose only listener breaks
abbrev reported : Server
reported = record {
  listeners = ended ∷ [];
  main = returned (some broken);
  cancelled = true;
  sent = [];
  failures = broken ∷ [];
  signalled = false;
}

reported-Reach : Reach 1 reported
unfolding servers
reported-Reach =
    later
      (later
        (later
          (later (later here (fail [] [] broken refl refl refl)) (report [] [] broken refl refl))
          (receive broken [] refl refl refl))
        (cancel [] [] refl refl))
      (drain broken refl (refl, tt) refl)

run-IsOutcome_example : AllEnded reported × IsOutcome reported (some broken)
run-IsOutcome_example = run-IsOutcome (some broken) (omega arith) reported-Reach refl

run_may_lose_error_example :
    (s : Server) × Reach 1 s
    × (s.main ≡ returned none)
    × (s.signalled ≡ false)
    × (s.failures ≡ broken ∷ [])
run_may_lose_error_example = run_may_lose_error broken

abbrev events : List Accept
events =
    accept_failed false true (codes "too many files")
    ∷ accept_failed false false broken
    ∷ accept_failed true false (codes "closed")
    ∷ []

accept_run :
    (run_listener none events ≡ ([], stopped (some broken)))
    × (run_listener (some (codes "in use")) events ≡ ([], stopped (some (codes "in use"))))
    × (run_listener none [] ≡ ([], waiting))
unfolding servers
accept_run = (refl, refl, refl)

abbrev arrivals : List Accept
arrivals = accepted conn ∷ events

abbrev secure : Config
secure = record default_config { tls_enable = tls_enable_yes_both; log_requests = true }

abbrev regular_calls : LogCalls
regular_calls = record {
  open_append = λ umask path. answer (answer (record { file_type = regular; executable = false }));
  close_error = λ path. none;
}

abbrev process : Process
process = record { umask = pos 18; opened = [] }

abbrev no_pair : Bytes → Bytes → Option Bytes
no_pair cert key = some (codes "no such file")

new_run : new_server regular_calls secure no_pair process ≡ (err (codes "no such file"), process)
unfolding servers
new_run = refl

abbrev environment : Environment
environment = record {
  file = opened (codes "bind_ip=10.0.0.7" ∷ codes "port=79" ∷ codes "doc_root=/www" ∷ []) none;
  log_calls = regular_calls;
  load_pair = no_pair;
  run = λ server. some broken;
  kernel = old_kernel;
}

abbrev no_flags : Flags
no_flags = record { internal_cgi_helper = false; internal_cgi_root = []; internal_cgi_argv0 = [] }

main-IsMain_example : IsMain environment process (main environment no_flags process)
main-IsMain_example = main-IsMain environment no_flags process refl
