-- ===== src/Tests/Probes.antt =====
-- Probes that the server starts, and what becomes of their output.
use fingered.Base.{
  if◌then◌else◌, ◌==◌, err, ◌≡◌, refl, false, true, [], ◌∷◌, none, some, Bytes, codes, ltb, ok,
  arith,
}
use fingered.Base.Int.{pos}
use fingered.Token.{finger}
use fingered.Config.{default_config}
use fingered.Content.Resolve.{
  command_of, check_run, present, broken, cgi_reported, not_clean, Found,
}
use fingered.Helper.{no_caps}
use fingered.Probe.{System, probe_run, inspect}
use fingered.Probe.Echo.{check_run-echo}
use fingered.Tests.{probes}
use fingered.Tests.Helpers.{root, bob, bob_accepted, script_file}

abbrev system : System
system = record {
  process_id = pos 42;
  uid = pos 1000;
  gid = pos 100;
  groups = [];
  env_count = pos 0;
  cwd = codes "/";
  is_open = λ fd. ltb 14 fd;
  capget = λ h. ok (no_caps, record no_caps { effective = 1 });
  prctl = λ option. if option == 39 then ok 1 else err (codes "invalid argument");
  open_config = some (codes "no such file");
  bind_low = none;
  chroot_again = none;
}

abbrev checked_probe : Bytes → Found
checked_probe name =
    check_run default_config false
      (probe_run system (command_of default_config root name bob script_file))

probe_runs :
    (checked_probe (codes "control.cgi") ≡ present (codes "cgi-control:?\t?\r\n"))
    × (checked_probe (codes "nul.cgi") ≡ broken (not_clean (codes "content contains NUL")))
    × (checked_probe (codes "fail.cgi") ≡ broken (cgi_reported (codes "cgi probe stderr marker\n")))
    × (checked_probe (codes "other.cgi") ≡ present (codes "unknown probe: other.cgi\r\n"))
unfolding probes
probe_runs = (refl, refl, refl, refl)

inspect_run :
    inspect system
    ≡ codes "uid=1000\n"
      ∷ codes "gid=100\n"
      ∷ codes "groups=-\n"
      ∷ codes "env_count=0\n"
      ∷ codes "cwd=/\n"
      ∷ codes "fds=15,16\n"
      ∷ codes "caps_eff=0x100000000\n"
      ∷ codes "caps_prm=0x0\n"
      ∷ codes "caps_inh=0x0\n"
      ∷ codes "no_new_privs=1\n"
      ∷ codes "open_config=no such file\n"
      ∷ codes "bind_low=ok\n"
      ∷ codes "chroot_again=ok\n"
      ∷ []
unfolding probes
inspect_run = refl

check_run-echo_example :
    check_run default_config true
      (probe_run system (command_of default_config root (codes "echo.cgi") bob script_file))
    ≡ present (codes "cgi-echo:bob\r\n")
check_run-echo_example =
    check_run-echo (codes "bob\r\n") finger false bob system default_config root script_file true
      262144 bob_accepted (omega arith) refl (omega arith)
