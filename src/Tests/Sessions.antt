-- ===== src/Tests/Sessions.antt =====
-- What a connection leaves in the logs, and which content it is sent.
use fingered.Base.{
  sym, ◌++◌, Lacks, ap, length, Bool-cases, eqb_iff, inl, inr, if◌then◌else◌, eqb, some, arith, ◌↔◌,
  ◌≡◌, refl, true, false, [], ◌∷◌, none, Bytes, codes,
}
use fingered.Base.Int.{pos}
use fingered.Addr.{v4}
use fingered.Tests.{sessions}
use fingered.Token.{finger}
use fingered.Reader.{end_of_file}
use fingered.Request.{parse_request}
use fingered.Config.{Config, default_config}
use fingered.Content.Resolve.{cgi_hit, build_content_name, hit}
use fingered.Content.Response.{
  resolve_main_content, content_of, build_valid_response, utf8_required,
}
use fingered.Connection.{speaks_for_clients, serve_conn}
use fingered.Content.Served.{IsFile, IsRun}
use fingered.Content.Isolated.{AgreeInside, build_valid_response_isolated}
use fingered.FilePath.{clean}
use fingered.FilePath.Component.{IsInside, IsInside-entry}
use fingered.Content.Files.{Calls, answer}
use fingered.Content.Outcomes.{IsScripted, resolve_main_content_iff}
use fingered.Connection.Answer.{answers, IsAnswer}
use fingered.Connection.Served.{body_of, serve_conn-arrived}
use fingered.Connection.Peer.{peer_addr, IsSpeaker, speaks_for_clients-IsSpeaker}
use fingered.Config.Load.{File, opened, loaded, load}
use fingered.Log.Session.{Session, in_errors, in_access, entries}
use fingered.Log.Answered.{IsLogged, serve_conn-IsLogged}
use fingered.Tests.Logs.{header, texts, texts-AreTexts}
use fingered.Tests.Connections.{proxy_ip, calls, world, config, mode, conn, req, prepare_run}
use fingered.Tests.Helpers.{root_absolute, script_file, bob, bob_accepted}

serve_conn-arrived_example :
    answers (serve_conn world config mode conn)
    ≡ body_of world config mode (parse_request (codes "alice\r\n") finger false) ∷ []
serve_conn-arrived_example =
    serve_conn-arrived world config mode conn (v4 8 8 4 4) (codes "alice\r") [] end_of_file 256
      prepare_run refl refl (omega arith) (omega arith) (omega arith)

-- A connection that breaks behind four bytes of the answer
abbrev pub session : Session
session = record {
  logger = record {
    header = header;
    files = record {
      errors_file = some (codes "/logs/error.log");
      access_file = some (codes "/logs/access.log");
    };
  };
  mode = mode;
  peer = proxy_ip;
  clock = λ k. texts;
  milliseconds = pos 3;
  write = λ body. record { bytes_sent = pos 4; error = some (codes "broken\npipe") };
  read_message = λ e. codes "EOF";
}

logged_run :
    entries session 0 (serve_conn world config mode conn)
    ≡ in_errors (codes "/logs/error.log") (
        codes
          "<11>1 1970-01-01T00:00:00Z box fingered 42 - - ERROR protocol=finger port=79 client_ip=8.8.4.4 peer_ip=8.8.4.4 msg=write failed: broken pipe\n")
      ∷ in_access (codes "/logs/access.log") (
          codes
            "<14>1 1970-01-01T00:00:00Z box fingered 42 - - ACCESS protocol=finger port=79 client_ip=8.8.4.4 peer_ip=8.8.4.4 request=alice outcome=hit bytes=4 duration_ms=3\n")
      ∷ []
unfolding sessions
logged_run = refl

serve_conn-IsLogged_example :
    IsAnswer (utf8_required mode) (answers (serve_conn world config mode conn))
    × IsLogged session
        (answers (serve_conn world config mode conn))
        (entries session 0 (serve_conn world config mode conn))
serve_conn-IsLogged_example =
    serve_conn-IsLogged world config conn session (omega arith) (λ k. texts-AreTexts)

abbrev trusting : Config
trusting = record default_config {
  bind_ip = v4 10 0 0 7;
  port = pos 79;
  doc_root = codes "/www";
  proxy_protocol = true;
  trusted_proxy_ips = proxy_ip ∷ [];
}

abbrev trusting_file : File
trusting_file =
    opened
      (codes "bind_ip=10.0.0.7"
        ∷ codes "port=79"
        ∷ codes "doc_root=/www"
        ∷ codes "proxy_protocol=yes"
        ∷ codes "trusted_proxy_ips= 10.0.0.1"
        ∷ [])
      none

trusting_loaded : load trusting_file ≡ loaded trusting
unfolding sessions
trusting_loaded = refl

proxy_speaks : speaks_for_clients trusting (peer_addr (some (codes "10.0.0.1"))) ≡ true
unfolding sessions
proxy_speaks = refl

speaks_for_clients-IsSpeaker_example : IsSpeaker trusting (some (codes "10.0.0.1"))
speaks_for_clients-IsSpeaker_example =
    speaks_for_clients-IsSpeaker trusting_file trusting (some (codes "10.0.0.1")) trusting_loaded
      proxy_speaks

abbrev alice_text : Bytes
alice_text = codes "I am alice\r\n"

content_run : resolve_main_content world config req mode ≡ content_of alice_text hit []
unfolding sessions
content_run = refl

resolve_main_content_iff_example :
    ((resolve_main_content world config req mode ≡ content_of alice_text hit [])
      ↔ IsFile world 262144
          (codes "/www")
          (build_content_name (codes "alice") (codes ".txt"))
          false
          alice_text)
    × ((resolve_main_content world config req mode ≡ content_of alice_text cgi_hit []) ↔ (
        IsScripted world req mode
        × IsRun world config 262144
            (codes "/www")
            (build_content_name (codes "alice") (codes ".cgi"))
            req
            false
            alice_text))
resolve_main_content_iff_example =
    resolve_main_content_iff world config req mode 262144 262144 alice_text refl (omega arith) refl

-- The same files, and a script elsewhere and one in a subdirectory of the document root
abbrev more_calls : Calls
more_calls = record calls {
  open_path = λ path.
      if eqb path (codes "/etc/secret.cgi")
      then answer script_file
      else if eqb path (codes "/www/sub/secret.cgi")
      then answer script_file
      else calls.open_path path;
}

www_clean : clean (codes "/www") ≡ codes "/www"
unfolding sessions
www_clean = refl

entry_path : (name path : Bytes) → IsInside (codes "/www") name path → path ≡ codes "/www/" ++ name
unfolding sessions
entry_path name path i = IsInside-entry (codes "/www") name path (λ e. omega (arith, ap length e)) i

other_entry :
    (name : Bytes)
    → Lacks b'/' name
    → more_calls.open_path (codes "/www/" ++ name) ≡ calls.open_path (codes "/www/" ++ name)
unfolding sessions
other_entry name l = elim (Bool-cases (eqb name (codes "sub/secret.cgi"))) [
  | inl e ↦
      let same = (eqb_iff name (codes "sub/secret.cgi")).0 e in
      let no_slash = rw same at l in absurd (no_slash.1.1.1.0 refl)
  | inr e ↦ rw e refl
]

more_calls-AgreeInside : AgreeInside (codes "/www") calls more_calls
more_calls-AgreeInside = record {
  lstat = λ name path i. refl;
  open_read = λ name path i. refl;
  open_path = λ name path i. rw (entry_path name path i) (sym (other_entry name i.component.one));
}

build_valid_response_isolated_example :
    build_valid_response (record world { calls = more_calls }) config bob mode
    ≡ build_valid_response world config bob mode
build_valid_response_isolated_example =
    build_valid_response_isolated (codes "bob\r\n") finger false bob world more_calls config mode
      bob_accepted root_absolute more_calls-AgreeInside
