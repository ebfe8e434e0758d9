-- ===== src/Tests/Connections.antt =====
-- A server with one file and one script, and connections to it.
use fingered.Base.{
  ◌≡◌, ◌⊎◌, refl, true, false, List, [], ◌∷◌, none, Bytes, codes, eqb, if◌then◌else◌, length, take,
  ltb, ok, err,
}
use fingered.Base.Int.{pos, ◌≤ℤ◌}
use fingered.Addr.{Addr, v4}
use fingered.Tests.{connections}
use fingered.Token.{finger}
use fingered.Reader.{Reader, end_of_file}
use fingered.Request.{Request, no_content_body}
use fingered.Config.{Config, default_config}
use fingered.Content.Capped.{empty_buffer, write_all, write_all-capped, flatten}
use fingered.Content.Files.{
  answer, failure, not_exist, FileInfo, regular, OpenFile, Calls, file, open_regular_read_no_follow,
  open_read-regular,
}
use fingered.Content.ScriptsOff.{build_valid_response_off}
use fingered.Content.Resolve.{World, ListenerMode, Command, Ran, hit}
use fingered.Content.Response.{build_valid_response, utf8_required}
use fingered.Content.Lines.{build_valid_response_bounded}
use fingered.Connection.{Connection, ready, prepare_conn, answered, serve_conn}
use fingered.Connection.Client.{IsClient, prepare_conn-IsClient}
use fingered.Connection.Answer.{answers, IsAnswer, serve_conn-IsAnswer}

abbrev plain_info : FileInfo
plain_info = record { file_type = regular; executable = false }

abbrev script_info : FileInfo
script_info = record { file_type = regular; executable = true }

abbrev text_file : OpenFile
text_file = record {
  stat = answer plain_info;
  stream = record { content = codes "I am alice\n"; fault = none };
}

abbrev script_file : OpenFile
script_file = record { stat = answer script_info; stream = record { content = []; fault = none } }

abbrev pub calls : Calls
calls = record {
  lstat =
      λ path. if eqb path (codes "/www/alice.txt") then answer plain_info else failure not_exist;
  open_read =
      λ path. if eqb path (codes "/www/alice.txt") then answer text_file else failure not_exist;
  open_path =
      λ path. if eqb path (codes "/www/bob.cgi") then answer script_file else failure not_exist;
}

abbrev pub world : World
world = record {
  calls = calls;
  own_executable = ok (codes "/usr/bin/fingered");
  run = λ command. record {
    timed_out = false;
    stdout = codes "bob is" ∷ codes " out\n" ∷ [];
    stderr = [];
    pid = none;
    error = none;
  };
}

abbrev pub proxy_ip : Addr
proxy_ip = v4 10 0 0 1

abbrev pub config : Config
config = record default_config { proxy_protocol = true; trusted_proxy_ips = proxy_ip ∷ [] }

abbrev pub mode : ListenerMode
mode = record {
  protocol = finger;
  port = pos 79;
  doc_root = codes "/www";
  cgi_enable = true;
  tls = false;
}

abbrev pub conn : Connection
conn = record {
  peer = proxy_ip;
  reader = record {
    input = codes "PROXY TCP4 8.8.4.4 10.0.0.1 5000 79\r\nalice\r\n";
    ending = end_of_file;
  };
  sets_header_deadline = true;
  sets_handshake_deadline = true;
  sets_read_deadline = true;
  handshake = λ reader. err (codes "no certificate");
}

abbrev pub req : Request
req = record { raw = codes "alice"; canonical = codes "alice"; target = codes "alice"; flags = [] }

abbrev alice_reader : Reader
alice_reader = record { input = codes "alice\r\n"; ending = end_of_file }

abbrev alice_body : Bytes
alice_body =
    codes "I am alice\r\n\r\n_____________________________\r\nfinger://lanterns.io/fingered\r\n"

pub prepare_run : prepare_conn config mode conn ≡ ready alice_reader (v4 8 8 4 4)
unfolding connections
prepare_run = refl

serve_run :
    serve_conn world config mode conn ≡ answered (v4 8 8 4 4) (codes "alice") hit alice_body ∷ []
unfolding connections
serve_run = refl

open_run : open_regular_read_no_follow calls (codes "/www/alice.txt") ≡ file text_file
unfolding connections
open_run = refl

prepare_conn-IsClient_example : IsClient config proxy_ip (v4 8 8 4 4)
prepare_conn-IsClient_example =
    prepare_conn-IsClient config mode conn alice_reader (v4 8 8 4 4) prepare_run

serve_conn-IsAnswer_example :
    IsAnswer (utf8_required mode) (answers (serve_conn world config mode conn))
serve_conn-IsAnswer_example = serve_conn-IsAnswer world config mode conn

build_valid_response_bounded_example :
    (pos (length (build_valid_response world config req mode).body) ≤ℤ config.max_response_bytes)
    ⊎ ((build_valid_response world config req mode).body ≡ no_content_body)
build_valid_response_bounded_example = build_valid_response_bounded world config req mode

open_read-regular_example :
    (named : FileInfo) × (info : FileInfo) × (calls.lstat (codes "/www/alice.txt") ≡ answer named)
    × (named.file_type ≡ regular)
    × (calls.open_read (codes "/www/alice.txt") ≡ answer text_file)
    × (text_file.stat ≡ answer info)
    × (info.file_type ≡ regular)
open_read-regular_example = open_read-regular calls (codes "/www/alice.txt") text_file open_run

abbrev output : List Bytes
output = codes "ab" ∷ codes "cde" ∷ codes "f" ∷ []

write_all-capped_example : write_all (empty_buffer (pos 4)) output ≡ record {
  bytes = take 4 (flatten output);
  max = pos 4;
  exceeded = ltb 4 (length (flatten output));
}
write_all-capped_example = write_all-capped 4 output

abbrev quiet : ListenerMode
quiet = record mode { cgi_enable = false }

abbrev failing : Command → Ran
failing command = record { timed_out = true; stdout = []; stderr = []; pid = none; error = none }

build_valid_response_off_example :
    build_valid_response (record world { run = failing }) config req quiet
    ≡ build_valid_response world config req quiet
build_valid_response_off_example =
    build_valid_response_off world world.own_executable failing config req quiet refl
