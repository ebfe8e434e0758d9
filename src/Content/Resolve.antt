-- ===== src/Content/Resolve.antt =====
-- `loadStatic`, `runCGI`, `resolveMainContent`, the templates and `buildValidResponse`. An error is a
-- value instead of its message, and the error log is the list of what is written to it.
use fingered.Base.{
  Bool, true, false, List, [], ◌∷◌, ◌++◌, Option, none, some, if◌then◌else◌, Bytes, codes, length,
  take, ltb, Result, ok, err,
}
use fingered.Base.Int.{ℤ, pos, pos_part, ltb_ℤ, add64}
use fingered.FilePath.{join_path, base}
use fingered.Token.{Protocol, finger, fingers}
use fingered.Request.{Request}
use fingered.Body.{sanitize_body}
use fingered.Config.{
  Config, tls_enabled, plain_enabled, effective_tls_doc_root, effective_tls_cgi_enable,
}
use fingered.Content.Capped.{empty_buffer, write_all}
use fingered.Content.Files.{
  Calls, Opened, absent, refused, file, OpenFile, Stream, open_regular_read_no_follow,
  open_regular_exec_no_follow,
}

pub record ListenerMode : Type 0 where
  pub protocol : Protocol
  pub port : ℤ
  pub doc_root : Bytes
  pub cgi_enable : Bool
  pub tls : Bool

-- `listenerModes`
unfoldable pub plain_mode : Config → List ListenerMode
plain_mode c =
    if plain_enabled c
    then record {
      protocol = finger;
      port = c.port;
      doc_root = c.doc_root;
      cgi_enable = c.cgi_enable;
      tls = false;
    }
      ∷ []
    else []

unfoldable pub tls_mode : Config → List ListenerMode
tls_mode c =
    if tls_enabled c
    then record {
      protocol = fingers;
      port = c.tls_port;
      doc_root = effective_tls_doc_root c;
      cgi_enable = effective_tls_cgi_enable c;
      tls = true;
    }
      ∷ []
    else []

unfoldable pub listener_modes : Config → List ListenerMode
unfolding plain_mode tls_mode
listener_modes c = plain_mode c ++ tls_mode c

-- `cgi_timed_out` names the process group that is killed, if the process was started.
pub data ContentError : Type 0 where
  not_opened read_failed not_clean : Bytes → ContentError
  content_exceeds cgi_exceeds : ContentError
  cgi_timed_out : Option ℤ → ContentError
  no_executable cgi_failed cgi_reported : Bytes → ContentError

-- `(body, exists, err)`
pub data Found : Type 0 where
  missing : Found
  broken : ContentError → Found
  present : Bytes → Found

-- The helper process as it is started, and what became of it: whether its time ran out, the writes
-- to its output and to its error output, the error of `cmd.Run`, and its process id if it was started
pub record Command : Type 0 where
  pub executable : OpenFile
  pub root : Bytes
  pub argv0 : Bytes
  pub stdin : Bytes
  pub timeout : ℤ

pub record Ran : Type 0 where
  pub timed_out : Bool
  pub stdout : List Bytes
  pub stderr : List Bytes
  pub error : Option Bytes
  pub pid : Option ℤ

-- What the operating system does for the server
pub record World : Type 0 where
  pub calls : Calls
  pub own_executable : Result Bytes
  pub run : Command → Ran

unfoldable pub build_content_name : Bytes → Bytes → Bytes
build_content_name [] suffix = codes "index" ++ suffix
build_content_name (c ∷ target) suffix = (c ∷ target) ++ suffix

-- `io.ReadAll(io.LimitReader(f, n))`: the fault is met only if the limit is not reached before it.
unfoldable pub read_all_limited : ℤ → Stream → Result Bytes
read_all_limited n s =
    if ltb (length s.content) (pos_part n)
    then elim s.fault [ none ↦ ok s.content | some e ↦ err e ]
    else ok (take (pos_part n) s.content)

abbrev pub cleaned : Result Bytes → Found
cleaned (err e) = broken (not_clean e)
cleaned (ok body) = present body

unfoldable pub check_static : ℤ → Bool → Result Bytes → Found
check_static max utf8_required (err e) = broken (read_failed e)
check_static max utf8_required (ok raw) =
    if ltb_ℤ max (pos (length raw))
    then broken content_exceeds
    else cleaned (sanitize_body raw utf8_required)

abbrev pub static_of : ℤ → Bool → Opened → Found
static_of max utf8_required absent = missing
static_of max utf8_required (refused e) = broken (not_opened e)
static_of max utf8_required (file f) =
    check_static max utf8_required (read_all_limited (add64 max 1) f.stream)

unfoldable pub load_static : World → ℤ → Bytes → Bytes → Bool → Found
unfolding check_static
load_static w max root name utf8_required =
    static_of max utf8_required (open_regular_read_no_follow w.calls (join_path root name))

-- By the error of the process that has ended in time
abbrev pub run_result : Bool → Bytes → Bytes → Option Bytes → Found
run_result utf8_required stdout stderr none = cleaned (sanitize_body stdout utf8_required)
run_result utf8_required stdout stderr (some e) =
    if ltb 0 (length stderr) then broken (cgi_reported stderr) else broken (cgi_failed e)

-- What `runCGI` does with the process that has ended
unfoldable pub check_run : Config → Bool → Ran → Found
check_run c utf8_required r =
    let stdout = write_all (empty_buffer c.cgi_max_stdout_bytes) r.stdout in
    let stderr = write_all (empty_buffer (pos 4096)) r.stderr in
    if r.timed_out
    then broken (cgi_timed_out r.pid)
    else if stdout.exceeded
    then broken cgi_exceeds
    else run_result utf8_required stdout.bytes stderr.bytes r.error

abbrev pub command_of : Config → Bytes → Bytes → Request → OpenFile → Command
command_of c root name req f = record {
  executable = f;
  root = root;
  argv0 = codes "/" ++ base name;
  stdin = req.canonical ++ codes "\n";
  timeout = c.cgi_timeout;
}

abbrev pub start_run : World → Config → Bytes → Bytes → Request → Bool → Opened → Found
start_run w c root name req utf8_required absent = missing
start_run w c root name req utf8_required (refused e) = broken (not_opened e)
start_run w c root name req utf8_required (file f) = elim w.own_executable [
  | err e ↦ broken (no_executable e)
  | ok path ↦ check_run c utf8_required (w.run (command_of c root name req f))
]

unfoldable pub run_cgi : World → Config → Bytes → Bytes → Request → Bool → Found
unfolding check_run
run_cgi w c root name req utf8_required =
    start_run w c root name req utf8_required
      (open_regular_exec_no_follow w.calls (join_path root name))

-- What stands in the access log
pub data Outcome : Type 0 where
  hit miss cgi_hit cgi_fail invalid : Outcome

-- What stands in the error log
pub data Event : Type 0 where
  content_error : Bytes → ContentError → Event
  template_skipped : Bytes → Event
