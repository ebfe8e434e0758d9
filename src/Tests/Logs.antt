-- ===== src/Tests/Logs.antt =====
-- Fields and lines of the log, and its files.
use fingered.Base.{
  ◌≡◌, refl, eqb, if◌then◌else◌, true, false, [], ◌∷◌, ◌++◌, none, Bytes, codes, err, arith,
}
use fingered.Base.Int.{pos}
use fingered.Addr.{Addr, v4, invalid}
use fingered.Config.{Config, default_config, log_format_rfc5424}
use fingered.Content.Files.{answer, regular, irregular}
use fingered.Log.Field.{sanitize_log}
use fingered.Log.Clean.{IsField, sanitize_log-IsField}
use fingered.Log.Line.{Header, Texts, Origin, access_line}
use fingered.Log.Record.{AreTexts}
use fingered.Log.Open.{Process, LogCalls, open_logger}
use fingered.Tests.{logs}

sanitize_runs :
    (sanitize_log (codes "a\nb\t" ++ 0x1b ∷ 0x7f ∷ 0xff ∷ [])
      ≡ codes "a b \\x1b\\x7f" ++ 0xef ∷ 0xbf ∷ 0xbd ∷ [])
    × (sanitize_log (codes " \r\n ") ≡ codes "-")
    × (sanitize_log [] ≡ codes "-")
unfolding logs
sanitize_runs = (refl, refl, refl)

sanitize_log-IsField_example : IsField (sanitize_log (codes "a\nb"))
sanitize_log-IsField_example = sanitize_log-IsField (codes "a\nb")

abbrev pub header : Header
header = record { host = codes "box"; pid = pos 42; format = log_format_rfc5424 }

abbrev pub show : Addr → Bytes
show addr = codes "8.8.4.4"

abbrev pub texts : Texts
texts = record {
  stamp_rfc3164 = codes "Jan  1 00:00:00";
  stamp_rfc3339 = codes "1970-01-01T00:00:00Z";
  show = show;
}

pub texts-AreTexts : AreTexts texts
texts-AreTexts = record {
  stamp_rfc3164 = omega arith;
  stamp_rfc3339 = omega arith;
  show = λ addr. omega arith;
}

abbrev origin : Origin
origin = record {
  protocol = codes "finger";
  port = pos 79;
  client_ip = v4 8 8 4 4;
  peer_ip = invalid;
}

access_run :
    access_line header texts origin (codes "alice\nGET /") (codes "hit") (pos 5) (pos 0)
    ≡ codes
        "<14>1 1970-01-01T00:00:00Z box fingered 42 - - ACCESS protocol=finger port=79 client_ip=8.8.4.4 peer_ip=- request=alice GET / outcome=hit bytes=5 duration_ms=0\n"
unfolding logs
access_run = refl

abbrev both : Config
both = record default_config { log_requests = true; log_root = codes "/logs" }

abbrev process : Process
process = record { umask = pos 18; opened = codes "/dev/null" ∷ [] }

-- The access log is no regular file.
abbrev odd_calls : LogCalls
odd_calls = record {
  open_append = λ umask path.
      if eqb path (codes "/logs/error.log")
      then answer (answer (record { file_type = regular; executable = false }))
      else answer (answer (record { file_type = irregular; executable = false }));
  close_error = λ path. none;
}

open_run :
    open_logger odd_calls both process ≡ (err (codes "log target is not a regular file"), process)
unfolding logs
open_run = refl
