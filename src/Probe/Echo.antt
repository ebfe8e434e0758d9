-- ===== src/Probe/Echo.antt =====
-- The request that the echo probe sends back.
use fingered.Base.{
  ℕ, ◌+◌, ◌≤◌, ◌<◌, ◌≡◌, refl, ap, ◌∙◌, Bool, true, false, [], ◌∷◌, ◌++◌, none, some, ltb, Bytes,
  codes, length, take, length-append, append-nil, All-append, arith, eqb,
}
use fingered.Base.Int.{ℤ, pos}
use fingered.Text.Laws.{trim_suffix-append}
use fingered.Token.{Protocol}
use fingered.Request.{Request, parse_request}
use fingered.Request.Sound.{IsPrintable}
use fingered.Request.Accepted.{parse_request-IsRequest}
use fingered.Body.{sanitize_body}
use fingered.FilePath.{base}
use fingered.Config.{Config}
use fingered.Content.Capped.{take_short, empty_buffer, write_all, write_all-capped}
use fingered.Content.Files.{OpenFile}
use fingered.Content.Resolve.{command_of, read_all_limited, cleaned, check_run, present}
use fingered.Body.Printed.{sanitize_body_line}
use fingered.Probe.{System, read_request, echo, printed, probe_named, probe, ran_of, probe_run}

module _ (canonical : Bytes) (h : IsPrintable canonical) (few : length canonical < 1023) where
  read_request_line :
      read_request (record { content = canonical ++ codes "\n"; fault = none }) ≡ canonical
  unfolding read_request read_all_limited
  read_request_line =
      let short : ltb (length (canonical ++ codes "\n")) 1024 ≡ true =
        ground (arith, length-append canonical (codes "\n")) in
      rw short (trim_suffix-append canonical (codes "\n") (λ e. cc e))

  echoed : IsPrintable (codes "cgi-echo:" ++ canonical)
  echoed = All-append _ (codes "cgi-echo:") canonical (omega arith) h

-- What a probe that the server starts as `echo.cgi` gets on its input is the canonical form of the
-- request and a newline, and it writes them back.
probe_echo :
    (s : System) (c : Config) (root : Bytes) (req : Request) (f : OpenFile)
    → IsPrintable req.canonical
    → length req.canonical < 1023
    → probe_run s (command_of c root (codes "echo.cgi") req f)
      ≡ ran_of s.process_id (printed ((codes "cgi-echo:" ++ (req.canonical ++ codes "\n")) ∷ []))
unfolding probe probe_named base echo eqb
probe_echo s c root req f h few = rw (read_request_line req.canonical h few) refl

-- Output within the limit is what is sanitized.
check_run-within :
    (pid : ℤ) (c : Config) (u : Bool) (out : Bytes) (max : ℕ)
    → c.cgi_max_stdout_bytes ≡ pos max
    → length out ≤ max
    → check_run c u (ran_of pid (printed (out ∷ []))) ≡ cleaned (sanitize_body out u)
unfolding check_run
check_run-within pid c u out max limit room =
    let whole : take max (out ++ []) ≡ out = rw (append-nil out) (take_short max out room) in
    let fits : ltb max (length (out ++ [])) ≡ false = rw (append-nil out) (ground arith) in
    let kept =
      ap (λ n. write_all (empty_buffer n) (out ∷ [])) limit ∙ write_all-capped max (out ∷ []) in
    rw (kept, fits, whole) refl

-- For an accepted request whose canonical form has at most 1022 bytes, in either mode and if its output
-- is within the limit, the probe that is started as echo.cgi gives the canonical form of the request
-- behind its mark as the content, in one line that ends in CRLF.
pub check_run-echo :
    (raw_line : Bytes) (p : Protocol) (extend : Bool) (req : Request) (s : System) (c : Config)
    (root : Bytes) (f : OpenFile) (u : Bool) (max : ℕ)
    → parse_request raw_line p extend ≡ some req
    → length req.canonical < 1023
    → c.cgi_max_stdout_bytes ≡ pos max
    → length req.canonical + 10 ≤ max
    → check_run c u (probe_run s (command_of c root (codes "echo.cgi") req f))
      ≡ present (codes "cgi-echo:" ++ (req.canonical ++ codes "\r\n"))
check_run-echo raw_line p extend req s c root f u max accepted few limit room =
    let printable = (parse_request-IsRequest raw_line p extend req accepted).canonical in
    let out : Bytes = codes "cgi-echo:" ++ (req.canonical ++ codes "\n") in
    ap (check_run c u) (probe_echo s c root req f printable few)
    ∙ check_run-within s.process_id c u out max limit
        (omega (arith, length-append req.canonical (codes "\n"), room))
    ∙ ap cleaned (
        sanitize_body_line (codes "cgi-echo:" ++ req.canonical) (echoed req.canonical printable few)
          u)
