-- ===== src/Content/Served.antt =====
-- When a file or the output of a script is served.
use fingered.Base.{
  ℕ, ◌≢◌, ◌+◌, ◌^◌, ◌≤◌, ◌<◌, ◌≡◌, ◌↔◌, refl, sym, subst, ap, ◌∙◌, inl, inr, Bool, false, Option,
  none, some, if◌then◌else◌, ltb, Bytes, length, take, length-take, Result, ok, err, arith,
  Bool-cases,
}
use fingered.Base.Int.{ℤ, pos, add64, add64_small}
use fingered.FilePath.{join_path}
use fingered.Request.{Request}
use fingered.Body.{sanitize_body}
use fingered.Config.{Config}
use fingered.Content.Capped.{empty_buffer, write_all, write_all-capped, take_short, flatten}
use fingered.Content.Files.{
  Opened, absent, refused, file, OpenFile, Stream, open_regular_read_no_follow,
  open_regular_exec_no_follow,
}
use fingered.Content.Resolve.{
  World, Found, broken, present, no_executable, cgi_timed_out, cgi_exceeds, cleaned, check_static,
  read_all_limited, static_of, load_static, Ran, run_result, check_run, command_of, start_run,
  run_cgi,
}

cleaned_iff : (r : Result Bytes) (body : Bytes) → (cleaned r ≡ present body) ↔ (r ≡ ok body)
cleaned_iff (ok b) body = ground arith
cleaned_iff (err e) body = ground arith

-- The whole file within the limit, sanitized
abbrev pub IsText : ℕ → Bool → Stream → Bytes → Type 0
IsText max u s body =
    (length s.content ≤ max) × (s.fault ≡ none) × (sanitize_body s.content u ≡ ok body)

-- By whether all of it is within the limit
short_iff :
    (max : ℕ) (u : Bool) (content : Bytes) (fault : Option Bytes) (body : Bytes)
    → length content ≤ max
    → (check_static (pos max) u (elim fault [ none ↦ ok content | some e ↦ err e ]) ≡ present body)
      ↔ ((fault ≡ none) × (sanitize_body content u ≡ ok body))
unfolding check_static
short_iff max u content none body h = ground (arith, cleaned_iff (sanitize_body content u) body)
short_iff max u content (some e) body h = ground arith

long_refused :
    (max : ℕ) (u : Bool) (raw body : Bytes)
    → max < length raw
    → check_static (pos max) u (ok raw) ≢ present body
unfolding check_static
long_refused max u raw body h = λ e. ground arith

more : (s : Bytes) (max : ℕ) → ltb (length s) (max + 1) ≡ false → max < length s
more s max e = ground arith

read_iff :
    (max : ℕ) (u : Bool) (s : Stream) (body : Bytes)
    → max + 1 < 2 ^ 63
    → (check_static (pos max) u (read_all_limited (add64 (pos max) 1) s) ≡ present body)
      ↔ IsText max u s body
unfolding read_all_limited
read_iff max u s body h = elim (Bool-cases (ltb (length s.content) (max + 1))) [
  | inl e ↦
      rw (add64_small max 1 h, e)
        (ground (arith, short_iff max u s.content s.fault body (ground arith)))
  | inr e ↦
      rw (add64_small max 1 h, e)
        (ground (
          arith,
          long_refused max u (take (max + 1) s.content) body
              (omega (arith, length-take (max + 1) s.content, more s.content max e)),
        ))
]

-- A file that is served
abbrev pub IsFile : World → ℕ → Bytes → Bytes → Bool → Bytes → Type 0
IsFile w max root name u body =
    (f : OpenFile) × (open_regular_read_no_follow w.calls (join_path root name) ≡ file f)
    × IsText max u f.stream body

static_of_iff :
    (max : ℕ) (u : Bool) (o : Opened) (body : Bytes)
    → max + 1 < 2 ^ 63
    → (static_of (pos max) u o ≡ present body)
      ↔ ((f : OpenFile) × (o ≡ file f) × IsText max u f.stream body)
static_of_iff max u absent body h = (λ e. absurd (cc e), λ (f, e, t). absurd (cc e))
static_of_iff max u (refused x) body h = (λ e. absurd (cc e), λ (f, e, t). absurd (cc e))
static_of_iff max u (file f) body h = (
  λ e. (f, refl, (read_iff max u f.stream body h).0 e),
  λ (g, e, t).
      let same : f ≡ g = cc e in
      (read_iff max u f.stream body h).1 (subst (λ x. IsText max u x.stream body) (sym same) t),
)

pub load_static_iff :
    (w : World) (max : ℕ) (root name : Bytes) (u : Bool) (body : Bytes)
    → max + 1 < 2 ^ 63
    → (load_static w (pos max) root name u ≡ present body) ↔ IsFile w max root name u body
unfolding load_static
load_static_iff w max root name u body h =
    static_of_iff max u (open_regular_read_no_follow w.calls (join_path root name)) body h

-- A process that ended in time and with no error, whose output is within the limit
abbrev pub IsOutput : ℕ → Bool → Ran → Bytes → Type 0
IsOutput max u r body =
    (r.timed_out ≡ false)
    × (length (flatten r.stdout) ≤ max)
    × (r.error ≡ none)
    × (sanitize_body (flatten r.stdout) u ≡ ok body)

run_result_iff :
    (u : Bool) (stdout stderr : Bytes) (e : Option Bytes) (body : Bytes)
    → (run_result u stdout stderr e ≡ present body)
      ↔ ((e ≡ none) × (sanitize_body stdout u ≡ ok body))
run_result_iff u stdout stderr none body = ground (arith, cleaned_iff (sanitize_body stdout u) body)
run_result_iff u stdout stderr (some e) body = ground arith

output_iff :
    (max : ℕ) (u timed_out : Bool) (pid : Option ℤ) (total stderr : Bytes) (e : Option Bytes)
    (body : Bytes)
    → ((if timed_out
          then broken (cgi_timed_out pid)
          else if ltb max (length total)
          then broken cgi_exceeds
          else run_result u (take max total) stderr e)
        ≡ present body)
      ↔ ((timed_out ≡ false)
          × (length total ≤ max)
          × (e ≡ none)
          × (sanitize_body total u ≡ ok body))
output_iff max u timed_out pid total stderr e body = elim (Bool-cases (ltb max (length total))) [
  | inl long ↦ rw long (ground arith)
  | inr short ↦
      let whole : take max total ≡ total = take_short max total (ground arith) in
      rw (short, whole) (ground (arith, run_result_iff u total stderr e body))
]

check_run_iff :
    (c : Config) (u : Bool) (r : Ran) (max : ℕ) (body : Bytes)
    → c.cgi_max_stdout_bytes ≡ pos max
    → (check_run c u r ≡ present body) ↔ IsOutput max u r body
unfolding check_run
check_run_iff c u r max body limit =
    let kept =
      ap (λ n. write_all (empty_buffer n) r.stdout) limit ∙ write_all-capped max r.stdout in
    rw kept (
      output_iff max u r.timed_out r.pid (flatten r.stdout)
        (write_all (empty_buffer (pos 4096)) r.stderr).bytes r.error body)

-- A script that is served: it is run as the command of the request.
abbrev pub IsRun : World → Config → ℕ → Bytes → Bytes → Request → Bool → Bytes → Type 0
IsRun w c max root name req u body =
    (f : OpenFile) × (path : Bytes) × (open_regular_exec_no_follow w.calls (join_path root name)
      ≡ file f)
    × (w.own_executable ≡ ok path)
    × IsOutput max u (w.run (command_of c root name req f)) body

executable_iff :
    (x : Result Bytes) (found : Found) (body : Bytes)
    → (elim x [ err e ↦ broken (no_executable e) | ok path ↦ found ] ≡ present body)
      ↔ ((path : Bytes) × (x ≡ ok path) × (found ≡ present body))
executable_iff (ok path) found body = (λ e. (path, refl, e), λ (other, same, e). e)
executable_iff (err x) found body = (λ e. absurd (cc e), λ (path, e, y). absurd (cc e))

start_run_iff :
    (w : World) (c : Config) (max : ℕ) (root name : Bytes) (req : Request) (u : Bool) (o : Opened)
    (body : Bytes)
    → c.cgi_max_stdout_bytes ≡ pos max
    → (start_run w c root name req u o ≡ present body) ↔ (
        (f : OpenFile) × (path : Bytes) × (o ≡ file f)
        × (w.own_executable ≡ ok path)
        × IsOutput max u (w.run (command_of c root name req f)) body)
start_run_iff w c max root name req u absent body limit =
    (λ e. absurd (cc e), λ (f, path, e, x, t). absurd (cc e))
start_run_iff w c max root name req u (refused x) body limit =
    (λ e. absurd (cc e), λ (f, path, e, y, t). absurd (cc e))
start_run_iff w c max root name req u (file f) body limit =
    let ran = w.run (command_of c root name req f) in
    let started = executable_iff w.own_executable (check_run c u ran) body in
    let checked = check_run_iff c u ran max body limit in
    (
      λ e. let (path, x, done) = started.0 e in (f, path, refl, x, checked.0 done),
      λ (g, path, e, x, output).
          let same : g ≡ f = cc e in
          started.1 (
            path,
            x,
            checked.1 (
                subst (λ h. IsOutput max u (w.run (command_of c root name req h)) body) same
                  output),
          ),
    )

pub run_cgi_iff :
    (w : World) (c : Config) (max : ℕ) (root name : Bytes) (req : Request) (u : Bool) (body : Bytes)
    → c.cgi_max_stdout_bytes ≡ pos max
    → (run_cgi w c root name req u ≡ present body) ↔ IsRun w c max root name req u body
unfolding run_cgi
run_cgi_iff w c max root name req u body limit =
    start_run_iff w c max root name req u
      (open_regular_exec_no_follow w.calls (join_path root name)) body limit
