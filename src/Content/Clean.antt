-- ===== src/Content/Clean.antt =====
-- What files, scripts and joins give consists of text bytes and CRLF line ends.
use fingered.Base.{
  ◌≡◌, inl, inr, refl, ltb, all, within, not, ◌&&◌, Bool, true, false, List, [], ◌∷◌, ◌++◌, ok, err,
  Result, if◌then◌else◌, Bytes, codes, length, arith, All, Bool-cases, Option, none, some,
}
use fingered.Base.Int.{pos, ltb_ℤ}
use fingered.Text.{has_suffix}
use fingered.Request.{Request, no_content_body, credits_body}
use fingered.Body.{join_segments, end_line, sanitize_body}
use fingered.Body.Clean.{IsBody, done, line_end, byte, sanitize_body-IsBody}
use fingered.Body.Joined.{join_segments-ended_parts, ended_parts}
use fingered.Config.{Config}
use fingered.Base.Int.{add64}
use fingered.FilePath.{join_path}
use fingered.Content.Files.{
  Opened, absent, refused, file, OpenFile, open_regular_read_no_follow, open_regular_exec_no_follow,
}
use fingered.Content.Capped.{write_all, empty_buffer, CappedBuffer}
use fingered.Content.Resolve.{
  World, Found, missing, broken, present, load_static, run_cgi, cleaned, check_static, static_of,
  check_run, start_run, Ran, command_of, no_executable, run_result, cgi_timed_out, cgi_exceeds,
  cgi_reported, cgi_failed, read_all_limited,
}

IsBody-append : {u : Bool} {s t : Bytes} → IsBody u s → IsBody u t → IsBody u (s ++ t)
IsBody-append done k = k
IsBody-append (line_end h) k = line_end (IsBody-append h k)
IsBody-append (byte b h) k = byte b (IsBody-append h k)

end_line-IsBody : {u : Bool} (s : Bytes) → IsBody u s → IsBody u (end_line s)
unfolding end_line
end_line-IsBody {u} s h =
    elim (Bool-cases (ltb 0 (length s) && not (has_suffix s (codes "\r\n")))) [
      | inl e ↦ rw e (IsBody-append h (line_end done))
      | inr e ↦ rw e h
    ]

ended_parts-IsBody :
    {u : Bool} (parts : List Bytes) → All (IsBody u) parts → IsBody u (ended_parts parts)
ended_parts-IsBody [] _ = done
ended_parts-IsBody (part ∷ parts) (h, hs) =
    IsBody-append (end_line-IsBody part h) (ended_parts-IsBody parts hs)

pub join_segments-IsBody :
    {u : Bool} (parts : List Bytes) → All (IsBody u) parts → IsBody u (join_segments parts)
join_segments-IsBody parts h = rw (join_segments-ended_parts parts) (ended_parts-IsBody parts h)

-- What a file or a script gave, if it gave anything
abbrev pub IsClean : Bool → Found → Type 0
IsClean u (present body) = IsBody u body
IsClean u missing = Unit
IsClean u (broken e) = Unit

cleaned-IsClean : (raw : Bytes) (u : Bool) → IsClean u (cleaned (sanitize_body raw u))
cleaned-IsClean raw u = go (sanitize_body raw u) refl
  where
    go : (r : Result Bytes) → sanitize_body raw u ≡ r → IsClean u (cleaned r)
    go (ok body) e = sanitize_body-IsBody raw u body e
    go (err why) e = tt

pub IsBody-shown :
    (u : Bool) (t s : Bytes) → all (within 0x20 0x7e) t ≡ true → IsBody u s → IsBody u (t ++ s)
IsBody-shown u [] s h k = k
IsBody-shown true (c ∷ t) s h k = byte (ground arith) (IsBody-shown true t s (ground arith) k)
IsBody-shown false (c ∷ t) s h k = byte (ground arith) (IsBody-shown false t s (ground arith) k)

pub no_content_body-IsBody : (u : Bool) → IsBody u no_content_body
no_content_body-IsBody u =
    IsBody-shown u (codes "Error: No content configured for this request.") (codes "\r\n") refl
      (line_end done)

pub credits_body-IsBody : (u : Bool) → IsBody u credits_body
credits_body-IsBody u = line_end (
    IsBody-shown u (codes "_____________________________")
      (codes "\r\nfinger://lanterns.io/fingered\r\n") refl
      (line_end (
        IsBody-shown u (codes "finger://lanterns.io/fingered") (codes "\r\n") refl
          (line_end done))))

pub load_static-IsClean :
    (w : World) (c : Config) (root name : Bytes) (u : Bool)
    → IsClean u (load_static w c.max_response_bytes root name u)
unfolding load_static
load_static-IsClean w c root name u =
    opened (open_regular_read_no_follow w.calls (join_path root name))
  where
    checked : (r : Result Bytes) → IsClean u (check_static c.max_response_bytes u r)
    checked (err e) = unfold check_static in tt
    checked (ok raw) =
        unfold check_static in
        elim (Bool-cases (ltb_ℤ c.max_response_bytes (pos (length raw)))) [
          | inl e ↦ rw e tt
          | inr e ↦ rw e (cleaned-IsClean raw u)
        ]

    opened : (o : Opened) → IsClean u (static_of c.max_response_bytes u o)
    opened absent = tt
    opened (refused e) = tt
    opened (file f) = checked (read_all_limited (add64 c.max_response_bytes 1) f.stream)

if-IsClean : (u b : Bool) (x y : Found) → IsClean u x → IsClean u y → IsClean u (if b then x else y)
if-IsClean u true x y h k = h
if-IsClean u false x y h k = k

run_result-IsClean :
    (u : Bool) (stdout stderr : Bytes) (e : Option Bytes) → IsClean u (run_result u stdout stderr e)
run_result-IsClean u stdout stderr none = cleaned-IsClean stdout u
run_result-IsClean u stdout stderr (some e) =
    if-IsClean u (ltb 0 (length stderr)) (broken (cgi_reported stderr)) (broken (cgi_failed e)) tt
      tt

check_run-IsClean : (c : Config) (u : Bool) (r : Ran) → IsClean u (check_run c u r)
unfolding check_run
check_run-IsClean c u r =
    if-IsClean u r.timed_out (broken (cgi_timed_out r.pid))
      (tail (write_all (empty_buffer c.cgi_max_stdout_bytes) r.stdout)) tt
      (if-IsClean u (write_all (empty_buffer c.cgi_max_stdout_bytes) r.stdout).exceeded
        (broken cgi_exceeds) _ tt (run_result-IsClean u _ _ r.error))
  where
    tail : CappedBuffer → Found
    tail stdout =
        if stdout.exceeded
        then broken cgi_exceeds
        else run_result u stdout.bytes (write_all (empty_buffer (pos 4096)) r.stderr).bytes r.error

pub run_cgi-IsClean :
    (w : World) (c : Config) (root name : Bytes) (req : Request) (u : Bool)
    → IsClean u (run_cgi w c root name req u)
unfolding run_cgi
run_cgi-IsClean w c root name req u =
    opened (open_regular_exec_no_follow w.calls (join_path root name))
  where
    opened : (o : Opened) → IsClean u (start_run w c root name req u o)
    opened absent = tt
    opened (refused e) = tt
    opened (file f) = started f w.own_executable
      where
        started :
            (f : OpenFile) (x : Result Bytes)
            → IsClean u (elim x [
              | err e ↦ broken (no_executable e)
              | ok path ↦ check_run c u (w.run (command_of c root name req f))
            ])
        started f (err e) = tt
        started f (ok path) = check_run-IsClean c u (w.run (command_of c root name req f))
