-- ===== src/Content/Outcomes.antt =====
-- Which content a request gets.
use fingered.Base.{
  ℕ, ◌+◌, ◌^◌, ◌<◌, ◌≡◌, ◌≢◌, ◌↔◌, refl, sym, subst, Bool, true, false, [], Bytes, codes, Result,
  ok, err, arith,
}
use fingered.Base.Int.{ℤ, pos}
use fingered.FilePath.{join_path}
use fingered.Request.{Request}
use fingered.Body.{sanitize_body}
use fingered.Config.{Config}
use fingered.Content.Files.{Opened, absent, refused, file, open_regular_read_no_follow}
use fingered.Content.Resolve.{
  World, ListenerMode, Found, missing, broken, present, cleaned, check_static, static_of,
  load_static, run_cgi, build_content_name, hit, cgi_hit,
}
use fingered.Content.Response.{
  content_of, utf8_required, cgi_content, main_content, resolve_main_content,
}
use fingered.Content.Served.{IsFile, load_static_iff, IsRun, run_cgi_iff}

main_content-hit_iff :
    (name cgi_name : Bytes) (on : Bool) (found script : Found) (body : Bytes)
    → (main_content name on found (cgi_content cgi_name script) ≡ content_of body hit [])
      ↔ (found ≡ present body)
main_content-hit_iff name cgi_name on (present b) script body = ground arith
main_content-hit_iff name cgi_name on (broken e) script body = ground arith
main_content-hit_iff name cgi_name false missing script body = ground arith
main_content-hit_iff name cgi_name true missing missing body = ground arith
main_content-hit_iff name cgi_name true missing (broken e) body = ground arith
main_content-hit_iff name cgi_name true missing (present b) body = ground arith

main_content-cgi_hit_iff :
    (name cgi_name : Bytes) (on : Bool) (found script : Found) (body : Bytes)
    → (main_content name on found (cgi_content cgi_name script) ≡ content_of body cgi_hit [])
      ↔ ((found ≡ missing) × (on ≡ true) × (script ≡ present body))
main_content-cgi_hit_iff name cgi_name on (present b) script body = ground arith
main_content-cgi_hit_iff name cgi_name on (broken e) script body = ground arith
main_content-cgi_hit_iff name cgi_name false missing script body = ground arith
main_content-cgi_hit_iff name cgi_name true missing missing body = ground arith
main_content-cgi_hit_iff name cgi_name true missing (broken e) body = ground arith
main_content-cgi_hit_iff name cgi_name true missing (present b) body = ground arith

cleaned-ne-missing : (r : Result Bytes) → cleaned r ≢ missing
cleaned-ne-missing (ok b) = λ e. cc e
cleaned-ne-missing (err x) = λ e. cc e

check_static-ne-missing : (max : ℤ) (u : Bool) (r : Result Bytes) → check_static max u r ≢ missing
unfolding check_static
check_static-ne-missing max u (err x) = λ e. cc e
check_static-ne-missing max u (ok raw) = ground (arith, cleaned-ne-missing (sanitize_body raw u))

static_of-missing_iff :
    (max : ℤ) (u : Bool) (o : Opened) → (static_of max u o ≡ missing) ↔ (o ≡ absent)
static_of-missing_iff max u absent = (λ e. refl, λ e. refl)
static_of-missing_iff max u (refused x) = (λ e. absurd (cc e), λ e. absurd (cc e))
static_of-missing_iff max u (file f) =
    (λ e. absurd (check_static-ne-missing max u _ e), λ e. absurd (cc e))

within_limit_iff :
    {n : ℤ} {max : ℕ} (w : World) (root name : Bytes) (u : Bool) (body : Bytes)
    → n ≡ pos max
    → max + 1 < 2 ^ 63
    → (load_static w n root name u ≡ present body) ↔ IsFile w max root name u body
within_limit_iff {n} {max} w root name u body limit small =
    subst (λ m. (load_static w m root name u ≡ present body) ↔ IsFile w max root name u body)
      (sym limit) (load_static_iff w max root name u body small)

-- The script of a request is asked: there is no static file, and scripts are on.
abbrev pub IsScripted : World → Request → ListenerMode → Type 0
IsScripted w req mode =
    (open_regular_read_no_follow w.calls
        (join_path mode.doc_root (build_content_name req.target (codes ".txt")))
      ≡ absent)
    × (mode.cgi_enable ≡ true)

-- With limits that do not overflow, the content is a body with the outcome `hit` exactly if the static
-- file of the request opens as a regular file, is read to its end within the limit and is sanitized to
-- that body. It is a body with the outcome `cgi_hit` exactly if there is no such file, scripts are on,
-- and the script of the request opens as a regular file that may be executed, ends in time and with no
-- error, and has output within its limit that is sanitized to that body.
pub resolve_main_content_iff :
    (w : World) (c : Config) (req : Request) (mode : ListenerMode) (max cgi_max : ℕ) (body : Bytes)
    → c.max_response_bytes ≡ pos max
    → max + 1 < 2 ^ 63
    → c.cgi_max_stdout_bytes ≡ pos cgi_max
    → ((resolve_main_content w c req mode ≡ content_of body hit [])
        ↔ IsFile w max mode.doc_root
            (build_content_name req.target (codes ".txt"))
            (utf8_required mode)
            body)
      × ((resolve_main_content w c req mode ≡ content_of body cgi_hit []) ↔ (
          IsScripted w req mode
          × IsRun w c cgi_max mode.doc_root
              (build_content_name req.target (codes ".cgi"))
              req
              (utf8_required mode)
              body))
unfolding resolve_main_content load_static
resolve_main_content_iff w c req mode max cgi_max body limit small cgi_limit =
    let u = utf8_required mode in
    let name = build_content_name req.target (codes ".txt") in
    let cgi_name = build_content_name req.target (codes ".cgi") in
    let found = load_static w c.max_response_bytes mode.doc_root name u in
    let script = run_cgi w c mode.doc_root cgi_name req u in
    let hits = main_content-hit_iff name cgi_name mode.cgi_enable found script body in
    let cgi_hits = main_content-cgi_hit_iff name cgi_name mode.cgi_enable found script body in
    let is_file = within_limit_iff w mode.doc_root name u body limit small in
    let no_file =
      static_of-missing_iff c.max_response_bytes u
        (open_regular_read_no_follow w.calls (join_path mode.doc_root name)) in
    let is_run = run_cgi_iff w c cgi_max mode.doc_root cgi_name req u body cgi_limit in
    (
      (λ e. is_file.0 (hits.0 e), λ h. hits.1 (is_file.1 h)),
      (
        λ e. let (gone, on, run) = cgi_hits.0 e in ((no_file.0 gone, on), is_run.0 run),
        λ (asked, run). cgi_hits.1 (no_file.1 asked.0, asked.1, is_run.1 run),
      ),
    )
