-- ===== src/Content/Isolated.antt =====
-- The response to a request depends on no file outside the document root.
use fingered.Base.{◌≡◌, refl, sym, ap, ◌∙◌, inl, inr, Bool, true, ◌++◌, some, Bytes, codes, arith}
use fingered.Token.{Protocol}
use fingered.Request.{Request, parse_request}
use fingered.Request.Sound.{IsTargetOrNone}
use fingered.Request.Accepted.{parse_request-IsRequest}
use fingered.FilePath.{is_abs, join_path}
use fingered.FilePath.Component.{IsInside, join_path-IsInside}
use fingered.Config.{Config}
use fingered.Content.Files.{
  Calls, Answer, answer, failure, not_exist, loop, other, FileInfo, OpenFile, Opened, absent,
  refused, message, path_error, open_if_regular, check_executable, open_regular_read_no_follow,
  open_regular_exec_no_follow,
}
use fingered.Content.Resolve.{
  World, ListenerMode, static_of, start_run, load_static, run_cgi, build_content_name,
}
use fingered.Content.Response.{
  utf8_required, resolve_main_content, resolve_template, resolve_templates, response_of,
  build_valid_response,
}
use fingered.Content.Confined.{IsFileName, IsFileName-plain, build_content_name-IsFileName}

-- Calls that answer alike for each path that is one plain name more than the root. They may differ on
-- every other path, also below a subdirectory of the root.
pub record AgreeInside (root : Bytes) (these those : Calls) : Type 0 where
  pub lstat : (name path : Bytes) → IsInside root name path → these.lstat path ≡ those.lstat path
  pub open_read :
      (name path : Bytes) → IsInside root name path → these.open_read path ≡ those.open_read path
  pub open_path :
      (name path : Bytes) → IsInside root name path → these.open_path path ≡ those.open_path path

abbrev read_by : Bytes → Answer FileInfo → Answer OpenFile → Opened
read_by path named opened = elim named [
  | failure not_exist ↦ absent
  | failure loop ↦ refused (path_error (codes "lstat") path loop)
  | failure (other text) ↦ refused (path_error (codes "lstat") path (other text))
  | answer info ↦ open_if_regular path info opened
]

abbrev exec_by : Bytes → Answer OpenFile → Opened
exec_by path opened = elim opened [
  | failure not_exist ↦ absent
  | failure loop ↦ refused (message loop)
  | failure (other text) ↦ refused text
  | answer f ↦ check_executable path f
]

open_read_by :
    (calls : Calls) (path : Bytes)
    → open_regular_read_no_follow calls path
      ≡ read_by path (calls.lstat path) (calls.open_read path)
unfolding open_regular_read_no_follow
open_read_by calls path = refl

open_exec_by :
    (calls : Calls) (path : Bytes)
    → open_regular_exec_no_follow calls path ≡ exec_by path (calls.open_path path)
unfolding open_regular_exec_no_follow
open_exec_by calls path = refl

module _ (w : World) (those : Calls) (c : Config) (req : Request) (mode : ListenerMode)
    (absolute : is_abs mode.doc_root ≡ true) (agree : AgreeInside mode.doc_root w.calls those) where
  -- The same system with other files
  abbrev moved : World
  moved = record w { calls = those }

  inside :
      (name : Bytes) → IsFileName name → IsInside mode.doc_root name (join_path mode.doc_root name)
  inside name n = join_path-IsInside mode.doc_root name absolute n.component

  load_static_same :
      (name : Bytes)
      → IsFileName name
      → load_static moved c.max_response_bytes mode.doc_root name (utf8_required mode)
        ≡ load_static w c.max_response_bytes mode.doc_root name (utf8_required mode)
  unfolding load_static
  load_static_same name n =
      let path = join_path mode.doc_root name in
      ap (static_of c.max_response_bytes (utf8_required mode)) (
        open_read_by those path
        ∙ ap (λ x. read_by path x (those.open_read path))
            (sym (agree.lstat name path (inside name n)))
        ∙ ap (read_by path (w.calls.lstat path)) (sym (agree.open_read name path (inside name n)))
        ∙ sym (open_read_by w.calls path))

  run_cgi_same :
      (name : Bytes)
      → IsFileName name
      → run_cgi moved c mode.doc_root name req (utf8_required mode)
        ≡ run_cgi w c mode.doc_root name req (utf8_required mode)
  unfolding run_cgi
  run_cgi_same name n =
      let path = join_path mode.doc_root name in
      ap (start_run w c mode.doc_root name req (utf8_required mode)) (
        open_exec_by those path
        ∙ ap (exec_by path) (sym (agree.open_path name path (inside name n)))
        ∙ sym (open_exec_by w.calls path))

  resolve_main_content_same :
      IsTargetOrNone req.target
      → resolve_main_content moved c req mode ≡ resolve_main_content w c req mode
  unfolding resolve_main_content
  resolve_main_content_same t =
      let name = build_content_name req.target (codes ".txt") in
      let cgi_name = build_content_name req.target (codes ".cgi") in
      let static_file = build_content_name-IsFileName req.target (codes ".txt") t (inl refl) in
      let script_file = build_content_name-IsFileName req.target (codes ".cgi") t (inr refl) in
      rw (load_static_same name static_file, run_cgi_same cgi_name script_file) refl

  resolve_template_same :
      (name : Bytes)
      → IsFileName (name ++ codes ".txt")
      → IsFileName (name ++ codes ".cgi")
      → resolve_template moved c name req mode ≡ resolve_template w c name req mode
  unfolding resolve_template
  resolve_template_same name n m =
      rw (load_static_same (name ++ codes ".txt") n, run_cgi_same (name ++ codes ".cgi") m) refl

  resolve_templates_same : resolve_templates moved c req mode ≡ resolve_templates w c req mode
  unfolding resolve_templates
  resolve_templates_same =
      let header =
        resolve_template_same (codes ".header")
          (IsFileName-plain (codes ".header.txt") (omega arith) (omega arith))
          (IsFileName-plain (codes ".header.cgi") (omega arith) (omega arith)) in
      let footer =
        resolve_template_same (codes ".footer")
          (IsFileName-plain (codes ".footer.txt") (omega arith) (omega arith))
          (IsFileName-plain (codes ".footer.cgi") (omega arith) (omega arith)) in
      rw (header, footer) refl

-- For an accepted request and an absolute document root, the response, its outcome and what it logs are
-- the same on two systems whose files agree on the paths that are the clean document root and one plain
-- name more, which is not `.` or `..` and holds no slash, and may differ on every other path.
pub build_valid_response_isolated :
    (raw_line : Bytes) (p : Protocol) (extend : Bool) (req : Request) (w : World) (those : Calls)
    (c : Config) (mode : ListenerMode)
    → parse_request raw_line p extend ≡ some req
    → is_abs mode.doc_root ≡ true
    → AgreeInside mode.doc_root w.calls those
    → build_valid_response (record w { calls = those }) c req mode
      ≡ build_valid_response w c req mode
unfolding build_valid_response
build_valid_response_isolated raw_line p extend req w those c mode accepted absolute agree =
    let target = (parse_request-IsRequest raw_line p extend req accepted).target in
    ap (λ m. response_of c m (resolve_templates (record w { calls = those }) c req mode))
      (resolve_main_content_same w those c req mode absolute agree target)
    ∙ ap (response_of c (resolve_main_content w c req mode))
        (resolve_templates_same w those c req mode absolute agree)
