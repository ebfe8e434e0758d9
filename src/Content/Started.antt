-- ===== src/Content/Started.antt =====
-- The helper that the server starts accepts what it is given, and becomes the script.
use fingered.Base.{
  ◌≡◌, ◌⊎◌, refl, inl, inr, Bool, true, false, [], ◌∷◌, ◌++◌, none, some, Bytes, codes, eqb, arith,
}
use fingered.Base.Int.{pos}
use fingered.Text.{contains, has_prefix}
use fingered.Text.Laws.{Lacks-contains}
use fingered.Token.{Protocol}
use fingered.Request.{Request, parse_request}
use fingered.Request.Sound.{IsTargetOrNone}
use fingered.Request.Accepted.{parse_request-IsRequest}
use fingered.FilePath.{is_abs, base}
use fingered.FilePath.Name.{base_name}
use fingered.Config.{Config}
use fingered.Content.Files.{OpenFile}
use fingered.Content.Resolve.{command_of, build_content_name}
use fingered.Helper.{validate_cgi_helper, exec_cgi_helper, Kernel, returned}
use fingered.Helper.Order.{Succeeds, jail_calls, exec_cgi_helper_iff}
use fingered.Content.Confined.{IsFileName, IsFileName-plain, build_content_name-IsFileName}

is_abs-ne-nil : (root : Bytes) → is_abs root ≡ true → eqb root [] ≡ false
unfolding is_abs has_prefix eqb
is_abs-ne-nil [] a = ground arith
is_abs-ne-nil (c ∷ root) a = refl

slash_first : (name : Bytes) → has_prefix (b'/' ∷ name) (codes "/") ≡ true
unfolding has_prefix
slash_first name = ground arith

cons-ne-nil : (name : Bytes) → eqb (b'/' ∷ name) [] ≡ false
unfolding eqb
cons-ne-nil name = refl

module _ (root name : Bytes) (a : is_abs root ≡ true) (n : IsFileName name) where
  base_same : base name ≡ name
  base_same = base_name name n.component.not_empty n.component.one

  valid_arguments : validate_cgi_helper root (codes "/" ++ base name) (pos 3) ≡ none
  unfolding validate_cgi_helper
  valid_arguments = rw base_same (
      ground (
        arith,
        is_abs-ne-nil root a,
        slash_first name,
        cons-ne-nil name,
        Lacks-contains name b'/' n.component.one,
      ))

  no_nul_argument : contains (codes "/" ++ base name) (0 ∷ []) ≡ false
  no_nul_argument = rw base_same (Lacks-contains (b'/' ∷ name) 0 (λ e. omega (arith, e), n.no_nul))

-- The scripts of a request: its content, the header and the footer
abbrev pub IsScript : Request → Bytes → Type 0
IsScript req name =
    (name ≡ build_content_name req.target (codes ".cgi"))
    ⊎ ((name ≡ codes ".header.cgi") ⊎ (name ≡ codes ".footer.cgi"))

IsScript-IsFileName :
    (req : Request) (name : Bytes) → IsTargetOrNone req.target → IsScript req name → IsFileName name
IsScript-IsFileName req name t (inl e) =
    rw e (build_content_name-IsFileName req.target (codes ".cgi") t (inr refl))
IsScript-IsFileName req name t (inr (inl e)) =
    rw e (IsFileName-plain (codes ".header.cgi") (omega arith) (omega arith))
IsScript-IsFileName req name t (inr (inr e)) =
    rw e (IsFileName-plain (codes ".footer.cgi") (omega arith) (omega arith))

-- For each script of an accepted request and an absolute document root, the helper that runCGI starts
-- accepts its arguments, and it becomes the script if the kernel does each of its calls.
pub exec_cgi_helper-command_of :
    (raw_line : Bytes) (p : Protocol) (extend : Bool) (req : Request) (c : Config)
    (root name : Bytes) (f : OpenFile) (kernel : Kernel)
    → parse_request raw_line p extend ≡ some req
    → is_abs root ≡ true
    → IsScript req name
    → Succeeds kernel [] (jail_calls root (command_of c root name req f).argv0 (pos 3))
    → exec_cgi_helper root (command_of c root name req f).argv0 (pos 3) kernel []
      ≡ returned tt (jail_calls root (command_of c root name req f).argv0 (pos 3))
exec_cgi_helper-command_of raw_line p extend req c root name f kernel accepted a s k =
    let target = (parse_request-IsRequest raw_line p extend req accepted).target in
    let n = IsScript-IsFileName req name target s in
    (exec_cgi_helper_iff kernel root (codes "/" ++ base name) (pos 3) _).1
      (valid_arguments root name a n, no_nul_argument root name a n, k, refl)
