-- ===== src/Content/Confined.antt =====
-- The files and scripts of a request stay in the document root.
use fingered.Base.{
  ℕ, ◌<◌, ◌≡◌, ◌≢◌, ◌⊎◌, refl, ap, inl, inr, Bool, true, false, [], ◌∷◌, ◌++◌, some, Bytes, codes,
  All, All-append, All-map, Lacks, length, length-append, arith,
}
use fingered.Token.{Protocol, is_target_rune, first_is}
use fingered.Token.Target.{IsTarget}
use fingered.Request.{Request, parse_request}
use fingered.Request.Sound.{IsTargetOrNone}
use fingered.Request.Accepted.{parse_request-IsRequest}
use fingered.FilePath.{is_abs, join_path}
use fingered.FilePath.Component.{IsComponent, IsInside, join_path-IsInside}
use fingered.Content.Resolve.{build_content_name}

-- A name of a file of the document root that has no NUL
pub record IsFileName (name : Bytes) : Type 0 where
  pub component : IsComponent name
  pub no_nul : Lacks 0 name

-- The two suffixes of content
abbrev pub IsSuffix : Bytes → Type 0
IsSuffix suffix = (suffix ≡ codes ".txt") ⊎ (suffix ≡ codes ".cgi")

-- No slash and no NUL
abbrev pub IsPlain : ℕ → Type 0
IsPlain c = (c ≢ b'/') × (c ≢ 0)

pub IsFileName-plain : (name : Bytes) → 2 < length name → All IsPlain name → IsFileName name
IsFileName-plain name h k = record {
  component = record {
    not_empty = λ e. omega (arith, ap length e);
    not_dot = λ e. omega (arith, ap length e);
    not_dots = λ e. omega (arith, ap length e);
    one = All-map IsPlain _ (λ c p. p.0) name k;
  };
  no_nul = All-map IsPlain _ (λ c p. p.1) name k;
}

suffix-IsPlain : (suffix : Bytes) → IsSuffix suffix → All IsPlain suffix × (length suffix ≡ 4)
suffix-IsPlain suffix (inl e) = rw e (omega arith, refl)
suffix-IsPlain suffix (inr e) = rw e (omega arith, refl)

is_target_rune-IsPlain : (c : ℕ) → is_target_rune c ≡ true → IsPlain c
unfolding is_target_rune
is_target_rune-IsPlain c h = (λ e. ground arith, λ e. ground arith)

target-IsPlain : (target : Bytes) → IsTarget target → All IsPlain target
target-IsPlain target t = All-map _ IsPlain is_target_rune-IsPlain target t.bytes

long_name :
    (target suffix : Bytes) → All IsPlain target → IsSuffix suffix → IsFileName (target ++ suffix)
long_name target suffix h s =
    let (plain, four) = suffix-IsPlain suffix s in
    IsFileName-plain (target ++ suffix) (omega (arith, length-append target suffix, four))
      (All-append IsPlain target suffix h plain)

pub build_content_name-IsFileName :
    (target suffix : Bytes)
    → IsTargetOrNone target
    → IsSuffix suffix
    → IsFileName (build_content_name target suffix)
unfolding build_content_name
build_content_name-IsFileName [] suffix t s = long_name (codes "index") suffix (omega arith) s
build_content_name-IsFileName (c ∷ target) suffix (inl e) s = absurd (cc)
build_content_name-IsFileName (c ∷ target) suffix (inr t) s =
    long_name (c ∷ target) suffix (target-IsPlain (c ∷ target) t) s

build_content_name-first :
    (target suffix : Bytes)
    → IsTargetOrNone target
    → first_is b'.' (build_content_name target suffix) ≡ false
unfolding build_content_name
build_content_name-first [] suffix t = refl
build_content_name-first (c ∷ target) suffix (inl e) = absurd (cc)
build_content_name-first (c ∷ target) suffix (inr t) = t.no_first_dot

-- For an accepted request and an absolute document root, the path of its static file and the path of
-- its script are those of the clean document root and one element more, the name of the content: it is
-- not empty, `.` or `..` and holds no slash, which is also true of each element of the root. No request
-- names a file that begins with a dot, as the templates do.
pub content_path-IsInside :
    (raw_line : Bytes) (p : Protocol) (extend : Bool) (req : Request) (root suffix : Bytes)
    → parse_request raw_line p extend ≡ some req
    → is_abs root ≡ true
    → IsSuffix suffix
    → IsInside root
        (build_content_name req.target suffix)
        (join_path root (build_content_name req.target suffix))
      × (first_is b'.' (build_content_name req.target suffix) ≡ false)
content_path-IsInside raw_line p extend req root suffix accepted a s =
    let target = (parse_request-IsRequest raw_line p extend req accepted).target in
    (
      join_path-IsInside root (build_content_name req.target suffix) a
          (build_content_name-IsFileName req.target suffix target s).component,
      build_content_name-first req.target suffix target,
    )
