-- ===== src/Helper/Order.antt =====
-- The order of the helper's system calls.
use fingered.Base.{
  ◌≡◌, ◌↔◌, ◌⊎◌, false, List, [], ◌∷◌, ◌++◌, Option, none, some, Bytes, codes, arith, take, length,
}
use fingered.Base.Int.{ℤ}
use fingered.Text.{contains}
use fingered.Helper.{
  Call, chdir, chroot, set_no_new_privs, clear_ambient, set_groups, cap_set, execveat, cap_header,
  no_caps, Errno, einval, Kernel, Outcome, returned, failed, validate_cgi_helper, exec_cgi_helper,
}

-- The calls of a helper that becomes the script: into the document root, which becomes the root, then
-- every privilege away, and the script last, with one argument and no environment
abbrev pub jail_calls : Bytes → Bytes → ℤ → List Call
jail_calls root argv0 fd =
    chdir root
    ∷ chroot (codes ".")
    ∷ chdir (codes "/")
    ∷ set_no_new_privs
    ∷ set_groups []
    ∷ clear_ambient
    ∷ cap_set cap_header (no_caps ∷ no_caps ∷ [])
    ∷ execveat fd (argv0 ∷ []) []
    ∷ []

-- The kernel does the call, or it has no ambient capabilities to clear.
abbrev pub IsFine : Call → Option Errno → Type 0
IsFine clear_ambient o = (o ≡ none) ⊎ (o ≡ some einval)
IsFine (chdir path) o = o ≡ none
IsFine (chroot path) o = o ≡ none
IsFine set_no_new_privs o = o ≡ none
IsFine (set_groups groups) o = o ≡ none
IsFine (cap_set header caps) o = o ≡ none
IsFine (execveat fd argv envv) o = o ≡ none

-- The calls `cs` behind those made, each of them fine
abbrev pub Succeeds : Kernel → List Call → List Call → Type 0
Succeeds kernel made [] = Unit
Succeeds kernel made (c ∷ cs) = IsFine c (kernel made c) × Succeeds kernel (made ++ c ∷ []) cs

abbrev pub calls_of : Outcome (Unit {0}) → List Call
calls_of (returned _ made) = made
calls_of (failed e made) = made

-- The helper becomes the script exactly if its arguments are valid, the name of the script has no NUL
-- and each of its calls is done, where clearing the ambient capabilities may also be refused as
-- unknown. The calls are then, in this order: into the document root, `chroot`, into the new root,
-- no_new_privs, no groups, no ambient capabilities, no capabilities, and the start of the script with
-- one argument and no environment.
pub exec_cgi_helper_iff :
    (kernel : Kernel) (root argv0 : Bytes) (fd : ℤ) (calls : List Call)
    → (exec_cgi_helper root argv0 fd kernel [] ≡ returned tt calls) ↔ (
        (validate_cgi_helper root argv0 fd ≡ none)
        × (contains argv0 (0 ∷ []) ≡ false)
        × Succeeds kernel [] (jail_calls root argv0 fd)
        × (calls ≡ jail_calls root argv0 fd))
unfolding exec_cgi_helper
exec_cgi_helper_iff kernel root argv0 fd calls = ground arith

abbrev pub all_but_last {ℓ} : {A : Type ℓ} → List A → List A
all_but_last [] = []
all_but_last (x ∷ []) = []
all_but_last (x ∷ y ∷ xs) = x ∷ all_but_last (y ∷ xs)

-- However the helper ends, the calls that it has made are a beginning of the sequence by which it
-- becomes the script, from the document root over `chroot` and the dropping of privileges to the start,
-- and each of them but the last was done, or was the clearing of unknown ambient capabilities.
pub exec_cgi_helper_prefix :
    (kernel : Kernel) (root argv0 : Bytes) (fd : ℤ)
    → (calls_of (exec_cgi_helper root argv0 fd kernel [])
        ≡ take
            (length (calls_of (exec_cgi_helper root argv0 fd kernel [])))
            (jail_calls root argv0 fd))
      × Succeeds kernel [] (all_but_last (calls_of (exec_cgi_helper root argv0 fd kernel [])))
unfolding exec_cgi_helper
exec_cgi_helper_prefix kernel root argv0 fd = (ground arith, ground arith)
