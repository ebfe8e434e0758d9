-- ===== src/Helper.antt =====
-- internal/server/cgi_helper_linux.go: the process that locks itself in and becomes the script. Its
-- system calls are values, and what the kernel answers to each of them is a parameter.
pub mod Order
use fingered.Base.{
  ℕ, ◌+◌, Bool, true, false, not, ◌&&◌, ◌||◌, List, [], ◌∷◌, ◌++◌, Option, none, some,
  if◌then◌else◌, ltb, Bytes, codes, eqb, drop,
}
use fingered.Base.Int.{ℤ, pos, ltb_ℤ}
use fingered.Text.{has_prefix, contains}
use fingered.FilePath.{is_abs}

-- `cgiCapHeader` and `cgiCapData`
pub record CapHeader : Type 0 where
  pub version : ℕ
  pub pid : ℤ

pub record CapData : Type 0 where
  pub effective : ℕ
  pub permitted : ℕ
  pub inheritable : ℕ

-- `cgiCapVersion3`
abbrev pub cap_version3 : ℕ
cap_version3 = 0x20080522

abbrev pub cap_header : CapHeader
cap_header = record { version = cap_version3; pid = pos 0 }

abbrev pub no_caps : CapData
no_caps = record { effective = 0; permitted = 0; inheritable = 0 }

-- The system calls, with the arguments that the helper varies
pub data Call : Type 0 where
  chdir chroot : Bytes → Call
  set_no_new_privs clear_ambient : Call
  set_groups : List ℕ → Call
  cap_set : CapHeader → List CapData → Call
  execveat : ℤ → List Bytes → List Bytes → Call

pub data Errno : Type 0 where
  einval : Errno
  other : ℕ → Errno

-- The answer to a call behind the calls made so far; `none` for success
abbrev pub Kernel : Type 0
Kernel = List Call → Call → Option Errno

pub data HelperError : Type 0 where
  root_not_absolute argv0_outside_jail fd_below_three : HelperError
  chdir_failed chroot_failed jail_chdir_failed : Errno → HelperError
  no_new_privs_failed groups_failed ambient_failed caps_failed : Errno → HelperError
  argv_failed exec_failed : Errno → HelperError

-- A step of the helper returns, or fails, with the calls made. A successful `execveat` is the last
-- call: it does not return to the helper.
pub data Outcome {ℓ} (A : Type ℓ) : Type ℓ where
  returned : A → List Call → Outcome A
  failed : HelperError → List Call → Outcome A

abbrev pub Step : Type 0
Step = Kernel → List Call → Outcome (Unit {0})

abbrev pub answered : (Errno → HelperError) → List Call → Option Errno → Outcome (Unit {0})
answered name made none = returned tt made
answered name made (some e) = failed (name e) made

-- One system call, and its error
unfoldable pub call : Call → (Errno → HelperError) → Step
call c name kernel made = answered name (made ++ c ∷ []) (kernel made c)

-- `if err := first; err != nil { return err }`, then the rest
abbrev pub continue : Outcome (Unit {0}) → (List Call → Outcome (Unit {0})) → Outcome (Unit {0})
continue (failed e made) rest = failed e made
continue (returned _ made) rest = rest made

infixr 5 ◌>>◌
abbrev pub ◌>>◌ : Step → Step → Step
(first >> rest) kernel made = continue (first kernel made) (rest kernel)

abbrev pub refuse : HelperError → Step
refuse e kernel made = failed e made

abbrev pub pass : Step
pass kernel made = returned tt made

-- `validateCGIHelper`
unfoldable pub validate_cgi_helper : Bytes → Bytes → ℤ → Option HelperError
validate_cgi_helper root argv0 fd =
    if eqb root [] || not (is_abs root)
    then some root_not_absolute
    else if eqb argv0 []
        || not (has_prefix argv0 (codes "/"))
        || contains (drop 1 argv0) (codes "/")
    then some argv0_outside_jail
    else if ltb_ℤ fd (pos 3)
    then some fd_below_three
    else none

abbrev pub checked : Option HelperError → Step
checked none = pass
checked (some e) = refuse e

-- EINVAL, from a kernel that has no ambient capabilities, is no error.
abbrev pub tolerated : List Call → Option Errno → Outcome (Unit {0})
tolerated made none = returned tt made
tolerated made (some einval) = returned tt made
tolerated made (some (other n)) = failed (ambient_failed (other n)) made

-- `cgiClearAmbientCaps`
unfoldable pub clear_ambient_caps : Step
clear_ambient_caps kernel made = tolerated (made ++ clear_ambient ∷ []) (kernel made clear_ambient)

-- `cgiSetNoNewPrivs`
abbrev pub start_no_new_privs : Step
start_no_new_privs = call set_no_new_privs no_new_privs_failed

-- `cgiClearSupplementaryGroups`
abbrev pub clear_supplementary_groups : Step
clear_supplementary_groups = call (set_groups []) groups_failed

-- `cgiDropCaps`
abbrev pub drop_caps : Step
drop_caps = call (cap_set cap_header (no_caps ∷ no_caps ∷ [])) caps_failed

-- `dropCGIPrivileges`
unfoldable pub drop_cgi_privileges : Step
unfolding clear_ambient_caps
drop_cgi_privileges =
    start_no_new_privs >> clear_supplementary_groups >> clear_ambient_caps >> drop_caps

abbrev pub cons_to : Bytes → Option (List Bytes) → Option (List Bytes)
cons_to value none = none
cons_to value (some values) = some (value ∷ values)

-- `stringPtrs`: `BytePtrFromString` refuses a text with a NUL.
unfoldable pub string_ptrs : List Bytes → Option (List Bytes)
string_ptrs [] = some []
string_ptrs (value ∷ values) =
    let rest = string_ptrs values in if contains value (0 ∷ []) then none else cons_to value rest

abbrev pub exec_with : ℤ → Option (List Bytes) → Option (List Bytes) → Step
exec_with fd none envv = refuse (argv_failed einval)
exec_with fd (some argv) none = refuse (argv_failed einval)
exec_with fd (some argv) (some envv) = call (execveat fd argv envv) exec_failed

-- `execveatFD`
unfoldable pub execveat_fd : ℤ → Bytes → Step
unfolding string_ptrs
execveat_fd fd argv0 = exec_with fd (string_ptrs (argv0 ∷ [])) (string_ptrs [])

-- `ExecCGIHelper`
unfoldable pub exec_cgi_helper : Bytes → Bytes → ℤ → Step
unfolding call drop_cgi_privileges execveat_fd
exec_cgi_helper root argv0 fd =
    checked (validate_cgi_helper root argv0 fd)
    >> call (chdir root) chdir_failed
    >> call (chroot (codes ".")) chroot_failed
    >> call (chdir (codes "/")) jail_chdir_failed
    >> drop_cgi_privileges
    >> execveat_fd fd argv0
