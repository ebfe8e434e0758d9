-- ===== src/Tests/Helpers.antt =====
-- The helper on a kernel without ambient capabilities, and the paths of a request.
use fingered.Base.{
  ◌≡◌, ◌↔◌, refl, inl, inr, true, false, List, [], ◌∷◌, Option, none, some, Bytes, codes, length,
  take,
}
use fingered.Base.Int.{pos}
use fingered.Text.{contains}
use fingered.Token.{finger, first_is}
use fingered.Request.{Request, parse_request}
use fingered.FilePath.{is_abs, join_path}
use fingered.FilePath.Component.{IsInside}
use fingered.Config.{default_config}
use fingered.Content.Files.{OpenFile, FileInfo, regular, answer}
use fingered.Content.Resolve.{build_content_name, command_of}
use fingered.Content.Confined.{content_path-IsInside}
use fingered.Content.Started.{exec_cgi_helper-command_of}
use fingered.Helper.{
  Kernel, Call, chdir, chroot, set_no_new_privs, clear_ambient, set_groups, cap_set, execveat,
  Errno, einval, other, validate_cgi_helper, exec_cgi_helper, returned, failed, groups_failed,
  fd_below_three, argv0_outside_jail,
}
use fingered.Helper.Order.{
  Succeeds, jail_calls, calls_of, all_but_last, exec_cgi_helper_iff, exec_cgi_helper_prefix,
}
use fingered.Tests.{requests, servers}

abbrev old_answer : Call → Option Errno
old_answer clear_ambient = some einval
old_answer (chdir path) = none
old_answer (chroot path) = none
old_answer set_no_new_privs = none
old_answer (set_groups groups) = none
old_answer (cap_set header caps) = none
old_answer (execveat fd argv envv) = none

abbrev pub old_kernel : Kernel
old_kernel made c = old_answer c

-- One that refuses `setgroups`
abbrev strict_answer : Call → Option Errno
strict_answer (set_groups groups) = some (other 1)
strict_answer clear_ambient = none
strict_answer (chdir path) = none
strict_answer (chroot path) = none
strict_answer set_no_new_privs = none
strict_answer (cap_set header caps) = none
strict_answer (execveat fd argv envv) = none

abbrev strict_kernel : Kernel
strict_kernel made c = strict_answer c

abbrev pub root : Bytes
root = codes "/www"

abbrev bob_calls : List Call
bob_calls = jail_calls root (codes "/bob.cgi") (pos 3)

helper_run :
    (exec_cgi_helper root (codes "/bob.cgi") (pos 3) old_kernel [] ≡ returned tt bob_calls)
    × (exec_cgi_helper root (codes "/bob.cgi") (pos 3) strict_kernel []
        ≡ failed (groups_failed (other 1)) (take 5 bob_calls))
    × (exec_cgi_helper root (codes "/a/b") (pos 3) old_kernel [] ≡ failed argv0_outside_jail [])
    × (exec_cgi_helper root (codes "/bob.cgi") (pos 2) old_kernel [] ≡ failed fd_below_three [])
unfolding servers
helper_run = (refl, refl, refl, refl)

exec_cgi_helper_iff_example :
    (exec_cgi_helper root (codes "/bob.cgi") (pos 3) old_kernel [] ≡ returned tt bob_calls) ↔ (
      (validate_cgi_helper root (codes "/bob.cgi") (pos 3) ≡ none)
      × (contains (codes "/bob.cgi") (0 ∷ []) ≡ false)
      × Succeeds old_kernel [] bob_calls
      × (bob_calls ≡ bob_calls))
exec_cgi_helper_iff_example =
    exec_cgi_helper_iff old_kernel root (codes "/bob.cgi") (pos 3) bob_calls

exec_cgi_helper_prefix_example :
    (calls_of (exec_cgi_helper root (codes "/bob.cgi") (pos 3) strict_kernel [])
      ≡ take
          (length (calls_of (exec_cgi_helper root (codes "/bob.cgi") (pos 3) strict_kernel [])))
          bob_calls)
    × Succeeds strict_kernel []
        (all_but_last (calls_of (exec_cgi_helper root (codes "/bob.cgi") (pos 3) strict_kernel [])))
exec_cgi_helper_prefix_example =
    exec_cgi_helper_prefix strict_kernel root (codes "/bob.cgi") (pos 3)

abbrev pub bob : Request
bob = record { raw = codes "bob"; canonical = codes "bob"; target = codes "bob"; flags = [] }

pub bob_accepted : parse_request (codes "bob\r\n") finger false ≡ some bob
unfolding requests
bob_accepted = refl

pub root_absolute : is_abs root ≡ true
unfolding servers
root_absolute = refl

content_path-IsInside_example :
    IsInside root
      (build_content_name (codes "bob") (codes ".cgi"))
      (join_path root (build_content_name (codes "bob") (codes ".cgi")))
    × (first_is b'.' (build_content_name (codes "bob") (codes ".cgi")) ≡ false)
content_path-IsInside_example =
    content_path-IsInside (codes "bob\r\n") finger false bob root (codes ".cgi") bob_accepted
      root_absolute (inr refl)

abbrev script_info : FileInfo
script_info = record { file_type = regular; executable = true }

abbrev pub script_file : OpenFile
script_file = record { stat = answer script_info; stream = record { content = []; fault = none } }

exec_cgi_helper-command_of_example :
    exec_cgi_helper root
      (command_of default_config root (codes ".header.cgi") bob script_file).argv0
      (pos 3)
      old_kernel
      []
    ≡ returned tt (
        jail_calls root
          (command_of default_config root (codes ".header.cgi") bob script_file).argv0
          (pos 3))
exec_cgi_helper-command_of_example =
    exec_cgi_helper-command_of (codes "bob\r\n") finger false bob default_config root
      (codes ".header.cgi") script_file old_kernel bob_accepted root_absolute (inr (inl refl))
      (refl, (refl, (refl, (refl, (refl, (inr refl, (refl, (refl, tt))))))))
