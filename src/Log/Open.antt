-- ===== src/Log/Open.antt =====
-- `openLog`, `OpenLogger` and `Close`, over the part of the process that they change: the umask and
-- the files that are open. What the system calls answer is a parameter.
use fingered.Base.{
  Bool, not, List, [], ◌∷◌, Option, none, some, if◌then◌else◌, Bytes, codes, eqb, Result, ok, err,
}
use fingered.Base.Int.{ℤ}
use fingered.FilePath.{join_path}
use fingered.Config.{Config}
use fingered.Content.Files.{Answer, answer, failure, FileInfo, is_regular, message, path_error}

-- An open file goes by its path.
pub record Process : Type 0 where
  pub umask : ℤ
  pub opened : List Bytes

-- `syscall.Open` with O_CREAT, O_APPEND, O_WRONLY and O_NOFOLLOW under a umask, which yields the
-- answer of `f.Stat`, and `f.Close`, with `none` for no error
pub record LogCalls : Type 0 where
  pub open_append : ℤ → Bytes → Answer (Answer FileInfo)
  pub close_error : Bytes → Option Bytes

abbrev pub remove : Bytes → List Bytes → List Bytes
remove path [] = []
remove path (q ∷ qs) = let rest = remove path qs in if eqb path q then qs else q ∷ rest

unfoldable pub close_file : Bytes → Process → Process
close_file path p = record p { opened = remove path p.opened }

-- `f.Stat` and the check of the type, with the file open
abbrev pub check_log : Bytes → Process → Answer FileInfo → Result Bytes × Process
check_log path p (failure e) = (err (path_error (codes "stat") path e), close_file path p)
check_log path p (answer info) =
    if not (is_regular info.file_type)
    then (err (codes "log target is not a regular file"), close_file path p)
    else (ok path, p)

abbrev pub opened_log : Bytes → Process → Answer (Answer FileInfo) → Result Bytes × Process
opened_log path p (failure e) = (err (message e), p)
opened_log path p (answer stat) = check_log path (record p { opened = path ∷ p.opened }) stat

-- The umask is set for the call and set back however it ends.
unfoldable pub open_log : LogCalls → Bytes → ℤ → Process → Result Bytes × Process
open_log calls path umask p =
    let (f, after) = opened_log path (record p { umask = umask }) (calls.open_append umask path) in
    (f, record after { umask = p.umask })

-- The two files of `Logger`
pub record LogFiles : Type 0 where
  pub errors_file : Option Bytes
  pub access_file : Option Bytes

-- `_ = l.errorsFile.Close()`, if it is open
abbrev pub close_if_open : Option Bytes → Process → Process
close_if_open none p = p
close_if_open (some path) p = close_file path p

abbrev pub some_file : Result Bytes × Process → Result (Option Bytes) × Process
some_file (err e, p) = (err e, p)
some_file (ok f, p) = (ok (some f), p)

-- `openLog`, if that log is on
unfoldable pub open_if_on : LogCalls → Bool → Bytes → ℤ → Process → Result (Option Bytes) × Process
open_if_on calls on path umask p =
    if on then some_file (open_log calls path umask p) else (ok none, p)

abbrev pub open_access : Option Bytes → Result (Option Bytes) × Process → Result LogFiles × Process
open_access errors (err e, p) = (err e, close_if_open errors p)
open_access errors (ok access, p) = (ok (record { errors_file = errors; access_file = access }), p)

abbrev pub open_both :
    LogCalls → Config → Result (Option Bytes) × Process → Result LogFiles × Process
open_both calls c (err e, p) = (err e, p)
open_both calls c (ok errors, p) =
    open_access errors
      (open_if_on calls c.log_requests (join_path c.log_root (codes "access.log")) c.log_umask p)

-- `OpenLogger`, its files
unfoldable pub open_logger : LogCalls → Config → Process → Result LogFiles × Process
unfolding open_if_on
open_logger calls c p =
    open_both calls c
      (open_if_on calls c.log_errors (join_path c.log_root (codes "error.log")) c.log_umask p)

abbrev pub first_error : Option Bytes → Option Bytes → Option Bytes
first_error (some e) later = some e
first_error none later = later

abbrev pub error_of_close : LogCalls → Option Bytes → Option Bytes
error_of_close calls none = none
error_of_close calls (some path) = calls.close_error path

-- `Close`: both files are closed, and the first error is returned.
unfoldable pub close_logger : LogCalls → LogFiles → Process → Option Bytes × Process
close_logger calls l p = (
  first_error (error_of_close calls l.errors_file) (error_of_close calls l.access_file),
  close_if_open l.access_file (close_if_open l.errors_file p),
)
