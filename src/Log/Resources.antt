-- ===== src/Log/Resources.antt =====
-- The logger gives back what it takes: a failed start leaves the process as it was, and after `Close`
-- no file of the logger is open.
use fingered.Base.{
  ◌≡◌, refl, subst, ap, ◌∙◌, inl, inr, Bool, true, false, List, ◌∷◌, Option, none, some,
  if◌then◌else◌, Bytes, codes, eqb, eqb_refl, eqb_iff, Result, ok, err, Bool-cases,
}
use fingered.Base.Int.{ℤ}
use fingered.FilePath.{join_path}
use fingered.Config.{Config}
use fingered.Content.Files.{Answer, answer, failure, FileInfo, is_regular}
use fingered.Log.Open.{
  Process, LogCalls, remove, close_file, some_file, check_log, opened_log, open_log, LogFiles,
  close_if_open, open_if_on, open_access, open_both, open_logger, close_logger,
}

-- The files that are open besides those of before
abbrev with_open : Option Bytes → Process → Process
with_open none p = p
with_open (some path) p = record p { opened = path ∷ p.opened }

remove_head : (path : Bytes) (qs : List Bytes) → remove path (path ∷ qs) ≡ qs
remove_head path qs = rw (eqb_refl path) refl

remove_second : (e a : Bytes) (qs : List Bytes) → remove e (a ∷ e ∷ qs) ≡ a ∷ qs
remove_second e a qs = elim (Bool-cases (eqb e a)) [
  | inl same ↦ rw same (ap (λ (s : Bytes). s ∷ qs) ((eqb_iff e a).0 same))
  | inr other ↦ rw other (ap (◌∷◌ a) (remove_head e qs))
]

close-with_open : (f : Option Bytes) (p : Process) → close_if_open f (with_open f p) ≡ p
close-with_open none p = refl
close-with_open (some path) p = unfold close_file in rw (remove_head path p.opened) refl

-- What a call that opens a log does to the process: nothing if it fails, and else it opens the file.
abbrev Kept : Process → Result (Option Bytes) × Process → Type 0
Kept p (err e, after) = after ≡ p
Kept p (ok f, after) = after ≡ with_open f p

check_log-Kept :
    (path : Bytes) (p : Process) (stat : Answer FileInfo)
    → Kept p (some_file (check_log path (with_open (some path) p) stat))
check_log-Kept path p (failure e) = close-with_open (some path) p
check_log-Kept path p (answer info) = elim (Bool-cases (is_regular info.file_type)) [
  | inl e ↦ rw e refl
  | inr e ↦ rw e (close-with_open (some path) p)
]

opened_log-Kept :
    (path : Bytes) (p : Process) (o : Answer (Answer FileInfo))
    → Kept p (some_file (opened_log path p o))
opened_log-Kept path p (failure e) = refl
opened_log-Kept path p (answer stat) = check_log-Kept path p stat

restored-Kept :
    (p : Process) (umask : ℤ) (f : Result Bytes) (after : Process)
    → Kept (record p { umask = umask }) (some_file (f, after))
    → Kept p (some_file (f, record after { umask = p.umask }))
restored-Kept p umask (ok f) after h = ap (λ (q : Process). record q { umask = p.umask }) h
restored-Kept p umask (err e) after h = ap (λ (q : Process). record q { umask = p.umask }) h

open_log-Kept :
    (calls : LogCalls) (path : Bytes) (umask : ℤ) (p : Process)
    → Kept p (some_file (open_log calls path umask p))
unfolding open_log
open_log-Kept calls path umask p =
    let set = record p { umask = umask } in
    let (f, after) = opened_log path set (calls.open_append umask path) in
    restored-Kept p umask f after (opened_log-Kept path set (calls.open_append umask path))

open_if_on-Kept :
    (calls : LogCalls) (on : Bool) (path : Bytes) (umask : ℤ) (p : Process)
    → Kept p (open_if_on calls on path umask p)
unfolding open_if_on
open_if_on-Kept calls true path umask p = open_log-Kept calls path umask p
open_if_on-Kept calls false path umask p = refl

-- Which file a successful call opens
abbrev Opens : Option Bytes → Result (Option Bytes) × Process → Type 0
Opens file (err e, after) = Unit
Opens file (ok f, after) = f ≡ file

abbrev wanted : Bool → Bytes → Option Bytes
wanted on path = if on then some path else none

opened_log-Opens :
    (path : Bytes) (p : Process) (o : Answer (Answer FileInfo)) (umask : ℤ)
    → Opens
        (some path)
        (some_file ((opened_log path p o).0, record (opened_log path p o).1 { umask = umask }))
opened_log-Opens path p (failure e) umask = tt
opened_log-Opens path p (answer (failure e)) umask = tt
opened_log-Opens path p (answer (answer info)) umask =
    elim (Bool-cases (is_regular info.file_type)) [ inl e ↦ rw e refl | inr e ↦ rw e tt ]

open_if_on-Opens :
    (calls : LogCalls) (on : Bool) (path : Bytes) (umask : ℤ) (p : Process)
    → Opens (wanted on path) (open_if_on calls on path umask p)
unfolding open_if_on open_log
open_if_on-Opens calls true path umask p =
    opened_log-Opens path (record p { umask = umask }) (calls.open_append umask path) p.umask
open_if_on-Opens calls false path umask p = refl

-- The files that the configuration asks for
abbrev pub files_of : Config → LogFiles
files_of c = record {
  errors_file = wanted c.log_errors (join_path c.log_root (codes "error.log"));
  access_file = wanted c.log_requests (join_path c.log_root (codes "access.log"));
}

-- A process with the files of a logger open
abbrev pub with_files : LogFiles → Process → Process
with_files l p = with_open l.access_file (with_open l.errors_file p)

-- A start that fails leaves the process as it was; one that succeeds has opened the files of the
-- configuration, and closing them leaves the process as it was.
abbrev pub IsStart : LogCalls → Config → Process → Result LogFiles × Process → Type 0
IsStart calls c p (err e, after) = after ≡ p
IsStart calls c p (ok l, after) =
    (l ≡ files_of c) × (after ≡ with_files l p) × ((close_logger calls l after).1 ≡ p)

close_both :
    (calls : LogCalls) (errors access : Option Bytes) (p : Process)
    → (close_logger calls
        (record { errors_file = errors; access_file = access })
        (with_open access (with_open errors p))).1
      ≡ p
unfolding close_logger
close_both calls none access p = close-with_open access p
close_both calls (some e) none p = close-with_open (some e) p
close_both calls (some e) (some a) p =
    unfold close_file in rw (remove_second e a p.opened) (rw (remove_head a p.opened) refl)

IsStart-access :
    (calls : LogCalls) (c : Config) (p : Process) (errors : Option Bytes)
    (r : Result (Option Bytes) × Process)
    → errors ≡ (files_of c).errors_file
    → Kept (with_open errors p) r
    → Opens (files_of c).access_file r
    → IsStart calls c p (open_access errors r)
IsStart-access calls c p errors (err e, after) same k o =
    ap (close_if_open errors) k ∙ close-with_open errors p
IsStart-access calls c p errors (ok access, after) same k o =
    (rw same (rw o refl), k, rw k (close_both calls errors access p))

IsStart-errors :
    (calls : LogCalls) (c : Config) (p : Process) (r : Result (Option Bytes) × Process)
    → Kept p r
    → Opens (files_of c).errors_file r
    → IsStart calls c p (open_both calls c r)
IsStart-errors calls c p (err e, after) k o = k
IsStart-errors calls c p (ok errors, after) k o =
    let path = join_path c.log_root (codes "access.log") in
    IsStart-access calls c p errors (open_if_on calls c.log_requests path c.log_umask after) o
      (subst (λ q. Kept q (open_if_on calls c.log_requests path c.log_umask after)) k
        (open_if_on-Kept calls c.log_requests path c.log_umask after))
      (open_if_on-Opens calls c.log_requests path c.log_umask after)

-- Whatever the system calls answer, OpenLogger either fails with the umask and the open files as they
-- were, or it has opened the files that the configuration asks for, and Close brings the umask and the
-- open files back to what they were.
pub open_logger-IsStart :
    (calls : LogCalls) (c : Config) (p : Process) → IsStart calls c p (open_logger calls c p)
unfolding open_logger
open_logger-IsStart calls c p =
    let path = join_path c.log_root (codes "error.log") in
    IsStart-errors calls c p (open_if_on calls c.log_errors path c.log_umask p)
      (open_if_on-Kept calls c.log_errors path c.log_umask p)
      (open_if_on-Opens calls c.log_errors path c.log_umask p)
