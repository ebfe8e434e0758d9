-- ===== src/Content/Files.antt =====
-- `openRegularReadNoFollow` and `openRegularExecNoFollow`. What the system calls answer is a
-- parameter; a file that is open for reading is the bytes that it holds and how reading them ends.
use fingered.Base.{
  ◌⊎◌, ◌≡◌, inl, inr, refl, ap, sym, ◌∙◌, ◌++◌, Bool, true, false, not, Option, if◌then◌else◌,
  Bytes, codes, arith,
}

-- The errors of the calls, as far as the code tells them apart
pub data Errno : Type 0 where
  not_exist loop : Errno
  other : Bytes → Errno

-- The type and the permission bits of `os.FileInfo`
pub data FileType : Type 0 where
  regular symlink irregular : FileType

pub record FileInfo : Type 0 where
  pub file_type : FileType
  pub executable : Bool

pub data Answer {ℓ} (A : Type ℓ) : Type ℓ where
  answer : A → Answer A
  failure : Errno → Answer A

-- The bytes that reading yields, and the error behind them unless the file just ends
pub record Stream : Type 0 where
  pub content : Bytes
  pub fault : Option Bytes

pub record OpenFile : Type 0 where
  pub stat : Answer FileInfo
  pub stream : Stream

-- The calls made with a path: `os.Lstat`, and `syscall.Open` with O_RDONLY and with O_PATH, both with
-- O_NOFOLLOW
pub record Calls : Type 0 where
  pub lstat : Bytes → Answer FileInfo
  pub open_read : Bytes → Answer OpenFile
  pub open_path : Bytes → Answer OpenFile

-- `(file, exists, err)`
pub data Opened : Type 0 where
  absent : Opened
  refused : Bytes → Opened
  file : OpenFile → Opened

abbrev pub is_regular : FileType → Bool
is_regular regular = true
is_regular _ = false

abbrev pub is_symlink : FileType → Bool
is_symlink symlink = true
is_symlink _ = false

abbrev pub message : Errno → Bytes
message not_exist = codes "no such file or directory"
message loop = codes "too many levels of symbolic links"
message (other text) = text

-- The text of a `PathError`, which the package os makes of the error of its call
abbrev pub path_error : Bytes → Bytes → Errno → Bytes
path_error op path e = op ++ codes " " ++ path ++ codes ": " ++ message e

-- `info, err = file.Stat()` and the check of the type
unfoldable pub check_regular : Bytes → OpenFile → Opened
check_regular path f = elim f.stat [
  | failure e ↦ refused (path_error (codes "stat") path e)
  | answer info ↦
      if not (is_regular info.file_type) then refused (codes "not a regular file") else file f
]

unfoldable pub open_read_only : Bytes → Answer OpenFile → Opened
unfolding check_regular
open_read_only path (failure not_exist) = absent
open_read_only path (failure loop) = refused (codes "symlinks are not allowed")
open_read_only path (failure (other text)) = refused text
open_read_only path (answer f) = check_regular path f

-- The checks of `os.Lstat` before the file is opened
unfoldable pub open_if_regular : Bytes → FileInfo → Answer OpenFile → Opened
unfolding open_read_only
open_if_regular path info opened =
    if is_symlink info.file_type
    then refused (codes "symlinks are not allowed")
    else if not (is_regular info.file_type)
    then refused (codes "not a regular file")
    else open_read_only path opened

unfoldable pub open_regular_read_no_follow : Calls → Bytes → Opened
unfolding open_if_regular
open_regular_read_no_follow calls path = elim (calls.lstat path) [
  | failure not_exist ↦ absent
  | failure loop ↦ refused (path_error (codes "lstat") path loop)
  | failure (other text) ↦ refused (path_error (codes "lstat") path (other text))
  | answer info ↦ open_if_regular path info (calls.open_read path)
]

-- The checks of `file.Stat` behind `syscall.Open`
unfoldable pub check_executable : Bytes → OpenFile → Opened
check_executable path f = elim f.stat [
  | failure e ↦ refused (path_error (codes "stat") path e)
  | answer info ↦
      if not (is_regular info.file_type)
      then refused (codes "not a regular file")
      else if not info.executable
      then refused (codes "execute bit is required")
      else file f
]

unfoldable pub open_regular_exec_no_follow : Calls → Bytes → Opened
unfolding check_executable
open_regular_exec_no_follow calls path = elim (calls.open_path path) [
  | failure not_exist ↦ absent
  | failure loop ↦ refused (message loop)
  | failure (other text) ↦ refused text
  | answer f ↦ check_executable path f
]

is_regular_type : (t : FileType) → is_regular t ≡ true → t ≡ regular
is_regular_type regular h = refl
is_regular_type symlink h = ground arith
is_regular_type irregular h = ground arith

Answer-cases {ℓ} :
    {A : Type ℓ} (x : Answer A) → ((a : A) × (x ≡ answer a)) ⊎ ((e : Errno) × (x ≡ failure e))
Answer-cases (answer a) = inl (a, refl)
Answer-cases (failure e) = inr (e, refl)

check_regular-file :
    (path : Bytes) (g f : OpenFile)
    → check_regular path g ≡ file f
    → (info : FileInfo) × (g ≡ f) × (g.stat ≡ answer info) × (info.file_type ≡ regular)
unfolding check_regular
check_regular-file path g f h = elim (Answer-cases g.stat) [
  | inl (info, e) ↦ (info, ground arith, e, is_regular_type info.file_type (ground arith))
  | inr (e, x) ↦ ground arith
]

open_if_regular-file :
    (path : Bytes) (named : FileInfo) (opened : Answer OpenFile) (f : OpenFile)
    → open_if_regular path named opened ≡ file f
    → (named.file_type ≡ regular)
      × (info : FileInfo) × (opened ≡ answer f)
      × (f.stat ≡ answer info)
      × (info.file_type ≡ regular)
unfolding open_if_regular
open_if_regular-file path named (answer g) f h =
    let checked : check_regular path g ≡ file f = ground arith in
    let (info, same, stat, kind) = check_regular-file path g f checked in
    (
      is_regular_type named.file_type (ground arith),
      info,
      ap answer same,
      ap (λ x. x.stat) (sym same) ∙ stat,
      kind,
    )
open_if_regular-file path named (failure not_exist) f h = ground arith
open_if_regular-file path named (failure loop) f h = ground arith
open_if_regular-file path named (failure (other text)) f h = ground arith

-- A file is used for reading only if the path itself names a regular file, and the file that the open
-- then yields is a regular file too, whatever changed in between.
pub open_read-regular :
    (calls : Calls) (path : Bytes) (f : OpenFile)
    → open_regular_read_no_follow calls path ≡ file f
    → (named : FileInfo) × (info : FileInfo) × (calls.lstat path ≡ answer named)
      × (named.file_type ≡ regular)
      × (calls.open_read path ≡ answer f)
      × (f.stat ≡ answer info)
      × (info.file_type ≡ regular)
unfolding open_regular_read_no_follow
open_read-regular calls path f h = elim (Answer-cases (calls.lstat path)) [
  | inl (named, l) ↦
      let opened : open_if_regular path named (calls.open_read path) ≡ file f = ground arith in
      let (kind, info, answered, stat, same) =
        open_if_regular-file path named (calls.open_read path) f opened in
      (named, info, l, kind, answered, stat, same)
  | inr (not_exist, l) ↦ ground arith
  | inr (loop, l) ↦ ground arith
  | inr (other text, l) ↦ ground arith
]
