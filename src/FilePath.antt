-- ===== src/FilePath.antt =====
-- Go's path/filepath on Unix, as far as the source uses it.
pub mod Component
pub mod Name
use fingered.Base.{
  ℕ, Bool, true, false, ◌||◌, List, [], ◌∷◌, ◌++◌, if◌then◌else◌, Bytes, codes, eqb, reverse, ◌==◌,
}
use fingered.Text.{has_prefix, split, join}

-- `IsAbs(path)`
unfoldable pub is_abs : Bytes → Bool
is_abs path = has_prefix path (codes "/")

-- `..` behind the elements so far, the last one first: it takes back an element, if there is one; a
-- rooted path has nothing above its root.
pub parent : Bool → List Bytes → List Bytes
parent true [] = []
parent false [] = codes ".." ∷ []
parent rooted (top ∷ rest) = if eqb top (codes "..") then codes ".." ∷ top ∷ rest else rest

-- One element of the path: an empty one and `.` are dropped.
pub resolve : Bool → List Bytes → Bytes → List Bytes
resolve rooted stack part =
    if eqb part [] || eqb part (codes ".")
    then stack
    else if eqb part (codes "..")
    then parent rooted stack
    else part ∷ stack

pub resolve_all : Bool → List Bytes → List Bytes → List Bytes
resolve_all rooted stack [] = stack
resolve_all rooted stack (part ∷ parts) = resolve_all rooted (resolve rooted stack part) parts

pub spell : Bool → List Bytes → Bytes
spell true parts = codes "/" ++ join parts (codes "/")
spell false [] = codes "."
spell false (part ∷ parts) = join (part ∷ parts) (codes "/")

-- `Clean(path)`
unfoldable pub clean : Bytes → Bytes
unfolding spell resolve_all resolve parent
clean path = spell (is_abs path) (reverse (resolve_all (is_abs path) [] (split path b'/')))

-- `Join(a, b)`
unfoldable pub join_path : Bytes → Bytes → Bytes
join_path [] [] = []
join_path [] (c ∷ b) = clean (c ∷ b)
join_path (c ∷ a) b = clean ((c ∷ a) ++ (codes "/" ++ b))

abbrev pub slash : ℕ
slash = b'/'

-- Without the slashes in front
pub skip_slashes : Bytes → Bytes
skip_slashes [] = []
skip_slashes (c ∷ s) = let rest = skip_slashes s in if c == slash then rest else c ∷ s

-- Up to the first slash
pub until_slash : Bytes → Bytes
until_slash [] = []
until_slash (c ∷ s) = if c == slash then [] else c ∷ until_slash s

abbrev pub slash_if_empty : Bytes → Bytes
slash_if_empty [] = codes "/"
slash_if_empty (c ∷ s) = c ∷ s

-- `Base(path)`: the slashes at the end go, then all up to the last slash.
unfoldable pub base : Bytes → Bytes
unfolding skip_slashes until_slash
base [] = codes "."
base (c ∷ path) = slash_if_empty (reverse (until_slash (skip_slashes (reverse (c ∷ path)))))
