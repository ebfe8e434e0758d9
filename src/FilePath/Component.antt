-- ===== src/FilePath/Component.antt =====
-- A clean rooted path is its elements, each behind a slash; `Join` with one name adds one element.
use fingered.Base.{
  sym, append_assoc, ◌≡◌, ◌≢◌, refl, ap, ◌∙◌, inl, inr, Bool, true, ◌||◌, List, [], ◌∷◌, ◌++◌,
  Bytes, codes, eqb, eqb_iff, reverse, Bool-cases, All, All-reverse, Lacks, arith,
}
use mathlib.Core.List.{reverse-cons}
use fingered.Text.{has_prefix, split, join}
use fingered.Text.Pieces.{split-Lacks, split-join, split_twice}
use fingered.FilePath.{is_abs, parent, resolve, resolve_all, spell, clean, join_path}

-- A name that stands for one entry of a directory
pub record IsComponent (name : Bytes) : Type 0 where
  pub not_empty : name ≢ []
  pub not_dot : name ≢ codes "."
  pub not_dots : name ≢ codes ".."
  pub one : Lacks b'/' name

-- The path of those elements
abbrev pub rooted : List Bytes → Bytes
rooted parts = codes "/" ++ join parts (codes "/")

parent-IsComponent :
    (stack : List Bytes) → All IsComponent stack → All IsComponent (parent true stack)
unfolding parent
parent-IsComponent [] h = tt
parent-IsComponent (top ∷ rest) (h, hs) = elim (Bool-cases (eqb top (codes ".."))) [
  | inl e ↦ absurd (h.not_dots ((eqb_iff top (codes "..")).0 e))
  | inr e ↦ rw e hs
]

resolve-IsComponent :
    (stack : List Bytes) (part : Bytes)
    → Lacks b'/' part
    → All IsComponent stack
    → All IsComponent (resolve true stack part)
unfolding resolve
resolve-IsComponent stack part l h = elim (Bool-cases (eqb part [] || eqb part (codes "."))) [
  | inl e ↦ rw e h
  | inr e ↦ elim (Bool-cases (eqb part (codes ".."))) [
    | inl f ↦ rw e (rw f (parent-IsComponent stack h))
    | inr f ↦ rw e (
        rw f (
          record {
            not_empty = ground (arith, eqb_iff part []);
            not_dot = ground (arith, eqb_iff part (codes "."));
            not_dots = ground (arith, eqb_iff part (codes ".."));
            one = l;
          },
          h,
        ))
  ]
]

resolve_all-IsComponent :
    (stack parts : List Bytes)
    → All (Lacks b'/') parts
    → All IsComponent stack
    → All IsComponent (resolve_all true stack parts)
unfolding resolve_all
resolve_all-IsComponent stack [] l h = h
resolve_all-IsComponent stack (part ∷ parts) (l, ls) h =
    resolve_all-IsComponent (resolve true stack part) parts ls (resolve-IsComponent stack part l h)

resolve_component :
    (stack : List Bytes) (name : Bytes) → IsComponent name → resolve true stack name ≡ name ∷ stack
unfolding resolve
resolve_component stack name h = ground (
  arith,
  eqb_iff name [],
  eqb_iff name (codes "."),
  eqb_iff name (codes ".."),
  h.not_empty,
  h.not_dot,
  h.not_dots,
)

resolve_all-append :
    (r : Bool) (stack xs ys : List Bytes)
    → resolve_all r stack (xs ++ ys) ≡ resolve_all r (resolve_all r stack xs) ys
unfolding resolve_all
resolve_all-append r stack [] ys = refl
resolve_all-append r stack (x ∷ xs) ys = resolve_all-append r (resolve r stack x) xs ys

-- The elements of a path, the last one first
abbrev stack_of : Bytes → List Bytes
stack_of path = resolve_all true [] (split path b'/')

clean-rooted : (path : Bytes) → is_abs path ≡ true → clean path ≡ rooted (reverse (stack_of path))
unfolding clean spell
clean-rooted path h = rw h refl

stack_of_component : (name : Bytes) → IsComponent name → split name b'/' ≡ name ∷ []
stack_of_component name h = unfold join in split-join name [] b'/' (h.one, tt)

stack_of_join :
    (root name : Bytes) → IsComponent name → stack_of (root ++ b'/' ∷ name) ≡ name ∷ stack_of root
stack_of_join root name h = rw (split_twice root name b'/') (
    rw (stack_of_component name h) (
      resolve_all-append true [] (split root b'/') (name ∷ [])
      ∙ (unfold resolve_all in resolve_component (stack_of root) name h)))

is_abs-append : (root s : Bytes) → is_abs root ≡ true → is_abs (root ++ s) ≡ true
unfolding is_abs has_prefix
is_abs-append [] s h = ground arith
is_abs-append (c ∷ root) s h = ground arith

join_path-rooted :
    (root name : Bytes)
    → is_abs root ≡ true
    → IsComponent name
    → join_path root name ≡ rooted (reverse (stack_of root) ++ name ∷ [])
unfolding join_path
join_path-rooted [] name a h = unfold is_abs has_prefix in ground arith
join_path-rooted (c ∷ root) name a h =
    clean-rooted ((c ∷ root) ++ b'/' ∷ name) (is_abs-append (c ∷ root) (b'/' ∷ name) a)
    ∙ ap (λ (p : List Bytes). rooted (reverse p)) (stack_of_join (c ∷ root) name h)
    ∙ ap rooted (reverse-cons name (stack_of (c ∷ root)))

-- Where a path is the directory's elements and one more, the name, which is one element too
pub record IsInside (root name path : Bytes) : Type 0 where
  pub component : IsComponent name
  pub dirs : List Bytes
  pub components : All IsComponent dirs
  pub directory : clean root ≡ rooted dirs
  pub entry : path ≡ rooted (dirs ++ name ∷ [])

pub join_path-IsInside :
    (root name : Bytes)
    → is_abs root ≡ true
    → IsComponent name
    → IsInside root name (join_path root name)
join_path-IsInside root name a h = record {
  component = h;
  dirs = reverse (stack_of root);
  components =
      All-reverse IsComponent (stack_of root)
        (resolve_all-IsComponent [] (split root b'/') (split-Lacks root b'/') tt);
  directory = clean-rooted root a;
  entry = join_path-rooted root name a h;
}

join_last :
    (dir : Bytes) (dirs : List Bytes) (name : Bytes)
    → join (dir ∷ dirs ++ name ∷ []) (codes "/") ≡ join (dir ∷ dirs) (codes "/") ++ b'/' ∷ name
unfolding join
join_last dir [] name = refl
join_last dir (next ∷ dirs) name =
    ap (λ (s : Bytes). dir ++ (codes "/" ++ s)) (join_last next dirs name)
    ∙ sym (append_assoc dir (b'/' ∷ join (next ∷ dirs) (codes "/")) (b'/' ∷ name))

-- The path of an entry of a directory that is not the root: the directory, a slash, and the name
pub IsInside-entry :
    (root name path : Bytes)
    → clean root ≢ codes "/"
    → IsInside root name path
    → path ≡ clean root ++ b'/' ∷ name
unfolding join
IsInside-entry root name path ne h = by_dirs h.dirs h.directory h.entry
  where
    by_dirs :
        (dirs : List Bytes)
        → clean root ≡ rooted dirs
        → path ≡ rooted (dirs ++ name ∷ [])
        → path ≡ clean root ++ b'/' ∷ name
    by_dirs [] d e = absurd (ne d)
    by_dirs (dir ∷ dirs) d e = rw d (e ∙ ap (λ (s : Bytes). b'/' ∷ s) (join_last dir dirs name))
