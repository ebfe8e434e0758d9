-- ===== src/Base/Lists.antt =====
-- Lists measured by native numbers, predicates on all items, and byte strings.
use Prim.Native.Nat.{ℕ, zero, suc, ◌+◌, min}
use Prim.Native.Char.{code}
use Prim.Native.String.{String}
use mathlib.Core.Path.{◌≡◌, refl, ap}
use mathlib.Core.Logic.{◌≢◌, ◌↔◌}
use mathlib.Core.List.{List, [], ◌∷◌, ◌++◌, reverse, reverse-cons, map}
use mathlib.Core.Bool.{Bool, true, false, ◌&&◌}
use native.Mathlib.Omega.{arith}
use fingered.Base.Tests.{◌==◌}

abbrev pub Bytes : Type 0
Bytes = List ℕ

-- The code points of a literal; these are its bytes, since every literal here is ASCII.
abbrev pub codes : String → Bytes
codes String.[] = []
codes (String.◌∷◌ c s) = code c ∷ codes s

module _ {ℓ} {A : Type ℓ} where
  abbrev pub length : List A → ℕ
  length [] = 0
  length (x ∷ xs) = suc (length xs)

  abbrev pub take : ℕ → List A → List A
  take zero xs = []
  take (suc n) [] = []
  take (suc n) (x ∷ xs) = x ∷ take n xs

  abbrev pub drop : ℕ → List A → List A
  drop zero xs = xs
  drop (suc n) [] = []
  drop (suc n) (x ∷ xs) = drop n xs

  -- `for _, x := range xs { if !test(x) { return false } }; return true`
  abbrev pub all : (A → Bool) → List A → Bool
  all test [] = true
  all test (x ∷ xs) = test x && all test xs

  pub length-append : (xs ys : List A) → length (xs ++ ys) ≡ length xs + length ys
  length-append [] ys = omega arith
  length-append (x ∷ xs) ys = omega (arith, length-append xs ys)

  pub take-append-drop : (n : ℕ) (xs : List A) → take n xs ++ drop n xs ≡ xs
  take-append-drop zero xs = refl
  take-append-drop (suc n) [] = refl
  take-append-drop (suc n) (x ∷ xs) = ap (◌∷◌ x) (take-append-drop n xs)

  pub length-take : (n : ℕ) (xs : List A) → length (take n xs) ≡ min n (length xs)
  length-take zero xs = omega arith
  length-take (suc n) [] = omega arith
  length-take (suc n) (x ∷ xs) = omega (arith, length-take n xs)

module _ {ℓ κ} {A : Type ℓ} (P : A → Type κ) where
  abbrev pub All : List A → Type κ
  All [] = Unit
  All (x ∷ xs) = P x × All xs

  pub All-append : (xs ys : List A) → All xs → All ys → All (xs ++ ys)
  All-append [] ys _ hy = hy
  All-append (x ∷ xs) ys (px, hx) hy = (px, All-append xs ys hx hy)

  pub All-reverse : (xs : List A) → All xs → All (reverse xs)
  All-reverse [] h = h
  All-reverse (x ∷ xs) (px, h) =
      rw reverse-cons (All-append (reverse xs) (x ∷ []) (All-reverse xs h) (px, tt))

  pub All_left : (xs ys : List A) → All (xs ++ ys) → All xs
  All_left [] ys _ = tt
  All_left (x ∷ xs) ys (px, h) = (px, All_left xs ys h)

pub all-append {ℓ} :
    {A : Type ℓ} (test : A → Bool) (xs ys : List A)
    → all test (xs ++ ys) ≡ (all test xs && all test ys)
all-append test [] ys = refl
all-append test (x ∷ xs) ys = ground (arith, all-append test xs ys)

-- The items that a Boolean test accepts have every property that the test implies.
pub All-of_all {ℓ κ} :
    {A : Type ℓ} (P : A → Type κ) (test : A → Bool)
    → ((x : A) → test x ≡ true → P x)
    → (xs : List A) → all test xs ≡ true
    → All P xs
All-of_all P test h [] e = tt
All-of_all P test h (x ∷ xs) e = (h x (ground arith), All-of_all P test h xs (ground arith))

pub all-of_All {ℓ κ} :
    {A : Type ℓ} (P : A → Type κ) (test : A → Bool)
    → ((x : A) → P x → test x ≡ true)
    → (xs : List A) → All P xs
    → all test xs ≡ true
all-of_All P test h [] e = refl
all-of_All P test h (x ∷ xs) (px, pxs) = ground (arith, h x px, all-of_All P test h xs pxs)

pub All-map {ℓ κ} :
    {A : Type ℓ} (P Q : A → Type κ) → ((x : A) → P x → Q x) → (xs : List A) → All P xs → All Q xs
All-map P Q h [] _ = tt
All-map P Q h (x ∷ xs) (px, pxs) = (h x px, All-map P Q h xs pxs)

pub All-both {ℓ κ} :
    {A : Type ℓ} (P Q R : A → Type κ)
    → ((x : A) → P x → Q x → R x)
    → (xs : List A) → All P xs
    → All Q xs
    → All R xs
All-both P Q R h [] _ _ = tt
All-both P Q R h (x ∷ xs) (px, pxs) (qx, qxs) = (h x px qx, All-both P Q R h xs pxs qxs)

-- One item of a list, and the list with another item in its place
pub All_middle {ℓ κ} :
    {A : Type ℓ} (P : A → Type κ) (before after : List A) (x : A)
    → All P (before ++ x ∷ after)
    → P x × ((y : A) → P y → All P (before ++ y ∷ after))
All_middle P [] after x (px, h) = (px, λ y py. (py, h))
All_middle P (b ∷ before) after x (pb, h) =
    let (px, put) = All_middle P before after x h in (px, λ y py. (pb, put y py))

pub length_middle {ℓ} :
    {A : Type ℓ} (before after : List A) (x y : A)
    → length (before ++ x ∷ after) ≡ length (before ++ y ∷ after)
length_middle [] after x y = refl
length_middle (b ∷ before) after x y = ap suc (length_middle before after x y)

pub map_middle {ℓ κ} :
    {A : Type ℓ} {B : Type κ} (f : A → B) (before after : List A) (x : A)
    → map f (before ++ x ∷ after) ≡ map f before ++ f x ∷ map f after
map_middle f [] after x = refl
map_middle f (b ∷ before) after x = ap (◌∷◌ (f b)) (map_middle f before after x)

pub length-map {ℓ κ} :
    {A : Type ℓ} {B : Type κ} (f : A → B) (xs : List A) → length (map f xs) ≡ length xs
length-map f [] = refl
length-map f (x ∷ xs) = ap suc (length-map f xs)

-- s == t on strings
unfoldable pub eqb : Bytes → Bytes → Bool
eqb [] [] = true
eqb (x ∷ xs) (y ∷ ys) = x == y && eqb xs ys
eqb _ _ = false

pub eqb_iff : (s t : Bytes) → (eqb s t ≡ true) ↔ (s ≡ t)
unfolding eqb
eqb_iff [] [] = ground arith
eqb_iff (x ∷ s) (y ∷ t) = ground (arith, eqb_iff s t)
eqb_iff _ _ = ground arith

pub eqb_refl : (s : Bytes) → eqb s s ≡ true
eqb_refl s = (eqb_iff s s).1 refl

pub eqb-nil : (s : Bytes) → eqb s [] ≡ true → s ≡ []
eqb-nil s h = (eqb_iff s []).0 h

abbrev pub replicate {ℓ} : {A : Type ℓ} → ℕ → A → List A
replicate zero a = []
replicate (suc n) a = a ∷ replicate n a

-- A loop that appends to `out`
abbrev pub append_each : (ℕ → Bytes) → List ℕ → Bytes
append_each render [] = []
append_each render (x ∷ xs) = render x ++ append_each render xs

abbrev pub Lacks : ℕ → Bytes → Type 0
Lacks b = All (λ c. c ≢ b)
