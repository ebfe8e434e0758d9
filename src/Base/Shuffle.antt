-- ===== src/Base/Shuffle.antt =====
-- Items that several lists put into one: as many of each, and each list in its order.
use mathlib.Core.Path.{◌≡◌, refl, sym, ap, ◌∙◌, subst}
use mathlib.Core.List.{List, [], ◌∷◌, ◌++◌, append_assoc, Perm, perm_middle, Sublist}
use mathlib.Core.List.Perm
use mathlib.Core.List.Sublist
use fingered.Base.Lists.{All}

abbrev pub concat_by {ℓ κ} : {A : Type ℓ} {B : Type κ} → (A → List B) → List A → List B
concat_by f [] = []
concat_by f (x ∷ xs) = f x ++ concat_by f xs

module _ {ℓ κ} {A : Type ℓ} {B : Type κ} (f : A → List B) where
  pub concat_by_middle :
      (before after : List A) (x : A)
      → concat_by f (before ++ x ∷ after) ≡ concat_by f before ++ (f x ++ concat_by f after)
  concat_by_middle [] after x = refl
  concat_by_middle (b ∷ before) after x =
      ap (◌++◌ (f b)) (concat_by_middle before after x)
      ∙ sym (append_assoc (f b) (concat_by f before) _)

module _ {ℓ} {A : Type ℓ} where
  -- New items in the middle go to the front.
  pub perm_front :
      (new before rest : List A) → Perm (before ++ (new ++ rest)) (new ++ (before ++ rest))
  perm_front [] before rest = Perm.refl _
  perm_front (x ∷ new) before rest =
      Perm.trans (perm_middle before (new ++ rest)) (Perm.cons x (perm_front new before rest))

  pub perm_replaced :
      (before after xs ys new : List A)
      → Perm ys (new ++ xs)
      → Perm (before ++ (ys ++ after)) (new ++ (before ++ (xs ++ after)))
  perm_replaced before after xs ys new h =
      Perm.trans (Perm.append_left before (Perm.append_right after h)) (
        subst (λ z. Perm (before ++ z) (new ++ (before ++ (xs ++ after))))
          (sym (append_assoc new xs after)) (perm_front new before (xs ++ after)))

  pub sublist-append : (new xs log : List A) → Sublist xs log → Sublist xs (new ++ log)
  sublist-append [] xs log h = h
  sublist-append (x ∷ new) xs log h = Sublist.cons x (sublist-append new xs log h)

  pub nil-sublist : (log : List A) → Sublist [] log
  nil-sublist [] = Sublist.refl []
  nil-sublist (x ∷ log) = Sublist.cons x (nil-sublist log)

pub perm_concat_by {ℓ κ} :
    {A : Type ℓ} {B : Type κ} (f g : A → List B) (xs : List A)
    → All (λ x. Perm (f x) (g x)) xs
    → Perm (concat_by f xs) (concat_by g xs)
perm_concat_by f g [] h = Perm.refl []
perm_concat_by f g (x ∷ xs) (p, h) =
    Perm.trans (Perm.append_right (concat_by f xs) p)
      (Perm.append_left (g x) (perm_concat_by f g xs h))
