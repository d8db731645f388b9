-- ===== src/Base/Perms.antt =====
-- Permutations, with lengths in the native numbers.
use Prim.Native.Nat.{suc}
use mathlib.Core.Path.{◌≡◌, refl, sym, ap, ◌∙◌}
use mathlib.Core.List.{List, [], ◌∷◌, ◌++◌, Perm, perm_middle}
use mathlib.Core.List
use mathlib.Core.List.Perm
use native.Mathlib.Bridge.{from_ℕ}
use mini_cpm5_5080fast.Base.Lists.{length}

module _ {ℓ} {A : Type ℓ} where
  length-from_ℕ : (xs : List A) → from_ℕ (List.length xs) ≡ length xs
  length-from_ℕ [] = refl
  length-from_ℕ (x ∷ xs) = ap suc (length-from_ℕ xs)

  pub perm-length : {xs ys : List A} → Perm xs ys → length xs ≡ length ys
  perm-length {xs} {ys} p = sym (length-from_ℕ xs) ∙ ap from_ℕ (Perm.length-eq p) ∙ length-from_ℕ ys

  -- An element moves from the front of the third part to the front of the whole.
  pub perm_to_front :
      (x : A) (xs ys zs : List A) → Perm (xs ++ (ys ++ x ∷ zs)) (x ∷ (xs ++ (ys ++ zs)))
  perm_to_front x xs ys zs =
      Perm.trans (Perm.append (Perm.refl xs) (perm_middle ys zs)) (perm_middle xs (ys ++ zs))
