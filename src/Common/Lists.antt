-- ===== src/Common/Lists.antt =====
-- Lists with native lengths, and predicates on lists by recursion.
use Prim.Native.Nat.{ℕ, suc, ◌+◌}
use mathlib.Core.Path.{◌≡◌, refl, sym, ap, ◌∙◌}
use mathlib.Core.Logic.{◌⊎◌}
use mathlib.Core.List.{List, [], ◌∷◌, ◌++◌, Perm, Permᴰ}
use mathlib.Core.Logic.{∥∥₁_elim}
use native.Mathlib.Nat.{ℕ_set}
use native.Mathlib.Omega.{arith}

module _ {ℓ} {A : Type ℓ} where
  abbrev pub length : List A → ℕ
  length [] = 0
  length (_ ∷ xs) = suc (length xs)

  pub length-append : (front back : List A) → length (front ++ back) ≡ length front + length back
  length-append [] back = omega arith
  length-append (a ∷ front) back = omega (arith, length-append front back)

  same_size_of : {left right : List A} → Permᴰ left right → length right ≡ length left
  same_size_of (Permᴰ.trans first second) = same_size_of second ∙ same_size_of first
  same_size_of (Permᴰ.swap a b) = refl
  same_size_of (Permᴰ.cons a rest) = ap suc (same_size_of rest)
  same_size_of Permᴰ.nil = refl

  pub length-perm : {left right : List A} → Perm left right → length left ≡ length right
  length-perm same = sym (∥∥₁_elim same (ℕ_set _ _) same_size_of)

  abbrev pub All {κ} : (A → Type κ) → List A → Type κ
  All P [] = Unit
  All P (x ∷ xs) = P x × All P xs

-- Membership, by recursion.
abbrev pub In : {A : Type 0} → A → List A → Type 0
In a [] = ⊥
In a (x ∷ xs) = (x ≡ a) ⊎ In a xs
