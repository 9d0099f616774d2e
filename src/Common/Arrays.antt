-- ===== src/Common/Arrays.antt =====
-- Lists of numbers as Go slices: reads and writes by index, swaps and truncation.
use Prim.Native.Nat.{ℕ, zero, suc, ◌<◌}
use mathlib.Core.Path.{◌≡◌, refl, ap}
use mathlib.Core.List.{List, [], ◌∷◌, ◌++◌, Perm}
use mathlib.Core.List.Perm
use mathlib.Core.Option.{Option, none, some}
use native.Mathlib.Omega.{arith}
use job_manager_quorum.Common.Tests.{◌==◌, if◌then◌else◌}
use job_manager_quorum.Common.Lists.{length}

abbrev pub get_elem? : List ℕ → ℕ → Option ℕ
get_elem? [] i = none
get_elem? (x ∷ xs) zero = some x
get_elem? (x ∷ xs) (suc i) = get_elem? xs i

abbrev pub set : List ℕ → ℕ → ℕ → List ℕ
set [] i v = []
set (x ∷ xs) zero v = v ∷ xs
set (x ∷ xs) (suc i) v = x ∷ set xs i v

-- `xs[:n]`
abbrev pub take : ℕ → List ℕ → List ℕ
take zero xs = []
take (suc n) [] = []
take (suc n) (x ∷ xs) = x ∷ take n xs

-- The entry at an index in range.
unfoldable pub at : List ℕ → ℕ → ℕ
at [] i = 0
at (x ∷ xs) zero = x
at (x ∷ xs) (suc i) = at xs i

-- Both writes of a swap.
unfoldable pub swapped : List ℕ → ℕ → ℕ → List ℕ
swapped xs i j = set (set xs i (at xs j)) j (at xs i)

pub get_elem?-at : (xs : List ℕ) (i : ℕ) → i < length xs → get_elem? xs i ≡ some (at xs i)
unfolding at
get_elem?-at [] i h = absurd (omega arith)
get_elem?-at (x ∷ xs) zero h = refl
get_elem?-at (x ∷ xs) (suc i) h = get_elem?-at xs i (omega arith)

pub length-set : (xs : List ℕ) (i v : ℕ) → length (set xs i v) ≡ length xs
length-set [] i v = refl
length-set (x ∷ xs) zero v = refl
length-set (x ∷ xs) (suc i) v = ap suc (length-set xs i v)

at-set :
    (xs : List ℕ) (i v k : ℕ) → i < length xs → at (set xs i v) k ≡ (if i == k then v else at xs k)
unfolding at
at-set [] i v k h = absurd (omega arith)
at-set (x ∷ xs) zero v zero h = refl
at-set (x ∷ xs) zero v (suc k) h = ground arith
at-set (x ∷ xs) (suc i) v zero h = ground arith
at-set (x ∷ xs) (suc i) v (suc k) h = ground (arith, at-set xs i v k)

pub length-swapped : (xs : List ℕ) (i j : ℕ) → length (swapped xs i j) ≡ length xs
unfolding swapped
length-swapped xs i j = simp length-set

pub at-swapped :
    (xs : List ℕ) (i j : ℕ)
    → i < length xs
    → j < length xs
    → (k : ℕ)
    → at (swapped xs i j) k ≡ (if j == k then at xs i else if i == k then at xs j else at xs k)
unfolding swapped
at-swapped xs i j hi hj k = ground (
  arith,
  length-set xs i (at xs j),
  at-set (set xs i (at xs j)) j (at xs i) k,
  at-set xs i (at xs j) k,
)

-- A write puts its value in place of the old entry.
set-perm : (xs : List ℕ) (i v : ℕ) → i < length xs → Perm (at xs i ∷ set xs i v) (v ∷ xs)
unfolding at
set-perm [] i v h = absurd (omega arith)
set-perm (x ∷ xs) zero v h = Perm.swap v x xs
set-perm (x ∷ xs) (suc i) v h =
    Perm.trans (Perm.swap x _ _)
      (Perm.trans (Perm.cons x (set-perm xs i v (omega arith))) (Perm.swap v x xs))

pub swapped-perm :
    (xs : List ℕ) (i j : ℕ) → i < length xs → j < length xs → Perm (swapped xs i j) xs
unfolding swapped
swapped-perm xs i j hi hj =
    let ys = set xs i (at xs j) in
    let same : at ys j ≡ at xs j = ground (arith, at-set xs i (at xs j) j) in
    let second = set-perm ys j (at xs i) (rw length-set hj) in
    Perm.cons_inv (Perm.trans (rw same at second) (set-perm xs i (at xs j) hi))

pub at-append : (xs ys : List ℕ) (i : ℕ) → i < length xs → at (xs ++ ys) i ≡ at xs i
unfolding at
at-append [] ys i h = absurd (omega arith)
at-append (x ∷ xs) ys zero h = refl
at-append (x ∷ xs) ys (suc i) h = at-append xs ys i (omega arith)

pub at-take : (n : ℕ) (xs : List ℕ) (i : ℕ) → i < n → at (take n xs) i ≡ at xs i
unfolding at
at-take zero xs i h = absurd (omega arith)
at-take (suc n) [] i h = refl
at-take (suc n) (x ∷ xs) zero h = refl
at-take (suc n) (x ∷ xs) (suc i) h = at-take n xs i (omega arith)

-- Dropping the last entry.
pub take-last : (n : ℕ) (xs : List ℕ) → length xs ≡ suc n → take n xs ++ at xs n ∷ [] ≡ xs
unfolding at
take-last zero (x ∷ []) h = refl
take-last zero (x ∷ y ∷ xs) h = absurd (omega arith)
take-last zero [] h = absurd (omega arith)
take-last (suc n) [] h = absurd (omega arith)
take-last (suc n) (x ∷ xs) h = ap (◌∷◌ x) (take-last n xs (omega arith))

-- `xs[n:]`
abbrev pub drop : ℕ → List ℕ → List ℕ
drop zero xs = xs
drop (suc n) [] = []
drop (suc n) (x ∷ xs) = drop n xs
