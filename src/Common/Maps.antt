-- ===== src/Common/Maps.antt =====
-- Go's maps, as association lists with at most one entry for each key.
use Prim.Native.Nat.{ℕ}
use Prim.Native.String.{String}
use mathlib.Core.Path.{◌≡◌, refl}
use mathlib.Core.Logic.{ite}
use mathlib.Core.Bool.{Bool, true, false}
use text.Mathlib.Text.{◌==◌ as str_eq}
use text.Mathlib.TextEquality.{eq_iff}
use mathlib.Core.List.{List, [], ◌∷◌}
use mathlib.Core.Option.{Option, none, some}
use native.Mathlib.Decide.{ℕ_discrete}
use native.Mathlib.Omega.{arith}

-- Keys that `==` compares.
pub record Key {ℓ} (K : Type ℓ) : Type ℓ where
  pub eq? : Discrete K

decide_eq : (s t : String) → (b : Bool) → str_eq s t ≡ b → Dec (s ≡ t)
decide_eq s t true h = yes ((eq_iff s t).0 h)
decide_eq s t false h = no (λ e. cc ((eq_iff s t).1 e))

unfoldable pub String-discrete : Discrete String
unfolding decide_eq
String-discrete s t = decide_eq s t (str_eq s t) refl

instance abbrev pub ℕ-key : Key ℕ
ℕ-key = record { eq? = ℕ_discrete }

instance abbrev pub String-key : Key String
String-key = record { eq? = String-discrete }

abbrev pub Map {ℓ} : Type ℓ → Type ℓ → Type ℓ
Map K V = List (K × V)

-- The values that a loop over a map, or a bucket, collects.
abbrev pub values : {K V : Type 0} → Map K V → List V
values [] = []
values ((k, v) ∷ m) = v ∷ values m

module _ {ℓ} {K V : Type ℓ} ⦃e : Key K⦄ where
  unfoldable pub lookup : K → Map K V → Option V
  lookup k [] = none
  lookup k ((j, v) ∷ m) = ite (e.eq? j k) (some v) (lookup k m)

  -- `delete(m, k)`
  unfoldable pub delete : K → Map K V → Map K V
  delete k [] = []
  delete k ((j, v) ∷ m) = let rest = delete k m in ite (e.eq? j k) rest ((j, v) ∷ rest)

  -- `m[k] = v`
  unfoldable pub insert : K → V → Map K V → Map K V
  unfolding delete
  insert k v m = (k, v) ∷ delete k m

  pub lookup-delete :
      (j k : K) (m : Map K V) → lookup j (delete k m) ≡ ite (e.eq? k j) none (lookup j m)
  unfolding lookup delete
  lookup-delete j k [] = ground arith
  lookup-delete j k ((i, v) ∷ m) = ground (arith, lookup-delete j k m)

  pub lookup-insert :
      (j k : K) (v : V) (m : Map K V)
      → lookup j (insert k v m) ≡ ite (e.eq? k j) (some v) (lookup j m)
  unfolding lookup insert
  lookup-insert j k v m = ground (arith, lookup-delete j k m)

  -- No key has two entries.
  abbrev pub Distinct : Map K V → Type ℓ
  Distinct [] = Unit
  Distinct ((k, v) ∷ m) = (lookup k m ≡ none) × Distinct m

  pub Distinct-delete : (k : K) (m : Map K V) → Distinct m → Distinct (delete k m)
  unfolding delete
  Distinct-delete k [] h = h
  Distinct-delete k ((j, v) ∷ m) h = ground (arith, lookup-delete j k m, Distinct-delete k m h.1)

  pub Distinct-insert : (k : K) (v : V) (m : Map K V) → Distinct m → Distinct (insert k v m)
  unfolding insert
  Distinct-insert k v m h = (ground (arith, lookup-delete k k m), Distinct-delete k m h)
