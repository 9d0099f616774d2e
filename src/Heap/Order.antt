-- ===== src/Heap/Order.antt =====
-- The heap order, for any comparator that is a strict weak order.

use job_manager_quorum.Common.{ℕ, zero, suc, ◌-◌, ◌/◌, ◌<◌, ◌≡◌, Bool, true, false, List, arith}
use job_manager_quorum.Common.Arrays.{at}

pub record IsWeakOrder (cmp : ℕ → ℕ → Bool) : Type 0 where
  pub asymm : (x y : ℕ) → cmp x y ≡ true → cmp y x ≡ false
  pub trans : (x y z : ℕ) → cmp y x ≡ false → cmp z y ≡ false → cmp z x ≡ false

abbrev pub parent : ℕ → ℕ
parent c = (c - 1) / 2

module _ (cmp : ℕ → ℕ → Bool) where
  -- The entry at `c` does not come before the entry at `p`.
  abbrev pub Follows : List ℕ → ℕ → ℕ → Type 0
  Follows items p c = cmp (at items c) (at items p) ≡ false

  -- Every edge among the first `n` entries is in order.
  abbrev pub IsHeap : List ℕ → ℕ → Type 0
  IsHeap items n = (c : ℕ) → 0 < c → c < n → Follows items (parent c) c

  -- The edges around `i`, from its parent to its children, are in order.
  abbrev pub IsBridged : List ℕ → ℕ → ℕ → Type 0
  IsBridged items n i = (c : ℕ) → 0 < c → c < n → parent c ≡ i → 0 < i → Follows items (parent i) c

  module _ (o : IsWeakOrder cmp) where
    pub cmp_irrefl : (x : ℕ) → cmp x x ≡ false
    cmp_irrefl x = ground (arith, o.asymm x x)

    root_first_below :
        (k : ℕ) (items : List ℕ) (n i : ℕ) → IsHeap items n → i < k → i < n → Follows items 0 i
    root_first_below zero items n i h f p = absurd (omega arith)
    root_first_below (suc k) items n zero h f p = cmp_irrefl (at items 0)
    root_first_below (suc k) items n (suc i) h f p =
        o.trans _ (at items (parent (suc i))) _
          (root_first_below k items n (parent (suc i)) h (omega arith) (omega arith))
          (h (suc i) (omega arith) p)

    -- No entry of a heap comes before its root.
    pub root_first : (items : List ℕ) (n i : ℕ) → IsHeap items n → i < n → Follows items 0 i
    root_first items n i h p = root_first_below (suc i) items n i h (omega arith) p
