-- ===== src/Heap/Up.antt =====
-- `up` of container/heap: an entry too near the leaves rises to its place.
use mathlib.Core.List.Perm
use job_manager_quorum.Common.{
  ℕ, zero, suc, ◌+◌, ◌≤◌, ◌<◌, ◌≡◌, ◌≢◌, ◌==◌, Bool, true, List, Perm, length, arith,
}
use job_manager_quorum.Common.Outcome.{Ends, ends, Ends-if, Ends-map}
use job_manager_quorum.Common.Arrays.{at, swapped, at-swapped, length-swapped, swapped-perm}
use job_manager_quorum.Heap.{up_loop, up, less-ok, swap-ok}
use job_manager_quorum.Heap.Order.{IsWeakOrder, parent, Follows, IsHeap, IsBridged}

module _ (cmp : ℕ → ℕ → Bool) where
  -- Only the edge above `j` may be out of order.
  pub record UpInv (items : List ℕ) (n j : ℕ) : Type 0 where
    pub inside : j < n
    pub fits : n ≤ length items
    pub edges : (c : ℕ) → 0 < c → c < n → c ≢ j → Follows cmp items (parent c) c
    pub bridged : IsBridged cmp items n j

module _ (cmp : ℕ → ℕ → Bool) (o : IsWeakOrder cmp) where
  rise-UpInv :
      (items : List ℕ) (n j : ℕ)
      → UpInv cmp items n j
      → 0 < j
      → cmp (at items j) (at items (parent j)) ≡ true
      → UpInv cmp (swapped items (parent j) j) n (parent j)
  rise-UpInv items n j v pos before =
      let i = parent j in
      let moved =
        at-swapped items i j (omega (arith, v.fits, v.inside)) (omega (arith, v.fits, v.inside)) in
      record {
        inside = omega (arith, v.inside);
        fits = omega (arith, v.fits, length-swapped items i j);
        edges = λ c p q r. ground (
          arith,
          moved c,
          moved (parent c),
          v.edges c,
          v.bridged c,
          o.asymm (at items j) (at items i),
          o.trans (at items j) (at items i) (at items c),
        );
        bridged = λ c p q r s. ground (
          arith,
          moved c,
          moved (parent i),
          v.edges c,
          v.edges i,
          o.trans (at items (parent i)) (at items i) (at items c),
        );
      }

  up_loop_restores :
      (k : ℕ) (items : List ℕ) (n j : ℕ)
      → j < k
      → UpInv cmp items n j
      → Ends (λ out. IsHeap cmp out n × Perm out items) (up_loop cmp k items j)
  unfolding up_loop
  up_loop_restores zero items n j f v = absurd (omega arith)
  up_loop_restores (suc k) items n j f v =
      let hj : j < length items = omega (arith, v.inside, v.fits) in
      let hi : parent j < length items = omega (arith, v.inside, v.fits) in
      rw (less-ok items j (parent j) hj hi cmp, swap-ok items (parent j) j hi hj)
        (Ends-if (parent j == j) (λ root. ends (λ c p q. v.edges c p q (ground arith), Perm.rfl))
          (λ below.
            Ends-if (cmp (at items j) (at items (parent j)))
              (λ before.
                Ends-map (λ out r. (r.0, Perm.trans r.1 (swapped-perm items (parent j) j hi hj)))
                  (up_loop_restores k (swapped items (parent j) j) n (parent j) (ground arith)
                    (rise-UpInv items n j v (ground arith) before)))
              (λ settled. ends (λ c p q. ground (arith, v.edges c), Perm.rfl))))

  -- `up` ends without a panic, with a heap of the same entries.
  pub up_restores :
      (items : List ℕ) (n j : ℕ)
      → UpInv cmp items n j
      → Ends (λ out. IsHeap cmp out n × Perm out items) (up cmp items j)
  unfolding up
  up_restores items n j v = up_loop_restores (j + 1) items n j (omega arith) v
