-- ===== src/Heap/Down.antt =====
-- `down` of container/heap: an entry too near the root sinks to its place, among the first `n`.
use mathlib.Core.List.Perm
use job_manager_quorum.Common.{
  ℕ, zero, suc, ◌+◌, ◌-◌, ◌*◌, ◌≤◌, ◌<◌, ◌≡◌, ◌≢◌, ◌⊎◌, ◌∙◌, ltb, Bool, true, List, Perm, length,
  refl, arith, Bool-cases, inl, inr,
}
use job_manager_quorum.Common.Outcome.{Ends, ends, Ends-if, Ends-map, Ends-value}
use job_manager_quorum.Common.Arrays.{at, swapped, at-swapped, length-swapped, swapped-perm}
use job_manager_quorum.Heap.{first_child, down_loop, down, less-ok, swap-ok}
use job_manager_quorum.Heap.Order.{IsWeakOrder, parent, Follows, IsHeap, IsBridged, cmp_irrefl}

module _ (cmp : ℕ → ℕ → Bool) where
  -- Only the edges below `i` may be out of order.
  pub record DownInv (items : List ℕ) (n i : ℕ) : Type 0 where
    pub fits : n ≤ length items
    pub edges : (c : ℕ) → 0 < c → c < n → parent c ≢ i → Follows cmp items (parent c) c
    pub bridged : IsBridged cmp items n i

  -- `out` is a heap in its first `n` entries, and has the entries of `items`; those past `n` stayed.
  pub record Sifted (items : List ℕ) (n : ℕ) (out : List ℕ) : Type 0 where
    pub past : (k : ℕ) → n ≤ k → at out k ≡ at items k
    pub same : Perm out items
    pub heap : IsHeap cmp out n

  -- The child of `i` that no other child comes before.
  record IsFirst (items : List ℕ) (n i m : ℕ) : Type 0 where
    child : (m ≡ 2 * i + 1) ⊎ (m ≡ 2 * i + 2)
    inside : m < n
    least : (c : ℕ) → 0 < c → c < n → parent c ≡ i → Follows cmp items m c

module _ (cmp : ℕ → ℕ → Bool) (o : IsWeakOrder cmp) where
  child_cases : (c i : ℕ) → 0 < c → parent c ≡ i → (c ≡ 2 * i + 1) ⊎ (c ≡ 2 * i + 2)
  child_cases c i p q = omega arith

  first_child-IsFirst :
      (items : List ℕ) (n i : ℕ)
      → n ≤ length items
      → 2 * i + 1 < n
      → Ends (IsFirst cmp items n i) (first_child cmp items i n)
  unfolding first_child
  first_child-IsFirst items n i fits h =
      let l = 2 * i + 1 in
      let r = 2 * i + 1 + 1 in
      elim (Bool-cases (ltb r n)) [
        | inl two ↦
            rw (two, less-ok items r l (ground arith) (omega arith) cmp)
              (elim (Bool-cases (cmp (at items r) (at items l))) [
                | inl before ↦ rw before (
                    ends (record {
                      inside = ground arith;
                      child = omega arith;
                      least = λ c p q e. ground (
                        arith,
                        child_cases c i p e,
                        cmp_irrefl cmp o (at items r),
                        o.asymm (at items r) (at items l),
                      );
                    }))
                | inr settled ↦ rw settled (
                    ends (record {
                      inside = omega arith;
                      child = omega arith;
                      least = λ c p q e.
                          ground (arith, child_cases c i p e, cmp_irrefl cmp o (at items l));
                    }))
              ])
        | inr one ↦ rw one (
            ends (record {
              inside = omega arith;
              child = omega arith;
              least = λ c p q e. ground (arith, child_cases c i p e, cmp_irrefl cmp o (at items l));
            }))
      ]

  sink-DownInv :
      (items : List ℕ) (n i m : ℕ)
      → DownInv cmp items n i
      → IsFirst cmp items n i m
      → cmp (at items m) (at items i) ≡ true
      → DownInv cmp (swapped items i m) n m
  sink-DownInv items n i m v f before =
      let moved =
        at-swapped items i m (omega (arith, v.fits, f.inside, f.child))
          (omega (arith, v.fits, f.inside)) in
      record {
        fits = omega (arith, v.fits, length-swapped items i m);
        edges = λ c p q r. ground (
          arith,
          f.child,
          moved c,
          moved (parent c),
          v.edges c,
          v.bridged m,
          f.least c,
          f.inside,
          o.asymm (at items m) (at items i),
        );
        bridged =
            λ c p q r s. ground (arith, f.child, f.inside, moved c, moved (parent m), v.edges c);
      }

  down_loop_restores :
      (k : ℕ) (items : List ℕ) (n i : ℕ)
      → n - i < k
      → DownInv cmp items n i
      → Ends (Sifted cmp items n) (down_loop cmp k items i n)
  unfolding down_loop
  down_loop_restores zero items n i g v = absurd (omega arith)
  down_loop_restores (suc k) items n i g v =
      Ends-if (ltb (2 * i + 1) n)
        (λ e.
          let (m, found, f) = Ends-value (first_child-IsFirst items n i v.fits (ground arith)) in
          let hm : m < length items = omega (arith, v.fits, f.inside) in
          let hi : i < length items = omega (arith, hm, f.child) in
          rw (found, less-ok items m i hm hi cmp)
            (Ends-if (cmp (at items m) (at items i))
              (λ before.
                let moved = at-swapped items i m hi hm in
                rw (swap-ok items i m hi hm) (
                  Ends-map
                    (λ out s. record {
                      heap = s.heap;
                      same = Perm.trans s.same (swapped-perm items i m hi hm);
                      past = λ j p. s.past j p ∙ ground (arith, moved j, f.inside, f.child);
                    })
                    (down_loop_restores k (swapped items i m) n m
                      (omega (arith, f.inside, f.child, g)) (sink-DownInv items n i m v f before))))
              (λ settled. ends (record {
                heap = λ c p q.
                    ground
                      (arith, v.edges c, f.least c, o.trans (at items i) (at items m) (at items c));
                same = Perm.rfl;
                past = λ j p. refl;
              }))))
        (λ e. ends (record {
          heap = λ c p q. ground (arith, v.edges c);
          same = Perm.rfl;
          past = λ j p. refl;
        }))

  -- `down` ends without a panic, with a heap of the same entries, and leaves those past `n` alone.
  pub down_restores :
      (items : List ℕ) (n i : ℕ)
      → DownInv cmp items n i
      → Ends (Sifted cmp items n) (down cmp items i n)
  unfolding down
  down_restores items n i v = down_loop_restores (n + 1) items n i (omega arith) v
