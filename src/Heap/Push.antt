-- ===== src/Heap/Push.antt =====
-- `push` and `pop` of container/heap keep the heap order, and `pop` takes a first entry.

use job_manager_quorum.Common.{
  ℕ, zero, suc, ◌-◌, ◌≤◌, ◌<◌, ◌≡◌, ◌∙◌, Bool, false, List, [], ◌∷◌, ◌++◌, length, refl,
  length-perm, length-append, arith,
}
use job_manager_quorum.Common.Outcome.{Ends, ends, Ends-map, Ends-value}
use job_manager_quorum.Common.Arrays.{
  at, take, swapped, at-swapped, length-swapped, at-append, at-take,
}
use job_manager_quorum.Heap.{push, pop, load-ok, swap-ok}
use job_manager_quorum.Heap.Order.{IsWeakOrder, parent, IsHeap, root_first}
use job_manager_quorum.Heap.Up.{UpInv, up_restores}
use job_manager_quorum.Heap.Down.{DownInv, down_restores}

length-take : (n : ℕ) (xs : List ℕ) → n ≤ length xs → length (take n xs) ≡ n
length-take zero xs h = refl
length-take (suc n) [] h = absurd (omega arith)
length-take (suc n) (x ∷ xs) h = omega (arith, length-take n xs)

module _ (cmp : ℕ → ℕ → Bool) (o : IsWeakOrder cmp) where
  grown-UpInv :
      (items : List ℕ) (x : ℕ)
      → IsHeap cmp items (length items)
      → UpInv cmp (items ++ x ∷ []) (length (items ++ x ∷ [])) (length (items ++ x ∷ []) - 1)
  grown-UpInv items x h =
      let size = length-append items (x ∷ []) in
      record {
        inside = omega (arith, size);
        fits = omega arith;
        edges = λ c p q r.
            ground
              (arith, size, h c, at-append items (x ∷ []) c, at-append items (x ∷ []) (parent c));
        bridged = λ c p q r s. absurd (omega (arith, size));
      }

  -- Pushing onto a heap gives a heap.
  pub push-IsHeap :
      (items : List ℕ) (x : ℕ)
      → IsHeap cmp items (length items)
      → Ends (λ out. IsHeap cmp out (length out)) (push cmp items x)
  unfolding push
  push-IsHeap items x h =
      Ends-map (λ out r. λ c p inside. r.0 c p (omega (arith, length-perm r.1)))
        (up_restores cmp o _ _ _ (grown-UpInv items x h))

  cut-DownInv :
      (items : List ℕ) (n : ℕ)
      → length items ≡ suc n
      → IsHeap cmp items (length items)
      → DownInv cmp (swapped items 0 n) n 0
  cut-DownInv items n size h =
      let moved = at-swapped items 0 n (omega arith) (omega arith) in
      record {
        fits = omega (arith, length-swapped items 0 n);
        edges = λ c p q r. ground (arith, h c, moved c, moved (parent c));
        bridged = λ c p q r s. absurd (omega arith);
      }

  -- Popping from a heap leaves a heap, and no entry of the slice comes before the popped one.
  pub pop-IsHeap :
      (items : List ℕ)
      → 0 < length items
      → IsHeap cmp items (length items)
      → Ends
          (λ r.
            IsHeap cmp r.1 (length r.1)
            × ((i : ℕ) → i < length items → cmp (at items i) r.0 ≡ false))
          (pop cmp items)
  unfolding pop
  pop-IsHeap items h heap =
      let n = length items - 1 in
      let hn : n < length items = omega arith in
      let (out, sifted, s) =
        Ends-value (down_restores cmp o _ _ _ (cut-DownInv items n (omega arith) heap)) in
      let size : length out ≡ length items =
        omega (arith, length-perm s.same, length-swapped items 0 n) in
      let last : length out - 1 ≡ n = omega arith in
      let front : at out (length out - 1) ≡ at items 0 =
        rw last (s.past n (omega arith) ∙ ground (arith, at-swapped items 0 n h hn n)) in
      rw (swap-ok items 0 n h hn, sifted, load-ok out (length out - 1) (omega arith))
        (ends (
          λ c p inside.
              let left : length (take (length out - 1) out) ≡ length out - 1 =
                length-take (length out - 1) out (omega arith) in
              ground (
                arith,
                s.heap c p (omega arith),
                at-take (length out - 1) out c,
                at-take (length out - 1) out (parent c),
              ),
          λ i p. rw front (root_first cmp o items (length items) i heap p),
        ))
