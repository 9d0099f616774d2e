-- ===== src/Heap/Total.antt =====
-- Whatever the comparator says, `push` and `pop` of container/heap end without a panic, and neither
-- loses nor makes up an entry. (The comparators read the job store, which changes between calls.)
use mathlib.Core.List.{perm_middle, append-nil}
use mathlib.Core.List.Perm
use job_manager_quorum.Common.{
  ℕ, zero, suc, ◌+◌, ◌-◌, ◌*◌, ◌≤◌, ◌<◌, ◌≡◌, ◌∙◌, ◌==◌, ltb, Bool, List, [], ◌∷◌, ◌++◌, Perm,
  length, refl, length-perm, length-append, arith, Bool-cases, inl, inr,
}
use job_manager_quorum.Common.Outcome.{Ends, ends, Ends-if, Ends-map, Ends-value}
use job_manager_quorum.Common.Arrays.{
  at, take, swapped, at-swapped, length-swapped, swapped-perm, take-last,
}
use job_manager_quorum.Heap.{
  up_loop, up, first_child, down_loop, down, push, pop, load-ok, less-ok, swap-ok,
}
use job_manager_quorum.Heap.Order.{parent}

-- `out` has the entries of `items`, and the same ones from the index `n` on.
pub record Rearranged (items : List ℕ) (n : ℕ) (out : List ℕ) : Type 0 where
  pub same : Perm out items
  pub past : (k : ℕ) → n ≤ k → at out k ≡ at items k

module _ (cmp : ℕ → ℕ → Bool) where
  up_loop_total :
      (k : ℕ) (items : List ℕ) (j : ℕ)
      → j < k
      → j < length items
      → Ends (λ out. Perm out items) (up_loop cmp k items j)
  unfolding up_loop
  up_loop_total zero items j f hj = absurd (omega arith)
  up_loop_total (suc k) items j f hj =
      let hi : parent j < length items = omega arith in
      rw (less-ok items j (parent j) hj hi cmp, swap-ok items (parent j) j hi hj)
        (Ends-if (parent j == j) (λ root. ends Perm.rfl)
          (λ below.
            Ends-if (cmp (at items j) (at items (parent j)))
              (λ before.
                Ends-map (λ out r. Perm.trans r (swapped-perm items (parent j) j hi hj))
                  (up_loop_total k (swapped items (parent j) j) (parent j) (ground arith)
                    (omega (arith, length-swapped items (parent j) j))))
              (λ settled. ends Perm.rfl)))

  -- Pushing onto any slice ends without a panic, and adds exactly the new entry.
  pub push_total : (items : List ℕ) (x : ℕ) → Ends (λ out. Perm out (x ∷ items)) (push cmp items x)
  unfolding push up
  push_total items x =
      let grown = items ++ x ∷ [] in
      let j = length grown - 1 in
      Ends-map (λ out r. Perm.trans r (rw (append-nil items) at (perm_middle {a = x} items [])))
        (up_loop_total (j + 1) grown j (omega arith) (omega (arith, length-append items (x ∷ []))))

  first_child_total :
      (items : List ℕ) (n i : ℕ)
      → n ≤ length items
      → 2 * i + 1 < n
      → Ends (λ m. (i < m) × (m < n)) (first_child cmp items i n)
  unfolding first_child
  first_child_total items n i fits h =
      let l = 2 * i + 1 in
      let r = 2 * i + 1 + 1 in
      elim (Bool-cases (ltb r n)) [
        | inl two ↦
            rw (two, less-ok items r l (ground arith) (omega arith) cmp)
              (elim (Bool-cases (cmp (at items r) (at items l))) [
                | inl before ↦ rw before (ends (omega arith, ground arith))
                | inr settled ↦ rw settled (ends (omega arith, omega arith))
              ])
        | inr one ↦ rw one (ends (omega arith, omega arith))
      ]

  down_loop_total :
      (k : ℕ) (items : List ℕ) (n i : ℕ)
      → n - i < k
      → n ≤ length items
      → Ends (Rearranged items n) (down_loop cmp k items i n)
  unfolding down_loop
  down_loop_total zero items n i g fits = absurd (omega arith)
  down_loop_total (suc k) items n i g fits =
      Ends-if (ltb (2 * i + 1) n)
        (λ e.
          let (m, found, range) = Ends-value (first_child_total items n i fits (ground arith)) in
          let hm : m < length items = omega arith in
          let hi : i < length items = omega arith in
          rw (found, less-ok items m i hm hi cmp)
            (Ends-if (cmp (at items m) (at items i))
              (λ before.
                let moved = at-swapped items i m hi hm in
                rw (swap-ok items i m hi hm) (
                  Ends-map
                    (λ out s. record {
                      same = Perm.trans s.same (swapped-perm items i m hi hm);
                      past = λ j p. s.past j p ∙ ground (arith, moved j);
                    })
                    (down_loop_total k (swapped items i m) n m (omega arith)
                      (omega (arith, length-swapped items i m)))))
              (λ settled. ends (record { same = Perm.rfl; past = λ j p. refl }))))
        (λ e. ends (record { same = Perm.rfl; past = λ j p. refl }))

  -- Popping from any non-empty slice ends without a panic, with its first entry and the others.
  pub pop_total :
      (items : List ℕ)
      → 0 < length items
      → Ends (λ r. (r.0 ≡ at items 0) × Perm (r.0 ∷ r.1) items) (pop cmp items)
  unfolding pop down
  pop_total items h =
      let n = length items - 1 in
      let hn : n < length items = omega arith in
      let moved = swapped items 0 n in
      let (out, sifted, s) = Ends-value (
        down_loop_total (n + 1) moved n 0 (omega arith)
          (omega (arith, length-swapped items 0 n))) in
      let size : length out ≡ suc (length out - 1) =
        omega (arith, length-perm s.same, length-swapped items 0 n) in
      let last : length out - 1 ≡ n = omega (arith, length-perm s.same, length-swapped items 0 n) in
      let front : at out (length out - 1) ≡ at items 0 =
        rw last (s.past n (omega arith) ∙ ground (arith, at-swapped items 0 n h hn n)) in
      rw (swap-ok items 0 n h hn, sifted, load-ok out (length out - 1) (omega arith))
        (ends (
          front,
          Perm.trans
              (Perm.symm (
                rw (append-nil (take (length out - 1) out)) at
                  (perm_middle {a = at out (length out - 1)} (take (length out - 1) out) [])))
              (rw (take-last (length out - 1) out size)
                (Perm.trans s.same (swapped-perm items 0 n h hn))),
        ))
