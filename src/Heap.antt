-- ===== src/Heap.antt =====
-- internal/queue/heap.go under Go's container/heap: the slice of job ids, ordered by a comparator
-- on ids. `up`, `down`, `push` and `pop` are the loops of container/heap over the methods Less, Swap,
-- Push and Pop of heap.go. An index out of range is a panic. Indices stay below twice the length, so
-- they do not overflow, and the test `j1 < 0` of `down` is never true.
pub mod Order
pub mod Up
pub mod Down
pub mod Total
pub mod Push
use job_manager_quorum.Common.{
  ℕ, zero, suc, ◌+◌, ◌-◌, ◌*◌, ◌/◌, ◌<◌, ◌≡◌, refl, Bool, true, false, List, [], ◌∷◌, ◌++◌, ltb,
  ◌==◌, length, if◌then◌else◌,
}
use job_manager_quorum.Common.Outcome.{Outcome, ok, panic, out_of_fuel, ◌>>=◌, or_panic}
use job_manager_quorum.Common.Arrays.{
  get_elem?, set, take, at, swapped, get_elem?-at, length-swapped,
}

-- `h.items[i]`
unfoldable pub load : List ℕ → ℕ → Outcome ℕ
load items i = or_panic (get_elem? items i)

unfoldable pub swap : List ℕ → ℕ → ℕ → Outcome (List ℕ)
swap items i j = do x ← load items j; y ← load items i; ok (set (set items i x) j y)

module _ (cmp : ℕ → ℕ → Bool) where
  unfoldable pub less : List ℕ → ℕ → ℕ → Outcome Bool
  less items i j = do x ← load items i; y ← load items j; ok (cmp x y)

  up_loop : ℕ → List ℕ → ℕ → Outcome (List ℕ)
  up_loop zero items j = out_of_fuel
  up_loop (suc fuel) items j =
      let i = (j - 1) / 2 in
      let rise = swap items i j >>= λ moved. up_loop fuel moved i in
      let test = less items j i >>= λ before. if before then rise else ok items in
      if i == j then ok items else test

  unfoldable pub up : List ℕ → ℕ → Outcome (List ℕ)
  unfolding up_loop less load swap
  up items j = up_loop (j + 1) items j

  -- The child of `i` that `down` compares with it.
  unfoldable pub first_child : List ℕ → ℕ → ℕ → Outcome ℕ
  first_child items i n =
      let j1 = 2 * i + 1 in
      let j2 = j1 + 1 in
      let both = less items j2 j1 >>= λ before. ok (if before then j2 else j1) in
      if ltb j2 n then both else ok j1

  down_loop : ℕ → List ℕ → ℕ → ℕ → Outcome (List ℕ)
  down_loop zero items i n = out_of_fuel
  down_loop (suc fuel) items i n =
      let step : Outcome (List ℕ) = do
        j ← first_child items i n
        before ← less items j i
        let sink = swap items i j >>= λ moved. down_loop fuel moved j n
        if before then sink else ok items
      in if ltb (2 * i + 1) n then step else ok items

  unfoldable pub down : List ℕ → ℕ → ℕ → Outcome (List ℕ)
  unfolding down_loop first_child less load swap
  down items i n = down_loop (n + 1) items i n

  unfoldable pub push : List ℕ → ℕ → Outcome (List ℕ)
  push items x = let grown = items ++ x ∷ [] in up grown (length grown - 1)

  -- heap.Pop, and the method Pop that cuts the last entry off.
  unfoldable pub pop : List ℕ → Outcome (ℕ × List ℕ)
  pop items = do
    let n = length items - 1
    moved ← swap items 0 n
    sifted ← down moved 0 n
    item ← load sifted (length sifted - 1)
    ok (item, take (length sifted - 1) sifted)

pub load-ok : (items : List ℕ) (i : ℕ) → i < length items → load items i ≡ ok (at items i)
unfolding load
load-ok items i h = rw (get_elem?-at items i h)

module _ (items : List ℕ) (i j : ℕ) (hi : i < length items) (hj : j < length items) where
  pub less-ok : (cmp : ℕ → ℕ → Bool) → less cmp items i j ≡ ok (cmp (at items i) (at items j))
  unfolding less
  less-ok cmp = rw (load-ok items i hi, load-ok items j hj)

  pub swap-ok : swap items i j ≡ ok (swapped items i j)
  unfolding swap swapped
  swap-ok = rw (load-ok items j hj, load-ok items i hi)
