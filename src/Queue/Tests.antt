-- ===== src/Queue/Tests.antt =====
-- The laws of the queue at a concrete queue, under the order of the numbers.

use job_manager_quorum.Common.{refl, zero, suc, false, [], ◌∷◌, ltb, arith}
use job_manager_quorum.Common.Arrays.{at}
use job_manager_quorum.Heap.Order.{IsWeakOrder}
use job_manager_quorum.Queue.{JobQueue, dequeue}
use job_manager_quorum.Queue.Laws.{IsOrdered, DequeuedFirst, dequeue-first}

ltb-IsWeakOrder : IsWeakOrder ltb
ltb-IsWeakOrder = record { asymm = λ x y h. ground arith; trans = λ x y z h k. ground arith }

abbrev three : JobQueue
three = record { items = 1 ∷ 3 ∷ 2 ∷ []; notify = false }

three-IsOrdered : IsOrdered ltb ltb-IsWeakOrder three
unfolding at
three-IsOrdered zero p q = absurd (omega arith)
three-IsOrdered (suc zero) p q = refl
three-IsOrdered (suc (suc zero)) p q = refl
three-IsOrdered (suc (suc (suc c))) p q = absurd (omega arith)

dequeue-first_example : DequeuedFirst ltb ltb-IsWeakOrder three (dequeue ltb three)
dequeue-first_example = dequeue-first ltb ltb-IsWeakOrder three three-IsOrdered
