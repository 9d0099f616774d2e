-- ===== src/Queue/Comparators.antt =====
-- The comparators of internal/queue/priority.go and delay.go order any ids, whatever the store.
use job_manager_quorum.Common.{arith, ltℤ_asymm, ltℤ_trans}
use job_manager_quorum.Store.{Store}
use job_manager_quorum.Heap.Order.{IsWeakOrder}
use job_manager_quorum.Queue.{job_or_zero, priority_comparator, delay_comparator}

module _ {S : Type 0} (st : Store S) (s : S) where
  pub priority_comparator-IsWeakOrder : IsWeakOrder (priority_comparator st s)
  unfolding priority_comparator
  priority_comparator-IsWeakOrder = record {
    asymm = λ x y h.
        ltℤ_asymm (job_or_zero (st.get y s)).priority (job_or_zero (st.get x s)).priority h;
    trans = λ x y z h k.
        ltℤ_trans (job_or_zero (st.get z s)).priority (job_or_zero (st.get y s)).priority
          (job_or_zero (st.get x s)).priority k h;
  }

  pub delay_comparator-IsWeakOrder : IsWeakOrder (delay_comparator st s)
  unfolding delay_comparator
  delay_comparator-IsWeakOrder = record {
    asymm = λ x y h. ground arith;
    trans = λ x y z h k. ground arith;
  }
