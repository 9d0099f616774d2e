-- ===== src/Queue/Single.antt =====
-- A queue of internal/queue/queue.go with one id.
use mathlib.Core.Logic.Or
use mathlib.Core.List.{mem-cons, not-mem-nil, mem-cons_self}
use mathlib.Core.List.Perm
use native.Mathlib.Nat.{ℕ_set}
use job_manager_quorum.Common.{
  ℕ, ◌≡◌, refl, sym, ap, ◌∙◌, subst, Bool, Option, none, some, List, [], ◌∷◌, Perm, length,
  length-perm, arith,
}
use job_manager_quorum.Queue.{JobQueue, dequeue, peek}
use job_manager_quorum.Queue.Laws.{Dequeued, dequeue-perm}

pub single_of_perm : (items : List ℕ) (id : ℕ) → Perm items (id ∷ []) → items ≡ id ∷ []
single_of_perm [] id p = absurd (omega (arith, length-perm p))
single_of_perm (x ∷ []) id p =
    ap (λ y. y ∷ [])
      (Or.elim (ℕ_set _ _) (mem-cons.0 ((Perm.mem_iff p).0 mem-cons_self)) (λ e. e)
        (λ m. absurd (not-mem-nil m)))
single_of_perm (x ∷ y ∷ items) id p = absurd (omega (arith, length-perm p))

nil_of_length : (items : List ℕ) → length items ≡ 0 → items ≡ []
nil_of_length [] e = refl
nil_of_length (x ∷ items) e = absurd (omega (arith, e))

module _ (cmp : ℕ → ℕ → Bool) where
  -- Dequeue takes the only id and leaves an empty queue.
  abbrev pub TakenOut : ℕ → JobQueue → Type 0
  TakenOut id q = (q' : JobQueue) × (dequeue cmp q ≡ some (id, q')) × (q'.items ≡ [])

  taken_out :
      (id : ℕ) (notify : Bool) (r : Option (ℕ × JobQueue))
      → let q : JobQueue = record { items = id ∷ []; notify = notify } in
        Dequeued cmp q r → dequeue cmp q ≡ r → TakenOut id q
  unfolding peek
  taken_out id notify none empty e = absurd (omega (arith, ap length empty))
  taken_out id notify (some (x, q')) (same, front, token) e =
      let here : id ≡ x = cc in
      (
        q',
        e ∙ ap (λ y. some (y, q')) (sym here),
        nil_of_length q'.items (omega (arith, length-perm same)),
      )

  pub dequeue-single : (id : ℕ) (q : JobQueue) → q.items ≡ id ∷ [] → TakenOut id q
  dequeue-single id q e =
      let out =
        taken_out id q.notify _ (dequeue-perm cmp (record { items = id ∷ []; notify = q.notify }))
          refl in
      subst (TakenOut id) (ap (λ items. record { items = items; notify = q.notify }) (sym e)) out
