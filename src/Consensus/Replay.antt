-- ===== src/Consensus/Replay.antt =====
-- Apply of internal/consensus/fsm.go over a committed log.
use job_manager_quorum.Common.{
  ℕ, ◌≡◌, ◌≢◌, refl, sym, ap, ◌∙◌, subst, inl, inr, true, false, some, List, [], ◌∷◌, if_pos,
  if_neg, ℕ_discrete, Option-cases, Bool-cases, arith,
}
use job_manager_quorum.Job.{Job, Status, is_terminal}
use job_manager_quorum.Job.Transitions.{terminal_stays}
use job_manager_quorum.Store.{
  Store, Contract, Puts, accepts, cancellable, cancel_job as cancelled_job,
}
use job_manager_quorum.Consensus.{
  CommandType, Command, add_job, update_job, delete_job, cancel_job, add_cron_job, delete_cron_job,
  unknown, apply_command,
}

-- The command does not delete the job.
abbrev pub Spares : ℕ → Command → Type 0
Spares id c = c.type ≡ delete_job → c.id ≢ id

abbrev pub AllSpare : ℕ → List Command → Type 0
AllSpare id [] = Unit
AllSpare id (c ∷ log) = Spares id c × AllSpare id log

module _ {S : Type 0} (st : Store S) where
  -- The job is stored, with this status.
  abbrev pub HasStatus : ℕ → Status → S → Type 0
  HasStatus id t s = (j : Job) × (st.get id s ≡ some j) × (j.status ≡ t)

  -- A node that applies the committed commands in their order.
  unfoldable pub replay : List Command → S → S
  replay [] s = s
  replay (c ∷ log) s = replay log (apply_command st c s).0

  module _ {IsConsistent : S → Type 0} (k : Contract st IsConsistent) where
    abbrev Stays : ℕ → Status → S → Type 0
    Stays id t s = IsConsistent s × HasStatus id t s

    Stays-of_Puts :
        (j : Job) (s s' : S) (id : ℕ) (t : Status)
        → Puts st j s s'
        → HasStatus id t s
        → (j.id ≡ id → j.status ≡ t)
        → HasStatus id t s'
    Stays-of_Puts j s s' id t put (i, e, f) same = elim (ℕ_discrete j.id id) [
      | yes p ↦ (j, put id ∙ if_pos (ℕ_discrete j.id id) p _ _, same p)
      | no n ↦ (i, put id ∙ if_neg (ℕ_discrete j.id id) n _ _ ∙ e, f)
    ]

    Stays-of_same : (s s' : S) (id : ℕ) (t : Status) → s' ≡ s → Stays id t s → Stays id t s'
    Stays-of_same s s' id t e = subst (Stays id t) (sym e)

    module _ (id : ℕ) (t : Status) (final : is_terminal t ≡ true) where
      add-Stays : (j : Job) (s : S) → Stays id t s → Stays id t (st.add j s).0
      add-Stays j s (v, (i, e, f)) = elim (Option-cases (st.get j.id s)) [
        | inl free ↦
            let (ok, put, v') = k.common.add-ok j s v tt free in
            (v', Stays-of_Puts j s (st.add j s).0 id t put (i, e, f) (λ p. ground (arith, e, free)))
        | inr (x, taken) ↦
            Stays-of_same s (st.add j s).0 id t (k.add-rejected j s v (rw taken refl)).0
              (v, (i, e, f))
      ]

      update-Stays : (j : Job) (s : S) → Stays id t s → Stays id t (st.update j s).0
      update-Stays j s (v, (i, e, f)) = elim (Bool-cases (accepts (st.get j.id s) j.status)) [
        | inl h ↦
            let (ok, put, v') = k.common.update-ok j s v tt h in
            (
              v',
              Stays-of_Puts j s (st.update j s).0 id t put (i, e, f)
                  (λ p.
                    let found : st.get j.id s ≡ some i = ap (λ n. st.get n s) p ∙ e in
                    terminal_stays t j.status final (ground (arith, found, h, f))),
            )
        | inr h ↦
            Stays-of_same s (st.update j s).0 id t (k.common.update-rejected j s v h).0
              (v, (i, e, f))
      ]

      cancel-Stays : (n : ℕ) (s : S) → Stays id t s → Stays id t (st.cancel n s).0
      cancel-Stays n s (v, (i, e, f)) = elim (Bool-cases (cancellable (st.get n s))) [
        | inl h ↦ elim (Option-cases (st.get n s)) [
          | inl none_there ↦ absurd (ground (arith, h, none_there))
          | inr (x, found) ↦
              let live : is_terminal x.status ≡ false = ground (arith, h, found) in
              let (ok, put, v') = k.common.cancel-ok s n x v tt found live in
              let at_n : x.id ≡ n = k.common.get-id s n x v found in
              (
                v',
                Stays-of_Puts (cancelled_job x) s (st.cancel n s).0 id t put (i, e, f)
                    (λ p. absurd (ground (arith, live, final, f, found, e, at_n, p))),
              )
        ]
        | inr h ↦
            Stays-of_same s (st.cancel n s).0 id t (k.common.cancel-rejected s n v h).0
              (v, (i, e, f))
      ]

      delete-Stays : (n : ℕ) (s : S) → n ≢ id → Stays id t s → Stays id t (st.delete n s).0
      delete-Stays n s other (v, (i, e, f)) =
          let (found, gone, v') = k.common.delete-ok s n v in
          (v', (i, gone id ∙ if_neg (ℕ_discrete n id) other _ _ ∙ e, f))

      run-Stays :
          (type : CommandType) (c : Command) (s : S)
          → (type ≡ delete_job → c.id ≢ id)
          → Stays id t s
          → Stays id t (apply_command st (record c { type = type }) s).0
      unfolding apply_command
      run-Stays add_job c s spares h = add-Stays c.job s h
      run-Stays update_job c s spares h = update-Stays c.job s h
      run-Stays delete_job c s spares h = delete-Stays c.id s (spares refl) h
      run-Stays cancel_job c s spares h = cancel-Stays c.id s h
      run-Stays add_cron_job c s spares (v, (i, e, f)) =
          let kept = k.common.add_cron-keeps c.cron s in (kept.1 v, (i, kept.0 id ∙ e, f))
      run-Stays delete_cron_job c s spares (v, (i, e, f)) =
          let kept = k.common.delete_cron-keeps c.cron_id s in (kept.1 v, (i, kept.0 id ∙ e, f))
      run-Stays (unknown name) c s spares h = h

    -- On a node whose store refuses to add a job under a stored id, as the in-memory store does and the
    -- bbolt store does not, and has no limits: whatever log is committed, a stored job in a final
    -- status keeps that status, unless a command of the log deletes it.
    pub replay-keeps_final :
        (log : List Command) (s : S) (id : ℕ) (t : Status)
        → IsConsistent s
        → HasStatus id t s
        → is_terminal t ≡ true
        → AllSpare id log
        → HasStatus id t (replay log s)
    unfolding replay
    replay-keeps_final [] s id t v has final spares = has
    replay-keeps_final (c ∷ log) s id t v has final (spare, spares) =
        let (v', has') = run-Stays id t final c.type c s spare (v, has) in
        replay-keeps_final log (apply_command st c s).0 id t v' has' final spares
