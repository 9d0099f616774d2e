-- ===== src/Cron/Tick.antt =====
-- Which recurring jobs a tick of internal/cron/cron.go submits.
use job_manager_quorum.Common.{
  ℕ, ◌≤◌, ◌≡◌, ◌≢◌, ◌↔◌, refl, sym, subst, ap, ◌∙◌, ◌⊎◌, inl, inr, String, String-discrete,
  String-key, true, false, Option, none, some, [], ◌∷◌, lookup, Distinct, In, if_pos, if_neg, ltb,
  arith, Bool-cases, if◌then◌else◌,
}
use job_manager_quorum.Cron.{Location, CronJob, CronJobs, next_run, sweep}

-- The job with the run that follows its next one.
abbrev pub advanced : Location → CronJob → CronJob
advanced location c = record c { next_run = next_run location c.schedule c.next_run }

-- An entry after a tick.
abbrev pub ticked : Location → ℕ → Option CronJob → Option CronJob
ticked location now none = none
ticked location now (some c) = some (if ltb now c.next_run then c else advanced location c)

-- A stored job whose next run has come, as it is after it.
abbrev pub IsDue : Location → ℕ → CronJobs → CronJob → Type 0
IsDue location now jobs d =
    (k : String) × (c : CronJob) × (lookup k jobs ≡ some c)
    × (c.next_run ≤ now)
    × (advanced location c ≡ d)

module _ (location : Location) (now : ℕ) where
  sweep-ticked :
      (jobs : CronJobs) (k : String)
      → lookup k (sweep location now jobs).0 ≡ ticked location now (lookup k jobs)
  unfolding sweep lookup
  sweep-ticked [] k = refl
  sweep-ticked ((id, c) ∷ jobs) k = elim (Bool-cases (ltb now c.next_run)) [
    | inl early ↦ rw (early, sweep) (ground (arith, sweep-ticked jobs k, early))
    | inr due ↦ rw (due, sweep) (ground (arith, sweep-ticked jobs k, due))
  ]

  IsDue-cons :
      (id : String) (c d : CronJob) (jobs : CronJobs)
      → lookup id jobs ≡ none
      → IsDue location now jobs d
      → IsDue location now ((id, c) ∷ jobs) d
  unfolding lookup
  IsDue-cons id c d jobs alone (k, x, found, come, e) = (
    k,
    x,
    elim (String-discrete id k) [
      | yes p ↦ absurd (ground (arith, p, alone, found))
      | no n ↦ if_neg (String-discrete id k) n _ _ ∙ found
    ],
    come,
    e,
  )

  due_of_early :
      (id : String) (c : CronJob) (jobs : CronJobs)
      → ltb now c.next_run ≡ true
      → (sweep location now ((id, c) ∷ jobs)).1 ≡ (sweep location now jobs).1
  unfolding sweep
  due_of_early id c jobs early = rw (early, sweep) refl

  due_of_late :
      (id : String) (c : CronJob) (jobs : CronJobs)
      → ltb now c.next_run ≡ false
      → (sweep location now ((id, c) ∷ jobs)).1 ≡ advanced location c ∷ (sweep location now jobs).1
  unfolding sweep
  due_of_late id c jobs late = rw (late, sweep) refl

  sweep-IsDue :
      (jobs : CronJobs) (d : CronJob)
      → Distinct jobs
      → In d (sweep location now jobs).1
      → IsDue location now jobs d
  unfolding sweep lookup
  sweep-IsDue [] d u h = absurd h
  sweep-IsDue ((id, c) ∷ jobs) d (alone, u) h = elim (Bool-cases (ltb now c.next_run)) [
    | inl early ↦
        IsDue-cons id c d jobs alone
          (sweep-IsDue jobs d u (subst (In d) (due_of_early id c jobs early) h))
    | inr late ↦
        let h' : (advanced location c ≡ d) ⊎ In d (sweep location now jobs).1 =
          subst (In d) (due_of_late id c jobs late) h in
        elim h' [
          | inl e ↦ (id, c, if_pos (String-discrete id id) refl _ _, ground arith, e)
          | inr rest ↦ IsDue-cons id c d jobs alone (sweep-IsDue jobs d u rest)
        ]
  ]

  sweep-In :
      (jobs : CronJobs) (d : CronJob) → IsDue location now jobs d → In d (sweep location now jobs).1
  unfolding sweep lookup
  sweep-In [] d (k, c, found, come, e) = cc found
  sweep-In ((id, c) ∷ jobs) d (k, x, found, come, e) =
      let rest : id ≢ k → In d (sweep location now jobs).1 =
        λ n. sweep-In jobs d (k, x, sym (if_neg (String-discrete id k) n _ _) ∙ found, come, e) in
      elim (String-discrete id k) [
        | yes p ↦
            let entry : some c ≡ some x = sym (if_pos (String-discrete id k) p _ _) ∙ found in
            let same : c ≡ x = cc entry in
            let late : ltb now c.next_run ≡ false = ground (arith, same, come) in
            subst (In d) (sym (due_of_late id c jobs late)) (inl (ap (advanced location) same ∙ e))
        | no n ↦ elim (Bool-cases (ltb now c.next_run)) [
          | inl early ↦ subst (In d) (sym (due_of_early id c jobs early)) (rest n)
          | inr late ↦ subst (In d) (sym (due_of_late id c jobs late)) (inr (rest n))
        ]
      ]

  -- A tick moves every job whose next run has come to the run after it and leaves the others as they
  -- are; where each job has one entry, what it submits are exactly the jobs that it moved.
  pub sweep-fires :
      (jobs : CronJobs)
      → Distinct jobs
      → ((k : String) → lookup k (sweep location now jobs).0 ≡ ticked location now (lookup k jobs))
        × ((d : CronJob) → In d (sweep location now jobs).1 ↔ IsDue location now jobs d)
  sweep-fires jobs u = (sweep-ticked jobs, λ d. (sweep-IsDue jobs d u, sweep-In jobs d))
