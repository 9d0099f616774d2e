-- ===== src/Consensus/Snapshot.antt =====
-- Snapshot and Restore of internal/consensus/fsm.go.
use job_manager_quorum.Common.{
  ℕ, Bool, values, ◌≡◌, refl, ap, ◌∙◌, inl, inr, Option, none, some, List, [], ◌∷◌, ite, ℕ_discrete,
  Option-cases, arith, lookup, ℕ-key, Distinct,
}
use job_manager_quorum.Job.{Job}
use job_manager_quorum.Job.ById.{first_with_id, first_with_id-values}
use job_manager_quorum.Store.{Store, Contract}
use job_manager_quorum.Store.Memory.{MemoryStore, memory_store, new_memory_store, list, get}
use job_manager_quorum.Store.Memory.Index.{IsConsistent}
use job_manager_quorum.Store.Memory.Contract.{memory_store-Contract, new_memory_store-IsConsistent}
use job_manager_quorum.Consensus.{restore_jobs, restore, snapshot, persist}

abbrev pub or_else : Option Job → Option Job → Option Job
or_else none o = o
or_else (some j) o = some j

module _ {S : Type 0} (st : Store S) {IsConsistent : S → Type 0}
    (k : Contract st IsConsistent) where
  -- What one Add of the loop does to the store.
  add_one :
      (j : Job) (s : S) (id : ℕ)
      → IsConsistent s
      → IsConsistent (st.add j s).0
        × (st.get id (st.add j s).0
            ≡ or_else (st.get id s) (ite (ℕ_discrete j.id id) (some j) none))
  add_one j s id v = elim (Option-cases (st.get j.id s)) [
    | inl free ↦
        let (ok, put, v') = k.common.add-ok j s v tt free in (v', ground (arith, put id, free))
    | inr (x, taken) ↦
        let same = (k.add-rejected j s v (rw taken refl)).0 in
        (rw same v, ap (st.get id) same ∙ ground (arith, taken))
  ]

  -- After the loop of Restore a job that was stored before it is unchanged, and any other id has the
  -- first job of the snapshot with that id: Restore merges the snapshot into the store, it does not
  -- reset it.
  pub restore_jobs-get :
      (js : List Job) (s : S) (id : ℕ)
      → IsConsistent s
      → st.get id (restore_jobs st js s) ≡ or_else (st.get id s) (first_with_id id js)
  unfolding restore_jobs first_with_id
  restore_jobs-get [] s id v = ground arith
  restore_jobs-get (j ∷ js) s id v =
      let (v', one) = add_one j s id v in
      restore_jobs-get js (st.add j s).0 id v' ∙ ground (arith, one)

persisted :
    {D : Type 0} (marshal : List Job → Option D) (write_ok : D → Bool) (close_ok : Bool)
    (js : List Job) (bytes : D)
    → persist marshal write_ok close_ok js ≡ some bytes
    → marshal js ≡ some bytes
unfolding persist
persisted marshal write_ok close_ok js bytes h = ground arith

-- For a JSON codec that reads back what it wrote: when Persist of a snapshot of the in-memory store
-- succeeds, Restore of its bytes into an empty store reports no error, and the new store has the same
-- job as the old one under every id.
pub restore-snapshot :
    {D : Type 0} (marshal : List Job → Option D) (decode : D → Option (List Job))
    (write_ok : D → Bool) (close_ok : Bool) (s : MemoryStore) (bytes : D)
    → ((js : List Job) (d : D) → marshal js ≡ some d → decode d ≡ some js)
    → IsConsistent s
    → Distinct s.jobs
    → persist marshal write_ok close_ok (snapshot memory_store s) ≡ some bytes
    → let (s', e) = restore memory_store decode bytes new_memory_store in
      (e ≡ none) × ((id : ℕ) → get id s' ≡ get id s)
unfolding restore snapshot list get lookup new_memory_store
restore-snapshot marshal decode write_ok close_ok s bytes codec v d saved =
    let read : decode bytes ≡ some (values s.jobs) =
      codec (values s.jobs) bytes
        (persisted marshal write_ok close_ok (values s.jobs) bytes saved) in
    rw (read, restore)
      (
        refl,
        λ id.
            restore_jobs-get memory_store memory_store-Contract (values s.jobs) new_memory_store id
              new_memory_store-IsConsistent
            ∙ ap (or_else none) (first_with_id-values s.jobs id d v.ids),
      )
