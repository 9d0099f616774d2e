-- ===== src/Store/Bolt/Duplicate.antt =====
-- Add of internal/store/bolt_store.go for an id that is stored, as Restore of
-- internal/consensus/fsm.go makes it after a restart.
use job_manager_quorum.Common.{
  ◌≡◌, ◌≢◌, refl, ◌∙◌, inr, String, String-discrete, true, none, some, In, ite, arith, is_some,
}
use job_manager_quorum.Job.{Job, Status}
use job_manager_quorum.Store.Bbolt.{Bolt, Json, Bucket, jobs, key}
use job_manager_quorum.Store.Bolt.{
  get, add, add_steps, list_by_status, get_status_bucket, found_values,
}
use job_manager_quorum.Store.Bolt.Consistent.{Laws, Fits, IsConsistent, status_of, status_of-bucket}
use job_manager_quorum.Store.Bolt.Effects.{
  is_some-value, put_job-ok, put_idempotency_key-ok, add_to_status_bucket-ok,
}
use job_manager_quorum.Store.Bolt.Listing.{collect_iff, found_values_iff}
use job_manager_quorum.Store.Bolt.Stored.{committed}

module _ {D V : Type 0} (bolt : Bolt D V) (json : Json V) (laws : Laws bolt json) where
  -- The database after the steps of Add: the job's entry, and the other statuses' buckets as before.
  added :
      (j : Job) (d : D)
      → Fits bolt json laws j
      → (d' : D) × (x : V) × (add_steps bolt json j d ≡ inr d')
        × (json.unmarshal_job x ≡ some j)
        × ((k : String)
            → bolt.get jobs k d' ≡ ite (String-discrete (key j.id) k) (some x) (bolt.get jobs k d))
        × ((b : Bucket) (t : Status) (k : String)
            → status_of b ≡ some t
            → j.status ≢ t
            → is_some (bolt.get b k d') ≡ is_some (bolt.get b k d))
  unfolding add_steps
  added j d fits =
      let (d1, x, put, reads, at1, index1) = put_job-ok bolt json laws j d fits in
      let (d2, noted, jobs2, index2) = put_idempotency_key-ok bolt json laws j d1 fits in
      let (d3, listed, jobs3, index3) =
        add_to_status_bucket-ok bolt json laws j.status j.id d2 fits.id_fits in
      (
        d3,
        x,
        rw (put, noted, listed) refl,
        reads,
        λ k. jobs3 k ∙ jobs2 k ∙ at1 k,
        λ b t k of other. ground (arith, index3 b t k of, index2 b t k of, index1 b t k of, other),
      )

  -- Where bbolt and encoding/json do what they promise, the commit succeeds, and the job's id, its
  -- idempotency key and its JSON keep bbolt's limits on keys and values: Add of a job whose id is stored with another status of the program reports no error and replaces the stored job, and
  -- ListByStatus of the old status then lists the new job, which has another one.
  pub add-duplicate :
      (j old : Job) (b : Bucket) (d : D)
      → IsConsistent bolt json d
      → Fits bolt json laws j
      → get bolt json j.id d ≡ some old
      → get_status_bucket old.status ≡ some b
      → j.status ≢ old.status
      → let (d', err) = add bolt json true j d in
        (err ≡ none)
        × (get bolt json j.id d' ≡ some j)
        × In j (list_by_status bolt json old.status d').0
  unfolding add get list_by_status
  add-duplicate j old b d v fits known bucket other =
      let (d', x, ran, reads, at_key, kept) = added j d fits in
      let of = status_of-bucket old.status b bucket in
      let here : bolt.get jobs (key j.id) d' ≡ some x = ground (arith, at_key (key j.id)) in
      let in_bucket : is_some (bolt.get b (key j.id) d) ≡ true =
        ground (arith, v.index b old.status (key j.id) of, known) in
      let (y, at) =
        is_some-value (bolt.get b (key j.id) d')
          (kept b old.status (key j.id) of other ∙ in_bucket) in
      let found = found_values bolt json d' (bolt.for_each b d') in
      let among_iff = found_values_iff bolt json d' (bolt.for_each b d') in
      let readable : (z : V) → In z found → is_some (json.unmarshal_job z) ≡ true = λ z m.
        let (k, w, among, stored) = (among_iff z).0 m in
        elim (String-discrete (key j.id) k) [
          | yes same ↦
              let is_x : z ≡ x = ground (arith, at_key k, same, stored) in rw (is_x, reads) refl
          | no apart ↦
              let (i, ok, at_k) = v.keyed k z (ground (arith, at_key k, apart, stored)) in
              rw ok refl
        ] in
      let among = (laws.for_each_iff b (key j.id) y d').1 at in
      let m = (among_iff x).1 (key j.id, y, among, here) in
      let listed = (collect_iff json.unmarshal_job found j readable).1 (x, m, reads) in
      rw (committed bolt json laws (add_steps bolt json j) d d' ran)
        (refl, ground (arith, here, reads), rw (bucket, list_by_status) listed)
