-- ===== src/Store/Bolt/Listing.antt =====
-- ListByStatus of internal/store/bolt_store.go against the stored jobs.
use job_manager_quorum.Common.{
  ◌≡◌, ◌↔◌, refl, sym, ap, ◌∙◌, inl, inr, String, true, Option, some, List, [], ◌∷◌, In, arith,
  is_some, Option-cases,
}
use job_manager_quorum.Job.{Job, Status, pending, scheduled, completed, failed, cancelled, other}
use job_manager_quorum.Store.{is_known}
use job_manager_quorum.Store.Bbolt.{Bolt, Json, Bucket, jobs, key, collect}
use job_manager_quorum.Store.Bolt.{get, found_values, list_by_status, get_status_bucket}
use job_manager_quorum.Store.Bolt.Consistent.{Laws, IsConsistent, status_of-bucket}
use job_manager_quorum.Store.Bolt.Effects.{is_some-value}

-- The elements that a loop collects, where every value can be decoded.
pub collect_iff :
    {A V : Type 0} (unmarshal : V → Option A) (vs : List V) (a : A)
    → ((v : V) → In v vs → is_some (unmarshal v) ≡ true)
    → In a (collect unmarshal vs).0 ↔ ((v : V) × In v vs × (unmarshal v ≡ some a))
collect_iff unmarshal [] a good = (λ f. absurd f, λ p. p.1)
collect_iff unmarshal (v ∷ vs) a good =
    let ih = collect_iff unmarshal vs a (λ w m. good w (inr m)) in
    let (x, reads) = is_some-value (unmarshal v) (good v (inl refl)) in
    rw (reads, In)
      (
        λ f. elim f [
          | inl e ↦ (v, inl refl, reads ∙ ap some e)
          | inr m ↦ let (w, among, e) = ih.0 m in (w, inr among, e)
        ],
        λ p.
            let (w, among, e) = p in
            elim among [
              | inl same ↦ inl (ground (arith, reads, e, same))
              | inr m ↦ inr (ih.1 (w, m, e))
            ],
      )

has_bucket : (t : Status) → is_known t ≡ true → is_some (get_status_bucket t) ≡ true
unfolding get_status_bucket
has_bucket pending h = refl
has_bucket scheduled h = refl
has_bucket completed h = refl
has_bucket failed h = refl
has_bucket cancelled h = refl
has_bucket (other x) h = absurd (ground (arith, h))

module _ {D V : Type 0} (bolt : Bolt D V) (json : Json V) where
  pub found_values_iff :
      (d : D) (kvs : List (String × V)) (v : V)
      → In v (found_values bolt json d kvs)
        ↔ ((k : String) × (x : V) × In (k, x) kvs × (bolt.get jobs k d ≡ some v))
  unfolding found_values
  found_values_iff d [] v = (λ f. absurd f, λ p. p.2)
  found_values_iff d ((k, x) ∷ kvs) v =
      let ih = found_values_iff d kvs v in
      elim (Option-cases (bolt.get jobs k d)) [
        | inl missing ↦
            rw (missing, found_values)
              (
                λ m. let (l, y, among, e) = ih.0 m in (l, y, inr among, e),
                λ p.
                    let (l, y, among, e) = p in
                    elim among [
                      | inl same ↦
                          absurd (ground (arith, missing, e, ap (λ (q : String × V). q.0) same))
                      | inr m ↦ ih.1 (l, y, m, e)
                    ],
              )
        | inr (w, here) ↦
            rw (here, found_values)
              (
                λ m. elim m [
                  | inl same ↦ (k, x, inl refl, here ∙ ap some same)
                  | inr m ↦ let (l, y, among, e) = ih.0 m in (l, y, inr among, e)
                ],
                λ p.
                    let (l, y, among, e) = p in
                    elim among [
                      | inl same ↦ inl (ground (arith, here, e, ap (λ (q : String × V). q.0) same))
                      | inr m ↦ inr (ih.1 (l, y, m, e))
                    ],
              )
      ]

  module _ (laws : Laws bolt json) (d : D) (v : IsConsistent bolt json d) where
    known_bucket : (t : Status) → is_known t ≡ true → (b : Bucket) × (get_status_bucket t ≡ some b)
    unfolding get_status_bucket
    known_bucket t known = is_some-value (get_status_bucket t) (has_bucket t known)

    pub list_by_status_iff :
        (t : Status) (j : Job)
        → is_known t ≡ true
        → In j (list_by_status bolt json t d).0 ↔ ((get bolt json j.id d ≡ some j) × (j.status ≡ t))
    unfolding list_by_status get
    list_by_status_iff t j known =
        let (b, e) = known_bucket t known in
        let of = status_of-bucket t b e in
        let found = found_values bolt json d (bolt.for_each b d) in
        let among_iff = found_values_iff d (bolt.for_each b d) in
        let readable : (x : V) → In x found → is_some (json.unmarshal_job x) ≡ true = λ x m.
          let (k, y, among, here) = (among_iff x).0 m in
          let (i, reads, at) = v.keyed k x here in rw reads refl in
        let listed = collect_iff json.unmarshal_job found j readable in
        rw (e, list_by_status)
          (
            λ m.
                let (x, m', reads) = listed.0 m in
                let (k, y, among, here) = (among_iff x).0 m' in
                let in_bucket = (laws.for_each_iff b k y d).0 among in
                let (i, reads', at) = v.keyed k x here in
                let same : i ≡ j = ground (arith, reads, reads') in
                let at_j : key j.id ≡ k = ap (λ (i : Job). key i.id) (sym same) ∙ at in
                let here_j : bolt.get jobs (key j.id) d ≡ some x =
                  ap (λ k. bolt.get jobs k d) at_j ∙ here in
                (
                  ground (arith, here_j, reads),
                  ground (arith, in_bucket, v.index b t k of, here, reads),
                ),
            λ p. elim (Option-cases (bolt.get jobs (key j.id) d)) [
              | inl empty ↦ absurd (ground (arith, empty, p.0))
              | inr (x, here) ↦
                  let reads : json.unmarshal_job x ≡ some j = ground (arith, here, p.0) in
                  let (y, at) =
                    is_some-value (bolt.get b (key j.id) d)
                      (ground (arith, v.index b t (key j.id) of, here, reads, p.1)) in
                  let among = (laws.for_each_iff b (key j.id) y d).1 at in
                  listed.1 (x, (among_iff x).1 (key j.id, y, among, here), reads)
            ],
          )
