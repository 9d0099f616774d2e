-- ===== src/Store/Bolt/Tests.antt =====
-- A toy database: the entries that were written, the latest first, and a deletion as an entry without
-- a value.
use Prim.Native.String
use job_manager_quorum.Common.Numerals.{itoa}
use job_manager_quorum.Common.{
  ℕ, ◌≤◌, subst, ◌≡◌, refl, sym, ap, ◌∙◌, inl, inr, String, String-discrete, String-key, true,
  Option, none, some, List, [], ◌∷◌, In, ite, if_pos, ℕ_discrete, arith, Map, lookup, insert,
  delete as map_delete, lookup-insert, lookup-delete, Distinct, Distinct-insert, Distinct-delete,
}
use job_manager_quorum.Job.{Job, zero_job, pending, completed}
use job_manager_quorum.Cron.{CronJob}
use job_manager_quorum.Store.{ContractWithin}
use job_manager_quorum.Store.Bbolt.{Bolt, Json, Bucket, status_completed}
use job_manager_quorum.Store.Bolt.{get, add, list_by_status, bolt_store, get_status_bucket}
use job_manager_quorum.Store.Bolt.Consistent.{
  Laws, Fits, max_value_size, IsConsistent, Bucket-discrete,
}
use job_manager_quorum.Store.Bolt.Contract.{bolt_store-ContractWithin}
use job_manager_quorum.Store.Bolt.Duplicate.{add-duplicate}

data Value : Type 0 where
  text : String → Value
  job_value : Job → Value
  cron_value : CronJob → Value

record Entry : Type 0 where
  bucket : Bucket
  name : String
  value : Option Value

abbrev find : Bucket → String → List Entry → Option Value
find b k [] = none
find b k (e ∷ d) =
    ite (Bucket-discrete e.bucket b) (ite (String-discrete e.name k) e.value (find b k d))
      (find b k d)

abbrev entry_map : String → Option Value → Map String Value → Map String Value
entry_map k none m = map_delete k m
entry_map k (some v) m = insert k v m

abbrev bucket_map : Bucket → List Entry → Map String Value
bucket_map b [] = []
bucket_map b (e ∷ d) =
    let rest = bucket_map b d in
    ite (Bucket-discrete e.bucket b) (entry_map e.name e.value rest) rest

entry_map-lookup :
    (k : String) (o : Option Value) (m : Map String Value) (l : String)
    → lookup l (entry_map k o m) ≡ ite (String-discrete k l) o (lookup l m)
entry_map-lookup k none m l = lookup-delete l k m
entry_map-lookup k (some v) m l = lookup-insert l k v m

entry_map-Distinct :
    (k : String) (o : Option Value) (m : Map String Value) → Distinct m → Distinct (entry_map k o m)
entry_map-Distinct k none m h = Distinct-delete k m h
entry_map-Distinct k (some v) m h = Distinct-insert k v m h

lookup-bucket_map :
    (b : Bucket) (d : List Entry) (k : String) → lookup k (bucket_map b d) ≡ find b k d
unfolding lookup
lookup-bucket_map b [] k = refl
lookup-bucket_map b (e ∷ d) k =
    ground (arith, entry_map-lookup e.name e.value (bucket_map b d) k, lookup-bucket_map b d k)

Distinct-bucket_map : (b : Bucket) (d : List Entry) → Distinct (bucket_map b d)
Distinct-bucket_map b [] = tt
Distinct-bucket_map b (e ∷ d) =
    elim (Bucket-discrete e.bucket b)
      as (λ x. Distinct (ite x (entry_map e.name e.value (bucket_map b d)) (bucket_map b d))) [
        | yes here ↦ entry_map-Distinct e.name e.value (bucket_map b d) (Distinct-bucket_map b d)
        | no other ↦ Distinct-bucket_map b d
      ]

In-of_lookup : (m : Map String Value) (k : String) (v : Value) → lookup k m ≡ some v → In (k, v) m
unfolding lookup
In-of_lookup [] k v e = absurd (ground (arith, e))
In-of_lookup ((l, w) ∷ m) k v e = elim (String-discrete l k) [
  | yes p ↦ let same : w ≡ v = ground (arith, p, e) in inl (cc)
  | no q ↦ inr (In-of_lookup m k v (ground (arith, q, e)))
]

lookup-of_In :
    (m : Map String Value) (k : String) (v : Value) → Distinct m → In (k, v) m → lookup k m ≡ some v
unfolding lookup
lookup-of_In [] k v h f = absurd f
lookup-of_In ((l, w) ∷ m) k v (alone, h) f = elim f [
  | inl e ↦
      let p : l ≡ k = ap (λ (q : String × Value). q.0) e in
      let q : w ≡ v = ap (λ (q : String × Value). q.1) e in ground (arith, p, q)
  | inr f' ↦ ground (arith, alone, lookup-of_In m k v h f')
]

abbrev toy : Bolt (List Entry) Value
toy = record {
  get = find;
  put = λ b k v d. some (record { bucket = b; name = k; value = some v } ∷ d);
  delete = λ b k d. some (record { bucket = b; name = k; value = none } ∷ d);
  for_each = bucket_map;
}

abbrev as_job : Value → Option Job
as_job (job_value j) = some j
as_job _ = none

abbrev as_cron : Value → Option CronJob
as_cron (cron_value c) = some c
as_cron _ = none

abbrev as_text : Value → String
as_text (text t) = t
as_text _ = ""

abbrev toy_json : Json Value
toy_json = record {
  marshal_job = λ j. some (job_value j);
  unmarshal_job = as_job;
  marshal_cron = λ c. some (cron_value c);
  unmarshal_cron = as_cron;
  of_text = text;
  to_text = as_text;
}

abbrev find_in : Bucket → String → Option (List Entry) → Option Value
find_in b k none = none
find_in b k (some d) = find b k d

-- The size of a text is its length, and a structured value takes 100 bytes.
abbrev toy_size : Value → ℕ
toy_size (text t) = String.len t
toy_size _ = 100

abbrev size_in : Option Value → ℕ
size_in none = 0
size_in (some v) = toy_size v

toy-Laws : Laws toy toy_json
toy-Laws = record {
  key_size = String.len;
  value_size = toy_size;
  size-empty = refl;
  size-of_text = λ t. refl;
  put_ok = λ b k v d given short small. refl;
  delete_ok = λ b k d. refl;
  get-put = λ b k v d d' c l e. sym (ap (find_in c l) e);
  get-delete = λ b k d d' c l e. sym (ap (find_in c l) e);
  for_each_iff = λ b k v d. (
    λ m.
        sym (lookup-bucket_map b d k)
        ∙ lookup-of_In (bucket_map b d) k v (Distinct-bucket_map b d) m,
    λ e. In-of_lookup (bucket_map b d) k v (lookup-bucket_map b d k ∙ e),
  );
  reads_back = λ j v e. sym (ap (λ o. elim o [ none ↦ none | some v ↦ as_job v ]) e);
}

bolt_store-ContractWithin_example :
    ContractWithin
      (bolt_store toy toy_json true)
      (Fits toy toy_json toy-Laws)
      (IsConsistent toy toy_json)
bolt_store-ContractWithin_example = bolt_store-ContractWithin toy toy_json toy-Laws

abbrev waiting : Job
waiting = record zero_job { id = 1; status = pending }

abbrev done : Job
done = record zero_job { id = 1; status = completed }

done-Fits : Fits toy toy_json toy-Laws done
unfolding toy-Laws itoa
done-Fits = record {
  encodes = refl;
  id_fits = omega arith;
  key_fits = omega arith;
  value_fits = λ v e. subst (λ o. size_in o ≤ max_value_size) e (omega arith);
}

waiting-Fits : Fits toy toy_json toy-Laws waiting
unfolding toy-Laws itoa
waiting-Fits = record {
  encodes = refl;
  id_fits = omega arith;
  key_fits = omega arith;
  value_fits = λ v e. subst (λ o. size_in o ≤ max_value_size) e (omega arith);
}

abbrev holding : List Entry
holding = (add toy toy_json true done []).0

empty-IsConsistent : IsConsistent toy toy_json []
empty-IsConsistent = record {
  keyed = λ k v e. absurd (ground (arith, e));
  index = λ b t k of. refl;
}

holding-ok : (get toy toy_json 1 holding ≡ some done) × IsConsistent toy toy_json holding
unfolding get
holding-ok =
    let (ok, puts, v) =
      (bolt_store-ContractWithin toy toy_json toy-Laws).add-ok done [] empty-IsConsistent
        (done-Fits) refl in
    (puts 1 ∙ if_pos (ℕ_discrete 1 1) refl _ _, v)

bucket_of_done : get_status_bucket completed ≡ some status_completed
unfolding get_status_bucket
bucket_of_done = refl

-- A job that is completed is added as a pending one, and is listed as completed.
add-duplicate_example :
    let (d', err) = add toy toy_json true waiting holding in
    (err ≡ none)
    × (get toy toy_json 1 d' ≡ some waiting)
    × In waiting (list_by_status toy toy_json completed d').0
add-duplicate_example =
    add-duplicate toy toy_json toy-Laws waiting done status_completed holding holding-ok.1
      (waiting-Fits) holding-ok.0 bucket_of_done (λ e. cc e)
