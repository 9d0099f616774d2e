-- ===== src/Broker/Topics.antt =====
-- What RegisterWorker of internal/broker/broker.go makes of a worker's topics.
use job_manager_quorum.Common.{
  ℕ, ◌≡◌, refl, ap, ◌∙◌, String, String-discrete, String-key, Bool, true, false, ◌||◌, some, List,
  [], ◌∷◌, ite, Map, lookup, insert, lookup-insert, is_some, ℕ-key, ℕ_discrete, if_pos, Bool-cases,
  inl, inr, arith, if◌then◌else◌,
}
use job_manager_quorum.Common.Text.{trim_space}
use job_manager_quorum.Broker.{
  Broker, TopicSet, is_wildcard, read_topics, is_empty, register_worker, flag, can_handle,
}

abbrev pub same : String → String → Bool
same s t = ite (String-discrete s t) true false

-- Some topic of the list is a wildcard or the job's type.
unfoldable pub names : List String → String → Bool
names [] job_type = false
names (t ∷ topics) job_type =
    (is_wildcard (trim_space t) || same (trim_space t) job_type) || names topics job_type

abbrev covers : TopicSet × Bool → String → Bool
covers r job_type = if r.1 then true else is_some (lookup job_type r.0)

found-insert :
    (t job_type : String) (set : TopicSet)
    → is_some (lookup job_type (insert t tt set))
      ≡ (same t job_type || is_some (lookup job_type set))
found-insert t job_type set =
    ap is_some (lookup-insert job_type t tt set)
    ∙ (elim (String-discrete t job_type)
        as (λ d.
          is_some (ite d (some tt) (lookup job_type set))
          ≡ (ite d true false || is_some (lookup job_type set))) [ yes e ↦ refl | no n ↦ refl ])

or_swap :
    (a b c d : Bool) → (if a then true else (b || c)) || d ≡ (if a then true else c) || (b || d)
or_swap a b c d = ground arith

covers-read_topics :
    (topics : List String) (set : TopicSet) (is_all : Bool) (job_type : String)
    → covers (read_topics topics set is_all) job_type
      ≡ (covers (set, is_all) job_type || names topics job_type)
unfolding read_topics names
covers-read_topics [] set is_all job_type = ground arith
covers-read_topics (t ∷ topics) set is_all job_type =
    elim (Bool-cases (is_wildcard (trim_space t))) [
      | inl wild ↦ rw (wild, read_topics, names) (ground arith)
      | inr named ↦
          rw (named, read_topics, names)
            (covers-read_topics topics (insert (trim_space t) tt set) is_all job_type
              ∙ ap (λ f. (if is_all then true else f) || names topics job_type)
                  (found-insert (trim_space t) job_type set)
              ∙ or_swap is_all (same (trim_space t) job_type) (is_some (lookup job_type set))
                  (names topics job_type))
    ]

found : {V : Type 0} (id : ℕ) (v : V) (m : Map ℕ V) → lookup id (insert id v m) ≡ some v
found id v m = lookup-insert id id v m ∙ if_pos (ℕ_discrete id id) refl _ _

none_yet : (is_all : Bool) (job_type : String) → covers ([], is_all) job_type ≡ is_all
unfolding lookup
none_yet true job_type = refl
none_yet false job_type = refl

-- A registered worker can handle exactly the jobs whose type one of its topics names, or all jobs where
-- it gives no topic or a wildcard; spaces around a topic do not count.
pub register_worker-handles :
    (id : ℕ) (topics : List String) (b : Broker) (job_type : String)
    → can_handle (register_worker id topics b) id job_type
      ≡ (is_empty topics || names topics job_type)
unfolding can_handle register_worker
register_worker-handles id topics b job_type =
    let r = read_topics topics [] (is_empty topics) in
    rw
      (
        found id r.1 b.worker_is_all,
        found id r.0 b.worker_topics,
        can_handle,
        register_worker,
        flag,
      )
      (covers-read_topics topics [] (is_empty topics) job_type
        ∙ ap (λ f. f || names topics job_type) (none_yet (is_empty topics) job_type))
