-- ===== src/Storage/Replay.antt =====
-- What Replay of internal/storage/wal.go recovers from the records that were appended.
use mathlib.Core.List.{append-nil, append_assoc}
use job_manager_quorum.Common.{
  ℕ, ◌<◌, ◌≡◌, refl, sym, ap, ◌∙◌, true, false, Option, none, some, List, [], ◌∷◌, ◌++◌, Map,
  values, lookup, insert, delete, lookup-insert, lookup-delete, ℕ-key, ite, ℕ_discrete, All, length,
  lt→ltb, arith, Distinct, Distinct-insert, Distinct-delete,
}
use job_manager_quorum.Job.{Job}
use job_manager_quorum.Job.ById.{first_with_id, first_with_id-values}
use job_manager_quorum.Storage.{
  Bytes, EventType, submit, retry, failure, complete, cancel, other, LogRecord, Wal, written,
  append_record, write_bytes, apply_record, has_kind, lines, drop_cr, replay_line, replay_lines,
  replay, new_wal,
}
use job_manager_quorum.Storage.Lines.{IsLine, lines-newline}

-- What a record says of a job: nothing, that it is pending, or that it is settled.
abbrev pub effect : ℕ → LogRecord → Option (Option Job)
effect id r = elim r.kind [
  | submit ↦ elim r.job [ none ↦ none | some j ↦ ite (ℕ_discrete j.id id) (some (some j)) none ]
  | retry ↦ elim r.job [ none ↦ none | some j ↦ ite (ℕ_discrete j.id id) (some (some j)) none ]
  | failure ↦ elim r.job [ none ↦ none | some j ↦ ite (ℕ_discrete j.id id) (some none) none ]
  | cancel ↦ ite (ℕ_discrete r.job_id id) (some none) none
  | complete ↦ ite (ℕ_discrete r.job_id id) (some none) none
  | other _ ↦ none
]

-- The last effect on a job, or else what was known of it before.
unfoldable pub latest : ℕ → List LogRecord → Option Job → Option Job
latest id [] before = before
latest id (r ∷ rs) before = latest id rs (elim (effect id r) [ none ↦ before | some o ↦ o ])

unfoldable pub apply_all : List LogRecord → Map ℕ Job → Map ℕ Job
apply_all [] m = m
apply_all (r ∷ rs) m = apply_all rs (apply_record r m)

lookup-apply :
    (kind : EventType) (o : Option Job) (n : ℕ) (m : Map ℕ Job) (id : ℕ)
    → let r : LogRecord = record { kind = kind; job = o; job_id = n } in
      lookup id (apply_record r m) ≡ elim (effect id r) [ none ↦ lookup id m | some e ↦ e ]
unfolding apply_record
lookup-apply submit none n m id = refl
lookup-apply submit (some j) n m id = ground (arith, lookup-insert id j.id j m)
lookup-apply retry none n m id = refl
lookup-apply retry (some j) n m id = ground (arith, lookup-insert id j.id j m)
lookup-apply failure none n m id = refl
lookup-apply failure (some j) n m id = ground (arith, lookup-delete id j.id m)
lookup-apply complete o n m id = ground (arith, lookup-delete id n m)
lookup-apply cancel o n m id = ground (arith, lookup-delete id n m)
lookup-apply (other kind) o n m id = refl

lookup-apply_record :
    (r : LogRecord) (m : Map ℕ Job) (id : ℕ)
    → lookup id (apply_record r m) ≡ elim (effect id r) [ none ↦ lookup id m | some o ↦ o ]
unfolding apply_record
lookup-apply_record r m id = lookup-apply r.kind r.job r.job_id m id

lookup-apply_all :
    (rs : List LogRecord) (m : Map ℕ Job) (id : ℕ)
    → lookup id (apply_all rs m) ≡ latest id rs (lookup id m)
unfolding apply_all latest
lookup-apply_all [] m id = refl
lookup-apply_all (r ∷ rs) m id =
    lookup-apply_all rs (apply_record r m) id ∙ ap (latest id rs) (lookup-apply_record r m id)

-- A map of pending jobs as Replay builds it: each job under its own id, once.
abbrev IsKeyed : Map ℕ Job → Type 0
IsKeyed m = Distinct m × ((id : ℕ) (j : Job) → lookup id m ≡ some j → j.id ≡ id)

IsKeyed-insert : (j : Job) (m : Map ℕ Job) → IsKeyed m → IsKeyed (insert j.id j m)
IsKeyed-insert j m (d, ids) =
    (Distinct-insert j.id j m d, λ id x e. ground (arith, lookup-insert id j.id j m, ids id x, e))

IsKeyed-delete : (n : ℕ) (m : Map ℕ Job) → IsKeyed m → IsKeyed (delete n m)
IsKeyed-delete n m (d, ids) =
    (Distinct-delete n m d, λ id x e. ground (arith, lookup-delete id n m, ids id x, e))

IsKeyed-apply :
    (kind : EventType) (o : Option Job) (n : ℕ) (m : Map ℕ Job)
    → IsKeyed m
    → IsKeyed (apply_record (record { kind = kind; job = o; job_id = n }) m)
unfolding apply_record
IsKeyed-apply submit none n m k = k
IsKeyed-apply submit (some j) n m k = IsKeyed-insert j m k
IsKeyed-apply retry none n m k = k
IsKeyed-apply retry (some j) n m k = IsKeyed-insert j m k
IsKeyed-apply failure none n m k = k
IsKeyed-apply failure (some j) n m k = IsKeyed-delete j.id m k
IsKeyed-apply complete o n m k = IsKeyed-delete n m k
IsKeyed-apply cancel o n m k = IsKeyed-delete n m k
IsKeyed-apply (other kind) o n m k = k

pub IsKeyed-apply_all : (rs : List LogRecord) (m : Map ℕ Job) → IsKeyed m → IsKeyed (apply_all rs m)
unfolding apply_all
IsKeyed-apply_all [] m k = k
IsKeyed-apply_all (r ∷ rs) m k =
    IsKeyed-apply_all rs (apply_record r m) (IsKeyed-apply r.kind r.job r.job_id m k)

-- The pending jobs after a run of records are those that the last effects leave.
pub apply_all-values :
    (rs : List LogRecord) (id : ℕ) → first_with_id id (values (apply_all rs [])) ≡ latest id rs none
unfolding lookup
apply_all-values rs id =
    let (d, ids) = IsKeyed-apply_all rs [] (tt, λ i j e. ground (arith, e)) in
    first_with_id-values (apply_all rs []) id d ids ∙ lookup-apply_all rs [] id

module _ (marshal : LogRecord → Option Bytes) where
  -- The record is written to the log as a line that fits into the scanner's buffer.
  pub record Fits (r : LogRecord) : Type 0 where
    pub line : Bytes
    pub marshalled : marshal r ≡ some line
    pub short : length line < 65536
    pub kind : has_kind r.kind ≡ true

  -- Appends that succeed, one after another.
  unfoldable pub append_all : List LogRecord → Wal → Wal
  append_all [] w = w
  append_all (r ∷ rs) w = append_all rs (append_record marshal written true r w).0

  abbrev pub text : List LogRecord → Bytes
  text [] = []
  text (r ∷ rs) = elim (marshal r) [ none ↦ text rs | some b ↦ b ++ 10 ∷ text rs ]

  pub text-cons :
      (r : LogRecord) (rs : List LogRecord) (f : Fits r) → text (r ∷ rs) ≡ f.line ++ 10 ∷ text rs
  text-cons r rs f = rw (f.marshalled, text) refl

  pub append_all-content :
      (rs : List LogRecord) (w : Wal)
      → w.appending ≡ true
      → All Fits rs
      → ((append_all rs w).content ≡ w.content ++ text rs) × ((append_all rs w).appending ≡ true)
  unfolding append_all append_record write_bytes
  append_all-content [] w a f = (sym (append-nil w.content), a)
  append_all-content (r ∷ rs) w a (f, fs) =
      let w1 = write_bytes (f.line ++ 10 ∷ []) w in
      let step : (append_record marshal written true r w).0 ≡ w1 =
        rw (f.marshalled, append_record) refl in
      let content : w1.content ≡ w.content ++ (f.line ++ 10 ∷ []) = rw (a, write_bytes) refl in
      let still : w1.appending ≡ true = rw (a, write_bytes) refl in
      let (rest, end) = append_all-content rs w1 still fs in
      (
        ap (λ v. (append_all rs v).content) step
            ∙ rest
            ∙ ap (λ c. c ++ text rs) content
            ∙ append_assoc w.content (f.line ++ 10 ∷ []) (text rs)
            ∙ ap (λ c. w.content ++ c) (append_assoc f.line (10 ∷ []) (text rs))
            ∙ ap (λ c. w.content ++ c) (sym (text-cons r rs f)),
        ap (λ v. (append_all rs v).appending) step ∙ end,
      )

  module _ (unmarshal : Bytes → Option LogRecord) (unmarshal_job : Bytes → Option Job) where
    -- encoding/json reads back what it wrote, and writes neither a newline nor a carriage return.
    abbrev pub IsCodec : Type 0
    IsCodec =
        (r : LogRecord) (b : Bytes)
        → marshal r ≡ some b
        → (unmarshal b ≡ some r) × IsLine b × (drop_cr b ≡ b)

    replay_lines-line :
        (r : LogRecord) (line : Bytes) (ls : List Bytes) (m : Map ℕ Job)
        → length line < 65536
        → drop_cr line ≡ line
        → unmarshal line ≡ some r
        → has_kind r.kind ≡ true
        → replay_lines unmarshal unmarshal_job (line ∷ ls) m
          ≡ replay_lines unmarshal unmarshal_job ls (apply_record r m)
    unfolding replay_lines replay_line
    replay_lines-line r line ls m short no_cr reads kind =
        rw (lt→ltb (length line) 65536 short, no_cr, replay_lines, reads, kind) refl

    pub replay_lines-text :
        (rs : List LogRecord) (rest : Bytes) (m : Map ℕ Job)
        → IsCodec
        → All Fits rs
        → replay_lines unmarshal unmarshal_job (lines [] (text rs ++ rest)) m
          ≡ replay_lines unmarshal unmarshal_job (lines [] rest) (apply_all rs m)
    unfolding apply_all replay_lines replay_line
    replay_lines-text [] rest m codec fs = refl
    replay_lines-text (r ∷ rs) rest m codec (f, fs) =
        let (reads, is_line, no_cr) = codec r f.line f.marshalled in
        let shape : lines [] (text (r ∷ rs) ++ rest) ≡ f.line ∷ lines [] (text rs ++ rest) =
          ap (λ c. lines [] (c ++ rest)) (text-cons r rs f)
          ∙ ap (lines []) (append_assoc f.line (10 ∷ text rs) rest)
          ∙ lines-newline f.line [] (text rs ++ rest) is_line in
        ap (λ l. replay_lines unmarshal unmarshal_job l m) shape
        ∙ replay_lines-line r f.line (lines [] (text rs ++ rest)) m f.short no_cr reads f.kind
        ∙ replay_lines-text rs rest (apply_record r m) codec fs

    -- After appends that succeed to a new log, for a JSON codec that reads back what it wrote on one
    -- line and records whose lines fit into the scanner's buffer: Replay reports no error, and for
    -- every id the jobs that it returns hold the one that a reference reading of the records gives,
    -- which is the job of the last submit or retry record unless a failure, a cancellation or a
    -- completion of the id follows it.
    pub replay-latest :
        (rs : List LogRecord) (position : ℕ)
        → IsCodec
        → All Fits rs
        → let w = append_all rs (new_wal []) in
          let (end, jobs, err) = replay unmarshal unmarshal_job true position w in
          (err ≡ none) × ((id : ℕ) → first_with_id id jobs ≡ latest id rs none)
    unfolding replay replay_lines new_wal
    replay-latest rs position codec fs =
        let w = append_all rs (new_wal []) in
        let wrote : w.content ≡ text rs = (append_all-content rs (new_wal []) refl fs).0 in
        let run : replay_lines unmarshal unmarshal_job (lines [] w.content) []
            ≡ (apply_all rs [], false) =
          ap (λ c. replay_lines unmarshal unmarshal_job (lines [] c) [])
            (wrote ∙ sym (append-nil (text rs)))
          ∙ replay_lines-text rs [] [] codec fs in
        rw run (refl, apply_all-values rs)
