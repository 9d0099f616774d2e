-- ===== src/Storage/Tests.antt =====
-- A small log, and what is read from it.
use job_manager_quorum.Common.{
  ℕ, String-discrete, ◌≡◌, refl, sym, ap, subst, true, Option, none, some, List, [], ◌∷◌, ◌==◌,
  ◌&&◌, ℕ_discrete, arith, if◌then◌else◌,
}
use job_manager_quorum.Job.{Job, zero_job, Status-discrete, pending}
use job_manager_quorum.Job.ById.{first_with_id}
use job_manager_quorum.Storage.{
  Bytes, LogRecord, submit, complete, of_job, of_id, replay, new_wal, torn, append_record, has_kind,
  drop_cr,
}
use job_manager_quorum.Storage.Lines.{IsLine}
use job_manager_quorum.Storage.Replay.{Fits, IsCodec, append_all, latest, replay-latest}
use job_manager_quorum.Storage.Torn.{replay-torn}

abbrev first_job : Job
first_job = record zero_job { id = 1; status = pending }

abbrev added : LogRecord
added = of_job (λ r. none) submit first_job

abbrev settled : LogRecord
settled = of_id (λ r. none) complete 1

LogRecord-discrete : Discrete LogRecord
LogRecord-discrete = hlevel (ℕ_discrete, String-discrete, Status-discrete)

-- A codec of the two records.
abbrev encode : {P Q : Type 0} → Dec P → Dec Q → Option Bytes
encode (yes _) _ = some (65 ∷ [])
encode (no _) (yes _) = some (66 ∷ 67 ∷ [])
encode (no _) (no _) = none

abbrev marshal : LogRecord → Option Bytes
marshal r = encode (LogRecord-discrete r added) (LogRecord-discrete r settled)

abbrev unmarshal : Bytes → Option LogRecord
unmarshal [] = none
unmarshal (c ∷ []) = if c == 65 then some added else none
unmarshal (c ∷ d ∷ s) = if c == 66 && d == 67 then some settled else none

abbrev no_job : Bytes → Option Job
no_job bytes = none

abbrev IsRead : LogRecord → Bytes → Type 0
IsRead r line = (unmarshal line ≡ some r) × IsLine line × (drop_cr line ≡ line)

encode-IsRead :
    (r : LogRecord) (line : Bytes) (d : Dec (r ≡ added)) (e : Dec (r ≡ settled))
    → encode d e ≡ some line
    → IsRead r line
unfolding drop_cr
encode-IsRead r line (yes p) e h =
    let same : 65 ∷ [] ≡ line = cc in subst (IsRead r) same (ap some (sym p), (refl, tt), refl)
encode-IsRead r line (no q) (yes p) h =
    let same : 66 ∷ 67 ∷ [] ≡ line = cc in
    subst (IsRead r) same (ap some (sym p), (refl, (refl, tt)), refl)
encode-IsRead r line (no q) (no q') h = absurd cc

codec : IsCodec marshal unmarshal no_job
codec r line h = encode-IsRead r line (LogRecord-discrete r added) (LogRecord-discrete r settled) h

encode-added : (d : Dec (added ≡ added)) (e : Dec (added ≡ settled)) → encode d e ≡ some (65 ∷ [])
encode-added (yes p) e = refl
encode-added (no q) e = absurd (q refl)

encode-settled :
    (d : Dec (settled ≡ added)) (e : Dec (settled ≡ settled)) → encode d e ≡ some (66 ∷ 67 ∷ [])
encode-settled (yes p) e = absurd (ground (arith, ap (λ r. r.kind) p))
encode-settled (no q) (yes p) = refl
encode-settled (no q) (no q') = absurd (q' refl)

fits_added : Fits marshal added
unfolding has_kind
fits_added = record {
  line = 65 ∷ [];
  marshalled = encode-added (LogRecord-discrete added added) (LogRecord-discrete added settled);
  short = omega arith;
  kind = refl;
}

settled_line : marshal settled ≡ some (66 ∷ 67 ∷ [])
settled_line =
    encode-settled (LogRecord-discrete settled added) (LogRecord-discrete settled settled)

fits_settled : Fits marshal settled
unfolding has_kind
fits_settled = record {
  line = 66 ∷ 67 ∷ [];
  marshalled = settled_line;
  short = omega arith;
  kind = refl;
}

abbrev records : List LogRecord
records = added ∷ settled ∷ added ∷ []

replay-latest_example :
    let w = append_all marshal records (new_wal []) in
    let (end, jobs, err) = replay unmarshal no_job true 0 w in
    (err ≡ none) × ((id : ℕ) → first_with_id id jobs ≡ latest id records none)
replay-latest_example =
    replay-latest marshal unmarshal no_job records 0 codec
      (fits_added, (fits_settled, (fits_added, tt)))

-- The job is settled after a torn write, and Replay still returns it.
replay-torn_example :
    let w0 = append_all marshal (added ∷ []) (new_wal []) in
    let w1 = (append_record marshal (torn 1) true settled w0).0 in
    let w = append_all marshal (settled ∷ []) w1 in
    let (end, jobs, err) = replay unmarshal no_job true 0 w in
    (err ≡ none) × ((id : ℕ) → first_with_id id jobs ≡ latest id (added ∷ []) none)
unfolding drop_cr fits_settled
replay-torn_example =
    replay-torn marshal unmarshal no_job (added ∷ []) [] settled settled (66 ∷ 67 ∷ []) 1 0 codec
      (fits_added, tt) tt fits_settled settled_line (omega arith) (omega arith) refl refl
