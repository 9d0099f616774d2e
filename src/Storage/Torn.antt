-- ===== src/Storage/Torn.antt =====
-- What Replay of internal/storage/wal.go recovers when a write was cut short and the log went on.
use mathlib.Core.List.{append_assoc}
use job_manager_quorum.Common.{
  ℕ, zero, suc, ◌≤◌, ◌<◌, ◌≡◌, refl, sym, ap, ◌∙◌, true, false, Option, none, some, List, [], ◌∷◌,
  ◌++◌, All, length, lt→ltb, arith, Map,
}
use job_manager_quorum.Common.Arrays.{take}
use job_manager_quorum.Job.{Job}
use job_manager_quorum.Job.ById.{first_with_id}
use job_manager_quorum.Storage.{
  Bytes, LogRecord, torn, append_record, write_bytes, lines, drop_cr, replay_line, replay_lines,
  replay, new_wal,
}
use job_manager_quorum.Storage.Lines.{IsLine, lines-newline}
use job_manager_quorum.Storage.Replay.{
  Fits, IsCodec, append_all, append_all-content, text, text-cons, replay_lines-text, apply_all,
  apply_all-values, latest,
}

take-inside : (n : ℕ) (xs ys : Bytes) → n ≤ length xs → take n (xs ++ ys) ≡ take n xs
take-inside zero xs ys h = refl
take-inside (suc n) [] ys h = ground arith
take-inside (suc n) (x ∷ xs) ys h = ap (λ l. x ∷ l) (take-inside n xs ys (omega arith))

IsLine-take : (n : ℕ) (xs ys : Bytes) → IsLine xs → IsLine ys → IsLine (take n xs ++ ys)
IsLine-take zero xs ys h g = g
IsLine-take (suc n) [] ys h g = g
IsLine-take (suc n) (x ∷ xs) ys (h, hs) g = (h, IsLine-take n xs ys hs g)

module _ (marshal : LogRecord → Option Bytes) (unmarshal : Bytes → Option LogRecord)
    (unmarshal_job : Bytes → Option Job) where
  torn-content :
      (rs : List LogRecord) (r : LogRecord) (line : Bytes) (n : ℕ)
      → All (Fits marshal) rs
      → marshal r ≡ some line
      → n ≤ length line
      → let w = (append_record marshal (torn n) true r (append_all marshal rs (new_wal []))).0 in
        (w.content ≡ text marshal rs ++ take n line) × (w.appending ≡ true)
  unfolding append_record write_bytes new_wal
  torn-content rs r line n fs m h =
      let (wrote, still) = append_all-content marshal rs (new_wal []) refl fs in
      rw (append_record, m, still)
        (
          ap (λ c. c ++ take n (line ++ 10 ∷ [])) wrote
              ∙ ap (λ c. text marshal rs ++ c) (take-inside n line (10 ∷ []) h),
          refl,
        )

  replay_lines-stops :
      (line : Bytes) (ls : List Bytes) (m : Map ℕ Job)
      → length line < 65536
      → unmarshal (drop_cr line) ≡ none
      → unmarshal_job (drop_cr line) ≡ none
      → replay_lines unmarshal unmarshal_job (line ∷ ls) m ≡ (m, false)
  unfolding replay_lines replay_line
  replay_lines-stops line ls m short bad bad_job =
      rw (lt→ltb (length line) 65536 short, bad, bad_job) refl

  -- Records `rs` are appended to a new log, then the write of a record stops after `n` bytes of its
  -- line, and then the records `next` and `more` are appended without an error. The codec reads back
  -- what it wrote on one line, and the lines fit into the scanner's buffer. If the torn bytes with
  -- the line of `next` behind them read neither as a record nor as a job, Replay reports no error
  -- and returns for every id what `rs` alone leaves: `next` and `more` are lost.
  pub replay-torn :
      (rs more : List LogRecord) (r next : LogRecord) (line : Bytes) (n position : ℕ)
      → IsCodec marshal unmarshal unmarshal_job
      → All (Fits marshal) rs
      → All (Fits marshal) more
      → (f : Fits marshal next) → marshal r ≡ some line
      → n ≤ length line
      → let joined = take n line ++ f.line in
        length joined < 65536
        → unmarshal (drop_cr joined) ≡ none
        → unmarshal_job (drop_cr joined) ≡ none
        → let w0 = append_all marshal rs (new_wal []) in
          let w1 = (append_record marshal (torn n) true r w0).0 in
          let w = append_all marshal (next ∷ more) w1 in
          let (end, jobs, err) = replay unmarshal unmarshal_job true position w in
          (err ≡ none) × ((id : ℕ) → first_with_id id jobs ≡ latest id rs none)
  unfolding replay replay_lines
  replay-torn rs more r next line n position codec fs gs f m h short bad bad_job =
      let joined = take n line ++ f.line in
      let w1 = (append_record marshal (torn n) true r (append_all marshal rs (new_wal []))).0 in
      let (before, still) = torn-content rs r line n fs m h in
      let w = append_all marshal (next ∷ more) w1 in
      let rest = take n line ++ text marshal (next ∷ more) in
      let wrote : w.content ≡ text marshal rs ++ rest =
        (append_all-content marshal (next ∷ more) w1 still (f, gs)).0
        ∙ ap (λ c. c ++ text marshal (next ∷ more)) before
        ∙ append_assoc (text marshal rs) (take n line) (text marshal (next ∷ more)) in
      let is_line =
        IsLine-take n line f.line (codec r line m).1 (codec next f.line f.marshalled).1 in
      let shape : lines [] rest ≡ joined ∷ lines [] (text marshal more) =
        ap (λ c. lines [] (take n line ++ c)) (text-cons marshal next more f)
        ∙ ap (lines []) (sym (append_assoc (take n line) f.line (10 ∷ text marshal more)))
        ∙ lines-newline joined [] (text marshal more) is_line in
      let run : replay_lines unmarshal unmarshal_job (lines [] w.content) []
          ≡ (apply_all rs [], false) =
        ap (λ c. replay_lines unmarshal unmarshal_job (lines [] c) []) wrote
        ∙ replay_lines-text marshal unmarshal unmarshal_job rs rest [] codec fs
        ∙ ap (λ l. replay_lines unmarshal unmarshal_job l (apply_all rs [])) shape
        ∙ replay_lines-stops joined (lines [] (text marshal more)) (apply_all rs []) short bad
            bad_job in
      rw run (refl, apply_all-values rs)
