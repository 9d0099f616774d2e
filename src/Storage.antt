-- ===== src/Storage.antt =====
-- internal/storage/wal.go and snapshot.go: the write-ahead log and the snapshot file. A file is its
-- bytes; encoding/json and the outcomes of the system's calls are parameters.
pub mod Lines
pub mod Replay
pub mod Torn
mod Tests
use job_manager_quorum.Common.{
  ℕ, suc, ◌+◌, ◌-◌, String, String-discrete, Bool, true, false, Option, none, some, List, [], ◌∷◌,
  ◌++◌, ◌&&◌, Map, values, insert, delete, ℕ-key, length, ltb, ◌==◌, ite, if◌then◌else◌,
}
use job_manager_quorum.Common.Arrays.{take, drop}
use job_manager_quorum.Job.{Job}

abbrev pub Bytes : Type 0
Bytes = List ℕ

-- A Go string; `other` stands for every other text, the empty one of a missing field included.
pub data EventType : Type 0 where
  submit retry failure complete cancel : EventType
  other : String → EventType

-- The type `record`.
pub record LogRecord : Type 0 where
  pub kind : EventType
  pub job : Option Job
  pub job_id : ℕ

-- `appending` tells whether the file was opened with O_APPEND.
pub record Wal : Type 0 where
  pub content : Bytes
  pub offset : ℕ
  pub appending : Bool

-- Opening the file at the start, by its content.
unfoldable pub new_wal : Bytes → Wal
new_wal content = record { content = content; offset = 0; appending = true }

-- The bytes after a Write of `data`.
unfoldable pub write_bytes : Bytes → Wal → Wal
write_bytes bytes w =
    if w.appending
    then record w { content = w.content ++ bytes; offset = length w.content + length bytes }
    else record w {
      content = take w.offset w.content ++ (bytes ++ drop (w.offset + length bytes) w.content);
      offset = w.offset + length bytes;
    }

-- How a Write ends: with all bytes, or with an error after some.
pub data WriteEnd : Type 0 where
  written : WriteEnd
  torn : ℕ → WriteEnd

pub data WalError : Type 0 where
  marshal_failed write_failed sync_failed seek_failed line_too_long open_failed : WalError

module _ (marshal : LogRecord → Option Bytes) where
  unfoldable pub append_record : WriteEnd → Bool → LogRecord → Wal → Wal × Option WalError
  unfolding write_bytes
  append_record write_end sync_ok r w = elim (marshal r) [
    | none ↦ (w, some marshal_failed)
    | some bytes ↦ elim write_end [
      | written ↦ (write_bytes (bytes ++ 10 ∷ []) w, if sync_ok then none else some sync_failed)
      | torn n ↦ (write_bytes (take n (bytes ++ 10 ∷ [])) w, some write_failed)
    ]
  ]

  abbrev pub of_job : EventType → Job → LogRecord
  of_job kind j = record { kind = kind; job = some j; job_id = 0 }

  abbrev pub of_id : EventType → ℕ → LogRecord
  of_id kind id = record { kind = kind; job = none; job_id = id }

  module _ (write_end : WriteEnd) (sync_ok : Bool) where
    unfoldable pub append : Job → Wal → Wal × Option WalError
    append j = append_record write_end sync_ok (of_job submit j)

    unfoldable pub append_retry : Job → Wal → Wal × Option WalError
    append_retry j = append_record write_end sync_ok (of_job retry j)

    unfoldable pub append_failure : Job → Wal → Wal × Option WalError
    append_failure j = append_record write_end sync_ok (of_job failure j)

    unfoldable pub append_completion : ℕ → Wal → Wal × Option WalError
    append_completion id = append_record write_end sync_ok (of_id complete id)

    unfoldable pub append_cancel : ℕ → Wal → Wal × Option WalError
    append_cancel id = append_record write_end sync_ok (of_id cancel id)

-- The `switch` of Replay.
unfoldable pub apply_record : LogRecord → Map ℕ Job → Map ℕ Job
unfolding insert delete
apply_record r pending = elim r.kind [
  | submit ↦ elim r.job [ none ↦ pending | some j ↦ insert j.id j pending ]
  | retry ↦ elim r.job [ none ↦ pending | some j ↦ insert j.id j pending ]
  | failure ↦ elim r.job [ none ↦ pending | some j ↦ delete j.id pending ]
  | cancel ↦ delete r.job_id pending
  | complete ↦ delete r.job_id pending
  | other _ ↦ pending
]

-- `r.Kind != ""`
unfoldable pub has_kind : EventType → Bool
unfolding String-discrete
has_kind (other kind) = ite (String-discrete kind "") false true
has_kind _ = true

-- A line that holds no record may be a job of an older format.
abbrev pub legacy : Option Job → Map ℕ Job → Option (Map ℕ Job)
legacy none pending = none
legacy (some j) pending = some (insert j.id j pending)

-- The lines of bufio.Scanner, the last one without its end; `cur` is the current line so far.
unfoldable pub lines : Bytes → Bytes → List Bytes
lines cur [] = elim cur [ [] ↦ [] | c ∷ s ↦ (c ∷ s) ∷ [] ]
lines cur (c ∷ s) =
    let closed = cur ∷ lines [] s in
    let longer = lines (cur ++ c ∷ []) s in if c == 10 then closed else longer

-- A carriage return at a line's end is dropped.
unfoldable pub drop_cr : Bytes → Bytes
drop_cr [] = []
drop_cr (c ∷ []) = if c == 13 then [] else c ∷ []
drop_cr (c ∷ d ∷ s) = c ∷ drop_cr (d ∷ s)

module _ (unmarshal : Bytes → Option LogRecord) (unmarshal_job : Bytes → Option Job) where
  -- One line; none where the loop stops.
  unfoldable pub replay_line : Bytes → Map ℕ Job → Option (Map ℕ Job)
  unfolding apply_record has_kind
  replay_line line pending = elim (unmarshal line) [
    | none ↦ legacy (unmarshal_job line) pending
    | some r ↦
        if has_kind r.kind
        then some (apply_record r pending)
        else legacy (unmarshal_job line) pending
  ]

  -- The loop, with the jobs so far; the flag tells that a line did not fit into the scanner's buffer
  -- of bufio.MaxScanTokenSize bytes.
  unfoldable pub replay_lines : List Bytes → Map ℕ Job → Map ℕ Job × Bool
  unfolding replay_line drop_cr
  replay_lines [] pending = (pending, false)
  replay_lines (line ∷ rest) pending =
      if ltb (length line) 65536
      then elim (replay_line (drop_cr line) pending) [
        | none ↦ (pending, false)
        | some pending' ↦ replay_lines rest pending'
      ]
      else (pending, true)

  -- `position` is how far the scanner has read the file.
  unfoldable pub replay : Bool → ℕ → Wal → Wal × List Job × Option WalError
  unfolding replay_lines lines
  replay seek_ok position w =
      let (pending, too_long) = replay_lines (lines [] w.content) [] in
      let read = record w { offset = position } in
      if seek_ok
      then (if too_long then (read, [], some line_too_long) else (read, values pending, none))
      else (w, [], some seek_failed)

-- Reset opens the file anew, without O_APPEND. With `close_ok` false nothing is opened.
unfoldable pub reset : Bool → Bool → Wal → Wal × Option WalError
reset close_ok open_ok w =
    if close_ok && open_ok
    then (record { content = []; offset = 0; appending = false }, none)
    else (w, some open_failed)

-- snapshot.go; a file that does not exist is none. `left` is what a failed write leaves.
unfoldable pub save :
    (List Job → Option Bytes) → Bool → Option Bytes → List Job → Option Bytes → Option Bytes × Bool
save marshal write_ok left jobs file = elim (marshal jobs) [
  | none ↦ (file, false)
  | some bytes ↦ if write_ok then (some bytes, true) else (left, false)
]

unfoldable pub load : (Bytes → Option (List Job)) → Bool → Option Bytes → Option (List Job)
load unmarshal read_ok none = some []
load unmarshal read_ok (some bytes) = if read_ok then unmarshal bytes else none
