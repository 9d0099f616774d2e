-- ===== src/Job/Transitions.antt =====
-- What `IsValidTransition` of internal/job/job.go allows, over one update and over a history.
use job_manager_quorum.Common.{◌≡◌, refl, subst, true, arith}
use job_manager_quorum.Job.{Status, is_valid_transition, is_terminal}

-- A chain of allowed updates.
pub data Reaches (s : Status) : Status → Type 0 where
  here : Reaches s s
  next : {t u : Status} → Reaches s t → is_valid_transition t u ≡ true → Reaches s u

pub terminal_stays : (s t : Status) → is_terminal s ≡ true → is_valid_transition s t ≡ true → t ≡ s
unfolding is_terminal is_valid_transition
terminal_stays s t h v = ground arith

-- Once a job's status is COMPLETED, FAILED or CANCELLED, no chain of allowed transitions leads to
-- any other status.
pub terminal_is_final : {s t : Status} → is_terminal s ≡ true → Reaches s t → t ≡ s
terminal_is_final h here = refl
terminal_is_final {s} h (next {t} {u} r v) =
    let e = terminal_is_final h r in
    terminal_stays s u h (subst (λ x. is_valid_transition x u ≡ true) e v)
