-- ===== src/Cron.antt =====
-- internal/cron/cron.go: the scheduler of recurring jobs. What package time makes of a time in its
-- location is a parameter.
pub mod Next
pub mod Tick
mod Tests
use Prim.Native.String.{compare}
use Prim.Native.Nat.{Ordering}
use job_manager_quorum.Common.{
  ℕ, zero, suc, ◌+◌, ◌-◌, ◌*◌, ◌/◌, ◌%◌, String, String-discrete, String-key, ℤ, pos, negsuc, ltℤ,
  Bool, true, false, Option, none, some, List, [], ◌∷◌, Map, lookup, insert, delete, ite, length,
  leb, ltb, ◌==◌, if◌then◌else◌, is_some, ◌≡◌, refl,
}
use job_manager_quorum.Common.Text.{trim_space}
use job_manager_quorum.Common.Numerals.{atoi, fields, after_star_slash}

pub record CronJob : Type 0 where
  pub id : String
  pub schedule : String
  pub kind : String  -- the field `Type`
  pub priority : ℤ
  pub next_run : ℕ

-- A minute in nanoseconds.
abbrev pub minute : ℕ
minute = 60000000000

-- The calls of package time on a time `t` in its location: `t.Minute()`, and `time.Date` of the date
-- and hour of `t` with another minute, or of its date and the hour after its own.
pub record Location : Type 0 where
  pub minute_of : ℕ → ℕ
  pub at_minute : ℕ → ℕ → ℕ
  pub next_hour : ℕ → ℕ

-- `t.Truncate(time.Minute)`
abbrev pub truncated : ℕ → ℕ
truncated t = t / minute * minute

-- The time of the next multiple of `interval` minutes in the hour, or of the next hour.
unfoldable pub next_multiple : Location → ℕ → ℕ → ℕ
next_multiple location interval from =
    let from_min = truncated from in
    let next_min = (location.minute_of from_min / interval + 1) * interval in
    if leb 60 next_min then location.next_hour from_min else location.at_minute from_min next_min

abbrev trim_prefix : String → String
unfolding after_star_slash
trim_prefix s = elim (after_star_slash s) [ none ↦ s | some rest ↦ rest ]

-- The interval that a schedule's first field gives.
unfoldable pub interval_of : List String → Option ℤ
unfolding after_star_slash atoi
interval_of [] = none
interval_of (field ∷ _) = atoi (trim_prefix field)

-- The zero time, 0, stands for a schedule that is not supported.
abbrev pub next_of_interval : Location → Option ℤ → ℕ → ℕ
next_of_interval location none from = 0
next_of_interval location (some (negsuc n)) from = 0
next_of_interval location (some (pos zero)) from = 0
next_of_interval location (some (pos (suc n))) from = next_multiple location (suc n) from

unfoldable pub next_run : Location → String → ℕ → ℕ
unfolding next_multiple interval_of after_star_slash fields trim_space String-discrete
next_run location schedule from =
    let s = trim_space schedule in
    ite (String-discrete s "* * * * *") ((from / minute + 1) * minute) (elim (after_star_slash s) [
      | none ↦ 0
      | some _ ↦
          if length (fields s) == 5
          then next_of_interval location (interval_of (fields s)) from
          else 0
    ])

-- A location of a fixed offset of whole minutes, of which those past full hours matter.
abbrev pub fixed_offset : ℕ → Location
fixed_offset offset =
    let minute_of : ℕ → ℕ = λ t. (t / minute + offset) % 60 in
    record {
      minute_of = minute_of;
      at_minute = λ t m. t + m * minute - minute_of t * minute;
      next_hour = λ t. t + 60 * minute - minute_of t * minute;
    }

every_five : next_run (fixed_offset 0) " */5 * * * * " (61 * minute + 7) ≡ 65 * minute
unfolding next_run
every_five = refl

pub data AddError : Type 0 where
  id_required type_required negative_priority unsupported_schedule id_exists : AddError

abbrev pub CronJobs : Type 0
CronJobs = Map String CronJob

unfoldable pub add : Location → ℕ → CronJob → CronJobs → CronJobs × Option AddError
unfolding next_run trim_space String-discrete
add location now j jobs =
    let next = next_run location j.schedule now in
    ite (String-discrete (trim_space j.id) "") (jobs, some id_required)
      (ite (String-discrete (trim_space j.kind) "") (jobs, some type_required)
        (if ltℤ j.priority (pos 0)
          then (jobs, some negative_priority)
          else if next == 0
          then (jobs, some unsupported_schedule)
          else if is_some (lookup j.id jobs)
          then (jobs, some id_exists)
          else (insert j.id (record j { next_run = next }) jobs, none)))

unfoldable pub remove : String → CronJobs → CronJobs
remove id jobs = delete id jobs

-- `strings.Compare` is positive.
abbrev is_after : CronJob → CronJob → Bool
is_after a b = elim (compare a.id b.id) [ Ordering.gt ↦ true | _ ↦ false ]

insert_sorted : CronJob → List CronJob → List CronJob
insert_sorted c [] = c ∷ []
insert_sorted c (d ∷ ds) = if is_after c d then d ∷ insert_sorted c ds else c ∷ d ∷ ds

-- The ids are different, so that any sorting gives the same list.
unfoldable pub list : CronJobs → List CronJob
unfolding insert_sorted
list [] = []
list ((id, c) ∷ jobs) = insert_sorted c (list jobs)

-- The loop of one tick: the jobs afterwards, and those that are due, with their next time.
unfoldable pub sweep : Location → ℕ → CronJobs → CronJobs × List CronJob
unfolding next_run
sweep location now [] = ([], [])
sweep location now ((id, c) ∷ jobs) =
    let (jobs', due) = sweep location now jobs in
    let moved = record c { next_run = next_run location c.schedule c.next_run } in
    if ltb now c.next_run then ((id, c) ∷ jobs', due) else ((id, moved) ∷ jobs', moved ∷ due)

-- The submissions of the due jobs, one after another; an error is only logged.
unfoldable pub submit_all {ℓ} :
    {S : Type ℓ} {E : Type 0} → (String → ℤ → S → S × Option E) → List CronJob → S → S
submit_all submit [] s = s
submit_all submit (c ∷ due) s = submit_all submit due (submit c.kind c.priority s).0

unfoldable pub tick {ℓ} :
    {S : Type ℓ} {E : Type 0}
    → Location
    → ℕ
    → (String → ℤ → S → S × Option E)
    → CronJobs × S
    → CronJobs × S
unfolding sweep submit_all
tick location now submit (jobs, s) =
    let (jobs', due) = sweep location now jobs in (jobs', submit_all submit due s)
