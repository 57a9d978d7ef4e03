-- ===== src/Calendar/Planning.antt =====
-- Planning the next time of a task, and recording that it was posted.
use event_hub_cpp.Prelude.{
  ℕ, ℤ, pos, ◌-ℤ◌, leb_ℤ, if◌then◌else◌, Bool, true, false, ◌||◌, none, some,
}
use event_hub_cpp.TaskManager.Types.{find_index}
use event_hub_cpp.TaskManager.Cancel.{cancel}
use event_hub_cpp.Calendar.Types.{skip_missed, run_once_immediately, scheduled, missed}
use event_hub_cpp.Calendar.Detail.{Answer, next, provider_throws}
use event_hub_cpp.Calendar.Core.{Core, PlannedDue, set_state, emit}

-- The readings of the steady clock in schedule_one() and in the post_at() that it calls.
pub record Steady : Type 0 where
  pub now : ℤ
  pub later : ℤ

-- How a function that returns an optional plan ends.
pub data Planning : Type 0 where
  planning_throws nothing_planned : Planning
  plans : PlannedDue → Planning

abbrev pub ask : (p : ℕ) → (after observed : ℤ) → Core → Answer
ask p after observed core =
    (core.states p).next_time_provider (core.states p).options after observed

-- A plan from an answer: the tasks that are due are to run at once.
abbrev pub plan_answer : Answer → (observed_now : ℤ) → Planning
plan_answer provider_throws observed_now = planning_throws
plan_answer (next none) observed_now = nothing_planned
plan_answer (next (some time)) observed_now =
    plans (record { planned_utc_ms = time; immediate = leb_ℤ time observed_now })

-- What first_planned_due does with a time that was missed while the program did not run.
unfoldable pub plan_missed : (p : ℕ) → (time observed_now : ℤ) → Core → Core × Planning
unfolding emit
plan_missed p time observed_now core =
    let told = emit p missed time observed_now 0 (core.states p).run_count core in
    elim (core.states p).options.missed_policy [
      | run_once_immediately ↦ (told, plans (record { planned_utc_ms = time; immediate = true }))
      | skip_missed ↦ (told, plan_answer (ask p observed_now observed_now told) observed_now)
    ]

unfoldable pub plan_after_last : Answer → (p : ℕ) → (observed_now : ℤ) → Core → Core × Planning
unfolding plan_missed
plan_after_last provider_throws p observed_now core = (core, planning_throws)
plan_after_last (next none) p observed_now core = (core, nothing_planned)
plan_after_last (next (some time)) p observed_now core =
    if leb_ℤ time observed_now
    then plan_missed p time observed_now core
    else (core, plans (record { planned_utc_ms = time; immediate = false }))

unfoldable pub first_planned_due : (p : ℕ) → (observed_now : ℤ) → Core → Core × Planning
unfolding plan_after_last
first_planned_due p observed_now core = elim (core.states p).options.last_due_utc_ms [
  | none ↦ (core, plan_answer (ask p observed_now observed_now core) observed_now)
  | some last ↦ plan_after_last (ask p last observed_now core) p observed_now core
]

-- `tasks.find(id) == tasks.end()`.
abbrev pub is_missing : (id : ℕ) → Core → Bool
is_missing id core = elim (find_index id core.tasks) [ none ↦ true | some p ↦ false ]

unfoldable pub delay_ms : (planned observed_now : ℤ) → (immediate : Bool) → ℤ
delay_ms planned observed_now immediate =
    if immediate || leb_ℤ planned observed_now then pos 0 else planned -ℤ observed_now

-- The part of schedule_one under the lock, after the manager accepted the task.
unfoldable pub record_scheduled : (p task_id : ℕ) → (planned observed_now : ℤ) → Core → Core × Bool
unfolding set_state emit
record_scheduled p task_id planned observed_now core =
    let s = core.states p in
    if is_missing s.id core || (s.is_cancelled || core.closed)
    then (record core { manager = (cancel task_id core.manager).0 }, false)
    else let stored =
        set_state p (record s { scheduled_task_id = task_id; planned_utc_ms = planned }) core in
      (emit p scheduled planned observed_now task_id s.run_count stored, true)
