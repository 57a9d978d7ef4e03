-- ===== src/Calendar/Rescheduling.antt =====
-- Planning, scheduling and running keep the map of the active tasks well formed.
use event_hub_cpp.Prelude.{
  ℕ, suc, ◌==◌, ◌<◌, ◌≡◌, refl, inl, inr, ℤ, pos, ◌+ℤ◌, ◌*ℤ◌, leb_ℤ, Bool, true, false, none, some,
  List, All, All-mono, Option-cases, ne→==, ==_self, if_ind, arith, ◌||◌,
}
use event_hub_cpp.TaskManager.Submit.{post_at}
use event_hub_cpp.Task.{Task, with_context}
use event_hub_cpp.TaskManager.Types.{find_index, emplace_index}
use event_hub_cpp.Calendar.Types.{
  CalendarTaskOptions, CalendarMissedRunPolicy, skip_missed, run_once_immediately, created, missed,
  scheduled,
}
use event_hub_cpp.Calendar.Detail.{
  Reading, Answer, next, provider_throws, RuleProvider, safe_now_utc_ms,
}
use event_hub_cpp.Calendar.Core.{State, Core, next_calendar_id, emit}
use event_hub_cpp.Calendar.Planning.{
  Steady, Planning, planning_throws, nothing_planned, plans, ask, plan_answer, plan_missed,
  plan_after_last, first_planned_due, is_missing, delay_ms, record_scheduled,
}
use event_hub_cpp.Calendar.Schedule.{
  schedule_one, register_state, schedule_plan, add_rule, reschedule,
}
use event_hub_cpp.Calendar.Registry.{
  IsEntry, Step, Step-refl, Step-trans, Step-manager, Step-emit, flag_cases,
}
use event_hub_cpp.Calendar.Cancelled.{Step-cancel_on_core}
use event_hub_cpp.Calendar.Registered.{Step-set_state, Step-mark_completed}

Step-plan_missed :
    (p : ℕ) (time observed_now : ℤ) (core : Core)
    → Step core (plan_missed p time observed_now core).0
unfolding plan_missed
Step-plan_missed p time observed_now core = by_policy (core.states p).options.missed_policy
  where
    told : Core
    told = emit p missed time observed_now 0 (core.states p).run_count core

    by_policy :
        (policy : CalendarMissedRunPolicy)
        → Step core
            (elim policy as (λ x. Core × Planning) [
              | run_once_immediately ↦
                  (told, plans (record { planned_utc_ms = time; immediate = true }))
              | skip_missed ↦
                  (told, plan_answer (ask p observed_now observed_now told) observed_now)
            ]).0
    by_policy run_once_immediately =
        Step-emit p missed time observed_now 0 (core.states p).run_count core
    by_policy skip_missed = Step-emit p missed time observed_now 0 (core.states p).run_count core

Step-plan_after_last :
    (answer : Answer) (p : ℕ) (observed_now : ℤ) (core : Core)
    → Step core (plan_after_last answer p observed_now core).0
unfolding plan_after_last
Step-plan_after_last provider_throws p observed_now core = Step-refl core
Step-plan_after_last (next none) p observed_now core = Step-refl core
Step-plan_after_last (next (some time)) p observed_now core =
    if_ind (λ (y : Core × Planning). Step core y.0) (leb_ℤ time observed_now)
      (λ t. Step-plan_missed p time observed_now core) (λ t. Step-refl core)

Step-first_planned_due :
    (p : ℕ) (observed_now : ℤ) (core : Core) → Step core (first_planned_due p observed_now core).0
unfolding first_planned_due
Step-first_planned_due p observed_now core =
    elim (Option-cases (core.states p).options.last_due_utc_ms) [
      | inl e ↦ rw (e, first_planned_due) (Step-refl core)
      | inr (last, e) ↦
          rw (e, first_planned_due)
            (Step-plan_after_last (ask p last observed_now core) p observed_now core)
    ]

Step-record_scheduled :
    (p task_id : ℕ) (planned observed_now : ℤ) (core : Core)
    → Step core (record_scheduled p task_id planned observed_now core).0
unfolding record_scheduled
Step-record_scheduled p task_id planned observed_now core =
    let s = core.states p in
    if_ind (λ (y : Core × Bool). Step core y.0)
      (is_missing s.id core || (s.is_cancelled || core.closed)) (λ t. Step-manager _ core)
      (λ t.
        Step-trans
          (Step-set_state p (record s { scheduled_task_id = task_id; planned_utc_ms = planned })
            core refl refl)
          (Step-emit p scheduled planned observed_now task_id s.run_count _))

ne_made : (allocated p : ℕ) → p < allocated → (allocated == p) ≡ false
ne_made allocated p h = ne→== allocated p (λ e. omega (arith, h, e))

module _ (ticks_per_ms : ℕ) where
  pub Step-schedule_one :
      (steady : Steady) (p : ℕ) (planned observed_now : ℤ) (immediate : Bool) (core : Core)
      → Step core (schedule_one ticks_per_ms steady p planned observed_now immediate core).0
  unfolding schedule_one
  Step-schedule_one steady p planned observed_now immediate core =
      let steady_due = steady.now +ℤ delay_ms planned observed_now immediate *ℤ ticks_per_ms in
      let (manager, task_id) =
        post_at steady.later steady_due (some (with_context p))
          (record { priority = (core.states p).options.priority }) core.manager in
      let posted = Step-manager manager core in
      if_ind (λ (y : Core × Bool). Step core y.0) (task_id == 0) (λ t. posted)
        (λ t. Step-trans posted (
          Step-record_scheduled p task_id planned observed_now (record core { manager = manager })))

  Step-register_state :
      (provider : RuleProvider) (callback : Task) (options : CalendarTaskOptions) (core : Core)
      → Step core (register_state ticks_per_ms provider callback options core).1
  unfolding register_state emplace_index
  Step-register_state provider callback options core = record {
    later = record {
      grows = omega arith;
      same_id = λ p h. rw (ne_made core.allocated p h) refl;
      stays_cancelled =
          λ p h. rw (ne_made core.allocated p h) (flag_cases (core.states p).is_cancelled);
      stays_closed = flag_cases core.closed;
    };
    registered = λ h. in_tasks (older core.tasks h);
  }
    where
      id : ℕ
      id = (next_calendar_id core.next_id).0

      states : ℕ → State
      states = (register_state ticks_per_ms provider callback options core).1.states

      older :
          (items : List (ℕ × ℕ))
          → All (IsEntry core.allocated core.states) items
          → All (IsEntry (suc core.allocated) states) items
      older =
          All-mono (IsEntry core.allocated core.states) (IsEntry (suc core.allocated) states)
            (λ item h. rw (ne_made core.allocated item.1 h.0) (omega (arith, h.0), h.1, h.2))

      in_tasks :
          All (IsEntry (suc core.allocated) states) core.tasks
          → All (IsEntry (suc core.allocated) states) (emplace_index id core.allocated core.tasks)
      in_tasks h = elim (Option-cases (find_index id core.tasks)) [
        | inl e ↦
            rw (e, emplace_index)
              ((omega arith, rw (==_self core.allocated) refl, rw (==_self core.allocated) refl), h)
        | inr (q, e) ↦ rw (e, emplace_index) h
      ]

  Step-schedule_plan :
      (reading : Reading) (steady : Steady) (p id : ℕ) (observed_now : ℤ) (core : Core)
      (planning : Planning)
      → Step core (schedule_plan ticks_per_ms reading steady p id observed_now (core, planning)).0
  unfolding schedule_plan
  Step-schedule_plan reading steady p id observed_now core planning_throws =
      Step-cancel_on_core reading id core
  Step-schedule_plan reading steady p id observed_now core nothing_planned =
      Step-cancel_on_core reading id core
  Step-schedule_plan reading steady p id observed_now core (plans plan) =
      let scheduling =
        Step-schedule_one steady p plan.planned_utc_ms observed_now plan.immediate core in
      if_ind (λ (y : Core × ℕ). Step core y.0)
        (schedule_one ticks_per_ms steady p plan.planned_utc_ms observed_now plan.immediate core).1
        (λ t. scheduling) (λ t. Step-trans scheduling (Step-cancel_on_core reading id _))

  pub Step-add_rule :
      (first last : Reading) (steady : Steady) (provider : RuleProvider) (callback : Task)
      (options : CalendarTaskOptions) (core : Core)
      → Step core (add_rule ticks_per_ms first last steady provider callback options core).0
  unfolding add_rule
  Step-add_rule first last steady provider none options core = Step-refl core
  Step-add_rule first last steady provider (some callback) options core =
      if_ind (λ (y : Core × ℕ). Step core y.0) (core.closed || core.manager.closed)
        (λ t. Step-refl core)
        (λ t.
          let (id, made) = register_state ticks_per_ms provider (some callback) options core in
          let p = core.allocated in
          let now = safe_now_utc_ms options first in
          let told = emit p created (pos 0) now 0 0 made in
          let planned = first_planned_due p now told in
          Step-trans
            (Step-trans
              (Step-trans (Step-register_state provider (some callback) options core)
                (Step-emit p created (pos 0) now 0 0 made))
              (Step-first_planned_due p now told))
            (Step-schedule_plan last steady p id now planned.0 planned.1))

  pub Step-reschedule :
      (steady : Steady) (p : ℕ) (planned observed_now : ℤ) (immediate : Bool) (core : Core)
      → Step core (reschedule ticks_per_ms steady p planned observed_now immediate core)
  unfolding reschedule
  Step-reschedule steady p planned observed_now immediate core =
      let scheduling = Step-schedule_one steady p planned observed_now immediate core in
      if_ind (λ (y : Core). Step core y)
        (schedule_one ticks_per_ms steady p planned observed_now immediate core).1 (λ t. scheduling)
        (λ t. Step-trans scheduling (Step-mark_completed p _))
