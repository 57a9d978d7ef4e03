-- ===== src/Calendar/Schedule.antt =====
-- Scheduling and running the tasks of a CalendarScheduler.
use event_hub_cpp.Prelude.{
  ℕ, suc, ◌==◌, ℤ, pos, ◌+ℤ◌, ◌*ℤ◌, leb_ℤ, if◌then◌else◌, Bool, true, false, ◌||◌, none, some, List,
  [], ◌∷◌, add_one64, write,
}
use event_hub_cpp.Task.{Task, with_context, context_is_cancelled}
use event_hub_cpp.TaskManager.Types.{emplace_index}
use event_hub_cpp.TaskManager.Submit.{post_at}
use event_hub_cpp.TaskManager.Cancel.{make_context}
use event_hub_cpp.TaskManager.Turns
use event_hub_cpp.Calendar.Types.{
  skip_overlap, queue_one_after_current, created, due, before_callback, after_callback, missed,
  cancelled, CalendarTaskOptions,
}
use event_hub_cpp.Calendar.Detail.{
  Reading, Answer, next, provider_throws, RuleProvider, safe_now_utc_ms,
}
use event_hub_cpp.Calendar.Core.{
  State, Core, next_calendar_id, set_state, emit, mark_completed, cancel_on_core,
  cancel_all_on_core, is_state_cancelled,
}
use event_hub_cpp.Calendar.Planning.{
  Steady, Planning, planning_throws, nothing_planned, plans, ask, first_planned_due, is_missing,
  delay_ms, record_scheduled,
}

-- `ticks_per_ms` is the number of ticks of the steady clock in a millisecond.
module _ (ticks_per_ms : ℕ) where
  unfoldable pub schedule_one :
      Steady → (p : ℕ) → (planned observed_now : ℤ) → (immediate : Bool) → Core → Core × Bool
  unfolding delay_ms record_scheduled
  schedule_one steady p planned observed_now immediate core =
      let steady_due = steady.now +ℤ delay_ms planned observed_now immediate *ℤ ticks_per_ms in
      let (manager, task_id) =
        post_at steady.later steady_due (some (with_context p))
          (record { priority = (core.states p).options.priority }) core.manager in
      let posted = record core { manager = manager } in
      if task_id == 0
      then (posted, false)
      else record_scheduled p task_id planned observed_now posted

  -- add_rule, for a provider and a callback that are not empty: the new state is registered.
  unfoldable pub register_state : RuleProvider → Task → CalendarTaskOptions → Core → ℕ × Core
  register_state provider callback options core =
      let (id, counter) = next_calendar_id core.next_id in
      let s : State = record {
        id = id;
        options = options;
        next_time_provider = provider;
        callback = callback;
        scheduled_task_id = 0;
        planned_utc_ms = pos 0;
        run_count = 0;
        is_cancelled = false;
      } in
      (
        id,
        record core {
          next_id = counter;
          tasks = emplace_index id core.allocated core.tasks;
          states = write core.states core.allocated s;
          allocated = suc core.allocated;
        },
      )

  -- The rest of add_rule: a plan is scheduled, or the state is cancelled again.
  unfoldable pub schedule_plan :
      Reading → Steady → (p id : ℕ) → (observed_now : ℤ) → Core × Planning → Core × ℕ
  unfolding schedule_one cancel_on_core
  schedule_plan reading steady p id observed_now (core, planning_throws) =
      ((cancel_on_core reading id core).0, 0)
  schedule_plan reading steady p id observed_now (core, nothing_planned) =
      ((cancel_on_core reading id core).0, 0)
  schedule_plan reading steady p id observed_now (core, plans plan) =
      let (core₁, done) =
        schedule_one steady p plan.planned_utc_ms observed_now plan.immediate core in
      if done then (core₁, id) else ((cancel_on_core reading id core₁).0, 0)

  -- `first` is the reading of the clocks at the start, `last` the one of a cancellation.
  unfoldable pub add_rule :
      (first last : Reading) → Steady → RuleProvider → Task → CalendarTaskOptions → Core → Core × ℕ
  unfolding register_state schedule_plan first_planned_due emit
  add_rule first last steady provider none options core = (core, 0)
  add_rule first last steady provider (some callback) options core =
      if core.closed || core.manager.closed
      then (core, 0)
      else let (id, made) = register_state provider (some callback) options core in
        let p = core.allocated in
        let observed_now = safe_now_utc_ms options first in
        let told = emit p created (pos 0) observed_now 0 0 made in
        schedule_plan last steady p id observed_now (first_planned_due p observed_now told)

  unfoldable pub reschedule :
      Steady → (p : ℕ) → (planned observed_now : ℤ) → (immediate : Bool) → Core → Core
  unfolding schedule_one mark_completed
  reschedule steady p planned observed_now immediate core =
      let (core₁, done) = schedule_one steady p planned observed_now immediate core in
      if done then core₁ else mark_completed p core₁

  -- The next time is due already: the overlap policy decides. `true` is an exception.
  unfoldable pub schedule_overlap : Steady → (p : ℕ) → (time observed_now : ℤ) → Core → Core × Bool
  unfolding reschedule mark_completed emit
  schedule_overlap steady p time observed_now core =
      let told = emit p missed time observed_now 0 (core.states p).run_count core in
      elim (core.states p).options.overlap_policy [
        | queue_one_after_current ↦ (reschedule steady p time observed_now true told, false)
        | skip_overlap ↦ elim (ask p observed_now observed_now told) [
          | provider_throws ↦ (told, true)
          | next answer ↦ elim answer [
            | none ↦ (mark_completed p told, false)
            | some future ↦
                (reschedule steady p future observed_now (leb_ℤ future observed_now) told, false)
          ]
        ]
      ]

  unfoldable pub schedule_answer :
      Answer → Steady → (p : ℕ) → (observed_now : ℤ) → Core → Core × Bool
  unfolding schedule_overlap
  schedule_answer provider_throws steady p observed_now core = (core, true)
  schedule_answer (next none) steady p observed_now core = (mark_completed p core, false)
  schedule_answer (next (some time)) steady p observed_now core =
      if leb_ℤ time observed_now
      then schedule_overlap steady p time observed_now core
      else (reschedule steady p time observed_now false core, false)

  unfoldable pub schedule_after_run :
      Steady → (p : ℕ) → (previous_planned observed_now : ℤ) → Core → Core × Bool
  unfolding schedule_answer
  schedule_after_run steady p previous_planned observed_now core =
      schedule_answer (ask p previous_planned observed_now core) steady p observed_now core

  -- What runs while a callback of the scheduler is active.
  pub data Command : Type 0 where
    adds_rule :
        (first last : Reading) → Steady → RuleProvider → Task → CalendarTaskOptions → Command
    cancels : Reading → ℕ → Command
    cancels_all : (ℕ → Reading) → Command
    closes_scheduler : (ℕ → Reading) → Command
    manages : (running : ℕ) → Turns.Command → Command

  unfoldable pub apply : Command → Core → Core
  unfolding add_rule cancel_on_core cancel_all_on_core
  apply (adds_rule first last steady provider callback options) core =
      (add_rule first last steady provider callback options core).0
  apply (cancels reading id) core = (cancel_on_core reading id core).0
  apply (cancels_all readings) core = (cancel_all_on_core readings false core).0
  apply (closes_scheduler readings) core = (cancel_all_on_core readings true core).0
  apply (manages running command) core = record core {
    manager = Turns.apply running command core.manager;
  }

  unfoldable pub apply_all : List Command → Core → Core
  unfolding apply
  apply_all [] core = core
  apply_all (c ∷ rest) core = apply_all rest (apply c core)

  -- One run of a callback: the clocks before and after it, what runs meanwhile, and its exception.
  pub record Run : Type 0 where
    pub before : Reading
    pub commands : List Command
    pub throws : Bool
    pub after : Reading
    pub steady : Steady

  -- The section under the lock after the callback: the count of runs that is reported.
  unfoldable pub count_run : (running p run_count : ℕ) → Core → Core × ℕ
  unfolding set_state
  count_run running p run_count core =
      let s = core.states p in
      if is_missing s.id core
        || ((s.is_cancelled || core.closed)
            || context_is_cancelled (make_context running) core.manager)
      then (set_state p (record s { is_cancelled = true }) core, run_count)
      else (
        set_state p (record s { run_count = add_one64 s.run_count }) core,
        add_one64 s.run_count,
      )

  -- run_due from the end of a callback that returned.
  unfoldable pub finish_run :
      Run → (running p : ℕ) → (planned : ℤ) → (task_id run_count : ℕ) → Core → Core × Bool
  unfolding count_run emit mark_completed schedule_after_run
  finish_run run running p planned task_id run_count core =
      let after_now = safe_now_utc_ms (core.states p).options run.after in
      let (counted, count) = count_run running p run_count core in
      let told = emit p after_callback planned after_now task_id count counted in
      if context_is_cancelled (make_context running) told.manager
        || is_state_cancelled (told.states p).id told
      then (emit p cancelled planned after_now task_id count (mark_completed p told), false)
      else schedule_after_run run.steady p planned after_now told

  -- run_due from the callback on; `true` is an exception that leaves run_due.
  unfoldable pub run_callback :
      Run → (running p : ℕ) → (planned : ℤ) → (task_id run_count : ℕ) → Core → Core × Bool
  unfolding finish_run apply_all emit mark_completed
  run_callback run running p planned task_id run_count core =
      let begun = record core { runs = (core.states p).id ∷ core.runs } in
      let called = apply_all run.commands begun in
      if run.throws
      then (
        mark_completed p (
            emit p after_callback planned (safe_now_utc_ms (called.states p).options run.after)
              task_id run_count called),
        true,
      )
      else finish_run run running p planned task_id run_count called

  unfoldable pub run_due : Run → (running p : ℕ) → Core → Core × Bool
  unfolding run_callback set_state emit
  run_due run running p core =
      let s = core.states p in
      if is_missing s.id core || (s.is_cancelled || core.closed)
      then (core, false)
      else let planned = s.planned_utc_ms in
        let taken = set_state p (record s { scheduled_task_id = 0 }) core in
        let observed_now = safe_now_utc_ms s.options run.before in
        let told = emit p due planned observed_now s.scheduled_task_id s.run_count taken in
        let ready =
          emit p before_callback planned observed_now s.scheduled_task_id s.run_count told in
        run_callback run running p planned s.scheduled_task_id s.run_count ready
