-- ===== src/Calendar/Lifetime.antt =====
-- Histories of a scheduler: its operations, and runs of the tasks that it posted.
use event_hub_cpp.Prelude.{
  ℕ, ◌<◌, ◌≡◌, ◌≢◌, refl, ◌⊎◌, inl, inr, Bool, true, false, none, some, List, [], ◌∷◌, ne→==,
  ==_self, if_ind, arith, ◌&&◌, ◌||◌, is_empty,
}
use event_hub_cpp.Task.{Task}
use event_hub_cpp.TaskManager.Types.{Manager, find_index, erase_index}
use event_hub_cpp.Calendar.Types.{CalendarTaskOptions, cancelled}
use event_hub_cpp.Calendar.Detail.{Reading, RuleProvider, safe_now_utc_ms}
use event_hub_cpp.Calendar.Core.{
  State, Core, new_core, set_state, cancel_scheduled, cancel_task, cancel_state, cancel_on_core,
  cancel_all_on_core, mark_all, destroy,
}
use event_hub_cpp.Calendar.Planning.{Steady, is_missing}
use event_hub_cpp.Calendar.Schedule.{Command, apply, Run, run_due, add_rule}
use event_hub_cpp.Calendar.Registry.{
  IsEntry, IsRegistered, Later-trans, Step, Step-refl, Step-trans, Step-emit, Step-cancel_scheduled,
  find_task-IsEntry,
}
use event_hub_cpp.Calendar.Cancelled.{Later-mark_all, Step-stop_all, Step-cancel_state}
use event_hub_cpp.Calendar.Registered.{Later-tasks}
use event_hub_cpp.Calendar.Histories.{Step-apply}
use event_hub_cpp.Calendar.Running.{Step-run_due}

module _ (ticks_per_ms : ℕ) where
  pub data Event : Type 0 where
    operates : Command ticks_per_ms → Event
    runs : Run ticks_per_ms → (running p : ℕ) → Event

  unfoldable pub happens : Event → Core → Core
  unfolding apply run_due
  happens (operates command) core = apply ticks_per_ms command core
  happens (runs run running p) core = (run_due ticks_per_ms run running p core).0

  unfoldable pub happen : List Event → Core → Core
  unfolding happens
  happen [] core = core
  happen (e ∷ rest) core = happen rest (happens e core)

  Step-happens : (e : Event) (core : Core) → Step core (happens e core)
  unfolding happens
  Step-happens (operates command) core = Step-apply ticks_per_ms command core
  Step-happens (runs run running p) core = Step-run_due ticks_per_ms run running p core

  Step-happen : (events : List Event) (core : Core) → Step core (happen events core)
  unfolding happen
  Step-happen [] core = Step-refl core
  Step-happen (e ∷ rest) core = Step-trans (Step-happens e core) (Step-happen rest (happens e core))

  -- In every history of a new scheduler, of its operations and of runs of its tasks with operations
  -- inside the callbacks, each entry of the map leads to a state that was made, has the entry's id
  -- and is not cancelled.
  pub happen-IsRegistered :
      (unused : State) (manager : Manager) (events : List Event)
      → IsRegistered (happen events (new_core unused manager))
  unfolding new_core
  happen-IsRegistered unused manager events =
      (Step-happen events (new_core unused manager)).registered tt

  run_due_stopped :
      (run : Run ticks_per_ms) (running p : ℕ) (core : Core)
      → ((core.states p).is_cancelled || core.closed) ≡ true
      → run_due ticks_per_ms run running p core ≡ (core, false)
  unfolding run_due
  run_due_stopped run running p core h =
      let stopped : (is_missing (core.states p).id core
            || ((core.states p).is_cancelled || core.closed))
          ≡ true =
        ground (arith, h) in
      rw stopped refl

  still : {x y : Bool} → (x ≡ false) ⊎ (y ≡ true) → x ≡ true → y ≡ true
  still (inl e) h = cc
  still (inr e) h = e

  cancel_state-marks :
      (reading : Reading) (id p : ℕ) (core : Core)
      → p < core.allocated
      → (core.states p).is_cancelled ≡ false
      → ((cancel_state reading id p core).1 ≡ true)
        × (((cancel_state reading id p core).0.states p).is_cancelled ≡ true)
  unfolding cancel_state set_state
  cancel_state-marks reading id p core made live =
      let s = core.states p in
      let removed = record (set_state p (record s { is_cancelled = true }) core) {
        tasks = erase_index id core.tasks;
      } in
      let stopped = cancel_scheduled s.scheduled_task_id removed in
      let told = Step-trans (Step-cancel_scheduled s.scheduled_task_id removed) (
        Step-emit p cancelled s.planned_utc_ms (safe_now_utc_ms s.options reading)
          s.scheduled_task_id s.run_count stopped) in
      rw live (refl, still (told.later.stays_cancelled p made) (rw (==_self p) refl))

  -- cancel() of an id that leads to a registered state returns true, and in no history after it
  -- does a posted task of this state run its callback or change anything.
  pub cancel_task-never_runs :
      (reading : Reading) (id p : ℕ) (core : Core)
      → IsRegistered core
      → id ≢ 0
      → find_index id core.tasks ≡ some p
      → (events : List Event) (run : Run ticks_per_ms) (running : ℕ)
      → let now = happen events (cancel_task reading id core).0 in
        ((cancel_task reading id core).1 ≡ true)
        × (run_due ticks_per_ms run running p now ≡ (now, false))
  unfolding cancel_task cancel_on_core
  cancel_task-never_runs reading id p core r nonzero e events run running =
      let entry = find_task-IsEntry (IsEntry core.allocated core.states) id p core.tasks r e in
      let marks = cancel_state-marks reading id p core entry.0 entry.2 in
      let gone = (cancel_state reading id p core).0 in
      let later = Step-cancel_state reading id p core e in
      let history = Step-happen events gone in
      let kept =
        still (history.later.stays_cancelled p (omega (arith, entry.0, later.later.grows)))
          marks.1 in
      rw (ne→== id 0 nonzero, e)
        (marks.0, run_due_stopped run running p (happen events gone) (ground (arith, kept)))

  destroy-closed : (readings : ℕ → Reading) (core : Core) → (destroy readings core).closed ≡ true
  unfolding destroy cancel_all_on_core
  destroy-closed readings core =
      if_ind (λ (y : Core × ℕ). y.0.closed ≡ true) (core.closed && is_empty core.tasks)
        (λ t. ground (arith, t))
        (λ t.
          let shut = record core { closed = true } in
          let marking = Later-mark_all core.tasks shut in
          let emptying = Later-tasks [] (mark_all core.tasks shut) in
          let stopping =
            Step-stop_all readings core.tasks (record (mark_all core.tasks shut) { tasks = [] }) in
          still (Later-trans (Later-trans marking emptying) stopping.later).stays_closed refl)

  add_rule_closed :
      (first last : Reading) (steady : Steady) (provider : RuleProvider) (callback : Task)
      (options : CalendarTaskOptions) (core : Core)
      → core.closed ≡ true
      → add_rule ticks_per_ms first last steady provider callback options core ≡ (core, 0)
  unfolding add_rule
  add_rule_closed first last steady provider none options core h = refl
  add_rule_closed first last steady provider (some callback) options core h = rw h refl

  -- After the destructor, in every history, no posted task runs its callback or changes anything,
  -- and add_rule() returns 0 and changes nothing.
  pub destroy-never_runs :
      (readings : ℕ → Reading) (core : Core) (events : List Event) (run : Run ticks_per_ms)
      (running p : ℕ) (first last : Reading) (steady : Steady) (provider : RuleProvider)
      (callback : Task) (options : CalendarTaskOptions)
      → let now = happen events (destroy readings core) in
        (run_due ticks_per_ms run running p now ≡ (now, false))
        × (add_rule ticks_per_ms first last steady provider callback options now ≡ (now, 0))
  destroy-never_runs readings core events run running p first last steady provider callback
        options =
      let history = Step-happen events (destroy readings core) in
      let closed = still history.later.stays_closed (destroy-closed readings core) in
      let now = happen events (destroy readings core) in
      (
        run_due_stopped run running p now (ground (arith, closed)),
        add_rule_closed first last steady provider callback options now closed,
      )
