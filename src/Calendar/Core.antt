-- ===== src/Calendar/Core.antt =====
-- The state that a CalendarScheduler shares with its tasks (Core and State of detail.hpp), the
-- observer, and cancellation. State objects are named by numbers; a posted task of the manager is
-- the callable with the number of its state. An observer only records what it is told.
use event_hub_cpp.Prelude.{
  ℕ, ◌==◌, ℤ, if◌then◌else◌, Bool, true, false, ◌&&◌, ◌||◌, none, some, List, [], ◌∷◌, is_empty,
  length, write, add_one64,
}
use event_hub_cpp.Task.{Task}
use event_hub_cpp.TaskManager.Types.{Manager, find_index, erase_index}
use event_hub_cpp.TaskManager.Cancel.{cancel}
use event_hub_cpp.Calendar.Types.{
  CalendarObserverEvent, CalendarObserverInfo, CalendarTaskOptions, cancelled,
}
use event_hub_cpp.Calendar.Detail.{Reading, RuleProvider, safe_now_utc_ms}

pub record State : Type 0 where
  pub id : ℕ
  pub options : CalendarTaskOptions
  pub next_time_provider : RuleProvider
  pub callback : Task
  pub scheduled_task_id : ℕ
  pub planned_utc_ms : ℤ
  pub run_count : ℕ
  pub is_cancelled : Bool

-- `informed` records what observers were told and `runs` the ids whose callback was started, the
-- latest first.
pub record Core : Type 0 where
  pub manager : Manager
  pub tasks : List (ℕ × ℕ)
  pub states : ℕ → State
  pub allocated : ℕ
  pub next_id : ℕ
  pub closed : Bool
  pub informed : List CalendarObserverInfo
  pub runs : List ℕ

-- A time and whether to run at once.
pub record PlannedDue : Type 0 where
  pub planned_utc_ms : ℤ
  pub immediate : Bool

-- The constructor of CalendarScheduler; the state is never read before it is made.
unfoldable pub new_core : State → Manager → Core
new_core unused manager = record {
  manager = manager;
  tasks = [];
  states = λ p. unused;
  allocated = 0;
  next_id = 1;
  closed = false;
  informed = [];
  runs = [];
}

unfoldable pub next_calendar_id : ℕ → ℕ × ℕ
next_calendar_id counter =
    if counter == 0
    then (add_one64 counter, add_one64 (add_one64 counter))
    else (counter, add_one64 counter)

unfoldable pub set_state : ℕ → State → Core → Core
set_state p s core = record core { states = write core.states p s }

-- The three overloads of emit(): the record goes to the observer, if the options have one.
unfoldable pub emit :
    (p : ℕ) → CalendarObserverEvent → (planned observed : ℤ) → (task_id run_count : ℕ) → Core → Core
emit p event planned observed task_id run_count core = elim (core.states p).options.observer [
  | none ↦ core
  | some observer ↦ record core {
    informed =
        record {
          id = (core.states p).id;
          scheduled_task_id = task_id;
          planned_utc_ms = planned;
          observed_utc_ms = observed;
          event = event;
          run_count = run_count;
        }
        ∷ core.informed;
  }
]

unfoldable pub cancel_scheduled : (task_id : ℕ) → Core → Core
cancel_scheduled task_id core =
    if task_id == 0 then core else record core { manager = (cancel task_id core.manager).0 }

unfoldable pub mark_completed : ℕ → Core → Core
unfolding set_state
mark_completed p core =
    let core₁ = set_state p (record (core.states p) { is_cancelled = true }) core in
    record core₁ { tasks = erase_index (core.states p).id core₁.tasks }

-- cancel_on_core for a state that the map gives.
unfoldable pub cancel_state : Reading → (id p : ℕ) → Core → Core × Bool
unfolding set_state cancel_scheduled emit
cancel_state reading id p core =
    let s = core.states p in
    if s.is_cancelled
    then (core, false)
    else let marked = set_state p (record s { is_cancelled = true }) core in
      let removed = record marked { tasks = erase_index id marked.tasks } in
      let stopped = cancel_scheduled s.scheduled_task_id removed in
      (
        emit p cancelled s.planned_utc_ms (safe_now_utc_ms s.options reading) s.scheduled_task_id
            s.run_count stopped,
        true,
      )

unfoldable pub cancel_on_core : Reading → (id : ℕ) → Core → Core × Bool
unfolding cancel_state
cancel_on_core reading id core =
    if id == 0 then (core, false) else elim (find_index id core.tasks) [
      | none ↦ (core, false)
      | some p ↦ cancel_state reading id p core
    ]

-- The first loop of cancel_all_on_core.
unfoldable pub mark_all : List (ℕ × ℕ) → Core → Core
unfolding set_state
mark_all [] core = core
mark_all ((id, p) ∷ rest) core =
    mark_all rest (set_state p (record (core.states p) { is_cancelled = true }) core)

-- The second loop, with a reading of the clocks for each state.
unfoldable pub stop_all : (ℕ → Reading) → List (ℕ × ℕ) → Core → Core
unfolding cancel_scheduled emit
stop_all readings [] core = core
stop_all readings ((id, p) ∷ rest) core =
    let s = core.states p in
    let stopped = cancel_scheduled s.scheduled_task_id core in
    stop_all readings rest (
      emit p cancelled s.planned_utc_ms (safe_now_utc_ms s.options (readings p)) s.scheduled_task_id
        s.run_count stopped)

unfoldable pub cancel_all_on_core : (ℕ → Reading) → (close_core : Bool) → Core → Core × ℕ
unfolding mark_all stop_all
cancel_all_on_core readings close_core core =
    if (close_core && core.closed) && is_empty core.tasks
    then (core, 0)
    else let closing = record core { closed = close_core || core.closed } in
      let marked = mark_all core.tasks closing in
      (stop_all readings core.tasks (record marked { tasks = [] }), length core.tasks)

unfoldable pub is_state_cancelled : (id : ℕ) → Core → Bool
is_state_cancelled id core = elim (find_index id core.tasks) [
  | none ↦ true
  | some p ↦ (core.states p).is_cancelled || core.closed
]

-- The public operations cancel(), cancel_all() and the destructor.
unfoldable pub cancel_task : Reading → ℕ → Core → Core × Bool
unfolding cancel_on_core
cancel_task reading id core = cancel_on_core reading id core

unfoldable pub cancel_all : (ℕ → Reading) → Core → Core × ℕ
unfolding cancel_all_on_core
cancel_all readings core = cancel_all_on_core readings false core

unfoldable pub destroy : (ℕ → Reading) → Core → Core
unfolding cancel_all_on_core
destroy readings core = (cancel_all_on_core readings true core).0
