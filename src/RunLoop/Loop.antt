-- ===== src/RunLoop/Loop.antt =====
-- The operations of RunLoop. One round of run_until(), with what other threads do before and after
-- it, is one step.
use event_hub_cpp.Prelude.{
  ℕ, ◌+◌, ◌==◌, ℤ, pos, ◌-ℤ◌, leb_ℤ, ltb_ℤ, if◌then◌else◌, Bool, true, false, ◌||◌, Option, none,
  some, List, [], ◌∷◌, ◌++◌, write,
}
use event_hub_cpp.TaskManager.Types.{Manager, set_notifier, reset_notifier, has_ready}
use event_hub_cpp.TaskManager.Delayed.{next_deadline}
use event_hub_cpp.TaskManager.Turns
use event_hub_cpp.TaskManager.Process
use event_hub_cpp.EventBus.Types
use event_hub_cpp.EventBus.Dispatch
use event_hub_cpp.EventBus.Dispatch.{has_pending}
use event_hub_cpp.Notifier.{SyncNotifier, new_notifier, notify, generation}

-- `name` is the number under which the sources know m_notifier.
pub record RunLoop : Type 0 where
  pub notifier : SyncNotifier
  pub name : ℕ
  pub buses : List ℕ
  pub task_managers : List ℕ
  pub max_tasks_per_manager : ℕ
  pub stop_requested : Bool

pub record Sources : Type 0 where
  pub bus_at : ℕ → Types.Bus
  pub manager_at : ℕ → Manager

abbrev pub at_least_one : ℕ → ℕ
at_least_one max_tasks = if max_tasks == 0 then 1 else max_tasks

unfoldable pub new_run_loop : (name max_tasks_per_manager : ℕ) → RunLoop
new_run_loop name max_tasks_per_manager = record {
  notifier = new_notifier;
  name = name;
  buses = [];
  task_managers = [];
  max_tasks_per_manager = at_least_one max_tasks_per_manager;
  stop_requested = false;
}

unfoldable pub set_max_tasks_per_manager : ℕ → RunLoop → RunLoop
set_max_tasks_per_manager max_tasks loop = record loop {
  max_tasks_per_manager = at_least_one max_tasks;
}

unfoldable pub contains : List ℕ → ℕ → Bool
contains [] value = false
contains (x ∷ rest) value = (x == value) || contains rest value

unfoldable pub add_bus : ℕ → RunLoop × Sources → RunLoop × Sources
unfolding contains
add_bus b (loop, s) = if contains loop.buses b then (loop, s) else (
  record loop { buses = loop.buses ++ (b ∷ []) },
  record s { bus_at = write s.bus_at b (Types.set_notifier (some loop.name) (s.bus_at b)) },
)

unfoldable pub add_task_manager : ℕ → RunLoop × Sources → RunLoop × Sources
unfolding contains set_notifier
add_task_manager p (loop, s) = if contains loop.task_managers p then (loop, s) else (
  record loop { task_managers = loop.task_managers ++ (p ∷ []) },
  record s { manager_at = write s.manager_at p (set_notifier (some loop.name) (s.manager_at p)) },
)

unfoldable pub request_stop : RunLoop → RunLoop
unfolding notify
request_stop loop = record loop { stop_requested = true; notifier = notify loop.notifier }

unfoldable pub reset_stop : RunLoop → RunLoop
reset_stop loop = record loop { stop_requested = false }

unfoldable pub reset_buses : List ℕ → Sources → Sources
reset_buses [] s = s
reset_buses (b ∷ rest) s =
    reset_buses rest (record s { bus_at = write s.bus_at b (Types.reset_notifier (s.bus_at b)) })

unfoldable pub reset_managers : List ℕ → Sources → Sources
unfolding reset_notifier
reset_managers [] s = s
reset_managers (p ∷ rest) s =
    reset_managers rest
      (record s { manager_at = write s.manager_at p (reset_notifier (s.manager_at p)) })

unfoldable pub reset_sources : RunLoop × Sources → RunLoop × Sources
unfolding reset_buses reset_managers
reset_sources (loop, s) = (
  record loop { buses = []; task_managers = [] },
  reset_managers loop.task_managers (reset_buses loop.buses s),
)

-- The work done, or `none` if an exception left a source.
unfoldable pub process_buses :
    (ℕ → Dispatch.Behaviour) → (work_done : ℕ) → List ℕ → Sources → Sources × Option ℕ
process_buses behaviours work_done [] s = (s, some work_done)
process_buses behaviours work_done (b ∷ rest) s =
    let (bus, outcome) = Dispatch.process (behaviours b) (s.bus_at b) in
    let served = record s { bus_at = write s.bus_at b bus } in
    let continue = λ (n : ℕ). process_buses behaviours (work_done + n) rest served in
    elim outcome as (λ x. Sources × Option ℕ) [
      | Dispatch.returned n ↦ continue n
      | Dispatch.failed ↦ (served, none)
    ]

unfoldable pub process_managers :
    (ℕ → Turns.Behaviour)
    → (now : ℕ → ℤ) → (max_tasks work_done : ℕ) → List ℕ
    → Sources
    → Sources × Option ℕ
process_managers behaviours now max_tasks work_done [] s = (s, some work_done)
process_managers behaviours now max_tasks work_done (p ∷ rest) s =
    let (m, outcome) = Process.process (behaviours p) (now p) max_tasks (s.manager_at p) in
    let served = record s { manager_at = write s.manager_at p m } in
    let continue =
      λ (n : ℕ). process_managers behaviours now max_tasks (work_done + n) rest served in
    elim outcome as (λ x. Sources × Option ℕ) [
      | Process.returned n ↦ continue n
      | Process.callback_exception ↦ (served, none)
      | Process.handler_exception ↦ (served, none)
    ]

-- What callbacks do and the clock reads in one call of process_once().
pub record Surroundings : Type 0 where
  pub events : ℕ → Dispatch.Behaviour
  pub tasks : ℕ → Turns.Behaviour
  pub now : ℕ → ℤ

unfoldable pub process_once : Surroundings → RunLoop → Sources → Sources × Option ℕ
unfolding process_buses process_managers
process_once around loop s =
    let (s₁, work) = process_buses around.events 0 loop.buses s in
    elim work as (λ x. Sources × Option ℕ) [
      | none ↦ (s₁, none)
      | some n ↦
          process_managers around.tasks around.now loop.max_tasks_per_manager n loop.task_managers
            s₁
    ]

unfoldable pub any_bus_pending : List ℕ → Sources → Bool
any_bus_pending [] s = false
any_bus_pending (b ∷ rest) s = has_pending (s.bus_at b) || any_bus_pending rest s

unfoldable pub any_manager_ready : List ℕ → Sources → Bool
any_manager_ready [] s = false
any_manager_ready (p ∷ rest) s = has_ready (s.manager_at p) || any_manager_ready rest s

unfoldable pub has_ready_or_pending_work : RunLoop → Sources → Bool
unfolding any_bus_pending any_manager_ready
has_ready_or_pending_work loop s =
    any_bus_pending loop.buses s || any_manager_ready loop.task_managers s

abbrev pub wait_until_due : (now deadline : ℤ) → ℤ
wait_until_due now deadline = if leb_ℤ deadline now then pos 0 else deadline -ℤ now

unfoldable pub shorter : (best : Option ℤ) → (wait : ℤ) → ℤ
shorter none wait = wait
shorter (some b) wait = if ltb_ℤ wait b then wait else b

abbrev pub with_deadline : (now : ℤ) → (best deadline : Option ℤ) → Option ℤ
with_deadline now best none = best
with_deadline now best (some d) = some (shorter best (wait_until_due now d))

-- The loop of next_task_wait(), which prunes the heaps of the managers that it asks.
unfoldable pub waits_from : (now : ℤ) → (best : Option ℤ) → List ℕ → Sources → Sources × Option ℤ
unfolding next_deadline shorter
waits_from now best [] s = (s, best)
waits_from now best (p ∷ rest) s =
    let (m, deadline) = next_deadline (s.manager_at p) in
    let asked = record s { manager_at = write s.manager_at p m } in
    let later = waits_from now (with_deadline now best deadline) rest asked in
    if has_ready (s.manager_at p) then (s, some (pos 0)) else later

unfoldable pub next_task_wait : (now : ℤ) → RunLoop → Sources → Sources × Option ℤ
unfolding waits_from
next_task_wait now loop s = waits_from now none loop.task_managers s

-- How a round ends: the next one follows at once, the loop is left, an exception leaves it, or it
-- waits for a generation other than the given one, forever or for a time.
pub data Round : Type 0 where
  continues leaves escapes : Round
  waits : (generation : ℕ) → Round
  waits_for : (generation : ℕ) → (duration : ℤ) → Round

abbrev pub wait_round : (generation : ℕ) → Option ℤ → Round
wait_round generation none = waits generation
wait_round generation (some wait) =
    if leb_ℤ wait (pos 0) then continues else waits_for generation wait

unfoldable pub idle_round : (now : ℤ) → (should_stop : Bool) → RunLoop → Sources → Sources × Round
unfolding has_ready_or_pending_work next_task_wait generation
idle_round now should_stop loop s =
    let (s₁, wait) = next_task_wait now loop s in
    if loop.stop_requested || should_stop
    then (s, leaves)
    else if has_ready_or_pending_work loop s
    then (s, continues)
    else (s₁, wait_round (generation loop.notifier) wait)

-- `first` and `second` are the answers of the stop predicate; run() passes one that is always false.
unfoldable pub run_round :
    Surroundings → (now : ℤ) → (first second : Bool) → RunLoop → Sources → Sources × Round
unfolding process_once idle_round
run_round around now first second loop s =
    let (served, work) = process_once around loop s in
    let idle = idle_round now second loop served in
    if loop.stop_requested || first then (s, leaves) else elim work as (λ x. Sources × Round) [
      | none ↦ (served, escapes)
      | some n ↦ if n == 0 then idle else (served, continues)
    ]
