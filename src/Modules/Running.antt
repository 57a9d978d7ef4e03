-- ===== src/Modules/Running.antt =====
-- The processing of ModuleHub of include/event_hub/module_hub.hpp: process(), has_pending(), the
-- rounds of run_loop(), and run().
use event_hub_cpp.Prelude.{
  ℕ, suc, ℤ, ◌+◌, ◌==◌, leb_ℤ, if◌then◌else◌, Bool, true, false, not, ◌&&◌, ◌||◌, Option, none,
  some, List, [], ◌∷◌,
}
use event_hub_cpp.TaskManager.Types.{has_ready}
use event_hub_cpp.TaskManager.Delayed.{next_deadline}
use event_hub_cpp.TaskManager.Turns
use event_hub_cpp.TaskManager.Process
use event_hub_cpp.Notifier.{generation}
use event_hub_cpp.EventBus.Dispatch
use event_hub_cpp.EventBus.Dispatch.{has_pending}
use event_hub_cpp.Modules.Module.{
  Module, Visit, Result, returns, logic_error, hook_throws, rethrows, is_inline, process,
  rethrow_worker_exception,
}
use event_hub_cpp.Modules.Worker.{Round, continues, leaves, wait_for_deadline}
use event_hub_cpp.Modules.Hub.{
  ModuleHub, is_working, initialize_hub, shutdown_hub, set_hub_notifier, reset_hub_notifier,
  hub_next_deadline,
}

-- What the code outside the hub does and answers in one call of process().
pub record Surroundings : Type 0 where
  pub events : Dispatch.Behaviour
  pub tasks : ℕ → Turns.Behaviour
  pub now : ℕ → ℤ
  pub visits : ℕ → Visit

-- A callback of a task or the handler of its exceptions threw.
abbrev pub of_outcome : Process.Outcome → Result
of_outcome (Process.returned n) = returns n
of_outcome Process.callback_exception = hook_throws
of_outcome Process.handler_exception = hook_throws

-- One module of the first loop of process().
unfoldable pub process_tasks : Turns.Behaviour → (now : ℤ) → Module → Module × Result
unfolding rethrow_worker_exception
process_tasks behaviour now m =
    let (m₁, exception) = rethrow_worker_exception m in
    let (tasks, outcome) =
      Process.process behaviour now m₁.options.max_tasks_per_process m₁.tasks in
    elim exception as (λ x. Module × Result) [
      | some e ↦ (m₁, rethrows e)
      | none ↦
          if not (is_inline m₁.options.execution) || not (is_working m₁)
          then (m₁, returns 0)
          else (record m₁ { tasks = tasks }, of_outcome outcome)
    ]

-- A loop over the modules that adds up the work and is left by the first exception.
unfoldable pub process_each :
    (ℕ → Module → Module × Result) → (i work_done : ℕ) → List Module → List Module × Result
process_each step i work_done [] = ([], returns work_done)
process_each step i work_done (m ∷ rest) =
    let continue = λ (n : ℕ). process_each step (suc i) (work_done + n) rest in
    let (m₁, outcome) = step i m in
    elim outcome as (λ x. List Module × Result) [
      | returns n ↦ let (later, result) = continue n in (m₁ ∷ later, result)
      | logic_error ↦ (m₁ ∷ rest, logic_error)
      | hook_throws ↦ (m₁ ∷ rest, hook_throws)
      | rethrows e ↦ (m₁ ∷ rest, rethrows e)
    ]

-- The two loops over the modules, after the events.
unfoldable pub process_modules : Surroundings → (work_done : ℕ) → List Module → List Module × Result
unfolding process_each process_tasks process
process_modules around work_done modules =
    let (served, result) =
      process_each (λ i m. process_tasks (around.tasks i) (around.now i) m) 0 work_done modules in
    elim result as (λ x. List Module × Result) [
      | returns n ↦ process_each (λ i m. process (around.visits i) m) 0 n served
      | logic_error ↦ (served, logic_error)
      | hook_throws ↦ (served, hook_throws)
      | rethrows e ↦ (served, rethrows e)
    ]

unfoldable pub process_hub : Surroundings → ModuleHub → ModuleHub × Result
unfolding process_modules
process_hub around hub =
    let (bus, outcome) = Dispatch.process around.events hub.world.bus in
    let served = record hub { world = record hub.world { bus = bus } } in
    elim outcome as (λ x. ModuleHub × Result) [
      | Dispatch.failed ↦ (served, hook_throws)
      | Dispatch.returned n ↦
          let (modules, result) = process_modules around n hub.modules in
          (record served { modules = modules }, result)
    ]

abbrev pub is_due : (now : ℤ) → Option ℤ → Bool
is_due now none = false
is_due now (some t) = leb_ℤ t now

-- The loop of has_pending(); the modules behind the first with pending work are not asked.
unfoldable pub any_pending :
    (hints : ℕ → Option ℤ) → (now : ℤ) → (i : ℕ) → List Module → List Module × Bool
unfolding next_deadline
any_pending hints now i [] = ([], false)
any_pending hints now i (m ∷ rest) =
    let (later, found) = any_pending hints now (suc i) rest in
    let (tasks, due) = next_deadline m.tasks in
    let asked = record m { tasks = tasks } in
    if not (is_working m)
    then (m ∷ later, found)
    else if is_inline m.options.execution && has_ready m.tasks
    then (m ∷ rest, true)
    else let m₁ = if is_inline m.options.execution then asked else m in
      if (is_inline m.options.execution && is_due now due) || is_due now (hints i)
      then (m₁ ∷ rest, true)
      else (m₁ ∷ later, found)

unfoldable pub hub_has_pending : (hints : ℕ → Option ℤ) → (now : ℤ) → ModuleHub → ModuleHub × Bool
unfolding any_pending
hub_has_pending hints now hub =
    let (modules, found) = any_pending hints now 0 hub.modules in
    if has_pending hub.world.bus then (hub, true) else (record hub { modules = modules }, found)

-- A round of run_loop() in which no work was done.
unfoldable pub idle_round :
    (hints : ℕ → Option ℤ)
    → (pending_now now : ℤ) → (generation : ℕ) → ModuleHub
    → ModuleHub × Round
unfolding hub_has_pending hub_next_deadline
idle_round hints pending_now now generation hub =
    let (asked, pending) = hub_has_pending hints pending_now hub in
    let (pruned, deadline) = hub_next_deadline hints asked in
    if hub.stop_requested
    then (hub, leaves)
    else if pending
    then (asked, continues)
    else (pruned, wait_for_deadline now generation deadline)

-- A round, or the exception that leaves the loop.
pub data RoundResult : Type 0 where
  goes : Round → RoundResult
  escapes : Result → RoundResult

unfoldable pub run_round :
    Surroundings
    → (hints : ℕ → Option ℤ) → (pending_now now : ℤ) → ModuleHub
    → ModuleHub × RoundResult
unfolding process_hub idle_round generation
run_round around hints pending_now now hub =
    let (served, result) = process_hub around hub in
    let (idle, round) = idle_round hints pending_now now (generation hub.local_notifier) served in
    if hub.stop_requested
    then (hub, goes leaves)
    else elim result as (λ x. ModuleHub × RoundResult) [
      | returns n ↦ if n == 0 then (idle, goes round) else (served, goes continues)
      | logic_error ↦ (served, escapes logic_error)
      | hook_throws ↦ (served, escapes hook_throws)
      | rethrows e ↦ (served, escapes (rethrows e))
    ]

-- run() up to the loop: the flag `running` is taken once.
unfoldable pub begin_run : (visits endings : ℕ → Visit) → ModuleHub → ModuleHub × Result
unfolding set_hub_notifier initialize_hub
begin_run visits endings hub =
    if hub.running
    then (hub, logic_error)
    else initialize_hub visits endings (
        set_hub_notifier (some hub.local_name)
          (record hub { running = true; background_exception = none; stop_requested = false }))

-- run() after the loop, however it was left, or after an initialization that failed.
unfoldable pub end_run : (endings : ℕ → Visit) → ModuleHub → ModuleHub
unfolding shutdown_hub reset_hub_notifier
end_run endings hub = record (reset_hub_notifier (shutdown_hub endings hub)) { running = false }

unfoldable pub store_background_exception : (exception : ℕ) → ModuleHub → ModuleHub
store_background_exception exception hub = elim hub.background_exception [
  | none ↦ record hub { background_exception = some exception }
  | some earlier ↦ hub
]

unfoldable pub rethrow_background_exception : ModuleHub → ModuleHub × Option ℕ
rethrow_background_exception hub =
    (record hub { background_exception = none }, hub.background_exception)

-- The loop that join() ends with.
unfoldable pub rethrow_module_worker_exception : List Module → List Module × Option ℕ
unfolding rethrow_worker_exception
rethrow_module_worker_exception [] = ([], none)
rethrow_module_worker_exception (m ∷ rest) =
    let (later, found) = rethrow_module_worker_exception rest in
    let (m₁, exception) = rethrow_worker_exception m in
    elim exception as (λ x. List Module × Option ℕ) [
      | none ↦ (m₁ ∷ later, found)
      | some e ↦ (m₁ ∷ rest, some e)
    ]
