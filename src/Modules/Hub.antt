-- ===== src/Modules/Hub.antt =====
-- ModuleHub of include/event_hub/module_hub.hpp. What its modules do in their virtual functions is
-- given by functions of a module's place in the list; a call of the hub is one step.
use event_hub_cpp.Prelude.{
  ℕ, suc, ℤ, ◌==◌, ltb_ℤ, if◌then◌else◌, Bool, true, false, not, ◌&&◌, ◌||◌, Option, none, some,
  List, [], ◌∷◌, ◌++◌, length, map,
}
use event_hub_cpp.TaskManager.Types.{set_notifier, reset_notifier}
use event_hub_cpp.TaskManager.Delayed.{next_deadline}
use event_hub_cpp.Notifier.{SyncNotifier, new_notifier, notify}
use event_hub_cpp.EventBus.Types
use event_hub_cpp.EventBus.Dispatch
use event_hub_cpp.Awaiting.Awaiter.{World}
use event_hub_cpp.Modules.Module.{
  Module, Visit, Result, returns, logic_error, hook_throws, rethrows, is_inline, initialize,
  set_worker_exception_notifier, start_worker, request_worker_stop, join_worker_noexcept, shutdown,
}

-- `world` holds the bus. `local_name` is the number under which others know m_local_notifier,
-- `thread` tells whether m_thread is joinable, and `notified` records the other notifiers that were
-- called, the latest first.
pub record ModuleHub : Type 0 where
  pub world : World
  pub modules : List Module
  pub local_notifier : SyncNotifier
  pub local_name : ℕ
  pub notifier : Option ℕ
  pub initialized : Bool
  pub stop_requested : Bool
  pub running : Bool
  pub thread : Bool
  pub background_exception : Option ℕ
  pub notified : List ℕ

unfoldable pub new_hub : (local_name : ℕ) → World → ModuleHub
new_hub local_name w = record {
  world = w;
  modules = [];
  local_notifier = new_notifier;
  local_name = local_name;
  notifier = none;
  initialized = false;
  stop_requested = false;
  running = false;
  thread = false;
  background_exception = none;
  notified = [];
}

unfoldable pub wire_module_notifier : Option ℕ → Module → Module
unfolding set_worker_exception_notifier set_notifier reset_notifier
wire_module_notifier notifier m =
    let wired = set_worker_exception_notifier notifier m in
    if not (is_inline m.options.execution) then wired else elim notifier as (λ x. Module) [
      | none ↦ record wired { tasks = reset_notifier wired.tasks }
      | some n ↦ record wired { tasks = set_notifier (some n) wired.tasks }
    ]

-- `none` is a null module; `same_bus` tells whether the module's bus is the hub's. The exception
-- std::invalid_argument is a std::logic_error.
unfoldable pub add_module : Option Module → (same_bus : Bool) → ModuleHub → ModuleHub × Result
unfolding wire_module_notifier
add_module none same_bus hub = (hub, logic_error)
add_module (some m) same_bus hub =
    if hub.initialized || hub.running
    then (hub, logic_error)
    else if not same_bus
    then (hub, logic_error)
    else (
      record hub { modules = hub.modules ++ (wire_module_notifier hub.notifier m ∷ []) },
      returns 0,
    )

unfoldable pub module_count : ModuleHub → ℕ
module_count hub = length hub.modules

-- The loop of initialize() over the modules from the place `i` on, left by the first exception.
unfoldable pub initialize_each : (ℕ → Visit) → (i : ℕ) → List Module → List Module × Result
unfolding initialize
initialize_each visits i [] = ([], returns 0)
initialize_each visits i (m ∷ rest) =
    let (later, result) = initialize_each visits (suc i) rest in
    let (m₁, outcome) = initialize (visits i) m in
    elim outcome as (λ x. List Module × Result) [
      | returns n ↦ (m₁ ∷ later, result)
      | logic_error ↦ (m₁ ∷ rest, logic_error)
      | hook_throws ↦ (m₁ ∷ rest, hook_throws)
      | rethrows e ↦ (m₁ ∷ rest, rethrows e)
    ]

unfoldable pub stop_workers : List Module → List Module
unfolding request_worker_stop
stop_workers modules = map request_worker_stop modules

unfoldable pub join_workers : List Module → List Module
unfolding join_worker_noexcept
join_workers modules = map (join_worker_noexcept false) modules

-- The loop from the last module back to the first.
unfoldable pub shutdown_each : (ℕ → Visit) → (i : ℕ) → World × List Module → World × List Module
unfolding shutdown
shutdown_each visits i (w, []) = (w, [])
shutdown_each visits i (w, m ∷ rest) =
    let (w₁, later) = shutdown_each visits (suc i) (w, rest) in
    let (w₂, m₁) = shutdown false (visits i) (w₁, m) in (w₂, m₁ ∷ later)

-- Workers are stopped and joined first.
unfoldable pub stop_modules : (ℕ → Visit) → ModuleHub → ModuleHub
unfolding stop_workers join_workers shutdown_each
stop_modules visits hub =
    let (w, modules) =
      shutdown_each visits 0 (hub.world, join_workers (stop_workers hub.modules)) in
    record hub { world = w; modules = modules }

unfoldable pub initialize_hub : (visits endings : ℕ → Visit) → ModuleHub → ModuleHub × Result
unfolding initialize_each stop_modules start_worker
initialize_hub visits endings hub =
    if hub.initialized
    then (hub, returns 0)
    else let (modules, result) = initialize_each visits 0 hub.modules in
      let visited = record hub { modules = modules } in
      elim result as (λ x. ModuleHub × Result) [
        | returns n ↦
            (record visited { modules = map start_worker modules; initialized = true }, returns 0)
        | logic_error ↦ (stop_modules endings visited, logic_error)
        | hook_throws ↦ (stop_modules endings visited, hook_throws)
        | rethrows e ↦ (stop_modules endings visited, rethrows e)
      ]

-- A notifier is called, which may be the hub's own.
unfoldable pub call_notifier : Option ℕ → ModuleHub → ModuleHub
unfolding notify
call_notifier none hub = hub
call_notifier (some n) hub =
    if n == hub.local_name
    then record hub { local_notifier = notify hub.local_notifier }
    else record hub { notified = n ∷ hub.notified }

unfoldable pub request_stop : ModuleHub → ModuleHub
unfolding call_notifier stop_workers notify
request_stop hub =
    let told = call_notifier hub.notifier (record hub { stop_requested = true }) in
    record told { local_notifier = notify told.local_notifier; modules = stop_workers told.modules }

unfoldable pub shutdown_hub : (ℕ → Visit) → ModuleHub → ModuleHub
unfolding request_stop stop_modules
shutdown_hub visits hub =
    let stopped = stop_modules visits (request_stop hub) in
    record stopped {
      world = record stopped.world { bus = Dispatch.clear_pending stopped.world.bus };
      initialized = false;
    }

unfoldable pub wire_sources_notifier : Option ℕ → ModuleHub → ModuleHub
unfolding wire_module_notifier
wire_sources_notifier notifier hub = record hub {
  world = record hub.world {
    bus = elim notifier as (λ x. Types.Bus) [
      | none ↦ Types.reset_notifier hub.world.bus
      | some n ↦ Types.set_notifier (some n) hub.world.bus
    ];
  };
  modules = map (wire_module_notifier notifier) hub.modules;
}

unfoldable pub set_hub_notifier : Option ℕ → ModuleHub → ModuleHub
unfolding wire_sources_notifier
set_hub_notifier notifier hub = wire_sources_notifier notifier (record hub { notifier = notifier })

unfoldable pub reset_hub_notifier : ModuleHub → ModuleHub
unfolding wire_sources_notifier
reset_hub_notifier hub = wire_sources_notifier none (record hub { notifier = none })

-- A module takes part in the processing of the hub.
abbrev pub is_working : Module → Bool
is_working m = m.initialized && not (m.stopping || m.stopped)

unfoldable pub update_best_deadline : Option ℤ → (candidate : Option ℤ) → Option ℤ
update_best_deadline best none = best
update_best_deadline none (some t) = some t
update_best_deadline (some b) (some t) = if ltb_ℤ t b then some t else some b

-- `hints` gives the answers of next_deadline_hint(), and `best` is the best deadline so far. The
-- call of next_deadline() prunes the heap of a module.
unfoldable pub deadlines :
    (hints : ℕ → Option ℤ) → (i : ℕ) → Option ℤ → List Module → List Module × Option ℤ
unfolding update_best_deadline next_deadline
deadlines hints i best [] = ([], best)
deadlines hints i best (m ∷ rest) =
    let (tasks, due) = next_deadline m.tasks in
    let asked = is_working m && is_inline m.options.execution in
    let m₁ = if asked then record m { tasks = tasks } else m in
    let best₁ : Option ℤ = if asked then update_best_deadline best due else best in
    let best₂ : Option ℤ = if is_working m then update_best_deadline best₁ (hints i) else best in
    let (later, last) = deadlines hints (suc i) best₂ rest in (m₁ ∷ later, last)

unfoldable pub hub_next_deadline : (ℕ → Option ℤ) → ModuleHub → ModuleHub × Option ℤ
unfolding deadlines
hub_next_deadline hints hub =
    let (modules, best) = deadlines hints 0 none hub.modules in
    (record hub { modules = modules }, best)
