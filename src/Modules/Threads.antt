-- ===== src/Modules/Threads.antt =====
-- The background thread of ModuleHub of include/event_hub/module_hub.hpp: start(), join() and the
-- destructor. std::thread is taken to start.
use event_hub_cpp.Prelude.{ℕ, if◌then◌else◌, Bool, true, false, ◌&&◌, Option, none, some}
use event_hub_cpp.Modules.Module.{Visit, Result, returns, logic_error, rethrows}
use event_hub_cpp.Modules.Hub.{
  ModuleHub, initialize_hub, request_stop, shutdown_hub, set_hub_notifier, reset_hub_notifier,
}
use event_hub_cpp.Modules.Running.{
  end_run, store_background_exception, rethrow_background_exception,
  rethrow_module_worker_exception,
}

unfoldable pub start : ModuleHub → ModuleHub × Result
start hub = if hub.thread then (hub, logic_error) else if hub.running then (hub, logic_error) else (
  record hub { running = true; background_exception = none; stop_requested = false; thread = true },
  returns 0,
)

-- The thread up to the loop.
unfoldable pub begin_thread : (visits endings : ℕ → Visit) → ModuleHub → ModuleHub × Result
unfolding set_hub_notifier initialize_hub
begin_thread visits endings hub =
    initialize_hub visits endings (set_hub_notifier (some hub.local_name) hub)

-- The thread after the loop, with the exception that left it, if one did.
unfoldable pub end_thread : (endings : ℕ → Visit) → (exception : Option ℕ) → ModuleHub → ModuleHub
unfolding end_run store_background_exception
end_thread endings none hub = end_run endings hub
end_thread endings (some exception) hub = end_run endings (store_background_exception exception hub)

-- `own` tells whether the caller is the thread itself; otherwise the thread has ended afterwards.
unfoldable pub join : (own : Bool) → ModuleHub → ModuleHub × Result
unfolding rethrow_background_exception rethrow_module_worker_exception
join own hub =
    if hub.thread && own
    then (hub, logic_error)
    else let (joined, exception) = rethrow_background_exception (record hub { thread = false }) in
      let (modules, later) = rethrow_module_worker_exception joined.modules in
      elim exception as (λ x. ModuleHub × Result) [
        | some e ↦ (joined, rethrows e)
        | none ↦ (
          record joined { modules = modules },
          elim later as (λ x. Result) [ none ↦ returns 0 | some e ↦ rethrows e ],
        )
      ]

-- The destructor.
unfoldable pub destroy_hub : (own : Bool) → (endings : ℕ → Visit) → ModuleHub → ModuleHub
unfolding request_stop shutdown_hub reset_hub_notifier
destroy_hub own endings hub =
    let asked = request_stop hub in
    reset_hub_notifier (shutdown_hub endings (record asked { thread = asked.thread && own }))
