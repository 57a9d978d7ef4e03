-- ===== src/Modules/Stopping.antt =====
-- Stopping all modules of a hub.
use event_hub_cpp.Prelude.{
  ℕ, suc, ◌≡◌, refl, if_ind, Bool, true, false, ◌==◌, Option, none, some, List, [], ◌∷◌, All,
}
use event_hub_cpp.EventBus.Dispatch.{clear_pending}
use event_hub_cpp.Awaiting.Awaiter.{World}
use event_hub_cpp.Modules.Module.{
  Module, Visit, request_worker_stop, join_worker_noexcept, stop_module, shutdown,
}
use event_hub_cpp.Modules.Hub.{
  ModuleHub, stop_workers, join_workers, shutdown_each, stop_modules, request_stop, call_notifier,
  shutdown_hub,
}

-- No shutdown() of the module is under way.
abbrev pub IsSettled : Module → Type 0
IsSettled m = m.stopping ≡ false

abbrev pub IsStopped : Module → Type 0
IsStopped m = m.stopped ≡ true

abbrev pub IsInitialized : Module → Type 0
IsInitialized m = m.initialized ≡ true

shutdown-IsStopped :
    (own : Bool) (v : Visit) (w : World) (m : Module)
    → IsSettled m
    → IsStopped (shutdown own v (w, m)).1
unfolding shutdown stop_module
shutdown-IsStopped own v w m settled =
    if_ind (λ (y : World × Module). IsStopped y.1) m.stopped (λ t. t)
      (λ t. if_ind (λ (y : World × Module). IsStopped y.1) m.stopping (λ k. cc) (λ k. refl))

shutdown_each-IsStopped :
    (visits : ℕ → Visit) (i : ℕ) (w : World) (modules : List Module)
    → All IsSettled modules
    → All IsStopped (shutdown_each visits i (w, modules)).1
unfolding shutdown_each
shutdown_each-IsStopped visits i w [] h = tt
shutdown_each-IsStopped visits i w (m ∷ rest) h = (
  shutdown-IsStopped false (visits i) (shutdown_each visits (suc i) (w, rest)).0 m h.0,
  shutdown_each-IsStopped visits (suc i) w rest h.1,
)

workers-IsSettled :
    (modules : List Module)
    → All IsSettled modules
    → All IsSettled (join_workers (stop_workers modules))
unfolding join_workers stop_workers request_worker_stop join_worker_noexcept
workers-IsSettled [] h = tt
workers-IsSettled (m ∷ rest) h = (h.0, workers-IsSettled rest h.1)

pub stop_modules-IsStopped :
    (visits : ℕ → Visit) (hub : ModuleHub)
    → All IsSettled hub.modules
    → All IsStopped (stop_modules visits hub).modules
unfolding stop_modules
stop_modules-IsStopped visits hub h =
    shutdown_each-IsStopped visits 0 hub.world (join_workers (stop_workers hub.modules))
      (workers-IsSettled hub.modules h)

call_notifier_modules :
    (notifier : Option ℕ) (hub : ModuleHub) → (call_notifier notifier hub).modules ≡ hub.modules
unfolding call_notifier
call_notifier_modules none hub = refl
call_notifier_modules (some n) hub =
    if_ind (λ (h : ModuleHub). h.modules ≡ hub.modules) (n == hub.local_name) (λ t. refl)
      (λ t. refl)

stop_workers-IsSettled :
    (modules : List Module) → All IsSettled modules → All IsSettled (stop_workers modules)
unfolding stop_workers request_worker_stop
stop_workers-IsSettled [] h = tt
stop_workers-IsSettled (m ∷ rest) h = (h.0, stop_workers-IsSettled rest h.1)

request_stop-IsSettled :
    (hub : ModuleHub) → All IsSettled hub.modules → All IsSettled (request_stop hub).modules
unfolding request_stop
request_stop-IsSettled hub h =
    rw (call_notifier_modules hub.notifier (record hub { stop_requested = true }))
      (stop_workers-IsSettled hub.modules h)

-- shutdown() of a hub of whose modules none is just shutting down leaves every module stopped, the
-- hub not initialized and the queue of the bus empty.
pub shutdown_hub-IsStopped :
    (visits : ℕ → Visit) (hub : ModuleHub)
    → All IsSettled hub.modules
    → let h = shutdown_hub visits hub in
      All IsStopped h.modules × (h.initialized ≡ false) × (h.world.bus.event_queue ≡ [])
unfolding shutdown_hub clear_pending
shutdown_hub-IsStopped visits hub h =
    (stop_modules-IsStopped visits (request_stop hub) (request_stop-IsSettled hub h), refl, refl)
