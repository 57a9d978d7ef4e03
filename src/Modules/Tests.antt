-- ===== src/Modules/Tests.antt =====
-- A hub with two modules, the second of which cannot be initialized.
use event_hub_cpp.Prelude.{ℕ, ◌==◌, ◌≡◌, refl, true, false, none, List, [], ◌∷◌, All, if◌then◌else◌}
use event_hub_cpp.Awaiting.Awaiter.{World, new_world}
use event_hub_cpp.EventBus.Types.{new_bus}
use event_hub_cpp.TaskManager.Types.{new_manager}
use event_hub_cpp.Notifier.{new_notifier}
use event_hub_cpp.Modules.Module.{Module, inline_in_hub, Visit, logic_error, shutdown, initialize}
use event_hub_cpp.Modules.Hub.{ModuleHub, new_hub, initialize_hub, shutdown_hub}
use event_hub_cpp.Modules.Lifecycle.{
  Event, initializes, processes, starts_worker, perform_all, hooks_after, shutdown-is_final,
}
use event_hub_cpp.Modules.Stopping.{IsStopped, shutdown_hub-IsStopped}
use event_hub_cpp.Modules.Starting.{AllOrNone, initialize_hub-AllOrNone}

abbrev world : World
world =
    new_world (new_bus (λ object. false) (λ awaiter. false))
      (record { cancelled = λ state. false; allocated = 0 })

abbrev ordinary : Visit
ordinary = record { commands = []; throws = false; work = 1 }

abbrev failing : Visit
failing = record { commands = []; throws = true; work = 0 }

abbrev fresh : Module
fresh = record {
  node = record {
    listener = 1;
    endpoint = record { address = 2; guard = 3; closed = false; awaiters = [] };
  };
  tasks = new_manager none;
  options = record { execution = inline_in_hub; max_tasks_per_process = 64 };
  initialized = false;
  stopping = false;
  stopped = false;
  worker_notifier = new_notifier;
  worker_notifier_name = 5;
  worker = false;
  worker_stop_requested = false;
  worker_exception_notifier = none;
  worker_exception = none;
  hooks = [];
  reported = [];
}

abbrev hub : ModuleHub
hub = record (new_hub 9 world) { modules = fresh ∷ fresh ∷ [] }

-- The second module throws in on_initialize().
abbrev second_fails : ℕ → Visit
second_fails i = if i == 1 then failing else ordinary

initialize_hub-AllOrNone_example : AllOrNone (initialize_hub second_fails (λ i. ordinary) hub)
unfolding new_hub
initialize_hub-AllOrNone_example =
    initialize_hub-AllOrNone second_fails (λ i. ordinary) hub refl (refl, (refl, tt))

shutdown_hub-IsStopped_example :
    let h = shutdown_hub (λ i. ordinary) hub in
    All IsStopped h.modules × (h.initialized ≡ false) × (h.world.bus.event_queue ≡ [])
unfolding new_hub
shutdown_hub-IsStopped_example = shutdown_hub-IsStopped (λ i. ordinary) hub (refl, (refl, tt))

abbrev history : List Event
history = initializes ordinary ∷ processes ordinary ∷ starts_worker ∷ []

shutdown-is_final_example :
    let (w', m') = perform_all history (shutdown false ordinary (world, fresh)) in
    (m'.stopped ≡ true)
    × (m'.hooks ≡ hooks_after fresh)
    × (initialize ordinary m' ≡ (m', logic_error))
shutdown-is_final_example = shutdown-is_final false ordinary ordinary world fresh history refl refl
