-- ===== src/Modules/Lifecycle.antt =====
-- The life cycle of a module.
use event_hub_cpp.Prelude.{
  ℕ, ℤ, ◌==◌, ◌≡◌, refl, arith, not, ◌||◌, ◌&&◌, if◌then◌else◌, if_ind, Bool, true, false,
  Bool-cases, Option-cases, inl, inr, none, List, [], ◌∷◌,
}
use event_hub_cpp.Notifier.{generation}
use event_hub_cpp.TaskManager.Process
use event_hub_cpp.TaskManager.Process.{Outcome, returned, callback_exception, handler_exception}
use event_hub_cpp.TaskManager.Turns
use event_hub_cpp.TaskManager.Types.{has_ready}
use event_hub_cpp.Awaiting.Awaiter.{World}
use event_hub_cpp.Modules.Module.{
  Module, Visit, is_private, Hook, on_shutdown, Result, logic_error, visit, initialize,
  rethrow_worker_exception, process_visit, process, store_worker_exception, clear_worker_exception,
  start_worker, request_worker_stop, join_worker, join_worker_noexcept, stop_module, shutdown,
}
use event_hub_cpp.Modules.Worker.{
  Round, worker_round, after_process, rest_of_round, fail_worker, notify_worker_exception,
}

-- What happens to a module; other parts may change the bus, and call its task manager.
pub data Event : Type 0 where
  initializes processes : Visit → Event
  shuts_down : (own : Bool) → Visit → Event
  starts_worker stops_worker : Event
  joins_worker : (own : Bool) → Event
  runs_round : Turns.Behaviour → (process_now now : ℤ) → (exception : ℕ) → Event
  manages : Turns.Command → Event
  changes : World → Event

unfoldable pub perform : Event → World × Module → World × Module
unfolding initialize process shutdown start_worker request_worker_stop join_worker worker_round
perform (initializes v) (w, m) = (w, (initialize v m).0)
perform (processes v) (w, m) = (w, (process v m).0)
perform (shuts_down own v) (w, m) = shutdown own v (w, m)
perform starts_worker (w, m) = (w, start_worker m)
perform stops_worker (w, m) = (w, request_worker_stop m)
perform (joins_worker own) (w, m) = (w, (join_worker own m).0)
perform (runs_round behaviour process_now now exception) (w, m) =
    (w, (worker_round behaviour process_now now exception m).0)
perform (manages command) (w, m) = (w, record m { tasks = Turns.apply 0 command m.tasks })
perform (changes w') (w, m) = (w', m)

unfoldable pub perform_all : List Event → World × Module → World × Module
unfolding perform
perform_all [] s = s
perform_all (e ∷ rest) s = perform_all rest (perform e s)

-- The module has stopped, and exactly these virtual functions were called.
abbrev IsFinal : List Hook → Module → Type 0
IsFinal hooks m = (m.stopped ≡ true) × (m.initialized ≡ false) × (m.hooks ≡ hooks)

initialize_stopped :
    (v : Visit) (m : Module)
    → m.stopped ≡ true
    → m.initialized ≡ false
    → initialize v m ≡ (m, logic_error)
unfolding initialize
initialize_stopped v m stopped idle =
    if_ind (λ (y : Module × Result). y ≡ (m, logic_error)) m.initialized (λ t. cc)
      (λ t.
        if_ind (λ (y : Module × Result). y ≡ (m, logic_error)) (m.stopping || m.stopped) (λ k. refl)
          (λ k. absurd (ground (arith, k, stopped))))

process_visit-Final :
    (hooks : List Hook) (v : Visit) (m : Module)
    → IsFinal hooks m
    → IsFinal hooks (process_visit v m).0
unfolding process_visit
process_visit-Final hooks v m f =
    if_ind (λ (y : Module × Result). IsFinal hooks y.0)
      (not m.initialized || (m.stopping || m.stopped)) (λ t. f)
      (λ t. absurd (ground (arith, t, f.0)))

process-Final :
    (hooks : List Hook) (v : Visit) (m : Module) → IsFinal hooks m → IsFinal hooks (process v m).0
unfolding rethrow_worker_exception process process_visit
process-Final hooks v m f = elim (Option-cases m.worker_exception) [
  | inl e ↦ rw (e, process) (process_visit-Final hooks v (record m { worker_exception = none }) f)
  | inr (x, e) ↦ rw (e, process) f
]

store-Final :
    (hooks : List Hook) (exception : ℕ) (m : Module)
    → IsFinal hooks m
    → IsFinal hooks (store_worker_exception exception m)
unfolding store_worker_exception
store-Final hooks exception m f = elim (Option-cases m.worker_exception) [
  | inl e ↦ rw (e, store_worker_exception) f
  | inr (x, e) ↦ rw (e, store_worker_exception) f
]

notify-Final :
    (hooks : List Hook) (m : Module) → IsFinal hooks m → IsFinal hooks (notify_worker_exception m)
unfolding notify_worker_exception
notify-Final hooks m f = elim (Option-cases m.worker_exception_notifier) [
  | inl e ↦ rw (e, notify_worker_exception) f
  | inr (x, e) ↦ rw (e, notify_worker_exception) f
]

fail_worker-Final :
    (hooks : List Hook) (exception : ℕ) (m : Module)
    → IsFinal hooks m
    → IsFinal hooks (fail_worker exception m)
unfolding fail_worker
fail_worker-Final hooks exception m f =
    notify-Final hooks
      (record (store_worker_exception exception m) { worker_stop_requested = true })
      (store-Final hooks exception m f)

after_process-Final :
    (hooks : List Hook) (now : ℤ) (exception generation : ℕ) (outcome : Outcome) (m : Module)
    → IsFinal hooks m
    → IsFinal hooks (after_process now exception generation outcome m).0
unfolding after_process rest_of_round
after_process-Final hooks now exception generation (returned work_done) m f =
    if_ind (λ (y : Module × Round). IsFinal hooks y.0) (work_done == 0)
      (λ t.
        if_ind (λ (y : Module × Round). IsFinal hooks y.0) m.worker_stop_requested (λ k. f)
          (λ k.
            if_ind (λ (y : Module × Round). IsFinal hooks y.0) (has_ready m.tasks) (λ l. f)
              (λ l. f)))
      (λ t. f)
after_process-Final hooks now exception generation callback_exception m f =
    fail_worker-Final hooks exception m f
after_process-Final hooks now exception generation handler_exception m f =
    fail_worker-Final hooks exception m f

start_worker-Final :
    (hooks : List Hook) (m : Module) → IsFinal hooks m → IsFinal hooks (start_worker m)
unfolding start_worker clear_worker_exception
start_worker-Final hooks m f =
    if_ind (IsFinal hooks) (not (is_private m.options.execution)) (λ t. f)
      (λ t. if_ind (IsFinal hooks) m.worker (λ k. f) (λ k. f))

perform-Final :
    (hooks : List Hook) (e : Event) (s : World × Module)
    → IsFinal hooks s.1
    → IsFinal hooks (perform e s).1
unfolding perform shutdown request_worker_stop join_worker rethrow_worker_exception worker_round
perform-Final hooks (initializes v) (w, m) f = rw (initialize_stopped v m f.0 f.1) f
perform-Final hooks (processes v) (w, m) f = process-Final hooks v m f
perform-Final hooks (shuts_down own v) (w, m) f =
    if_ind (λ (y : World × Module). IsFinal hooks y.1) m.stopped (λ t. f)
      (λ t. absurd (ground (arith, t, f.0)))
perform-Final hooks starts_worker (w, m) f = start_worker-Final hooks m f
perform-Final hooks stops_worker (w, m) f = f
perform-Final hooks (joins_worker own) (w, m) f =
    if_ind (λ (y : Module × Result). IsFinal hooks y.0) (m.worker && own) (λ t. f) (λ t. f)
perform-Final hooks (runs_round behaviour process_now now exception) (w, m) f =
    if_ind (λ (y : Module × Round). IsFinal hooks y.0) m.worker_stop_requested (λ t. f)
      (λ t.
        let (tasks, outcome) =
          Process.process behaviour process_now m.options.max_tasks_per_process m.tasks in
        after_process-Final hooks now exception (generation m.worker_notifier) outcome
          (record m { tasks = tasks }) f)
perform-Final hooks (manages command) (w, m) f = f
perform-Final hooks (changes w') (w, m) f = f

perform_all-Final :
    (hooks : List Hook) (events : List Event) (s : World × Module)
    → IsFinal hooks s.1
    → IsFinal hooks (perform_all events s).1
unfolding perform_all
perform_all-Final hooks [] s f = f
perform_all-Final hooks (e ∷ rest) s f =
    perform_all-Final hooks rest (perform e s) (perform-Final hooks e s f)

-- The virtual functions that were called once shutdown() of the module is done.
abbrev pub hooks_after : Module → List Hook
hooks_after m = if m.initialized then on_shutdown ∷ m.hooks else m.hooks

stop_module-Final :
    (own : Bool) (v : Visit) (w : World) (m : Module)
    → IsFinal (hooks_after m) (stop_module own v (w, m)).1
unfolding stop_module join_worker_noexcept request_worker_stop visit
stop_module-Final own v w m = elim (Bool-cases m.initialized) [
  | inl t ↦ rw t (refl, refl, refl)
  | inr t ↦ rw t (refl, refl, refl)
]

-- The first shutdown() of a module calls on_shutdown() if and only if the module was initialized.
-- In every history after it the module stays stopped, no virtual function of it is called, and
-- initialize() changes nothing and throws std::logic_error.
pub shutdown-is_final :
    (own : Bool) (v again : Visit) (w : World) (m : Module) (events : List Event)
    → m.stopped ≡ false
    → m.stopping ≡ false
    → let (w', m') = perform_all events (shutdown own v (w, m)) in
      (m'.stopped ≡ true) × (m'.hooks ≡ hooks_after m) × (initialize again m' ≡ (m', logic_error))
unfolding shutdown
shutdown-is_final own v again w m events running settled =
    let stops : IsFinal (hooks_after m) (shutdown own v (w, m)).1 =
      if_ind (λ (y : World × Module). IsFinal (hooks_after m) y.1) m.stopped (λ t. cc)
        (λ t.
          if_ind (λ (y : World × Module). IsFinal (hooks_after m) y.1) m.stopping (λ k. cc)
            (λ k. stop_module-Final own v w (record m { stopping = true }))) in
    let f = perform_all-Final (hooks_after m) events (shutdown own v (w, m)) stops in
    (f.0, f.2, initialize_stopped again (perform_all events (shutdown own v (w, m))).1 f.0 f.1)
