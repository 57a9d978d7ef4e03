-- ===== src/Modules/Worker.antt =====
-- The loop of the worker of a module with a private thread. One round of it, with what other threads
-- do before and after it, is one step.
use event_hub_cpp.Prelude.{ℕ, ℤ, ◌==◌, ◌-ℤ◌, leb_ℤ, if◌then◌else◌, true, Option, none, some, ◌∷◌}
use event_hub_cpp.TaskManager.Types.{has_ready}
use event_hub_cpp.TaskManager.Delayed.{next_deadline}
use event_hub_cpp.TaskManager.Process.{
  Outcome, returned, callback_exception, handler_exception, process,
}
use event_hub_cpp.TaskManager.Turns
use event_hub_cpp.Notifier.{generation}
use event_hub_cpp.Modules.Module.{Module, store_worker_exception}

-- How a round ends: another one follows at once, the loop is left, or the worker waits for a
-- generation other than the given one, forever or for a time.
pub data Round : Type 0 where
  continues leaves : Round
  waits : (generation : ℕ) → Round
  waits_for : (generation : ℕ) → (duration : ℤ) → Round

abbrev pub wait_for_deadline : (now : ℤ) → (generation : ℕ) → Option ℤ → Round
wait_for_deadline now generation none = waits generation
wait_for_deadline now generation (some deadline) =
    if leb_ℤ deadline now then continues else waits_for generation (deadline -ℤ now)

unfoldable pub notify_worker_exception : Module → Module
notify_worker_exception m = elim m.worker_exception_notifier [
  | none ↦ m
  | some n ↦ record m { reported = n ∷ m.reported }
]

-- The catch clause.
unfoldable pub fail_worker : (exception : ℕ) → Module → Module
unfolding store_worker_exception notify_worker_exception
fail_worker exception m =
    notify_worker_exception
      (record (store_worker_exception exception m) { worker_stop_requested = true })

-- The rest of a round without work.
unfoldable pub rest_of_round : (now : ℤ) → (generation : ℕ) → Module → Module × Round
unfolding next_deadline
rest_of_round now generation m =
    let (tasks, deadline) = next_deadline m.tasks in
    if m.worker_stop_requested
    then (m, leaves)
    else if has_ready m.tasks
    then (m, continues)
    else (record m { tasks = tasks }, wait_for_deadline now generation deadline)

unfoldable pub after_process :
    (now : ℤ) → (exception generation : ℕ) → Outcome → Module → Module × Round
unfolding fail_worker rest_of_round
after_process now exception generation (returned work_done) m =
    if work_done == 0 then rest_of_round now generation m else (m, continues)
after_process now exception generation callback_exception m = (fail_worker exception m, leaves)
after_process now exception generation handler_exception m = (fail_worker exception m, leaves)

-- `exception` names the exception that leaves process(), if one does.
unfoldable pub worker_round :
    Turns.Behaviour → (process_now now : ℤ) → (exception : ℕ) → Module → Module × Round
unfolding after_process process generation
worker_round behaviour process_now now exception m =
    let (tasks, outcome) = process behaviour process_now m.options.max_tasks_per_process m.tasks in
    if m.worker_stop_requested
    then (m, leaves)
    else after_process now exception (generation m.worker_notifier) outcome
        (record m { tasks = tasks })
