-- ===== src/TaskManager/History.antt =====
-- The states that a TaskManager reaches: any calls, in any order, after the constructor.
use event_hub_cpp.Prelude.{ℕ, ℤ, refl, arith, total-zero, Option, List, [], ◌∷◌}
use event_hub_cpp.TaskManager.Types.{Manager, new_manager}
use event_hub_cpp.TaskManager.Delayed.{next_deadline}
use event_hub_cpp.TaskManager.Process.{process}
use event_hub_cpp.TaskManager.Turns.{Command, apply, Behaviour}
use event_hub_cpp.TaskManager.Invariant.Defs.{IsValid}
use event_hub_cpp.TaskManager.Invariant.Delayed.{prune-Keeps}
use event_hub_cpp.TaskManager.Invariant.Commands.{apply-Keeps}
use event_hub_cpp.TaskManager.Invariant.Process.{process-Keeps}
use event_hub_cpp.TaskManager.Located.Defs.{Located}
use event_hub_cpp.TaskManager.Located.Clear.{apply-Located}
use event_hub_cpp.TaskManager.Located.Promote.{prune-Located}
use event_hub_cpp.TaskManager.Located.Process.{process-Located}

-- A call of the manager by its user: any command (with the id of the context that it uses, if it
-- uses one), a call of process(), or a query of the next deadline.
pub data Operation : Type 0 where
  calls : ℕ → Command → Operation
  processes : Behaviour → (now : ℤ) → (max_tasks : ℕ) → Operation
  asks_deadline : Operation

unfoldable pub perform : Operation → Manager → Manager
perform (calls running command) m = apply running command m
perform (processes behaviour now max_tasks) m = (process behaviour now max_tasks m).0
perform asks_deadline m = (next_deadline m).0

unfoldable pub run_history : List Operation → Manager → Manager
unfolding perform
run_history [] m = m
run_history (o ∷ history) m = run_history history (perform o m)

-- What holds of a manager between its calls.
pub record IsSound (m : Manager) : Type 0 where
  pub valid : IsValid m
  pub located : Located [] [] m

new_manager-IsSound : (notifier : Option ℕ) → IsSound (new_manager notifier)
unfolding new_manager
new_manager-IsSound notifier = record {
  valid = record {
    ready_exact = rw total-zero refl;
    pending_exact = rw total-zero refl;
    index_made = tt;
    ready_made = tt;
    delayed_made = tt;
  };
  located = λ p lt. omega (arith, lt);
}

perform-IsSound : (o : Operation) (m : Manager) → IsSound m → IsSound (perform o m)
unfolding perform next_deadline
perform-IsSound (calls running command) m s = record {
  valid = (apply-Keeps running command m s.valid).valid;
  located = apply-Located [] [] running command m s.valid s.located;
}
perform-IsSound (processes behaviour now max_tasks) m s = record {
  valid = (process-Keeps behaviour now max_tasks m s.valid).valid;
  located = process-Located behaviour now max_tasks m s.valid s.located;
}
perform-IsSound asks_deadline m s = record {
  valid = (prune-Keeps m s.valid).valid;
  located = prune-Located [] [] m s.located;
}

run_history_from :
    (history : List Operation) (m : Manager) → IsSound m → IsSound (run_history history m)
unfolding run_history
run_history_from [] m s = s
run_history_from (o ∷ history) m s = run_history_from history _ (perform-IsSound o m s)

-- After any sequence of submissions, cancellations, context calls, closings, clearings, queries and
-- calls of process() with any callbacks, exceptions included, the counters ready_count and
-- pending_count agree modulo 2^64 with the states of the controls, the index and the entries refer
-- to controls that were made, and every queued task has its entry in the container of its state.
pub run_history-IsSound :
    (notifier : Option ℕ) (history : List Operation)
    → IsSound (run_history history (new_manager notifier))
run_history-IsSound notifier history =
    run_history_from history (new_manager notifier) (new_manager-IsSound notifier)
