-- ===== src/TaskManager/Surviving/Log.antt =====
-- The log of a call of process(): the tasks that it starts, and what the calls that are made while
-- a callback or the exception handler runs do to the manager.
use event_hub_cpp.Prelude.{
  ℕ, ◌==◌, ℤ, ◌≡◌, true, if◌then◌else◌, Option, none, some, List, [], ◌∷◌, ◌++◌,
}
use event_hub_cpp.TaskManager.Types.{Entry, Manager, cancelled}
use event_hub_cpp.TaskManager.Delayed.{promote_due}
use event_hub_cpp.TaskManager.Process.{
  start_entry, run_turn, finish_after_exception, take_ready_batch,
}
use event_hub_cpp.TaskManager.Turns.{apply_all, Turn, Behaviour}
use event_hub_cpp.TaskManager.Surviving.Live.{is_live}

-- `starts` names the control of the started entry; `calls` has the manager before and after the
-- calls that a callback or a handler makes and that other threads make meanwhile.
pub data Step : Type 0 where
  starts : (control : ℕ) → Step
  calls : (before after : Manager) → Step

unfoldable pub handler_log : Option ℕ → Turn → ℕ → Manager → List Step
handler_log none turn running m = []
handler_log (some h) turn running m = calls m (apply_all running turn.handler_commands m) ∷ []

unfoldable pub turn_log : Turn → Entry → Manager → List Step
turn_log turn e m =
    let called = apply_all e.id turn.commands m in
    let ended = finish_after_exception e called in
    calls m called
    ∷ (if turn.throws then handler_log ended.exception_handler turn e.id ended else [])

unfoldable pub batch_log : Behaviour → List Entry → Manager → List Step
batch_log behaviour [] m = []
batch_log behaviour (e ∷ rest) m = elim (start_entry e m) [
  | none ↦ batch_log behaviour rest m
  | some started ↦
      let turn = behaviour e started in
      let (m', ended) = run_turn turn e started in
      let own = starts e.control ∷ turn_log turn e started in
      elim ended [ none ↦ own ++ batch_log behaviour rest m' | some outcome ↦ own ]
]

unfoldable pub process_log : Behaviour → (now : ℤ) → (max_tasks : ℕ) → Manager → List Step
process_log behaviour now max_tasks m =
    if max_tasks == 0
    then []
    else let taking = take_ready_batch max_tasks (promote_due now m) in
      batch_log behaviour taking.batch taking.manager

-- The step starts the task of the control `p`, or its calls cancel this task while it is queued.
abbrev pub Accounts : ℕ → Step → Type 0
Accounts p (starts q) = q ≡ p
Accounts p (calls before after) =
    (is_live (before.controls p).state ≡ true) × ((after.controls p).state ≡ cancelled)
