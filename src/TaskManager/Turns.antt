-- ===== src/TaskManager/Turns.antt =====
-- What callbacks do while they run: the calls of the manager and the turn of one execution.
use event_hub_cpp.Prelude.{ℕ, ℤ, Bool, Option, List, [], ◌∷◌}
use event_hub_cpp.Task.{TaskOptions, PeriodicTaskOptions, Task, context_cancel, reschedule_at}
use event_hub_cpp.TaskManager.Types.{
  Entry, Manager, set_notifier, reset_notifier, set_exception_handler,
}
use event_hub_cpp.TaskManager.Submit.{post, post_at, post_every_after, post_batch}
use event_hub_cpp.TaskManager.Cancel.{cancel, make_context, close, clear_pending}

-- What runs while a callback is active: calls that the callback makes itself, of the manager and of
-- its own context, and calls that other threads make meanwhile.
pub data Command : Type 0 where
  posts : Task → TaskOptions → Command
  posts_at : (now due : ℤ) → Task → TaskOptions → Command
  posts_every_after : (now later initial_delay interval : ℤ) → Task → PeriodicTaskOptions → Command
  posts_batch : List Task → TaskOptions → Command
  cancels : ℕ → Command
  cancels_own : Command
  reschedules_own : ℤ → Command
  closes clears_pending : Command
  sets_notifier : Option ℕ → Command
  resets_notifier : Command
  sets_exception_handler : Option ℕ → Command

-- `running` is the id of the task whose context the callback holds.
unfoldable pub apply : ℕ → Command → Manager → Manager
apply running (posts task options) m = (post task options m).0
apply running (posts_at now due task options) m = (post_at now due task options m).0
apply running (posts_every_after now later initial_delay interval task options) m =
    (post_every_after now later initial_delay interval task options m).0
apply running (posts_batch tasks options) m = (post_batch tasks options m).0
apply running (cancels id) m = (cancel id m).0
apply running cancels_own m = (context_cancel (make_context running) m).0
apply running (reschedules_own due) m = (reschedule_at (make_context running) due m).0
apply running closes m = close m
apply running clears_pending m = (clear_pending m).0
apply running (sets_notifier notifier) m = set_notifier notifier m
apply running resets_notifier m = reset_notifier m
apply running (sets_exception_handler handler) m = set_exception_handler handler m

unfoldable pub apply_all : ℕ → List Command → Manager → Manager
apply_all running [] m = m
apply_all running (c ∷ rest) m = apply_all running rest (apply running c m)

-- One execution of a callback: the calls made while it runs, whether it throws, the readings of
-- the clock when it is finished, and what the exception handler does if it is called.
pub record Turn : Type 0 where
  pub commands : List Command
  pub throws : Bool
  pub now : ℤ
  pub later : ℤ
  pub handler_commands : List Command
  pub handler_throws : Bool

-- How a callback behaves when it is started on an entry in a state.
abbrev pub Behaviour : Type 0
Behaviour = Entry → Manager → Turn
