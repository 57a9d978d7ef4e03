-- ===== src/Task.antt =====
-- include/event_hub/task.hpp: the move-only task wrapper, the context handed to running callbacks,
-- priorities and options. A callable is named by a number; the wrapper's template models become the
-- two constructors of `Callback`.
use event_hub_cpp.Prelude.{ℕ, ℤ, ◌+ℤ◌, Bool, true, false, Option, none, some}

pub data TaskPriority : Type 0 where
  high normal low : TaskPriority

pub record TaskOptions : Type 0 where
  pub priority : TaskPriority

pub data PeriodicSchedule : Type 0 where
  fixed_delay fixed_rate : PeriodicSchedule

pub record PeriodicTaskOptions : Type 0 where
  pub priority : TaskPriority
  pub schedule : PeriodicSchedule

-- The object behind `m_self`: NoArgModel or ContextModel.
pub data Callback : Type 0 where
  no_arg : ℕ → Callback
  with_context : ℕ → Callback

-- `none` is the empty task, whose `m_self` is null.
abbrev pub Task : Type 0
Task = Option Callback

-- Construction from std::function, which may itself be empty (`none`).
unfoldable pub from_function : Option ℕ → Task
from_function none = none
from_function (some fn) = some (no_arg fn)

unfoldable pub from_context_function : Option ℕ → Task
from_context_function none = none
from_context_function (some fn) = some (with_context fn)

-- `operator bool`.
abbrev pub has_callable : Task → Bool
has_callable none = false
has_callable (some callback) = true

unfoldable pub reset : Task → Task
reset task = none

-- The context refers to its owner, an object of type S, through three function pointers.
-- `none` is a null pointer.
pub record TaskContext (S : Type 0) : Type 0 where
  pub owner : Bool
  pub task_id : ℕ
  pub cancel_fn : Option (ℕ → S → S × Bool)
  pub is_cancelled_fn : Option (ℕ → S → Bool)
  pub reschedule_fn : Option (ℕ → ℤ → S → S × Bool)

-- What an invocation does: the callable that runs and the context that it sees.
pub data Invocation (S : Type 0) : Type 0 where
  bad_function_call : Invocation S
  runs : ℕ → Option (TaskContext S) → Invocation S

module _ {S : Type 0} where
  abbrev pub inert_context : TaskContext S
  inert_context = record {
    owner = false;
    task_id = 0;
    cancel_fn = none;
    is_cancelled_fn = none;
    reschedule_fn = none;
  }

  call_cancel : Option (ℕ → S → S × Bool) → Bool → ℕ → S → S × Bool
  call_cancel (some fn) true id s = fn id s
  call_cancel _ _ id s = (s, false)

  unfoldable pub context_cancel : TaskContext S → S → S × Bool
  unfolding call_cancel
  context_cancel c s = call_cancel c.cancel_fn c.owner c.task_id s

  call_is_cancelled : Option (ℕ → S → Bool) → Bool → ℕ → S → Bool
  call_is_cancelled (some fn) true id s = fn id s
  call_is_cancelled _ _ id s = false

  unfoldable pub context_is_cancelled : TaskContext S → S → Bool
  unfolding call_is_cancelled
  context_is_cancelled c s = call_is_cancelled c.is_cancelled_fn c.owner c.task_id s

  call_reschedule : Option (ℕ → ℤ → S → S × Bool) → Bool → ℕ → ℤ → S → S × Bool
  call_reschedule (some fn) true id due s = fn id due s
  call_reschedule _ _ id due s = (s, false)

  unfoldable pub reschedule_at : TaskContext S → ℤ → S → S × Bool
  unfolding call_reschedule
  reschedule_at c due s = call_reschedule c.reschedule_fn c.owner c.task_id due s

  -- `now` is the reading of the steady clock that the call makes.
  unfoldable pub reschedule_after : TaskContext S → ℤ → ℤ → S → S × Bool
  unfolding reschedule_at
  reschedule_after c now delay s = reschedule_at c (now +ℤ delay) s

  -- `operator()(TaskContext&)`.
  unfoldable pub invoke_with : Task → TaskContext S → Invocation S
  invoke_with none context = bad_function_call
  invoke_with (some (no_arg fn)) context = runs fn none
  invoke_with (some (with_context fn)) context = runs fn (some context)

  -- `operator()()`.
  unfoldable pub invoke : Task → Invocation S
  unfolding invoke_with
  invoke task = invoke_with task inert_context
