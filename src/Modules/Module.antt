-- ===== src/Modules/Module.antt =====
-- Module of include/event_hub/module.hpp.
use event_hub_cpp.Prelude.{
  ℕ, ◌==◌, if◌then◌else◌, Bool, true, false, not, ◌&&◌, ◌||◌, Option, none, some, List, [], ◌∷◌,
}
use event_hub_cpp.TaskManager.Types.{Manager, new_manager, set_notifier, reset_notifier}
use event_hub_cpp.TaskManager.Cancel.{close, clear_pending}
use event_hub_cpp.TaskManager.Turns
use event_hub_cpp.Notifier.{SyncNotifier, new_notifier, notify}
use event_hub_cpp.Awaiting.Awaiter.{World}
use event_hub_cpp.Awaiting.Node.{EventNode, new_node, close_node}

pub data ModuleExecutionMode : Type 0 where
  inline_in_hub private_thread manual : ModuleExecutionMode

abbrev pub is_inline : ModuleExecutionMode → Bool
is_inline inline_in_hub = true
is_inline _ = false

abbrev pub is_private : ModuleExecutionMode → Bool
is_private private_thread = true
is_private _ = false

pub record ModuleOptions : Type 0 where
  pub execution : ModuleExecutionMode
  pub max_tasks_per_process : ℕ

-- The virtual functions that change something.
pub data Hook : Type 0 where
  on_initialize on_process on_shutdown : Hook

-- What a virtual function of a derived class does: the calls that it makes of the module's task
-- manager, whether it throws, and the number that on_process() returns.
pub record Visit : Type 0 where
  pub commands : List Turns.Command
  pub throws : Bool
  pub work : ℕ

-- `worker` tells whether m_worker is joinable and `worker_notifier_name` is the number under which
-- the task manager knows the worker's notifier. `hooks` records the virtual functions called and
-- `reported` the notifiers told of an exception of the worker, the latest first.
pub record Module : Type 0 where
  pub node : EventNode
  pub tasks : Manager
  pub options : ModuleOptions
  pub initialized : Bool
  pub stopping : Bool
  pub stopped : Bool
  pub worker_notifier : SyncNotifier
  pub worker_notifier_name : ℕ
  pub worker : Bool
  pub worker_stop_requested : Bool
  pub worker_exception_notifier : Option ℕ
  pub worker_exception : Option ℕ
  pub hooks : List Hook
  pub reported : List ℕ

-- How a call ends: with a value, with std::logic_error, with an exception of a virtual function, or
-- with the exception of the worker.
pub data Result : Type 0 where
  returns : ℕ → Result
  logic_error hook_throws : Result
  rethrows : ℕ → Result

unfoldable pub normalize_options : ModuleOptions → ModuleOptions
normalize_options options =
    if options.max_tasks_per_process == 0
    then record options { max_tasks_per_process = 1 }
    else options

unfoldable pub new_module :
    (listener worker_notifier_name : ℕ) → ModuleOptions → World → World × Module
unfolding normalize_options new_node new_manager
new_module listener worker_notifier_name options w =
    let (w₁, node) = new_node listener w in
    (
      w₁,
      record {
        node = node;
        tasks = new_manager none;
        options = normalize_options options;
        initialized = false;
        stopping = false;
        stopped = false;
        worker_notifier = new_notifier;
        worker_notifier_name = worker_notifier_name;
        worker = false;
        worker_stop_requested = false;
        worker_exception_notifier = none;
        worker_exception = none;
        hooks = [];
        reported = [];
      },
    )

-- A virtual function is called. It holds no task context: 0 is the id of none.
unfoldable pub visit : Hook → Visit → Module → Module
visit hook v m = record m { hooks = hook ∷ m.hooks; tasks = Turns.apply_all 0 v.commands m.tasks }

unfoldable pub initialize : Visit → Module → Module × Result
unfolding visit
initialize v m =
    if m.initialized
    then (m, returns 0)
    else if m.stopping || m.stopped
    then (m, logic_error)
    else let visited = visit on_initialize v m in
      if v.throws
      then (visited, hook_throws)
      else (record visited { initialized = true }, returns 0)

-- The exception of the worker is handed out once.
unfoldable pub rethrow_worker_exception : Module → Module × Option ℕ
rethrow_worker_exception m = (record m { worker_exception = none }, m.worker_exception)

unfoldable pub clear_worker_exception : Module → Module
clear_worker_exception m = record m { worker_exception = none }

unfoldable pub store_worker_exception : ℕ → Module → Module
store_worker_exception exception m = elim m.worker_exception [
  | none ↦ record m { worker_exception = some exception }
  | some earlier ↦ m
]

unfoldable pub process_visit : Visit → Module → Module × Result
unfolding visit
process_visit v m =
    if not m.initialized || (m.stopping || m.stopped)
    then (m, returns 0)
    else (visit on_process v m, if v.throws then hook_throws else returns v.work)

unfoldable pub process : Visit → Module → Module × Result
unfolding rethrow_worker_exception process_visit
process v m =
    let (m₁, exception) = rethrow_worker_exception m in
    elim exception as (λ x. Module × Result) [
      | none ↦ process_visit v m₁
      | some e ↦ (m₁, rethrows e)
    ]

unfoldable pub set_worker_exception_notifier : Option ℕ → Module → Module
set_worker_exception_notifier notifier m = record m { worker_exception_notifier = notifier }

-- std::thread is taken to start.
unfoldable pub start_worker : Module → Module
unfolding clear_worker_exception set_notifier
start_worker m =
    if not (is_private m.options.execution)
    then m
    else if m.worker
    then m
    else let cleared = record (clear_worker_exception m) { worker_stop_requested = false } in
      record cleared {
        tasks = set_notifier (some m.worker_notifier_name) cleared.tasks;
        worker = true;
      }

unfoldable pub request_worker_stop : Module → Module
unfolding notify
request_worker_stop m = record m {
  worker_stop_requested = true;
  worker_notifier = notify m.worker_notifier;
}

-- `own` tells whether the caller is the worker itself; otherwise the thread has ended afterwards.
unfoldable pub join_worker : (own : Bool) → Module → Module × Result
unfolding reset_notifier rethrow_worker_exception
join_worker own m =
    if m.worker && own
    then (m, logic_error)
    else let joined = record m { worker = false; tasks = reset_notifier m.tasks } in
      let (m₁, exception) = rethrow_worker_exception joined in
      (m₁, elim exception [ none ↦ returns 0 | some e ↦ rethrows e ])

unfoldable pub join_worker_noexcept : (own : Bool) → Module → Module
unfolding reset_notifier
join_worker_noexcept own m = record m { worker = m.worker && own; tasks = reset_notifier m.tasks }

-- What shutdown() does once it has taken the flag `stopping`.
unfoldable pub stop_module : (own : Bool) → Visit → World × Module → World × Module
unfolding request_worker_stop join_worker_noexcept visit close clear_pending close_node
stop_module own v (w, m) =
    let joined = join_worker_noexcept own (request_worker_stop m) in
    let visited = if joined.initialized then visit on_shutdown v joined else joined in
    let cleared = record visited { tasks = (clear_pending (close visited.tasks)).0 } in
    let (w₁, node) = close_node (w, cleared.node) in
    (w₁, record cleared { node = node; initialized = false; stopped = true; stopping = false })

unfoldable pub shutdown : (own : Bool) → Visit → World × Module → World × Module
unfolding stop_module
shutdown own v (w, m) =
    if m.stopped
    then (w, m)
    else if m.stopping
    then (w, m)
    else stop_module own v (w, record m { stopping = true })
