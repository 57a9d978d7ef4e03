-- ===== src/TaskManager/Types.antt =====
-- The state of TaskManager: task_manager.hpp, the private part of the class.
-- A Control object is shared by an entry and the index; it is named by a number, and `controls`
-- is the store of these objects, the first `allocated` of which have been made.
use event_hub_cpp.Prelude.{
  ℕ, ℤ, pos, ltb, ltb_ℤ, ◌==◌, if◌then◌else◌, Bool, true, false, not, ◌||◌, Option, none, some,
  List, [], ◌∷◌, ◌++◌, write, add_one64, sub_one64,
}
use event_hub_cpp.Task.{TaskPriority, high, normal, low, PeriodicSchedule, Task}

pub data State : Type 0 where
  queued_ready queued_delayed ready_snapshot executing cancelled completed : State

-- Equality of states.
abbrev pub is_state : State → State → Bool
is_state queued_ready queued_ready = true
is_state queued_delayed queued_delayed = true
is_state ready_snapshot ready_snapshot = true
is_state executing executing = true
is_state cancelled cancelled = true
is_state completed completed = true
is_state _ _ = false

pub record Control : Type 0 where
  pub id : ℕ
  pub periodic : Bool
  pub reschedule_requested : Bool
  pub reschedule_due : ℤ
  pub state : State

abbrev pub new_control : ℕ → State → Bool → Control
new_control id state periodic = record {
  id = id;
  periodic = periodic;
  reschedule_requested = false;
  reschedule_due = pos 0;
  state = state;
}

pub record Entry : Type 0 where
  pub id : ℕ
  pub seq : ℕ
  pub priority : TaskPriority
  pub due : ℤ
  pub periodic : Bool
  pub interval : ℤ
  pub periodic_schedule : PeriodicSchedule
  pub planned_due : ℤ
  pub control : ℕ
  pub task : Task

-- The comparator of the delayed heap: `lhs` comes after `rhs`.
unfoldable pub delayed_sooner : Entry → Entry → Bool
delayed_sooner lhs rhs =
    if ltb_ℤ rhs.due lhs.due || ltb_ℤ lhs.due rhs.due
    then ltb_ℤ rhs.due lhs.due
    else ltb rhs.seq lhs.seq

-- The three deques of `m_ready`, by priority_index 0, 1, 2.
pub record Queues : Type 0 where
  pub high_queue : List Entry
  pub normal_queue : List Entry
  pub low_queue : List Entry

unfoldable pub push_back : TaskPriority → Entry → Queues → Queues
push_back high e q = record q { high_queue = q.high_queue ++ (e ∷ []) }
push_back normal e q = record q { normal_queue = q.normal_queue ++ (e ∷ []) }
push_back low e q = record q { low_queue = q.low_queue ++ (e ∷ []) }

unfoldable pub push_front : TaskPriority → Entry → Queues → Queues
push_front high e q = record q { high_queue = e ∷ q.high_queue }
push_front normal e q = record q { normal_queue = e ∷ q.normal_queue }
push_front low e q = record q { low_queue = e ∷ q.low_queue }

-- All ready entries in the order in which `process` takes them.
abbrev pub entries : Queues → List Entry
entries q = q.high_queue ++ (q.normal_queue ++ q.low_queue)

-- `delayed_heap` lists the heap in the order in which its front is popped. `notified` records the
-- notifiers on which notify() was called, the latest first.
pub record Manager : Type 0 where
  pub ready : Queues
  pub delayed_heap : List Entry
  pub index : List (ℕ × ℕ)
  pub controls : ℕ → Control
  pub allocated : ℕ
  pub ready_count : ℕ
  pub pending_count : ℕ
  pub next_id : ℕ
  pub next_seq : ℕ
  pub closed : Bool
  pub notifier : Option ℕ
  pub exception_handler : Option ℕ
  pub notified : List ℕ

-- The constructor, with the notifier that it is given.
unfoldable pub new_manager : Option ℕ → Manager
new_manager notifier = record {
  ready = record { high_queue = []; normal_queue = []; low_queue = [] };
  delayed_heap = [];
  index = [];
  controls = λ p. new_control 0 completed false;
  allocated = 0;
  ready_count = 0;
  pending_count = 0;
  next_id = 1;
  next_seq = 1;
  closed = false;
  notifier = notifier;
  exception_handler = none;
  notified = [];
}

-- std::unordered_map::find, emplace (which keeps an existing key) and erase.
unfoldable pub find_index : ℕ → List (ℕ × ℕ) → Option ℕ
find_index id [] = none
find_index id ((k, p) ∷ rest) = if k == id then some p else find_index id rest

unfoldable pub emplace_index : ℕ → ℕ → List (ℕ × ℕ) → List (ℕ × ℕ)
unfolding find_index
emplace_index id p index = elim (find_index id index) [ none ↦ (id, p) ∷ index | some _ ↦ index ]

unfoldable pub erase_index : ℕ → List (ℕ × ℕ) → List (ℕ × ℕ)
erase_index id [] = []
erase_index id ((k, p) ∷ rest) =
    let others = erase_index id rest in if k == id then others else (k, p) ∷ others

unfoldable pub forget : ℕ → Manager → Manager
forget id m = record m { index = erase_index id m.index }

unfoldable pub set_control : ℕ → Control → Manager → Manager
set_control p c m = record m { controls = write m.controls p c }

unfoldable pub set_state : ℕ → State → Manager → Manager
unfolding set_control
set_state p desired m = set_control p (record (m.controls p) { state = desired }) m

-- compare_exchange_strong on a control's state: `none` when the state is not `expected`.
unfoldable pub transition : ℕ → State → State → Manager → Option Manager
unfolding set_state
transition p expected desired m =
    if is_state expected (m.controls p).state then some (set_state p desired m) else none

-- m_next_id and m_next_seq: the value handed out, and the counter afterwards.
unfoldable pub next_id : ℕ → ℕ × ℕ
next_id counter =
    if counter == 0
    then (add_one64 counter, add_one64 (add_one64 counter))
    else (counter, add_one64 counter)

unfoldable pub next_seq : ℕ → ℕ × ℕ
next_seq counter = (counter, add_one64 counter)

unfoldable pub increment_ready_count : Manager → Manager
increment_ready_count m = record m { ready_count = add_one64 m.ready_count }

unfoldable pub decrement_ready_count : Manager → Manager
decrement_ready_count m = record m { ready_count = sub_one64 m.ready_count }

unfoldable pub increment_pending_count : Manager → Manager
increment_pending_count m = record m { pending_count = add_one64 m.pending_count }

unfoldable pub decrement_pending_count : Manager → Manager
decrement_pending_count m = record m { pending_count = sub_one64 m.pending_count }

unfoldable pub record_notify : Option ℕ → Manager → Manager
record_notify none m = m
record_notify (some n) m = record m { notified = n ∷ m.notified }

unfoldable pub notify_work_available : Manager → Manager
unfolding record_notify
notify_work_available m = record_notify m.notifier m

unfoldable pub set_notifier : Option ℕ → Manager → Manager
set_notifier notifier m = record m { notifier = notifier }

unfoldable pub reset_notifier : Manager → Manager
reset_notifier m = record m { notifier = none }

unfoldable pub set_exception_handler : Option ℕ → Manager → Manager
set_exception_handler handler m = record m { exception_handler = handler }

abbrev pub ready_count : Manager → ℕ
ready_count m = m.ready_count

abbrev pub pending_count : Manager → ℕ
pending_count m = m.pending_count

abbrev pub has_ready : Manager → Bool
has_ready m = not (m.ready_count == 0)

abbrev pub has_pending : Manager → Bool
has_pending m = not (m.pending_count == 0)
