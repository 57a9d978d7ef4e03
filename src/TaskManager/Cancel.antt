-- ===== src/TaskManager/Cancel.antt =====
-- Cancellation, closing, the operations of a running task's context, and the queries that plan a
-- wait. Each operation runs under the manager's mutex and is one step of the model.
use event_hub_cpp.Prelude.{
  ℕ, ◌+◌, ◌==◌, ℤ, pos, ◌-ℤ◌, leb_ℤ, ltb_ℤ, if◌then◌else◌, Bool, true, false, Option, none, some,
  List, [], ◌∷◌,
}
use event_hub_cpp.Task.{TaskContext}
use event_hub_cpp.TaskManager.Types.{
  State, queued_ready, queued_delayed, ready_snapshot, executing, cancelled, completed, is_state,
  Entry, Manager, Queues, find_index, forget, set_control, transition, decrement_ready_count,
  decrement_pending_count, notify_work_available, has_ready,
}
use event_hub_cpp.TaskManager.Delayed.{next_deadline}

-- The switch of cancel() on the state that was loaded, for the control `p` of the task `id`.
unfoldable pub cancel_control : ℕ → ℕ → State → Manager → Manager × Bool
unfolding set_control forget
cancel_control id p queued_ready m = elim (transition p queued_ready cancelled m) [
  | none ↦ (m, false)
  | some m' ↦ (forget id (decrement_pending_count (decrement_ready_count m')), true)
]
cancel_control id p queued_delayed m = elim (transition p queued_delayed cancelled m) [
  | none ↦ (m, false)
  | some m' ↦ (forget id (decrement_pending_count m'), true)
]
cancel_control id p ready_snapshot m = elim (transition p ready_snapshot cancelled m) [
  | none ↦ (m, false)
  | some m' ↦ (forget id (decrement_pending_count m'), true)
]
cancel_control id p executing m =
    if (m.controls p).periodic
    then elim (transition p executing cancelled m) [
      | none ↦ (m, false)
      | some m' ↦
          let m'' = decrement_pending_count m' in
          (set_control p (record (m''.controls p) { reschedule_requested = false }) m'', true)
    ]
    else (m, false)
cancel_control id p cancelled m = (m, false)
cancel_control id p completed m = (m, false)

unfoldable pub cancel : ℕ → Manager → Manager × Bool
cancel id m = if id == 0 then (m, false) else elim (find_index id m.index) [
  | none ↦ (m, false)
  | some p ↦ cancel_control id p (m.controls p).state m
]

-- cancel_from_context, for the control `p` that the index gives.
unfoldable pub context_cancel_control : ℕ → Manager → Manager × Bool
unfolding set_control
context_cancel_control p m = elim (transition p executing cancelled m) [
  | none ↦ (m, false)
  | some m' ↦
      let m'' = set_control p (record (m'.controls p) { reschedule_requested = false }) m' in
      (if (m''.controls p).periodic then decrement_pending_count m'' else m'', true)
]

unfoldable pub cancel_from_context : ℕ → Manager → Manager × Bool
cancel_from_context id m =
    if id == 0
    then (m, false)
    else elim (find_index id m.index) [ none ↦ (m, false) | some p ↦ context_cancel_control p m ]

unfoldable pub is_cancelled_for_context : ℕ → Manager → Bool
is_cancelled_for_context id m = if id == 0 then false else elim (find_index id m.index) [
  | none ↦ false
  | some p ↦ is_state cancelled (m.controls p).state
]

unfoldable pub request_reschedule : ℕ → ℤ → Manager → Manager × Bool
unfolding set_control
request_reschedule p due m =
    if is_state executing (m.controls p).state
    then (
      set_control p (record (m.controls p) { reschedule_requested = true; reschedule_due = due }) m,
      true,
    )
    else (m, false)

unfoldable pub reschedule_from_context : ℕ → ℤ → Manager → Manager × Bool
reschedule_from_context id due m =
    if id == 0
    then (m, false)
    else if m.closed
    then (m, false)
    else elim (find_index id m.index) [ none ↦ (m, false) | some p ↦ request_reschedule p due m ]

-- The context given to the running task `id`.
unfoldable pub make_context : ℕ → TaskContext Manager
unfolding cancel_from_context is_cancelled_for_context reschedule_from_context
make_context id = record {
  owner = true;
  task_id = id;
  cancel_fn = some cancel_from_context;
  is_cancelled_fn = some is_cancelled_for_context;
  reschedule_fn = some reschedule_from_context;
}

unfoldable pub close : Manager → Manager
close m = if m.closed then m else notify_work_available (record m { closed = true })

-- A loop of clear_pending over one ready queue: the state, and the tasks dropped.
unfoldable pub clear_ready : List Entry → Manager × ℕ → Manager × ℕ
clear_ready [] (m, dropped) = (m, dropped)
clear_ready (e ∷ rest) (m, dropped) =
    clear_ready rest (elim (transition e.control queued_ready cancelled m) [
      | none ↦ (m, dropped)
      | some m' ↦ (forget e.id (decrement_pending_count (decrement_ready_count m')), dropped + 1)
    ])

unfoldable pub clear_delayed : List Entry → Manager × ℕ → Manager × ℕ
clear_delayed [] (m, dropped) = (m, dropped)
clear_delayed (e ∷ rest) (m, dropped) =
    clear_delayed rest (elim (transition e.control queued_delayed cancelled m) [
      | none ↦ (m, dropped)
      | some m' ↦ (forget e.id (decrement_pending_count m'), dropped + 1)
    ])

abbrev pub no_entries : Queues
no_entries = record { high_queue = []; normal_queue = []; low_queue = [] }

unfoldable pub clear_pending : Manager → Manager × ℕ
clear_pending m =
    let q = m.ready in
    let (m₁, dropped₁) =
      clear_ready q.low_queue (clear_ready q.normal_queue (clear_ready q.high_queue (m, 0))) in
    let (m₂, dropped₂) =
      clear_delayed m.delayed_heap (record m₁ { ready = no_entries }, dropped₁) in
    (record m₂ { delayed_heap = [] }, dropped₂)

-- The destructor.
unfoldable pub destroy : Manager → Manager
unfolding close clear_pending
destroy m = (clear_pending (close m)).0

-- The wait up to a deadline, when no work is ready.
unfoldable pub wait_until : (now cap : ℤ) → Option ℤ → ℤ
wait_until now cap none = cap
wait_until now cap (some deadline) =
    if leb_ℤ deadline now
    then pos 0
    else let until_deadline : ℤ = deadline -ℤ now in
      if ltb_ℤ until_deadline cap then until_deadline else cap

unfoldable pub recommend_wait_for : (now cap : ℤ) → Manager → Manager × ℤ
unfolding wait_until
recommend_wait_for now cap m =
    if has_ready m
    then (m, pos 0)
    else let (m', deadline) = next_deadline m in (m', wait_until now cap deadline)
