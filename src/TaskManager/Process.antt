-- ===== src/TaskManager/Process.antt =====
-- The consumer side of TaskManager: process() and what it does with each entry of a batch.
use event_hub_cpp.Prelude.{
  ℕ, ◌+◌, ◌==◌, ℤ, ◌+ℤ◌, leb_ℤ, if◌then◌else◌, Bool, false, Option, none, some, List, [], ◌∷◌, ◌++◌,
  length, add_one64,
}
use event_hub_cpp.Task.{fixed_delay, fixed_rate, PeriodicSchedule}
use event_hub_cpp.TaskManager.Types.{
  State, queued_ready, queued_delayed, ready_snapshot, executing, cancelled, completed, is_state,
  Entry, Manager, Queues, forget, set_control, transition, increment_ready_count,
  decrement_ready_count, decrement_pending_count, next_seq, push_front,
}
use event_hub_cpp.TaskManager.Delayed.{promote_due}
use event_hub_cpp.TaskManager.Submit.{place_entry}
use event_hub_cpp.TaskManager.Turns.{apply_all, Turn, Behaviour}

-- The manager and the batch while a ready queue is emptied into the batch.
pub record Taking : Type 0 where
  pub manager : Manager
  pub batch : List Entry

unfoldable pub take_entry : Entry → Taking → Taking
take_entry e t = elim (transition e.control queued_ready ready_snapshot t.manager) [
  | none ↦ t
  | some m ↦ record { manager = decrement_ready_count m; batch = t.batch ++ (e ∷ []) }
]

-- The inner loop of take_ready_batch_locked: what is left of the queue, and the batch.
unfoldable pub take_queue : ℕ → List Entry → Taking → List Entry × Taking
take_queue max_tasks [] t = ([], t)
take_queue max_tasks (e ∷ rest) t =
    if length t.batch == max_tasks
    then (e ∷ rest, t)
    else take_queue max_tasks rest (take_entry e t)

unfoldable pub take_ready_batch : ℕ → Manager → Taking
take_ready_batch max_tasks m =
    let q = m.ready in
    let (high, t₁) = take_queue max_tasks q.high_queue (record { manager = m; batch = [] }) in
    let (normal, t₂) = take_queue max_tasks q.normal_queue t₁ in
    let (low, t₃) = take_queue max_tasks q.low_queue t₂ in
    let left : Queues = record { high_queue = high; normal_queue = normal; low_queue = low } in
    record { manager = record (t₃.manager) { ready = left }; batch = t₃.batch }

abbrev pub schedule_due : PeriodicSchedule → Entry → ℤ → ℤ
schedule_due fixed_rate entry now = entry.planned_due +ℤ entry.interval
schedule_due fixed_delay entry now = now +ℤ entry.interval

unfoldable pub next_periodic_due : Entry → ℤ → ℤ
next_periodic_due entry now = schedule_due entry.periodic_schedule entry now

-- A one-shot task that is queued again counts as pending again.
unfoldable pub count_again : (periodic : Bool) → Manager → Manager
count_again periodic m = record m {
  pending_count = if periodic then m.pending_count else add_one64 m.pending_count;
}

-- `now` is the reading of the clock that the call makes.
unfoldable pub enqueue_existing_locked : (now : ℤ) → Entry → (due : ℤ) → Manager → Manager
enqueue_existing_locked now entry due m =
    let ready : Bool = leb_ℤ due now in
    let desired : State = if ready then queued_ready else queued_delayed in
    elim (transition entry.control executing desired m) [
      | none ↦ m
      | some m₁ ↦
          let m₂ = count_again entry.periodic m₁ in
          let (seq, counter) = next_seq m₂.next_seq in
          let m₃ = record m₂ { next_seq = counter } in
          place_entry ready (record entry { seq = seq; due = due; planned_due = due }) m₃
    ]

unfoldable pub clear_reschedule : ℕ → Manager → Manager
unfolding set_control
clear_reschedule p m = set_control p (record (m.controls p) { reschedule_requested = false }) m

-- finish_after_success for a task whose state is still `executing`.
unfoldable pub finish_executing : (now later : ℤ) → Entry → Manager → Manager
finish_executing now later entry m =
    let c = m.controls entry.control in
    if m.closed
    then elim (transition entry.control executing completed m) [
      | none ↦ m
      | some m₁ ↦
          let m₂ = if entry.periodic then decrement_pending_count m₁ else m₁ in
          forget entry.id (clear_reschedule entry.control m₂)
    ]
    else if c.reschedule_requested
    then enqueue_existing_locked later entry c.reschedule_due (clear_reschedule entry.control m)
    else if entry.periodic
    then enqueue_existing_locked later entry (next_periodic_due entry now) m
    else elim (transition entry.control executing completed m) [
      | none ↦ m
      | some m₁ ↦ forget entry.id m₁
    ]

-- `now` is the reading for the next period, `later` the one in enqueue_existing_locked.
unfoldable pub finish_after_success : (now later : ℤ) → Entry → Manager → Manager
finish_after_success now later entry m =
    let state = (m.controls entry.control).state in
    if is_state cancelled state
    then forget entry.id (clear_reschedule entry.control m)
    else if is_state executing state
    then finish_executing now later entry m
    else m

unfoldable pub finish_after_exception : Entry → Manager → Manager
finish_after_exception entry m =
    let m₀ = clear_reschedule entry.control m in
    let state = (m₀.controls entry.control).state in
    if is_state executing state
    then elim (transition entry.control executing completed m₀) [
      | none ↦ m₀
      | some m₁ ↦ forget entry.id (if entry.periodic then decrement_pending_count m₁ else m₁)
    ]
    else if is_state cancelled state
    then forget entry.id m₀
    else m₀

-- The body of the loop of restore_unrun.
unfoldable pub restore_entry : Entry → Manager → Manager
restore_entry e m = elim (transition e.control ready_snapshot queued_ready m) [
  | none ↦ m
  | some m' ↦ increment_ready_count (record m' { ready = push_front e.priority e m'.ready })
]

-- The unstarted rest of the batch goes back to the front of the queues, the last entry first.
unfoldable pub restore_unrun : List Entry → Manager → Manager
restore_unrun [] m = m
restore_unrun (e ∷ rest) m = restore_entry e (restore_unrun rest m)

-- How process() ends: with the count of callbacks, or by a callback's or the handler's exception.
pub data Outcome : Type 0 where
  returned : ℕ → Outcome
  callback_exception handler_exception : Outcome

-- The exchange ready_snapshot → executing, and the pending count of a one-shot task.
unfoldable pub start_entry : Entry → Manager → Option Manager
start_entry e m = elim (transition e.control ready_snapshot executing m) [
  | none ↦ none
  | some m' ↦ some (if e.periodic then m' else decrement_pending_count m')
]

-- What becomes of an exception under the installed handler, if there is one: `none` means that it
-- was reported and that the loop goes on.
unfoldable pub report_to : Option ℕ → Turn → ℕ → Manager → Manager × Option Outcome
report_to none turn running m = (m, some callback_exception)
report_to (some handler) turn running m = (
  apply_all running turn.handler_commands m,
  if turn.handler_throws then some handler_exception else none,
)

-- report_exception, with the handler installed at that time.
unfoldable pub report_exception : Turn → ℕ → Manager → Manager × Option Outcome
unfolding report_to
report_exception turn running m = report_to m.exception_handler turn running m

-- The turn of a started entry: the state, and an outcome that ends process().
unfoldable pub run_turn : Turn → Entry → Manager → Manager × Option Outcome
run_turn turn e m =
    let m₁ = apply_all e.id turn.commands m in
    if turn.throws
    then report_exception turn e.id (finish_after_exception e m₁)
    else (finish_after_success turn.now turn.later e m₁, none)

unfoldable pub run_batch : Behaviour → List Entry → ℕ → Manager → Manager × Outcome
run_batch behaviour [] processed m = (m, returned processed)
run_batch behaviour (e ∷ rest) processed m = elim (start_entry e m) [
  | none ↦ run_batch behaviour rest processed m
  | some started ↦
      let (m', ended) = run_turn (behaviour e started) e started in
      elim ended [
        | none ↦ run_batch behaviour rest (processed + 1) m'
        | some outcome ↦ (restore_unrun rest m', outcome)
      ]
]

unfoldable pub process : Behaviour → (now : ℤ) → (max_tasks : ℕ) → Manager → Manager × Outcome
process behaviour now max_tasks m =
    if max_tasks == 0
    then (m, returned 0)
    else let taking = take_ready_batch max_tasks (promote_due now m) in
      run_batch behaviour taking.batch 0 taking.manager
