-- ===== src/TaskManager/Batch.antt =====
-- The size of a batch and the count that process() returns.
use event_hub_cpp.Prelude.{
  ℕ, ◌+◌, ◌≤◌, ◌≡◌, ℤ, Option, none, some, List, [], ◌∷◌, length, length-append, Bool-cases,
  Option-cases, inl, inr, arith, ◌==◌, ==→ne,
}
use event_hub_cpp.TaskManager.Types.{
  queued_ready, ready_snapshot, executing, Entry, Manager, set_state,
}
use event_hub_cpp.TaskManager.Delayed.{promote_due}
use event_hub_cpp.TaskManager.Process.{
  Taking, take_entry, take_queue, take_ready_batch, Outcome, returned, callback_exception,
  handler_exception, run_turn, run_batch, process, report_to, report_exception,
}
use event_hub_cpp.TaskManager.Turns.{Behaviour, Turn}
use event_hub_cpp.TaskManager.Invariant.Delayed.{transition_cases}
use event_hub_cpp.TaskManager.Invariant.Start.{started}
use event_hub_cpp.TaskManager.Invariant.Process.{start_cases}

take_entry-length : (e : Entry) (t : Taking) → length (take_entry e t).batch ≤ length t.batch + 1
unfolding take_entry
take_entry-length e t = elim (transition_cases e.control queued_ready ready_snapshot t.manager) [
  | inl s ↦ rw (s, take_entry) (omega arith)
  | inr (s, was) ↦ rw (s, take_entry, length-append) (omega arith)
]

take_queue-length :
    (max : ℕ) (es : List Entry) (t : Taking)
    → length t.batch ≤ max
    → length (take_queue max es t).1.batch ≤ max
unfolding take_queue
take_queue-length max [] t small = small
take_queue-length max (e ∷ es) t small = elim (Bool-cases (length t.batch == max)) [
  | inl full ↦ rw full small
  | inr room ↦ rw room (
      take_queue-length max es (take_entry e t)
        (omega (arith, take_entry-length e t, ==→ne (length t.batch) max room, small)))
]

-- A batch holds at most max_tasks entries.
pub take_ready_batch-length : (max : ℕ) (m : Manager) → length (take_ready_batch max m).batch ≤ max
unfolding take_ready_batch
take_ready_batch-length max m =
    let start : Taking = record { manager = m; batch = [] } in
    let high = take_queue max m.ready.high_queue start in
    let normal = take_queue max m.ready.normal_queue high.1 in
    take_queue-length max m.ready.low_queue normal.1 (
      take_queue-length max m.ready.normal_queue high.1
        (take_queue-length max m.ready.high_queue start (omega arith)))

-- The count that an outcome carries; an exception carries none.
abbrev pub count_of : Outcome → ℕ
count_of (returned n) = n
count_of callback_exception = 0
count_of handler_exception = 0

report_to-count :
    (handler : Option ℕ) (turn : Turn) (running : ℕ) (m : Manager) (outcome : Outcome)
    → (report_to handler turn running m).1 ≡ some outcome
    → count_of outcome ≡ 0
unfolding report_to
report_to-count none turn running m outcome h = ground (arith, h)
report_to-count (some handler) turn running m outcome h = ground (arith, h)

run_turn-count :
    (turn : Turn) (e : Entry) (m : Manager) (outcome : Outcome)
    → (run_turn turn e m).1 ≡ some outcome
    → count_of outcome ≡ 0
unfolding run_turn report_exception
run_turn-count turn e m outcome h = elim (Bool-cases turn.throws) [
  | inl t ↦ report_to-count _ turn e.id _ outcome (simp t at h)
  | inr t ↦ ground (arith, t, h)
]

run_batch-count :
    (behaviour : Behaviour) (es : List Entry) (processed : ℕ) (m : Manager)
    → count_of (run_batch behaviour es processed m).1 ≤ processed + length es
unfolding run_batch
run_batch-count behaviour [] processed m = omega arith
run_batch-count behaviour (e ∷ es) processed m = elim (start_cases e m) [
  | inl t ↦ rw (t, run_batch) (omega (arith, run_batch-count behaviour es processed m))
  | inr (t, was) ↦
      let begun = started e (set_state e.control executing m) in
      let ran = run_turn (behaviour e begun) e begun in
      elim (Option-cases ran.1) [
        | inl on ↦
            rw (t, run_batch, on)
              (omega (arith, run_batch-count behaviour es (processed + 1) ran.0))
        | inr (outcome, stop) ↦
            rw (t, run_batch, stop)
              (omega (arith, run_turn-count (behaviour e begun) e begun outcome stop))
      ]
]

-- One call of process() runs at most max_tasks callbacks to their end: the count that it returns is
-- at most max_tasks, for any callbacks.
pub process-count :
    (behaviour : Behaviour) (now : ℤ) (max_tasks : ℕ) (m : Manager)
    → count_of (process behaviour now max_tasks m).1 ≤ max_tasks
unfolding process
process-count behaviour now max_tasks m = elim (Bool-cases (max_tasks == 0)) [
  | inl z ↦ rw z (omega arith)
  | inr nz ↦
      let taken = take_ready_batch max_tasks (promote_due now m) in
      rw nz (
        omega (
          arith,
          run_batch-count behaviour taken.batch 0 taken.manager,
          take_ready_batch-length max_tasks (promote_due now m),
        ))
]
