-- ===== src/TaskManager/Sorted/Process.antt =====
-- process() keeps the delayed heap in order by deadline.
use event_hub_cpp.Prelude.{
  ℕ, ◌≡◌, refl, sym, ◌==◌, if_ind, Option, none, some, List, [], ◌∷◌, Option-cases, length, ◌+◌,
  inl, inr, ℤ, subst,
}
use event_hub_cpp.TaskManager.Types.{
  queued_ready, ready_snapshot, executing, Entry, Manager, new_manager, set_control, set_state,
  increment_ready_count, decrement_ready_count, decrement_pending_count,
}
use event_hub_cpp.TaskManager.Delayed.{promote_due, prune_delayed_top, next_deadline}
use event_hub_cpp.TaskManager.Process.{
  Taking, take_entry, take_queue, take_ready_batch, finish_after_exception, restore_entry,
  restore_unrun, Outcome, report_to, report_exception, run_turn, run_batch, process,
}
use event_hub_cpp.TaskManager.Turns.{apply_all, Turn, Behaviour}
use event_hub_cpp.TaskManager.Invariant.Delayed.{transition_cases}
use event_hub_cpp.TaskManager.Due.{Sorted, promote_due-Exhausted, prune_heap-Sorted}
use event_hub_cpp.TaskManager.Sorted.Submit.{SortedHeap}
use event_hub_cpp.TaskManager.Sorted.Commands.{apply-SortedHeap, apply_all-SortedHeap}
use event_hub_cpp.TaskManager.Invariant.Start.{started}
use event_hub_cpp.TaskManager.Invariant.Process.{start_cases}
use event_hub_cpp.TaskManager.History.{
  Operation, calls, processes, asks_deadline, perform, run_history,
}
use event_hub_cpp.TaskManager.Sorted.Finish.{success-SortedHeap, exception-SortedHeap}

take_entry-heap :
    (e : Entry) (t : Taking) → (take_entry e t).manager.delayed_heap ≡ t.manager.delayed_heap
unfolding take_entry decrement_ready_count set_state set_control
take_entry-heap e t = elim (transition_cases e.control queued_ready ready_snapshot t.manager) [
  | inl s ↦ rw (s, take_entry) refl
  | inr (s, was) ↦ rw (s, take_entry) refl
]

take_queue-SortedHeap :
    (max : ℕ) (es : List Entry) (t : Taking)
    → SortedHeap t.manager
    → SortedHeap (take_queue max es t).1.manager
unfolding take_queue
take_queue-SortedHeap max [] t s = s
take_queue-SortedHeap max (e ∷ es) t s =
    if_ind (λ (r : List Entry × Taking). SortedHeap r.1.manager) (length t.batch == max) (λ k. s)
      (λ k.
        take_queue-SortedHeap max es (take_entry e t) (subst Sorted (sym (take_entry-heap e t)) s))

take_ready_batch-SortedHeap :
    (max : ℕ) (m : Manager) → SortedHeap m → SortedHeap (take_ready_batch max m).manager
unfolding take_ready_batch
take_ready_batch-SortedHeap max m s =
    let start : Taking = record { manager = m; batch = [] } in
    let high = take_queue max m.ready.high_queue start in
    let normal = take_queue max m.ready.normal_queue high.1 in
    take_queue-SortedHeap max m.ready.low_queue normal.1 (
      take_queue-SortedHeap max m.ready.normal_queue high.1
        (take_queue-SortedHeap max m.ready.high_queue start s))

restore_entry-heap : (e : Entry) (m : Manager) → (restore_entry e m).delayed_heap ≡ m.delayed_heap
unfolding restore_entry increment_ready_count set_state set_control
restore_entry-heap e m = elim (transition_cases e.control ready_snapshot queued_ready m) [
  | inl s ↦ rw (s, restore_entry) refl
  | inr (s, was) ↦ rw (s, restore_entry) refl
]

restore_unrun-SortedHeap :
    (es : List Entry) (m : Manager) → SortedHeap m → SortedHeap (restore_unrun es m)
unfolding restore_unrun
restore_unrun-SortedHeap [] m s = s
restore_unrun-SortedHeap (e ∷ es) m s =
    subst Sorted (sym (restore_entry-heap e (restore_unrun es m))) (restore_unrun-SortedHeap es m s)

report_to-SortedHeap :
    (handler : Option ℕ) (turn : Turn) (running : ℕ) (m : Manager)
    → SortedHeap m
    → SortedHeap (report_to handler turn running m).0
unfolding report_to
report_to-SortedHeap none turn running m s = s
report_to-SortedHeap (some h) turn running m s =
    apply_all-SortedHeap running turn.handler_commands m s

run_turn-SortedHeap :
    (turn : Turn) (e : Entry) (m : Manager) → SortedHeap m → SortedHeap (run_turn turn e m).0
unfolding run_turn report_exception
run_turn-SortedHeap turn e m s =
    let m₁ = apply_all e.id turn.commands m in
    let ran = apply_all-SortedHeap e.id turn.commands m s in
    let failed = finish_after_exception e m₁ in
    if_ind (λ (r : Manager × Option Outcome). SortedHeap r.0) turn.throws
      (λ t.
        report_to-SortedHeap failed.exception_handler turn e.id failed
          (exception-SortedHeap e m₁ ran))
      (λ t. success-SortedHeap turn.now turn.later e m₁ ran)

run_batch-SortedHeap :
    (behaviour : Behaviour) (es : List Entry) (processed : ℕ) (m : Manager)
    → SortedHeap m
    → SortedHeap (run_batch behaviour es processed m).0
unfolding run_batch
run_batch-SortedHeap behaviour [] processed m s = s
run_batch-SortedHeap behaviour (e ∷ es) processed m s = elim (start_cases e m) [
  | inl t ↦ rw (t, run_batch) (run_batch-SortedHeap behaviour es processed m s)
  | inr (t, was) ↦
      let begun = started e (set_state e.control executing m) in
      let turn = behaviour e begun in
      let ready : SortedHeap begun =
        if_ind (λ (y : Manager). SortedHeap y) e.periodic (λ k. unfold set_state set_control in s)
          (λ k. unfold set_state set_control decrement_pending_count in s) in
      let ran = run_turn-SortedHeap turn e begun ready in
      elim (Option-cases (run_turn turn e begun).1) [
        | inl on ↦ rw (t, run_batch, on) (run_batch-SortedHeap behaviour es (processed + 1) _ ran)
        | inr (outcome, stop) ↦ rw (t, run_batch, stop) (restore_unrun-SortedHeap es _ ran)
      ]
]

process-SortedHeap :
    (behaviour : Behaviour) (now : ℤ) (max_tasks : ℕ) (m : Manager)
    → SortedHeap m
    → SortedHeap (process behaviour now max_tasks m).0
unfolding process
process-SortedHeap behaviour now max_tasks m s =
    let due = promote_due now m in
    let taking = take_ready_batch max_tasks due in
    if_ind (λ (r : Manager × Outcome). SortedHeap r.0) (max_tasks == 0) (λ z. s)
      (λ nz.
        run_batch-SortedHeap behaviour taking.batch 0 taking.manager
          (take_ready_batch-SortedHeap max_tasks due (promote_due-Exhausted now m s).1))

perform-SortedHeap : (o : Operation) (m : Manager) → SortedHeap m → SortedHeap (perform o m)
unfolding perform next_deadline prune_delayed_top
perform-SortedHeap (calls running c) m s = apply-SortedHeap running c m s
perform-SortedHeap (processes behaviour now max_tasks) m s =
    process-SortedHeap behaviour now max_tasks m s
perform-SortedHeap asks_deadline m s = prune_heap-Sorted m.controls m.delayed_heap s

run_history_from :
    (history : List Operation) (m : Manager) → SortedHeap m → SortedHeap (run_history history m)
unfolding run_history
run_history_from [] m s = s
run_history_from (o ∷ history) m s =
    run_history_from history (perform o m) (perform-SortedHeap o m s)

-- After any sequence of calls of a new manager, calls of process() with any callbacks included, no
-- entry of the delayed heap is due before an entry that stands in front of it.
pub run_history-SortedHeap :
    (notifier : Option ℕ) (history : List Operation)
    → SortedHeap (run_history history (new_manager notifier))
unfolding new_manager
run_history-SortedHeap notifier history = run_history_from history (new_manager notifier) tt
