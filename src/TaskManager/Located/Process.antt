-- ===== src/TaskManager/Located/Process.antt =====
-- process() keeps every task in its place and leaves none in a batch or running.
use event_hub_cpp.Prelude.{
  ℕ, ◌+◌, ◌≡◌, inl, inr, arith, Option, none, some, List, [], ◌∷◌, append-nil, subst, sym,
  Bool-cases, Option-cases, ℤ, ◌==◌,
}
use event_hub_cpp.TaskManager.Types.{ready_snapshot, executing, Entry, Manager, set_state}
use event_hub_cpp.TaskManager.Process.{
  start_entry, report_to, report_exception, run_turn, run_batch, process, finish_after_exception,
}
use event_hub_cpp.TaskManager.Turns.{Turn, Behaviour, apply_all}
use event_hub_cpp.TaskManager.Invariant.Defs.{IsValid, IsMade, IsMade-later}
use event_hub_cpp.TaskManager.Invariant.Submit.{Keeps-trans}
use event_hub_cpp.TaskManager.Invariant.Delayed.{Made, transition_cases, promote_due-Keeps}
use event_hub_cpp.TaskManager.Invariant.Commands.{apply_all-Keeps}
use event_hub_cpp.TaskManager.Invariant.Take.{take_ready_batch-Keeps}
use event_hub_cpp.TaskManager.Invariant.Finish.{same-IsMade, finish_after_exception-Keeps}
use event_hub_cpp.TaskManager.Invariant.Start.{started, start-Keeps}
use event_hub_cpp.TaskManager.Invariant.Process.{start_cases, run_turn-Keeps}
use event_hub_cpp.TaskManager.Located.Defs.{Located}
use event_hub_cpp.TaskManager.Located.Clear.{transition_refused, apply_all-Located}
use event_hub_cpp.TaskManager.Located.Take.{take_ready_batch-Located}
use event_hub_cpp.TaskManager.Located.Promote.{promote_due-Located}
use event_hub_cpp.TaskManager.Located.Finish.{
  skip-Located, start-Located, finish_after_success-Located, finish_after_exception-Located,
}
use event_hub_cpp.TaskManager.Located.Restore.{restore_unrun-Located}

start_refused :
    (e : Entry) (b x : List Entry) (m : Manager)
    → start_entry e m ≡ none
    → Located (e ∷ b) x m
    → Located b x m
unfolding start_entry
start_refused e b x m refused loc = elim (transition_cases e.control ready_snapshot executing m) [
  | inl t ↦ skip-Located e b x m (transition_refused e.control ready_snapshot executing m t) loc
  | inr (t, was) ↦ ground (arith, t, refused)
]

module _ (b : List Entry) where
  report_to-Located :
      (handler : Option ℕ) (turn : Turn) (running : ℕ) (m : Manager)
      → IsValid m
      → Located b [] m
      → Located b [] (report_to handler turn running m).0
  unfolding report_to
  report_to-Located none turn running m v loc = loc
  report_to-Located (some h) turn running m v loc =
      apply_all-Located b [] running turn.handler_commands m v loc

  run_turn-Located :
      (turn : Turn) (e : Entry) (m : Manager)
      → IsMade m.allocated m.controls e
      → IsValid m
      → Located b (e ∷ []) m
      → Located b [] (run_turn turn e m).0
  unfolding run_turn report_exception
  run_turn-Located turn e m h v loc =
      let ran = apply_all-Keeps e.id turn.commands m v in
      let still = same-IsMade e ran.extends h in
      let m₁ = apply_all e.id turn.commands m in
      let there = apply_all-Located b (e ∷ []) e.id turn.commands m v loc in
      elim (Bool-cases turn.throws) [
        | inl t ↦
            let failed = finish_after_exception-Keeps e m₁ still ran.valid in
            simp t (
              report_to-Located (finish_after_exception e m₁).exception_handler turn e.id _
                failed.valid (finish_after_exception-Located b [] e m₁ still.0 there))
        | inr t ↦ simp t (finish_after_success-Located b [] e m₁ still.0 turn.now turn.later there)
      ]

run_batch-Located :
    (behaviour : Behaviour) (es : List Entry) (processed : ℕ) (m : Manager)
    → Made m es
    → IsValid m
    → Located es [] m
    → Located [] [] (run_batch behaviour es processed m).0
unfolding run_batch
run_batch-Located behaviour [] processed m h v loc = loc
run_batch-Located behaviour (e ∷ es) processed m h v loc = elim (start_cases e m) [
  | inl t ↦
      rw (t, run_batch)
        (run_batch-Located behaviour es processed m h.1 v (start_refused e es [] m t loc))
  | inr (t, was) ↦
      let begun = started e (set_state e.control executing m) in
      let first = start-Keeps e m h.0 v was in
      let turn = behaviour e begun in
      let made = same-IsMade e first.extends h.0 in
      let ran = run_turn-Keeps turn e begun made first.valid in
      let there = run_turn-Located es turn e begun made first.valid (start-Located e es m loc) in
      elim (Option-cases (run_turn turn e begun).1) [
        | inl on ↦
            rw (t, run_batch, on)
              (run_batch-Located behaviour es (processed + 1) _
                (IsMade-later (Keeps-trans first ran).extends es h.1) ran.valid there)
        | inr (outcome, stop) ↦
            rw (t, run_batch, stop)
              (restore_unrun-Located es [] [] _ (
                subst (λ (ys : List Entry). Located ys [] (run_turn turn e begun).0)
                  (sym (append-nil es)) there))
      ]
]

-- Let every control of a manager have its entry in the container that its state names: the ready
-- queues for queued_ready, the delayed heap for queued_delayed, none being ready_snapshot or
-- executing. Then the same holds after process(), whatever the callbacks do and however it ends.
pub process-Located :
    (behaviour : Behaviour) (now : ℤ) (max_tasks : ℕ) (m : Manager)
    → IsValid m
    → Located [] [] m
    → Located [] [] (process behaviour now max_tasks m).0
unfolding process
process-Located behaviour now max_tasks m v loc = elim (Bool-cases (max_tasks == 0)) [
  | inl z ↦ rw z loc
  | inr nz ↦
      let due = promote_due-Keeps now m v in
      let (taken, batch) = take_ready_batch-Keeps max_tasks _ due.valid in
      rw nz (
        run_batch-Located behaviour _ 0 _ batch taken.valid
          (take_ready_batch-Located [] max_tasks _ (promote_due-Located [] [] now m loc)))
]
