-- ===== src/TaskManager/Invariant/Process.antt =====
-- The consumer side keeps the invariant.
use event_hub_cpp.Prelude.{
  ℕ, ◌+◌, ◌≡◌, ◌⊎◌, ℤ, true, Option, none, some, List, [], ◌∷◌, Bool-cases, Option-cases, inl, inr,
  ◌==◌,
}
use event_hub_cpp.TaskManager.Types.{ready_snapshot, executing, is_state, Entry, Manager, set_state}
use event_hub_cpp.TaskManager.Process.{
  restore_unrun, start_entry, report_to, report_exception, run_turn, run_batch, process,
}
use event_hub_cpp.TaskManager.Turns.{Turn, Behaviour}
use event_hub_cpp.TaskManager.Invariant.Defs.{IsValid, IsMade, IsMade-later}
use event_hub_cpp.TaskManager.Invariant.Cancel.{Keeps, Keeps-refl}
use event_hub_cpp.TaskManager.Invariant.Submit.{Keeps-trans}
use event_hub_cpp.TaskManager.Invariant.Delayed.{Made, transition_cases, promote_due-Keeps}
use event_hub_cpp.TaskManager.Invariant.Commands.{apply_all-Keeps}
use event_hub_cpp.TaskManager.Invariant.Take.{take_ready_batch-Keeps}
use event_hub_cpp.TaskManager.Invariant.Finish.{
  same-IsMade, finish_after_success-Keeps, finish_after_exception-Keeps,
}
use event_hub_cpp.TaskManager.Invariant.Start.{started, start-Keeps, restore_entry-Keeps}

restore_unrun-Keeps :
    (es : List Entry) (m : Manager) → Made m es → IsValid m → Keeps m (restore_unrun es m)
unfolding restore_unrun
restore_unrun-Keeps [] m h v = Keeps-refl v
restore_unrun-Keeps (e ∷ es) m h v =
    let rest = restore_unrun-Keeps es m h.1 v in
    Keeps-trans rest (restore_entry-Keeps e _ (same-IsMade e rest.extends h.0) rest.valid)

-- What the loop does with an entry: it is skipped, or started.
pub start_cases :
    (e : Entry) (m : Manager)
    → (start_entry e m ≡ none)
      ⊎ ((start_entry e m ≡ some (started e (set_state e.control executing m)))
          × (is_state ready_snapshot (m.controls e.control).state ≡ true))
unfolding start_entry
start_cases e m = elim (transition_cases e.control ready_snapshot executing m) [
  | inl t ↦ inl (rw (t, start_entry))
  | inr (t, was) ↦ inr (rw (t, start_entry), was)
]

report_to-Keeps :
    (handler : Option ℕ) (turn : Turn) (running : ℕ) (m : Manager)
    → IsValid m
    → Keeps m (report_to handler turn running m).0
unfolding report_to
report_to-Keeps none turn running m v = Keeps-refl v
report_to-Keeps (some h) turn running m v = apply_all-Keeps running turn.handler_commands m v

report_exception-Keeps :
    (turn : Turn) (running : ℕ) (m : Manager)
    → IsValid m
    → Keeps m (report_exception turn running m).0
unfolding report_exception
report_exception-Keeps turn running m v = report_to-Keeps m.exception_handler turn running m v

pub run_turn-Keeps :
    (turn : Turn) (e : Entry) (m : Manager)
    → IsMade m.allocated m.controls e
    → IsValid m
    → Keeps m (run_turn turn e m).0
unfolding run_turn
run_turn-Keeps turn e m h v =
    let ran = apply_all-Keeps e.id turn.commands m v in
    let still = same-IsMade e ran.extends h in
    elim (Bool-cases turn.throws) [
      | inl t ↦
          let failed = finish_after_exception-Keeps e _ still ran.valid in
          simp t
            (Keeps-trans ran (Keeps-trans failed (report_exception-Keeps turn e.id _ failed.valid)))
      | inr t ↦
          simp t
            (Keeps-trans ran (finish_after_success-Keeps turn.now turn.later e _ still ran.valid))
    ]

run_batch-Keeps :
    (behaviour : Behaviour) (es : List Entry) (processed : ℕ) (m : Manager)
    → Made m es
    → IsValid m
    → Keeps m (run_batch behaviour es processed m).0
unfolding run_batch
run_batch-Keeps behaviour [] processed m h v = Keeps-refl v
run_batch-Keeps behaviour (e ∷ es) processed m h v = elim (start_cases e m) [
  | inl t ↦ rw (t, run_batch) (run_batch-Keeps behaviour es processed m h.1 v)
  | inr (t, was) ↦
      let begun = started e (set_state e.control executing m) in
      let first = start-Keeps e m h.0 v was in
      let turn = behaviour e begun in
      let ran = run_turn-Keeps turn e begun (same-IsMade e first.extends h.0) first.valid in
      let both = Keeps-trans first ran in
      let rest = IsMade-later both.extends es h.1 in
      elim (Option-cases (run_turn turn e begun).1) [
        | inl on ↦
            rw (t, run_batch, on)
              (Keeps-trans both (run_batch-Keeps behaviour es (processed + 1) _ rest both.valid))
        | inr (outcome, stop) ↦
            rw (t, run_batch, stop) (Keeps-trans both (restore_unrun-Keeps es _ rest both.valid))
      ]
]

pub process-Keeps :
    (behaviour : Behaviour) (now : ℤ) (max_tasks : ℕ) (m : Manager)
    → IsValid m
    → Keeps m (process behaviour now max_tasks m).0
unfolding process
process-Keeps behaviour now max_tasks m v = elim (Bool-cases (max_tasks == 0)) [
  | inl z ↦ rw z (Keeps-refl v)
  | inr nz ↦
      let due = promote_due-Keeps now m v in
      let (taken, batch) = take_ready_batch-Keeps max_tasks _ due.valid in
      rw nz
        (Keeps-trans due (Keeps-trans taken (run_batch-Keeps behaviour _ 0 _ batch taken.valid)))
]
