-- ===== src/TaskManager/Surviving/Process.antt =====
-- Each step of process() leaves a queued task queued or accounts for it in the log.
use event_hub_cpp.Prelude.{
  ℕ, ◌+◌, ◌<◌, ◌≡◌, ◌≢◌, ◌∙◌, ap, ◌⊎◌, inl, inr, arith, Option, none, some, List, [], ◌∷◌, Any,
  Any-append_left, Any-append_right, Bool-cases, Option-cases, ℤ, ◌==◌, if_ind, ==→eq, ==→ne,
}
use event_hub_cpp.TaskManager.Types.{executing, Entry, Manager, set_state, decrement_pending_count}
use event_hub_cpp.TaskManager.Process.{
  report_to, report_exception, run_turn, run_batch, process, finish_after_exception,
}
use event_hub_cpp.TaskManager.Turns.{Command, Turn, Behaviour, apply_all}
use event_hub_cpp.TaskManager.Invariant.Defs.{IsValid, IsMade, IsMade-later}
use event_hub_cpp.TaskManager.Invariant.Submit.{Keeps-trans}
use event_hub_cpp.TaskManager.Invariant.Delayed.{Made, promote_due-Keeps}
use event_hub_cpp.TaskManager.Invariant.Commands.{apply_all-Keeps}
use event_hub_cpp.TaskManager.Invariant.Take.{take_ready_batch-Keeps}
use event_hub_cpp.TaskManager.Invariant.Finish.{same-IsMade, finish_after_exception-Keeps}
use event_hub_cpp.TaskManager.Invariant.Start.{started, start-Keeps}
use event_hub_cpp.TaskManager.Invariant.Process.{start_cases, run_turn-Keeps}
use event_hub_cpp.TaskManager.Surviving.Live.{
  is_live, Live, promote_due-Live, take_ready_batch-Live, restore_unrun-Live,
}
use event_hub_cpp.TaskManager.Surviving.Kept.{
  set_state-Kept, finish_after_success-Kept, finish_after_exception-Kept,
}
use event_hub_cpp.TaskManager.Surviving.Commands.{apply_all-Spared}
use event_hub_cpp.TaskManager.Surviving.Log.{
  Step, calls, handler_log, turn_log, batch_log, process_log, Accounts,
}

module _ (p : ℕ) where
  -- The task is still queued, or a step accounts for it.
  abbrev Survives : Manager → List Step → Type 0
  Survives m log = Live p m ⊎ Any (Accounts p) log

  -- After calls, the task is live as before, or they have cancelled it.
  calls-Survive :
      (running : ℕ) (cs : List Command) (m : Manager)
      → IsValid m
      → p < m.allocated
      → Live p m
      → let after = apply_all running cs m in Live p after ⊎ Accounts p (calls m after)
  calls-Survive running cs m v lt h = elim (apply_all-Spared p running cs m v lt) [
    | inl same ↦ inl (ap is_live same ∙ h)
    | inr gone ↦ inr (h, gone)
  ]

  report_to-Survives :
      (handler : Option ℕ) (turn : Turn) (running : ℕ) (m : Manager)
      → IsValid m
      → p < m.allocated
      → Live p m
      → Survives (report_to handler turn running m).0 (handler_log handler turn running m)
  unfolding report_to handler_log
  report_to-Survives none turn running m v lt h = inl h
  report_to-Survives (some fn) turn running m v lt h =
      elim (calls-Survive running turn.handler_commands m v lt h) [
        | inl live ↦ inl live
        | inr step ↦ inr (inl step)
      ]

  run_turn-Survives :
      (turn : Turn) (e : Entry) (m : Manager)
      → IsMade m.allocated m.controls e
      → IsValid m
      → p < m.allocated
      → e.control ≢ p
      → Live p m
      → Survives (run_turn turn e m).0 (turn_log turn e m)
  unfolding run_turn turn_log report_exception
  run_turn-Survives turn e m made v lt other h =
      let m₁ = apply_all e.id turn.commands m in
      let ran = apply_all-Keeps e.id turn.commands m v in
      elim (calls-Survive e.id turn.commands m v lt h) [
        | inr step ↦ inr (inl step)
        | inl live ↦ elim (Bool-cases turn.throws) [
          | inr quiet ↦ simp quiet (
              inl (
                ap (λ c. is_live c.state)
                  (finish_after_success-Kept p e other turn.now turn.later m₁)
                ∙ live))
          | inl thrown ↦
              let m₂ = finish_after_exception e m₁ in
              let failed =
                finish_after_exception-Keeps e m₁ (same-IsMade e ran.extends made) ran.valid in
              let still =
                ap (λ c. is_live c.state) (finish_after_exception-Kept p e other m₁) ∙ live in
              let below : p < m₂.allocated =
                omega (arith, lt, ran.extends.grows, failed.extends.grows) in
              simp thrown
                (elim (report_to-Survives m₂.exception_handler turn e.id m₂ failed.valid below
                  still) [ inl on ↦ inl on | inr step ↦ inr (inr step) ])
        ]
      ]

  start-Live :
      (e : Entry) (m : Manager)
      → e.control ≢ p
      → Live p m
      → Live p (started e (set_state e.control executing m))
  unfolding decrement_pending_count
  start-Live e m other h =
      let kept = ap (λ c. is_live c.state) (set_state-Kept p e other executing m) ∙ h in
      if_ind (λ (y : Manager). Live p y) e.periodic (λ _. kept) (λ _. kept)

  -- The entry is that of the task, or the task survives the turn.
  start-Survives :
      (turn : Turn) (e : Entry) (m : Manager)
      → let begun = started e (set_state e.control executing m) in
        IsMade begun.allocated begun.controls e
        → IsValid begun
        → p < begun.allocated
        → Live p m
        → (e.control ≡ p) ⊎ Survives (run_turn turn e begun).0 (turn_log turn e begun)
  start-Survives turn e m made v lt h = elim (Bool-cases (e.control == p)) [
    | inl t ↦ inl (==→eq e.control p t)
    | inr t ↦
        let other = ==→ne e.control p t in
        inr (run_turn-Survives turn e _ made v lt other (start-Live e m other h))
  ]

  run_batch-Survives :
      (behaviour : Behaviour) (es : List Entry) (processed : ℕ) (m : Manager)
      → Made m es
      → IsValid m
      → p < m.allocated
      → Live p m
      → Survives (run_batch behaviour es processed m).0 (batch_log behaviour es m)
  unfolding run_batch batch_log
  run_batch-Survives behaviour [] processed m made v lt h = inl h
  run_batch-Survives behaviour (e ∷ es) processed m made v lt h = elim (start_cases e m) [
    | inl t ↦
        rw (t, run_batch, batch_log) (run_batch-Survives behaviour es processed m made.1 v lt h)
    | inr (t, was) ↦
        let begun = started e (set_state e.control executing m) in
        let turn = behaviour e begun in
        let m' = (run_turn turn e begun).0 in
        let own = turn_log turn e begun in
        let rest = batch_log behaviour es m' in
        let begins = start-Keeps e m made.0 v was in
        let made₁ = same-IsMade e begins.extends made.0 in
        let ran = run_turn-Keeps turn e begun made₁ begins.valid in
        let both = Keeps-trans begins ran in
        let later =
          run_batch-Survives behaviour es (processed + 1) m' (IsMade-later both.extends es made.1)
            ran.valid (omega (arith, lt, both.extends.grows)) in
        let first =
          start-Survives turn e m made₁ begins.valid (omega (arith, lt, begins.extends.grows)) h in
        elim (Option-cases (run_turn turn e begun).1) [
          | inl on ↦
              rw (t, run_batch, batch_log, on)
                (elim first [
                  | inl same ↦ inr (inl same)
                  | inr (inr step) ↦ inr (inr (Any-append_left (Accounts p) own rest step))
                  | inr (inl live) ↦ elim (later live) [
                    | inl still ↦ inl still
                    | inr step ↦ inr (inr (Any-append_right (Accounts p) own rest step))
                  ]
                ])
          | inr (outcome, stop) ↦
              rw (t, run_batch, batch_log, stop)
                (elim first [
                  | inl same ↦ inr (inl same)
                  | inr (inr step) ↦ inr (inr step)
                  | inr (inl live) ↦ inl (restore_unrun-Live p es m' live)
                ])
        ]
  ]

  pub process-Survives :
      (behaviour : Behaviour) (now : ℤ) (max_tasks : ℕ) (m : Manager)
      → IsValid m
      → p < m.allocated
      → Live p m
      → Survives (process behaviour now max_tasks m).0 (process_log behaviour now max_tasks m)
  unfolding process process_log
  process-Survives behaviour now max_tasks m v lt h = elim (Bool-cases (max_tasks == 0)) [
    | inl z ↦ rw z (inl h)
    | inr nz ↦
        let due = promote_due-Keeps now m v in
        let (taken, batch) = take_ready_batch-Keeps max_tasks _ due.valid in
        rw nz (
          run_batch-Survives behaviour _ 0 _ batch taken.valid
            (omega (arith, lt, due.extends.grows, taken.extends.grows))
            (take_ready_batch-Live p max_tasks _ (promote_due-Live p now m h)))
  ]
