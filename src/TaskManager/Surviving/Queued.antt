-- ===== src/TaskManager/Surviving/Queued.antt =====
-- process() loses no queued task.
use event_hub_cpp.Prelude.{ℕ, ◌<◌, ◌≡◌, refl, ◌⊎◌, inl, inr, arith, List, [], Any, ℤ, true}
use event_hub_cpp.TaskManager.Types.{
  State, queued_ready, queued_delayed, ready_snapshot, executing, cancelled, completed, Entry,
  Manager, entries,
}
use event_hub_cpp.TaskManager.Process.{process}
use event_hub_cpp.TaskManager.Turns.{Behaviour}
use event_hub_cpp.TaskManager.Invariant.Defs.{IsValid}
use event_hub_cpp.TaskManager.Invariant.Process.{process-Keeps}
use event_hub_cpp.TaskManager.Located.Defs.{Holds, Placed, Located}
use event_hub_cpp.TaskManager.Located.Process.{process-Located}
use event_hub_cpp.TaskManager.Surviving.Live.{is_live, Live}
use event_hub_cpp.TaskManager.Surviving.Log.{process_log, Accounts}
use event_hub_cpp.TaskManager.Surviving.Process.{process-Survives}

-- The task of the control has an entry in a ready queue or in the delayed heap, as its state says.
abbrev pub IsQueued : ℕ → Manager → Type 0
IsQueued p m =
    (((m.controls p).state ≡ queued_ready) × Holds p (entries m.ready))
    ⊎ (((m.controls p).state ≡ queued_delayed) × Holds p m.delayed_heap)

queued_from :
    (p : ℕ) (ready delayed : List Entry) (s : State)
    → is_live s ≡ true
    → Placed (record { ready = ready; delayed = delayed; batch = []; running = [] }) p s
    → ((s ≡ queued_ready) × Holds p ready) ⊎ ((s ≡ queued_delayed) × Holds p delayed)
queued_from p ready delayed queued_ready live h = inl (refl, h)
queued_from p ready delayed queued_delayed live h = inr (refl, h)
queued_from p ready delayed ready_snapshot live h = absurd h
queued_from p ready delayed executing live h = absurd h
queued_from p ready delayed cancelled live h = ground (arith, live)
queued_from p ready delayed completed live h = ground (arith, live)

queued-Live : (p : ℕ) (m : Manager) → IsQueued p m → Live p m
queued-Live p m (inl (state, h)) = rw state refl
queued-Live p m (inr (state, h)) = rw state refl

-- process() loses no queued task, whatever the callbacks do and however it ends. Let a valid manager
-- have each control's entry where its state names and `p` be a task that is queued, ready or
-- delayed. After process() the task is queued, with its entry in the ready queues or in the delayed
-- heap as its state says, or process() started it, or calls made while a callback or the exception
-- handler ran cancelled it.
pub process_loses_no_task :
    (behaviour : Behaviour) (now : ℤ) (max_tasks p : ℕ) (m : Manager)
    → IsValid m
    → Located [] [] m
    → p < m.allocated
    → IsQueued p m
    → IsQueued p (process behaviour now max_tasks m).0
      ⊎ Any (Accounts p) (process_log behaviour now max_tasks m)
process_loses_no_task behaviour now max_tasks p m v loc lt h =
    let after = (process behaviour now max_tasks m).0 in
    let kept = process-Keeps behaviour now max_tasks m v in
    let placed =
      process-Located behaviour now max_tasks m v loc p (omega (arith, lt, kept.extends.grows)) in
    elim (process-Survives p behaviour now max_tasks m v lt (queued-Live p m h)) [
      | inl live ↦ inl (
          queued_from p (entries after.ready) after.delayed_heap (after.controls p).state live
            placed)
      | inr step ↦ inr step
    ]
