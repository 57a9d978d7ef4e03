-- ===== src/TaskManager/Clearing.antt =====
-- What clear_pending and the destructor leave behind.
use event_hub_cpp.Prelude.{ℕ, ◌<◌, ◌≢◌, List, [], arith}
use event_hub_cpp.TaskManager.Types.{
  State, queued_ready, queued_delayed, ready_snapshot, executing, cancelled, completed, Entry,
  Manager,
}
use event_hub_cpp.TaskManager.Cancel.{close, clear_pending, destroy}
use event_hub_cpp.TaskManager.Located.Defs.{Located, Placed}
use event_hub_cpp.TaskManager.Located.Commands.{close-Located}
use event_hub_cpp.TaskManager.Located.Clear.{clear_pending_empties}

-- A queued state has no place when the queues and the heap are empty.
not_queued :
    (b x : List Entry) (q : ℕ) (s : State)
    → Placed (record { ready = []; delayed = []; batch = b; running = x }) q s
    → (s ≢ queued_ready) × (s ≢ queued_delayed)
not_queued b x q queued_ready h = absurd h
not_queued b x q queued_delayed h = absurd h
not_queued b x q ready_snapshot h = ((λ s. ground (arith, s)), (λ s. ground (arith, s)))
not_queued b x q executing h = ((λ s. ground (arith, s)), (λ s. ground (arith, s)))
not_queued b x q cancelled h = ((λ s. ground (arith, s)), (λ s. ground (arith, s)))
not_queued b x q completed h = ((λ s. ground (arith, s)), (λ s. ground (arith, s)))

-- When every control of a manager has its entry in the container that its state names, with any
-- batch and running callbacks of process() outside, then after clear_pending() no control that was
-- made is queued, neither ready nor delayed.
pub clear_pending_drops_all :
    (b x : List Entry) (m : Manager)
    → Located b x m
    → (p : ℕ) → p < (clear_pending m).0.allocated
    → let s = ((clear_pending m).0.controls p).state in (s ≢ queued_ready) × (s ≢ queued_delayed)
clear_pending_drops_all b x m loc p lt =
    not_queued b x p ((clear_pending m).0.controls p).state (clear_pending_empties b x m loc p lt)

-- When every control of a manager has its entry in the container that its state names, the
-- destructor leaves no control that was made queued, neither ready nor delayed.
pub destroy_drops_all :
    (b x : List Entry) (m : Manager)
    → Located b x m
    → (p : ℕ) → p < (destroy m).allocated
    → ((((destroy m).controls p).state ≢ queued_ready)
        × (((destroy m).controls p).state ≢ queued_delayed))
unfolding destroy
destroy_drops_all b x m loc p lt =
    clear_pending_drops_all b x (close m) (close-Located b x m loc) p lt
