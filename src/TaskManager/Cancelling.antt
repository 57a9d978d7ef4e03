-- ===== src/TaskManager/Cancelling.antt =====
-- What a successful cancel() means for the task.
use event_hub_cpp.Prelude.{
  ℕ, ◌==◌, ◌≡◌, refl, true, false, none, some, Bool-cases, inl, inr, arith, ==_self,
}
use event_hub_cpp.TaskManager.Types.{
  State, queued_ready, queued_delayed, ready_snapshot, executing, cancelled, completed, is_state,
  Entry, Manager, find_index, forget, set_control, set_state, transition, decrement_ready_count,
  decrement_pending_count,
}
use event_hub_cpp.TaskManager.Delayed.{promote_entry}
use event_hub_cpp.TaskManager.Cancel.{cancel_control, cancel}
use event_hub_cpp.TaskManager.Process.{start_entry, restore_entry}
use event_hub_cpp.TaskManager.Invariant.Delayed.{transition_cases}

-- A successful exchange to `cancelled` leaves the control cancelled, and so do the steps after it.
set_cancelled : (p : ℕ) (m : Manager) → ((set_state p cancelled m).controls p).state ≡ cancelled
unfolding set_state set_control
set_cancelled p m = rw (==_self p) refl

cancel_control-cancelled :
    (id p : ℕ) (s : State) (m : Manager)
    → (cancel_control id p s m).1 ≡ true
    → ((cancel_control id p s m).0.controls p).state ≡ cancelled
unfolding cancel_control forget decrement_ready_count decrement_pending_count
cancel_control-cancelled id p queued_ready m h =
    elim (transition_cases p queued_ready cancelled m) [
      | inl t ↦ absurd (ground (arith, t, h))
      | inr (t, was) ↦ rw (t, cancel_control) (set_cancelled p m)
    ]
cancel_control-cancelled id p queued_delayed m h =
    elim (transition_cases p queued_delayed cancelled m) [
      | inl t ↦ absurd (ground (arith, t, h))
      | inr (t, was) ↦ rw (t, cancel_control) (set_cancelled p m)
    ]
cancel_control-cancelled id p ready_snapshot m h =
    elim (transition_cases p ready_snapshot cancelled m) [
      | inl t ↦ absurd (ground (arith, t, h))
      | inr (t, was) ↦ rw (t, cancel_control) (set_cancelled p m)
    ]
cancel_control-cancelled id p executing m h = elim (Bool-cases (m.controls p).periodic) [
  | inl again ↦ elim (transition_cases p executing cancelled m) [
    | inl t ↦ absurd (ground (arith, again, t, h))
    | inr (t, was) ↦ rw (again, t) (unfold set_control in rw (==_self p) (set_cancelled p m))
  ]
  | inr once ↦ absurd (ground (arith, once, h))
]
cancel_control-cancelled id p cancelled m h = absurd (ground (arith, h))
cancel_control-cancelled id p completed m h = absurd (ground (arith, h))

transition_fails :
    (p : ℕ) (expected desired : State) (m : Manager)
    → is_state expected (m.controls p).state ≡ false
    → transition p expected desired m ≡ none
unfolding transition
transition_fails p expected desired m h = rw h refl

-- No step of process() does anything with an entry of a cancelled control.
passed_over :
    (e : Entry) (m : Manager)
    → (m.controls e.control).state ≡ cancelled
    → (start_entry e m ≡ none) × (promote_entry e m ≡ m) × (restore_entry e m ≡ m)
unfolding start_entry promote_entry restore_entry
passed_over e m c = (
  rw (transition_fails e.control ready_snapshot executing m (rw c refl), start_entry) refl,
  rw (transition_fails e.control queued_delayed queued_ready m (rw c refl), promote_entry) refl,
  rw (transition_fails e.control ready_snapshot queued_ready m (rw c refl), restore_entry) refl,
)

cancel_indexed :
    (id p : ℕ) (m : Manager)
    → find_index id m.index ≡ some p
    → (cancel id m).1 ≡ true
    → ((cancel id m).0.controls p).state ≡ cancelled
unfolding cancel
cancel_indexed id p m found h = elim (Bool-cases (id == 0)) [
  | inl z ↦ absurd (ground (arith, z, h))
  | inr nz ↦
      let go : (cancel_control id p (m.controls p).state m).1 ≡ true = rw (nz, found) at h in
      rw (nz, found) (cancel_control-cancelled id p (m.controls p).state m go)
]

-- When cancel(id) answers true, for an id whose control the index gives, that control is cancelled,
-- and in that state the steps of process() pass over an entry of it: it is not started, not promoted
-- from the delayed heap, and not put back into a ready queue.
pub cancel-start_entry :
    (id : ℕ) (e : Entry) (m : Manager)
    → find_index id m.index ≡ some e.control
    → (cancel id m).1 ≡ true
    → (((cancel id m).0.controls e.control).state ≡ cancelled)
      × (start_entry e (cancel id m).0 ≡ none)
      × (promote_entry e (cancel id m).0 ≡ (cancel id m).0)
      × (restore_entry e (cancel id m).0 ≡ (cancel id m).0)
cancel-start_entry id e m found h =
    let c = cancel_indexed id e.control m found h in
    let over = passed_over e (cancel id m).0 c in (c, over.0, over.1, over.2)
