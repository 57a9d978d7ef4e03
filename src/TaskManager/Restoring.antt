-- ===== src/TaskManager/Restoring.antt =====
-- The order in which the unstarted rest of a batch goes back into the ready queues.
use event_hub_cpp.Prelude.{
  ℕ, ◌≡◌, ◌≢◌, refl, ap, ◌∙◌, if◌then◌else◌, Bool, true, false, List, [], ◌∷◌, ◌++◌, select, All,
  Bool-cases, inl, inr, ne→==,
}
use event_hub_cpp.Task.{TaskPriority, high, normal, low}
use event_hub_cpp.TaskManager.Types.{
  queued_ready, ready_snapshot, is_state, Entry, Manager, Queues, push_front, set_state,
  set_control, transition, increment_ready_count,
}
use event_hub_cpp.TaskManager.Process.{restore_entry, restore_unrun}
use event_hub_cpp.TaskManager.Invariant.Delayed.{transition_cases}

abbrev pub queue_of : TaskPriority → Queues → List Entry
queue_of high q = q.high_queue
queue_of normal q = q.normal_queue
queue_of low q = q.low_queue

abbrev pub same_priority : TaskPriority → TaskPriority → Bool
same_priority high high = true
same_priority normal normal = true
same_priority low low = true
same_priority _ _ = false

-- No two entries share a control.
abbrev pub Distinct : List Entry → Type 0
Distinct [] = Unit
Distinct (e ∷ es) = All (λ f. f.control ≢ e.control) es × Distinct es

-- Every entry is in the batch, in state ready_snapshot.
abbrev pub Snapshot : Manager → List Entry → Type 0
Snapshot m es = All (λ e. is_state ready_snapshot (m.controls e.control).state ≡ true) es

push_front-queue_of :
    (priority : TaskPriority) (e : Entry) (r : TaskPriority) (q : Queues)
    → queue_of priority (push_front r e q)
      ≡ (if same_priority r priority then e ∷ queue_of priority q else queue_of priority q)
unfolding push_front
push_front-queue_of high e high q = refl
push_front-queue_of high e normal q = refl
push_front-queue_of high e low q = refl
push_front-queue_of normal e high q = refl
push_front-queue_of normal e normal q = refl
push_front-queue_of normal e low q = refl
push_front-queue_of low e high q = refl
push_front-queue_of low e normal q = refl
push_front-queue_of low e low q = refl

-- An entry of another control is not touched.
restore_entry-other :
    (e : Entry) (p : ℕ) (m : Manager)
    → e.control ≢ p
    → ((restore_entry e m).controls p).state ≡ (m.controls p).state
unfolding restore_entry increment_ready_count set_state set_control
restore_entry-other e p m ne = elim (transition_cases e.control ready_snapshot queued_ready m) [
  | inl t ↦ rw (t, restore_entry) refl
  | inr (t, was) ↦ rw (t, restore_entry) (rw (ne→== e.control p ne) refl)
]

restore_unrun-other :
    (es : List Entry) (p : ℕ) (m : Manager)
    → All (λ f. f.control ≢ p) es
    → ((restore_unrun es m).controls p).state ≡ (m.controls p).state
unfolding restore_unrun
restore_unrun-other [] p m apart = refl
restore_unrun-other (e ∷ es) p m apart =
    restore_entry-other e p (restore_unrun es m) apart.0 ∙ restore_unrun-other es p m apart.1

restore_entry-queue_of :
    (priority : TaskPriority) (e : Entry) (m : Manager)
    → is_state ready_snapshot (m.controls e.control).state ≡ true
    → queue_of priority (restore_entry e m).ready ≡ (
        if same_priority e.priority priority
        then e ∷ queue_of priority m.ready
        else queue_of priority m.ready)
unfolding restore_entry increment_ready_count set_state set_control transition
restore_entry-queue_of priority e m here =
    rw (here, restore_entry) (push_front-queue_of priority e e.priority m.ready)

-- The entries of a batch that have not been started, with controls that differ and are still in the
-- batch, go back to the front of the ready queue of their priority in the order of the batch.
pub restore_unrun-queue_of :
    (priority : TaskPriority) (es : List Entry) (m : Manager)
    → Distinct es
    → Snapshot m es
    → queue_of priority (restore_unrun es m).ready
      ≡ select (λ e. same_priority e.priority priority) es ++ queue_of priority m.ready
unfolding restore_unrun
restore_unrun-queue_of priority [] m distinct here = refl
restore_unrun-queue_of priority (e ∷ es) m distinct here =
    let rest = restore_unrun-queue_of priority es m distinct.1 here.1 in
    let still = restore_unrun-other es e.control m distinct.0 in
    let front =
      restore_entry-queue_of priority e (restore_unrun es m)
        (ap (is_state ready_snapshot) still ∙ here.0) in
    front ∙ (elim (Bool-cases (same_priority e.priority priority)) [
      | inl t ↦ rw t (ap (λ xs. e ∷ xs) rest)
      | inr t ↦ rw t rest
    ])
