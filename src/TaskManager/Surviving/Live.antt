-- ===== src/TaskManager/Surviving/Live.antt =====
-- Which tasks are queued, and the steps of process() that keep them so.
use event_hub_cpp.Prelude.{
  ℕ, zero, suc, ◌≡◌, refl, ℤ, leb_ℤ, Bool, true, false, List, [], ◌∷◌, length, if_ind, Bool-cases,
  inl, inr, ◌==◌,
}
use event_hub_cpp.TaskManager.Types.{
  State, queued_ready, queued_delayed, ready_snapshot, Entry, Manager, set_state, set_control,
  increment_ready_count, decrement_ready_count,
}
use event_hub_cpp.TaskManager.Delayed.{
  prune_delayed_top, promote_entry, promote_front, promote_loop, promote_due,
}
use event_hub_cpp.TaskManager.Process.{
  Taking, take_entry, take_queue, take_ready_batch, restore_entry, restore_unrun,
}
use event_hub_cpp.TaskManager.Invariant.Delayed.{transition_cases}

-- Queued, or in the batch of a call of process() that has not started it.
abbrev pub is_live : State → Bool
is_live queued_ready = true
is_live queued_delayed = true
is_live ready_snapshot = true
is_live _ = false

abbrev pub Live : ℕ → Manager → Type 0
Live p m = is_live (m.controls p).state ≡ true

module _ (p : ℕ) where
  set_state-Live :
      (q : ℕ) (s : State) (m : Manager) → is_live s ≡ true → Live p m → Live p (set_state q s m)
  unfolding set_state set_control
  set_state-Live q s m live h = elim (Bool-cases (q == p)) [ inl t ↦ rw t live | inr t ↦ rw t h ]

  promote_entry-Live : (e : Entry) (m : Manager) → Live p m → Live p (promote_entry e m)
  unfolding promote_entry increment_ready_count
  promote_entry-Live e m h = elim (transition_cases e.control queued_delayed queued_ready m) [
    | inl t ↦ rw (t, promote_entry) h
    | inr (t, was) ↦ rw (t, promote_entry) (set_state-Live e.control queued_ready m refl h)
  ]

  promote_front-Live :
      (continue : Manager → Manager)
      → ((m : Manager) → Live p m → Live p (continue m))
      → (now : ℤ) (heap : List Entry) (m : Manager) → Live p m
      → Live p (promote_front continue now heap m)
  unfolding promote_front prune_delayed_top
  promote_front-Live continue next now [] m h = h
  promote_front-Live continue next now (e ∷ rest) m h =
      if_ind (λ (y : Manager). Live p y) (leb_ℤ e.due now)
        (λ t. next _ (promote_entry-Live e (record m { delayed_heap = rest }) h)) (λ t. h)

  promote_loop-Live :
      (fuel : ℕ) (now : ℤ) (m : Manager) → Live p m → Live p (promote_loop fuel now m)
  unfolding promote_loop
  promote_loop-Live zero now m h = h
  promote_loop-Live (suc fuel) now m h =
      promote_front-Live (promote_loop fuel now) (promote_loop-Live fuel now) now m.delayed_heap m h

  pub promote_due-Live : (now : ℤ) (m : Manager) → Live p m → Live p (promote_due now m)
  unfolding promote_due prune_delayed_top
  promote_due-Live now m h = promote_loop-Live _ now _ h

  take_entry-Live : (e : Entry) (t : Taking) → Live p t.manager → Live p (take_entry e t).manager
  unfolding take_entry decrement_ready_count
  take_entry-Live e t h = elim (transition_cases e.control queued_ready ready_snapshot t.manager) [
    | inl s ↦ rw (s, take_entry) h
    | inr (s, was) ↦ rw (s, take_entry) (set_state-Live e.control ready_snapshot t.manager refl h)
  ]

  take_queue-Live :
      (max : ℕ) (es : List Entry) (t : Taking)
      → Live p t.manager
      → Live p (take_queue max es t).1.manager
  unfolding take_queue
  take_queue-Live max [] t h = h
  take_queue-Live max (e ∷ es) t h =
      if_ind (λ (r : List Entry × Taking). Live p r.1.manager) (length t.batch == max) (λ _. h)
        (λ _. take_queue-Live max es (take_entry e t) (take_entry-Live e t h))

  pub take_ready_batch-Live :
      (max : ℕ) (m : Manager) → Live p m → Live p (take_ready_batch max m).manager
  unfolding take_ready_batch
  take_ready_batch-Live max m h =
      take_queue-Live max _ _ (take_queue-Live max _ _ (take_queue-Live max _ _ h))

  restore_entry-Live : (e : Entry) (m : Manager) → Live p m → Live p (restore_entry e m)
  unfolding restore_entry increment_ready_count
  restore_entry-Live e m h = elim (transition_cases e.control ready_snapshot queued_ready m) [
    | inl t ↦ rw (t, restore_entry) h
    | inr (t, was) ↦ rw (t, restore_entry) (set_state-Live e.control queued_ready m refl h)
  ]

  pub restore_unrun-Live : (es : List Entry) (m : Manager) → Live p m → Live p (restore_unrun es m)
  unfolding restore_unrun
  restore_unrun-Live [] m h = h
  restore_unrun-Live (e ∷ es) m h =
      restore_entry-Live e (restore_unrun es m) (restore_unrun-Live es m h)
