-- ===== src/TaskManager/Surviving/Kept.antt =====
-- The end of one task's callback does not touch the control of another task.
use event_hub_cpp.Prelude.{
  ℕ, ◌≡◌, ◌≢◌, refl, ◌∙◌, ℤ, leb_ℤ, Bool, true, false, if_ind, Bool-cases, inl, inr, ne→==,
  if◌then◌else◌,
}
use event_hub_cpp.TaskManager.Types.{
  State, queued_ready, queued_delayed, executing, cancelled, completed, Entry, Manager, set_state,
  set_control, forget, is_state, increment_ready_count, decrement_pending_count,
}
use event_hub_cpp.TaskManager.Submit.{place_entry}
use event_hub_cpp.TaskManager.Process.{
  clear_reschedule, count_again, enqueue_existing_locked, finish_executing, finish_after_success,
  finish_after_exception, next_periodic_due,
}
use event_hub_cpp.TaskManager.Invariant.Delayed.{transition_cases}

pub place_entry-controls :
    (ready : Bool) (e' : Entry) (m : Manager) → (place_entry ready e' m).controls ≡ m.controls
unfolding place_entry increment_ready_count
place_entry-controls true e' m = refl
place_entry-controls false e' m = refl

-- The control `p` is another one than that of the entry that ends.
module _ (p : ℕ) (e : Entry) (other : e.control ≢ p) where
  abbrev Kept : Manager → Manager → Type 0
  Kept m m' = m'.controls p ≡ m.controls p

  pub set_state-Kept : (s : State) (m : Manager) → Kept m (set_state e.control s m)
  unfolding set_state set_control
  set_state-Kept s m = rw (ne→== e.control p other) refl

  clear_reschedule-Kept : (m : Manager) → Kept m (clear_reschedule e.control m)
  unfolding clear_reschedule set_control
  clear_reschedule-Kept m = rw (ne→== e.control p other) refl

  enqueue_existing_locked-Kept :
      (now : ℤ) (due : ℤ) (m : Manager) → Kept m (enqueue_existing_locked now e due m)
  unfolding enqueue_existing_locked count_again
  enqueue_existing_locked-Kept now due m =
      let desired : State = if leb_ℤ due now then queued_ready else queued_delayed in
      elim (transition_cases e.control executing desired m) [
        | inl t ↦ rw (t, enqueue_existing_locked) refl
        | inr (t, was) ↦
            rw (t, enqueue_existing_locked, place_entry-controls) (set_state-Kept desired m)
      ]

  decremented-Kept :
      (m m' : Manager) → Kept m m' → Kept m (if e.periodic then decrement_pending_count m' else m')
  unfolding decrement_pending_count
  decremented-Kept m m' k = if_ind (λ (y : Manager). Kept m y) e.periodic (λ _. k) (λ _. k)

  finish_executing-Kept : (now later : ℤ) (m : Manager) → Kept m (finish_executing now later e m)
  unfolding finish_executing forget
  finish_executing-Kept now later m = elim (Bool-cases m.closed) [
    | inl closed ↦ elim (transition_cases e.control executing completed m) [
      | inl t ↦ simp (closed, t) refl
      | inr (t, was) ↦
          simp (closed, t)
            (clear_reschedule-Kept _
              ∙ decremented-Kept m (set_state e.control completed m) (set_state-Kept completed m))
    ]
    | inr live ↦ elim (Bool-cases (m.controls e.control).reschedule_requested) [
      | inl asked ↦
          simp (live, asked)
            (enqueue_existing_locked-Kept later _ (clear_reschedule e.control m)
              ∙ clear_reschedule-Kept m)
      | inr silent ↦ elim (Bool-cases e.periodic) [
        | inl again ↦
            simp (live, silent, again)
              (enqueue_existing_locked-Kept later (next_periodic_due e now) m)
        | inr once ↦ elim (transition_cases e.control executing completed m) [
          | inl t ↦ simp (live, silent, once, t) refl
          | inr (t, was) ↦ simp (live, silent, once, t) (set_state-Kept completed m)
        ]
      ]
    ]
  ]

  pub finish_after_success-Kept :
      (now later : ℤ) (m : Manager) → Kept m (finish_after_success now later e m)
  unfolding finish_after_success forget
  finish_after_success-Kept now later m =
      if_ind (λ (y : Manager). Kept m y) (is_state cancelled (m.controls e.control).state)
        (λ _. clear_reschedule-Kept m)
        (λ _.
          if_ind (λ (y : Manager). Kept m y) (is_state executing (m.controls e.control).state)
            (λ _. finish_executing-Kept now later m) (λ _. refl))

  pub finish_after_exception-Kept : (m : Manager) → Kept m (finish_after_exception e m)
  unfolding finish_after_exception forget
  finish_after_exception-Kept m =
      let m₀ = clear_reschedule e.control m in
      let kept = clear_reschedule-Kept m in
      let state = (m₀.controls e.control).state in
      elim (transition_cases e.control executing completed m₀) [
        | inl t ↦
            rw (t, finish_after_exception)
              (if_ind (λ (y : Manager). Kept m y) (is_state executing state) (λ _. kept)
                (λ _.
                  if_ind (λ (y : Manager). Kept m y) (is_state cancelled state) (λ _. kept)
                    (λ _. kept)))
        | inr (t, was) ↦
            rw (t, finish_after_exception)
              (if_ind (λ (y : Manager). Kept m y) (is_state executing state)
                (λ _.
                  decremented-Kept m (set_state e.control completed m₀)
                    (set_state-Kept completed m₀ ∙ kept))
                (λ _.
                  if_ind (λ (y : Manager). Kept m y) (is_state cancelled state) (λ _. kept)
                    (λ _. kept)))
      ]
