-- ===== src/TaskManager/Surviving/Commands.antt =====
-- Cancelling, clearing and the other calls leave the state of a task that is queued, or cancel it.
use event_hub_cpp.Prelude.{
  ℕ, ◌+◌, ◌<◌, refl, inl, inr, arith, Bool, true, false, List, [], ◌∷◌, if_ind, Option-cases, ℤ,
  ◌==◌,
}
use event_hub_cpp.Task.{context_cancel, reschedule_at}
use event_hub_cpp.TaskManager.Types.{
  State, queued_ready, queued_delayed, ready_snapshot, executing, cancelled, completed, is_state,
  Entry, Manager, set_state, set_control, forget, decrement_ready_count, decrement_pending_count,
  find_index, set_notifier, reset_notifier, set_exception_handler,
}
use event_hub_cpp.TaskManager.Cancel.{
  cancel_control, cancel, context_cancel_control, cancel_from_context, request_reschedule,
  reschedule_from_context, make_context, close, clear_ready, clear_delayed, clear_pending,
}
use event_hub_cpp.TaskManager.Turns.{
  Command, posts, posts_at, posts_every_after, posts_batch, cancels, cancels_own, reschedules_own,
  closes, clears_pending, sets_notifier, resets_notifier, sets_exception_handler, apply, apply_all,
}
use event_hub_cpp.TaskManager.Invariant.Defs.{IsValid}
use event_hub_cpp.TaskManager.Invariant.Delayed.{transition_cases}
use event_hub_cpp.TaskManager.Invariant.Commands.{apply-Keeps}
use event_hub_cpp.TaskManager.Surviving.Calls.{
  Spared, Spared-trans, set_state-Spared, set_control-Spared, notify-Spared, post-Spared,
  post_at-Spared, post_every_after-Spared, post_batch-Spared,
}

module _ (p : ℕ) where
  -- Cancelling clears the request to reschedule.
  cleared-Spared :
      (q : ℕ) (m m' : Manager)
      → Spared p m m'
      → Spared p m (set_control q (record (m'.controls q) { reschedule_requested = false }) m')
  cleared-Spared q m m' s =
      Spared-trans s
        (set_control-Spared p q (record (m'.controls q) { reschedule_requested = false }) m' refl)

  cancel_control-Spared :
      (id q : ℕ) (s : State) (m : Manager) → Spared p m (cancel_control id q s m).0
  unfolding cancel_control forget decrement_pending_count decrement_ready_count
  cancel_control-Spared id q queued_ready m = elim (transition_cases q queued_ready cancelled m) [
    | inl t ↦ rw (t, cancel_control) (inl refl)
    | inr (t, was) ↦ rw (t, cancel_control) (set_state-Spared p q m)
  ]
  cancel_control-Spared id q queued_delayed m =
      elim (transition_cases q queued_delayed cancelled m) [
        | inl t ↦ rw (t, cancel_control) (inl refl)
        | inr (t, was) ↦ rw (t, cancel_control) (set_state-Spared p q m)
      ]
  cancel_control-Spared id q ready_snapshot m =
      elim (transition_cases q ready_snapshot cancelled m) [
        | inl t ↦ rw (t, cancel_control) (inl refl)
        | inr (t, was) ↦ rw (t, cancel_control) (set_state-Spared p q m)
      ]
  cancel_control-Spared id q executing m = elim (transition_cases q executing cancelled m) [
    | inl t ↦
        rw (t, cancel_control)
          (if_ind (λ (y : Manager × Bool). Spared p m y.0) (m.controls q).periodic (λ _. inl refl)
            (λ _. inl refl))
    | inr (t, was) ↦
        rw (t, cancel_control)
          (if_ind (λ (y : Manager × Bool). Spared p m y.0) (m.controls q).periodic
            (λ _.
              cleared-Spared q m (decrement_pending_count (set_state q cancelled m))
                (set_state-Spared p q m))
            (λ _. inl refl))
  ]
  cancel_control-Spared id q cancelled m = inl refl
  cancel_control-Spared id q completed m = inl refl

  cancel-Spared : (id : ℕ) (m : Manager) → Spared p m (cancel id m).0
  unfolding cancel
  cancel-Spared id m =
      if_ind (λ (y : Manager × Bool). Spared p m y.0) (id == 0) (λ _. inl refl)
        (λ _. elim (Option-cases (find_index id m.index)) [
          | inl t ↦ rw (t, cancel) (inl refl)
          | inr (q, t) ↦ rw (t, cancel) (cancel_control-Spared id q (m.controls q).state m)
        ])

  context_cancel_control-Spared : (q : ℕ) (m : Manager) → Spared p m (context_cancel_control q m).0
  unfolding context_cancel_control decrement_pending_count
  context_cancel_control-Spared q m = elim (transition_cases q executing cancelled m) [
    | inl t ↦ rw (t, context_cancel_control) (inl refl)
    | inr (t, was) ↦
        let m' = set_state q cancelled m in
        let after = set_control q (record (m'.controls q) { reschedule_requested = false }) m' in
        let cleared = cleared-Spared q m m' (set_state-Spared p q m) in
        rw (t, context_cancel_control)
          (if_ind (λ (y : Manager). Spared p m y) (after.controls q).periodic (λ _. cleared)
            (λ _. cleared))
  ]

  cancel_from_context-Spared : (id : ℕ) (m : Manager) → Spared p m (cancel_from_context id m).0
  unfolding cancel_from_context
  cancel_from_context-Spared id m =
      if_ind (λ (y : Manager × Bool). Spared p m y.0) (id == 0) (λ _. inl refl)
        (λ _. elim (Option-cases (find_index id m.index)) [
          | inl t ↦ rw (t, cancel_from_context) (inl refl)
          | inr (q, t) ↦ rw (t, cancel_from_context) (context_cancel_control-Spared q m)
        ])

  request_reschedule-Spared :
      (q : ℕ) (due : ℤ) (m : Manager) → Spared p m (request_reschedule q due m).0
  unfolding request_reschedule
  request_reschedule-Spared q due m =
      if_ind (λ (y : Manager × Bool). Spared p m y.0) (is_state executing (m.controls q).state)
        (λ _. set_control-Spared p q _ m refl) (λ _. inl refl)

  reschedule_from_context-Spared :
      (id : ℕ) (due : ℤ) (m : Manager) → Spared p m (reschedule_from_context id due m).0
  unfolding reschedule_from_context
  reschedule_from_context-Spared id due m =
      if_ind (λ (y : Manager × Bool). Spared p m y.0) (id == 0) (λ _. inl refl)
        (λ _.
          if_ind (λ (y : Manager × Bool). Spared p m y.0) m.closed (λ _. inl refl)
            (λ _. elim (Option-cases (find_index id m.index)) [
              | inl t ↦ rw (t, reschedule_from_context) (inl refl)
              | inr (q, t) ↦ rw (t, reschedule_from_context) (request_reschedule-Spared q due m)
            ]))

  close-Spared : (m : Manager) → Spared p m (close m)
  unfolding close
  close-Spared m =
      if_ind (λ (y : Manager). Spared p m y) m.closed (λ _. inl refl)
        (λ _. notify-Spared p (record m { closed = true }))

  clear_ready-Spared :
      (es : List Entry) (m₀ m : Manager) (dropped : ℕ)
      → Spared p m₀ m
      → Spared p m₀ (clear_ready es (m, dropped)).0
  unfolding clear_ready forget decrement_pending_count decrement_ready_count
  clear_ready-Spared [] m₀ m dropped s = s
  clear_ready-Spared (e ∷ es) m₀ m dropped s =
      elim (transition_cases e.control queued_ready cancelled m) [
        | inl t ↦ rw (t, clear_ready) (clear_ready-Spared es m₀ m dropped s)
        | inr (t, was) ↦
            rw (t, clear_ready)
              (clear_ready-Spared es m₀ _ (dropped + 1)
                (Spared-trans s (set_state-Spared p e.control m)))
      ]

  clear_delayed-Spared :
      (es : List Entry) (m₀ m : Manager) (dropped : ℕ)
      → Spared p m₀ m
      → Spared p m₀ (clear_delayed es (m, dropped)).0
  unfolding clear_delayed forget decrement_pending_count
  clear_delayed-Spared [] m₀ m dropped s = s
  clear_delayed-Spared (e ∷ es) m₀ m dropped s =
      elim (transition_cases e.control queued_delayed cancelled m) [
        | inl t ↦ rw (t, clear_delayed) (clear_delayed-Spared es m₀ m dropped s)
        | inr (t, was) ↦
            rw (t, clear_delayed)
              (clear_delayed-Spared es m₀ _ (dropped + 1)
                (Spared-trans s (set_state-Spared p e.control m)))
      ]

  clear_pending-Spared : (m : Manager) → Spared p m (clear_pending m).0
  unfolding clear_pending
  clear_pending-Spared m =
      let q = m.ready in
      clear_delayed-Spared m.delayed_heap m _ _ (
        clear_ready-Spared q.low_queue m _ _ (
          clear_ready-Spared q.normal_queue m _ _
            (clear_ready-Spared q.high_queue m m 0 (inl refl))))

  apply-Spared :
      (running : ℕ) (c : Command) (m : Manager) → p < m.allocated → Spared p m (apply running c m)
  unfolding apply set_notifier reset_notifier set_exception_handler context_cancel reschedule_at
      make_context
  apply-Spared running (posts task options) m lt = post-Spared p m lt task options
  apply-Spared running (posts_at now due task options) m lt =
      post_at-Spared p m lt now due task options
  apply-Spared running (posts_every_after now later initial_delay interval task options) m lt =
      post_every_after-Spared p m lt now later initial_delay interval task options
  apply-Spared running (posts_batch tasks options) m lt = post_batch-Spared p tasks options m lt
  apply-Spared running (cancels id) m lt = cancel-Spared id m
  apply-Spared running cancels_own m lt = cancel_from_context-Spared running m
  apply-Spared running (reschedules_own due) m lt = reschedule_from_context-Spared running due m
  apply-Spared running closes m lt = close-Spared m
  apply-Spared running clears_pending m lt = clear_pending-Spared m
  apply-Spared running (sets_notifier notifier) m lt = inl refl
  apply-Spared running resets_notifier m lt = inl refl
  apply-Spared running (sets_exception_handler handler) m lt = inl refl

  -- Calls in any number leave the state of a task that was made, or cancel the task.
  pub apply_all-Spared :
      (running : ℕ) (cs : List Command) (m : Manager)
      → IsValid m
      → p < m.allocated
      → Spared p m (apply_all running cs m)
  unfolding apply_all
  apply_all-Spared running [] m v lt = inl refl
  apply_all-Spared running (c ∷ cs) m v lt =
      let kept = apply-Keeps running c m v in
      Spared-trans (apply-Spared running c m lt)
        (apply_all-Spared running cs _ kept.valid (omega (arith, lt, kept.extends.grows)))
