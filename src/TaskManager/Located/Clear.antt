-- ===== src/TaskManager/Located/Clear.antt =====
-- clear_pending leaves no queued task, and the calls of a turn keep every task in its place.
use event_hub_cpp.Prelude.{
  ℕ, ◌+◌, ◌≡◌, ◌≢◌, refl, subst, inl, inr, false, none, List, [], ◌∷◌, ◌++◌, arith, ◌∙◌,
}
use event_hub_cpp.Task.{context_cancel, reschedule_at}
use event_hub_cpp.TaskManager.Types.{
  State, queued_ready, queued_delayed, cancelled, is_state, Entry, Manager, entries, set_state,
  transition, forget, decrement_ready_count, decrement_pending_count, set_notifier, reset_notifier,
  set_exception_handler,
}
use event_hub_cpp.TaskManager.Cancel.{make_context, clear_ready, clear_delayed, clear_pending}
use event_hub_cpp.TaskManager.Turns.{
  closes, clears_pending, Command, posts, posts_at, posts_every_after, posts_batch, cancels,
  cancels_own, reschedules_own, sets_notifier, resets_notifier, sets_exception_handler, apply,
  apply_all,
}
use event_hub_cpp.TaskManager.Invariant.Defs.{IsValid}
use event_hub_cpp.TaskManager.Invariant.Delayed.{transition_cases}
use event_hub_cpp.TaskManager.Invariant.Commands.{apply-Keeps}
use event_hub_cpp.TaskManager.Located.Defs.{
  LocatedIn, places, Located, move, pop_ready, pop_delayed, Placed-mono,
}
use event_hub_cpp.TaskManager.Located.Submit.{
  post-Located, post_at-Located, post_every_after-Located, post_batch-Located,
}
use event_hub_cpp.TaskManager.Located.Commands.{
  cancel-Located, cancel_from_context-Located, reschedule_from_context-Located, close-Located,
}

-- The state of a control on which the exchange failed.
is_state-ne : (a b : State) → is_state a b ≡ false → b ≢ a
is_state-ne a b h = ground arith

pub transition_refused :
    (p : ℕ) (expected desired : State) (m : Manager)
    → transition p expected desired m ≡ none
    → (m.controls p).state ≢ expected
unfolding transition
transition_refused p expected desired m t = is_state-ne expected (m.controls p).state (ground arith)

module _ (b x : List Entry) where
  clear_ready-Located :
      (es d : List Entry) (m : Manager) (dropped : ℕ)
      → LocatedIn (record { ready = es; delayed = d; batch = b; running = x }) m
      → LocatedIn
          (record { ready = []; delayed = d; batch = b; running = x })
          (clear_ready es (m, dropped)).0
  unfolding clear_ready forget decrement_pending_count decrement_ready_count set_state
  clear_ready-Located [] d m dropped loc = loc
  clear_ready-Located (e ∷ es) d m dropped loc =
      elim (transition_cases e.control queued_ready cancelled m) [
        | inl t ↦
            rw (t, clear_ready)
              (clear_ready-Located es d m dropped (λ q lt.
                pop_ready e es d b x q (m.controls q).state
                  (λ s same. transition_refused e.control queued_ready cancelled m t (rw same s))
                  (loc q lt)))
        | inr (t, was) ↦
            rw (t, clear_ready)
              (clear_ready-Located es d _ (dropped + 1) (
                move (record { ready = e ∷ es; delayed = d; batch = b; running = x }) _ e.control _
                  m (λ q s ne. pop_ready e es d b x q s (λ _. ne)) tt loc))
      ]

  clear_delayed-Located :
      (es r : List Entry) (m : Manager) (dropped : ℕ)
      → LocatedIn (record { ready = r; delayed = es; batch = b; running = x }) m
      → LocatedIn
          (record { ready = r; delayed = []; batch = b; running = x })
          (clear_delayed es (m, dropped)).0
  unfolding clear_delayed forget decrement_pending_count set_state
  clear_delayed-Located [] r m dropped loc = loc
  clear_delayed-Located (e ∷ es) r m dropped loc =
      elim (transition_cases e.control queued_delayed cancelled m) [
        | inl t ↦
            rw (t, clear_delayed)
              (clear_delayed-Located es r m dropped (λ q lt.
                pop_delayed e r es b x q (m.controls q).state
                  (λ s same. transition_refused e.control queued_delayed cancelled m t (rw same s))
                  (loc q lt)))
        | inr (t, was) ↦
            rw (t, clear_delayed)
              (clear_delayed-Located es r _ (dropped + 1) (
                move (record { ready = r; delayed = e ∷ es; batch = b; running = x }) _ e.control _
                  m (λ q s ne. pop_delayed e r es b x q s (λ _. ne)) tt loc))
      ]

  clear_ready-append :
      (xs ys : List Entry) (s : Manager × ℕ)
      → clear_ready (xs ++ ys) s ≡ clear_ready ys (clear_ready xs s)
  unfolding clear_ready
  clear_ready-append [] ys s = refl
  clear_ready-append (e ∷ xs) ys (m, dropped) = clear_ready-append xs ys _

  -- Afterwards no control is queued, ready or delayed.
  pub clear_pending_empties :
      (m : Manager)
      → Located b x m
      → LocatedIn (record { ready = []; delayed = []; batch = b; running = x }) (clear_pending m).0
  unfolding clear_pending
  clear_pending_empties m loc =
      let q = m.ready in
      let all = clear_ready-Located (entries q) m.delayed_heap m 0 loc in
      let split =
        clear_ready-append q.high_queue (q.normal_queue ++ q.low_queue) (m, 0)
        ∙ clear_ready-append q.normal_queue q.low_queue (clear_ready q.high_queue (m, 0)) in
      let cleared =
        subst
          (λ (r : Manager × ℕ).
            LocatedIn (record { ready = []; delayed = m.delayed_heap; batch = b; running = x }) r.0)
          split all in
      clear_delayed-Located m.delayed_heap [] _ _ cleared

  pub clear_pending-Located : (m : Manager) → Located b x m → Located b x (clear_pending m).0
  unfolding clear_pending
  clear_pending-Located m loc q lt =
      Placed-mono (record { ready = []; delayed = []; batch = b; running = x })
        (places (clear_pending m).0 b x) q _ (λ h. absurd h) (λ h. absurd h) (λ h. h) (λ h. h)
        (clear_pending_empties m loc q lt)

  pub apply-Located :
      (running : ℕ) (c : Command) (m : Manager)
      → IsValid m
      → Located b x m
      → Located b x (apply running c m)
  unfolding apply set_notifier reset_notifier set_exception_handler context_cancel reschedule_at
      make_context
  apply-Located running (posts task options) m v loc = post-Located b x task options m loc
  apply-Located running (posts_at now due task options) m v loc =
      post_at-Located b x now due task options m loc
  apply-Located running (posts_every_after now later initial_delay interval task options) m v loc =
      post_every_after-Located b x now later initial_delay interval task options m loc
  apply-Located running (posts_batch tasks options) m v loc =
      post_batch-Located b x tasks options m loc
  apply-Located running (cancels id) m v loc = cancel-Located b x id m loc
  apply-Located running cancels_own m v loc = cancel_from_context-Located b x running m loc
  apply-Located running (reschedules_own due) m v loc =
      reschedule_from_context-Located b x running due m v loc
  apply-Located running closes m v loc = close-Located b x m loc
  apply-Located running clears_pending m v loc = clear_pending-Located m loc
  apply-Located running (sets_notifier notifier) m v loc = loc
  apply-Located running resets_notifier m v loc = loc
  apply-Located running (sets_exception_handler handler) m v loc = loc

  pub apply_all-Located :
      (running : ℕ) (cs : List Command) (m : Manager)
      → IsValid m
      → Located b x m
      → Located b x (apply_all running cs m)
  unfolding apply_all
  apply_all-Located running [] m v loc = loc
  apply_all-Located running (c ∷ cs) m v loc =
      apply_all-Located running cs _ (apply-Keeps running c m v).valid
        (apply-Located running c m v loc)
