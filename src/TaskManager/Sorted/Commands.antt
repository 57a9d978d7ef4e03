-- ===== src/TaskManager/Sorted/Commands.antt =====
-- Cancellation, clearing and the calls of a turn keep the delayed heap in order by deadline.
use event_hub_cpp.Prelude.{ℕ, ◌==◌, if_ind, Bool, true, List, [], ◌∷◌, Option-cases, inl, inr, ℤ}
use event_hub_cpp.Task.{context_cancel, reschedule_at}
use event_hub_cpp.TaskManager.Types.{
  State, queued_ready, queued_delayed, ready_snapshot, executing, cancelled, completed, is_state,
  Manager, find_index, forget, set_control, set_state, decrement_ready_count,
  decrement_pending_count, notify_work_available, set_notifier, reset_notifier,
  set_exception_handler,
}
use event_hub_cpp.TaskManager.Cancel.{
  cancel_control, cancel, context_cancel_control, cancel_from_context, request_reschedule,
  reschedule_from_context, make_context, close, clear_pending,
}
use event_hub_cpp.TaskManager.Turns.{
  closes, clears_pending, Command, posts, posts_at, posts_every_after, posts_batch, cancels,
  cancels_own, reschedules_own, sets_notifier, resets_notifier, sets_exception_handler, apply,
  apply_all,
}
use event_hub_cpp.TaskManager.Invariant.Delayed.{transition_cases}
use event_hub_cpp.TaskManager.Sorted.Submit.{
  SortedHeap, notify-SortedHeap, post-SortedHeap, post_at-SortedHeap, post_every_after-SortedHeap,
  post_batch-SortedHeap,
}

cancel_control-SortedHeap :
    (id p : ℕ) (s : State) (m : Manager) → SortedHeap m → SortedHeap (cancel_control id p s m).0
unfolding cancel_control forget decrement_ready_count decrement_pending_count set_state set_control
cancel_control-SortedHeap id p queued_ready m s =
    elim (transition_cases p queued_ready cancelled m) [
      | inl t ↦ rw (t, cancel_control) s
      | inr (t, was) ↦ rw (t, cancel_control) s
    ]
cancel_control-SortedHeap id p queued_delayed m s =
    elim (transition_cases p queued_delayed cancelled m) [
      | inl t ↦ rw (t, cancel_control) s
      | inr (t, was) ↦ rw (t, cancel_control) s
    ]
cancel_control-SortedHeap id p ready_snapshot m s =
    elim (transition_cases p ready_snapshot cancelled m) [
      | inl t ↦ rw (t, cancel_control) s
      | inr (t, was) ↦ rw (t, cancel_control) s
    ]
cancel_control-SortedHeap id p executing m s =
    if_ind (λ (r : Manager × Bool). SortedHeap r.0) (m.controls p).periodic
      (λ again. elim (transition_cases p executing cancelled m) [
        | inl t ↦ rw t s
        | inr (t, was) ↦ rw t s
      ])
      (λ once. s)
cancel_control-SortedHeap id p cancelled m s = s
cancel_control-SortedHeap id p completed m s = s

cancel-SortedHeap : (id : ℕ) (m : Manager) → SortedHeap m → SortedHeap (cancel id m).0
unfolding cancel
cancel-SortedHeap id m s =
    if_ind (λ (r : Manager × Bool). SortedHeap r.0) (id == 0) (λ t. s)
      (λ t. elim (Option-cases (find_index id m.index)) [
        | inl f ↦ rw f s
        | inr (p, f) ↦ rw f (cancel_control-SortedHeap id p (m.controls p).state m s)
      ])

context_cancel_control-SortedHeap :
    (p : ℕ) (m : Manager) → SortedHeap m → SortedHeap (context_cancel_control p m).0
unfolding context_cancel_control decrement_pending_count set_state set_control
context_cancel_control-SortedHeap p m s = elim (transition_cases p executing cancelled m) [
  | inl t ↦ rw (t, context_cancel_control) s
  | inr (t, was) ↦
      rw (t, context_cancel_control) (if_ind (λ (y : Manager). SortedHeap y) _ (λ k. s) (λ k. s))
]

cancel_from_context-SortedHeap :
    (id : ℕ) (m : Manager) → SortedHeap m → SortedHeap (cancel_from_context id m).0
unfolding cancel_from_context
cancel_from_context-SortedHeap id m s =
    if_ind (λ (r : Manager × Bool). SortedHeap r.0) (id == 0) (λ t. s)
      (λ t. elim (Option-cases (find_index id m.index)) [
        | inl f ↦ rw f s
        | inr (p, f) ↦ rw f (context_cancel_control-SortedHeap p m s)
      ])

request_reschedule-SortedHeap :
    (p : ℕ) (due : ℤ) (m : Manager) → SortedHeap m → SortedHeap (request_reschedule p due m).0
unfolding request_reschedule set_control
request_reschedule-SortedHeap p due m s =
    if_ind (λ (r : Manager × Bool). SortedHeap r.0) (is_state executing (m.controls p).state)
      (λ t. s) (λ t. s)

reschedule_from_context-SortedHeap :
    (id : ℕ) (due : ℤ) (m : Manager)
    → SortedHeap m
    → SortedHeap (reschedule_from_context id due m).0
unfolding reschedule_from_context
reschedule_from_context-SortedHeap id due m s =
    if_ind (λ (r : Manager × Bool). SortedHeap r.0) (id == 0) (λ t. s)
      (λ t.
        if_ind (λ (r : Manager × Bool). SortedHeap r.0) m.closed (λ t. s)
          (λ t. elim (Option-cases (find_index id m.index)) [
            | inl f ↦ rw f s
            | inr (p, f) ↦ rw f (request_reschedule-SortedHeap p due m s)
          ]))

close-SortedHeap : (m : Manager) → SortedHeap m → SortedHeap (close m)
unfolding close notify_work_available
close-SortedHeap m s =
    if_ind (λ (y : Manager). SortedHeap y) m.closed (λ t. s)
      (λ t. notify-SortedHeap m.notifier (record m { closed = true }) s)

pub apply-SortedHeap :
    (running : ℕ) (c : Command) (m : Manager) → SortedHeap m → SortedHeap (apply running c m)
unfolding apply set_notifier reset_notifier set_exception_handler context_cancel reschedule_at
    make_context clear_pending
apply-SortedHeap running (posts task options) m s = post-SortedHeap task options m s
apply-SortedHeap running (posts_at now due task options) m s =
    post_at-SortedHeap now due task options m s
apply-SortedHeap running (posts_every_after now later initial_delay interval task options) m s =
    post_every_after-SortedHeap now later initial_delay interval task options m s
apply-SortedHeap running (posts_batch tasks options) m s = post_batch-SortedHeap tasks options m s
apply-SortedHeap running (cancels id) m s = cancel-SortedHeap id m s
apply-SortedHeap running cancels_own m s = cancel_from_context-SortedHeap running m s
apply-SortedHeap running (reschedules_own due) m s =
    reschedule_from_context-SortedHeap running due m s
apply-SortedHeap running closes m s = close-SortedHeap m s
apply-SortedHeap running clears_pending m s = tt
apply-SortedHeap running (sets_notifier notifier) m s = s
apply-SortedHeap running resets_notifier m s = s
apply-SortedHeap running (sets_exception_handler handler) m s = s

pub apply_all-SortedHeap :
    (running : ℕ) (cs : List Command) (m : Manager)
    → SortedHeap m
    → SortedHeap (apply_all running cs m)
unfolding apply_all
apply_all-SortedHeap running [] m s = s
apply_all-SortedHeap running (c ∷ cs) m s =
    apply_all-SortedHeap running cs (apply running c m) (apply-SortedHeap running c m s)
