-- ===== src/TaskManager/Sorted/Finish.antt =====
-- The end of a callback keeps the delayed heap in order by deadline.
use event_hub_cpp.Prelude.{ℕ, if◌then◌else◌, if_ind, Bool, Bool-cases, inl, inr, ℤ, leb_ℤ}
use event_hub_cpp.TaskManager.Types.{
  State, queued_ready, queued_delayed, executing, cancelled, completed, is_state, Entry, Manager,
  forget, set_control, set_state, decrement_pending_count,
}
use event_hub_cpp.TaskManager.Process.{
  count_again, enqueue_existing_locked, clear_reschedule, finish_executing, finish_after_success,
  finish_after_exception, next_periodic_due,
}
use event_hub_cpp.TaskManager.Invariant.Delayed.{transition_cases}
use event_hub_cpp.TaskManager.Sorted.Submit.{SortedHeap, place-SortedHeap}

requeue-SortedHeap :
    (now : ℤ) (e : Entry) (due : ℤ) (m : Manager)
    → SortedHeap m
    → SortedHeap (enqueue_existing_locked now e due m)
unfolding enqueue_existing_locked count_again set_state set_control
requeue-SortedHeap now e due m s =
    let ready : Bool = leb_ℤ due now in
    let desired : State = if ready then queued_ready else queued_delayed in
    elim (transition_cases e.control executing desired m) [
      | inl t ↦ rw (t, enqueue_existing_locked) s
      | inr (t, was) ↦ rw (t, enqueue_existing_locked) (place-SortedHeap ready _ _ s)
    ]

clear-SortedHeap : (p : ℕ) (m : Manager) → SortedHeap m → SortedHeap (clear_reschedule p m)
unfolding clear_reschedule set_control
clear-SortedHeap p m s = s

state-SortedHeap :
    (p : ℕ) (state : State) (m : Manager) → SortedHeap m → SortedHeap (set_state p state m)
unfolding set_state set_control
state-SortedHeap p state m s = s

finish_executing-SortedHeap :
    (now later : ℤ) (e : Entry) (m : Manager)
    → SortedHeap m
    → SortedHeap (finish_executing now later e m)
unfolding finish_executing forget decrement_pending_count
finish_executing-SortedHeap now later e m s = elim (Bool-cases m.closed) [
  | inl closed ↦ elim (transition_cases e.control executing completed m) [
    | inl t ↦ simp (closed, t) s
    | inr (t, was) ↦
        simp (closed, t)
          (clear-SortedHeap e.control
            (if e.periodic
              then decrement_pending_count (set_state e.control completed m)
              else set_state e.control completed m)
            (if_ind (λ (y : Manager). SortedHeap y) e.periodic
              (λ k. state-SortedHeap e.control completed m s)
              (λ k. state-SortedHeap e.control completed m s)))
  ]
  | inr live ↦ elim (Bool-cases (m.controls e.control).reschedule_requested) [
    | inl asked ↦
        simp (live, asked)
          (requeue-SortedHeap later e (m.controls e.control).reschedule_due
            (clear_reschedule e.control m) (clear-SortedHeap e.control m s))
    | inr silent ↦ elim (Bool-cases e.periodic) [
      | inl again ↦
          simp (live, silent, again) (requeue-SortedHeap later e (next_periodic_due e now) m s)
      | inr once ↦ elim (transition_cases e.control executing completed m) [
        | inl t ↦ simp (live, silent, once, t) s
        | inr (t, was) ↦ simp (live, silent, once, t) (state-SortedHeap e.control completed m s)
      ]
    ]
  ]
]

pub success-SortedHeap :
    (now later : ℤ) (e : Entry) (m : Manager)
    → SortedHeap m
    → SortedHeap (finish_after_success now later e m)
unfolding finish_after_success forget clear_reschedule set_control
success-SortedHeap now later e m s =
    if_ind (λ (y : Manager). SortedHeap y) (is_state cancelled (m.controls e.control).state)
      (λ t. s)
      (λ t.
        if_ind (λ (y : Manager). SortedHeap y) (is_state executing (m.controls e.control).state)
          (λ k. finish_executing-SortedHeap now later e m s) (λ k. s))

pub exception-SortedHeap :
    (e : Entry) (m : Manager) → SortedHeap m → SortedHeap (finish_after_exception e m)
unfolding finish_after_exception forget clear_reschedule set_control decrement_pending_count
    set_state
exception-SortedHeap e m s =
    let m₀ = clear_reschedule e.control m in
    if_ind (λ (y : Manager). SortedHeap y) (is_state executing (m₀.controls e.control).state)
      (λ t. elim (transition_cases e.control executing completed m₀) [
        | inl k ↦ rw k s
        | inr (k, was) ↦ rw k (if_ind (λ (y : Manager). SortedHeap y) e.periodic (λ z. s) (λ z. s))
      ])
      (λ t.
        if_ind (λ (y : Manager). SortedHeap y) (is_state cancelled (m₀.controls e.control).state)
          (λ k. s) (λ k. s))
