-- ===== src/TaskManager/Located/Commands.antt =====
-- The calls made while callbacks run keep every task in its place.
use event_hub_cpp.Prelude.{
  ℕ, ◌<◌, inl, inr, Bool, true, false, Option, none, some, List, write, ◌==◌, ==_self, if_ind,
  Bool-cases, Option-cases, ℤ,
}
use event_hub_cpp.TaskManager.Types.{
  State, queued_ready, queued_delayed, ready_snapshot, executing, cancelled, completed, is_state,
  Control, Entry, Manager, set_control, set_state, find_index, decrement_ready_count,
  decrement_pending_count, notify_work_available, record_notify,
}
use event_hub_cpp.TaskManager.Cancel.{
  cancel_control, cancel, context_cancel_control, cancel_from_context, request_reschedule,
  reschedule_from_context, close,
}
use event_hub_cpp.TaskManager.Invariant.Defs.{IsValid, find_index-made}
use event_hub_cpp.TaskManager.Invariant.Delayed.{transition_cases}
use event_hub_cpp.TaskManager.Located.Defs.{Placed, LocatedIn, places, Located, move}

module _ (b x : List Entry) where
  -- A control that dies needs no place.
  die :
      (p : ℕ) (c : Control) (m : Manager)
      → Placed (places m b x) p c.state
      → Located b x m
      → LocatedIn (places m b x) (set_control p c m)
  die p c m here loc = move (places m b x) (places m b x) p c m (λ q s ne h. h) here loc

  -- The state is set, and then the reschedule request withdrawn.
  twice :
      (p : ℕ) (m : Manager)
      → Located b x m
      → let stopped = record (m.controls p) { state = cancelled } in
        let c = write m.controls p stopped p in
        LocatedIn
          (places m b x)
          (set_control p (record c { reschedule_requested = false }) (set_control p stopped m))
  unfolding set_control
  twice p m loc =
      let stopped = record (m.controls p) { state = cancelled } in
      die p _ (set_control p stopped m) (rw (==_self p) tt) (die p stopped m tt loc)

  cancel_control-Located :
      (id p : ℕ) (s : State) (m : Manager) → Located b x m → Located b x (cancel_control id p s m).0
  unfolding cancel_control decrement_pending_count decrement_ready_count set_state set_control
  cancel_control-Located id p queued_ready m loc =
      elim (transition_cases p queued_ready cancelled m) [
        | inl t ↦ rw (t, cancel_control) loc
        | inr (t, was) ↦ rw (t, cancel_control) (die p _ m tt loc)
      ]
  cancel_control-Located id p queued_delayed m loc =
      elim (transition_cases p queued_delayed cancelled m) [
        | inl t ↦ rw (t, cancel_control) loc
        | inr (t, was) ↦ rw (t, cancel_control) (die p _ m tt loc)
      ]
  cancel_control-Located id p ready_snapshot m loc =
      elim (transition_cases p ready_snapshot cancelled m) [
        | inl t ↦ rw (t, cancel_control) loc
        | inr (t, was) ↦ rw (t, cancel_control) (die p _ m tt loc)
      ]
  cancel_control-Located id p executing m loc =
      if_ind (λ (r : Manager × Bool). Located b x r.0) (m.controls p).periodic
        (λ again. elim (transition_cases p executing cancelled m) [
          | inl t ↦ rw t loc
          | inr (t, was) ↦ rw t (twice p m loc)
        ])
        (λ once. loc)
  cancel_control-Located id p cancelled m loc = loc
  cancel_control-Located id p completed m loc = loc

  pub cancel-Located : (id : ℕ) (m : Manager) → Located b x m → Located b x (cancel id m).0
  unfolding cancel
  cancel-Located id m loc = elim (Bool-cases (id == 0)) [
    | inl z ↦ rw z loc
    | inr nz ↦ elim (Option-cases (find_index id m.index)) [
      | inl e ↦ rw (nz, e, cancel) loc
      | inr (p, e) ↦ rw (nz, e, cancel) (cancel_control-Located id p (m.controls p).state m loc)
    ]
  ]

  context_cancel_control-Located :
      (p : ℕ) (m : Manager) → Located b x m → Located b x (context_cancel_control p m).0
  unfolding context_cancel_control decrement_pending_count set_state set_control
  context_cancel_control-Located p m loc = elim (transition_cases p executing cancelled m) [
    | inl t ↦ rw (t, context_cancel_control) loc
    | inr (t, was) ↦
        rw (t, context_cancel_control)
          (if_ind (λ r. Located b x r) _ (λ again. twice p m loc) (λ once. twice p m loc))
  ]

  pub cancel_from_context-Located :
      (id : ℕ) (m : Manager) → Located b x m → Located b x (cancel_from_context id m).0
  unfolding cancel_from_context
  cancel_from_context-Located id m loc = elim (Bool-cases (id == 0)) [
    | inl z ↦ rw z loc
    | inr nz ↦ elim (Option-cases (find_index id m.index)) [
      | inl e ↦ rw (nz, e, cancel_from_context) loc
      | inr (p, e) ↦ rw (nz, e, cancel_from_context) (context_cancel_control-Located p m loc)
    ]
  ]

  request_reschedule-Located :
      (p : ℕ) (due : ℤ) (m : Manager)
      → p < m.allocated
      → Located b x m
      → Located b x (request_reschedule p due m).0
  unfolding request_reschedule set_control
  request_reschedule-Located p due m lt loc =
      elim (Bool-cases (is_state executing (m.controls p).state)) [
        | inl t ↦ simp t (die p _ m (loc p lt) loc)
        | inr t ↦ simp t loc
      ]

  pub reschedule_from_context-Located :
      (id : ℕ) (due : ℤ) (m : Manager)
      → IsValid m
      → Located b x m
      → Located b x (reschedule_from_context id due m).0
  unfolding reschedule_from_context
  reschedule_from_context-Located id due m v loc = elim (Bool-cases (id == 0)) [
    | inl z ↦ rw z loc
    | inr nz ↦ elim (Bool-cases m.closed) [
      | inl c ↦ simp (nz, c) loc
      | inr c ↦ elim (Option-cases (find_index id m.index)) [
        | inl e ↦ simp (nz, c, e) loc
        | inr (p, e) ↦
            simp (nz, c, e)
              (request_reschedule-Located p due m
                (find_index-made m.allocated id p m.index v.index_made e) loc)
      ]
    ]
  ]

  pub notify-Located : (m : Manager) → Located b x m → Located b x (notify_work_available m)
  unfolding notify_work_available
  notify-Located m loc = go m.notifier
    where
      go : (n : Option ℕ) → Located b x (record_notify n m)
      go none = unfold record_notify in loc
      go (some n) = unfold record_notify in loc

  pub close-Located : (m : Manager) → Located b x m → Located b x (close m)
  unfolding close
  close-Located m loc = elim (Bool-cases m.closed) [
    | inl c ↦ simp c loc
    | inr c ↦ simp c (notify-Located (record m { closed = true }) loc)
  ]
