-- ===== src/TaskManager/Located/Finish.antt =====
-- Starting an entry and ending its callback keep every task in its place.
use event_hub_cpp.Prelude.{
  ℕ, ◌<◌, ◌≡◌, ◌≢◌, refl, subst, inl, inr, Bool, true, false, List, [], ◌∷◌, if◌then◌else◌, if_ind,
  Bool-cases, ℤ, leb_ℤ, arith,
}
use event_hub_cpp.TaskManager.Types.{
  State, queued_ready, queued_delayed, ready_snapshot, executing, cancelled, completed, is_state,
  Entry, Manager, entries, set_state, forget, push_back, increment_ready_count,
  decrement_pending_count,
}
use event_hub_cpp.TaskManager.Delayed.{push_heap}
use event_hub_cpp.TaskManager.Submit.{place_entry}
use event_hub_cpp.TaskManager.Process.{
  count_again, enqueue_existing_locked, clear_reschedule, finish_executing, finish_after_success,
  finish_after_exception, next_periodic_due,
}
use event_hub_cpp.TaskManager.Invariant.Delayed.{transition_cases}
use event_hub_cpp.TaskManager.Invariant.Start.{started}
use event_hub_cpp.TaskManager.Located.Defs.{
  Holds, Places, places, Located, move, pop_batch, pop_running, Placed-mono,
}
use event_hub_cpp.TaskManager.Located.Holding.{
  push_back-Holds, push_back_self, push_heap-Holds, push_heap_self,
}
use event_hub_cpp.TaskManager.Located.Clear.{transition_refused}

-- The entry that was taken from the batch is skipped, or its callback runs.
pub skip-Located :
    (e : Entry) (b x : List Entry) (m : Manager)
    → (m.controls e.control).state ≢ ready_snapshot
    → Located (e ∷ b) x m
    → Located b x m
skip-Located e b x m other loc q lt =
    pop_batch e (entries m.ready) m.delayed_heap b x q (m.controls q).state
      (λ s same. other (rw same s)) (loc q lt)

pub start-Located :
    (e : Entry) (b : List Entry) (m : Manager)
    → Located (e ∷ b) [] m
    → Located b (e ∷ []) (started e (set_state e.control executing m))
unfolding set_state decrement_pending_count
start-Located e b m loc =
    let begun =
      move (places m (e ∷ b) []) (places m b (e ∷ [])) e.control
        (record (m.controls e.control) { state = executing }) m
        (λ q s ne h.
          Placed-mono (places m b []) (places m b (e ∷ [])) q s (λ y. y) (λ y. y) (λ y. y) inr
            (pop_batch e (entries m.ready) m.delayed_heap b [] q s (λ _. ne) h))
        (inl refl) loc in
    if_ind (λ (y : Manager). Located b (e ∷ []) y) e.periodic (λ t. begun) (λ t. begun)

module _ (b x : List Entry) where
  -- A task that has ended needs no place any more.
  leave :
      (e : Entry) (m : Manager)
      → (m.controls e.control).state ≢ executing
      → Located b (e ∷ x) m
      → Located b x m
  leave e m other loc q lt =
      pop_running e (entries m.ready) m.delayed_heap b x q (m.controls q).state
        (λ s same. other (rw same s)) (loc q lt)

  complete :
      (e : Entry) (m : Manager)
      → Located b (e ∷ x) m
      → Located b x (set_state e.control completed m)
  unfolding set_state
  complete e m loc =
      move (places m b (e ∷ x)) (places m b x) e.control
        (record (m.controls e.control) { state = completed }) m
        (λ q s ne h. pop_running e (entries m.ready) m.delayed_heap b x q s (λ _. ne) h) tt loc

  clear_reschedule-Located :
      (p : ℕ) (m : Manager) → p < m.allocated → Located b x m → Located b x (clear_reschedule p m)
  unfolding clear_reschedule
  clear_reschedule-Located p m made loc =
      move (places m b x) (places m b x) p (record (m.controls p) { reschedule_requested = false })
        m (λ q s ne h. h) (loc p made) loc

  -- An executing entry is queued again.
  requeue-Located :
      (ready : Bool) (e e' : Entry) (m : Manager) (seqs : ℕ)
      → e'.control ≡ e.control
      → Located b (e ∷ x) m
      → let desired : State = if ready then queued_ready else queued_delayed in
        let resumed = count_again e.periodic (set_state e.control desired m) in
        Located b x (place_entry ready e' (record resumed { next_seq = seqs }))
  unfolding place_entry count_again increment_ready_count set_state
  requeue-Located true e e' m seqs same loc =
      let after : Places = record {
        ready = entries (push_back e'.priority e' m.ready);
        delayed = m.delayed_heap;
        batch = b;
        running = x;
      } in
      move (places m b (e ∷ x)) after e.control
        (record (m.controls e.control) { state = queued_ready }) m
        (λ q s ne h.
          Placed-mono (places m b x) after q s (push_back-Holds e'.priority e' m.ready q) (λ y. y)
            (λ y. y) (λ y. y) (pop_running e (entries m.ready) m.delayed_heap b x q s (λ _. ne) h))
        (subst (λ p. Holds p after.ready) same (push_back_self e'.priority e' m.ready)) loc
  requeue-Located false e e' m seqs same loc =
      let after : Places = record {
        ready = entries m.ready;
        delayed = push_heap e' m.delayed_heap;
        batch = b;
        running = x;
      } in
      move (places m b (e ∷ x)) after e.control
        (record (m.controls e.control) { state = queued_delayed }) m
        (λ q s ne h.
          Placed-mono (places m b x) after q s (λ y. y) (push_heap-Holds e' m.delayed_heap q)
            (λ y. y) (λ y. y) (pop_running e (entries m.ready) m.delayed_heap b x q s (λ _. ne) h))
        (subst (λ p. Holds p after.delayed) same (push_heap_self e' m.delayed_heap)) loc

  enqueue_existing_locked-Located :
      (now : ℤ) (e : Entry) (due : ℤ) (m : Manager)
      → Located b (e ∷ x) m
      → Located b x (enqueue_existing_locked now e due m)
  unfolding enqueue_existing_locked
  enqueue_existing_locked-Located now e due m loc =
      let ready : Bool = leb_ℤ due now in
      let desired : State = if ready then queued_ready else queued_delayed in
      elim (transition_cases e.control executing desired m) [
        | inl t ↦
            rw (t, enqueue_existing_locked)
              (leave e m (transition_refused e.control executing desired m t) loc)
        | inr (t, was) ↦
            rw (t, enqueue_existing_locked)
              (requeue-Located ready e (record e { seq = _; due = due; planned_due = due }) m _ refl
                loc)
      ]

module _ (b x : List Entry) (e : Entry) (m : Manager) (h : e.control < m.allocated) where
  finish_executing-Located :
      (now later : ℤ) → Located b (e ∷ x) m → Located b x (finish_executing now later e m)
  unfolding finish_executing forget decrement_pending_count
  finish_executing-Located now later loc = elim (Bool-cases m.closed) [
    | inl closed ↦ elim (transition_cases e.control executing completed m) [
      | inl t ↦
          simp (closed, t)
            (leave b x e m (transition_refused e.control executing completed m t) loc)
      | inr (t, was) ↦
          simp (closed, t)
            (clear_reschedule-Located b x e.control
              (if e.periodic
                then decrement_pending_count (set_state e.control completed m)
                else set_state e.control completed m)
              (if_ind (λ (y : Manager). e.control < y.allocated) e.periodic
                (λ _. unfold set_state in h) (λ _. unfold set_state in h))
              (if_ind (λ (y : Manager). Located b x y) e.periodic (λ _. complete b x e m loc)
                (λ _. complete b x e m loc)))
    ]
    | inr live ↦ elim (Bool-cases (m.controls e.control).reschedule_requested) [
      | inl asked ↦
          simp (live, asked)
            (enqueue_existing_locked-Located b x later e _ (clear_reschedule e.control m)
              (clear_reschedule-Located b (e ∷ x) e.control m h loc))
      | inr silent ↦ elim (Bool-cases e.periodic) [
        | inl again ↦
            simp (live, silent, again)
              (enqueue_existing_locked-Located b x later e (next_periodic_due e now) m loc)
        | inr once ↦ elim (transition_cases e.control executing completed m) [
          | inl t ↦
              simp (live, silent, once, t)
                (leave b x e m (transition_refused e.control executing completed m t) loc)
          | inr (t, was) ↦ simp (live, silent, once, t) (complete b x e m loc)
        ]
      ]
    ]
  ]

  pub finish_after_success-Located :
      (now later : ℤ) → Located b (e ∷ x) m → Located b x (finish_after_success now later e m)
  unfolding finish_after_success forget
  finish_after_success-Located now later loc =
      elim (Bool-cases (is_state cancelled (m.controls e.control).state)) [
        | inl gone ↦ rw gone (
            clear_reschedule-Located b x e.control m h
              (leave b x e m (λ s. ground (arith, gone, s)) loc))
        | inr here ↦ elim (Bool-cases (is_state executing (m.controls e.control).state)) [
          | inl runs ↦ rw (here, runs) (finish_executing-Located now later loc)
          | inr other ↦ rw (here, other) (leave b x e m (λ s. ground (arith, other, s)) loc)
        ]
      ]

  pub finish_after_exception-Located :
      Located b (e ∷ x) m → Located b x (finish_after_exception e m)
  unfolding finish_after_exception forget decrement_pending_count
  finish_after_exception-Located loc =
      let m₀ = clear_reschedule e.control m in
      let cleared = clear_reschedule-Located b (e ∷ x) e.control m h loc in
      elim (Bool-cases (is_state executing (m₀.controls e.control).state)) [
        | inl runs ↦ elim (transition_cases e.control executing completed m₀) [
          | inl t ↦
              rw (runs, t, finish_after_exception)
                (leave b x e m₀ (transition_refused e.control executing completed m₀ t) cleared)
          | inr (t, was) ↦
              rw (runs, t, finish_after_exception)
                (if_ind (λ (y : Manager). Located b x y) e.periodic (λ _. complete b x e m₀ cleared)
                  (λ _. complete b x e m₀ cleared))
        ]
        | inr other ↦
            let left = leave b x e m₀ (λ s. ground (arith, other, s)) cleared in
            elim (Bool-cases (is_state cancelled (m₀.controls e.control).state)) [
              | inl gone ↦ rw (other, gone) left
              | inr here ↦ rw (other, here) left
            ]
      ]
