-- ===== src/TaskManager/Surviving/Calls.antt =====
-- What the calls of the manager do to the state of a task: they leave it or cancel the task, unless
-- it is executing.
use event_hub_cpp.Prelude.{
  ℕ, ◌<◌, ◌≡◌, refl, ◌∙◌, ap, ◌⊎◌, inl, inr, arith, Option, none, some, List, [], ◌∷◌, if_ind,
  Bool-cases, ℤ, leb_ℤ, ◌==◌, ==→eq, ne→==, if◌then◌else◌, pos, ◌+ℤ◌,
}
use event_hub_cpp.Task.{Callback, Task, TaskOptions, PeriodicTaskOptions}
use event_hub_cpp.TaskManager.Types.{
  State, cancelled, Control, Manager, set_state, set_control, record_notify, notify_work_available,
  increment_ready_count, increment_pending_count,
}
use event_hub_cpp.TaskManager.Submit.{
  register_control, draw_id, draw_seq, enqueue_ready_locked, enqueue_ready, enqueue_delayed_locked,
  enqueue_periodic_locked, notify_accepted, post, post_at, post_every_after, batch_loop, post_batch,
}
use event_hub_cpp.TaskManager.Surviving.Kept.{place_entry-controls}

-- The state is the same, or the task has been cancelled.
abbrev pub SparedState : State → State → Type 0
SparedState before after = (after ≡ before) ⊎ (after ≡ cancelled)

pub Spared-trans : {s t u : State} → SparedState s t → SparedState t u → SparedState s u
Spared-trans first (inr gone) = inr gone
Spared-trans (inl same) (inl kept) = inl (kept ∙ same)
Spared-trans (inr gone) (inl kept) = inr (kept ∙ gone)

module _ (p : ℕ) where
  abbrev pub Spared : Manager → Manager → Type 0
  Spared m m' = SparedState (m.controls p).state (m'.controls p).state

  pub set_state-Spared : (q : ℕ) (m : Manager) → Spared m (set_state q cancelled m)
  unfolding set_state set_control
  set_state-Spared q m = elim (Bool-cases (q == p)) [
    | inl t ↦ rw t (inr refl)
    | inr t ↦ rw t (inl refl)
  ]

  -- A write that does not change the state.
  pub set_control-Spared :
      (q : ℕ) (c : Control) (m : Manager)
      → c.state ≡ (m.controls q).state
      → Spared m (set_control q c m)
  unfolding set_control
  set_control-Spared q c m same = elim (Bool-cases (q == p)) [
    | inl t ↦ rw t (inl (same ∙ ap (λ r. (m.controls r).state) (==→eq q p t)))
    | inr t ↦ rw t (inl refl)
  ]

  record_notify-Spared : (n : Option ℕ) (m : Manager) → Spared m (record_notify n m)
  unfolding record_notify
  record_notify-Spared none m = inl refl
  record_notify-Spared (some n) m = inl refl

  pub notify-Spared : (m : Manager) → Spared m (notify_work_available m)
  unfolding notify_work_available
  notify-Spared m = record_notify-Spared m.notifier m

  notify_accepted-Spared :
      (m : Manager) (r : ℕ × Manager) → Spared m r.1 → Spared m (notify_accepted r).0
  unfolding notify_accepted
  notify_accepted-Spared m r s =
      if_ind (λ (y : Manager). Spared m y) (r.0 == 0) (λ _. s)
        (λ _. Spared-trans s (notify-Spared r.1))

  module _ (m : Manager) (lt : p < m.allocated) where
    enqueue_ready_locked-Spared :
        (task : Task) (options : TaskOptions) → Spared m (enqueue_ready_locked task options m).1
    unfolding enqueue_ready_locked draw_id draw_seq register_control increment_ready_count
        increment_pending_count
    enqueue_ready_locked-Spared task options = rw (ne→== m.allocated p (omega arith)) (inl refl)

    enqueue_delayed_locked-Spared :
        (due : ℤ) (task : Task) (options : TaskOptions)
        → Spared m (enqueue_delayed_locked due task options m).1
    unfolding enqueue_delayed_locked draw_id draw_seq register_control increment_pending_count
    enqueue_delayed_locked-Spared due task options =
        rw (ne→== m.allocated p (omega arith)) (inl refl)

    enqueue_periodic_locked-Spared :
        (now due interval : ℤ) (task : Task) (options : PeriodicTaskOptions)
        → Spared m (enqueue_periodic_locked now due interval task options m).1
    unfolding enqueue_periodic_locked draw_id draw_seq register_control increment_pending_count
    enqueue_periodic_locked-Spared now due interval task options =
        rw (place_entry-controls, ne→== m.allocated p (omega arith)) (inl refl)

    pub post-Spared : (task : Task) (options : TaskOptions) → Spared m (post task options m).0
    unfolding post enqueue_ready
    post-Spared none options = inl refl
    post-Spared (some c) options = notify_accepted-Spared m (enqueue_ready (some c) options m) (
        if_ind (λ (y : ℕ × Manager). Spared m y.1) m.closed (λ _. inl refl)
          (λ _. enqueue_ready_locked-Spared (some c) options))

    pub post_at-Spared :
        (now due : ℤ) (task : Task) (options : TaskOptions)
        → Spared m (post_at now due task options m).0
    unfolding post_at
    post_at-Spared now due none options = inl refl
    post_at-Spared now due (some c) options =
        if_ind (λ (y : Manager × ℕ). Spared m y.0) m.closed (λ _. inl refl)
          (λ _.
            notify_accepted-Spared m
              (if leb_ℤ due now
                then enqueue_ready_locked (some c) options m
                else enqueue_delayed_locked due (some c) options m)
              (if_ind (λ (y : ℕ × Manager). Spared m y.1) (leb_ℤ due now)
                (λ _. enqueue_ready_locked-Spared (some c) options)
                (λ _. enqueue_delayed_locked-Spared due (some c) options)))

    pub post_every_after-Spared :
        (now later initial_delay interval : ℤ) (task : Task) (options : PeriodicTaskOptions)
        → Spared m (post_every_after now later initial_delay interval task options m).0
    unfolding post_every_after
    post_every_after-Spared now later initial_delay interval none options = inl refl
    post_every_after-Spared now later initial_delay interval (some c) options =
        if_ind (λ (y : Manager × ℕ). Spared m y.0) (leb_ℤ interval (pos 0)) (λ _. inl refl)
          (λ _.
            if_ind (λ (y : Manager × ℕ). Spared m y.0) m.closed (λ _. inl refl)
              (λ _.
                let due : ℤ = if leb_ℤ initial_delay (pos 0) then now else now +ℤ initial_delay in
                notify_accepted-Spared m
                  (enqueue_periodic_locked later due interval (some c) options m)
                  (enqueue_periodic_locked-Spared later due interval (some c) options)))

  enqueue-grows :
      (c : Callback) (options : TaskOptions) (m : Manager)
      → p < m.allocated
      → p < (enqueue_ready_locked (some c) options m).1.allocated
  unfolding enqueue_ready_locked draw_id draw_seq register_control increment_ready_count
      increment_pending_count
  enqueue-grows c options m lt = omega arith

  batch_loop-Spared :
      (tasks : List Task) (options : TaskOptions) (m : Manager)
      → p < m.allocated
      → Spared m (batch_loop tasks options m).0
  unfolding batch_loop
  batch_loop-Spared [] options m lt = inl refl
  batch_loop-Spared (none ∷ tasks) options m lt = batch_loop-Spared tasks options m lt
  batch_loop-Spared (some c ∷ tasks) options m lt =
      let m₁ = (enqueue_ready_locked (some c) options m).1 in
      Spared-trans (enqueue_ready_locked-Spared m lt (some c) options)
        (batch_loop-Spared tasks options m₁ (enqueue-grows c options m lt))

  pub post_batch-Spared :
      (tasks : List Task) (options : TaskOptions) (m : Manager)
      → p < m.allocated
      → Spared m (post_batch tasks options m).0
  unfolding post_batch
  post_batch-Spared tasks options m lt =
      let m' = (batch_loop tasks options m).0 in
      let looped = batch_loop-Spared tasks options m lt in
      if_ind (λ (y : Manager × List ℕ). Spared m y.0) m.closed (λ _. inl refl)
        (λ _.
          if_ind (λ (y : Manager). Spared m y) (batch_loop tasks options m).2
            (λ _. Spared-trans looped (notify-Spared m')) (λ _. looped))
