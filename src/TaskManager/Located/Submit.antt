-- ===== src/TaskManager/Located/Submit.antt =====
-- The submissions keep every task in its place.
use event_hub_cpp.Prelude.{
  ℕ, ◌≡◌, refl, subst, inl, inr, Bool, true, false, none, some, List, [], ◌∷◌, ◌==◌, if◌then◌else◌,
  ==→eq, ==→ne, if_ind, Bool-cases, arith, ℤ, pos, leb_ℤ,
}
use event_hub_cpp.Task.{TaskPriority, TaskOptions, PeriodicTaskOptions, Task}
use event_hub_cpp.TaskManager.Types.{
  State, queued_ready, queued_delayed, Entry, Manager, entries, push_back, increment_ready_count,
  increment_pending_count, next_id, next_seq,
}
use event_hub_cpp.TaskManager.Delayed.{push_heap}
use event_hub_cpp.TaskManager.Submit.{
  ready_entry, delayed_entry, periodic_entry, register_control, enqueue_ready_locked, enqueue_ready,
  enqueue_delayed_locked, place_entry, enqueue_periodic_locked, notify_accepted, post, post_at,
  post_every_after, batch_loop, post_batch,
}
use event_hub_cpp.TaskManager.Located.Commands.{notify-Located}
use event_hub_cpp.TaskManager.Located.Defs.{
  Holds, Places, Placed, LocatedIn, places, Located, Placed-mono,
}
use event_hub_cpp.TaskManager.Located.Holding.{
  push_back-Holds, push_back_self, push_heap-Holds, push_heap_self,
}

module _ (b x : List Entry) where
  -- A new control is placed by its entry; the other lists may only grow.
  register :
      (l : Places) (id : ℕ) (state : State) (periodic : Bool) (m : Manager)
      → ((q : ℕ) (s : State) → Placed (places m b x) q s → Placed l q s)
      → Placed l m.allocated state
      → Located b x m
      → LocatedIn l (register_control id state periodic m)
  unfolding register_control
  register l id state periodic m grows here loc q lt = elim (Bool-cases (m.allocated == q)) [
    | inl e ↦ rw e (subst (λ r. Placed l r state) (==→eq m.allocated q e) here)
    | inr e ↦
        let ne = ==→ne m.allocated q e in rw e (grows q (m.controls q).state (loc q (omega arith)))
  ]

  -- An entry of a new control that is ready.
  register_ready :
      (e : Entry) (priority : TaskPriority) (id : ℕ) (periodic : Bool) (m : Manager)
      → e.control ≡ m.allocated
      → Located b x m
      → LocatedIn
          (places (record m { ready = push_back priority e m.ready }) b x)
          (register_control id queued_ready periodic m)
  register_ready e priority id periodic m made loc =
      register _ id queued_ready periodic m
        (λ q s.
          Placed-mono (places m b x) _ q s (push_back-Holds priority e m.ready q) (λ h. h) (λ h. h)
            (λ h. h))
        (subst (λ p. Holds p (entries (push_back priority e m.ready))) made
          (push_back_self priority e m.ready))
        loc

  register_delayed :
      (e : Entry) (id : ℕ) (periodic : Bool) (m : Manager)
      → e.control ≡ m.allocated
      → Located b x m
      → LocatedIn
          (places (record m { delayed_heap = push_heap e m.delayed_heap }) b x)
          (register_control id queued_delayed periodic m)
  register_delayed e id periodic m made loc =
      register _ id queued_delayed periodic m
        (λ q s.
          Placed-mono (places m b x) _ q s (λ h. h) (push_heap-Holds e m.delayed_heap q) (λ h. h)
            (λ h. h))
        (subst (λ p. Holds p (push_heap e m.delayed_heap)) made (push_heap_self e m.delayed_heap))
        loc

  enqueue_ready_locked-Located :
      (task : Task) (options : TaskOptions) (m : Manager)
      → Located b x m
      → Located b x (enqueue_ready_locked task options m).1
  unfolding enqueue_ready_locked register_control increment_pending_count increment_ready_count
  enqueue_ready_locked-Located task options m loc =
      let id = (next_id m.next_id).0 in
      let e = ready_entry id (next_seq m.next_seq).0 m.allocated task options in
      register_ready e options.priority id false m refl loc

  enqueue_delayed_locked-Located :
      (due : ℤ) (task : Task) (options : TaskOptions) (m : Manager)
      → Located b x m
      → Located b x (enqueue_delayed_locked due task options m).1
  unfolding enqueue_delayed_locked register_control increment_pending_count
  enqueue_delayed_locked-Located due task options m loc =
      let id = (next_id m.next_id).0 in
      let e = delayed_entry id (next_seq m.next_seq).0 m.allocated due task options in
      register_delayed e id false m refl loc

  place_entry-Located :
      (ready : Bool) (e : Entry) (id : ℕ) (m : Manager)
      → e.control ≡ m.allocated
      → Located b x m
      → let state : State = if ready then queued_ready else queued_delayed in
        Located b x
          (increment_pending_count (place_entry ready e (register_control id state true m)))
  unfolding place_entry register_control increment_pending_count increment_ready_count
  place_entry-Located true e id m made loc = register_ready e e.priority id true m made loc
  place_entry-Located false e id m made loc = register_delayed e id true m made loc

  enqueue_periodic_locked-Located :
      (now due interval : ℤ) (task : Task) (options : PeriodicTaskOptions) (m : Manager)
      → Located b x m
      → Located b x (enqueue_periodic_locked now due interval task options m).1
  unfolding enqueue_periodic_locked
  enqueue_periodic_locked-Located now due interval task options m loc =
      let ids = next_id m.next_id in
      let seqs = next_seq m.next_seq in
      place_entry-Located (leb_ℤ due now)
        (periodic_entry ids.0 seqs.0 m.allocated due interval task options) ids.0
        (record m { next_id = ids.1; next_seq = seqs.1 }) refl loc

  accepted-Located : (r : ℕ × Manager) → Located b x r.1 → Located b x (notify_accepted r).0
  unfolding notify_accepted
  accepted-Located (id, m) loc =
      if_ind (Located b x) (id == 0) (λ z. loc) (λ nz. notify-Located b x m loc)

  pub post-Located :
      (task : Task) (options : TaskOptions) (m : Manager)
      → Located b x m
      → Located b x (post task options m).0
  unfolding post enqueue_ready
  post-Located none options m loc = loc
  post-Located (some c) options m loc = accepted-Located _ (
      if_ind (λ (r : ℕ × Manager). Located b x r.1) m.closed (λ e. loc)
        (λ e. enqueue_ready_locked-Located (some c) options m loc))

  pub post_at-Located :
      (now due : ℤ) (task : Task) (options : TaskOptions) (m : Manager)
      → Located b x m
      → Located b x (post_at now due task options m).0
  unfolding post_at
  post_at-Located now due none options m loc = loc
  post_at-Located now due (some c) options m loc =
      if_ind (λ (r : Manager × ℕ). Located b x r.0) m.closed (λ e. loc)
        (λ e. accepted-Located _ (
          if_ind (λ (r : ℕ × Manager). Located b x r.1) (leb_ℤ due now)
            (λ e. enqueue_ready_locked-Located (some c) options m loc)
            (λ e. enqueue_delayed_locked-Located due (some c) options m loc)))

  pub post_every_after-Located :
      (now later initial_delay interval : ℤ) (task : Task) (options : PeriodicTaskOptions)
      (m : Manager)
      → Located b x m
      → Located b x (post_every_after now later initial_delay interval task options m).0
  unfolding post_every_after
  post_every_after-Located now later initial_delay interval none options m loc = loc
  post_every_after-Located now later initial_delay interval (some c) options m loc =
      if_ind (λ (r : Manager × ℕ). Located b x r.0) (leb_ℤ interval (pos 0)) (λ e. loc)
        (λ e.
          if_ind (λ (r : Manager × ℕ). Located b x r.0) m.closed (λ e. loc)
            (λ e.
              accepted-Located _
                (enqueue_periodic_locked-Located later _ interval (some c) options m loc)))

  batch_loop-Located :
      (tasks : List Task) (options : TaskOptions) (m : Manager)
      → Located b x m
      → Located b x (batch_loop tasks options m).0
  unfolding batch_loop
  batch_loop-Located [] options m loc = loc
  batch_loop-Located (none ∷ tasks) options m loc = batch_loop-Located tasks options m loc
  batch_loop-Located (some c ∷ tasks) options m loc =
      batch_loop-Located tasks options _ (enqueue_ready_locked-Located (some c) options m loc)

  pub post_batch-Located :
      (tasks : List Task) (options : TaskOptions) (m : Manager)
      → Located b x m
      → Located b x (post_batch tasks options m).0
  unfolding post_batch
  post_batch-Located tasks options m loc =
      let k = batch_loop-Located tasks options m loc in
      if_ind (λ (r : Manager × List ℕ). Located b x r.0) m.closed (λ e. loc)
        (λ e.
          if_ind (λ (y : Manager). Located b x y) (batch_loop tasks options m).2
            (λ t. notify-Located b x (batch_loop tasks options m).0 k) (λ t. k))
