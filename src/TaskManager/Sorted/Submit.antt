-- ===== src/TaskManager/Sorted/Submit.antt =====
-- Every submission keeps the delayed heap in order by deadline.
use event_hub_cpp.Prelude.{
  ℕ, ◌==◌, if◌then◌else◌, if_ind, Bool, true, false, Option, none, some, List, [], ◌∷◌, Bool-cases,
  inl, inr, ℤ, pos, leb_ℤ, ◌+ℤ◌,
}
use event_hub_cpp.Task.{Task, TaskOptions, PeriodicTaskOptions}
use event_hub_cpp.TaskManager.Types.{
  Entry, Manager, increment_ready_count, increment_pending_count, notify_work_available,
  record_notify,
}
use event_hub_cpp.TaskManager.Submit.{
  register_control, draw_id, draw_seq, enqueue_ready_locked, enqueue_ready, enqueue_delayed_locked,
  place_entry, enqueue_periodic_locked, notify_accepted, post, post_at, post_every_after,
  batch_loop, post_batch,
}
use event_hub_cpp.TaskManager.Due.{Sorted, push_heap-Sorted}

abbrev pub SortedHeap : Manager → Type 0
SortedHeap m = Sorted m.delayed_heap

-- Only submissions, promotion, clearing and the end of a periodic task touch the heap.
pub notify-SortedHeap : (n : Option ℕ) (m : Manager) → SortedHeap m → SortedHeap (record_notify n m)
unfolding record_notify
notify-SortedHeap none m s = s
notify-SortedHeap (some n) m s = s

accepted-SortedHeap : (r : ℕ × Manager) → SortedHeap r.1 → SortedHeap (notify_accepted r).0
unfolding notify_accepted notify_work_available
accepted-SortedHeap (id, m) s =
    if_ind (λ (y : Manager). SortedHeap y) (id == 0) (λ t. s)
      (λ t. notify-SortedHeap m.notifier m s)

ready-SortedHeap :
    (task : Task) (options : TaskOptions) (m : Manager)
    → SortedHeap m
    → SortedHeap (enqueue_ready_locked task options m).1
unfolding enqueue_ready_locked draw_id draw_seq register_control increment_ready_count
    increment_pending_count
ready-SortedHeap task options m s = s

delayed-SortedHeap :
    (due : ℤ) (task : Task) (options : TaskOptions) (m : Manager)
    → SortedHeap m
    → SortedHeap (enqueue_delayed_locked due task options m).1
unfolding enqueue_delayed_locked draw_id draw_seq register_control increment_pending_count
delayed-SortedHeap due task options m s = push_heap-Sorted _ m.delayed_heap s

pub place-SortedHeap :
    (ready : Bool) (e : Entry) (m : Manager) → SortedHeap m → SortedHeap (place_entry ready e m)
unfolding place_entry increment_ready_count
place-SortedHeap true e m s = s
place-SortedHeap false e m s = push_heap-Sorted e m.delayed_heap s

periodic-SortedHeap :
    (now due interval : ℤ) (task : Task) (options : PeriodicTaskOptions) (m : Manager)
    → SortedHeap m
    → SortedHeap (enqueue_periodic_locked now due interval task options m).1
unfolding enqueue_periodic_locked draw_id draw_seq register_control increment_pending_count
    place_entry increment_ready_count
periodic-SortedHeap now due interval task options m s = elim (Bool-cases (leb_ℤ due now)) [
  | inl t ↦ rw t s
  | inr t ↦ rw t (push_heap-Sorted _ m.delayed_heap s)
]

pub post-SortedHeap :
    (task : Task) (options : TaskOptions) (m : Manager)
    → SortedHeap m
    → SortedHeap (post task options m).0
unfolding post enqueue_ready
post-SortedHeap none options m s = s
post-SortedHeap (some c) options m s = accepted-SortedHeap (enqueue_ready (some c) options m) (
    if_ind (λ (r : ℕ × Manager). SortedHeap r.1) m.closed (λ t. s)
      (λ t. ready-SortedHeap (some c) options m s))

pub post_at-SortedHeap :
    (now due : ℤ) (task : Task) (options : TaskOptions) (m : Manager)
    → SortedHeap m
    → SortedHeap (post_at now due task options m).0
unfolding post_at
post_at-SortedHeap now due none options m s = s
post_at-SortedHeap now due (some c) options m s =
    if_ind (λ (r : Manager × ℕ). SortedHeap r.0) m.closed (λ t. s)
      (λ t.
        accepted-SortedHeap
          (if leb_ℤ due now
            then enqueue_ready_locked (some c) options m
            else enqueue_delayed_locked due (some c) options m)
          (if_ind (λ (r : ℕ × Manager). SortedHeap r.1) (leb_ℤ due now)
            (λ k. ready-SortedHeap (some c) options m s)
            (λ k. delayed-SortedHeap due (some c) options m s)))

pub post_every_after-SortedHeap :
    (now later initial_delay interval : ℤ) (task : Task) (options : PeriodicTaskOptions)
    (m : Manager)
    → SortedHeap m
    → SortedHeap (post_every_after now later initial_delay interval task options m).0
unfolding post_every_after
post_every_after-SortedHeap now later initial_delay interval none options m s = s
post_every_after-SortedHeap now later initial_delay interval (some c) options m s =
    let due : ℤ = if leb_ℤ initial_delay (pos 0) then now else now +ℤ initial_delay in
    if_ind (λ (r : Manager × ℕ). SortedHeap r.0) (leb_ℤ interval (pos 0)) (λ t. s)
      (λ t.
        if_ind (λ (r : Manager × ℕ). SortedHeap r.0) m.closed (λ t. s)
          (λ t.
            accepted-SortedHeap (enqueue_periodic_locked later due interval (some c) options m)
              (periodic-SortedHeap later due interval (some c) options m s)))

batch_loop-SortedHeap :
    (tasks : List Task) (options : TaskOptions) (m : Manager)
    → SortedHeap m
    → SortedHeap (batch_loop tasks options m).0
unfolding batch_loop
batch_loop-SortedHeap [] options m s = s
batch_loop-SortedHeap (none ∷ tasks) options m s = batch_loop-SortedHeap tasks options m s
batch_loop-SortedHeap (some c ∷ tasks) options m s =
    batch_loop-SortedHeap tasks options (enqueue_ready_locked (some c) options m).1
      (ready-SortedHeap (some c) options m s)

pub post_batch-SortedHeap :
    (tasks : List Task) (options : TaskOptions) (m : Manager)
    → SortedHeap m
    → SortedHeap (post_batch tasks options m).0
unfolding post_batch notify_work_available
post_batch-SortedHeap tasks options m s =
    let k = batch_loop-SortedHeap tasks options m s in
    let after = (batch_loop tasks options m).0 in
    if_ind (λ (r : Manager × List ℕ). SortedHeap r.0) m.closed (λ e. s)
      (λ e.
        if_ind (λ (y : Manager). SortedHeap y) (batch_loop tasks options m).2
          (λ t. notify-SortedHeap after.notifier after k) (λ t. k))
