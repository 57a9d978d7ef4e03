-- ===== src/TaskManager/Submit.antt =====
-- The operations of TaskManager that submit work. `now` stands for a reading of the steady clock,
-- `system_now` for one of the system clock; durations are in ticks of the steady clock.
use event_hub_cpp.Prelude.{
  ℕ, suc, ◌==◌, ℤ, pos, ◌+ℤ◌, ◌-ℤ◌, leb_ℤ, if◌then◌else◌, Bool, true, false, none, some, List, [],
  ◌∷◌, write,
}
use event_hub_cpp.Task.{TaskOptions, fixed_delay, PeriodicTaskOptions, Task}
use event_hub_cpp.TaskManager.Types.{
  State, queued_ready, queued_delayed, new_control, Entry, push_back, Manager, emplace_index,
  next_id, next_seq, increment_ready_count, increment_pending_count, notify_work_available,
}
use event_hub_cpp.TaskManager.Delayed.{push_heap}

-- make_shared<Control>, and its entry in the index.
unfoldable pub register_control : ℕ → State → Bool → Manager → Manager
register_control id state periodic m = record m {
  index = emplace_index id m.allocated m.index;
  controls = write m.controls m.allocated (new_control id state periodic);
  allocated = suc m.allocated;
}

-- Draws the id and the sequence number of a new entry.
unfoldable pub draw_id : Manager → ℕ × Manager
draw_id m = let (id, counter) = next_id m.next_id in (id, record m { next_id = counter })

unfoldable pub draw_seq : Manager → ℕ × Manager
draw_seq m = let (seq, counter) = next_seq m.next_seq in (seq, record m { next_seq = counter })

abbrev pub ready_entry : (id seq control : ℕ) → Task → TaskOptions → Entry
ready_entry id seq control task options = record {
  id = id;
  seq = seq;
  priority = options.priority;
  due = pos 0;
  periodic = false;
  interval = pos 0;
  periodic_schedule = fixed_delay;
  planned_due = pos 0;
  control = control;
  task = task;
}

abbrev pub delayed_entry : (id seq control : ℕ) (due : ℤ) → Task → TaskOptions → Entry
delayed_entry id seq control due task options = record {
  id = id;
  seq = seq;
  priority = options.priority;
  due = due;
  periodic = false;
  interval = pos 0;
  periodic_schedule = fixed_delay;
  planned_due = pos 0;
  control = control;
  task = task;
}

abbrev pub periodic_entry :
    (id seq control : ℕ) (due interval : ℤ) → Task → PeriodicTaskOptions → Entry
periodic_entry id seq control due interval task options = record {
  id = id;
  seq = seq;
  priority = options.priority;
  due = due;
  periodic = true;
  interval = interval;
  periodic_schedule = options.schedule;
  planned_due = due;
  control = control;
  task = task;
}

unfoldable pub enqueue_ready_locked : Task → TaskOptions → Manager → ℕ × Manager
unfolding draw_id draw_seq
enqueue_ready_locked task options m =
    let (id, m₁) = draw_id m in
    let (seq, m₂) = draw_seq m₁ in
    let entry = ready_entry id seq m₂.allocated task options in
    let m₃ = register_control id queued_ready false m₂ in
    let m₄ = record m₃ { ready = push_back options.priority entry m₃.ready } in
    (id, increment_pending_count (increment_ready_count m₄))

unfoldable pub enqueue_ready : Task → TaskOptions → Manager → ℕ × Manager
enqueue_ready task options m = if m.closed then (0, m) else enqueue_ready_locked task options m

unfoldable pub enqueue_delayed_locked : ℤ → Task → TaskOptions → Manager → ℕ × Manager
unfolding draw_id draw_seq
enqueue_delayed_locked due task options m =
    let (id, m₁) = draw_id m in
    let (seq, m₂) = draw_seq m₁ in
    let entry = delayed_entry id seq m₂.allocated due task options in
    let m₃ = register_control id queued_delayed false m₂ in
    (id, increment_pending_count (record m₃ { delayed_heap = push_heap entry m₃.delayed_heap }))

-- Puts a periodic entry into a ready queue or the heap.
unfoldable pub place_entry : Bool → Entry → Manager → Manager
place_entry ready entry m =
    if ready
    then increment_ready_count (record m { ready = push_back entry.priority entry m.ready })
    else record m { delayed_heap = push_heap entry m.delayed_heap }

unfoldable pub enqueue_periodic_locked :
    (now due interval : ℤ) → Task → PeriodicTaskOptions → Manager → ℕ × Manager
unfolding draw_id draw_seq
enqueue_periodic_locked now due interval task options m =
    let ready : Bool = leb_ℤ due now in
    let state : State = if ready then queued_ready else queued_delayed in
    let (id, m₁) = draw_id m in
    let (seq, m₂) = draw_seq m₁ in
    let entry = periodic_entry id seq m₂.allocated due interval task options in
    (id, increment_pending_count (place_entry ready entry (register_control id state true m₂)))

-- The notification after the lock is released, for an accepted submission.
unfoldable pub notify_accepted : ℕ × Manager → Manager × ℕ
notify_accepted (id, m) = (if id == 0 then m else notify_work_available m, id)

-- The submissions return the new state and the task id, zero for a rejected task.
unfoldable pub post : Task → TaskOptions → Manager → Manager × ℕ
unfolding notify_accepted
post none options m = (m, 0)
post task options m = notify_accepted (enqueue_ready task options m)

unfoldable pub post_at : (now due : ℤ) → Task → TaskOptions → Manager → Manager × ℕ
unfolding notify_accepted
post_at now due none options m = (m, 0)
post_at now due task options m =
    if m.closed
    then (m, 0)
    else notify_accepted (
        if leb_ℤ due now
        then enqueue_ready_locked task options m
        else enqueue_delayed_locked due task options m)

-- `now` is the reading for the deadline, `later` the one in post_at.
unfoldable pub post_after : (now later delay : ℤ) → Task → TaskOptions → Manager → Manager × ℕ
unfolding post_at
post_after now later delay task options m = post_at later (now +ℤ delay) task options m

unfoldable pub add_task_at_system :
    (system_now now later time : ℤ) → Task → TaskOptions → Manager → Manager × ℕ
unfolding post_at
add_task_at_system system_now now later time task options m =
    let delay = time -ℤ system_now in post_at later (now +ℤ delay) task options m

-- `now` is the reading for the first deadline, `later` the one under the lock.
unfoldable pub post_every_after :
    (now later initial_delay interval : ℤ) → Task → PeriodicTaskOptions → Manager → Manager × ℕ
unfolding notify_accepted
post_every_after now later initial_delay interval none options m = (m, 0)
post_every_after now later initial_delay interval task options m =
    if leb_ℤ interval (pos 0)
    then (m, 0)
    else let due : ℤ = if leb_ℤ initial_delay (pos 0) then now else now +ℤ initial_delay in
      if m.closed
      then (m, 0)
      else notify_accepted (enqueue_periodic_locked later due interval task options m)

unfoldable pub post_every :
    (now later interval : ℤ) → Task → PeriodicTaskOptions → Manager → Manager × ℕ
unfolding post_every_after
post_every now later interval task options m =
    post_every_after now later (pos 0) interval task options m

-- The loop of post_batch under the lock: the ids in input order, and whether to notify.
unfoldable pub batch_loop : List Task → TaskOptions → Manager → Manager × List ℕ × Bool
batch_loop [] options m = (m, [], false)
batch_loop (none ∷ tasks) options m =
    let (m', ids, notify) = batch_loop tasks options m in (m', 0 ∷ ids, notify)
batch_loop (some callback ∷ tasks) options m =
    let (id, m₁) = enqueue_ready_locked (some callback) options m in
    let (m', ids, notify) = batch_loop tasks options m₁ in (m', id ∷ ids, true)

unfoldable pub zeros : List Task → List ℕ
zeros [] = []
zeros (task ∷ tasks) = 0 ∷ zeros tasks

unfoldable pub post_batch : List Task → TaskOptions → Manager → Manager × List ℕ
unfolding zeros
post_batch tasks options m =
    if m.closed
    then (m, zeros tasks)
    else let (m', ids, notify) = batch_loop tasks options m in
      (if notify then notify_work_available m' else m', ids)
