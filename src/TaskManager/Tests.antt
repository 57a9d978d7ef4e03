-- ===== src/TaskManager/Tests.antt =====
-- Concrete managers on which the theorems about TaskManager are applied.
use event_hub_cpp.Prelude.{
  ℕ, ◌<◌, ◌≤◌, ◌≡◌, ◌≢◌, refl, ◌⊎◌, pos, ◌≤ℤ◌, ◌-ℤ◌, leb_ℤ, true, false, none, some, List, [], ◌∷◌,
  ◌++◌, select, arith, Any, inl, inr,
}
use event_hub_cpp.Task.{TaskOptions, PeriodicTaskOptions, high, normal, fixed_rate, Task, no_arg}
use event_hub_cpp.TaskManager.Types.{
  queued_ready, queued_delayed, cancelled, Entry, Manager, new_manager, has_ready, has_pending,
  find_index, next_id, next_seq, emplace_index, push_back, increment_ready_count,
  increment_pending_count, notify_work_available, record_notify, is_state, ready_snapshot,
  decrement_ready_count, decrement_pending_count, forget, set_state, set_control, transition,
  erase_index,
}
use event_hub_cpp.TaskManager.Delayed.{
  next_deadline, promote_due, prune_delayed_top, prune_heap, front_due, push_heap, promote_entry,
}
use event_hub_cpp.TaskManager.Submit.{
  register_control, draw_id, draw_seq, enqueue_ready_locked, enqueue_ready, notify_accepted, post,
  enqueue_delayed_locked, post_at, ready_entry, post_batch,
}
use event_hub_cpp.TaskManager.Cancel.{
  clear_ready, clear_delayed, clear_pending, recommend_wait_for, cancel, cancel_control,
}
use event_hub_cpp.TaskManager.Process.{
  process, take_ready_batch, take_queue, take_entry, restore_entry, restore_unrun, start_entry,
}
use event_hub_cpp.TaskManager.Turns.{posts, posts_at, cancels, apply, Behaviour}
use event_hub_cpp.TaskManager.Invariant.Defs.{is_pending}
use event_hub_cpp.TaskManager.Surviving.Log.{process_log, Accounts}
use event_hub_cpp.TaskManager.Surviving.Queued.{IsQueued, process_loses_no_task}
use event_hub_cpp.TaskManager.History.{
  Operation, calls, processes, run_history, perform, IsSound, run_history-IsSound,
}
use event_hub_cpp.TaskManager.Counts.{has_ready_sound, has_ready_complete, has_pending_complete}
use event_hub_cpp.TaskManager.Clearing.{clear_pending_drops_all}
use event_hub_cpp.TaskManager.Batch.{count_of, process-count}
use event_hub_cpp.TaskManager.Due.{
  Sorted, Exhausted, promote_due-Exhausted, recommend_wait_for_bounds, recommend_wait_for_prompt,
}
use event_hub_cpp.TaskManager.Deadline.{IsNext, next_deadline-IsNext}
use event_hub_cpp.TaskManager.Sorted.Submit.{SortedHeap}
use event_hub_cpp.TaskManager.Sorted.Process.{run_history-SortedHeap}
use event_hub_cpp.TaskManager.Ids.{post_each, drawn_ids, silent, post_batch-post_each}
use event_hub_cpp.TaskManager.Cancelling.{cancel-start_entry}
use event_hub_cpp.TaskManager.Restoring.{queue_of, same_priority, restore_unrun-queue_of}

abbrev job : Task
job = some (no_arg 7)

abbrev urgent : TaskOptions
urgent = record { priority = high }

abbrev usual : TaskOptions
usual = record { priority = normal }

abbrev every : PeriodicTaskOptions
every = record { priority = normal; schedule = fixed_rate }

-- Two ready tasks and one that is due at 10.
abbrev sample : List Operation
sample =
    calls 0 (posts job usual)
    ∷ calls 0 (posts job urgent)
    ∷ calls 0 (posts_at (pos 0) (pos 10) job usual)
    ∷ []

abbrev start : Manager
start = new_manager (some 3)

abbrev busy : Manager
busy = run_history sample start

abbrev delayed_only : Manager
delayed_only = run_history (calls 0 (posts_at (pos 0) (pos 10) job usual) ∷ []) start

-- The first callback posts a task, cancels another and throws.
abbrev throwing : Behaviour
throwing e m = record {
  commands = posts job usual ∷ cancels 1 ∷ [];
  throws = true;
  now = pos 12;
  later = pos 12;
  handler_commands = [];
  handler_throws = false;
}

busy-IsSound : IsSound busy
busy-IsSound = run_history-IsSound (some 3) sample

run_history-IsSound_example : IsSound (run_history (processes throwing (pos 11) 2 ∷ sample) start)
run_history-IsSound_example = run_history-IsSound (some 3) (processes throwing (pos 11) 2 ∷ sample)

run_history-SortedHeap_example :
    SortedHeap (run_history (processes throwing (pos 11) 2 ∷ sample) start)
run_history-SortedHeap_example =
    run_history-SortedHeap (some 3) (processes throwing (pos 11) 2 ∷ sample)

start_open : start.closed ≡ false
unfolding new_manager
start_open = refl

abbrev mixed : List Task
mixed = job ∷ none ∷ job ∷ []

post_batch-post_each_example :
    let (after, ids) = post_batch mixed urgent start in
    let (posted, each) = post_each mixed urgent start in
    (ids ≡ each) × (ids ≡ drawn_ids start.next_id mixed) × (silent after ≡ silent posted)
post_batch-post_each_example = post_batch-post_each mixed urgent start start_open

-- What the sample managers hold, by running them.
busy_facts :
    (has_ready busy ≡ true)
    × (busy.allocated ≡ 3)
    × ((busy.controls 0).state ≡ queued_ready)
    × Sorted busy.delayed_heap
    × (find_index 1 busy.index ≡ some 0)
    × ((cancel 1 busy).1 ≡ true)
unfolding run_history perform apply post post_at enqueue_ready enqueue_ready_locked
    enqueue_delayed_locked draw_id draw_seq next_id next_seq register_control emplace_index
    find_index push_back push_heap increment_ready_count increment_pending_count notify_accepted
    notify_work_available record_notify new_manager cancel cancel_control transition
busy_facts = (refl, refl, refl, (tt, tt), refl, refl)

-- The callbacks post a task and throw.
abbrev failing : Behaviour
failing e m = record {
  commands = posts job usual ∷ [];
  throws = true;
  now = pos 12;
  later = pos 12;
  handler_commands = [];
  handler_throws = false;
}

-- The first task posted, which the batch holds behind the urgent one.
busy-IsQueued : IsQueued 0 busy
unfolding run_history perform apply post post_at enqueue_ready enqueue_ready_locked
    enqueue_delayed_locked draw_id draw_seq next_id next_seq register_control emplace_index
    find_index push_back push_heap increment_ready_count increment_pending_count notify_accepted
    notify_work_available record_notify new_manager
busy-IsQueued = inl (refl, inr (inl refl))

process_loses_no_task_example :
    IsQueued 0 (process failing (pos 11) 2 busy).0
    ⊎ Any (Accounts 0) (process_log failing (pos 11) 2 busy)
process_loses_no_task_example =
    process_loses_no_task failing (pos 11) 2 0 busy busy-IsSound.valid busy-IsSound.located
      (omega (arith, busy_facts.1)) busy-IsQueued

delayed_only_facts :
    (has_ready delayed_only ≡ false)
    × ((next_deadline delayed_only).1 ≡ some (pos 10))
    × Sorted delayed_only.delayed_heap
unfolding run_history perform apply post post_at enqueue_ready enqueue_ready_locked
    enqueue_delayed_locked draw_id draw_seq next_id next_seq register_control emplace_index
    find_index push_back push_heap increment_ready_count increment_pending_count notify_accepted
    notify_work_available record_notify new_manager next_deadline prune_delayed_top prune_heap
    front_due
delayed_only_facts = (refl, refl, (tt, tt))

-- A manager whose only task was cancelled.
abbrev finished : Manager
finished = run_history (calls 0 (posts job usual) ∷ calls 0 (cancels 1) ∷ []) start

finished_facts : (has_pending finished ≡ false) × (finished.allocated ≡ 1)
unfolding run_history perform apply post post_at enqueue_ready enqueue_ready_locked
    enqueue_delayed_locked draw_id draw_seq next_id next_seq register_control emplace_index
    find_index push_back push_heap increment_ready_count increment_pending_count notify_accepted
    notify_work_available record_notify new_manager cancel cancel_control transition set_state
    set_control decrement_ready_count decrement_pending_count forget erase_index
finished_facts = (refl, refl)

has_ready_sound_example : (p : ℕ) × (p < busy.allocated) × ((busy.controls p).state ≡ queued_ready)
has_ready_sound_example = has_ready_sound busy busy-IsSound.valid busy_facts.0

has_ready_complete_example : has_ready busy ≡ true
has_ready_complete_example =
    has_ready_complete busy busy-IsSound.valid (omega (arith, busy_facts.1)) 0
      (omega (arith, busy_facts.1)) busy_facts.2

finished-IsSound : IsSound finished
finished-IsSound =
    run_history-IsSound (some 3) (calls 0 (posts job usual) ∷ calls 0 (cancels 1) ∷ [])

has_pending_complete_example :
    is_pending (finished.controls 0).state (finished.controls 0).periodic ≡ 0
has_pending_complete_example =
    has_pending_complete finished finished-IsSound.valid (omega (arith, finished_facts.1))
      finished_facts.0 0 (omega (arith, finished_facts.1))

cleared_facts : 0 < (clear_pending busy).0.allocated
unfolding run_history perform apply post post_at enqueue_ready enqueue_ready_locked
    enqueue_delayed_locked draw_id draw_seq next_id next_seq register_control emplace_index
    find_index push_back push_heap increment_ready_count increment_pending_count notify_accepted
    notify_work_available record_notify new_manager clear_pending clear_ready clear_delayed
    transition set_state set_control decrement_ready_count decrement_pending_count forget
    erase_index
cleared_facts = omega arith

clear_pending_drops_all_example :
    ((((clear_pending busy).0.controls 0).state ≢ queued_ready)
      × (((clear_pending busy).0.controls 0).state ≢ queued_delayed))
clear_pending_drops_all_example =
    clear_pending_drops_all [] [] busy busy-IsSound.located 0 cleared_facts

process-count_example : count_of (process throwing (pos 11) 2 busy).1 ≤ 2
process-count_example = process-count throwing (pos 11) 2 busy

promote_due-Exhausted_example : Exhausted (pos 11) (promote_due (pos 11) busy)
promote_due-Exhausted_example = promote_due-Exhausted (pos 11) busy busy_facts.3

next_deadline-IsNext_example : IsNext busy.controls (next_deadline busy).1 busy.delayed_heap
next_deadline-IsNext_example = next_deadline-IsNext busy busy_facts.3

recommend_wait_for_bounds_example :
    (pos 0 ≤ℤ (recommend_wait_for (pos 4) (pos 100) busy).1)
    × ((recommend_wait_for (pos 4) (pos 100) busy).1 ≤ℤ pos 100)
recommend_wait_for_bounds_example = recommend_wait_for_bounds (pos 4) (pos 100) busy (omega arith)

recommend_wait_for_prompt_example :
    ((leb_ℤ (pos 10) (pos 4) ≡ true)
      × ((recommend_wait_for (pos 4) (pos 100) delayed_only).1 ≡ pos 0))
    ⊎ ((recommend_wait_for (pos 4) (pos 100) delayed_only).1 ≤ℤ (pos 10 -ℤ pos 4))
recommend_wait_for_prompt_example =
    recommend_wait_for_prompt (pos 4) (pos 100) (pos 10) delayed_only (omega arith)
      delayed_only_facts.0 delayed_only_facts.1

abbrev first_entry : Entry
first_entry = ready_entry 1 1 0 job usual

abbrev urgent_entry : Entry
urgent_entry = ready_entry 2 2 1 job urgent

cancel-start_entry_example :
    (((cancel 1 busy).0.controls 0).state ≡ cancelled)
    × (start_entry first_entry (cancel 1 busy).0 ≡ none)
    × (promote_entry first_entry (cancel 1 busy).0 ≡ (cancel 1 busy).0)
    × (restore_entry first_entry (cancel 1 busy).0 ≡ (cancel 1 busy).0)
cancel-start_entry_example = cancel-start_entry 1 first_entry busy busy_facts.4 busy_facts.5

-- Both ready tasks are in a batch.
abbrev taken : Manager
taken = (take_ready_batch 2 busy).manager

taken_facts :
    (is_state ready_snapshot (taken.controls 1).state ≡ true)
    × (is_state ready_snapshot (taken.controls 0).state ≡ true)
unfolding run_history perform apply post post_at enqueue_ready enqueue_ready_locked
    enqueue_delayed_locked draw_id draw_seq next_id next_seq register_control emplace_index
    find_index push_back push_heap increment_ready_count increment_pending_count notify_accepted
    notify_work_available record_notify new_manager take_ready_batch take_queue take_entry
    transition set_state set_control decrement_ready_count
taken_facts = (refl, refl)

restore_unrun-queue_of_example :
    queue_of high (restore_unrun (urgent_entry ∷ first_entry ∷ []) taken).ready
    ≡ select (λ e. same_priority e.priority high) (urgent_entry ∷ first_entry ∷ [])
      ++ queue_of high taken.ready
restore_unrun-queue_of_example =
    restore_unrun-queue_of high (urgent_entry ∷ first_entry ∷ []) taken
      (((λ same. omega (arith, same)), tt), (tt, tt)) (taken_facts.0, (taken_facts.1, tt))
