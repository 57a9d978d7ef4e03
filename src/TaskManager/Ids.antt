-- ===== src/TaskManager/Ids.antt =====
-- post_batch() against post() of its tasks one after another.
use event_hub_cpp.Prelude.{
  ℕ, ◌≡◌, ◌≢◌, ◌==◌, ◌∙◌, ap, refl, sym, if_ind, false, Option, none, some, List, [], ◌∷◌,
  Bool-cases, inl, inr, arith, ==→ne, ==→eq,
}
use event_hub_cpp.Task.{Callback, Task, TaskOptions}
use event_hub_cpp.TaskManager.Types.{
  Manager, next_id, increment_ready_count, increment_pending_count, notify_work_available,
  record_notify,
}
use event_hub_cpp.TaskManager.Submit.{
  draw_id, draw_seq, register_control, enqueue_ready_locked, enqueue_ready, notify_accepted, post,
  batch_loop, post_batch,
}

-- post() of the tasks one after another: the state and the ids.
unfoldable pub post_each : List Task → TaskOptions → Manager → Manager × List ℕ
post_each [] options m = (m, [])
post_each (task ∷ tasks) options m =
    let (m₁, id) = post task options m in
    let (m', ids) = post_each tasks options m₁ in (m', id ∷ ids)

-- The ids that the counter hands out: one for each task with a callback, and 0 for an empty task.
unfoldable pub drawn_ids : (counter : ℕ) → List Task → List ℕ
drawn_ids counter [] = []
drawn_ids counter (none ∷ tasks) = 0 ∷ drawn_ids counter tasks
drawn_ids counter (some c ∷ tasks) = let (id, next) = next_id counter in id ∷ drawn_ids next tasks

-- The manager without the record of its notifications.
abbrev pub silent : Manager → Manager
silent m = record m { notified = [] }

pub next_id-ne : (counter : ℕ) → (next_id counter).0 ≢ 0
unfolding next_id
next_id-ne counter = elim (Bool-cases (counter == 0)) [
  | inl z ↦ rw z (λ h. ground (arith, z, h))
  | inr nz ↦ rw nz (==→ne counter 0 nz)
]

notify_to : (n : Option ℕ) (m : Manager) → silent (record_notify n m) ≡ silent m
unfolding record_notify
notify_to none m = refl
notify_to (some n) m = refl

notify-silent : (m : Manager) → silent (notify_work_available m) ≡ silent m
unfolding notify_work_available
notify-silent m = notify_to m.notifier m

-- What the loop of post_batch() does does not depend on earlier notifications.
batch_loop-silent :
    (tasks : List Task) (options : TaskOptions) (m : Manager)
    → (silent (batch_loop tasks options m).0 ≡ (batch_loop tasks options (silent m)).0)
      × ((batch_loop tasks options m).1 ≡ (batch_loop tasks options (silent m)).1)
unfolding batch_loop enqueue_ready_locked draw_id draw_seq register_control increment_ready_count
    increment_pending_count
batch_loop-silent [] options m = (refl, refl)
batch_loop-silent (none ∷ tasks) options m =
    let (same, ids) = batch_loop-silent tasks options m in (same, ap (λ (r : List ℕ). 0 ∷ r) ids)
batch_loop-silent (some c ∷ tasks) options m =
    let (id, m₁) = enqueue_ready_locked (some c) options m in
    let (same, ids) = batch_loop-silent tasks options m₁ in (same, ap (λ (r : List ℕ). id ∷ r) ids)

-- post() of a task with a callback is the step of the loop and a notification.
post-enqueue :
    (c : Callback) (options : TaskOptions) (m : Manager)
    → m.closed ≡ false
    → let (id, m₁) = enqueue_ready_locked (some c) options m in
      post (some c) options m ≡ (notify_work_available m₁, id)
unfolding post enqueue_ready notify_accepted enqueue_ready_locked draw_id
post-enqueue c options m live = elim (Bool-cases ((next_id m.next_id).0 == 0)) [
  | inl z ↦ absurd (next_id-ne m.next_id (==→eq (next_id m.next_id).0 0 z))
  | inr nz ↦ simp (live, nz) refl
]

post-empty : (options : TaskOptions) (m : Manager) → post none options m ≡ (m, 0)
unfolding post
post-empty options m = refl

notify-closed : (m : Manager) → (notify_work_available m).closed ≡ m.closed
notify-closed m = ap (λ (y : Manager). y.closed) (notify-silent m)

enqueue-closed :
    (c : Callback) (options : TaskOptions) (m : Manager)
    → (enqueue_ready_locked (some c) options m).1.closed ≡ m.closed
unfolding enqueue_ready_locked draw_id draw_seq register_control increment_ready_count
    increment_pending_count
enqueue-closed c options m = refl

-- The loop agrees with post() of the tasks one after another.
batch_loop-post_each :
    (tasks : List Task) (options : TaskOptions) (m : Manager)
    → m.closed ≡ false
    → ((batch_loop tasks options m).1 ≡ (post_each tasks options m).1)
      × (silent (batch_loop tasks options m).0 ≡ silent (post_each tasks options m).0)
unfolding batch_loop post_each
batch_loop-post_each [] options m live = (refl, refl)
batch_loop-post_each (none ∷ tasks) options m live =
    let (ids, same) = batch_loop-post_each tasks options m live in
    rw (post-empty options m) (ap (λ (r : List ℕ). 0 ∷ r) ids, same)
batch_loop-post_each (some c ∷ tasks) options m live =
    let m₁ = (enqueue_ready_locked (some c) options m).1 in
    let m₂ = notify_work_available m₁ in
    let (ids, same) =
      batch_loop-post_each tasks options m₂
        (notify-closed m₁ ∙ enqueue-closed c options m ∙ live) in
    let (before, ids₁) = batch_loop-silent tasks options m₁ in
    let (after, ids₂) = batch_loop-silent tasks options m₂ in
    let loops = ap (λ y. batch_loop tasks options y) (notify-silent m₁) in
    let same_ids = ids₁ ∙ ap (λ r. r.1) (sym loops) ∙ sym ids₂ in
    rw (post-enqueue c options m live) (
      ap (λ (r : List ℕ). (enqueue_ready_locked (some c) options m).0 ∷ r) (same_ids ∙ ids),
      before ∙ ap (λ r. r.0) (sym loops) ∙ sym after ∙ same,
    )

batch_loop-drawn_ids :
    (tasks : List Task) (options : TaskOptions) (m : Manager)
    → (batch_loop tasks options m).1 ≡ drawn_ids m.next_id tasks
unfolding batch_loop drawn_ids enqueue_ready_locked draw_id draw_seq register_control
    increment_ready_count increment_pending_count
batch_loop-drawn_ids [] options m = refl
batch_loop-drawn_ids (none ∷ tasks) options m =
    ap (λ (r : List ℕ). 0 ∷ r) (batch_loop-drawn_ids tasks options m)
batch_loop-drawn_ids (some c ∷ tasks) options m =
    let (id, m₁) = enqueue_ready_locked (some c) options m in
    ap (λ (r : List ℕ). id ∷ r) (batch_loop-drawn_ids tasks options m₁)

-- On a manager that is open, post_batch() returns the ids that post() of its tasks, one after
-- another, returns, and leaves the same state up to the record of notifications. The ids are the
-- next ones of the counter in input order, with 0 for each empty task.
pub post_batch-post_each :
    (tasks : List Task) (options : TaskOptions) (m : Manager)
    → m.closed ≡ false
    → let (after, ids) = post_batch tasks options m in
      let (posted, each) = post_each tasks options m in
      (ids ≡ each) × (ids ≡ drawn_ids m.next_id tasks) × (silent after ≡ silent posted)
unfolding post_batch
post_batch-post_each tasks options m live =
    let (after, ids, notify) = batch_loop tasks options m in
    let (same_ids, same) = batch_loop-post_each tasks options m live in
    let quiet =
      if_ind (λ (y : Manager). silent y ≡ silent after) notify (λ _. notify-silent after)
        (λ _. refl) in
    simp live (same_ids, batch_loop-drawn_ids tasks options m, quiet ∙ same)
