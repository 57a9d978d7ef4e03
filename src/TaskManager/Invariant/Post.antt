-- ===== src/TaskManager/Invariant/Post.antt =====
-- The submissions keep the invariant.
use event_hub_cpp.Prelude.{ℕ, ℤ, pos, leb_ℤ, none, some, List, [], ◌∷◌, ◌==◌, Bool-cases, inl, inr}
use event_hub_cpp.Task.{TaskOptions, PeriodicTaskOptions, Task}
use event_hub_cpp.TaskManager.Types.{Manager}
use event_hub_cpp.TaskManager.Submit.{
  notify_accepted, post, post_at, post_every_after, batch_loop, post_batch,
}
use event_hub_cpp.TaskManager.Invariant.Defs.{IsValid}
use event_hub_cpp.TaskManager.Invariant.Cancel.{Keeps, Keeps-refl}
use event_hub_cpp.TaskManager.Invariant.Submit.{
  Keeps-trans, notify-Keeps, enqueue_ready_locked-Keeps, enqueue_delayed_locked-Keeps,
  enqueue_ready-Keeps,
}
use event_hub_cpp.TaskManager.Invariant.Periodic.{enqueue_periodic_locked-Keeps}

accepted-Keeps : (m : Manager) (r : ℕ × Manager) → Keeps m r.1 → Keeps m (notify_accepted r).0
unfolding notify_accepted
accepted-Keeps m (id, m') k = elim (Bool-cases (id == 0)) [
  | inl z ↦ rw z k
  | inr nz ↦ rw nz (Keeps-trans k (notify-Keeps m' k.valid))
]

pub post-Keeps :
    (task : Task) (options : TaskOptions) (m : Manager)
    → IsValid m
    → Keeps m (post task options m).0
unfolding post
post-Keeps none options m v = Keeps-refl v
post-Keeps (some c) options m v = accepted-Keeps m _ (enqueue_ready-Keeps (some c) options m v)

pub post_at-Keeps :
    (now due : ℤ) (task : Task) (options : TaskOptions) (m : Manager)
    → IsValid m
    → Keeps m (post_at now due task options m).0
unfolding post_at
post_at-Keeps now due none options m v = Keeps-refl v
post_at-Keeps now due (some c) options m v = elim (Bool-cases m.closed) [
  | inl closed ↦ simp closed (Keeps-refl v)
  | inr live ↦ elim (Bool-cases (leb_ℤ due now)) [
    | inl past ↦
        simp (live, past) (accepted-Keeps m _ (enqueue_ready_locked-Keeps (some c) options m v))
    | inr ahead ↦
        simp (live, ahead)
          (accepted-Keeps m _ (enqueue_delayed_locked-Keeps due (some c) options m v))
  ]
]

pub post_every_after-Keeps :
    (now later initial_delay interval : ℤ) (task : Task) (options : PeriodicTaskOptions)
    (m : Manager)
    → IsValid m
    → Keeps m (post_every_after now later initial_delay interval task options m).0
unfolding post_every_after
post_every_after-Keeps now later initial_delay interval none options m v = Keeps-refl v
post_every_after-Keeps now later initial_delay interval (some c) options m v =
    elim (Bool-cases (leb_ℤ interval (pos 0))) [
      | inl bad ↦ simp bad (Keeps-refl v)
      | inr good ↦ elim (Bool-cases m.closed) [
        | inl closed ↦ simp (good, closed) (Keeps-refl v)
        | inr live ↦
            simp (good, live)
              (accepted-Keeps m _
                (enqueue_periodic_locked-Keeps later _ interval (some c) options m v))
      ]
    ]

batch_loop-Keeps :
    (tasks : List Task) (options : TaskOptions) (m : Manager)
    → IsValid m
    → Keeps m (batch_loop tasks options m).0
unfolding batch_loop
batch_loop-Keeps [] options m v = Keeps-refl v
batch_loop-Keeps (none ∷ tasks) options m v = batch_loop-Keeps tasks options m v
batch_loop-Keeps (some c ∷ tasks) options m v =
    let first = enqueue_ready_locked-Keeps (some c) options m v in
    Keeps-trans first (batch_loop-Keeps tasks options _ first.valid)

pub post_batch-Keeps :
    (tasks : List Task) (options : TaskOptions) (m : Manager)
    → IsValid m
    → Keeps m (post_batch tasks options m).0
unfolding post_batch
post_batch-Keeps tasks options m v = elim (Bool-cases m.closed) [
  | inl closed ↦ simp closed (Keeps-refl v)
  | inr live ↦
      let k = batch_loop-Keeps tasks options m v in
      elim (Bool-cases (batch_loop tasks options m).2) [
        | inl told ↦ simp (live, told) (Keeps-trans k (notify-Keeps _ k.valid))
        | inr silent ↦ simp (live, silent) k
      ]
]
