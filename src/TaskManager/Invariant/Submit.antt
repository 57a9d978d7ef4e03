-- ===== src/TaskManager/Invariant/Submit.antt =====
-- Registering a control and queuing a one-shot task keep the invariant.
use event_hub_cpp.Prelude.{
  ℕ, suc, ◌≡◌, refl, ℤ, Bool, false, Option, none, some, List, All, total-write_new, write,
  Bool-cases, inl, inr, arith,
}
use event_hub_cpp.Task.{TaskOptions, Task}
use event_hub_cpp.TaskManager.Types.{
  State, queued_ready, queued_delayed, new_control, Control, emplace_index, entries, Entry, Manager,
  increment_ready_count, increment_pending_count, notify_work_available, record_notify, next_id,
  next_seq,
}
use event_hub_cpp.TaskManager.Submit.{
  ready_entry, delayed_entry, register_control, enqueue_ready_locked, enqueue_ready,
  enqueue_delayed_locked,
}
use event_hub_cpp.TaskManager.Invariant.Defs.{
  IsValid, IsMade, IsIndexed, Extends, Extends-refl, Extends-trans, ready_weight, pending_weight,
  emplace_index-All, IsIndexed-later, IsMade-later, push_back-All, push_heap-All,
}
use event_hub_cpp.TaskManager.Invariant.Cancel.{Keeps, Keeps-refl}

-- Only the counts, the counters and what is notified differ.
pub Extends-same :
    {m a b : Manager}
    → a.allocated ≡ b.allocated
    → a.controls ≡ b.controls
    → Extends m a
    → Extends m b
Extends-same {m} {a} {b} n f x = record {
  grows = omega (arith, x.grows);
  keeps = λ p h. rw (← f) (x.keeps p h);
}

pub Keeps-trans : {a b c : Manager} → Keeps a b → Keeps b c → Keeps a c
Keeps-trans x y = record { valid = y.valid; extends = Extends-trans x.extends y.extends }

pub notify-Keeps : (m : Manager) → IsValid m → Keeps m (notify_work_available m)
unfolding notify_work_available record_notify
notify-Keeps m v = go m.notifier
  where
    go : (n : Option ℕ) → Keeps m (record_notify n m)
    go none = Keeps-refl v
    go (some n) = record {
      valid = record {
        ready_exact = v.ready_exact;
        pending_exact = v.pending_exact;
        index_made = v.index_made;
        ready_made = v.ready_made;
        delayed_made = v.delayed_made;
      };
      extends = Extends-same {a = m} refl refl (Extends-refl m);
    }

-- A new control, made for the entry `e`.
module _ (m : Manager) (v : IsValid m) (id : ℕ) (state : State) (periodic : Bool) where
  abbrev pub made : Control
  made = new_control id state periodic

  abbrev pub controls' : ℕ → Control
  controls' = write m.controls m.allocated made

  pub register-Extends : Extends m (register_control id state periodic m)
  unfolding register_control
  register-Extends = record { grows = omega arith; keeps = λ p h. ground arith }

  pub register-IsIndexed : All (IsIndexed (suc m.allocated)) (emplace_index id m.allocated m.index)
  register-IsIndexed =
      emplace_index-All (suc m.allocated) id m.allocated m.index (omega arith)
        (IsIndexed-later m.allocated (suc m.allocated) m.index (omega arith) v.index_made)

  pub register-IsMade :
      (e : Entry)
      → e.control ≡ m.allocated
      → e.periodic ≡ periodic
      → IsMade (suc m.allocated) controls' e
  register-IsMade e c k = ground arith

  pub register-IsMade-All :
      (es : List Entry)
      → All (IsMade m.allocated m.controls) es
      → All (IsMade (suc m.allocated) controls') es
  unfolding register_control
  register-IsMade-All es h = IsMade-later register-Extends es h

pub enqueue_ready_locked-Keeps :
    (task : Task) (options : TaskOptions) (m : Manager)
    → IsValid m
    → Keeps m (enqueue_ready_locked task options m).1
unfolding enqueue_ready_locked register_control increment_pending_count increment_ready_count
enqueue_ready_locked-Keeps task options m v = record {
  valid = record {
    ready_exact = omega (
      arith,
      v.ready_exact,
      total-write_new ready_weight m.allocated m.controls (made m v id queued_ready false),
    );
    pending_exact = omega (
      arith,
      v.pending_exact,
      total-write_new pending_weight m.allocated m.controls (made m v id queued_ready false),
    );
    index_made = register-IsIndexed m v id queued_ready false;
    ready_made =
        push_back-All (IsMade (suc m.allocated) (controls' m v id queued_ready false)) entry
          options.priority m.ready (register-IsMade m v id queued_ready false entry refl refl)
          (register-IsMade-All m v id queued_ready false (entries m.ready) v.ready_made);
    delayed_made = register-IsMade-All m v id queued_ready false m.delayed_heap v.delayed_made;
  };
  extends = Extends-same refl refl (register-Extends m v id queued_ready false);
}
  where
    id : ℕ
    id = (next_id m.next_id).0

    entry : Entry
    entry = ready_entry id (next_seq m.next_seq).0 m.allocated task options

pub enqueue_delayed_locked-Keeps :
    (due : ℤ) (task : Task) (options : TaskOptions) (m : Manager)
    → IsValid m
    → Keeps m (enqueue_delayed_locked due task options m).1
unfolding enqueue_delayed_locked register_control increment_pending_count
enqueue_delayed_locked-Keeps due task options m v = record {
  valid = record {
    ready_exact = omega (
      arith,
      v.ready_exact,
      total-write_new ready_weight m.allocated m.controls (made m v id queued_delayed false),
    );
    pending_exact = omega (
      arith,
      v.pending_exact,
      total-write_new pending_weight m.allocated m.controls (made m v id queued_delayed false),
    );
    index_made = register-IsIndexed m v id queued_delayed false;
    ready_made = register-IsMade-All m v id queued_delayed false (entries m.ready) v.ready_made;
    delayed_made =
        push_heap-All (IsMade (suc m.allocated) (controls' m v id queued_delayed false)) entry
          m.delayed_heap (register-IsMade m v id queued_delayed false entry refl refl)
          (register-IsMade-All m v id queued_delayed false m.delayed_heap v.delayed_made);
  };
  extends = Extends-same refl refl (register-Extends m v id queued_delayed false);
}
  where
    id : ℕ
    id = (next_id m.next_id).0

    entry : Entry
    entry = delayed_entry id (next_seq m.next_seq).0 m.allocated due task options

pub enqueue_ready-Keeps :
    (task : Task) (options : TaskOptions) (m : Manager)
    → IsValid m
    → Keeps m (enqueue_ready task options m).1
unfolding enqueue_ready
enqueue_ready-Keeps task options m v = elim (Bool-cases m.closed) [
  | inl c ↦ simp c (Keeps-refl v)
  | inr c ↦ simp c (enqueue_ready_locked-Keeps task options m v)
]
