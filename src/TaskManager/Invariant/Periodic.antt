-- ===== src/TaskManager/Invariant/Periodic.antt =====
-- Submitting a periodic task keeps the invariant.
use event_hub_cpp.Prelude.{
  ℕ, suc, refl, ℤ, leb_ℤ, Bool, true, false, total-write_new, if◌then◌else◌, arith,
}
use event_hub_cpp.Task.{PeriodicTaskOptions, Task}
use event_hub_cpp.TaskManager.Types.{
  State, queued_ready, queued_delayed, entries, Entry, Manager, increment_ready_count,
  increment_pending_count, next_id, next_seq,
}
use event_hub_cpp.TaskManager.Submit.{
  periodic_entry, register_control, place_entry, enqueue_periodic_locked,
}
use event_hub_cpp.TaskManager.Invariant.Defs.{
  IsValid, IsMade, Extends-refl, ready_weight, pending_weight, push_back-All, push_heap-All,
}
use event_hub_cpp.TaskManager.Invariant.Cancel.{Keeps}
use event_hub_cpp.TaskManager.Invariant.Submit.{
  Extends-same, Keeps-trans, made, controls', register-Extends, register-IsIndexed, register-IsMade,
  register-IsMade-All,
}

-- A periodic entry goes where its control's state says.
place_entry-Keeps :
    (ready : Bool) (id seq : ℕ) (due interval : ℤ) (task : Task) (options : PeriodicTaskOptions)
    (m : Manager)
    → IsValid m
    → let state : State = if ready then queued_ready else queued_delayed in
      let entry = periodic_entry id seq m.allocated due interval task options in
      Keeps m (increment_pending_count (place_entry ready entry (register_control id state true m)))
unfolding place_entry register_control increment_pending_count increment_ready_count
place_entry-Keeps true id seq due interval task options m v = record {
  valid = record {
    ready_exact = omega (
      arith,
      v.ready_exact,
      total-write_new ready_weight m.allocated m.controls (made m v id queued_ready true),
    );
    pending_exact = omega (
      arith,
      v.pending_exact,
      total-write_new pending_weight m.allocated m.controls (made m v id queued_ready true),
    );
    index_made = register-IsIndexed m v id queued_ready true;
    ready_made =
        push_back-All (IsMade (suc m.allocated) (controls' m v id queued_ready true)) entry
          options.priority m.ready (register-IsMade m v id queued_ready true entry refl refl)
          (register-IsMade-All m v id queued_ready true (entries m.ready) v.ready_made);
    delayed_made = register-IsMade-All m v id queued_ready true m.delayed_heap v.delayed_made;
  };
  extends = Extends-same refl refl (register-Extends m v id queued_ready true);
}
  where
    entry : Entry
    entry = periodic_entry id seq m.allocated due interval task options
place_entry-Keeps false id seq due interval task options m v = record {
  valid = record {
    ready_exact = omega (
      arith,
      v.ready_exact,
      total-write_new ready_weight m.allocated m.controls (made m v id queued_delayed true),
    );
    pending_exact = omega (
      arith,
      v.pending_exact,
      total-write_new pending_weight m.allocated m.controls (made m v id queued_delayed true),
    );
    index_made = register-IsIndexed m v id queued_delayed true;
    ready_made = register-IsMade-All m v id queued_delayed true (entries m.ready) v.ready_made;
    delayed_made =
        push_heap-All (IsMade (suc m.allocated) (controls' m v id queued_delayed true)) entry
          m.delayed_heap (register-IsMade m v id queued_delayed true entry refl refl)
          (register-IsMade-All m v id queued_delayed true m.delayed_heap v.delayed_made);
  };
  extends = Extends-same refl refl (register-Extends m v id queued_delayed true);
}
  where
    entry : Entry
    entry = periodic_entry id seq m.allocated due interval task options

-- The counters of ids and sequence numbers are no part of the invariant.
counters-Keeps :
    (m : Manager) (ids seqs : ℕ) → IsValid m → Keeps m (record m { next_id = ids; next_seq = seqs })
counters-Keeps m ids seqs v = record {
  valid = record {
    ready_exact = v.ready_exact;
    pending_exact = v.pending_exact;
    index_made = v.index_made;
    ready_made = v.ready_made;
    delayed_made = v.delayed_made;
  };
  extends = Extends-same {a = m} refl refl (Extends-refl m);
}

pub enqueue_periodic_locked-Keeps :
    (now due interval : ℤ) (task : Task) (options : PeriodicTaskOptions) (m : Manager)
    → IsValid m
    → Keeps m (enqueue_periodic_locked now due interval task options m).1
unfolding enqueue_periodic_locked
enqueue_periodic_locked-Keeps now due interval task options m v =
    let ids = next_id m.next_id in
    let seqs = next_seq m.next_seq in
    let drawn : Manager = record m { next_id = ids.1; next_seq = seqs.1 } in
    let step = counters-Keeps m ids.1 seqs.1 v in
    Keeps-trans step
      (place_entry-Keeps (leb_ℤ due now) ids.0 seqs.0 due interval task options drawn step.valid)
