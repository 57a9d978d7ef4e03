-- ===== src/TaskManager/Invariant/Finish.antt =====
-- The end of a callback, by success or exception, keeps the invariant.
use event_hub_cpp.Prelude.{
  ℕ, ◌≡◌, refl, ℤ, leb_ℤ, Bool, true, false, [], ◌∷◌, total-write, Bool-cases, inl, inr, arith,
  if◌then◌else◌,
}
use event_hub_cpp.TaskManager.Types.{
  State, queued_ready, queued_delayed, executing, completed, cancelled, is_state, entries, Entry,
  Manager, set_state, increment_ready_count,
}
use event_hub_cpp.TaskManager.Submit.{place_entry}
use event_hub_cpp.TaskManager.Process.{
  enqueue_existing_locked, clear_reschedule, finish_executing, finish_after_success,
  finish_after_exception, count_again,
}
use event_hub_cpp.TaskManager.Invariant.Defs.{
  IsValid, IsMade, Extends, IsMade-later, ready_weight, pending_weight, push_back-All,
  push_heap-All,
}
use event_hub_cpp.TaskManager.Invariant.Cancel.{Keeps, Keeps-refl}
use event_hub_cpp.TaskManager.Invariant.Submit.{Extends-same, Keeps-trans}
use event_hub_cpp.TaskManager.Invariant.Delayed.{
  transition_cases, set_state-Extends, moved, forget-Keeps,
}
use event_hub_cpp.TaskManager.Invariant.Start.{ended, end-Keeps, clear_reschedule-Keeps}

-- An executing entry goes back into the ready queues or the heap.
requeue-Keeps :
    (ready : Bool) (e e' : Entry) (m : Manager) (seqs : ℕ)
    → e'.control ≡ e.control
    → e'.periodic ≡ e.periodic
    → IsMade m.allocated m.controls e
    → IsValid m
    → is_state executing (m.controls e.control).state ≡ true
    → let desired : State = if ready then queued_ready else queued_delayed in
      let resumed = count_again e.periodic (set_state e.control desired m) in
      Keeps m (place_entry ready e' (record resumed { next_seq = seqs }))
unfolding place_entry count_again increment_ready_count set_state moved
requeue-Keeps true e e' m seqs ec ep h v was = record {
  valid = record {
    ready_exact = ground (
      arith,
      was,
      h,
      v.ready_exact,
      total-write ready_weight m.allocated m.controls e.control (moved e.control queued_ready m)
          h.0,
    );
    pending_exact = ground (
      arith,
      was,
      h,
      v.pending_exact,
      total-write pending_weight m.allocated m.controls e.control (moved e.control queued_ready m)
          h.0,
    );
    index_made = v.index_made;
    ready_made =
        push_back-All (IsMade m.allocated (set_state e.control queued_ready m).controls) e'
          e'.priority m.ready (ground (arith, h, ec, ep))
          (IsMade-later x (entries m.ready) v.ready_made);
    delayed_made = IsMade-later x m.delayed_heap v.delayed_made;
  };
  extends = Extends-same refl refl x;
}
  where
    x : Extends m (set_state e.control queued_ready m)
    x = set_state-Extends e.control queued_ready m
requeue-Keeps false e e' m seqs ec ep h v was = record {
  valid = record {
    ready_exact = ground (
      arith,
      was,
      h,
      v.ready_exact,
      total-write ready_weight m.allocated m.controls e.control (moved e.control queued_delayed m)
          h.0,
    );
    pending_exact = ground (
      arith,
      was,
      h,
      v.pending_exact,
      total-write pending_weight m.allocated m.controls e.control (moved e.control queued_delayed m)
          h.0,
    );
    index_made = v.index_made;
    ready_made = IsMade-later x (entries m.ready) v.ready_made;
    delayed_made =
        push_heap-All (IsMade m.allocated (set_state e.control queued_delayed m).controls) e'
          m.delayed_heap (ground (arith, h, ec, ep)) (IsMade-later x m.delayed_heap v.delayed_made);
  };
  extends = Extends-same refl refl x;
}
  where
    x : Extends m (set_state e.control queued_delayed m)
    x = set_state-Extends e.control queued_delayed m

pub enqueue_existing_locked-Keeps :
    (now : ℤ) (e : Entry) (due : ℤ) (m : Manager)
    → IsMade m.allocated m.controls e
    → IsValid m
    → Keeps m (enqueue_existing_locked now e due m)
unfolding enqueue_existing_locked
enqueue_existing_locked-Keeps now e due m h v =
    let ready : Bool = leb_ℤ due now in
    let desired : State = if ready then queued_ready else queued_delayed in
    elim (transition_cases e.control executing desired m) [
      | inl t ↦ rw (t, enqueue_existing_locked) (Keeps-refl v)
      | inr (t, was) ↦
          rw (t, enqueue_existing_locked)
            (requeue-Keeps ready e (record e { seq = _; due = due; planned_due = due }) m _ refl
              refl h v was)
    ]

pub same-IsMade :
    {m m' : Manager} (e : Entry)
    → Extends m m'
    → IsMade m.allocated m.controls e
    → IsMade m'.allocated m'.controls e
same-IsMade {m} {m'} e x h = (IsMade-later x (e ∷ []) (h, tt)).0

finish_executing-Keeps :
    (now later : ℤ) (e : Entry) (m : Manager)
    → IsMade m.allocated m.controls e
    → IsValid m
    → Keeps m (finish_executing now later e m)
unfolding finish_executing
finish_executing-Keeps now later e m h v = elim (Bool-cases m.closed) [
  | inl closed ↦ elim (transition_cases e.control executing completed m) [
    | inl t ↦ simp (closed, t) (Keeps-refl v)
    | inr (t, was) ↦
        let done = end-Keeps e m h v was in
        let cleared =
          clear_reschedule-Keeps e (ended e (set_state e.control completed m))
            (same-IsMade e done.extends h) done.valid in
        simp (closed, t)
          (Keeps-trans done (Keeps-trans cleared (forget-Keeps e.id _ cleared.valid)))
  ]
  | inr live ↦ elim (Bool-cases (m.controls e.control).reschedule_requested) [
    | inl asked ↦
        let cleared = clear_reschedule-Keeps e m h v in
        simp (live, asked)
          (Keeps-trans cleared (
            enqueue_existing_locked-Keeps later e _ _ (same-IsMade e cleared.extends h)
              cleared.valid))
    | inr silent ↦ elim (Bool-cases e.periodic) [
      | inl again ↦ simp (live, silent, again) (enqueue_existing_locked-Keeps later e _ m h v)
      | inr once ↦ elim (transition_cases e.control executing completed m) [
        | inl t ↦ simp (live, silent, once, t) (Keeps-refl v)
        | inr (t, was) ↦
            let done : Keeps m (set_state e.control completed m) =
              simp once at (end-Keeps e m h v was) in
            simp (live, silent, once, t) (Keeps-trans done (forget-Keeps e.id _ done.valid))
      ]
    ]
  ]
]

pub finish_after_success-Keeps :
    (now later : ℤ) (e : Entry) (m : Manager)
    → IsMade m.allocated m.controls e
    → IsValid m
    → Keeps m (finish_after_success now later e m)
unfolding finish_after_success
finish_after_success-Keeps now later e m h v =
    elim (Bool-cases (is_state cancelled (m.controls e.control).state)) [
      | inl gone ↦
          let cleared = clear_reschedule-Keeps e m h v in
          rw gone (Keeps-trans cleared (forget-Keeps e.id _ cleared.valid))
      | inr here ↦ elim (Bool-cases (is_state executing (m.controls e.control).state)) [
        | inl runs ↦ rw (here, runs) (finish_executing-Keeps now later e m h v)
        | inr other ↦ rw (here, other) (Keeps-refl v)
      ]
    ]

pub finish_after_exception-Keeps :
    (e : Entry) (m : Manager)
    → IsMade m.allocated m.controls e
    → IsValid m
    → Keeps m (finish_after_exception e m)
unfolding finish_after_exception
finish_after_exception-Keeps e m h v =
    let m₀ = clear_reschedule e.control m in
    let cleared = clear_reschedule-Keeps e m h v in
    elim (Bool-cases (is_state executing (m₀.controls e.control).state)) [
      | inl runs ↦ elim (transition_cases e.control executing completed m₀) [
        | inl t ↦ rw (runs, t, finish_after_exception) cleared
        | inr (t, was) ↦
            let done = end-Keeps e m₀ (same-IsMade e cleared.extends h) cleared.valid was in
            rw (runs, t, finish_after_exception)
              (Keeps-trans cleared (Keeps-trans done (forget-Keeps e.id _ done.valid)))
      ]
      | inr other ↦ elim (Bool-cases (is_state cancelled (m₀.controls e.control).state)) [
        | inl gone ↦ rw (other, gone) (Keeps-trans cleared (forget-Keeps e.id _ cleared.valid))
        | inr here ↦ rw (other, here) cleared
      ]
    ]
