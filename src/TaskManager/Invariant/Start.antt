-- ===== src/TaskManager/Invariant/Start.antt =====
-- Starting an entry, ending it and restoring it keep the invariant.
use event_hub_cpp.Prelude.{◌≡◌, refl, ◌∙◌, true, false, total-write, inl, inr, arith, if◌then◌else◌}
use event_hub_cpp.TaskManager.Types.{
  queued_ready, ready_snapshot, executing, completed, is_state, entries, Control, Entry, Manager,
  set_state, increment_ready_count, decrement_pending_count,
}
use event_hub_cpp.TaskManager.Process.{clear_reschedule, restore_entry}
use event_hub_cpp.TaskManager.Invariant.Defs.{
  IsValid, IsMade, Extends, IsMade-later, ready_weight, pending_weight, push_front-All,
}
use event_hub_cpp.TaskManager.Invariant.Cancel.{Keeps, Keeps-refl}
use event_hub_cpp.TaskManager.Invariant.Frame.{Counts, Frame, Frame-IsValid, Frame-Extends}
use event_hub_cpp.TaskManager.Invariant.Submit.{Extends-same}
use event_hub_cpp.TaskManager.Invariant.Delayed.{transition_cases, set_state-Extends, moved}

-- The entry goes on: a one-shot task no longer counts as pending once it starts, a periodic one
-- when it ends.
abbrev pub started : Entry → Manager → Manager
started e m = if e.periodic then m else decrement_pending_count m

abbrev pub ended : Entry → Manager → Manager
ended e m = if e.periodic then decrement_pending_count m else m

module _ (e : Entry) (m : Manager) (h : IsMade m.allocated m.controls e) (v : IsValid m) where
  pub start-Keeps :
      is_state ready_snapshot (m.controls e.control).state ≡ true
      → Keeps m (started e (set_state e.control executing m))
  unfolding set_state decrement_pending_count moved
  start-Keeps was = record { valid = Frame-IsValid f c v; extends = Frame-Extends f }
    where
      f : Frame 0 m (started e (set_state e.control executing m))
      f = record {
        same_ready = ground arith;
        same_delayed = ground arith;
        same_allocated = ground arith;
        index_shrinks = ground arith;
        keeps = λ q. ground arith;
      }

      c : Counts (started e (set_state e.control executing m))
      c = ground (
        arith,
        was,
        h,
        v.ready_exact,
        v.pending_exact,
        total-write ready_weight m.allocated m.controls e.control (moved e.control executing m) h.0,
        total-write pending_weight m.allocated m.controls e.control (moved e.control executing m)
            h.0,
      )

  pub end-Keeps :
      is_state executing (m.controls e.control).state ≡ true
      → Keeps m (ended e (set_state e.control completed m))
  unfolding set_state decrement_pending_count moved
  end-Keeps was = record { valid = Frame-IsValid f c v; extends = Frame-Extends f }
    where
      f : Frame 0 m (ended e (set_state e.control completed m))
      f = record {
        same_ready = ground arith;
        same_delayed = ground arith;
        same_allocated = ground arith;
        index_shrinks = ground arith;
        keeps = λ q. ground arith;
      }

      c : Counts (ended e (set_state e.control completed m))
      c = ground (
        arith,
        was,
        h,
        v.ready_exact,
        v.pending_exact,
        total-write ready_weight m.allocated m.controls e.control (moved e.control completed m) h.0,
        total-write pending_weight m.allocated m.controls e.control (moved e.control completed m)
            h.0,
      )

  pub clear_reschedule-Keeps : Keeps m (clear_reschedule e.control m)
  unfolding clear_reschedule
  clear_reschedule-Keeps = record { valid = Frame-IsValid f c v; extends = Frame-Extends f }
    where
      cleared : Control
      cleared = record (m.controls e.control) { reschedule_requested = false }

      f : Frame 0 m (clear_reschedule e.control m)
      f = record {
        same_ready = refl;
        same_delayed = refl;
        same_allocated = refl;
        index_shrinks = inl refl;
        keeps = λ q. ground arith;
      }

      c : Counts (clear_reschedule e.control m)
      c = ground (
        arith,
        v.ready_exact,
        v.pending_exact,
        total-write ready_weight m.allocated m.controls e.control cleared h.0,
        total-write pending_weight m.allocated m.controls e.control cleared h.0,
      )

  pub restore_entry-Keeps : Keeps m (restore_entry e m)
  unfolding restore_entry increment_ready_count
  restore_entry-Keeps = elim (transition_cases e.control ready_snapshot queued_ready m) [
    | inl t ↦ rw (t, restore_entry) (Keeps-refl v)
    | inr (t, was) ↦
        rw (t, restore_entry)
          (unfold set_state moved in
            record {
              valid = record {
                ready_exact = ground (
                  arith,
                  was,
                  v.ready_exact,
                  total-write ready_weight m.allocated m.controls e.control
                      (moved e.control queued_ready m) h.0,
                );
                pending_exact = ground (
                  arith,
                  was,
                  v.pending_exact,
                  total-write pending_weight m.allocated m.controls e.control
                      (moved e.control queued_ready m) h.0,
                );
                index_made = v.index_made;
                ready_made =
                    push_front-All
                      (IsMade m.allocated (set_state e.control queued_ready m).controls) e
                      e.priority m.ready (h.0, x.keeps e.control h.0 ∙ h.1)
                      (IsMade-later x (entries m.ready) v.ready_made);
                delayed_made = IsMade-later x m.delayed_heap v.delayed_made;
              };
              extends = Extends-same refl refl x;
            })
  ]
    where
      x : Extends m (set_state e.control queued_ready m)
      x = set_state-Extends e.control queued_ready m
