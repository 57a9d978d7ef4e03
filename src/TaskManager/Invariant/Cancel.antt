-- ===== src/TaskManager/Invariant/Cancel.antt =====
-- Cancellation and the operations of a context keep the invariant.
use event_hub_cpp.Prelude.{
  ℕ, ◌<◌, ◌≡◌, refl, ℤ, true, false, total-write, total-write-write, ◌==◌, Bool-cases, Option-cases,
  inl, inr, arith,
}
use event_hub_cpp.TaskManager.Types.{
  State, executing, cancelled, Control, Manager, transition, decrement_ready_count,
  decrement_pending_count, find_index,
}
use event_hub_cpp.TaskManager.Cancel.{
  cancel_control, cancel, context_cancel_control, cancel_from_context, request_reschedule,
  reschedule_from_context,
}
use event_hub_cpp.TaskManager.Invariant.Defs.{
  IsValid, Extends, Extends-refl, ready_weight, pending_weight, find_index-made,
}
use event_hub_cpp.TaskManager.Invariant.Frame.{Counts, Frame, Frame-IsValid, Frame-Extends}

-- The invariant holds afterwards, and the controls made before keep their kind.
pub record Keeps (m m' : Manager) : Type 0 where
  pub valid : IsValid m'
  pub extends : Extends m m'

pub Keeps-refl : {m : Manager} → IsValid m → Keeps m m
Keeps-refl {m} v = record { valid = v; extends = Extends-refl m }

framed : {id : ℕ} {m m' : Manager} → IsValid m → Frame id m m' → Counts m' → Keeps m m'
framed v f c = record { valid = Frame-IsValid f c v; extends = Frame-Extends f }

module _ (p : ℕ) (m : Manager) where
  abbrev stopped : Control
  stopped = record (m.controls p) { state = cancelled }

  abbrev stopped_for_good : Control
  stopped_for_good = record (m.controls p) { state = cancelled; reschedule_requested = false }

  cancel_control-Frame : (id : ℕ) (s : State) → Frame id m (cancel_control id p s m).0
  unfolding cancel_control transition decrement_ready_count decrement_pending_count
  cancel_control-Frame id executing = record {
    same_ready = ground arith;
    same_delayed = ground arith;
    same_allocated = ground arith;
    index_shrinks = ground arith;
    keeps = λ q. ground arith;
  }
  cancel_control-Frame id _ = record {
    same_ready = ground arith;
    same_delayed = ground arith;
    same_allocated = ground arith;
    index_shrinks = ground arith;
    keeps = λ q. ground arith;
  }

  cancel_control-Counts :
      (id : ℕ) (s : State)
      → (m.controls p).state ≡ s
      → p < m.allocated
      → IsValid m
      → Counts (cancel_control id p s m).0
  unfolding cancel_control transition decrement_ready_count decrement_pending_count
  cancel_control-Counts id executing e lt v = ground (
    arith,
    v.ready_exact,
    v.pending_exact,
    total-write-write ready_weight m.allocated m.controls p stopped stopped_for_good,
    total-write-write pending_weight m.allocated m.controls p stopped stopped_for_good,
  )
  cancel_control-Counts id _ e lt v = ground (
    arith,
    v.ready_exact,
    v.pending_exact,
    total-write ready_weight m.allocated m.controls p stopped,
    total-write pending_weight m.allocated m.controls p stopped,
  )

  context_cancel_control-Keeps :
      p < m.allocated → IsValid m → Keeps m (context_cancel_control p m).0
  unfolding context_cancel_control transition decrement_pending_count
  context_cancel_control-Keeps lt v = framed {id = 0} v frame counts
    where
      frame : Frame 0 m (context_cancel_control p m).0
      frame = record {
        same_ready = ground arith;
        same_delayed = ground arith;
        same_allocated = ground arith;
        index_shrinks = ground arith;
        keeps = λ q. ground arith;
      }

      counts : Counts (context_cancel_control p m).0
      counts = ground (
        arith,
        v.ready_exact,
        v.pending_exact,
        total-write-write ready_weight m.allocated m.controls p stopped stopped_for_good,
        total-write-write pending_weight m.allocated m.controls p stopped stopped_for_good,
      )

  request_reschedule-Keeps :
      (due : ℤ) → p < m.allocated → IsValid m → Keeps m (request_reschedule p due m).0
  unfolding request_reschedule
  request_reschedule-Keeps due lt v = framed {id = 0} v frame counts
    where
      frame : Frame 0 m (request_reschedule p due m).0
      frame = record {
        same_ready = ground arith;
        same_delayed = ground arith;
        same_allocated = ground arith;
        index_shrinks = ground arith;
        keeps = λ q. ground arith;
      }

      asked : Control
      asked = record (m.controls p) { reschedule_requested = true; reschedule_due = due }

      counts : Counts (request_reschedule p due m).0
      counts = ground (
        arith,
        v.ready_exact,
        v.pending_exact,
        total-write ready_weight m.allocated m.controls p asked,
        total-write pending_weight m.allocated m.controls p asked,
      )

pub cancel-Keeps : (id : ℕ) (m : Manager) → IsValid m → Keeps m (cancel id m).0
unfolding cancel
cancel-Keeps id m v = elim (Bool-cases (id == 0)) [
  | inl z ↦ rw z (Keeps-refl v)
  | inr nz ↦ elim (Option-cases (find_index id m.index)) [
    | inl e ↦ rw (nz, e, cancel) (Keeps-refl v)
    | inr (p, e) ↦
        rw (nz, e, cancel)
          (framed {id = id} v (cancel_control-Frame p m id (m.controls p).state) (
            cancel_control-Counts p m id (m.controls p).state refl
              (find_index-made m.allocated id p m.index v.index_made e) v))
  ]
]

pub cancel_from_context-Keeps :
    (id : ℕ) (m : Manager) → IsValid m → Keeps m (cancel_from_context id m).0
unfolding cancel_from_context
cancel_from_context-Keeps id m v = elim (Bool-cases (id == 0)) [
  | inl z ↦ rw z (Keeps-refl v)
  | inr nz ↦ elim (Option-cases (find_index id m.index)) [
    | inl e ↦ rw (nz, e, cancel_from_context) (Keeps-refl v)
    | inr (p, e) ↦
        rw (nz, e, cancel_from_context)
          (context_cancel_control-Keeps p m
            (find_index-made m.allocated id p m.index v.index_made e) v)
  ]
]

pub reschedule_from_context-Keeps :
    (id : ℕ) (due : ℤ) (m : Manager) → IsValid m → Keeps m (reschedule_from_context id due m).0
unfolding reschedule_from_context
reschedule_from_context-Keeps id due m v = elim (Bool-cases (id == 0)) [
  | inl z ↦ rw z (Keeps-refl v)
  | inr nz ↦ elim (Bool-cases m.closed) [
    | inl c ↦ simp (nz, c) (Keeps-refl v)
    | inr c ↦ elim (Option-cases (find_index id m.index)) [
      | inl e ↦ simp (nz, c, e) (Keeps-refl v)
      | inr (p, e) ↦
          simp (nz, c, e)
            (request_reschedule-Keeps p m due
              (find_index-made m.allocated id p m.index v.index_made e) v)
    ]
  ]
]
