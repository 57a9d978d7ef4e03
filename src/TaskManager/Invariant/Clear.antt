-- ===== src/TaskManager/Invariant/Clear.antt =====
-- close and clear_pending keep the invariant.
use event_hub_cpp.Prelude.{
  ℕ, ◌+◌, ◌<◌, total-write, ◌≡◌, refl, true, List, [], ◌∷◌, ◌++◌, All-append_left, All-append_right,
  Bool-cases, inl, inr, arith,
}
use event_hub_cpp.TaskManager.Types.{
  State, queued_ready, queued_delayed, cancelled, is_state, Entry, Manager, set_state,
  decrement_ready_count, decrement_pending_count,
}
use event_hub_cpp.TaskManager.Cancel.{clear_ready, clear_delayed, clear_pending, close, no_entries}
use event_hub_cpp.TaskManager.Invariant.Defs.{
  IsValid, ready_weight, pending_weight, Extends-refl, IsMade-later,
}
use event_hub_cpp.TaskManager.Invariant.Cancel.{Keeps, Keeps-refl}
use event_hub_cpp.TaskManager.Invariant.Frame.{Counts, Frame, Frame-IsValid, Frame-Extends}
use event_hub_cpp.TaskManager.Invariant.Submit.{Extends-same, Keeps-trans, notify-Keeps}
use event_hub_cpp.TaskManager.Invariant.Delayed.{
  Made, transition_cases, forget-Keeps, heap-Keeps, ready-Keeps, moved,
}

pub is_state→eq : (a b : State) → is_state a b ≡ true → b ≡ a
is_state→eq a b h = ground arith

-- A task that was queued is dropped.
drop-Counts :
    (p : ℕ) (m : Manager)
    → p < m.allocated
    → IsValid m
    → ((m.controls p).state ≡ queued_ready
        → Counts (decrement_pending_count (decrement_ready_count (set_state p cancelled m))))
      × ((m.controls p).state ≡ queued_delayed
          → Counts (decrement_pending_count (set_state p cancelled m)))
unfolding decrement_pending_count decrement_ready_count set_state moved
drop-Counts p m lt v = (
  λ e. ground (
    arith,
    v.ready_exact,
    v.pending_exact,
    total-write ready_weight m.allocated m.controls p (moved p cancelled m),
    total-write pending_weight m.allocated m.controls p (moved p cancelled m),
  ),
  λ e. ground (
    arith,
    v.ready_exact,
    v.pending_exact,
    total-write ready_weight m.allocated m.controls p (moved p cancelled m),
    total-write pending_weight m.allocated m.controls p (moved p cancelled m),
  ),
)

drop_ready-Keeps :
    (p : ℕ) (m : Manager)
    → p < m.allocated
    → IsValid m
    → (m.controls p).state ≡ queued_ready
    → Keeps m (decrement_pending_count (decrement_ready_count (set_state p cancelled m)))
drop_ready-Keeps p m lt v e = record {
  valid = Frame-IsValid {id = 0} f ((drop-Counts p m lt v).0 e) v;
  extends = Frame-Extends f;
}
  where
    f : Frame 0 m (decrement_pending_count (decrement_ready_count (set_state p cancelled m)))
    f =
        unfold decrement_pending_count decrement_ready_count set_state in
        record {
          same_ready = refl;
          same_delayed = refl;
          same_allocated = refl;
          index_shrinks = inl refl;
          keeps = λ q. ground arith;
        }

drop_delayed-Keeps :
    (p : ℕ) (m : Manager)
    → p < m.allocated
    → IsValid m
    → (m.controls p).state ≡ queued_delayed
    → Keeps m (decrement_pending_count (set_state p cancelled m))
drop_delayed-Keeps p m lt v e = record {
  valid = Frame-IsValid {id = 0} f ((drop-Counts p m lt v).1 e) v;
  extends = Frame-Extends f;
}
  where
    f : Frame 0 m (decrement_pending_count (set_state p cancelled m))
    f =
        unfold decrement_pending_count set_state in
        record {
          same_ready = refl;
          same_delayed = refl;
          same_allocated = refl;
          index_shrinks = inl refl;
          keeps = λ q. ground arith;
        }

clear_ready-Keeps :
    (es : List Entry) (m : Manager) (dropped : ℕ)
    → Made m es
    → IsValid m
    → Keeps m (clear_ready es (m, dropped)).0
unfolding clear_ready
clear_ready-Keeps [] m dropped h v = Keeps-refl v
clear_ready-Keeps (e ∷ es) m dropped h v =
    elim (transition_cases e.control queued_ready cancelled m) [
      | inl t ↦ rw (t, clear_ready) (clear_ready-Keeps es m dropped h.1 v)
      | inr (t, was) ↦
          let drop = drop_ready-Keeps e.control m h.0.0 v (is_state→eq queued_ready _ was) in
          let k = Keeps-trans drop (forget-Keeps e.id _ drop.valid) in
          rw (t, clear_ready)
            (Keeps-trans k
              (clear_ready-Keeps es _ (dropped + 1) (IsMade-later k.extends es h.1) k.valid))
    ]

clear_delayed-Keeps :
    (es : List Entry) (m : Manager) (dropped : ℕ)
    → Made m es
    → IsValid m
    → Keeps m (clear_delayed es (m, dropped)).0
unfolding clear_delayed
clear_delayed-Keeps [] m dropped h v = Keeps-refl v
clear_delayed-Keeps (e ∷ es) m dropped h v =
    elim (transition_cases e.control queued_delayed cancelled m) [
      | inl t ↦ rw (t, clear_delayed) (clear_delayed-Keeps es m dropped h.1 v)
      | inr (t, was) ↦
          let drop = drop_delayed-Keeps e.control m h.0.0 v (is_state→eq queued_delayed _ was) in
          let k = Keeps-trans drop (forget-Keeps e.id _ drop.valid) in
          rw (t, clear_delayed)
            (Keeps-trans k
              (clear_delayed-Keeps es _ (dropped + 1) (IsMade-later k.extends es h.1) k.valid))
    ]

pub clear_pending-Keeps : (m : Manager) → IsValid m → Keeps m (clear_pending m).0
unfolding clear_pending
clear_pending-Keeps m v =
    let q = m.ready in
    let rest = q.normal_queue ++ q.low_queue in
    let after = All-append_right _ q.high_queue rest v.ready_made in
    let k₁ =
      clear_ready-Keeps q.high_queue m 0 (All-append_left _ q.high_queue rest v.ready_made) v in
    let k₂ =
      clear_ready-Keeps q.normal_queue _ _
        (IsMade-later k₁.extends q.normal_queue
          (All-append_left _ q.normal_queue q.low_queue after))
        k₁.valid in
    let k₁₂ = Keeps-trans k₁ k₂ in
    let k₃ =
      clear_ready-Keeps q.low_queue _ _
        (IsMade-later k₁₂.extends q.low_queue (All-append_right _ q.normal_queue q.low_queue after))
        k₂.valid in
    let k₄ = ready-Keeps _ no_entries k₃.valid tt in
    let k₁₄ = Keeps-trans k₁₂ (Keeps-trans k₃ k₄) in
    let k₅ =
      clear_delayed-Keeps m.delayed_heap _ _
        (IsMade-later k₁₄.extends m.delayed_heap v.delayed_made) k₄.valid in
    Keeps-trans k₁₄ (Keeps-trans k₅ (heap-Keeps _ [] k₅.valid tt))

pub close-Keeps : (m : Manager) → IsValid m → Keeps m (close m)
unfolding close
close-Keeps m v = elim (Bool-cases m.closed) [
  | inl c ↦ simp c (Keeps-refl v)
  | inr c ↦ simp c (Keeps-trans shut (notify-Keeps _ shut.valid))
]
  where
    shut : Keeps m (record m { closed = true })
    shut = record {
      valid = record {
        ready_exact = v.ready_exact;
        pending_exact = v.pending_exact;
        index_made = v.index_made;
        ready_made = v.ready_made;
        delayed_made = v.delayed_made;
      };
      extends = Extends-same {a = m} refl refl (Extends-refl m);
    }
