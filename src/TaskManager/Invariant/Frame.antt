-- ===== src/TaskManager/Invariant/Frame.antt =====
-- Operations that leave the queues alone and change the state of one control.
use event_hub_cpp.Prelude.{ℕ, ◌%◌, ◌≡◌, sym, ◌⊎◌, subst, List, All, u64_mod, inl, inr, arith}
use event_hub_cpp.TaskManager.Types.{Manager, entries, erase_index}
use event_hub_cpp.TaskManager.Invariant.Defs.{
  IsValid, Extends, ready_total, pending_total, IsMade, IsIndexed, IsMade-later, erase_index-All,
}

pub record Counts (m : Manager) : Type 0 where
  pub ready_exact : m.ready_count ≡ ready_total m % u64_mod
  pub pending_exact : m.pending_count ≡ pending_total m % u64_mod

-- The queues are left alone, and the index loses the item of `id` at most.
pub record Frame (id : ℕ) (m m' : Manager) : Type 0 where
  pub same_ready : m'.ready ≡ m.ready
  pub same_delayed : m'.delayed_heap ≡ m.delayed_heap
  pub same_allocated : m'.allocated ≡ m.allocated
  pub index_shrinks : (m'.index ≡ m.index) ⊎ (m'.index ≡ erase_index id m.index)
  pub keeps : (p : ℕ) → (m'.controls p).periodic ≡ (m.controls p).periodic

pub Frame-Extends : {id : ℕ} {m m' : Manager} → Frame id m m' → Extends m m'
Frame-Extends f = record { grows = omega (arith, f.same_allocated); keeps = λ p h. f.keeps p }

shrunk :
    (n id : ℕ) (items items' : List (ℕ × ℕ))
    → (items' ≡ items) ⊎ (items' ≡ erase_index id items)
    → All (IsIndexed n) items
    → All (IsIndexed n) items'
shrunk n id items items' (inl e) h = subst (All (IsIndexed n)) (sym e) h
shrunk n id items items' (inr e) h =
    subst (All (IsIndexed n)) (sym e) (erase_index-All n id items h)

pub Frame-IsValid : {id : ℕ} {m m' : Manager} → Frame id m m' → Counts m' → IsValid m → IsValid m'
Frame-IsValid {id} {m} {m'} f c v = record {
  ready_exact = c.ready_exact;
  pending_exact = c.pending_exact;
  index_made =
      shrunk m'.allocated id m.index m'.index f.index_shrinks
        (subst (λ n. All (IsIndexed n) m.index) (sym f.same_allocated) v.index_made);
  ready_made =
      subst (λ q. All (IsMade m'.allocated m'.controls) (entries q)) (sym f.same_ready)
        (IsMade-later x (entries m.ready) v.ready_made);
  delayed_made =
      subst (All (IsMade m'.allocated m'.controls)) (sym f.same_delayed)
        (IsMade-later x m.delayed_heap v.delayed_made);
}
  where
    x : Extends m m'
    x = Frame-Extends f
