-- ===== src/TaskManager/Invariant/Delayed.antt =====
-- Promotion of delayed entries keeps the invariant.
use event_hub_cpp.Prelude.{
  ℕ, zero, suc, ◌≡◌, refl, ◌⊎◌, ◌∙◌, ℤ, leb_ℤ, true, none, some, List, [], ◌∷◌, All, total-write,
  Bool-cases, inl, inr, arith,
}
use event_hub_cpp.TaskManager.Types.{
  State, queued_ready, queued_delayed, is_state, Control, entries, Entry, Manager, Queues,
  transition, set_state, forget, increment_ready_count,
}
use event_hub_cpp.TaskManager.Delayed.{
  prune_delayed_top, promote_entry, promote_front, promote_loop, promote_due,
}
use event_hub_cpp.TaskManager.Invariant.Defs.{
  IsValid, IsMade, Extends, Extends-refl, ready_weight, pending_weight, erase_index-All,
  IsMade-later, push_back-All, prune_heap-All,
}
use event_hub_cpp.TaskManager.Invariant.Cancel.{Keeps, Keeps-refl}
use event_hub_cpp.TaskManager.Invariant.Submit.{Extends-same, Keeps-trans}

abbrev pub Made : Manager → List Entry → Type 0
Made m es = All (IsMade m.allocated m.controls) es

-- The two outcomes of a compare-and-exchange.
pub transition_cases :
    (p : ℕ) (expected desired : State) (m : Manager)
    → (transition p expected desired m ≡ none)
      ⊎ ((transition p expected desired m ≡ some (set_state p desired m))
          × (is_state expected (m.controls p).state ≡ true))
unfolding transition
transition_cases p expected desired m = elim (Bool-cases (is_state expected (m.controls p).state)) [
  | inl t ↦ inr (rw t, t)
  | inr t ↦ inl (rw t)
]

pub set_state-Extends : (p : ℕ) (desired : State) (m : Manager) → Extends m (set_state p desired m)
unfolding set_state
set_state-Extends p desired m = record { grows = omega arith; keeps = λ q h. ground arith }

unfoldable pub moved : (p : ℕ) (desired : State) (m : Manager) → Control
moved p desired m = record (m.controls p) { state = desired }

pub heap-Keeps :
    (m : Manager) (heap : List Entry)
    → IsValid m
    → Made m heap
    → Keeps m (record m { delayed_heap = heap })
heap-Keeps m heap v h = record {
  valid = record {
    ready_exact = v.ready_exact;
    pending_exact = v.pending_exact;
    index_made = v.index_made;
    ready_made = v.ready_made;
    delayed_made = h;
  };
  extends = Extends-same {a = m} refl refl (Extends-refl m);
}

pub ready-Keeps :
    (m : Manager) (q : Queues) → IsValid m → Made m (entries q) → Keeps m (record m { ready = q })
ready-Keeps m q v h = record {
  valid = record {
    ready_exact = v.ready_exact;
    pending_exact = v.pending_exact;
    index_made = v.index_made;
    ready_made = h;
    delayed_made = v.delayed_made;
  };
  extends = Extends-same {a = m} refl refl (Extends-refl m);
}

pub forget-Keeps : (id : ℕ) (m : Manager) → IsValid m → Keeps m (forget id m)
unfolding forget
forget-Keeps id m v = record {
  valid = record {
    ready_exact = v.ready_exact;
    pending_exact = v.pending_exact;
    index_made = erase_index-All m.allocated id m.index v.index_made;
    ready_made = v.ready_made;
    delayed_made = v.delayed_made;
  };
  extends = Extends-same {a = m} refl refl (Extends-refl m);
}

pub prune-Keeps : (m : Manager) → IsValid m → Keeps m (prune_delayed_top m)
unfolding prune_delayed_top
prune-Keeps m v =
    heap-Keeps m _ v
      (prune_heap-All (IsMade m.allocated m.controls) m.controls m.delayed_heap v.delayed_made)

promote_entry-Keeps :
    (e : Entry) (m : Manager)
    → IsMade m.allocated m.controls e
    → IsValid m
    → Keeps m (promote_entry e m)
unfolding promote_entry
promote_entry-Keeps e m h v = elim (transition_cases e.control queued_delayed queued_ready m) [
  | inl t ↦ rw (t, promote_entry) (Keeps-refl v)
  | inr (t, was) ↦
      rw (t, promote_entry)
        (unfold set_state increment_ready_count moved in
          record {
            valid = record {
              ready_exact = ground (
                arith,
                was,
                v.ready_exact,
                total-write ready_weight m.allocated m.controls e.control
                    (moved e.control queued_ready m) h.0,
              );
              pending_exact = ground (
                arith,
                was,
                v.pending_exact,
                total-write pending_weight m.allocated m.controls e.control
                    (moved e.control queued_ready m) h.0,
              );
              index_made = v.index_made;
              ready_made =
                  push_back-All (IsMade m.allocated (set_state e.control queued_ready m).controls) e
                    e.priority m.ready (h.0, x.keeps e.control h.0 ∙ h.1)
                    (IsMade-later x (entries m.ready) v.ready_made);
              delayed_made = IsMade-later x m.delayed_heap v.delayed_made;
            };
            extends = Extends-same refl refl x;
          })
]
  where
    x : Extends m (set_state e.control queued_ready m)
    x = set_state-Extends e.control queued_ready m

promote_front-Keeps :
    (continue : Manager → Manager)
    → ((m : Manager) → IsValid m → Keeps m (continue m))
    → (now : ℤ) (heap : List Entry) (m : Manager) → Made m heap
    → IsValid m
    → Keeps m (promote_front continue now heap m)
unfolding promote_front
promote_front-Keeps continue next now [] m h v = Keeps-refl v
promote_front-Keeps continue next now (e ∷ rest) m h v = elim (Bool-cases (leb_ℤ e.due now)) [
  | inl t ↦
      let popped = heap-Keeps m rest v h.1 in
      let promoted = promote_entry-Keeps e (record m { delayed_heap = rest }) h.0 popped.valid in
      let pruned = prune-Keeps _ promoted.valid in
      simp t (Keeps-trans popped (Keeps-trans promoted (Keeps-trans pruned (next _ pruned.valid))))
  | inr t ↦ simp t (Keeps-refl v)
]

promote_loop-Keeps :
    (fuel : ℕ) (now : ℤ) (m : Manager) → IsValid m → Keeps m (promote_loop fuel now m)
unfolding promote_loop
promote_loop-Keeps zero now m v = Keeps-refl v
promote_loop-Keeps (suc fuel) now m v =
    promote_front-Keeps (promote_loop fuel now) (promote_loop-Keeps fuel now) now m.delayed_heap m
      v.delayed_made v

pub promote_due-Keeps : (now : ℤ) (m : Manager) → IsValid m → Keeps m (promote_due now m)
unfolding promote_due
promote_due-Keeps now m v =
    let pruned = prune-Keeps m v in Keeps-trans pruned (promote_loop-Keeps _ now _ pruned.valid)
