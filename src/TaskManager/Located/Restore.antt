-- ===== src/TaskManager/Located/Restore.antt =====
-- The rest of a batch goes back into its place.
use event_hub_cpp.Prelude.{ℕ, subst, inl, inr, List, [], ◌∷◌, ◌++◌}
use event_hub_cpp.TaskManager.Types.{
  queued_ready, ready_snapshot, Entry, Manager, entries, set_state, push_front,
  increment_ready_count,
}
use event_hub_cpp.TaskManager.Process.{restore_entry, restore_unrun}
use event_hub_cpp.TaskManager.Invariant.Delayed.{transition_cases}
use event_hub_cpp.TaskManager.Located.Defs.{
  Holds, Places, places, Located, move, pop_batch, Placed-mono,
}
use event_hub_cpp.TaskManager.Located.Holding.{
  push_front-Holds, push_front_self, insert_right, inserted_right,
}
use event_hub_cpp.TaskManager.Located.Clear.{transition_refused}
use event_hub_cpp.TaskManager.Located.Finish.{skip-Located}

-- The rest of the batch goes back into the ready queues.
restore_entry-Located :
    (e : Entry) (b x : List Entry) (m : Manager)
    → Located (e ∷ b) x m
    → Located b x (restore_entry e m)
unfolding restore_entry increment_ready_count set_state
restore_entry-Located e b x m loc =
    elim (transition_cases e.control ready_snapshot queued_ready m) [
      | inl t ↦
          rw (t, restore_entry)
            (skip-Located e b x m (transition_refused e.control ready_snapshot queued_ready m t)
              loc)
      | inr (t, was) ↦
          let after : Places = record {
            ready = entries (push_front e.priority e m.ready);
            delayed = m.delayed_heap;
            batch = b;
            running = x;
          } in
          rw (t, restore_entry)
            (move (places m (e ∷ b) x) after e.control
              (record (m.controls e.control) { state = queued_ready }) m
              (λ q s ne h.
                Placed-mono (places m b x) after q s (push_front-Holds e.priority e m.ready q)
                  (λ y. y) (λ y. y) (λ y. y)
                  (pop_batch e (entries m.ready) m.delayed_heap b x q s (λ _. ne) h))
              (push_front_self e.priority e m.ready) loc)
    ]

pub restore_unrun-Located :
    (es b x : List Entry) (m : Manager) → Located (es ++ b) x m → Located b x (restore_unrun es m)
unfolding restore_unrun
restore_unrun-Located [] b x m loc = loc
restore_unrun-Located (e ∷ es) b x m loc = restore_entry-Located e b x (restore_unrun es m) (
    restore_unrun-Located es (e ∷ b) x m (λ q lt.
      Placed-mono (places m (e ∷ (es ++ b)) x) (places m (es ++ (e ∷ b)) x) q (m.controls q).state
        (λ y. y) (λ y. y) (later q) (λ y. y) (loc q lt)))
  where
    later : (q : ℕ) → Holds q (e ∷ (es ++ b)) → Holds q (es ++ (e ∷ b))
    later q (inl same) = subst (λ r. Holds r (es ++ (e ∷ b))) same (inserted_right es b e)
    later q (inr h) = insert_right q es b e h
