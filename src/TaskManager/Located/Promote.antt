-- ===== src/TaskManager/Located/Promote.antt =====
-- Pruning and promotion keep every task in its place.
use event_hub_cpp.Prelude.{
  ℕ, zero, suc, ◌≡◌, refl, subst, inl, inr, List, [], ◌∷◌, if_ind, ℤ, leb_ℤ,
}
use event_hub_cpp.TaskManager.Types.{
  queued_ready, queued_delayed, Entry, Manager, entries, set_state, push_back,
  increment_ready_count,
}
use event_hub_cpp.TaskManager.Delayed.{
  prune_heap, prune_delayed_top, promote_entry, promote_front, promote_loop, promote_due,
}
use event_hub_cpp.TaskManager.Invariant.Delayed.{transition_cases}
use event_hub_cpp.TaskManager.Located.Defs.{LocatedIn, Located, move, pop_delayed, Placed-mono}
use event_hub_cpp.TaskManager.Located.Holding.{push_back-Holds, push_back_self, prune_heap-Holds}
use event_hub_cpp.TaskManager.Located.Clear.{transition_refused}
use event_hub_cpp.TaskManager.Located.Take.{swap_delayed}

module _ (b x : List Entry) where
  pub prune-Located : (m : Manager) → Located b x m → Located b x (prune_delayed_top m)
  unfolding prune_delayed_top
  prune-Located m loc q lt =
      swap_delayed (entries m.ready) m.delayed_heap (prune_heap m.controls m.delayed_heap) b x q
        (m.controls q).state (λ same. prune_heap-Holds m.controls m.delayed_heap q (rw same refl))
        (loc q lt)

  promote_entry-Located :
      (e : Entry) (m : Manager)
      → LocatedIn
          (record { ready = entries m.ready; delayed = e ∷ m.delayed_heap; batch = b; running = x })
          m
      → Located b x (promote_entry e m)
  unfolding promote_entry set_state increment_ready_count
  promote_entry-Located e m loc = elim (transition_cases e.control queued_delayed queued_ready m) [
    | inl t ↦
        rw (t, promote_entry)
          (λ q lt.
            pop_delayed e (entries m.ready) m.delayed_heap b x q (m.controls q).state
              (λ s same. transition_refused e.control queued_delayed queued_ready m t (rw same s))
              (loc q lt))
    | inr (t, was) ↦
        rw (t, promote_entry)
          (move
            (record {
              ready = entries m.ready;
              delayed = e ∷ m.delayed_heap;
              batch = b;
              running = x;
            })
            (record {
              ready = entries (push_back e.priority e m.ready);
              delayed = m.delayed_heap;
              batch = b;
              running = x;
            })
            e.control (record (m.controls e.control) { state = queued_ready }) m
            (λ q s ne h.
              Placed-mono
                (record {
                  ready = entries m.ready;
                  delayed = m.delayed_heap;
                  batch = b;
                  running = x;
                })
                (record {
                  ready = entries (push_back e.priority e m.ready);
                  delayed = m.delayed_heap;
                  batch = b;
                  running = x;
                })
                q s (push_back-Holds e.priority e m.ready q) (λ k. k) (λ k. k) (λ k. k)
                (pop_delayed e (entries m.ready) m.delayed_heap b x q s (λ _. ne) h))
            (push_back_self e.priority e m.ready) loc)
  ]

  promote_front-Located :
      (continue : Manager → Manager)
      → ((m : Manager) → Located b x m → Located b x (continue m))
      → (now : ℤ) (heap : List Entry) (m : Manager) → m.delayed_heap ≡ heap
      → Located b x m
      → Located b x (promote_front continue now heap m)
  unfolding promote_front
  promote_front-Located continue next now [] m same loc = loc
  promote_front-Located continue next now (e ∷ rest) m same loc =
      if_ind (λ (y : Manager). Located b x y) (leb_ℤ e.due now)
        (λ t. next _ (
          prune-Located _ (
            promote_entry-Located e (record m { delayed_heap = rest })
              (subst
                (λ (d : List Entry).
                  LocatedIn
                    (record { ready = entries m.ready; delayed = d; batch = b; running = x }) m)
                same loc))))
        (λ t. loc)

  promote_loop-Located :
      (fuel : ℕ) (now : ℤ) (m : Manager) → Located b x m → Located b x (promote_loop fuel now m)
  unfolding promote_loop
  promote_loop-Located zero now m loc = loc
  promote_loop-Located (suc fuel) now m loc =
      promote_front-Located (promote_loop fuel now) (promote_loop-Located fuel now) now
        m.delayed_heap m refl loc

  pub promote_due-Located :
      (now : ℤ) (m : Manager) → Located b x m → Located b x (promote_due now m)
  unfolding promote_due
  promote_due-Located now m loc = promote_loop-Located _ now _ (prune-Located m loc)
