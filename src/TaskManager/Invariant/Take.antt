-- ===== src/TaskManager/Invariant/Take.antt =====
-- Taking a batch out of the ready queues keeps the invariant.
use event_hub_cpp.Prelude.{
  ℕ, ◌≡◌, refl, ◌∙◌, true, List, [], ◌∷◌, ◌++◌, All-append, All-append_left, All-append_right,
  total-write, Bool-cases, inl, inr, arith, ◌==◌, length,
}
use event_hub_cpp.TaskManager.Types.{
  queued_ready, ready_snapshot, is_state, entries, Entry, Manager, set_state, decrement_ready_count,
}
use event_hub_cpp.TaskManager.Process.{Taking, take_entry, take_queue, take_ready_batch}
use event_hub_cpp.TaskManager.Invariant.Defs.{
  IsValid, IsMade, Extends, IsMade-later, ready_weight, pending_weight,
}
use event_hub_cpp.TaskManager.Invariant.Cancel.{Keeps, Keeps-refl}
use event_hub_cpp.TaskManager.Invariant.Submit.{Extends-same, Keeps-trans}
use event_hub_cpp.TaskManager.Invariant.Delayed.{
  Made, transition_cases, set_state-Extends, moved, ready-Keeps,
}

-- A queue that is emptied into the batch: what is left and what is taken.
record Taken (m : Manager) (left : List Entry) (t : Taking) : Type 0 where
  keeps : Keeps m t.manager
  left_made : Made t.manager left
  batch_made : Made t.manager t.batch

take_entry-Taken :
    (e : Entry) (rest : List Entry) (t : Taking)
    → IsValid t.manager
    → Made t.manager (e ∷ rest)
    → Made t.manager t.batch
    → Taken t.manager rest (take_entry e t)
unfolding take_entry decrement_ready_count
take_entry-Taken e rest t v h b =
    elim (transition_cases e.control queued_ready ready_snapshot t.manager) [
      | inl s ↦
          rw (s, take_entry) (record { keeps = Keeps-refl v; left_made = h.1; batch_made = b })
      | inr (s, was) ↦
          rw (s, take_entry)
            (unfold set_state moved in
              record {
                keeps = taken was;
                left_made = IsMade-later x rest h.1;
                batch_made =
                    All-append (IsMade m.allocated (set_state e.control ready_snapshot m).controls)
                      t.batch (e ∷ []) (IsMade-later x t.batch b)
                      ((h.0.0, x.keeps e.control h.0.0 ∙ h.0.1), tt);
              })
    ]
  where
    m : Manager
    m = t.manager

    x : Extends m (set_state e.control ready_snapshot m)
    x = set_state-Extends e.control ready_snapshot m

    taken :
        is_state queued_ready (m.controls e.control).state ≡ true
        → Keeps m (decrement_ready_count (set_state e.control ready_snapshot m))
    taken was =
        unfold set_state moved in
        record {
          valid = record {
            ready_exact = ground (
              arith,
              was,
              v.ready_exact,
              total-write ready_weight m.allocated m.controls e.control
                  (moved e.control ready_snapshot m) h.0.0,
            );
            pending_exact = ground (
              arith,
              was,
              v.pending_exact,
              total-write pending_weight m.allocated m.controls e.control
                  (moved e.control ready_snapshot m) h.0.0,
            );
            index_made = v.index_made;
            ready_made = IsMade-later x (entries m.ready) v.ready_made;
            delayed_made = IsMade-later x m.delayed_heap v.delayed_made;
          };
          extends = Extends-same refl refl x;
        }

take_queue-Taken :
    (max : ℕ) (es : List Entry) (t : Taking)
    → IsValid t.manager
    → Made t.manager es
    → Made t.manager t.batch
    → Taken t.manager (take_queue max es t).0 (take_queue max es t).1
unfolding take_queue
take_queue-Taken max [] t v h b = record { keeps = Keeps-refl v; left_made = tt; batch_made = b }
take_queue-Taken max (e ∷ es) t v h b = elim (Bool-cases (length t.batch == max)) [
  | inl full ↦ rw full (record { keeps = Keeps-refl v; left_made = h; batch_made = b })
  | inr room ↦
      let one = take_entry-Taken e es t v h b in
      let more =
        take_queue-Taken max es (take_entry e t) one.keeps.valid one.left_made one.batch_made in
      rw room (record {
        keeps = Keeps-trans one.keeps more.keeps;
        left_made = more.left_made;
        batch_made = more.batch_made;
      })
]

pub take_ready_batch-Keeps :
    (max : ℕ) (m : Manager)
    → IsValid m
    → Keeps m (take_ready_batch max m).manager
      × Made (take_ready_batch max m).manager (take_ready_batch max m).batch
unfolding take_ready_batch
take_ready_batch-Keeps max m v =
    let q = m.ready in
    let rest = q.normal_queue ++ q.low_queue in
    let after = All-append_right _ q.high_queue rest v.ready_made in
    let start : Taking = record { manager = m; batch = [] } in
    let high =
      take_queue-Taken max q.high_queue start v (All-append_left _ q.high_queue rest v.ready_made)
        tt in
    let t₁ = (take_queue max q.high_queue start).1 in
    let normal =
      take_queue-Taken max q.normal_queue t₁ high.keeps.valid
        (IsMade-later high.keeps.extends q.normal_queue
          (All-append_left _ q.normal_queue q.low_queue after))
        high.batch_made in
    let t₂ = (take_queue max q.normal_queue t₁).1 in
    let k = Keeps-trans high.keeps normal.keeps in
    let low =
      take_queue-Taken max q.low_queue t₂ normal.keeps.valid
        (IsMade-later k.extends q.low_queue (All-append_right _ q.normal_queue q.low_queue after))
        normal.batch_made in
    let ahead = IsMade-later low.keeps.extends _ normal.left_made in
    let first = IsMade-later (Keeps-trans normal.keeps low.keeps).extends _ high.left_made in
    let left = All-append _ _ _ first (All-append _ _ _ ahead low.left_made) in
    let put = ready-Keeps _ _ low.keeps.valid left in
    (Keeps-trans k (Keeps-trans low.keeps put), low.batch_made)
