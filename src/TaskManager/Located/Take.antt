-- ===== src/TaskManager/Located/Take.antt =====
-- Taking a batch out of the ready queues keeps every task in its place.
use event_hub_cpp.Prelude.{
  ℕ, ◌≡◌, refl, inl, inr, List, [], ◌∷◌, ◌++◌, Any-append, Any-append_left, Any-append_right, ◌==◌,
  if_ind, length,
}
use event_hub_cpp.TaskManager.Types.{
  State, queued_ready, queued_delayed, ready_snapshot, executing, cancelled, completed, Entry,
  Manager, set_state, decrement_ready_count,
}
use event_hub_cpp.TaskManager.Process.{Taking, take_entry, take_queue, take_ready_batch}
use event_hub_cpp.TaskManager.Invariant.Delayed.{transition_cases}
use event_hub_cpp.TaskManager.Located.Defs.{
  Holds, Placed, LocatedIn, Located, move, pop_ready, Placed-mono,
}
use event_hub_cpp.TaskManager.Located.Clear.{transition_refused}

pub swap_delayed :
    (r d d' b x : List Entry) (q : ℕ) (s : State)
    → (s ≡ queued_delayed → Holds q d → Holds q d')
    → Placed (record { ready = r; delayed = d; batch = b; running = x }) q s
    → Placed (record { ready = r; delayed = d'; batch = b; running = x }) q s
swap_delayed r d d' b x q queued_ready f h = h
swap_delayed r d d' b x q queued_delayed f h = f refl h
swap_delayed r d d' b x q ready_snapshot f h = h
swap_delayed r d d' b x q executing f h = h
swap_delayed r d d' b x q cancelled f h = h
swap_delayed r d d' b x q completed f h = h

-- The ready lists one after another, turned by one place.
rotate : (q : ℕ) (xs ys zs : List Entry) → Holds q (xs ++ (ys ++ zs)) → Holds q (ys ++ (zs ++ xs))
rotate q xs ys zs h = elim (Any-append P xs (ys ++ zs) h) [
  | inl a ↦ Any-append_right P ys (zs ++ xs) (Any-append_right P zs xs a)
  | inr rest ↦ elim (Any-append P ys zs rest) [
    | inl b ↦ Any-append_left P ys (zs ++ xs) b
    | inr c ↦ Any-append_right P ys (zs ++ xs) (Any-append_left P zs xs c)
  ]
]
  where
    P : Entry → Type 0
    P e = e.control ≡ q

module _ (x : List Entry) where
  -- The ready list that is left and the batch so far.
  abbrev During : List Entry → Taking → Type 0
  During ready t =
      LocatedIn
        (record { ready = ready; delayed = t.manager.delayed_heap; batch = t.batch; running = x })
        t.manager

  take_entry-Located :
      (e : Entry) (rest : List Entry) (t : Taking)
      → During (e ∷ rest) t
      → During rest (take_entry e t)
  unfolding take_entry decrement_ready_count set_state
  take_entry-Located e rest t loc =
      elim (transition_cases e.control queued_ready ready_snapshot t.manager) [
        | inl s ↦
            rw (s, take_entry)
              (λ q lt.
                pop_ready e rest t.manager.delayed_heap t.batch x q (t.manager.controls q).state
                  (λ k same.
                    transition_refused e.control queued_ready ready_snapshot t.manager s
                      (rw same k))
                  (loc q lt))
        | inr (s, was) ↦
            rw (s, take_entry)
              (move
                (record {
                  ready = e ∷ rest;
                  delayed = t.manager.delayed_heap;
                  batch = t.batch;
                  running = x;
                })
                (record {
                  ready = rest;
                  delayed = t.manager.delayed_heap;
                  batch = t.batch ++ (e ∷ []);
                  running = x;
                })
                e.control (record (t.manager.controls e.control) { state = ready_snapshot })
                t.manager
                (λ q k ne h.
                  Placed-mono
                    (record {
                      ready = rest;
                      delayed = t.manager.delayed_heap;
                      batch = t.batch;
                      running = x;
                    })
                    (record {
                      ready = rest;
                      delayed = t.manager.delayed_heap;
                      batch = t.batch ++ (e ∷ []);
                      running = x;
                    })
                    q k (λ y. y) (λ y. y)
                    (Any-append_left (λ (a : Entry). a.control ≡ q) t.batch (e ∷ [])) (λ y. y)
                    (pop_ready e rest t.manager.delayed_heap t.batch x q k (λ _. ne) h))
                (Any-append_right (λ (a : Entry). a.control ≡ e.control) t.batch (e ∷ [])
                  (inl refl))
                loc)
      ]

  take_queue-Located :
      (max : ℕ) (es after : List Entry) (t : Taking)
      → During (es ++ after) t
      → During ((take_queue max es t).0 ++ after) (take_queue max es t).1
  unfolding take_queue
  take_queue-Located max [] after t loc = loc
  take_queue-Located max (e ∷ es) after t loc =
      if_ind (λ (r : List Entry × Taking). During (r.0 ++ after) r.1) (length t.batch == max)
        (λ full. loc)
        (λ room.
          take_queue-Located max es after (take_entry e t)
            (take_entry-Located e (es ++ after) t loc))

  turn_round :
      (xs ys zs : List Entry) (t : Taking)
      → During (xs ++ (ys ++ zs)) t
      → During (ys ++ (zs ++ xs)) t
  turn_round xs ys zs t loc q lt =
      Placed-mono
        (record {
          ready = xs ++ (ys ++ zs);
          delayed = t.manager.delayed_heap;
          batch = t.batch;
          running = x;
        })
        (record {
          ready = ys ++ (zs ++ xs);
          delayed = t.manager.delayed_heap;
          batch = t.batch;
          running = x;
        })
        q (t.manager.controls q).state (rotate q xs ys zs) (λ h. h) (λ h. h) (λ h. h) (loc q lt)

  pub take_ready_batch-Located :
      (max : ℕ) (m : Manager)
      → Located [] x m
      → Located (take_ready_batch max m).batch x (take_ready_batch max m).manager
  unfolding take_ready_batch
  take_ready_batch-Located max m loc =
      let q = m.ready in
      let start : Taking = record { manager = m; batch = [] } in
      let high = take_queue max q.high_queue start in
      let normal = take_queue max q.normal_queue high.1 in
      let low = take_queue max q.low_queue normal.1 in
      let first = take_queue-Located max q.high_queue (q.normal_queue ++ q.low_queue) start loc in
      let turned = turn_round high.0 q.normal_queue q.low_queue high.1 first in
      let second = take_queue-Located max q.normal_queue (q.low_queue ++ high.0) high.1 turned in
      let again = turn_round normal.0 q.low_queue high.0 normal.1 second in
      let third = take_queue-Located max q.low_queue (high.0 ++ normal.0) normal.1 again in
      turn_round low.0 high.0 normal.0 low.1 third
