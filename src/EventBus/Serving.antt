-- ===== src/EventBus/Serving.antt =====
-- What a call of process() does with the queue, when it returns and when an exception ends it.
use event_hub_cpp.Prelude.{
  ℕ, ◌+◌, ◌≡◌, refl, sym, ap, List, [], ◌∷◌, ◌++◌, append-nil, append_assoc, ◌∙◌, length,
  Bool-cases, inl, inr, arith, true, false,
}
use event_hub_cpp.EventBus.Types.{QueuedEvent, Bus}
use event_hub_cpp.EventBus.Dispatch.{
  move_events, restore_unprocessed_events, Behaviour, dispatch, poll_awaiters, returned, failed,
  process_queue, process,
}

-- The loop appends the events of the source to the target.
move_events_lem : (source target : List QueuedEvent) → move_events source target ≡ target ++ source
unfolding move_events
move_events_lem [] target = sym (append-nil target)
move_events_lem (e ∷ rest) target =
    move_events_lem rest (target ++ (e ∷ [])) ∙ append_assoc target (e ∷ []) rest

restore_to :
    (remaining newer : List QueuedEvent) (bus : Bus)
    → bus.event_queue ≡ newer
    → restore_unprocessed_events remaining bus ≡ record bus { event_queue = remaining ++ newer }
unfolding restore_unprocessed_events
restore_to [] newer bus same = rw (sym same) refl
restore_to (e ∷ rest) [] bus same = rw (same, append-nil) refl
restore_to (e ∷ rest) (n ∷ newer) bus same =
    rw (same, move_events_lem (e ∷ rest) [], move_events_lem (n ∷ newer) (e ∷ rest)) refl

-- restore_unprocessed_events() puts the remaining events, in their order, before those that were
-- queued meanwhile, and changes nothing else.
pub restore_unprocessed_events_lem :
    (remaining : List QueuedEvent) (bus : Bus)
    → restore_unprocessed_events remaining bus
      ≡ record bus { event_queue = remaining ++ bus.event_queue }
restore_unprocessed_events_lem remaining bus = restore_to remaining bus.event_queue bus refl

-- Dispatching events one after another, whatever their exceptions.
unfoldable pub serve : Behaviour → List QueuedEvent → Bus → Bus
serve behaviour [] bus = bus
serve behaviour (e ∷ es) bus = serve behaviour es (dispatch behaviour e.event_type e.payload bus).0

-- No dispatch of these events, one after another, lets an exception out.
unfoldable pub AllReturn : Behaviour → List QueuedEvent → Bus → Type 0
AllReturn behaviour [] bus = Unit
AllReturn behaviour (e ∷ es) bus =
    let ran = dispatch behaviour e.event_type e.payload bus in
    (ran.1 ≡ false) × AllReturn behaviour es ran.0

-- The events that were dispatched without an exception, the one whose dispatch threw, and those
-- that go back.
pub record Stopped (behaviour : Behaviour) (snapshot : List QueuedEvent) (bus after : Bus)
    : Type 0 where
  pub dispatched : List QueuedEvent
  pub thrown : QueuedEvent
  pub rest : List QueuedEvent
  pub is_split : snapshot ≡ dispatched ++ (thrown ∷ rest)
  pub all_return : AllReturn behaviour dispatched bus
  pub is_thrown :
      (dispatch behaviour thrown.event_type thrown.payload (serve behaviour dispatched bus)).1
      ≡ true
  pub is_restored :
      let left = serve behaviour (dispatched ++ (thrown ∷ [])) bus in
      after ≡ record left { event_queue = rest ++ left.event_queue }

process_queue-Stopped :
    (behaviour : Behaviour) (es : List QueuedEvent) (processed : ℕ) (bus : Bus)
    → (process_queue behaviour es processed bus).1 ≡ failed
    → Stopped behaviour es bus (process_queue behaviour es processed bus).0
unfolding process_queue serve AllReturn
process_queue-Stopped behaviour [] processed bus h = absurd (ground (arith, h))
process_queue-Stopped behaviour (e ∷ es) processed bus h =
    let ran = dispatch behaviour e.event_type e.payload bus in
    elim (Bool-cases ran.1) [
      | inl t ↦ rw t (record {
        dispatched = [];
        thrown = e;
        rest = es;
        is_split = refl;
        all_return = tt;
        is_thrown = t;
        is_restored = restore_unprocessed_events_lem es ran.0;
      })
      | inr t ↦
          let later = process_queue-Stopped behaviour es (processed + 1) ran.0 (rw t at h) in
          rw t (record {
            dispatched = e ∷ later.dispatched;
            thrown = later.thrown;
            rest = later.rest;
            is_split = ap (λ xs. e ∷ xs) later.is_split;
            all_return = (t, later.all_return);
            is_thrown = later.is_thrown;
            is_restored = later.is_restored;
          })
    ]

-- When process() ends by an exception, the snapshot of the queue splits into the events dispatched
-- before, each without an exception, the event whose dispatch threw, and the rest. The bus is left
-- as the dispatch of the events up to the thrown one leaves it, in order, with the rest back in
-- front of the queue, in its order, before what the callbacks left queued.
pub process-Stopped :
    (behaviour : Behaviour) (bus : Bus)
    → (process behaviour bus).1 ≡ failed
    → Stopped behaviour bus.event_queue (record bus { event_queue = [] }) (process behaviour bus).0
unfolding process
process-Stopped behaviour bus h =
    process_queue-Stopped behaviour bus.event_queue 0 (record bus { event_queue = [] }) h

process_queue_returned :
    (behaviour : Behaviour) (es : List QueuedEvent) (processed n : ℕ) (bus : Bus)
    → (process_queue behaviour es processed bus).1 ≡ returned n
    → (n ≡ processed + length es)
      × ((process_queue behaviour es processed bus).0
          ≡ poll_awaiters behaviour (serve behaviour es bus))
unfolding process_queue serve
process_queue_returned behaviour [] processed n bus h = (ground (arith, h), refl)
process_queue_returned behaviour (e ∷ es) processed n bus h =
    let ran = dispatch behaviour e.event_type e.payload bus in
    elim (Bool-cases ran.1) [
      | inl t ↦ absurd (ground (arith, t, h))
      | inr t ↦
          let (count, same) =
            process_queue_returned behaviour es (processed + 1) n ran.0 (rw t at h) in
          rw t (omega (arith, count), same)
    ]

-- When process() returns, it returns the number of events that were queued at the start, and its
-- effect is to dispatch these in their order and then to poll the awaiters; events queued meanwhile
-- are left to a later call.
pub process_returned :
    (behaviour : Behaviour) (bus : Bus) (n : ℕ)
    → (process behaviour bus).1 ≡ returned n
    → (n ≡ length bus.event_queue)
      × ((process behaviour bus).0
          ≡ poll_awaiters behaviour
              (serve behaviour bus.event_queue (record bus { event_queue = [] })))
unfolding process
process_returned behaviour bus n h =
    let (count, same) =
      process_queue_returned behaviour bus.event_queue 0 n (record bus { event_queue = [] }) h in
    (omega (arith, count), same)
