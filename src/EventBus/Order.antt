-- ===== src/EventBus/Order.antt =====
-- The order in which events reach their callbacks, for callbacks that call nothing and throw nothing.
use event_hub_cpp.Prelude.{
  ℕ, ◌+◌, ◌≡◌, ◌∙◌, refl, ap, if◌then◌else◌, Bool, false, ◌&&◌, Option, none, some, List, [], ◌∷◌,
  length, Bool-cases, inl, inr, arith, subst,
}
use event_hub_cpp.EventBus.Types.{CallbackRecord, QueuedEvent, Bus}
use event_hub_cpp.EventBus.Dispatch.{
  apply_all, Turn, Behaviour, run_turn, call_record, call_records, records_of, dispatch,
  poll_awaiters, returned, process_queue, process,
}

-- A turn without effects, and behaviours whose turns have none.
abbrev pub IsQuietTurn : Turn → Type 0
IsQuietTurn turn = (turn.commands ≡ []) × (turn.throws ≡ false)

pub record IsQuiet (behaviour : Behaviour) : Type 0 where
  pub calls_quiet :
      (callback payload : ℕ) (bus : Bus) → IsQuietTurn (behaviour.calls callback payload bus)
  pub polls_quiet : (awaiter : ℕ) (bus : Bus) → behaviour.polls awaiter bus ≡ []

-- The callbacks of the records whose guard, if they have one, is alive, in their order.
unfoldable pub live_callbacks : (ℕ → Bool) → List CallbackRecord → List ℕ
live_callbacks expired [] = []
live_callbacks expired (r ∷ rest) =
    let others = live_callbacks expired rest in
    if r.has_guard && expired r.guard
    then others
    else elim r.callback [ none ↦ others | some callback ↦ callback ∷ others ]

-- The record of started callbacks, the latest first.
unfoldable pub log_calls : (payload : ℕ) → List ℕ → List (ℕ × ℕ) → List (ℕ × ℕ)
log_calls payload [] log = log
log_calls payload (c ∷ rest) log = log_calls payload rest ((c, payload) ∷ log)

unfoldable pub log_events :
    (ℕ → Option (List CallbackRecord)) → (ℕ → Bool) → List QueuedEvent → List (ℕ × ℕ) → List (ℕ × ℕ)
unfolding log_calls live_callbacks
log_events callbacks expired [] log = log
log_events callbacks expired (e ∷ rest) log =
    log_events callbacks expired rest
      (log_calls e.payload (live_callbacks expired (records_of (callbacks e.event_type))) log)

module _ (behaviour : Behaviour) (quiet : IsQuiet behaviour) where
  run_turn_quiet : (turn : Turn) (bus : Bus) → IsQuietTurn turn → run_turn turn bus ≡ (bus, false)
  unfolding run_turn apply_all
  run_turn_quiet turn bus q = simp (q.0, q.1) refl

  call_callback_quiet :
      (r : CallbackRecord) (callback : Option ℕ) (rest : List CallbackRecord) (payload : ℕ)
      (bus : Bus)
      → r.callback ≡ callback
      → ((call_record behaviour r payload bus).1 ≡ false)
        × ((call_record behaviour r payload bus).0
            ≡ record bus { started = (call_record behaviour r payload bus).0.started })
        × (log_calls payload
              (live_callbacks bus.expired rest)
              (call_record behaviour r payload bus).0.started
            ≡ log_calls payload (live_callbacks bus.expired (r ∷ rest)) bus.started)
  unfolding call_record live_callbacks log_calls
  call_callback_quiet r none rest payload bus same =
      elim (Bool-cases (r.has_guard && bus.expired r.guard)) [
        | inl t ↦ rw t (refl, refl, refl)
        | inr t ↦ rw (t, same) (refl, refl, refl)
      ]
  call_callback_quiet r (some c) rest payload bus same =
      let begun = record bus { started = (c, payload) ∷ bus.started } in
      let still =
        run_turn_quiet (behaviour.calls c payload begun) begun
          (quiet.calls_quiet c payload begun) in
      elim (Bool-cases (r.has_guard && bus.expired r.guard)) [
        | inl t ↦ rw t (refl, refl, refl)
        | inr t ↦ rw (t, same, still) (refl, refl, refl)
      ]

  call_records_quiet :
      (rs : List CallbackRecord) (payload : ℕ) (bus : Bus)
      → call_records behaviour rs payload bus ≡ (
        record bus { started = log_calls payload (live_callbacks bus.expired rs) bus.started },
        false,
      )
  unfolding call_records live_callbacks log_calls
  call_records_quiet [] payload bus = refl
  call_records_quiet (r ∷ rs) payload bus =
      let one = call_callback_quiet r r.callback rs payload bus refl in
      let ran = call_record behaviour r payload bus in
      let later =
        subst
          (λ (b : Bus). call_records behaviour rs payload ran.0 ≡ (
            record b { started = log_calls payload (live_callbacks b.expired rs) ran.0.started },
            false,
          ))
          one.1 (call_records_quiet rs payload ran.0) in
      rw one.0 (later ∙ ap (λ log. (record bus { started = log }, false)) one.2)

  process_queue_quiet :
      (es : List QueuedEvent) (processed : ℕ) (bus : Bus)
      → process_queue behaviour es processed bus ≡ (
        poll_awaiters behaviour
            (record bus { started = log_events bus.callbacks bus.expired es bus.started }),
        returned (processed + length es),
      )
  unfolding process_queue dispatch log_events
  process_queue_quiet [] processed bus =
      ap (λ n. (poll_awaiters behaviour bus, returned n)) (omega arith)
  process_queue_quiet (e ∷ es) processed bus =
      let rs = records_of (bus.callbacks e.event_type) in
      let log = log_calls e.payload (live_callbacks bus.expired rs) bus.started in
      let all = log_events bus.callbacks bus.expired es log in
      rw (call_records_quiet rs e.payload bus) (
        process_queue_quiet es (processed + 1) (record bus { started = log })
        ∙ ap (λ n. (poll_awaiters behaviour (record bus { started = all }), returned n))
            (omega arith))

  -- With callbacks and polls that call nothing and throw nothing, process() empties the queue,
  -- starts for each event in the order of the queue the callbacks of its type in the order of their
  -- subscription, leaving out those whose guard has expired, then polls the awaiters, and returns
  -- the number of events.
  pub process_in_order :
      (bus : Bus)
      → process behaviour bus ≡ (
        poll_awaiters behaviour (record bus {
          event_queue = [];
          started = log_events bus.callbacks bus.expired bus.event_queue bus.started;
        }),
        returned (length bus.event_queue),
      )
  unfolding process
  process_in_order bus =
      process_queue_quiet bus.event_queue 0 (record bus { event_queue = [] })
      ∙ ap
          (λ n. (
            poll_awaiters behaviour (record bus {
              event_queue = [];
              started = log_events bus.callbacks bus.expired bus.event_queue bus.started;
            }),
            returned n,
          ))
          (omega arith)
