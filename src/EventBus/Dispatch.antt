-- ===== src/EventBus/Dispatch.antt =====
-- Queuing, dispatching and processing events.
use event_hub_cpp.Prelude.{
  ℕ, ◌+◌, ◌==◌, if◌then◌else◌, Bool, true, false, not, ◌||◌, ◌&&◌, Option, none, some, List, [],
  ◌∷◌, ◌++◌, length, remove_if, write,
}
use event_hub_cpp.EventBus.Types.{
  CallbackRecord, QueuedEvent, Bus, set_notifier, reset_notifier, set_exception_handler,
  notify_work_available,
}
use event_hub_cpp.EventBus.Subscriptions.{
  subscribe, subscribe_guarded, unsubscribe, unsubscribe_all_of, unsubscribe_all,
}

unfoldable pub enqueue : QueuedEvent → Bus → Bus
enqueue event bus =
    notify_work_available (record bus { event_queue = bus.event_queue ++ (event ∷ []) })

-- post() makes the payload and queues it.
unfoldable pub post : (event_type payload : ℕ) → Bus → Bus
unfolding enqueue
post event_type payload bus = enqueue (record { event_type = event_type; payload = payload }) bus

abbrev pub pending_count : Bus → ℕ
pending_count bus = length bus.event_queue

abbrev pub has_pending : Bus → Bool
has_pending bus = not (pending_count bus == 0)

unfoldable pub clear_pending : Bus → Bus
clear_pending bus = record bus { event_queue = [] }

unfoldable pub clear : Bus → Bus
unfolding clear_pending
clear bus = clear_pending bus

unfoldable pub register_awaiter : Option ℕ → Bus → Bus
register_awaiter none bus = bus
register_awaiter (some awaiter) bus = record bus { awaiters = bus.awaiters ++ (awaiter ∷ []) }

-- The loop that moves the front of a queue to the back of another until the first is empty.
unfoldable pub move_events : (source target : List QueuedEvent) → List QueuedEvent
move_events [] target = target
move_events (e ∷ rest) target = move_events rest (target ++ (e ∷ []))

-- The swap when nothing was queued meanwhile, and the two loops that fill a new queue otherwise.
unfoldable pub restore_unprocessed_events : List QueuedEvent → Bus → Bus
unfolding move_events
restore_unprocessed_events [] bus = bus
restore_unprocessed_events (e ∷ rest) bus = elim bus.event_queue [
  | [] ↦ record bus { event_queue = e ∷ rest }
  | next ∷ newer ↦ record bus {
    event_queue = move_events (next ∷ newer) (move_events (e ∷ rest) []);
  }
]

-- What happens while a callback, a handler or an awaiter's poll runs: calls of the bus from it and
-- from other threads, and the ends of guarded objects and awaiters.
pub data Command : Type 0 where
  posts : (event_type payload : ℕ) → Command
  subscribes : (event_type owner callback : ℕ) → Command
  subscribes_guarded : (event_type owner guard callback : ℕ) → Command
  unsubscribes : ℕ → Command
  unsubscribes_all_of : (event_type owner : ℕ) → Command
  unsubscribes_all : ℕ → Command
  clears_pending : Command
  registers_awaiter : Option ℕ → Command
  sets_notifier : Option ℕ → Command
  resets_notifier : Command
  sets_exception_handler : Option ℕ → Command
  expires : ℕ → Command
  finishes : ℕ → Command

unfoldable pub apply : Command → Bus → Bus
apply (posts event_type payload) bus = post event_type payload bus
apply (subscribes event_type owner callback) bus = (subscribe event_type owner callback bus).0
apply (subscribes_guarded event_type owner guard callback) bus =
    (subscribe_guarded event_type owner guard callback bus).0
apply (unsubscribes id) bus = unsubscribe id bus
apply (unsubscribes_all_of event_type owner) bus = unsubscribe_all_of event_type owner bus
apply (unsubscribes_all owner) bus = unsubscribe_all owner bus
apply clears_pending bus = clear_pending bus
apply (registers_awaiter awaiter) bus = register_awaiter awaiter bus
apply (sets_notifier notifier) bus = set_notifier notifier bus
apply resets_notifier bus = reset_notifier bus
apply (sets_exception_handler handler) bus = set_exception_handler handler bus
apply (expires object) bus = record bus { expired = write bus.expired object true }
apply (finishes awaiter) bus = record bus { finished = write bus.finished awaiter true }

unfoldable pub apply_all : List Command → Bus → Bus
unfolding apply
apply_all [] bus = bus
apply_all (c ∷ rest) bus = apply_all rest (apply c bus)

-- One execution of a callback, and what the exception handler does if it is called.
pub record Turn : Type 0 where
  pub commands : List Command
  pub throws : Bool
  pub handler_commands : List Command
  pub handler_throws : Bool

-- How callbacks (by name, on a payload) and the polls of awaiters behave in a state.
pub record Behaviour : Type 0 where
  pub calls : ℕ → ℕ → Bus → Turn
  pub polls : ℕ → Bus → List Command

-- report_exception for the installed handler: the state, and whether an exception leaves.
unfoldable pub report_to : Option ℕ → Turn → Bus → Bus × Bool
unfolding apply_all
report_to none turn bus = (bus, true)
report_to (some handler) turn bus = (apply_all turn.handler_commands bus, turn.handler_throws)

unfoldable pub run_turn : Turn → Bus → Bus × Bool
unfolding report_to
run_turn turn bus =
    let called = apply_all turn.commands bus in
    if turn.throws then report_to called.exception_handler turn called else (called, false)

-- The body of the loop of dispatch(): the guard, the callback and its exception.
unfoldable pub call_record : Behaviour → CallbackRecord → ℕ → Bus → Bus × Bool
unfolding run_turn
call_record behaviour r payload bus =
    if r.has_guard && bus.expired r.guard then (bus, false) else elim r.callback [
      | none ↦ (bus, false)
      | some callback ↦
          let begun = record bus { started = (callback, payload) ∷ bus.started } in
          run_turn (behaviour.calls callback payload begun) begun
    ]

unfoldable pub call_records : Behaviour → List CallbackRecord → ℕ → Bus → Bus × Bool
unfolding call_record
call_records behaviour [] payload bus = (bus, false)
call_records behaviour (r ∷ rest) payload bus =
    let (bus', escaped) = call_record behaviour r payload bus in
    let continued = call_records behaviour rest payload bus' in
    if escaped then (bus', true) else continued

-- The records that dispatch() copies.
unfoldable pub records_of : Option (List CallbackRecord) → List CallbackRecord
records_of none = []
records_of (some records) = records

unfoldable pub dispatch : Behaviour → (event_type payload : ℕ) → Bus → Bus × Bool
unfolding call_records records_of
dispatch behaviour event_type payload bus =
    call_records behaviour (records_of (bus.callbacks event_type)) payload bus

-- The loop over the live awaiters.
unfoldable pub poll_all : Behaviour → List ℕ → Bus → Bus
unfolding apply_all
poll_all behaviour [] bus = bus
poll_all behaviour (a ∷ rest) bus =
    let begun = record bus { polled = a ∷ bus.polled } in
    poll_all behaviour rest (apply_all (behaviour.polls a begun) begun)

unfoldable pub poll_awaiters : Behaviour → Bus → Bus
unfolding poll_all
poll_awaiters behaviour bus =
    let live = remove_if (λ a. bus.expired a || bus.finished a) bus.awaiters in
    poll_all behaviour live (record bus { awaiters = live })

unfoldable pub emit : Behaviour → (event_type payload : ℕ) → Bus → Bus × Bool
unfolding dispatch poll_awaiters
emit behaviour event_type payload bus =
    let (bus', escaped) = dispatch behaviour event_type payload bus in
    if escaped then (bus', true) else (poll_awaiters behaviour bus', false)

-- How process() ends: with the number of events dispatched, or by an exception.
pub data Outcome : Type 0 where
  returned : ℕ → Outcome
  failed : Outcome

unfoldable pub process_queue : Behaviour → List QueuedEvent → ℕ → Bus → Bus × Outcome
unfolding dispatch restore_unprocessed_events poll_awaiters
process_queue behaviour [] processed bus = (poll_awaiters behaviour bus, returned processed)
process_queue behaviour (e ∷ rest) processed bus =
    let (bus', escaped) = dispatch behaviour e.event_type e.payload bus in
    let continued = process_queue behaviour rest (processed + 1) bus' in
    if escaped then (restore_unprocessed_events rest bus', failed) else continued

unfoldable pub process : Behaviour → Bus → Bus × Outcome
unfolding process_queue
process behaviour bus = process_queue behaviour bus.event_queue 0 (record bus { event_queue = [] })
