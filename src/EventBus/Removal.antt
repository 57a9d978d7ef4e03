-- ===== src/EventBus/Removal.antt =====
-- What the unsubscribe operations remove, and what the callback map stores.
use event_hub_cpp.Prelude.{
  ℕ, ◌==◌, ◌≡◌, ◌≢◌, refl, if◌then◌else◌, if_ind, Bool, Option, none, some, List, [], ◌∷◌, is_empty,
  remove_if, Bool-cases, inl, inr, ◌||◌, ◌&&◌, ◌+◌, arith,
}
use event_hub_cpp.EventBus.Types.{
  CallbackRecord, QueuedEvent, Bus, notify, notify_work_available, set_notifier, reset_notifier,
  set_exception_handler,
}
use event_hub_cpp.EventBus.Subscriptions.{
  add_record, add_callback, next_subscription_id, subscribe, subscribe_guarded, erase_records,
  unsubscribe, unsubscribe_all_of, unsubscribe_all,
}
use event_hub_cpp.EventBus.Dispatch.{
  enqueue, post, clear_pending, register_awaiter, restore_unprocessed_events, Command, posts,
  subscribes, subscribes_guarded, unsubscribes, unsubscribes_all_of, unsubscribes_all,
  clears_pending, registers_awaiter, sets_notifier, resets_notifier, sets_exception_handler,
  expires, finishes, apply, apply_all, Turn, Behaviour, report_to, run_turn, call_record,
  call_records, records_of, dispatch, poll_all, poll_awaiters, process_queue, process, Outcome,
}

-- The records that a dispatch of the type would copy.
abbrev pub registered : Bus → ℕ → List CallbackRecord
registered bus t = records_of (bus.callbacks t)

kept_records :
    (left : List CallbackRecord) → records_of (if is_empty left then none else some left) ≡ left
unfolding records_of
kept_records [] = refl
kept_records (r ∷ left) = refl

erase_records_lem :
    (drop : CallbackRecord → Bool) (o : Option (List CallbackRecord))
    → records_of (erase_records drop o) ≡ remove_if drop (records_of o)
unfolding erase_records records_of
erase_records_lem drop none = refl
erase_records_lem drop (some records) = kept_records (remove_if drop records)

-- Afterwards the records of every type are those before without the ones removed, in their order:
-- unsubscribe() takes the records of that id, unsubscribe_all(owner) those of that owner, and
-- unsubscribe_all<T>(owner) those of that owner under that one type.
pub unsubscribe-registered :
    (id owner event_type t : ℕ) (bus : Bus)
    → (registered (unsubscribe id bus) t ≡ remove_if (λ r. r.id == id) (registered bus t))
      × (registered (unsubscribe_all owner bus) t
          ≡ remove_if (λ r. r.owner == owner) (registered bus t))
      × (registered (unsubscribe_all_of event_type owner bus) t ≡ (
          if event_type == t
          then remove_if (λ r. r.owner == owner) (registered bus t)
          else registered bus t))
unfolding unsubscribe unsubscribe_all unsubscribe_all_of
unsubscribe-registered id owner event_type t bus = (
  erase_records_lem (λ r. r.id == id) (bus.callbacks t),
  erase_records_lem (λ r. r.owner == owner) (bus.callbacks t),
  elim (Bool-cases (event_type == t)) [
    | inl e ↦ rw e (erase_records_lem (λ r. r.owner == owner) (bus.callbacks t))
    | inr e ↦ rw e refl
  ],
)

-- No vector of the map is empty.
abbrev pub NoEmptyVector : Bus → Type 0
NoEmptyVector bus = (t : ℕ) → bus.callbacks t ≢ some []

not_empty_left :
    (left : List CallbackRecord) → (if is_empty left then none else some left) ≢ some []
not_empty_left [] h = ground (arith, h)
not_empty_left (r ∷ left) h = ground (arith, h)

erase_records-ne :
    (drop : CallbackRecord → Bool) (o : Option (List CallbackRecord))
    → erase_records drop o ≢ some []
unfolding erase_records
erase_records-ne drop none h = ground (arith, h)
erase_records-ne drop (some records) h = not_empty_left (remove_if drop records) h

add_record-ne : (r : CallbackRecord) (o : Option (List CallbackRecord)) → add_record r o ≢ []
unfolding add_record
add_record-ne r none h = ground (arith, h)
add_record-ne r (some []) h = ground (arith, h)
add_record-ne r (some (x ∷ xs)) h = ground (arith, h)

add_callback-NoEmptyVector :
    (t : ℕ) (r : CallbackRecord) (bus : Bus)
    → NoEmptyVector bus
    → NoEmptyVector (add_callback t r bus)
unfolding add_callback
add_callback-NoEmptyVector t r bus h u = elim (Bool-cases (t == u)) [
  | inl e ↦ rw e (λ same. add_record-ne r (bus.callbacks t) (ground (arith, same)))
  | inr e ↦ rw e (h u)
]

-- The map only changes by subscribing and unsubscribing.
notify-callbacks : (n : Option ℕ) (bus : Bus) → (notify n bus).callbacks ≡ bus.callbacks
unfolding notify
notify-callbacks none bus = refl
notify-callbacks (some n) bus = refl

apply-NoEmptyVector : (c : Command) (bus : Bus) → NoEmptyVector bus → NoEmptyVector (apply c bus)
unfolding apply post enqueue notify_work_available subscribe subscribe_guarded next_subscription_id
    unsubscribe unsubscribe_all_of unsubscribe_all clear_pending set_notifier reset_notifier
    set_exception_handler register_awaiter
apply-NoEmptyVector (posts event_type payload) bus h t = rw notify-callbacks (h t)
apply-NoEmptyVector (subscribes event_type owner callback) bus h t =
    add_callback-NoEmptyVector event_type _ (next_subscription_id bus).1 h t
apply-NoEmptyVector (subscribes_guarded event_type owner guard callback) bus h t =
    add_callback-NoEmptyVector event_type _ (next_subscription_id bus).1 h t
apply-NoEmptyVector (unsubscribes id) bus h t = erase_records-ne (λ r. r.id == id) (bus.callbacks t)
apply-NoEmptyVector (unsubscribes_all_of event_type owner) bus h t =
    if_ind (λ (o : Option (List CallbackRecord)). o ≢ some []) (event_type == t)
      (λ e. erase_records-ne (λ r. r.owner == owner) (bus.callbacks t)) (λ e. h t)
apply-NoEmptyVector (unsubscribes_all owner) bus h t =
    erase_records-ne (λ r. r.owner == owner) (bus.callbacks t)
apply-NoEmptyVector clears_pending bus h t = h t
apply-NoEmptyVector (registers_awaiter none) bus h t = h t
apply-NoEmptyVector (registers_awaiter (some a)) bus h t = h t
apply-NoEmptyVector (sets_notifier notifier) bus h t = h t
apply-NoEmptyVector resets_notifier bus h t = h t
apply-NoEmptyVector (sets_exception_handler handler) bus h t = h t
apply-NoEmptyVector (expires object) bus h t = h t
apply-NoEmptyVector (finishes awaiter) bus h t = h t

apply_all-NoEmptyVector :
    (cs : List Command) (bus : Bus) → NoEmptyVector bus → NoEmptyVector (apply_all cs bus)
unfolding apply_all
apply_all-NoEmptyVector [] bus h = h
apply_all-NoEmptyVector (c ∷ cs) bus h = apply_all-NoEmptyVector cs _ (apply-NoEmptyVector c bus h)

report_to-NoEmptyVector :
    (handler : Option ℕ) (turn : Turn) (bus : Bus)
    → NoEmptyVector bus
    → NoEmptyVector (report_to handler turn bus).0
unfolding report_to
report_to-NoEmptyVector none turn bus h = h
report_to-NoEmptyVector (some handler) turn bus h =
    apply_all-NoEmptyVector turn.handler_commands bus h

run_turn-NoEmptyVector :
    (turn : Turn) (bus : Bus) → NoEmptyVector bus → NoEmptyVector (run_turn turn bus).0
unfolding run_turn
run_turn-NoEmptyVector turn bus h =
    let called = apply_all-NoEmptyVector turn.commands bus h in
    if_ind (λ (r : Bus × Bool). NoEmptyVector r.0) turn.throws
      (λ t. report_to-NoEmptyVector _ turn (apply_all turn.commands bus) called) (λ t. called)

call_callback-NoEmptyVector :
    (behaviour : Behaviour) (r : CallbackRecord) (callback : Option ℕ) (payload : ℕ) (bus : Bus)
    → r.callback ≡ callback
    → NoEmptyVector bus
    → NoEmptyVector (call_record behaviour r payload bus).0
unfolding call_record
call_callback-NoEmptyVector behaviour r none payload bus same h =
    if_ind (λ (r : Bus × Bool). NoEmptyVector r.0) (r.has_guard && bus.expired r.guard) (λ t. h)
      (λ t. rw same h)
call_callback-NoEmptyVector behaviour r (some c) payload bus same h =
    if_ind (λ (r : Bus × Bool). NoEmptyVector r.0) (r.has_guard && bus.expired r.guard) (λ t. h)
      (λ t. rw same (run_turn-NoEmptyVector (behaviour.calls c payload begun) begun h))
  where
    begun : Bus
    begun = record bus { started = (c, payload) ∷ bus.started }

call_records-NoEmptyVector :
    (behaviour : Behaviour) (rs : List CallbackRecord) (payload : ℕ) (bus : Bus)
    → NoEmptyVector bus
    → NoEmptyVector (call_records behaviour rs payload bus).0
unfolding call_records
call_records-NoEmptyVector behaviour [] payload bus h = h
call_records-NoEmptyVector behaviour (r ∷ rs) payload bus h =
    let one = call_callback-NoEmptyVector behaviour r r.callback payload bus refl h in
    if_ind (λ (r : Bus × Bool). NoEmptyVector r.0) (call_record behaviour r payload bus).1
      (λ t. one)
      (λ t.
        call_records-NoEmptyVector behaviour rs payload (call_record behaviour r payload bus).0 one)

poll_all-NoEmptyVector :
    (behaviour : Behaviour) (live : List ℕ) (bus : Bus)
    → NoEmptyVector bus
    → NoEmptyVector (poll_all behaviour live bus)
unfolding poll_all
poll_all-NoEmptyVector behaviour [] bus h = h
poll_all-NoEmptyVector behaviour (a ∷ live) bus h =
    let begun = record bus { polled = a ∷ bus.polled } in
    poll_all-NoEmptyVector behaviour live (apply_all (behaviour.polls a begun) begun)
      (apply_all-NoEmptyVector (behaviour.polls a begun) begun h)

restore-NoEmptyVector :
    (es newer : List QueuedEvent) (bus : Bus)
    → bus.event_queue ≡ newer
    → NoEmptyVector bus
    → NoEmptyVector (restore_unprocessed_events es bus)
unfolding restore_unprocessed_events
restore-NoEmptyVector [] newer bus same h = h
restore-NoEmptyVector (e ∷ es) [] bus same h = rw same h
restore-NoEmptyVector (e ∷ es) (n ∷ newer) bus same h = rw same h

process_queue-NoEmptyVector :
    (behaviour : Behaviour) (es : List QueuedEvent) (processed : ℕ) (bus : Bus)
    → NoEmptyVector bus
    → NoEmptyVector (process_queue behaviour es processed bus).0
unfolding process_queue dispatch poll_awaiters
process_queue-NoEmptyVector behaviour [] processed bus h =
    let live = remove_if (λ a. bus.expired a || bus.finished a) bus.awaiters in
    poll_all-NoEmptyVector behaviour live (record bus { awaiters = live }) h
process_queue-NoEmptyVector behaviour (e ∷ es) processed bus h =
    let ran = dispatch behaviour e.event_type e.payload bus in
    let one =
      call_records-NoEmptyVector behaviour (records_of (bus.callbacks e.event_type)) e.payload bus
        h in
    if_ind (λ (r : Bus × Outcome). NoEmptyVector r.0) ran.1
      (λ t. restore-NoEmptyVector es ran.0.event_queue ran.0 refl one)
      (λ t. process_queue-NoEmptyVector behaviour es (processed + 1) ran.0 one)

-- When no type has an empty vector in the callback map, none has one after any call that a callback
-- can make, nor after process() with any callbacks, returned or ended by an exception.
pub process-NoEmptyVector :
    (behaviour : Behaviour) (c : Command) (bus : Bus)
    → NoEmptyVector bus
    → NoEmptyVector (apply c bus) × NoEmptyVector (process behaviour bus).0
unfolding process
process-NoEmptyVector behaviour c bus h = (
  apply-NoEmptyVector c bus h,
  process_queue-NoEmptyVector behaviour bus.event_queue 0 (record bus { event_queue = [] }) h,
)
