-- ===== src/EventBus/Subscriptions.antt =====
-- Subscribing to and unsubscribing from EventBus.
use event_hub_cpp.Prelude.{
  ℕ, ◌==◌, if◌then◌else◌, Bool, true, false, Option, none, some, List, [], ◌∷◌, ◌++◌, is_empty,
  remove_if, write, add_one64,
}
use event_hub_cpp.EventBus.Types.{CallbackRecord, Bus}

-- `operator[]` of the map and push_back.
unfoldable pub add_record : CallbackRecord → Option (List CallbackRecord) → List CallbackRecord
add_record record' none = record' ∷ []
add_record record' (some records) = records ++ (record' ∷ [])

unfoldable pub next_subscription_id : Bus → ℕ × Bus
next_subscription_id bus = (
  bus.next_subscription_id,
  record bus { next_subscription_id = add_one64 bus.next_subscription_id },
)

unfoldable pub add_callback : ℕ → CallbackRecord → Bus → Bus
unfolding add_record
add_callback event_type added bus = record bus {
  callbacks = write bus.callbacks event_type (some (add_record added (bus.callbacks event_type)));
}

-- The typed callback that subscribe() stores is a function that is never empty.
unfoldable pub subscribe : (event_type owner callback : ℕ) → Bus → Bus × ℕ
unfolding next_subscription_id add_callback
subscribe event_type owner callback bus =
    let (id, bus') = next_subscription_id bus in
    let added : CallbackRecord = record {
      id = id;
      owner = owner;
      has_guard = false;
      guard = 0;
      callback = some callback;
    } in
    (add_callback event_type added bus', id)

unfoldable pub subscribe_guarded : (event_type owner guard callback : ℕ) → Bus → Bus × ℕ
unfolding next_subscription_id add_callback
subscribe_guarded event_type owner guard callback bus =
    let (id, bus') = next_subscription_id bus in
    let added : CallbackRecord = record {
      id = id;
      owner = owner;
      has_guard = true;
      guard = guard;
      callback = some callback;
    } in
    (add_callback event_type added bus', id)

-- subscribe() with an EventListener: the callback calls on_event of the listener, so the listener
-- names it.
unfoldable pub subscribe_listener : (event_type owner listener : ℕ) → Bus → Bus × ℕ
unfolding subscribe
subscribe_listener event_type owner listener bus = subscribe event_type owner listener bus

unfoldable pub subscribe_listener_guarded : (event_type owner guard listener : ℕ) → Bus → Bus × ℕ
unfolding subscribe_guarded
subscribe_listener_guarded event_type owner guard listener bus =
    subscribe_guarded event_type owner guard listener bus

-- std::remove_if and erase on one vector; a vector that becomes empty leaves the map.
unfoldable pub erase_records :
    (CallbackRecord → Bool) → Option (List CallbackRecord) → Option (List CallbackRecord)
erase_records drop none = none
erase_records drop (some records) =
    let left = remove_if drop records in if is_empty left then none else some left

-- The loop over the whole map.
unfoldable pub unsubscribe : ℕ → Bus → Bus
unfolding erase_records
unsubscribe id bus = record bus {
  callbacks = λ t. erase_records (λ r. r.id == id) (bus.callbacks t);
}

unfoldable pub unsubscribe_all_of : (event_type owner : ℕ) → Bus → Bus
unfolding erase_records
unsubscribe_all_of event_type owner bus = record bus {
  callbacks = λ t.
      if event_type == t
      then erase_records (λ r. r.owner == owner) (bus.callbacks t)
      else bus.callbacks t;
}

unfoldable pub unsubscribe_all : ℕ → Bus → Bus
unfolding erase_records
unsubscribe_all owner bus = record bus {
  callbacks = λ t. erase_records (λ r. r.owner == owner) (bus.callbacks t);
}
