-- ===== src/EventBus/Types.antt =====
-- The state of EventBus. Objects that live outside the bus (event payloads, callbacks, owners,
-- guarded objects, awaiters, notifiers, handlers) are named by numbers.
use event_hub_cpp.Prelude.{ℕ, Bool, Option, none, some, List, [], ◌∷◌}
use event_hub_cpp.Request.{RequestIdGenerator, new_generator, next}

-- `guard` is a weak pointer; a std::function may be empty.
pub record CallbackRecord : Type 0 where
  pub id : ℕ
  pub owner : ℕ
  pub has_guard : Bool
  pub guard : ℕ
  pub callback : Option ℕ

pub record QueuedEvent : Type 0 where
  pub event_type : ℕ
  pub payload : ℕ

-- `callbacks` is the map from type indices to vectors of records. `expired` tells which guarded
-- objects and awaiters are gone and `finished` which awaiters are not active; both belong to the
-- owners of these objects. `started` records the callbacks that were started with their payloads,
-- `polled` the awaiters that were polled and `notified` the notifiers called, the latest first.
pub record Bus : Type 0 where
  pub callbacks : ℕ → Option (List CallbackRecord)
  pub event_queue : List QueuedEvent
  pub awaiters : List ℕ
  pub exception_handler : Option ℕ
  pub next_subscription_id : ℕ
  pub request_ids : RequestIdGenerator
  pub notifier : Option ℕ
  pub expired : ℕ → Bool
  pub finished : ℕ → Bool
  pub started : List (ℕ × ℕ)
  pub polled : List ℕ
  pub notified : List ℕ

unfoldable pub new_bus : (expired finished : ℕ → Bool) → Bus
new_bus expired finished = record {
  callbacks = λ t. none;
  event_queue = [];
  awaiters = [];
  exception_handler = none;
  next_subscription_id = 1;
  request_ids = new_generator;
  notifier = none;
  expired = expired;
  finished = finished;
  started = [];
  polled = [];
  notified = [];
}

unfoldable pub set_notifier : Option ℕ → Bus → Bus
set_notifier notifier bus = record bus { notifier = notifier }

unfoldable pub reset_notifier : Bus → Bus
reset_notifier bus = record bus { notifier = none }

unfoldable pub set_exception_handler : Option ℕ → Bus → Bus
set_exception_handler handler bus = record bus { exception_handler = handler }

unfoldable pub next_request_id : Bus → Bus × ℕ
unfolding next
next_request_id bus =
    let (id, request_ids) = next bus.request_ids in (record bus { request_ids = request_ids }, id)

unfoldable pub notify : Option ℕ → Bus → Bus
notify none bus = bus
notify (some n) bus = record bus { notified = n ∷ bus.notified }

unfoldable pub notify_work_available : Bus → Bus
unfolding notify
notify_work_available bus = notify bus.notifier bus
