-- ===== src/EventBus/Tests.antt =====
-- Concrete buses on which the theorems about EventBus are applied.
use event_hub_cpp.Prelude.{
  ◌==◌, ◌≡◌, refl, if◌then◌else◌, true, false, [], ◌∷◌, length, remove_if, arith,
}
use event_hub_cpp.EventBus.Types.{Bus, new_bus, notify, notify_work_available}
use event_hub_cpp.EventBus.Subscriptions.{
  subscribe, subscribe_guarded, next_subscription_id, add_callback, add_record, unsubscribe,
  unsubscribe_all, unsubscribe_all_of,
}
use event_hub_cpp.EventBus.Dispatch.{
  posts, subscribes, subscribes_guarded, apply, apply_all, post, enqueue, Behaviour, process,
  process_queue, dispatch, call_records, call_record, records_of, run_turn, report_to,
  poll_awaiters, returned, failed,
}
use event_hub_cpp.EventBus.Removal.{
  registered, NoEmptyVector, unsubscribe-registered, process-NoEmptyVector,
}
use event_hub_cpp.EventBus.Serving.{serve, Stopped, process-Stopped, process_returned}
use event_hub_cpp.EventBus.Order.{IsQuiet, log_events, process_in_order}

abbrev empty_bus : Bus
empty_bus = new_bus (λ n. false) (λ n. false)

-- Two subscribers of type 1, the second with a guard, and three queued events.
abbrev busy_bus : Bus
busy_bus =
    apply_all
      (subscribes 1 5 20 ∷ subscribes_guarded 1 6 9 21 ∷ posts 1 30 ∷ posts 2 31 ∷ posts 1 32 ∷ [])
      empty_bus

abbrev quiet : Behaviour
quiet = record {
  calls = λ callback payload bus. record {
    commands = [];
    throws = false;
    handler_commands = [];
    handler_throws = false;
  };
  polls = λ awaiter bus. [];
}

-- The callbacks post an event and throw.
abbrev throwing : Behaviour
throwing = record {
  calls = λ callback payload bus. record {
    commands = posts 2 40 ∷ [];
    throws = true;
    handler_commands = [];
    handler_throws = false;
  };
  polls = λ awaiter bus. [];
}

quiet-IsQuiet : IsQuiet quiet
quiet-IsQuiet = record {
  calls_quiet = λ callback payload bus. (refl, refl);
  polls_quiet = λ awaiter bus. refl;
}

throwing_fails : (process throwing busy_bus).1 ≡ failed
unfolding new_bus apply_all apply subscribe subscribe_guarded next_subscription_id add_callback
    add_record post enqueue notify_work_available notify process process_queue dispatch call_records
    call_record records_of run_turn report_to
throwing_fails = refl

process-Stopped_example :
    Stopped throwing busy_bus.event_queue
      (record busy_bus { event_queue = [] })
      (process throwing busy_bus).0
process-Stopped_example = process-Stopped throwing busy_bus throwing_fails

quiet_returns : (process quiet busy_bus).1 ≡ returned 3
unfolding new_bus apply_all apply subscribe subscribe_guarded next_subscription_id add_callback
    add_record post enqueue notify_work_available notify process process_queue dispatch call_records
    call_record records_of run_turn report_to
quiet_returns = refl

process_returned_example :
    (3 ≡ length busy_bus.event_queue)
    × ((process quiet busy_bus).0
        ≡ poll_awaiters quiet
            (serve quiet busy_bus.event_queue (record busy_bus { event_queue = [] })))
process_returned_example = process_returned quiet busy_bus 3 quiet_returns

process_in_order_example : process quiet busy_bus ≡ (
  poll_awaiters quiet (record busy_bus {
    event_queue = [];
    started = log_events busy_bus.callbacks busy_bus.expired busy_bus.event_queue busy_bus.started;
  }),
  returned (length busy_bus.event_queue),
)
process_in_order_example = process_in_order quiet quiet-IsQuiet busy_bus

unsubscribe-registered_example :
    (registered (unsubscribe 1 busy_bus) 1 ≡ remove_if (λ r. r.id == 1) (registered busy_bus 1))
    × (registered (unsubscribe_all 5 busy_bus) 1
        ≡ remove_if (λ r. r.owner == 5) (registered busy_bus 1))
    × (registered (unsubscribe_all_of 1 5 busy_bus) 1 ≡ (
        if 1 == 1
        then remove_if (λ r. r.owner == 5) (registered busy_bus 1)
        else registered busy_bus 1))
unsubscribe-registered_example = unsubscribe-registered 1 5 1 1 busy_bus

empty_bus-NoEmptyVector : NoEmptyVector empty_bus
unfolding new_bus
empty_bus-NoEmptyVector t h = ground (arith, h)

process-NoEmptyVector_example :
    NoEmptyVector (apply (subscribes 1 5 20) empty_bus)
    × NoEmptyVector (process throwing empty_bus).0
process-NoEmptyVector_example =
    process-NoEmptyVector throwing (subscribes 1 5 20) empty_bus empty_bus-NoEmptyVector
