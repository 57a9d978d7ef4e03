-- ===== src/Awaiting/Tests.antt =====
-- Awaiters and endpoints at concrete inputs.
use event_hub_cpp.Prelude.{
  ◌+◌, ◌≤◌, ◌≡◌, ◌≢◌, refl, ◌⊎◌, pos, true, false, not, none, some, List, [], ◌∷◌, All,
}
use event_hub_cpp.Cancellation.{Flags}
use event_hub_cpp.EventBus.Types.{Bus, new_bus, next_request_id}
use event_hub_cpp.EventBus.Removal.{registered}
use event_hub_cpp.Awaiting.Awaiter.{AwaitOptions, new_world}
use event_hub_cpp.Awaiting.Endpoint.{EventEndpoint, close}
use event_hub_cpp.Awaiting.Requests.{
  request_future, result, timeout, arrive_all, first_outcome, arrive_all-request_future, call_reply,
  reply_to, reset_reply,
}
use event_hub_cpp.Awaiting.Single.{one_if, fired_count, timeout_count}
use event_hub_cpp.Awaiting.Once.{Step, delivers, polls, creates, steps, steps-once}
use event_hub_cpp.Awaiting.Closing.{IsCancelled, close-releases}

abbrev bus : Bus
bus = new_bus (λ object. false) (λ awaiter. false)

abbrev flags : Flags
flags = record { cancelled = λ state. false; allocated = 0 }

abbrev options : AwaitOptions
options = record { timeout = pos 10; token = none; on_timeout = some 8 }

abbrev endpoint : EventEndpoint
endpoint = record { address = 4; guard = 5; closed = false; awaiters = 0 ∷ [] }

-- An awaiter gets two matching events and is polled after its deadline.
abbrev history : List Step
history =
    creates (pos 0) 1 none (some 7) options true none
    ∷ delivers 21 true 0
    ∷ delivers 22 true 0
    ∷ polls (pos 20) 0
    ∷ []

steps-once_example :
    let w = steps history (new_world bus flags) in
    ((w.awaiters 0).single_shot ≡ false)
    ⊎ (fired_count 0 w.fired + timeout_count 0 w.timed_out + one_if (not (w.awaiters 0).cancelled)
        ≤ 1)
steps-once_example = steps-once bus flags history 0

close-releases_example :
    let (w', e') = close (steps history (new_world bus flags), endpoint) in
    All (IsCancelled w') endpoint.awaiters
    × All (λ r. r.owner ≢ endpoint.address) (registered w'.bus 1)
    × (e'.closed ≡ true)
    × (e'.awaiters ≡ [])
    × (w'.bus.expired endpoint.guard ≡ true)
close-releases_example = close-releases (steps history (new_world bus flags)) endpoint 1 refl

-- The bus has drawn two ids before.
abbrev used_bus : Bus
used_bus = record bus { request_ids = 3 }

arrive_all-request_future_example :
    let (s', p) =
      request_future
        (pos 0)
        1
        2
        (λ id. id)
        (λ id. id)
        7
        9
        options
        []
        (new_world used_bus flags, endpoint) in
    (arrive_all (timeout ∷ result 21 ∷ []) p).settled
    ≡ first_outcome (next_request_id used_bus).1 [] (timeout ∷ result 21 ∷ [])
arrive_all-request_future_example =
    arrive_all-request_future (pos 0) 1 2 (λ id. id) (λ id. id) 7 9 options []
      (timeout ∷ result 21 ∷ []) (new_world used_bus flags) endpoint

reset_reply_calls_nothing : call_reply (reset_reply (reply_to (some 3))) ≡ none
unfolding call_reply reset_reply reply_to
reset_reply_calls_nothing = refl
