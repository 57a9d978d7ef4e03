-- ===== src/Awaiting/Endpoint.antt =====
-- EventEndpoint of include/event_hub/event_endpoint.hpp.
use event_hub_cpp.Prelude.{
  ℕ, suc, ℤ, if◌then◌else◌, Bool, true, false, not, Option, some, List, [], ◌∷◌, ◌++◌, remove_if,
  write,
}
use event_hub_cpp.EventBus.Types.{Bus, next_request_id}
use event_hub_cpp.EventBus.Subscriptions.{
  subscribe_guarded, subscribe_listener_guarded, unsubscribe, unsubscribe_all_of, unsubscribe_all,
}
use event_hub_cpp.EventBus.Dispatch.{Behaviour, emit, post}
use event_hub_cpp.Awaiting.Awaiter.{AwaitOptions, World, cancel_awaiter, is_active, create}

-- `address` is the owner of the endpoint's subscriptions and `guard` the object of m_guard; after
-- m_guard is reset, the weak pointers to it are expired.
pub record EventEndpoint : Type 0 where
  pub address : ℕ
  pub guard : ℕ
  pub closed : Bool
  pub awaiters : List ℕ

abbrev pub set_expired : ℕ → Bool → World → World
set_expired object flag w = record w {
  bus = record w.bus { expired = write w.bus.expired object flag };
}

abbrev pub on_bus : (Bus → Bus) → World → World
on_bus f w = record w { bus = f w.bus }

unfoldable pub new_endpoint : World → World × EventEndpoint
new_endpoint w =
    let address = w.allocated in
    let guard = suc address in
    (
      set_expired guard false (record w { allocated = suc guard }),
      record { address = address; guard = guard; closed = false; awaiters = [] },
    )

unfoldable pub cancel_each : List ℕ → World → World
unfolding cancel_awaiter
cancel_each [] w = w
cancel_each (a ∷ rest) w = cancel_each rest (cancel_awaiter a w)

unfoldable pub cancel_awaiters : World × EventEndpoint → World × EventEndpoint
unfolding cancel_each
cancel_awaiters (w, e) = (cancel_each e.awaiters w, record e { awaiters = [] })

unfoldable pub unsubscribe_endpoint : EventEndpoint → World → World
unsubscribe_endpoint e w = on_bus (λ bus. unsubscribe_all e.address bus) w

unfoldable pub unsubscribe_type : (event_type : ℕ) → EventEndpoint → World → World
unsubscribe_type event_type e w = on_bus (λ bus. unsubscribe_all_of event_type e.address bus) w

unfoldable pub unsubscribe_id : ℕ → World → World
unsubscribe_id id w = on_bus (λ bus. unsubscribe id bus) w

unfoldable pub close : World × EventEndpoint → World × EventEndpoint
unfolding cancel_awaiters unsubscribe_endpoint
close (w, e) =
    let (w₁, e₁) =
      cancel_awaiters (
        if not e.closed
        then (set_expired e.guard true w, record e { closed = true })
        else (w, e)) in
    (unsubscribe_endpoint e₁ w₁, e₁)

unfoldable pub is_closed : EventEndpoint → Bool
is_closed e = e.closed

-- `callback` is the stored callback; with a guard of the user it is the one that locks that guard
-- first.
unfoldable pub subscribe : (event_type callback : ℕ) → EventEndpoint → World → World × ℕ
subscribe event_type callback e w =
    let (bus, id) = subscribe_guarded event_type e.address e.guard callback w.bus in
    (record w { bus = bus }, id)

unfoldable pub subscribe_listener : (event_type listener : ℕ) → EventEndpoint → World → World × ℕ
subscribe_listener event_type listener e w =
    let (bus, id) = subscribe_listener_guarded event_type e.address e.guard listener w.bus in
    (record w { bus = bus }, id)

unfoldable pub emit_event : Behaviour → (event_type payload : ℕ) → World → World × Bool
emit_event behaviour event_type payload w =
    let (bus, escaped) = emit behaviour event_type payload w.bus in
    (record w { bus = bus }, escaped)

unfoldable pub post_event : (event_type payload : ℕ) → World → World
post_event event_type payload w = on_bus (λ bus. post event_type payload bus) w

unfoldable pub next_id : World → World × ℕ
next_id w = let (bus, id) = next_request_id w.bus in (record w { bus = bus }, id)

unfoldable pub prune_awaiters : World × EventEndpoint → World × EventEndpoint
unfolding is_active
prune_awaiters (w, e) = (w, record e { awaiters = remove_if (λ a. not (is_active a w)) e.awaiters })

unfoldable pub make_awaiter :
    (now : ℤ)
    → (event_type : ℕ) → (predicate callback : Option ℕ) → AwaitOptions
    → (single_shot : Bool) → World × EventEndpoint
    → (World × EventEndpoint) × ℕ
unfolding prune_awaiters create
make_awaiter now event_type predicate callback options single_shot (w, e) =
    let (w₁, e₁) = prune_awaiters (w, e) in
    let (w₂, a) = create now event_type predicate callback options single_shot (some e₁.guard) w₁ in
    ((w₂, record e₁ { awaiters = e₁.awaiters ++ (a ∷ []) }), a)

-- The overloads without a predicate pass one that is always true.
unfoldable pub await_once :
    (now : ℤ)
    → (event_type : ℕ) → (predicate callback : Option ℕ) → AwaitOptions
    → World × EventEndpoint
    → (World × EventEndpoint) × ℕ
unfolding make_awaiter
await_once now event_type predicate callback options s =
    make_awaiter now event_type predicate callback options true s

unfoldable pub await_each :
    (now : ℤ)
    → (event_type : ℕ) → (predicate callback : Option ℕ) → AwaitOptions
    → World × EventEndpoint
    → (World × EventEndpoint) × ℕ
unfolding make_awaiter
await_each now event_type predicate callback options s =
    make_awaiter now event_type predicate callback options false s

-- `matches_id` names the predicate for an id, and `set_id` writes the id into the request event.
unfoldable pub request :
    (now : ℤ)
    → (request_type result_type : ℕ) → (set_id : ℕ → ℕ) → (matches_id : ℕ → ℕ)
    → (callback : Option ℕ) → AwaitOptions
    → World × EventEndpoint
    → (World × EventEndpoint) × ℕ
unfolding next_id await_once post_event
request now request_type result_type set_id matches_id callback options (w, e) =
    let (w₁, id) = next_id w in
    let ((w₂, e₂), a) =
      await_once now result_type (some (matches_id id)) callback options (w₁, e) in
    ((post_event request_type (set_id id) w₂, e₂), id)
