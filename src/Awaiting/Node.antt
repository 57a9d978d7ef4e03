-- ===== src/Awaiting/Node.antt =====
-- EventNode of include/event_hub/event_node.hpp, which owns one endpoint and passes its calls on.
use event_hub_cpp.Prelude.{ℕ, ℤ, Bool, Option, List}
use event_hub_cpp.EventBus.Dispatch.{Behaviour}
use event_hub_cpp.Awaiting.Awaiter.{AwaitOptions, World}
use event_hub_cpp.Awaiting.Endpoint.{
  EventEndpoint, new_endpoint, close, is_closed, subscribe, subscribe_listener, unsubscribe_id,
  unsubscribe_type, unsubscribe_endpoint, emit_event, post_event, request, next_id,
}
use event_hub_cpp.Awaiting.Requests.{Pending, Arrival, request_future}

-- `listener` is the node as an EventListener.
pub record EventNode : Type 0 where
  pub listener : ℕ
  pub endpoint : EventEndpoint

unfoldable pub new_node : (listener : ℕ) → World → World × EventNode
unfolding new_endpoint
new_node listener w =
    let (w₁, e) = new_endpoint w in (w₁, record { listener = listener; endpoint = e })

unfoldable pub close_node : World × EventNode → World × EventNode
unfolding close
close_node (w, n) = let (w₁, e) = close (w, n.endpoint) in (w₁, record n { endpoint = e })

unfoldable pub node_is_closed : EventNode → Bool
unfolding is_closed
node_is_closed n = is_closed n.endpoint

unfoldable pub listen : (event_type : ℕ) → EventNode → World → World × ℕ
unfolding subscribe_listener
listen event_type n w = subscribe_listener event_type n.listener n.endpoint w

unfoldable pub node_subscribe : (event_type callback : ℕ) → EventNode → World → World × ℕ
unfolding subscribe
node_subscribe event_type callback n w = subscribe event_type callback n.endpoint w

unfoldable pub node_unsubscribe : (id : ℕ) → World → World
unfolding unsubscribe_id
node_unsubscribe id w = unsubscribe_id id w

unfoldable pub node_unsubscribe_type : (event_type : ℕ) → EventNode → World → World
unfolding unsubscribe_type
node_unsubscribe_type event_type n w = unsubscribe_type event_type n.endpoint w

unfoldable pub node_unsubscribe_all : EventNode → World → World
unfolding unsubscribe_endpoint
node_unsubscribe_all n w = unsubscribe_endpoint n.endpoint w

unfoldable pub node_emit : Behaviour → (event_type payload : ℕ) → World → World × Bool
unfolding emit_event
node_emit behaviour event_type payload w = emit_event behaviour event_type payload w

unfoldable pub node_post : (event_type payload : ℕ) → World → World
unfolding post_event
node_post event_type payload w = post_event event_type payload w

unfoldable pub node_request :
    (now : ℤ)
    → (request_type result_type : ℕ) → (set_id matches_id : ℕ → ℕ) → (callback : Option ℕ)
    → AwaitOptions
    → World × EventNode
    → (World × EventNode) × ℕ
unfolding request
node_request now request_type result_type set_id matches_id callback options (w, n) =
    let ((w₁, e), id) =
      request now request_type result_type set_id matches_id callback options (w, n.endpoint) in
    ((w₁, record n { endpoint = e }), id)

unfoldable pub node_request_future :
    (now : ℤ)
    → (request_type result_type : ℕ) → (set_id matches_id : ℕ → ℕ) → (result_fn timeout_fn : ℕ)
    → AwaitOptions
    → List Arrival
    → World × EventNode
    → (World × EventNode) × Pending
unfolding request_future
node_request_future now request_type result_type set_id matches_id result_fn timeout_fn options
      early (w, n) =
    let ((w₁, e), pending) =
      request_future now request_type result_type set_id matches_id result_fn timeout_fn options
        early (w, n.endpoint) in
    ((w₁, record n { endpoint = e }), pending)

unfoldable pub node_next_id : World → World × ℕ
unfolding next_id
node_next_id w = next_id w
