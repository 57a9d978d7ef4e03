-- ===== src/Awaiting/Once.antt =====
-- Histories of awaiters and of the endpoints that own them.
use event_hub_cpp.Prelude.{
  ℕ, suc, ◌+◌, ◌==◌, ◌≤◌, ◌≡◌, refl, ◌⊎◌, inl, inr, ℤ, Bool, true, false, not, Option, some, List,
  [], ◌∷◌, write, Bool-cases, ==→eq, ==→ne, ne→==, ltb, if_ind, arith,
}
use event_hub_cpp.Cancellation.{Flags}
use event_hub_cpp.EventBus.Types.{Bus}
use event_hub_cpp.Awaiting.Awaiter.{
  AwaitOptions, Awaiter, World, new_world, set_awaiter, cancel_awaiter, poll_timeout, deliver,
  destroy_awaiter, construct, subscribe_internal, create,
}
use event_hub_cpp.Awaiting.Endpoint.{
  EventEndpoint, new_endpoint, cancel_each, cancel_awaiters, close, make_awaiter, await_once,
  next_id, request,
}
use event_hub_cpp.Awaiting.Ending.{poll_timeout-Sound, handle_event-Sound}
use event_hub_cpp.Awaiting.Single.{
  one_if, fired_count, timeout_count, ends, IsSingle, IsSound, cancel-Sound, quiet,
}

-- What happens to awaiters; the rest of the program may change the bus and the flags of the tokens.
pub data Step : Type 0 where
  delivers : (payload : ℕ) → (matches : Bool) → (awaiter : ℕ) → Step
  polls : (now : ℤ) → (awaiter : ℕ) → Step
  cancels : (awaiter : ℕ) → Step
  destroys : (awaiter : ℕ) → Step
  creates :
      (now : ℤ)
      → (event_type : ℕ) → (predicate callback : Option ℕ) → AwaitOptions
      → (single_shot : Bool) → (guard : Option ℕ) → Step
  makes_endpoint : Step
  awaits :
      (now : ℤ)
      → (event_type : ℕ) → (predicate callback : Option ℕ) → AwaitOptions
      → (single_shot : Bool) → EventEndpoint
      → Step
  requests :
      (now : ℤ)
      → (request_type result_type : ℕ) → (set_id matches_id : ℕ → ℕ) → (callback : Option ℕ)
      → AwaitOptions
      → EventEndpoint
      → Step
  closes : EventEndpoint → Step
  changes : Bus → Flags → Step

unfoldable pub step : Step → World → World
unfolding deliver poll_timeout cancel_awaiter destroy_awaiter create new_endpoint make_awaiter
    request close
step (delivers payload matches a) w = deliver payload matches a w
step (polls now a) w = poll_timeout now a w
step (cancels a) w = cancel_awaiter a w
step (destroys a) w = destroy_awaiter a w
step (creates now event_type predicate callback options single_shot guard) w =
    (create now event_type predicate callback options single_shot guard w).0
step makes_endpoint w = (new_endpoint w).0
step (awaits now event_type predicate callback options single_shot e) w =
    (make_awaiter now event_type predicate callback options single_shot (w, e)).0.0
step (requests now request_type result_type set_id matches_id callback options e) w =
    (request now request_type result_type set_id matches_id callback options (w, e)).0.0
step (closes e) w = (close (w, e)).0
step (changes bus flags) w = record w { bus = bus; flags = flags }

unfoldable pub steps : List Step → World → World
unfolding step
steps [] w = w
steps (s ∷ rest) w = steps rest (step s w)

destroy-Sound : (a : ℕ) (w : World) → IsSound w → IsSound (destroy_awaiter a w)
unfolding destroy_awaiter
destroy-Sound a w s = cancel-Sound a w s

-- A free address takes a new awaiter.
made :
    (w : World) (x : Awaiter)
    → IsSound w
    → IsSingle (write w.awaiters w.allocated x) (suc w.allocated) (ends w)
made w x s = record {
  bounded = λ a h. elim (Bool-cases (w.allocated == a)) [
    | inl e ↦
        let free : ends w a ≡ 0 = (s.unmade a (omega (arith, ==→eq w.allocated a e))).0 in
        rw (e, free) (inr (at_most (not x.cancelled)))
    | inr e ↦ rw e (s.bounded a (omega (arith, h, ==→ne w.allocated a e)))
  ];
  unmade =
      λ a h. rw (ne→== w.allocated a (λ e. omega (arith, h, e))) (s.unmade a (omega (arith, h)));
}
  where
    at_most : (b : Bool) → 0 + one_if b ≤ 1
    at_most true = omega arith
    at_most false = omega arith

-- Addresses that other objects take stay without an awaiter.
taken : (w : World) (n : ℕ) → IsSound w → w.allocated ≤ n → IsSingle w.awaiters n (ends w)
taken w n s le = record {
  bounded = λ a h. elim (Bool-cases (ltb a w.allocated)) [
    | inl e ↦ s.bounded a (ground (arith, e))
    | inr e ↦ let free = s.unmade a (ground (arith, e)) in inr (omega (arith, free.0, free.1))
  ];
  unmade = λ a h. s.unmade a (omega (arith, h, le));
}

create-Sound :
    (now : ℤ) (event_type : ℕ) (predicate callback : Option ℕ) (options : AwaitOptions)
    (single_shot : Bool) (guard : Option ℕ) (w : World)
    → IsSound w
    → IsSound (create now event_type predicate callback options single_shot guard w).0
unfolding create subscribe_internal set_awaiter
create-Sound now event_type predicate callback options single_shot guard w s =
    let a = w.allocated in
    let x = construct now predicate callback options single_shot guard in
    let made_world = record w { awaiters = write w.awaiters a x; allocated = suc a } in
    quiet made_world a _ (made w x s) refl (omega arith)

make_awaiter-Sound :
    (now : ℤ) (event_type : ℕ) (predicate callback : Option ℕ) (options : AwaitOptions)
    (single_shot : Bool) (e : EventEndpoint) (w : World)
    → IsSound w
    → IsSound (make_awaiter now event_type predicate callback options single_shot (w, e)).0.0
unfolding make_awaiter
make_awaiter-Sound now event_type predicate callback options single_shot e w s =
    create-Sound now event_type predicate callback options single_shot (some e.guard) w s

cancel_each-Sound : (items : List ℕ) (w : World) → IsSound w → IsSound (cancel_each items w)
unfolding cancel_each
cancel_each-Sound [] w s = s
cancel_each-Sound (a ∷ rest) w s = cancel_each-Sound rest (cancel_awaiter a w) (cancel-Sound a w s)

close-Sound : (e : EventEndpoint) (w : World) → IsSound w → IsSound (close (w, e)).0
unfolding close cancel_awaiters
close-Sound e w s =
    if_ind (λ (c : World × EventEndpoint). IsSound (cancel_each c.1.awaiters c.0)) (not e.closed)
      (λ t. cancel_each-Sound e.awaiters _ s) (λ t. cancel_each-Sound e.awaiters w s)

request-Sound :
    (now : ℤ) (request_type result_type : ℕ) (set_id matches_id : ℕ → ℕ) (callback : Option ℕ)
    (options : AwaitOptions) (e : EventEndpoint) (w : World)
    → IsSound w
    → IsSound (request now request_type result_type set_id matches_id callback options (w, e)).0.0
unfolding request await_once next_id
request-Sound now request_type result_type set_id matches_id callback options e w s =
    make_awaiter-Sound now result_type _ callback options true e (next_id w).0 s

step-Sound : (s : Step) (w : World) → IsSound w → IsSound (step s w)
unfolding step deliver new_endpoint
step-Sound (delivers payload matches a) w h =
    if_ind IsSound (w.bus.expired a) (λ t. h) (λ t. handle_event-Sound payload matches a w h)
step-Sound (polls now a) w h = poll_timeout-Sound now a w h
step-Sound (cancels a) w h = cancel-Sound a w h
step-Sound (destroys a) w h = destroy-Sound a w h
step-Sound (creates now event_type predicate callback options single_shot guard) w h =
    create-Sound now event_type predicate callback options single_shot guard w h
step-Sound makes_endpoint w h = taken w (suc (suc w.allocated)) h (omega arith)
step-Sound (awaits now event_type predicate callback options single_shot e) w h =
    make_awaiter-Sound now event_type predicate callback options single_shot e w h
step-Sound (requests now request_type result_type set_id matches_id callback options e) w h =
    request-Sound now request_type result_type set_id matches_id callback options e w h
step-Sound (closes e) w h = close-Sound e w h
step-Sound (changes bus flags) w h = h

steps-Sound : (history : List Step) (w : World) → IsSound w → IsSound (steps history w)
unfolding steps
steps-Sound [] w h = h
steps-Sound (s ∷ rest) w h = steps-Sound rest (step s w) (step-Sound s w h)

new_world-Sound : (bus : Bus) (flags : Flags) → IsSound (new_world bus flags)
unfolding fired_count timeout_count
new_world-Sound bus flags = record {
  bounded = λ a h. absurd (omega (arith, h));
  unmade = λ a h. (refl, refl);
}

-- In every history, the callback of a single-shot awaiter and its on_timeout are called at most once
-- in total, and not any more while the awaiter is active: an active one has not ended.
pub steps-once :
    (bus : Bus) (flags : Flags) (history : List Step) (a : ℕ)
    → let w = steps history (new_world bus flags) in
      ((w.awaiters a).single_shot ≡ false)
      ⊎ (fired_count a w.fired + timeout_count a w.timed_out + one_if (not (w.awaiters a).cancelled)
          ≤ 1)
steps-once bus flags history a =
    let w = steps history (new_world bus flags) in
    let s = steps-Sound history (new_world bus flags) (new_world-Sound bus flags) in
    elim (Bool-cases (ltb a w.allocated)) [
      | inl e ↦ s.bounded a (ground (arith, e))
      | inr e ↦ let free = s.unmade a (ground (arith, e)) in inr (omega (arith, free.0, free.1))
    ]
