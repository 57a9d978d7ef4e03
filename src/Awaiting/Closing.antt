-- ===== src/Awaiting/Closing.antt =====
-- What close() of an endpoint leaves.
use event_hub_cpp.Prelude.{
  ℕ, ◌==◌, ◌≡◌, ◌≢◌, ◌∙◌, refl, inl, inr, true, false, List, [], ◌∷◌, All, remove_if, Bool-cases,
  ==→ne, ==_self, if_ind,
}
use event_hub_cpp.EventBus.Types.{CallbackRecord, Bus}
use event_hub_cpp.EventBus.Subscriptions.{unsubscribe_all, unsubscribe}
use event_hub_cpp.EventBus.Removal.{registered, unsubscribe-registered}
use event_hub_cpp.Awaiting.Awaiter.{World, set_awaiter, cancel_awaiter, unsubscribe_own}
use event_hub_cpp.Awaiting.Endpoint.{
  EventEndpoint, set_expired, cancel_each, cancel_awaiters, unsubscribe_endpoint, close,
}

abbrev pub IsCancelled : World → ℕ → Type 0
IsCancelled w a = (w.awaiters a).cancelled ≡ true

cancel_awaiter-IsCancelled : (a : ℕ) (w : World) → IsCancelled (cancel_awaiter a w) a
unfolding cancel_awaiter set_awaiter
cancel_awaiter-IsCancelled a w =
    if_ind (λ (c : World). IsCancelled c a) (w.awaiters a).cancelled (λ t. t)
      (λ t. rw (==_self a) refl)

IsCancelled-later : (a b : ℕ) (w : World) → IsCancelled w b → IsCancelled (cancel_awaiter a w) b
unfolding cancel_awaiter set_awaiter
IsCancelled-later a b w h =
    if_ind (λ (c : World). IsCancelled c b) (w.awaiters a).cancelled (λ t. h)
      (λ t. elim (Bool-cases (a == b)) [ inl e ↦ rw e refl | inr e ↦ rw e h ])

IsCancelled-cancel_each :
    (items : List ℕ) (b : ℕ) (w : World) → IsCancelled w b → IsCancelled (cancel_each items w) b
unfolding cancel_each
IsCancelled-cancel_each [] b w h = h
IsCancelled-cancel_each (a ∷ rest) b w h =
    IsCancelled-cancel_each rest b (cancel_awaiter a w) (IsCancelled-later a b w h)

cancel_each-IsCancelled :
    (items : List ℕ) (w : World) → All (IsCancelled (cancel_each items w)) items
unfolding cancel_each
cancel_each-IsCancelled [] w = tt
cancel_each-IsCancelled (a ∷ rest) w = (
  IsCancelled-cancel_each rest a (cancel_awaiter a w) (cancel_awaiter-IsCancelled a w),
  cancel_each-IsCancelled rest (cancel_awaiter a w),
)

unsubscribe_own_expired : (id : ℕ) (bus : Bus) → (unsubscribe_own id bus).expired ≡ bus.expired
unfolding unsubscribe
unsubscribe_own_expired id bus =
    if_ind (λ (b : Bus). b.expired ≡ bus.expired) (id == 0) (λ t. refl) (λ t. refl)

cancel_awaiter_expired : (a : ℕ) (w : World) → (cancel_awaiter a w).bus.expired ≡ w.bus.expired
unfolding cancel_awaiter set_awaiter
cancel_awaiter_expired a w =
    if_ind (λ (c : World). c.bus.expired ≡ w.bus.expired) (w.awaiters a).cancelled (λ t. refl)
      (λ t. unsubscribe_own_expired (w.awaiters a).subscription_id _)

cancel_each_expired :
    (items : List ℕ) (w : World) → (cancel_each items w).bus.expired ≡ w.bus.expired
unfolding cancel_each
cancel_each_expired [] w = refl
cancel_each_expired (a ∷ rest) w =
    cancel_each_expired rest (cancel_awaiter a w) ∙ cancel_awaiter_expired a w

removed-All :
    (owner : ℕ) (records : List CallbackRecord)
    → All (λ r. r.owner ≢ owner) (remove_if (λ r. r.owner == owner) records)
removed-All owner [] = tt
removed-All owner (r ∷ rest) = elim (Bool-cases (r.owner == owner)) [
  | inl e ↦ rw e (removed-All owner rest)
  | inr e ↦ rw e (==→ne r.owner owner e, removed-All owner rest)
]

-- After close() of an endpoint that was open, every awaiter that it held is cancelled, no type has a
-- subscription of the endpoint any more, the endpoint is closed and holds no awaiter, and its guard
-- is expired.
pub close-releases :
    (w : World) (e : EventEndpoint) (event_type : ℕ)
    → e.closed ≡ false
    → let (w', e') = close (w, e) in
      All (IsCancelled w') e.awaiters
      × All (λ r. r.owner ≢ e.address) (registered w'.bus event_type)
      × (e'.closed ≡ true)
      × (e'.awaiters ≡ [])
      × (w'.bus.expired e.guard ≡ true)
unfolding close cancel_awaiters unsubscribe_endpoint unsubscribe_all
close-releases w e event_type was_open =
    let shut = set_expired e.guard true w in
    let after = cancel_each e.awaiters shut in
    let gone : All (λ r. r.owner ≢ e.address)
        (registered (unsubscribe_all e.address after.bus) event_type) =
      rw (unsubscribe-registered 0 e.address 0 event_type after.bus).1
        (removed-All e.address (registered after.bus event_type)) in
    rw was_open (
      cancel_each-IsCancelled e.awaiters shut,
      gone,
      refl,
      refl,
      rw (cancel_each_expired e.awaiters shut) (rw (==_self e.guard) refl),
    )
