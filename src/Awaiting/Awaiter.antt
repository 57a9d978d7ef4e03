-- ===== src/Awaiting/Awaiter.antt =====
-- EventAwaiter of include/event_hub/event_awaiter.hpp. Awaiters, endpoints and their guards are named
-- by their addresses, which are given out in turn. A predicate only answers, and what a callback
-- does when it is called follows as further calls.
use event_hub_cpp.Prelude.{
  ℕ, suc, ◌==◌, ℤ, pos, ◌+ℤ◌, ◌*ℤ◌, ltb_ℤ, leb_ℤ, if◌then◌else◌, Bool, true, false, not, ◌&&◌,
  Option, none, some, List, [], ◌∷◌, write,
}
use event_hub_cpp.Cancellation.{Flags, CancellationToken, is_cancelled}
use event_hub_cpp.EventBus.Types.{Bus}
use event_hub_cpp.EventBus.Subscriptions.{subscribe, subscribe_guarded, unsubscribe}
use event_hub_cpp.EventBus.Dispatch.{register_awaiter}

-- `timeout` is in ticks of the steady clock.
pub record AwaitOptions : Type 0 where
  pub timeout : ℤ
  pub token : CancellationToken
  pub on_timeout : Option ℕ

abbrev pub default_await_options : AwaitOptions
default_await_options = record { timeout = pos 0; token = none; on_timeout = none }

-- `ticks_per_ms` is the number of ticks of the steady clock in a millisecond.
unfoldable pub set_timeout_ms : (ticks_per_ms : ℕ) → (timeout_ms : ℤ) → AwaitOptions → AwaitOptions
set_timeout_ms ticks_per_ms timeout_ms options = record options {
  timeout = timeout_ms *ℤ ticks_per_ms;
}

unfoldable pub timeout_ms : (ticks_per_ms : ℕ) → (timeout_ms : ℤ) → AwaitOptions
unfolding set_timeout_ms
timeout_ms ticks_per_ms ms = set_timeout_ms ticks_per_ms ms default_await_options

-- `deadline` is m_deadline if m_has_deadline is set; `retained` tells whether m_retain_self is set.
pub record Awaiter : Type 0 where
  pub subscription_id : ℕ
  pub predicate : Option ℕ
  pub callback : Option ℕ
  pub options : AwaitOptions
  pub single_shot : Bool
  pub has_subscription_guard : Bool
  pub subscription_guard : ℕ
  pub deadline : Option ℤ
  pub cancelled : Bool
  pub retained : Bool

-- `fired` records the awaiters whose callback was called with the payloads, and `timed_out` those
-- whose on_timeout was called, the latest first.
pub record World : Type 0 where
  pub bus : Bus
  pub flags : Flags
  pub awaiters : ℕ → Awaiter
  pub allocated : ℕ
  pub fired : List (ℕ × ℕ)
  pub timed_out : List ℕ

-- At an address without an awaiter.
abbrev pub no_awaiter : Awaiter
no_awaiter = record {
  subscription_id = 0;
  predicate = none;
  callback = none;
  options = default_await_options;
  single_shot = true;
  has_subscription_guard = false;
  subscription_guard = 0;
  deadline = none;
  cancelled = true;
  retained = false;
}

abbrev pub new_world : Bus → Flags → World
new_world bus flags = record {
  bus = bus;
  flags = flags;
  awaiters = λ a. no_awaiter;
  allocated = 0;
  fired = [];
  timed_out = [];
}

unfoldable pub set_awaiter : ℕ → Awaiter → World → World
set_awaiter a x w = record w { awaiters = write w.awaiters a x }

-- The bus sees whether an awaiter is active.
abbrev pub set_finished : ℕ → Bool → Bus → Bus
set_finished a flag bus = record bus { finished = write bus.finished a flag }

abbrev pub unsubscribe_own : ℕ → Bus → Bus
unsubscribe_own subscription_id bus =
    if subscription_id == 0 then bus else unsubscribe subscription_id bus

unfoldable pub cancel_awaiter : ℕ → World → World
unfolding set_awaiter
cancel_awaiter a w =
    let x = w.awaiters a in
    if x.cancelled
    then w
    else record (set_awaiter a
        (record x { cancelled = true; subscription_id = 0; retained = false }) w) {
          bus = unsubscribe_own x.subscription_id (set_finished a true w.bus);
        }

unfoldable pub is_active : ℕ → World → Bool
is_active a w = not (w.awaiters a).cancelled

-- The call of `on_timeout`, which was moved out of the options.
abbrev pub call_timeout : ℕ → Option ℕ → World → World
call_timeout a none w = w
call_timeout a (some fn) w = record w { timed_out = a ∷ w.timed_out }

abbrev pub has_passed : Option ℤ → (now : ℤ) → Bool
has_passed none now = false
has_passed (some deadline) now = leb_ℤ deadline now

unfoldable pub poll_timeout : (now : ℤ) → ℕ → World → World
unfolding is_active cancel_awaiter set_awaiter
poll_timeout now a w =
    let x = w.awaiters a in
    if not (is_active a w)
    then w
    else if is_cancelled x.options.token w.flags
    then cancel_awaiter a w
    else if has_passed x.deadline now
    then call_timeout a x.options.on_timeout (
        cancel_awaiter a
          (set_awaiter a (record x { options = record x.options { on_timeout = none } }) w))
    else w

abbrev pub call_callback : ℕ → (payload : ℕ) → Option ℕ → World → World
call_callback a payload none w = w
call_callback a payload (some fn) w = record w { fired = (a, payload) ∷ w.fired }

abbrev pub has_predicate : Option ℕ → Bool
has_predicate none = false
has_predicate (some fn) = true

-- `matches` is the answer of the predicate.
unfoldable pub handle_event : (payload : ℕ) → (matches : Bool) → ℕ → World → World
unfolding is_active cancel_awaiter
handle_event payload matches a w =
    let x = w.awaiters a in
    if not (is_active a w)
    then w
    else if is_cancelled x.options.token w.flags
    then cancel_awaiter a w
    else if has_predicate x.predicate && not matches
    then w
    else call_callback a payload x.callback (if x.single_shot then cancel_awaiter a w else w)

-- The callback that the bus holds, which has a weak pointer to the awaiter.
unfoldable pub deliver : (payload : ℕ) → (matches : Bool) → ℕ → World → World
unfolding handle_event
deliver payload matches a w = if w.bus.expired a then w else handle_event payload matches a w

-- The destructor, after which the weak pointers to the awaiter are expired.
unfoldable pub destroy_awaiter : ℕ → World → World
unfolding cancel_awaiter
destroy_awaiter a w =
    let w₁ = cancel_awaiter a w in
    record w₁ { bus = record w₁.bus { expired = write w₁.bus.expired a true } }

-- The constructor; `now` is the reading of the steady clock.
abbrev pub construct :
    (now : ℤ)
    → (predicate callback : Option ℕ) → AwaitOptions
    → (single_shot : Bool) → (guard : Option ℕ) → Awaiter
construct now predicate callback options single_shot guard = record {
  subscription_id = 0;
  predicate = predicate;
  callback = callback;
  options = options;
  single_shot = single_shot;
  has_subscription_guard = elim guard [ none ↦ false | some g ↦ true ];
  subscription_guard = elim guard [ none ↦ 0 | some g ↦ g ];
  deadline = if ltb_ℤ (pos 0) options.timeout then some (now +ℤ options.timeout) else none;
  cancelled = false;
  retained = false;
}

-- The awaiter is the owner of its subscription, and names the callback that it subscribes.
unfoldable pub subscribe_internal : (event_type : ℕ) → ℕ → World → World
unfolding set_awaiter
subscribe_internal event_type a w =
    let x = w.awaiters a in
    let (bus, id) =
      if x.has_subscription_guard
      then subscribe_guarded event_type a x.subscription_guard a w.bus
      else subscribe event_type a a w.bus in
    record (set_awaiter a (record x { retained = x.single_shot; subscription_id = id }) w) {
      bus = bus;
    }

-- create() without a guard, and with one; the address of the new awaiter is the second result.
unfoldable pub create :
    (now : ℤ)
    → (event_type : ℕ) → (predicate callback : Option ℕ) → AwaitOptions
    → (single_shot : Bool) → (guard : Option ℕ) → World
    → World × ℕ
unfolding subscribe_internal
create now event_type predicate callback options single_shot guard w =
    let a = w.allocated in
    let x = construct now predicate callback options single_shot guard in
    let live = record w.bus {
      expired = write w.bus.expired a false;
      finished = write w.bus.finished a false;
    } in
    let made = record w { awaiters = write w.awaiters a x; allocated = suc a; bus = live } in
    let subscribed = subscribe_internal event_type a made in
    (record subscribed { bus = register_awaiter (some a) subscribed.bus }, a)
