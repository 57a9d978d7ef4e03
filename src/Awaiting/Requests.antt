-- ===== src/Awaiting/Requests.antt =====
-- request_future() of include/event_hub/event_endpoint.hpp, and Reply of request.hpp.
use event_hub_cpp.Prelude.{
  ℕ, ℤ, ◌≡◌, ◌∙◌, refl, if_ind, if◌then◌else◌, Bool, true, false, Option, none, some, List, [], ◌∷◌,
}
use event_hub_cpp.Request.{invalid_request_id}
use event_hub_cpp.EventBus.Types.{next_request_id}
use event_hub_cpp.Awaiting.Awaiter.{AwaitOptions, World}
use event_hub_cpp.Awaiting.Endpoint.{EventEndpoint, next_id, request}

-- What a promise was given: a value, or a RequestTimeoutError with an id.
pub data Settlement : Type 0 where
  value : (payload : ℕ) → Settlement
  timeout_error : (id : ℕ) → Settlement

-- The objects that the two callbacks of request_future() share. `settled` records what the promise
-- was given and `user_calls` the calls of the user's on_timeout, the latest first.
pub record Pending : Type 0 where
  pub completed : Bool
  pub request_id : ℕ
  pub user_on_timeout : Option ℕ
  pub settled : List Settlement
  pub user_calls : List ℕ

-- compare_exchange_strong of `completed`, and the promise if it succeeds.
unfoldable pub complete : Settlement → Pending → Pending
complete s p = if p.completed then p else record p { completed = true; settled = s ∷ p.settled }

unfoldable pub on_result : (payload : ℕ) → Pending → Pending
unfolding complete
on_result payload p = complete (value payload) p

abbrev pub call_user : Option ℕ → Pending → Pending
call_user none p = p
call_user (some fn) p = record p { user_calls = fn ∷ p.user_calls }

unfoldable pub on_timeout : Pending → Pending
unfolding complete
on_timeout p = call_user p.user_on_timeout (complete (timeout_error p.request_id) p)

-- Results and timeouts, in the order in which they arrive.
pub data Arrival : Type 0 where
  result : (payload : ℕ) → Arrival
  timeout : Arrival

unfoldable pub arrive : Arrival → Pending → Pending
unfolding on_result on_timeout
arrive (result payload) p = on_result payload p
arrive timeout p = on_timeout p

unfoldable pub arrive_all : List Arrival → Pending → Pending
unfolding arrive
arrive_all [] p = p
arrive_all (x ∷ rest) p = arrive_all rest (arrive x p)

-- The shared objects as request_future() makes them: the id is invalid_request_id.
unfoldable pub new_pending : AwaitOptions → Pending
new_pending options = record {
  completed = false;
  request_id = invalid_request_id;
  user_on_timeout = options.on_timeout;
  settled = [];
  user_calls = [];
}

-- `result_fn` and `timeout_fn` name the two callbacks. The id is stored only when request() has
-- returned; `early` are the results and timeouts that other threads deliver before.
unfoldable pub request_future :
    (now : ℤ)
    → (request_type result_type : ℕ) → (set_id matches_id : ℕ → ℕ) → (result_fn timeout_fn : ℕ)
    → AwaitOptions
    → List Arrival
    → World × EventEndpoint
    → (World × EventEndpoint) × Pending
unfolding request new_pending arrive_all
request_future now request_type result_type set_id matches_id result_fn timeout_fn options early s =
    let (s', id) =
      request now request_type result_type set_id matches_id (some result_fn)
        (record options { on_timeout = some timeout_fn }) s in
    (s', record (arrive_all early (new_pending options)) { request_id = id })

pub outcome : (id : ℕ) → Arrival → Settlement
outcome id (result payload) = value payload
outcome id timeout = timeout_error id

call_user_settled : (fn : Option ℕ) (p : Pending) → (call_user fn p).settled ≡ p.settled
call_user_settled none p = refl
call_user_settled (some fn) p = refl

call_user_completed : (fn : Option ℕ) (p : Pending) → (call_user fn p).completed ≡ p.completed
call_user_completed none p = refl
call_user_completed (some fn) p = refl

complete_done : (s : Settlement) (p : Pending) → p.completed ≡ true → complete s p ≡ p
unfolding complete
complete_done s p h = if_ind (λ (q : Pending). q ≡ p) p.completed (λ t. refl) (λ t. cc)

arrive_done :
    (x : Arrival) (p : Pending)
    → p.completed ≡ true
    → ((arrive x p).completed ≡ true) × ((arrive x p).settled ≡ p.settled)
unfolding arrive on_result on_timeout
arrive_done (result payload) p h = rw (complete_done (value payload) p h) (h, refl)
arrive_done timeout p h =
    rw (complete_done (timeout_error p.request_id) p h)
      (call_user_completed p.user_on_timeout p ∙ h, call_user_settled p.user_on_timeout p)

arrive_all_done :
    (history : List Arrival) (p : Pending)
    → p.completed ≡ true
    → ((arrive_all history p).completed ≡ true) × ((arrive_all history p).settled ≡ p.settled)
unfolding arrive_all
arrive_all_done [] p h = (h, refl)
arrive_all_done (x ∷ rest) p h =
    let (done, same) = arrive_done x p h in
    let (still, kept) = arrive_all_done rest (arrive x p) done in (still, kept ∙ same)

arrive-settled :
    (x : Arrival) (p : Pending)
    → p.completed ≡ false
    → p.settled ≡ []
    → ((arrive x p).completed ≡ true) × ((arrive x p).settled ≡ outcome p.request_id x ∷ [])
unfolding arrive on_result on_timeout complete outcome
arrive-settled (result payload) p fresh empty = rw (fresh, empty) (refl, refl)
arrive-settled timeout p fresh empty =
    let c = complete (timeout_error p.request_id) p in
    (
      call_user_completed p.user_on_timeout c ∙ rw fresh refl,
      call_user_settled p.user_on_timeout c ∙ rw (fresh, empty) refl,
    )

-- The first arrival settles the promise.
arrive_all-settled :
    (first : Arrival) (rest : List Arrival) (p : Pending)
    → p.completed ≡ false
    → p.settled ≡ []
    → ((arrive_all (first ∷ rest) p).completed ≡ true)
      × ((arrive_all (first ∷ rest) p).settled ≡ outcome p.request_id first ∷ [])
unfolding arrive_all
arrive_all-settled first rest p fresh empty =
    let (done, one) = arrive-settled first p fresh empty in
    let (still, same) = arrive_all_done rest (arrive first p) done in (still, same ∙ one)

-- What the promise is given when `early` arrive before the id of the request is stored and `late`
-- after it.
abbrev pub first_outcome : (id : ℕ) (early late : List Arrival) → List Settlement
first_outcome id (x ∷ early) late = outcome invalid_request_id x ∷ []
first_outcome id [] (x ∷ late) = outcome id x ∷ []
first_outcome id [] [] = []

-- However results and timeouts follow each other, the promise of a request_future() is given at
-- most one outcome, the one of the first of them. A timeout gives the error with the id that the
-- bus drew for the request, or the invalid id 0 when it came before request() returned.
pub arrive_all-request_future :
    (now : ℤ) (request_type result_type : ℕ) (set_id matches_id : ℕ → ℕ) (result_fn timeout_fn : ℕ)
    (options : AwaitOptions) (early late : List Arrival) (w : World) (e : EventEndpoint)
    → let (s', p) =
        request_future now request_type result_type set_id matches_id result_fn timeout_fn options
          early
          (w, e) in
      (arrive_all late p).settled ≡ first_outcome (next_request_id w.bus).1 early late
unfolding request_future new_pending arrive_all request next_id
arrive_all-request_future now request_type result_type set_id matches_id result_fn timeout_fn
      options (x ∷ early) late w e =
    let (done, one) = arrive_all-settled x early (new_pending options) refl refl in
    (arrive_all_done late _ done).1 ∙ one
arrive_all-request_future now request_type result_type set_id matches_id result_fn timeout_fn
      options [] [] w e =
    refl
arrive_all-request_future now request_type result_type set_id matches_id result_fn timeout_fn
      options [] (x ∷ late) w e =
    let id = (next_request_id w.bus).1 in
    (arrive_all-settled x late (record (new_pending options) { request_id = id }) refl refl).1

-- Reply: `none` is an empty m_callback, `some none` one that holds an empty function.
abbrev pub Reply : Type 0
Reply = Option (Option ℕ)

unfoldable pub reply_to : Option ℕ → Reply
reply_to callback = some callback

-- The function that operator() calls, if any.
unfoldable pub call_reply : Reply → Option ℕ
call_reply none = none
call_reply (some callback) = callback

unfoldable pub has_callback : Reply → Bool
has_callback none = false
has_callback (some none) = false
has_callback (some (some fn)) = true

unfoldable pub reset_reply : Reply → Reply
reset_reply reply = none
