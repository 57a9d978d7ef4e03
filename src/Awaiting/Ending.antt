-- ===== src/Awaiting/Ending.antt =====
-- What an awaiter does keeps that a single-shot awaiter ends once.
use event_hub_cpp.Prelude.{
  ℕ, ◌+◌, ◌==◌, ◌≡◌, refl, inr, ℤ, Bool, true, false, not, ◌&&◌, Option, none, some, ◌∷◌, write,
  ==_self, if◌then◌else◌, if_ind, arith,
}
use event_hub_cpp.Cancellation.{is_cancelled}
use event_hub_cpp.Awaiting.Awaiter.{
  World, set_awaiter, cancel_awaiter, is_active, call_timeout, has_passed, poll_timeout,
  call_callback, has_predicate, handle_event,
}
use event_hub_cpp.Awaiting.Single.{
  one_if, fired_count, timeout_count, ends, IsSingle, IsSound, quiet, cancel-Sound, ends_once,
  ends_again,
}

-- cancel() of an active awaiter, and then the end of it.
cancel_ended :
    (b : ℕ) (w : World) (ended' : ℕ → ℕ)
    → IsSound w
    → (w.awaiters b).cancelled ≡ false
    → ((a : ℕ) → ended' a ≡ one_if (b == a) + ends w a)
    → IsSingle (cancel_awaiter b w).awaiters (cancel_awaiter b w).allocated ended'
unfolding cancel_awaiter set_awaiter
cancel_ended b w ended' s live more =
    let x = w.awaiters b in
    if_ind (λ (c : World). IsSingle c.awaiters c.allocated ended') x.cancelled (λ t. cc)
      (λ t.
        ends_once w b (record x { cancelled = true; subscription_id = 0; retained = false }) ended'
          s live more refl (inr refl))

cancel_fired : (b : ℕ) (w : World) → (cancel_awaiter b w).fired ≡ w.fired
unfolding cancel_awaiter set_awaiter
cancel_fired b w =
    if_ind (λ (c : World). c.fired ≡ w.fired) (w.awaiters b).cancelled (λ t. refl) (λ t. refl)

cancel_timed_out : (b : ℕ) (w : World) → (cancel_awaiter b w).timed_out ≡ w.timed_out
unfolding cancel_awaiter set_awaiter
cancel_timed_out b w =
    if_ind (λ (c : World). c.timed_out ≡ w.timed_out) (w.awaiters b).cancelled (λ t. refl)
      (λ t. refl)

call_timeout-Sound :
    (b : ℕ) (on_timeout : Option ℕ) (w : World)
    → IsSound w
    → (w.awaiters b).cancelled ≡ false
    → IsSound (call_timeout b on_timeout (cancel_awaiter b w))
unfolding timeout_count
call_timeout-Sound b none w s live = cancel-Sound b w s
call_timeout-Sound b (some fn) w s live =
    cancel_ended b w _ s live (λ a. rw (cancel_fired b w, cancel_timed_out b w) (omega arith))

pub poll_timeout-Sound : (now : ℤ) (b : ℕ) (w : World) → IsSound w → IsSound (poll_timeout now b w)
unfolding poll_timeout is_active set_awaiter
poll_timeout-Sound now b w s =
    let x = w.awaiters b in
    let y = record x { options = record x.options { on_timeout = none } } in
    if_ind IsSound (not (not x.cancelled)) (λ t. s)
      (λ live.
        if_ind IsSound (is_cancelled x.options.token w.flags) (λ t. cancel-Sound b w s)
          (λ t.
            if_ind IsSound (has_passed x.deadline now)
              (λ k.
                call_timeout-Sound b x.options.on_timeout
                  (record w { awaiters = write w.awaiters b y }) (quiet w b y s refl (omega arith))
                  (rw (==_self b) (ground (arith, live))))
              (λ k. s)))

pub handle_event-Sound :
    (payload : ℕ) (matches : Bool) (b : ℕ) (w : World)
    → IsSound w
    → IsSound (handle_event payload matches b w)
unfolding handle_event is_active fired_count
handle_event-Sound payload matches b w s =
    let x = w.awaiters b in
    if_ind IsSound (not (not x.cancelled)) (λ t. s)
      (λ live.
        if_ind IsSound (is_cancelled x.options.token w.flags) (λ t. cancel-Sound b w s)
          (λ t.
            if_ind IsSound (has_predicate x.predicate && not matches) (λ k. s)
              (λ k. called x.callback (ground (arith, live)))))
  where
    fires :
        (fn : ℕ)
        → (w.awaiters b).cancelled ≡ false
        → IsSound (
            call_callback b payload
              (some fn)
              (if (w.awaiters b).single_shot then cancel_awaiter b w else w))
    fires fn live =
        if_ind (λ (c : World). IsSound (record c { fired = (b, payload) ∷ c.fired }))
          (w.awaiters b).single_shot
          (λ t.
            cancel_ended b w _ s live
              (λ a. rw (cancel_fired b w, cancel_timed_out b w) (omega arith)))
          (λ t. ends_again w b _ s live t (λ a. omega arith))

    called :
        (callback : Option ℕ)
        → (w.awaiters b).cancelled ≡ false
        → IsSound (
            call_callback b payload callback
              (if (w.awaiters b).single_shot then cancel_awaiter b w else w))
    called none live = if_ind IsSound (w.awaiters b).single_shot (λ t. cancel-Sound b w s) (λ t. s)
    called (some fn) live = fires fn live
