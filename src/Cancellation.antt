-- ===== src/Cancellation.antt =====
-- CancellationToken and CancellationSource of include/event_hub/cancellation.hpp. The shared state
-- objects are named by numbers; a token or a source holds one, or none.
use event_hub_cpp.Prelude.{
  ℕ, suc, ◌<◌, ◌≡◌, ◌≢◌, refl, Bool, true, false, Option, none, some, write, ==_self, ne→==, arith,
}

-- The flags of the state objects, the first `allocated` of which have been made.
pub record Flags : Type 0 where
  pub cancelled : ℕ → Bool
  pub allocated : ℕ

-- The state that a token or a source shares.
abbrev pub CancellationToken : Type 0
CancellationToken = Option ℕ

abbrev pub CancellationSource : Type 0
CancellationSource = Option ℕ

abbrev pub empty_token : CancellationToken
empty_token = none

unfoldable pub is_cancelled : CancellationToken → Flags → Bool
is_cancelled none flags = false
is_cancelled (some state) flags = flags.cancelled state

abbrev pub has_state : CancellationToken → Bool
has_state none = false
has_state (some state) = true

-- make_shared<State>(): a new object with the flag false.
unfoldable pub make_state : Flags → Flags × CancellationSource
make_state flags = (
  record {
    cancelled = write flags.cancelled flags.allocated false;
    allocated = suc flags.allocated;
  },
  some flags.allocated,
)

unfoldable pub new_source : Flags → Flags × CancellationSource
unfolding make_state
new_source flags = make_state flags

unfoldable pub token : CancellationSource → CancellationToken
token source = source

unfoldable pub cancel : CancellationSource → Flags → Flags
cancel none flags = flags
cancel (some state) flags = record flags { cancelled = write flags.cancelled state true }

unfoldable pub reset : Flags → Flags × CancellationSource
unfolding make_state
reset flags = make_state flags

-- A state object that has been made, if there is one.
abbrev pub IsShared : Flags → CancellationToken → Type 0
IsShared flags none = Unit
IsShared flags (some state) = state < flags.allocated

-- cancel() of a source that holds a state cancels the tokens of the source, and no token that
-- shares another state.
pub cancel-token :
    (state : ℕ) (flags : Flags) (other : CancellationToken)
    → some state ≢ other
    → (is_cancelled (token (some state)) (cancel (some state) flags) ≡ true)
      × (is_cancelled other (cancel (some state) flags) ≡ is_cancelled other flags)
unfolding is_cancelled token cancel
cancel-token state flags none ne = (rw (==_self state) refl, refl)
cancel-token state flags (some other) ne =
    (rw (==_self state) refl, rw (ne→== state other (λ same. ne (rw same refl))) refl)

-- reset() gives the source a state that is not cancelled, which no earlier token shares: the earlier
-- tokens answer as before, and a cancel() of the reset source does not reach them.
pub reset-token :
    (flags : Flags) (earlier : CancellationToken)
    → IsShared flags earlier
    → let (after, source) = reset flags in
      (is_cancelled (token source) after ≡ false)
      × (is_cancelled earlier after ≡ is_cancelled earlier flags)
      × (is_cancelled earlier (cancel source after) ≡ is_cancelled earlier flags)
unfolding reset is_cancelled token cancel make_state
reset-token flags none shared = (rw (==_self flags.allocated) refl, refl, refl)
reset-token flags (some state) shared =
    let apart = ne→== flags.allocated state (λ same. omega (arith, same, shared)) in
    (rw (==_self flags.allocated) refl, rw apart refl, rw apart refl)
