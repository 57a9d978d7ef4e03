-- ===== src/Tests.antt =====
-- Concrete tokens and notifiers on which the theorems about them are applied.
use event_hub_cpp.Prelude.{◌≡◌, true, false, some, arith}
use event_hub_cpp.Cancellation.{
  Flags, is_cancelled, token, cancel, reset, cancel-token, reset-token,
}
use event_hub_cpp.Notifier.{new_notifier, notify_times, generation, wait_returns, notify-wait}

-- Two states, neither cancelled.
abbrev two_flags : Flags
two_flags = record { cancelled = λ s. false; allocated = 2 }

cancel-token_example :
    (is_cancelled (token (some 0)) (cancel (some 0) two_flags) ≡ true)
    × (is_cancelled (some 1) (cancel (some 0) two_flags) ≡ is_cancelled (some 1) two_flags)
cancel-token_example = cancel-token 0 two_flags (some 1) (λ same. ground (arith, same))

reset-token_example :
    (is_cancelled (token (reset two_flags).1) (reset two_flags).0 ≡ false)
    × (is_cancelled (some 0) (reset two_flags).0 ≡ is_cancelled (some 0) two_flags)
    × (is_cancelled (some 0) (cancel (reset two_flags).1 (reset two_flags).0)
        ≡ is_cancelled (some 0) two_flags)
reset-token_example = reset-token two_flags (some 0) (omega arith)

notify-wait_example : wait_returns (generation new_notifier) (notify_times 3 new_notifier) ≡ true
notify-wait_example = notify-wait 3 new_notifier (omega arith) (omega arith) (omega arith)
