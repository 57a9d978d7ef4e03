-- ===== src/Notifier.antt =====
-- SyncNotifier of include/event_hub/notifier.hpp: the generation that notify() advances and that a
-- waiter compares. The waits of the condition variable end only when the predicate holds or the
-- time is over, so the model has their predicate and their results.
use event_hub_cpp.Prelude.{
  ℕ, zero, suc, ◌+◌, ◌%◌, ◌<◌, ◌≡◌, ◌==◌, Bool, true, not, add_one64, u64_mod, arith,
}

pub record SyncNotifier : Type 0 where
  pub current : ℕ

abbrev pub new_notifier : SyncNotifier
new_notifier = record { current = 0 }

unfoldable pub notify : SyncNotifier → SyncNotifier
notify n = record { current = add_one64 n.current }

unfoldable pub generation : SyncNotifier → ℕ
generation n = n.current

-- The predicate of the waits.
unfoldable pub is_newer : (old_generation : ℕ) → SyncNotifier → Bool
is_newer old_generation n = not (n.current == old_generation)

-- wait() returns in the states in which the predicate holds.
abbrev pub wait_returns : (old_generation : ℕ) → SyncNotifier → Bool
wait_returns old_generation n = is_newer old_generation n

-- The result of wait_for(): the value of the predicate in the state in which it returns.
abbrev pub wait_for : (old_generation : ℕ) → SyncNotifier → Bool
wait_for old_generation n = is_newer old_generation n

abbrev pub wait_for_ms : (old_generation : ℕ) → SyncNotifier → Bool
wait_for_ms old_generation n = wait_for old_generation n

unfoldable pub notify_times : ℕ → SyncNotifier → SyncNotifier
unfolding notify
notify_times zero n = n
notify_times (suc k) n = notify (notify_times k n)

notify_times-generation :
    (k : ℕ) (n : SyncNotifier)
    → n.current < u64_mod
    → (notify_times k n).current ≡ (n.current + k) % u64_mod
unfolding notify_times notify
notify_times-generation zero n small = omega arith
notify_times-generation (suc k) n small = omega (arith, notify_times-generation k n small)

-- No wake-up is lost: a waiter that has read the generation returns from its wait without blocking
-- when one or more, but fewer than 2^64, notifications came since, however they fell before the
-- wait.
pub notify-wait :
    (k : ℕ) (n : SyncNotifier)
    → n.current < u64_mod
    → 0 < k
    → k < u64_mod
    → wait_returns (generation n) (notify_times k n) ≡ true
unfolding generation is_newer
notify-wait k n small pos below = ground (arith, notify_times-generation k n small)
