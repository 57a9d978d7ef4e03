-- ===== src/Calendar/Clocks.antt =====
-- Local time and UTC with a clock of a fixed offset.
use event_hub_cpp.Prelude.{◌≡◌, ℤ, pos, ◌+ℤ◌, ◌-ℤ◌, ◌*ℤ◌, +ℤ_parts, -ℤ_parts, eq_of_parts, arith}
use event_hub_cpp.Calendar.TimeShield.{TimeShield, HasFixedOffset}
use event_hub_cpp.Calendar.Types.{CalendarTaskOptions}
use event_hub_cpp.Calendar.Detail.{utc_to_local_ms, local_to_utc_ms}

add_sub : (t k : ℤ) → (t +ℤ k) -ℤ k ≡ t
add_sub t k = eq_of_parts ((t +ℤ k) -ℤ k) t (omega (arith, +ℤ_parts t k, -ℤ_parts (t +ℤ k) k))

sub_add : (t k : ℤ) → (t -ℤ k) +ℤ k ≡ t
sub_add t k = eq_of_parts ((t -ℤ k) +ℤ k) t (omega (arith, -ℤ_parts t k, +ℤ_parts (t -ℤ k) k))

-- With a clock that has no named zone and whose offset does not depend on the time, the conversions
-- between UTC and local time are inverse to each other.
pub local_to_utc_ms-utc_to_local_ms :
    (ts : TimeShield) (options : CalendarTaskOptions) (t : ℤ)
    → HasFixedOffset ts options.clock
    → (local_to_utc_ms ts options (utc_to_local_ms ts options t) ≡ t)
      × (utc_to_local_ms ts options (local_to_utc_ms ts options t) ≡ t)
unfolding local_to_utc_ms utc_to_local_ms
local_to_utc_ms-utc_to_local_ms ts options t fixed =
    let shift : ℤ = ts.offset_at_utc_ms options.clock (pos 0) *ℤ ts.ms_per_sec in
    rw (fixed.0, fixed.1 t, fixed.1 (t -ℤ shift)) (add_sub t shift, sub_add t shift)
