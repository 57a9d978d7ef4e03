-- ===== src/Calendar/TimeShield.antt =====
-- What include/event_hub/calendar_scheduler uses of the library time-shield: a parameter of the
-- model. Clocks and zones are objects of that library, named by numbers.
use event_hub_cpp.Prelude.{ℕ, ◌*◌, ◌<◌, ℤ, pos, ◌≡◌, Bool, false}

pub record LocalTime : Type 0 where
  pub hour : ℤ
  pub minute : ℤ
  pub second : ℤ
  pub ms : ℤ

-- The part of DateTimeStruct that names a day; the day of a month is not negative.
pub record Date : Type 0 where
  pub year : ℤ
  pub mon : ℕ
  pub day : ℕ

pub record TimeShield : Type 0 where
  pub ms_per_sec : ℕ
  pub ms_per_day : ℕ
  pub max_sec_per_day : ℕ
  pub sun : ℕ
  pub sat : ℕ
  pub error_timestamp : ℤ
  pub is_valid_time : LocalTime → Bool
  pub sec_of_day : (hour minute second : ℤ) → ℤ
  pub date_of : ℤ → Date
  pub to_timestamp_ms : Date → ℤ
  pub day_of_week_date : Date → ℕ
  pub default_clock : ℕ
  pub offset_clock : ℤ → ℕ
  pub set_zone : (clock zone : ℕ) → ℕ
  pub has_named_zone : ℕ → Bool
  pub offset_at_utc_ms : ℕ → ℤ → ℤ
  pub gmt_to_zone_ms : ℤ → ℕ → ℤ
  pub zone_to_gmt_ms : ℤ → ℕ → ℤ

-- The last second of a day begins before the day ends.
abbrev pub HasLastSecond : TimeShield → Type 0
HasLastSecond ts = ts.max_sec_per_day * ts.ms_per_sec < ts.ms_per_day

-- The clock has no named zone, and its offset does not depend on the time.
abbrev pub HasFixedOffset : TimeShield → ℕ → Type 0
HasFixedOffset ts clock =
    (ts.has_named_zone clock ≡ false)
    × ((t : ℤ) → ts.offset_at_utc_ms clock t ≡ ts.offset_at_utc_ms clock (pos 0))
