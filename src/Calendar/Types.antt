-- ===== src/Calendar/Types.antt =====
-- include/event_hub/calendar_scheduler/types.hpp.
use event_hub_cpp.Prelude.{
  ℕ, ◌-◌, ◌%◌, ◌==◌, ltb, leb, ℤ, pos, negsuc, ◌+ℤ◌, ◌*ℤ◌, leb_ℤ, eqb_ℤ, if◌then◌else◌, Bool, ◌&&◌,
  Option, none, List, [], ◌∷◌, ◌++◌,
}
use event_hub_cpp.Task.{TaskPriority, normal}
use event_hub_cpp.Calendar.TimeShield.{LocalTime, TimeShield}

-- static_cast<std::int16_t>.
abbrev pub signed16 : ℕ → ℤ
signed16 r = if ltb r 32768 then pos r else negsuc (65535 - r)

unfoldable pub int16 : ℤ → ℤ
int16 (pos n) = signed16 (n % 65536)
int16 (negsuc n) = signed16 (65535 - n % 65536)

unfoldable pub time_of_day : (hour minute second millisecond : ℤ) → LocalTime
unfolding int16
time_of_day hour minute second millisecond = record {
  hour = int16 hour;
  minute = int16 minute;
  second = int16 second;
  ms = int16 millisecond;
}

pub data CalendarMissedRunPolicy : Type 0 where
  skip_missed run_once_immediately : CalendarMissedRunPolicy

pub data CalendarOverlapPolicy : Type 0 where
  skip_overlap queue_one_after_current : CalendarOverlapPolicy

pub data CalendarObserverEvent : Type 0 where
  created scheduled due before_callback after_callback missed cancelled : CalendarObserverEvent

pub record CalendarObserverInfo : Type 0 where
  pub id : ℕ
  pub scheduled_task_id : ℕ
  pub planned_utc_ms : ℤ
  pub observed_utc_ms : ℤ
  pub event : CalendarObserverEvent
  pub run_count : ℕ

-- Providers and observers are functions of the user, named by numbers; `none` is an empty function.
pub record CalendarTaskOptions : Type 0 where
  pub priority : TaskPriority
  pub missed_policy : CalendarMissedRunPolicy
  pub overlap_policy : CalendarOverlapPolicy
  pub clock : ℕ
  pub now_provider : Option ℕ
  pub last_due_utc_ms : Option ℤ
  pub observer : Option ℕ

-- The seconds of each weekday, and of each day of a month. The vectors hold plain `int`s.
pub record WeeklySchedule : Type 0 where
  pub seconds_by_weekday : ℕ → List ℤ

pub record MonthlySchedule : Type 0 where
  pub seconds_by_month_day : ℕ → List ℤ

abbrev pub month_days : ℕ
month_days = 32

abbrev pub empty_weekly : WeeklySchedule
empty_weekly = record { seconds_by_weekday = λ d. [] }

abbrev pub empty_monthly : MonthlySchedule
empty_monthly = record { seconds_by_month_day = λ d. [] }

-- push_back on the vector of one day.
abbrev pub push_second : (ℕ → List ℤ) → ℕ → ℤ → ℕ → List ℤ
push_second seconds day second d = if day == d then seconds d ++ (second ∷ []) else seconds d

module _ (ts : TimeShield) where
  unfoldable pub is_valid_time_of_day : LocalTime → Bool
  is_valid_time_of_day time = eqb_ℤ time.ms (pos 0) && ts.is_valid_time time

  unfoldable pub second_of_day : LocalTime → ℤ
  second_of_day time = ts.sec_of_day time.hour time.minute time.second

  unfoldable pub ms_of_day : LocalTime → ℤ
  unfolding second_of_day
  ms_of_day time = second_of_day time *ℤ ts.ms_per_sec +ℤ time.ms

  abbrev pub default_options : CalendarTaskOptions
  default_options = record {
    priority = normal;
    missed_policy = skip_missed;
    overlap_policy = skip_overlap;
    clock = ts.default_clock;
    now_provider = none;
    last_due_utc_ms = none;
    observer = none;
  }

  unfoldable pub set_zone : ℕ → CalendarTaskOptions → CalendarTaskOptions
  set_zone zone options = record options { clock = ts.set_zone options.clock zone }

  unfoldable pub set_clock : ℕ → CalendarTaskOptions → CalendarTaskOptions
  set_clock clock options = record options { clock = clock }

  unfoldable pub set_fixed_utc_offset : ℤ → CalendarTaskOptions → CalendarTaskOptions
  set_fixed_utc_offset offset options = record options { clock = ts.offset_clock offset }

  unfoldable pub use_now_provider : Option ℕ → CalendarTaskOptions → CalendarTaskOptions
  use_now_provider provider options = record options { now_provider = provider }

  unfoldable pub in_zone : ℕ → CalendarTaskOptions
  unfolding set_zone
  in_zone zone = set_zone zone default_options

  unfoldable pub with_clock : ℕ → CalendarTaskOptions
  unfolding set_clock
  with_clock clock = set_clock clock default_options

  unfoldable pub fixed_utc_offset : ℤ → CalendarTaskOptions
  unfolding set_fixed_utc_offset
  fixed_utc_offset offset = set_fixed_utc_offset offset default_options

  abbrev pub in_day : ℤ → Bool
  in_day second = leb_ℤ (pos 0) second && leb_ℤ second (pos ts.max_sec_per_day)

  unfoldable pub add_weekday : (day : ℕ) (second : ℤ) → WeeklySchedule → WeeklySchedule
  add_weekday day second schedule =
      if (leb ts.sun day && leb day ts.sat) && in_day second
      then record schedule {
        seconds_by_weekday = push_second schedule.seconds_by_weekday day second;
      }
      else schedule

  unfoldable pub add_weekday_time : (day : ℕ) → LocalTime → WeeklySchedule → WeeklySchedule
  unfolding add_weekday is_valid_time_of_day second_of_day
  add_weekday_time day time schedule =
      if is_valid_time_of_day time then add_weekday day (second_of_day time) schedule else schedule

  unfoldable pub add_month_day : (month_day second : ℤ) → MonthlySchedule → MonthlySchedule
  add_month_day (negsuc n) second schedule = schedule
  add_month_day (pos day) second schedule =
      if (leb 1 day && ltb day month_days) && in_day second
      then record schedule {
        seconds_by_month_day = push_second schedule.seconds_by_month_day day second;
      }
      else schedule

  unfoldable pub add_month_day_time :
      (month_day : ℤ) → LocalTime → MonthlySchedule → MonthlySchedule
  unfolding add_month_day is_valid_time_of_day second_of_day
  add_month_day_time month_day time schedule =
      if is_valid_time_of_day time
      then add_month_day month_day (second_of_day time) schedule
      else schedule
