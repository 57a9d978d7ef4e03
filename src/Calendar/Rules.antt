-- ===== src/Calendar/Rules.antt =====
-- The public operations of CalendarScheduler that add a rule. `callback` is `none` if it is empty.
-- The overloads for a callable make a Task of it and are the same operations.
use event_hub_cpp.Prelude.{ℕ, ℤ, if◌then◌else◌, not, ◌||◌, Option, none, some, [], ◌∷◌}
use event_hub_cpp.Task.{Task, has_callable}
use event_hub_cpp.Calendar.TimeShield.{LocalTime, TimeShield}
use event_hub_cpp.Calendar.Types.{
  CalendarTaskOptions, WeeklySchedule, MonthlySchedule, empty_weekly, empty_monthly, push_second,
  is_valid_time_of_day, second_of_day, add_month_day_time,
}
use event_hub_cpp.Calendar.Detail.{
  Reading, Answer, RuleProvider, valid_second_of_day, valid_weekday, normalize_seconds,
  normalize_weekly, normalize_monthly, make_daily_provider, make_weekly_provider,
  make_monthly_provider,
}
use event_hub_cpp.Calendar.Core.{Core}
use event_hub_cpp.Calendar.Planning.{Steady}
use event_hub_cpp.Calendar.Schedule.{add_rule}

-- What a call reads of the clocks.
pub record Clocks : Type 0 where
  pub first : Reading
  pub last : Reading
  pub steady : Steady

module _ (ts : TimeShield) (ticks_per_ms : ℕ) where
  abbrev pub add_with_clocks : Clocks → RuleProvider → Task → CalendarTaskOptions → Core → Core × ℕ
  add_with_clocks clocks provider callback options core =
      add_rule ticks_per_ms clocks.first clocks.last clocks.steady provider callback options core

  unfoldable pub add_daily_task :
      Clocks → (second_of_day : ℤ) → Task → CalendarTaskOptions → Core → Core × ℕ
  unfolding add_rule valid_second_of_day normalize_seconds make_daily_provider
  add_daily_task clocks second callback options core =
      if not (has_callable callback) || not (valid_second_of_day ts second)
      then (core, 0)
      else add_with_clocks clocks (make_daily_provider ts (normalize_seconds ts (second ∷ [])))
          callback options core

  unfoldable pub add_daily_task_time :
      Clocks → LocalTime → Task → CalendarTaskOptions → Core → Core × ℕ
  unfolding add_daily_task is_valid_time_of_day second_of_day
  add_daily_task_time clocks time callback options core =
      if not (is_valid_time_of_day ts time)
      then (core, 0)
      else add_daily_task clocks (second_of_day ts time) callback options core

  unfoldable pub add_weekly_schedule :
      Clocks → WeeklySchedule → Task → CalendarTaskOptions → Core → Core × ℕ
  unfolding add_rule normalize_weekly make_weekly_provider
  add_weekly_schedule clocks schedule callback options core =
      let (normalized, has_seconds) = normalize_weekly ts schedule in
      if not (has_callable callback) || not has_seconds
      then (core, 0)
      else add_with_clocks clocks (make_weekly_provider ts normalized) callback options core

  unfoldable pub add_weekly_task :
      Clocks
      → (day_of_week : ℕ) → (second_of_day : ℤ) → Task
      → CalendarTaskOptions
      → Core
      → Core × ℕ
  unfolding add_weekly_schedule valid_weekday valid_second_of_day
  add_weekly_task clocks day_of_week second callback options core =
      if not (has_callable callback)
        || (not (valid_weekday ts day_of_week) || not (valid_second_of_day ts second))
      then (core, 0)
      else add_weekly_schedule clocks
          (record {
            seconds_by_weekday = push_second empty_weekly.seconds_by_weekday day_of_week second;
          })
          callback options core

  unfoldable pub add_weekly_task_time :
      Clocks → (day_of_week : ℕ) → LocalTime → Task → CalendarTaskOptions → Core → Core × ℕ
  unfolding add_weekly_task is_valid_time_of_day second_of_day
  add_weekly_task_time clocks day_of_week time callback options core =
      if not (is_valid_time_of_day ts time)
      then (core, 0)
      else add_weekly_task clocks day_of_week (second_of_day ts time) callback options core

  unfoldable pub add_monthly_schedule :
      Clocks → MonthlySchedule → Task → CalendarTaskOptions → Core → Core × ℕ
  unfolding add_rule normalize_monthly make_monthly_provider
  add_monthly_schedule clocks schedule callback options core =
      let (normalized, has_seconds) = normalize_monthly ts schedule in
      if not (has_callable callback) || not has_seconds
      then (core, 0)
      else add_with_clocks clocks (make_monthly_provider ts normalized) callback options core

  unfoldable pub add_monthly_task :
      Clocks → (month_day : ℤ) → LocalTime → Task → CalendarTaskOptions → Core → Core × ℕ
  unfolding add_monthly_schedule is_valid_time_of_day add_month_day_time
  add_monthly_task clocks month_day time callback options core =
      if not (is_valid_time_of_day ts time)
      then (core, 0)
      else add_monthly_schedule clocks (add_month_day_time ts month_day time empty_monthly) callback
          options core

  -- `provider` is the user's function of the two times, `none` if it is empty.
  unfoldable pub add_custom_calendar_task :
      Clocks → Option (ℤ → ℤ → Answer) → Task → CalendarTaskOptions → Core → Core × ℕ
  unfolding add_rule
  add_custom_calendar_task clocks none callback options core = (core, 0)
  add_custom_calendar_task clocks (some provider) callback options core =
      if not (has_callable callback)
      then (core, 0)
      else add_with_clocks clocks (λ options after observed_now. provider after observed_now)
          callback options core
