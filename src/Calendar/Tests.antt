-- ===== src/Calendar/Tests.antt =====
-- The calendar at concrete inputs: a time library of days of 24 hours without zones.
use event_hub_cpp.Prelude.{
  ◌+◌, ◌-◌, ◌*◌, ◌/◌, ◌%◌, ◌≡◌, ◌↔◌, refl, ℤ, pos, negsuc, pos_part, true, false, none, some, List,
  [], ◌∷◌, arith, not, is_empty,
}
use event_hub_cpp.Task.{Task, no_arg}
use event_hub_cpp.TaskManager.Types.{new_manager, find_index, emplace_index}
use event_hub_cpp.Calendar.TimeShield.{TimeShield, HasLastSecond}
use event_hub_cpp.Calendar.Types.{CalendarTaskOptions, WeeklySchedule, default_options}
use event_hub_cpp.Calendar.Detail.{
  Reading, RuleProvider, next, utc_to_local_ms, local_to_utc_ms, local_day_start_ms,
  valid_second_of_day, normalize_seconds, normalize_weekly, scan_local_days, make_daily_provider,
  make_weekly_provider,
}
use event_hub_cpp.Calendar.Core.{State, Core, new_core, next_calendar_id, cancel_task, destroy}
use event_hub_cpp.Calendar.Planning.{Steady}
use event_hub_cpp.Calendar.Schedule.{adds_rule, Run, register_state, run_due, add_rule}
use event_hub_cpp.Calendar.Clocks.{local_to_utc_ms-utc_to_local_ms}
use event_hub_cpp.Calendar.Seconds.{Has, Ascending, normalize_seconds-Ascending}
use event_hub_cpp.Calendar.Scan.{window_dues}
use event_hub_cpp.Calendar.Least.{IsDue, IsLeast, scan_local_days-IsDue}
use event_hub_cpp.Calendar.Next.{Answers, make_daily_provider-IsLeast, make_weekly_provider-IsLeast}
use event_hub_cpp.Calendar.Registry.{IsRegistered}
use event_hub_cpp.Calendar.Lifetime.{
  Event, operates, runs, happen, happen-IsRegistered, cancel_task-never_runs, destroy-never_runs,
}

abbrev plain_days : TimeShield
plain_days = record {
  ms_per_sec = 1000;
  ms_per_day = 86400000;
  max_sec_per_day = 86399;
  sun = 0;
  sat = 6;
  error_timestamp = negsuc 0;
  is_valid_time = λ time. true;
  sec_of_day =
      λ hour minute second. pos (pos_part hour * 3600 + pos_part minute * 60 + pos_part second);
  date_of = λ t. record { year = pos 1970; mon = 1; day = pos_part t / 86400000 + 1 };
  to_timestamp_ms = λ dt. pos ((dt.day - 1) * 86400000);
  day_of_week_date = λ dt. (dt.day + 3) % 7;
  default_clock = 0;
  offset_clock = λ offset. 0;
  set_zone = λ clock zone. clock;
  has_named_zone = λ clock. false;
  offset_at_utc_ms = λ clock t. pos 0;
  gmt_to_zone_ms = λ t clock. t;
  zone_to_gmt_ms = λ t clock. t;
}

abbrev options : CalendarTaskOptions
options = default_options plain_days

plain_days_last : HasLastSecond plain_days
plain_days_last = omega arith

-- 10:00, 09:00, an invalid second, and 09:00 again.
abbrev seconds : List ℤ
seconds = pos 36000 ∷ pos 32400 ∷ pos 90000 ∷ pos 32400 ∷ []

normalized : normalize_seconds plain_days seconds ≡ pos 32400 ∷ pos 36000 ∷ []
unfolding normalize_seconds
normalized = refl

normalize_seconds-Ascending_example :
    Ascending (normalize_seconds plain_days seconds)
    × (Has (pos 32400) (normalize_seconds plain_days seconds)
        ↔ (Has (pos 32400) seconds × (valid_second_of_day plain_days (pos 32400) ≡ true)))
normalize_seconds-Ascending_example = normalize_seconds-Ascending plain_days seconds (pos 32400)

local_to_utc_ms-utc_to_local_ms_example :
    (local_to_utc_ms plain_days options (utc_to_local_ms plain_days options (pos 120600000))
      ≡ pos 120600000)
    × (utc_to_local_ms plain_days options (local_to_utc_ms plain_days options (pos 120600000))
        ≡ pos 120600000)
local_to_utc_ms-utc_to_local_ms_example =
    local_to_utc_ms-utc_to_local_ms plain_days options (pos 120600000) (refl, λ t. refl)

scan_local_days-IsDue_example :
    IsDue plain_days options
      (pos 120600000)
      (window_dues plain_days options
        (local_day_start_ms plain_days (utc_to_local_ms plain_days options (pos 120600000)))
        (λ dt. true)
        (λ dt. seconds)
        3
        0)
      (scan_local_days plain_days options (pos 120600000) 2 (λ dt. true) (λ dt. seconds))
scan_local_days-IsDue_example =
    scan_local_days-IsDue plain_days options (pos 120600000) 2 (λ dt. true) (λ dt. seconds)

make_daily_provider-IsLeast_example :
    Answers
      (IsLeast plain_days options (pos 120600000) (
        window_dues plain_days options
          (local_day_start_ms plain_days (utc_to_local_ms plain_days options (pos 120600000)))
          (λ dt. true)
          (λ dt. normalize_seconds plain_days seconds)
          3
          0))
      (make_daily_provider plain_days
        (normalize_seconds plain_days seconds)
        options
        (pos 120600000)
        (pos 0))
make_daily_provider-IsLeast_example =
    make_daily_provider-IsLeast plain_days plain_days_last seconds options (pos 120600000) (pos 0)
      refl

abbrev workdays : WeeklySchedule
workdays = record { seconds_by_weekday = λ d. seconds }

make_weekly_provider-IsLeast_example :
    let week = (normalize_weekly plain_days workdays).0 in
    Answers
      (IsLeast plain_days options (pos 120600000) (
        window_dues plain_days options
          (local_day_start_ms plain_days (utc_to_local_ms plain_days options (pos 120600000)))
          (λ dt. not (is_empty (week.seconds_by_weekday (plain_days.day_of_week_date dt))))
          (λ dt. week.seconds_by_weekday (plain_days.day_of_week_date dt))
          15
          0))
      (make_weekly_provider plain_days week options (pos 120600000) (pos 0))
make_weekly_provider-IsLeast_example =
    make_weekly_provider-IsLeast plain_days plain_days_last workdays options (pos 120600000) (pos 0)
      refl

abbrev each_second : RuleProvider
each_second given after observed_now = next (some (pos (pos_part after + 1000)))

abbrev at_noon : Reading
at_noon = record { provided = none; clock_ms = pos 43200000 }

abbrev steady : Steady
steady = record { now = pos 5; later = pos 6 }

abbrev callback : Task
callback = some (no_arg 7)

abbrev unused : State
unused = record {
  id = 0;
  options = options;
  next_time_provider = each_second;
  callback = none;
  scheduled_task_id = 0;
  planned_utc_ms = pos 0;
  run_count = 0;
  is_cancelled = false;
}

abbrev started : Core
started = new_core unused (new_manager (some 3))

abbrev once : Run 1
once = record { before = at_noon; commands = []; throws = false; after = at_noon; steady = steady }

-- The history of a call of add_custom_calendar_task() and of a run of its task.
abbrev history : List (Event 1)
history =
    operates (adds_rule at_noon at_noon steady each_second callback options) ∷ runs once 1 0 ∷ []

happen-IsRegistered_example :
    IsRegistered (happen 1 history (new_core unused (new_manager (some 3))))
happen-IsRegistered_example = happen-IsRegistered 1 unused (new_manager (some 3)) history

-- A scheduler with one rule, before its first time is planned.
abbrev one_rule : Core
one_rule = (register_state 1 each_second callback options started).1

one_rule-IsRegistered : IsRegistered one_rule
unfolding register_state new_core next_calendar_id emplace_index find_index
one_rule-IsRegistered = ((omega arith, refl, refl), tt)

one_rule_found : find_index 1 one_rule.tasks ≡ some 0
unfolding register_state new_core next_calendar_id emplace_index find_index
one_rule_found = refl

cancel_task-never_runs_example :
    let now = happen 1 history (cancel_task at_noon 1 one_rule).0 in
    ((cancel_task at_noon 1 one_rule).1 ≡ true) × (run_due 1 once 1 0 now ≡ (now, false))
cancel_task-never_runs_example =
    cancel_task-never_runs 1 at_noon 1 0 one_rule one_rule-IsRegistered (λ e. ground (arith, e))
      one_rule_found history once 1

destroy-never_runs_example :
    let now = happen 1 history (destroy (λ p. at_noon) one_rule) in
    (run_due 1 once 1 0 now ≡ (now, false))
    × (add_rule 1 at_noon at_noon steady each_second callback options now ≡ (now, 0))
destroy-never_runs_example =
    destroy-never_runs 1 (λ p. at_noon) one_rule history once 1 0 at_noon at_noon steady each_second
      callback options
