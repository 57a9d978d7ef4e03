-- ===== src/Calendar/Next.antt =====
-- The rules that add_daily_task() and add_weekly_task() make, with the lists they normalize.
use event_hub_cpp.Prelude.{
  ◌≡◌, refl, inl, inr, ℤ, true, false, Option, List, [], ◌∷◌, All, is_empty, not,
}
use event_hub_cpp.Calendar.TimeShield.{Date, TimeShield, HasLastSecond}
use event_hub_cpp.Calendar.Types.{CalendarTaskOptions, WeeklySchedule, in_day}
use event_hub_cpp.Calendar.Detail.{
  utc_to_local_ms, local_day_start_ms, valid_second_of_day, normalize_seconds, make_daily_provider,
  Answer, next, provider_throws, normalize_weekly, make_weekly_provider,
}
use event_hub_cpp.Calendar.Seconds.{Has, normalize_seconds-Ascending}
use event_hub_cpp.Calendar.Scan.{window_dues}
use event_hub_cpp.Calendar.Order.{InDay}
use event_hub_cpp.Calendar.Least.{IsLeast, scan_local_days-IsLeast}

All-Has : (P : ℤ → Type 0) (xs : List ℤ) → ((x : ℤ) → Has x xs → P x) → All P xs
All-Has P [] f = tt
All-Has P (x ∷ xs) f = (f x (inl refl), All-Has P xs (λ y h. f y (inr h)))

-- The answer is a time, or none, that satisfies the predicate.
abbrev pub Answers : (Option ℤ → Type 0) → Answer → Type 0
Answers P (next r) = P r
Answers P provider_throws = ⊥

module _ (ts : TimeShield) where
  normalize_seconds-InDay : (seconds : List ℤ) → InDay ts (normalize_seconds ts seconds)
  unfolding valid_second_of_day
  normalize_seconds-InDay seconds =
      All-Has (λ (s : ℤ). in_day ts s ≡ true) (normalize_seconds ts seconds)
        (λ x h. ((normalize_seconds-Ascending ts seconds x).1.0 h).1)

  -- With a clock of a fixed offset, and if the last second of a day begins before the day ends,
  -- the provider of a daily rule over normalized seconds answers with the least time after
  -- `after` among the rule's times of the three days from the day of `after` on, or with none if
  -- all of these lie at or before `after` or do not exist.
  pub make_daily_provider-IsLeast :
      HasLastSecond ts
      → (seconds : List ℤ) (options : CalendarTaskOptions) (after observed_now : ℤ)
      → ts.has_named_zone options.clock ≡ false
      → Answers
          (IsLeast ts options after (
            window_dues ts options
              (local_day_start_ms ts (utc_to_local_ms ts options after))
              (λ dt. true)
              (λ dt. normalize_seconds ts seconds)
              3
              0))
          (make_daily_provider ts (normalize_seconds ts seconds) options after observed_now)
  unfolding make_daily_provider
  make_daily_provider-IsLeast last seconds options after observed_now fixed =
      scan_local_days-IsLeast ts options fixed last after 2 (λ dt. true)
        (λ dt. normalize_seconds ts seconds) (λ dt. normalize_seconds-InDay seconds)
        (λ dt. (normalize_seconds-Ascending ts seconds after).0)

  -- With a clock of a fixed offset, and if the last second of a day begins before the day ends,
  -- the provider of a weekly rule over a normalized schedule answers with the least time after
  -- `after` among the schedule's times of the fifteen days from the day of `after` on, or with
  -- none if all of these lie at or before `after` or do not exist.
  pub make_weekly_provider-IsLeast :
      HasLastSecond ts
      → (schedule : WeeklySchedule) (options : CalendarTaskOptions) (after observed_now : ℤ)
      → ts.has_named_zone options.clock ≡ false
      → let week = (normalize_weekly ts schedule).0 in
        Answers
          (IsLeast ts options after (
            window_dues ts options
              (local_day_start_ms ts (utc_to_local_ms ts options after))
              (λ dt. not (is_empty (week.seconds_by_weekday (ts.day_of_week_date dt))))
              (λ dt. week.seconds_by_weekday (ts.day_of_week_date dt))
              15
              0))
          (make_weekly_provider ts week options after observed_now)
  unfolding make_weekly_provider normalize_weekly
  make_weekly_provider-IsLeast last schedule options after observed_now fixed =
      let seconds = λ (dt : Date). schedule.seconds_by_weekday (ts.day_of_week_date dt) in
      scan_local_days-IsLeast ts options fixed last after 14
        (λ dt. not (is_empty (normalize_seconds ts (seconds dt))))
        (λ dt. normalize_seconds ts (seconds dt)) (λ dt. normalize_seconds-InDay (seconds dt))
        (λ dt. (normalize_seconds-Ascending ts (seconds dt) after).0)
