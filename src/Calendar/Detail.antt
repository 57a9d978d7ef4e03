-- ===== src/Calendar/Detail.antt =====
-- include/event_hub/calendar_scheduler/detail.hpp: seconds of a day, clocks, and the scan for the
-- next occurrence.
use event_hub_cpp.Prelude.{
  ℕ, zero, suc, ◌==◌, ltb, leb, ℤ, pos, ◌+ℤ◌, ◌-ℤ◌, ◌*ℤ◌, leb_ℤ, ltb_ℤ, eqb_ℤ, if◌then◌else◌, Bool,
  true, false, not, ◌&&◌, ◌||◌, Option, none, some, List, [], ◌∷◌, is_empty, remove_if,
}
use event_hub_cpp.Calendar.TimeShield.{Date, TimeShield}
use event_hub_cpp.Calendar.Types.{
  CalendarTaskOptions, WeeklySchedule, MonthlySchedule, month_days, in_day,
}

-- std::sort and std::unique on a vector of ints.
unfoldable pub insert : ℤ → List ℤ → List ℤ
insert x [] = x ∷ []
insert x (y ∷ ys) = let later = y ∷ insert x ys in if leb_ℤ x y then x ∷ y ∷ ys else later

unfoldable pub sort : List ℤ → List ℤ
unfolding insert
sort [] = []
sort (x ∷ xs) = insert x (sort xs)

-- `previous` is the last element that was kept.
unfoldable pub unique_after : ℤ → List ℤ → List ℤ
unique_after previous [] = []
unique_after previous (x ∷ xs) =
    let rest = unique_after x xs in
    let same = unique_after previous xs in if eqb_ℤ previous x then same else x ∷ rest

unfoldable pub unique : List ℤ → List ℤ
unfolding unique_after
unique [] = []
unique (x ∷ xs) = x ∷ unique_after x xs

-- One reading of the clocks: what now_provider returns, `none` if it throws, and the clock's time.
pub record Reading : Type 0 where
  pub provided : Option ℤ
  pub clock_ms : ℤ

-- A provider's answer for the next time.
pub data Answer : Type 0 where
  next : Option ℤ → Answer
  provider_throws : Answer

-- `after_utc_ms`, then `observed_now_utc_ms`.
abbrev pub RuleProvider : Type 0
RuleProvider = CalendarTaskOptions → ℤ → ℤ → Answer

unfoldable pub now_utc_ms : CalendarTaskOptions → Reading → Option ℤ
now_utc_ms options reading = elim options.now_provider [
  | none ↦ some reading.clock_ms
  | some provider ↦ reading.provided
]

unfoldable pub safe_now_utc_ms : CalendarTaskOptions → Reading → ℤ
unfolding now_utc_ms
safe_now_utc_ms options reading = elim (now_utc_ms options reading) [
  | none ↦ reading.clock_ms
  | some now ↦ now
]

-- `count` days from `day` on: one of them has seconds.
unfoldable pub any_day : (ℕ → List ℤ) → (day count : ℕ) → Bool
any_day seconds day zero = false
any_day seconds day (suc count) = not (is_empty (seconds day)) || any_day seconds (suc day) count

module _ (ts : TimeShield) where
  unfoldable pub valid_second_of_day : ℤ → Bool
  valid_second_of_day second = in_day ts second

  unfoldable pub valid_weekday : ℕ → Bool
  valid_weekday day = leb ts.sun day && leb day ts.sat

  unfoldable pub normalize_seconds : List ℤ → List ℤ
  unfolding sort unique valid_second_of_day
  normalize_seconds seconds = unique (sort (remove_if (λ s. not (valid_second_of_day s)) seconds))

  unfoldable pub normalize_weekly : WeeklySchedule → WeeklySchedule × Bool
  unfolding normalize_seconds any_day
  normalize_weekly schedule =
      let seconds = λ (d : ℕ). normalize_seconds (schedule.seconds_by_weekday d) in
      (record { seconds_by_weekday = seconds }, any_day seconds 0 7)

  unfoldable pub normalize_monthly : MonthlySchedule → MonthlySchedule × Bool
  unfolding normalize_seconds any_day
  normalize_monthly schedule =
      let seconds =
        λ (d : ℕ). if d == 0 then [] else normalize_seconds (schedule.seconds_by_month_day d) in
      (record { seconds_by_month_day = seconds }, any_day seconds 1 31)

  unfoldable pub utc_to_local_ms : CalendarTaskOptions → ℤ → ℤ
  utc_to_local_ms options utc_ms =
      if ts.has_named_zone options.clock
      then ts.gmt_to_zone_ms utc_ms options.clock
      else utc_ms +ℤ ts.offset_at_utc_ms options.clock utc_ms *ℤ ts.ms_per_sec

  unfoldable pub local_to_utc_ms : CalendarTaskOptions → ℤ → ℤ
  local_to_utc_ms options local_ms =
      if ts.has_named_zone options.clock
      then ts.zone_to_gmt_ms local_ms options.clock
      else local_ms -ℤ ts.offset_at_utc_ms options.clock (pos 0) *ℤ ts.ms_per_sec

  unfoldable pub local_struct_from_ms : ℤ → Date
  local_struct_from_ms local_ms = ts.date_of local_ms

  unfoldable pub local_day_start_ms : ℤ → ℤ
  unfolding local_struct_from_ms
  local_day_start_ms local_ms = ts.to_timestamp_ms (local_struct_from_ms local_ms)

  -- The local time of a second of a day.
  abbrev pub local_due : (current_day second : ℤ) → ℤ
  local_due current_day second = current_day +ℤ second *ℤ ts.ms_per_sec

  -- The inner loop of scan_local_days.
  unfoldable pub scan_seconds : CalendarTaskOptions → (after current_day : ℤ) → List ℤ → Option ℤ
  unfolding local_to_utc_ms
  scan_seconds options after current_day [] = none
  scan_seconds options after current_day (second ∷ rest) =
      let later = scan_seconds options after current_day rest in
      let utc_due : ℤ = local_to_utc_ms options (local_due current_day second) in
      if eqb_ℤ utc_due ts.error_timestamp
      then later
      else if ltb_ℤ after utc_due
      then some utc_due
      else later

  abbrev pub day_at : (day_start : ℤ) (offset : ℕ) → ℤ
  day_at day_start offset = day_start +ℤ pos offset *ℤ ts.ms_per_day

  -- The outer loop: `left` days from `offset` on.
  unfoldable pub scan_days :
      CalendarTaskOptions
      → (after day_start : ℤ) → (Date → Bool)
      → (Date → List ℤ)
      → (left offset : ℕ) → Option ℤ
  unfolding scan_seconds local_struct_from_ms
  scan_days options after day_start day_allowed seconds_for_day zero offset = none
  scan_days options after day_start day_allowed seconds_for_day (suc left) offset =
      let later = scan_days options after day_start day_allowed seconds_for_day left (suc offset) in
      let current_day = day_at day_start offset in
      let dt = local_struct_from_ms current_day in
      let found : Option ℤ = elim (scan_seconds options after current_day (seconds_for_day dt)) [
        | none ↦ later
        | some utc_due ↦ some utc_due
      ] in
      if day_allowed dt then found else later

  unfoldable pub scan_local_days :
      CalendarTaskOptions
      → (after : ℤ) → (max_days : ℕ) → (Date → Bool)
      → (Date → List ℤ)
      → Option ℤ
  unfolding scan_days utc_to_local_ms local_day_start_ms
  scan_local_days options after max_days day_allowed seconds_for_day =
      let day_start = local_day_start_ms (utc_to_local_ms options after) in
      scan_days options after day_start day_allowed seconds_for_day (suc max_days) 0

  unfoldable pub make_daily_provider : List ℤ → RuleProvider
  unfolding scan_local_days
  make_daily_provider seconds options after observed_now =
      next (scan_local_days options after 2 (λ dt. true) (λ dt. seconds))

  unfoldable pub make_weekly_provider : WeeklySchedule → RuleProvider
  unfolding scan_local_days
  make_weekly_provider schedule options after observed_now = next (
      scan_local_days options after 14
        (λ dt. not (is_empty (schedule.seconds_by_weekday (ts.day_of_week_date dt))))
        (λ dt. schedule.seconds_by_weekday (ts.day_of_week_date dt)))

  unfoldable pub make_monthly_provider : MonthlySchedule → RuleProvider
  unfolding scan_local_days
  make_monthly_provider schedule options after observed_now = next (
      scan_local_days options after 370
        (λ dt.
          (leb 1 dt.day && ltb dt.day month_days)
          && not (is_empty (schedule.seconds_by_month_day dt.day)))
        (λ dt. schedule.seconds_by_month_day dt.day))
