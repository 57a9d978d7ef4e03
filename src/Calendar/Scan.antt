-- ===== src/Calendar/Scan.antt =====
-- The scan for the next occurrence against the list of all local times that it could find.
use event_hub_cpp.Prelude.{
  ℕ, zero, suc, ◌≡◌, ◌∙◌, refl, sym, inl, inr, ℤ, ltb_ℤ, eqb_ℤ, Bool, Option, none, some, List, [],
  ◌∷◌, ◌++◌, Bool-cases, if◌then◌else◌,
}
use event_hub_cpp.Calendar.TimeShield.{Date, TimeShield}
use event_hub_cpp.Calendar.Types.{CalendarTaskOptions}
use event_hub_cpp.Calendar.Detail.{
  local_to_utc_ms, local_struct_from_ms, local_due, day_at, scan_seconds, scan_days,
}

module _ (ts : TimeShield) (options : CalendarTaskOptions) where
  -- The local times of a day, and of `left` allowed days from `offset` on, in the order of the scan.
  unfoldable pub day_dues : (current_day : ℤ) → List ℤ → List ℤ
  day_dues current_day [] = []
  day_dues current_day (s ∷ rest) = local_due ts current_day s ∷ day_dues current_day rest

  unfoldable pub window_dues :
      (day_start : ℤ) → (Date → Bool) → (Date → List ℤ) → (left offset : ℕ) → List ℤ
  unfolding day_dues
  window_dues day_start day_allowed seconds_for_day zero offset = []
  window_dues day_start day_allowed seconds_for_day (suc left) offset =
      let rest = window_dues day_start day_allowed seconds_for_day left (suc offset) in
      let day = day_at ts day_start offset in
      let dt = ts.date_of day in
      if day_allowed dt then day_dues day (seconds_for_day dt) ++ rest else rest

  -- The first local time of a list whose time in UTC exists and lies after the given one.
  unfoldable pub first_due : (after : ℤ) → List ℤ → Option ℤ
  unfolding local_to_utc_ms
  first_due after [] = none
  first_due after (l ∷ rest) =
      let later = first_due after rest in
      let utc_due : ℤ = local_to_utc_ms ts options l in
      if eqb_ℤ utc_due ts.error_timestamp
      then later
      else if ltb_ℤ after utc_due
      then some utc_due
      else later

  or_else : Option ℤ → Option ℤ → Option ℤ
  or_else none b = b
  or_else (some a) b = some a

  first_due-append :
      (after : ℤ) (xs ys : List ℤ)
      → first_due after (xs ++ ys) ≡ or_else (first_due after xs) (first_due after ys)
  unfolding first_due or_else
  first_due-append after [] ys = refl
  first_due-append after (l ∷ xs) ys =
      let utc_due : ℤ = local_to_utc_ms ts options l in
      elim (Bool-cases (eqb_ℤ utc_due ts.error_timestamp)) [
        | inl t ↦ rw t (first_due-append after xs ys)
        | inr t ↦ elim (Bool-cases (ltb_ℤ after utc_due)) [
          | inl k ↦ rw (t, k) refl
          | inr k ↦ rw (t, k) (first_due-append after xs ys)
        ]
      ]

  scan_seconds_lem :
      (after day : ℤ) (seconds : List ℤ)
      → scan_seconds ts options after day seconds ≡ first_due after (day_dues day seconds)
  unfolding scan_seconds first_due day_dues
  scan_seconds_lem after day [] = refl
  scan_seconds_lem after day (s ∷ rest) =
      let utc_due : ℤ = local_to_utc_ms ts options (local_due ts day s) in
      elim (Bool-cases (eqb_ℤ utc_due ts.error_timestamp)) [
        | inl t ↦ rw t (scan_seconds_lem after day rest)
        | inr t ↦ elim (Bool-cases (ltb_ℤ after utc_due)) [
          | inl k ↦ rw (t, k) refl
          | inr k ↦ rw (t, k) (scan_seconds_lem after day rest)
        ]
      ]

  module _ (after day_start : ℤ) (day_allowed : Date → Bool) (seconds_for_day : Date → List ℤ) where
    or_else_lem :
        (a b : Option ℤ)
        → (let found : Option ℤ = elim a [ none ↦ b | some t ↦ some t ] in found) ≡ or_else a b
    unfolding or_else
    or_else_lem none b = refl
    or_else_lem (some a) b = refl

    pub scan_days_lem :
        (left offset : ℕ)
        → scan_days ts options after day_start day_allowed seconds_for_day left offset
          ≡ first_due after (window_dues day_start day_allowed seconds_for_day left offset)
    unfolding scan_days window_dues local_struct_from_ms first_due
    scan_days_lem zero offset = refl
    scan_days_lem (suc left) offset =
        let day = day_at ts day_start offset in
        let dt = ts.date_of day in
        let rest = window_dues day_start day_allowed seconds_for_day left (suc offset) in
        let later = scan_days_lem left (suc offset) in
        elim (Bool-cases (day_allowed dt)) [
          | inl t ↦ rw t (
              or_else_lem (scan_seconds ts options after day (seconds_for_day dt))
                (scan_days ts options after day_start day_allowed seconds_for_day left (suc offset))
              ∙ (rw (scan_seconds_lem after day (seconds_for_day dt), later)
                  (sym (first_due-append after (day_dues day (seconds_for_day dt)) rest))))
          | inr t ↦ rw t later
        ]
