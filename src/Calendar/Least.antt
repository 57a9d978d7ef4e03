-- ===== src/Calendar/Least.antt =====
-- What the scan for the next occurrence finds.
use event_hub_cpp.Prelude.{
  ℕ, suc, ◌≡◌, ◌≢◌, refl, ◌⊎◌, inl, inr, ℤ, pos, ◌*ℤ◌, ◌≤ℤ◌, ◌<ℤ◌, ltb_ℤ, eqb_ℤ, eqb_ℤ→eq, eqb_ℤ→ne,
  -ℤ_parts, Bool, false, Option, none, some, List, [], ◌∷◌, All, All-mono, Any, Bool-cases, arith,
}
use event_hub_cpp.Calendar.TimeShield.{Date, TimeShield, HasLastSecond}
use event_hub_cpp.Calendar.Types.{CalendarTaskOptions}
use event_hub_cpp.Calendar.Detail.{
  local_to_utc_ms, utc_to_local_ms, local_day_start_ms, scan_local_days,
}
use event_hub_cpp.Calendar.Seconds.{Ascending}
use event_hub_cpp.Calendar.Scan.{window_dues, first_due, scan_days_lem}
use event_hub_cpp.Calendar.Order.{InOrder, InDay, window_dues-InOrder}

module _ (ts : TimeShield) (options : CalendarTaskOptions) where
  abbrev utc : ℤ → ℤ
  utc l = local_to_utc_ms ts options l

  -- The result is a later time of the list in UTC, or the list has none.
  abbrev pub IsDue : (after : ℤ) → List ℤ → Option ℤ → Type 0
  IsDue after dues none = All (λ l. (utc l ≡ ts.error_timestamp) ⊎ (utc l ≤ℤ after)) dues
  IsDue after dues (some t) = Any (λ l. utc l ≡ t) dues × (t ≢ ts.error_timestamp) × (after <ℤ t)

  -- The result is the least such time.
  abbrev pub IsLeast : (after : ℤ) → List ℤ → Option ℤ → Type 0
  IsLeast after dues none = All (λ l. (utc l ≡ ts.error_timestamp) ⊎ (utc l ≤ℤ after)) dues
  IsLeast after dues (some t) =
      IsDue after dues (some t)
      × All (λ l. (utc l ≡ ts.error_timestamp) ⊎ ((utc l ≤ℤ after) ⊎ (t ≤ℤ utc l))) dues

  IsDue-skip :
      (after l : ℤ) (rest : List ℤ)
      → (utc l ≡ ts.error_timestamp) ⊎ (utc l ≤ℤ after)
      → (r : Option ℤ) → IsDue after rest r
      → IsDue after (l ∷ rest) r
  IsDue-skip after l rest skipped none h = (skipped, h)
  IsDue-skip after l rest skipped (some t) h = (inr h.0, h.1, h.2)

  first_due-IsDue : (after : ℤ) (dues : List ℤ) → IsDue after dues (first_due ts options after dues)
  unfolding first_due
  first_due-IsDue after [] = tt
  first_due-IsDue after (l ∷ rest) =
      let later = first_due-IsDue after rest in
      elim (Bool-cases (eqb_ℤ (utc l) ts.error_timestamp)) [
        | inl t ↦ rw t (
            IsDue-skip after l rest (inl (eqb_ℤ→eq (utc l) ts.error_timestamp t))
              (first_due ts options after rest) later)
        | inr t ↦ elim (Bool-cases (ltb_ℤ after (utc l))) [
          | inl k ↦ rw (t, k) (inl refl, eqb_ℤ→ne (utc l) ts.error_timestamp t, ground (arith, k))
          | inr k ↦
              rw (t, k)
                (IsDue-skip after l rest (inr (ground (arith, k))) (first_due ts options after rest)
                  later)
        ]
      ]

  -- The scan of `max_days` days from the day of `after` on gives a time of an allowed day and
  -- second that exists in UTC and lies after `after`; it gives none only if no such time exists.
  pub scan_local_days-IsDue :
      (after : ℤ) (max_days : ℕ) (day_allowed : Date → Bool) (seconds_for_day : Date → List ℤ)
      → IsDue after
          (window_dues ts options
            (local_day_start_ms ts (utc_to_local_ms ts options after))
            day_allowed
            seconds_for_day
            (suc max_days)
            0)
          (scan_local_days ts options after max_days day_allowed seconds_for_day)
  unfolding scan_local_days
  scan_local_days-IsDue after max_days day_allowed seconds_for_day =
      let day_start = local_day_start_ms ts (utc_to_local_ms ts options after) in
      let dues = window_dues ts options day_start day_allowed seconds_for_day (suc max_days) 0 in
      rw (scan_days_lem ts options after day_start day_allowed seconds_for_day (suc max_days) 0)
        (first_due-IsDue after dues)

  module _ (fixed : ts.has_named_zone options.clock ≡ false) where
    utc_mono : (a b : ℤ) → a ≤ℤ b → utc a ≤ℤ utc b
    unfolding local_to_utc_ms
    utc_mono a b h =
        let shift : ℤ = ts.offset_at_utc_ms options.clock (pos 0) *ℤ ts.ms_per_sec in
        rw fixed (omega (arith, h, -ℤ_parts a shift, -ℤ_parts b shift))

    IsLeast-skip :
        (after l : ℤ) (rest : List ℤ)
        → (utc l ≡ ts.error_timestamp) ⊎ (utc l ≤ℤ after)
        → (r : Option ℤ) → IsLeast after rest r
        → IsLeast after (l ∷ rest) r
    IsLeast-skip after l rest skipped none h = (skipped, h)
    IsLeast-skip after l rest (inl e) (some t) h = ((inr h.0.0, h.0.1, h.0.2), (inl e, h.1))
    IsLeast-skip after l rest (inr e) (some t) h = ((inr h.0.0, h.0.1, h.0.2), (inr (inl e), h.1))

    first_due-IsLeast :
        (after : ℤ) (dues : List ℤ)
        → InOrder dues
        → IsLeast after dues (first_due ts options after dues)
    unfolding first_due
    first_due-IsLeast after [] order = tt
    first_due-IsLeast after (l ∷ rest) order =
        let later = first_due-IsLeast after rest order.1 in
        elim (Bool-cases (eqb_ℤ (utc l) ts.error_timestamp)) [
          | inl t ↦ rw t (
              IsLeast-skip after l rest (inl (eqb_ℤ→eq (utc l) ts.error_timestamp t))
                (first_due ts options after rest) later)
          | inr t ↦ elim (Bool-cases (ltb_ℤ after (utc l))) [
            | inl k ↦
                rw (t, k)
                  (
                    (inl refl, eqb_ℤ→ne (utc l) ts.error_timestamp t, ground (arith, k)),
                    (
                      inr (inr (omega arith)),
                      All-mono (λ (x : ℤ). l ≤ℤ x)
                          (λ (x : ℤ).
                            (utc x ≡ ts.error_timestamp) ⊎ ((utc x ≤ℤ after) ⊎ (utc l ≤ℤ utc x)))
                          (λ x h. inr (inr (utc_mono l x h))) rest order.0,
                    ),
                  )
            | inr k ↦
                rw (t, k)
                  (IsLeast-skip after l rest (inr (ground (arith, k)))
                    (first_due ts options after rest) later)
          ]
        ]

    pub scan_local_days-IsLeast :
        HasLastSecond ts
        → (after : ℤ) (max_days : ℕ) (day_allowed : Date → Bool) (seconds_for_day : Date → List ℤ)
        → ((dt : Date) → InDay ts (seconds_for_day dt))
        → ((dt : Date) → Ascending (seconds_for_day dt))
        → IsLeast after
            (window_dues ts options
              (local_day_start_ms ts (utc_to_local_ms ts options after))
              day_allowed
              seconds_for_day
              (suc max_days)
              0)
            (scan_local_days ts options after max_days day_allowed seconds_for_day)
    unfolding scan_local_days
    scan_local_days-IsLeast last after max_days day_allowed seconds_for_day valid ascending =
        let day_start = local_day_start_ms ts (utc_to_local_ms ts options after) in
        let dues = window_dues ts options day_start day_allowed seconds_for_day (suc max_days) 0 in
        rw (scan_days_lem ts options after day_start day_allowed seconds_for_day (suc max_days) 0) (
          first_due-IsLeast after dues
            (window_dues-InOrder ts last options day_start day_allowed seconds_for_day valid
              ascending (suc max_days) 0).0)
