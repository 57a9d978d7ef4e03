-- ===== src/Calendar/Order.antt =====
-- The local times of a scan are in order.
use native.Mathlib.Nat.{mul-le-mul_right, suc-mul}
use event_hub_cpp.Prelude.{
  ℕ, zero, suc, ◌+◌, ◌*◌, ◌≤◌, ◌≡◌, subst, inl, inr, ℤ, pos, negsuc, pos_part, neg_part, ◌+ℤ◌, ◌≤ℤ◌,
  ◌<ℤ◌, eq_of_parts, pos_mul, +ℤ_parts, Bool, true, List, [], ◌∷◌, ◌++◌, All, All-mono, All-append,
  Bool-cases, arith,
}
use event_hub_cpp.Calendar.TimeShield.{Date, TimeShield, HasLastSecond}
use event_hub_cpp.Calendar.Types.{CalendarTaskOptions, in_day}
use event_hub_cpp.Calendar.Detail.{local_due, day_at}
use event_hub_cpp.Calendar.Seconds.{Ascending}
use event_hub_cpp.Calendar.Scan.{day_dues, window_dues}

-- The list is in order, though equal times may stand beside each other.
abbrev pub InOrder : List ℤ → Type 0
InOrder [] = Unit
InOrder (x ∷ xs) = All (λ y. x ≤ℤ y) xs × InOrder xs

-- All lie from the first time on, and before the second.
abbrev Within : ℤ → ℤ → List ℤ → Type 0
Within lo hi xs = All (λ x. (lo ≤ℤ x) × (x <ℤ hi)) xs

InOrder-append :
    (lo mid hi : ℤ) (xs ys : List ℤ)
    → InOrder xs
    → Within lo mid xs
    → InOrder ys
    → All (λ y. mid ≤ℤ y) ys
    → InOrder (xs ++ ys)
InOrder-append lo mid hi [] ys s w t above = t
InOrder-append lo mid hi (x ∷ xs) ys s w t above = (
  All-append (λ (y : ℤ). x ≤ℤ y) xs ys s.0
      (All-mono (λ (y : ℤ). mid ≤ℤ y) (λ (y : ℤ). x ≤ℤ y) (λ y h. omega (arith, h, w.0.1)) ys
        above),
  InOrder-append lo mid hi xs ys s.1 w.1 t above,
)

add_pos :
    (a : ℤ) (n : ℕ) → pos_part (a +ℤ pos n) + neg_part a ≡ neg_part (a +ℤ pos n) + pos_part a + n
add_pos a n = omega (arith, +ℤ_parts a (pos n))

module _ (ts : TimeShield) where
  abbrev pub InDay : List ℤ → Type 0
  InDay seconds = All (λ s. in_day ts s ≡ true) seconds

  local_due-within :
      HasLastSecond ts
      → (day s : ℤ) → in_day ts s ≡ true
      → (day ≤ℤ local_due ts day s) × (local_due ts day s <ℤ (day +ℤ pos ts.ms_per_day))
  local_due-within last day (pos n) h =
      let small : n ≤ ts.max_sec_per_day = ground (arith, h) in
      let scaled = mul-le-mul_right ts.ms_per_sec small in
      rw (pos_mul n ts.ms_per_sec) (
        omega (arith, add_pos day (n * ts.ms_per_sec)),
        omega (arith, last, scaled, add_pos day (n * ts.ms_per_sec), add_pos day ts.ms_per_day),
      )
  local_due-within last day (negsuc n) h = absurd (ground (arith, h))

  local_due-mono :
      (day s t : ℤ) → in_day ts s ≡ true → s <ℤ t → local_due ts day s ≤ℤ local_due ts day t
  local_due-mono day (pos n) (pos k) h lt =
      let scaled = mul-le-mul_right {m = n} {n = k} ts.ms_per_sec (omega (arith, lt)) in
      rw (pos_mul n ts.ms_per_sec, pos_mul k ts.ms_per_sec)
        (omega (arith, scaled, add_pos day (n * ts.ms_per_sec), add_pos day (k * ts.ms_per_sec)))
  local_due-mono day (pos n) (negsuc k) h lt = absurd (omega (arith, lt))
  local_due-mono day (negsuc n) t h lt = absurd (ground (arith, h))

  module _ (last : HasLastSecond ts) (options : CalendarTaskOptions) where
    day_dues-Within :
        (day : ℤ) (seconds : List ℤ)
        → InDay seconds
        → Within day (day +ℤ pos ts.ms_per_day) (day_dues ts options day seconds)
    unfolding day_dues
    day_dues-Within day [] v = tt
    day_dues-Within day (s ∷ rest) v =
        (local_due-within last day s v.0, day_dues-Within day rest v.1)

    day_dues-above :
        (day s : ℤ) (rest : List ℤ)
        → in_day ts s ≡ true
        → All (λ t. s <ℤ t) rest
        → All (λ l. local_due ts day s ≤ℤ l) (day_dues ts options day rest)
    unfolding day_dues
    day_dues-above day s [] h above = tt
    day_dues-above day s (t ∷ rest) h above =
        (local_due-mono day s t h above.0, day_dues-above day s rest h above.1)

    day_dues-InOrder :
        (day : ℤ) (seconds : List ℤ)
        → InDay seconds
        → Ascending seconds
        → InOrder (day_dues ts options day seconds)
    unfolding day_dues
    day_dues-InOrder day [] v s = tt
    day_dues-InOrder day (x ∷ rest) v s =
        (day_dues-above day x rest v.0 s.0, day_dues-InOrder day rest v.1 s.1)

    day_at-suc :
        (day_start : ℤ) (offset : ℕ)
        → day_at ts day_start (suc offset) ≡ day_at ts day_start offset +ℤ pos ts.ms_per_day
    day_at-suc day_start offset =
        rw (pos_mul (suc offset) ts.ms_per_day, pos_mul offset ts.ms_per_day)
          (eq_of_parts _ _ (
            omega (
              arith,
              suc-mul offset ts.ms_per_day,
              add_pos day_start (suc offset * ts.ms_per_day),
              add_pos day_start (offset * ts.ms_per_day),
              add_pos (day_start +ℤ pos (offset * ts.ms_per_day)) ts.ms_per_day,
            )))

    module _ (day_start : ℤ) (day_allowed : Date → Bool) (seconds_for_day : Date → List ℤ)
        (valid : (dt : Date) → InDay (seconds_for_day dt))
        (ascending : (dt : Date) → Ascending (seconds_for_day dt)) where
      pub window_dues-InOrder :
          (left offset : ℕ)
          → InOrder (window_dues ts options day_start day_allowed seconds_for_day left offset)
            × All
                (λ l. day_at ts day_start offset ≤ℤ l)
                (window_dues ts options day_start day_allowed seconds_for_day left offset)
      unfolding window_dues
      window_dues-InOrder zero offset = (tt, tt)
      window_dues-InOrder (suc left) offset =
          let day = day_at ts day_start offset in
          let dt = ts.date_of day in
          let rest =
            window_dues ts options day_start day_allowed seconds_for_day left (suc offset) in
          let (order, above) = window_dues-InOrder left (suc offset) in
          let next = day_at-suc day_start offset in
          let after_day : All (λ l. (day +ℤ pos ts.ms_per_day) ≤ℤ l) rest =
            subst (λ (d : ℤ). All (λ l. d ≤ℤ l) rest) next above in
          let from_day : All (λ l. day ≤ℤ l) rest =
            All-mono (λ (l : ℤ). (day +ℤ pos ts.ms_per_day) ≤ℤ l) (λ (l : ℤ). day ≤ℤ l)
              (λ l h. omega (arith, h, add_pos day ts.ms_per_day)) rest after_day in
          let within = day_dues-Within day (seconds_for_day dt) (valid dt) in
          elim (Bool-cases (day_allowed dt)) [
            | inl t ↦ rw t (
              InOrder-append day (day +ℤ pos ts.ms_per_day) day
                  (day_dues ts options day (seconds_for_day dt)) rest
                  (day_dues-InOrder day (seconds_for_day dt) (valid dt) (ascending dt)) within order
                  after_day,
              All-append (λ (l : ℤ). day ≤ℤ l) (day_dues ts options day (seconds_for_day dt)) rest
                  (All-mono (λ (l : ℤ). (day ≤ℤ l) × (l <ℤ (day +ℤ pos ts.ms_per_day)))
                    (λ (l : ℤ). day ≤ℤ l) (λ l h. h.0)
                    (day_dues ts options day (seconds_for_day dt)) within)
                  from_day,
            )
            | inr t ↦ rw t (order, from_day)
          ]
