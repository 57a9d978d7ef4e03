-- ===== src/Prelude/Totals.antt =====
-- Objects named by number: a write to one of them, and sums of a weight over the ones that exist.
use Prim.Native.Nat.{ℕ, zero, suc, ◌+◌, ◌≤◌, ◌<◌}
use mathlib.Core.Path.{◌≡◌, refl}
use native.Mathlib.Omega.{arith}
use native.Mathlib.Decide.{dec_lt}
use event_hub_cpp.Prelude.Tests.{◌==◌, if◌then◌else◌}

abbrev pub write {ℓ} : {A : Type ℓ} → (ℕ → A) → ℕ → A → ℕ → A
write store slot object q = if slot == q then object else store q

module _ {ℓ} {A : Type ℓ} (weight : A → ℕ) where
  -- The sum over the objects with a number below the given one.
  pub total : ℕ → (ℕ → A) → ℕ
  total zero store = 0
  total (suc made) store = weight (store made) + total made store

  pub total-zero : (store : ℕ → A) → total 0 store ≡ 0
  unfolding total
  total-zero store = refl

  pub total-suc :
      (made : ℕ) (store : ℕ → A) → total (suc made) store ≡ weight (store made) + total made store
  unfolding total
  total-suc made store = refl

  -- Objects from `made` on do not count.
  pub total-write_fresh :
      (made : ℕ) (store : ℕ → A) (slot : ℕ) (object : A)
      → made ≤ slot
      → total made (write store slot object) ≡ total made store
  unfolding total
  total-write_fresh zero store slot object outside = refl
  total-write_fresh (suc made) store slot object outside =
      let below = total-write_fresh made store slot object (omega (arith, outside)) in
      ground (arith, below, outside)

  -- A write trades the weight of the old object for that of the new one.
  pub total-write :
      (made : ℕ) (store : ℕ → A) (slot : ℕ) (object : A)
      → slot < made
      → weight (store slot) + total made (write store slot object)
        ≡ weight object + total made store
  unfolding total
  total-write zero store slot object inside = absurd (omega (arith, inside))
  total-write (suc made) store slot object inside = elim (dec_lt slot made) [
    | yes earlier ↦ ground (arith, earlier, total-write made store slot object earlier)
    | no latest ↦
        let fixed = total-write_fresh made store slot object (omega (arith, latest)) in
        ground (arith, inside, latest, fixed)
  ]

  pub total-ge :
      (made : ℕ) (store : ℕ → A) (slot : ℕ) → slot < made → weight (store slot) ≤ total made store
  unfolding total
  total-ge zero store slot inside = absurd (omega arith)
  total-ge (suc made) store slot inside = elim (dec_lt slot made) [
    | yes earlier ↦ omega (arith, total-ge made store slot earlier)
    | no latest ↦ ground arith
  ]

  -- A sum that is not zero has an object that contributes.
  pub total_pos :
      (made : ℕ) (store : ℕ → A)
      → 0 < total made store
      → (slot : ℕ) × (slot < made) × (0 < weight (store slot))
  unfolding total
  total_pos zero store some_weight = absurd (omega arith)
  total_pos (suc made) store some_weight = elim (dec_lt 0 (weight (store made))) [
    | yes here ↦ (made, omega arith, here)
    | no light ↦
        let (slot, inside, heavy) = total_pos made store (omega arith) in (slot, omega arith, heavy)
  ]

  pub total-le :
      ((object : A) → weight object ≤ 1) → (made : ℕ) (store : ℕ → A) → total made store ≤ made
  unfolding total
  total-le light zero store = omega arith
  total-le light (suc made) store =
      let here = light (store made) in
      let rest = total-le light made store in omega (arith, here, rest)

  -- Two writes to one object count as the last of them.
  pub total-write-write :
      (made : ℕ) (store : ℕ → A) (slot : ℕ) (first last : A)
      → slot < made
      → weight (store slot) + total made (write (write store slot first) slot last)
        ≡ weight last + total made store
  total-write-write made store slot first last inside = ground (
    arith,
    total-write made store slot first inside,
    total-write made (write store slot first) slot last inside,
  )

  -- A new object takes the next number.
  pub total-write_new :
      (made : ℕ) (store : ℕ → A) (object : A)
      → total (suc made) (write store made object) ≡ weight object + total made store
  unfolding total
  total-write_new made store object =
      ground (arith, total-write_fresh made store made object (omega arith))
