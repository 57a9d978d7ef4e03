-- ===== src/TaskManager/Deadline.antt =====
-- The deadline that next_deadline() gives.
use event_hub_cpp.Prelude.{
  ℕ, ◌≡◌, ◌⊎◌, ℤ, ◌≤ℤ◌, refl, true, false, Option, none, some, List, [], ◌∷◌, Any, All, All-mono,
  Bool-cases, inl, inr, arith,
}
use event_hub_cpp.TaskManager.Types.{Control, Entry, Manager}
use event_hub_cpp.TaskManager.Delayed.{
  prune_heap, prune_delayed_top, is_dead, next_deadline, front_due,
}
use event_hub_cpp.TaskManager.Due.{Sorted}

-- The entry is of a task that was cancelled or has completed.
abbrev pub IsDead : (ℕ → Control) → Entry → Type 0
IsDead controls e = is_dead (controls e.control).state ≡ true

-- The deadline of an entry that is not dead, with no earlier one among the entries that are not
-- dead; without a deadline every entry is dead.
abbrev pub IsNext : (ℕ → Control) → Option ℤ → List Entry → Type 0
IsNext controls none es = All (IsDead controls) es
IsNext controls (some d) es =
    Any (λ e. (e.due ≡ d) × (is_dead (controls e.control).state ≡ false)) es
    × All (λ e. IsDead controls e ⊎ (d ≤ℤ e.due)) es

IsNext-cons :
    (controls : ℕ → Control) (next : Option ℤ) (e : Entry) (es : List Entry)
    → IsDead controls e
    → IsNext controls next es
    → IsNext controls next (e ∷ es)
IsNext-cons controls none e es dead h = (dead, h)
IsNext-cons controls (some d) e es dead h = (inr h.0, (inl dead, h.1))

front_due-IsNext :
    (controls : ℕ → Control) (es : List Entry)
    → Sorted es
    → IsNext controls (front_due (prune_heap controls es)) es
unfolding front_due prune_heap
front_due-IsNext controls [] s = tt
front_due-IsNext controls (e ∷ es) s = elim (Bool-cases (is_dead (controls e.control).state)) [
  | inl dead ↦ rw dead (IsNext-cons controls _ e es dead (front_due-IsNext controls es s.1))
  | inr live ↦ rw live (
    inl (refl, live),
    (
      inr (omega arith),
      All-mono (λ (f : Entry). e.due ≤ℤ f.due) (λ (f : Entry). IsDead controls f ⊎ (e.due ≤ℤ f.due))
          (λ (f : Entry) h. inr h) es s.0,
    ),
  )
]

-- On a heap in order by deadline, next_deadline() returns the least deadline of the entries whose
-- tasks are neither cancelled nor completed; it returns none only when there is no such entry.
pub next_deadline-IsNext :
    (m : Manager) → Sorted m.delayed_heap → IsNext m.controls (next_deadline m).1 m.delayed_heap
unfolding next_deadline prune_delayed_top
next_deadline-IsNext m s = front_due-IsNext m.controls m.delayed_heap s
