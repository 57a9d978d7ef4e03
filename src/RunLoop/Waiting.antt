-- ===== src/RunLoop/Waiting.antt =====
-- How long the loop waits.
use event_hub_cpp.Prelude.{
  ℕ, ◌==◌, ◌≡◌, ◌∙◌, refl, ap, subst, ◌⊎◌, inl, inr, ℤ, pos, ◌-ℤ◌, -ℤ_parts, ◌≤ℤ◌, leb_ℤ, if_ind,
  true, Option, none, some, List, [], ◌∷◌, All, All-mono, write, Bool-cases, ==→eq, arith,
}
use event_hub_cpp.TaskManager.Types.{Control, Entry, Manager, has_ready}
use event_hub_cpp.TaskManager.Delayed.{is_dead, prune_heap, prune_delayed_top, next_deadline}
use event_hub_cpp.RunLoop.Loop.{
  RunLoop, Sources, wait_until_due, shorter, with_deadline, waits_from, next_task_wait,
}

-- A wait does not last beyond the deadline: it is zero for one that is due.
abbrev pub IsPrompt : (now : ℤ) → Option ℤ → (deadline : Option ℤ) → Type 0
IsPrompt now wait none = Unit
IsPrompt now none (some d) = ⊥
IsPrompt now (some w) (some d) = ((leb_ℤ d now ≡ true) × (w ≤ℤ pos 0)) ⊎ (w ≤ℤ (d -ℤ now))

prune_heap_again :
    (controls : ℕ → Control) (es : List Entry)
    → prune_heap controls (prune_heap controls es) ≡ prune_heap controls es
unfolding prune_heap
prune_heap_again controls [] = refl
prune_heap_again controls (e ∷ es) = elim (Bool-cases (is_dead (controls e.control).state)) [
  | inl t ↦ rw t (prune_heap_again controls es)
  | inr t ↦ rw (t, t) refl
]

-- next_deadline() answers the same when it is asked again.
next_deadline_again : (m : Manager) → (next_deadline (next_deadline m).0).1 ≡ (next_deadline m).1
unfolding next_deadline prune_delayed_top
next_deadline_again m = rw (prune_heap_again m.controls m.delayed_heap) refl

-- The wait is at most another one.
abbrev AtMost : Option ℤ → Option ℤ → Type 0
AtMost wait none = Unit
AtMost none (some w) = ⊥
AtMost (some v) (some w) = v ≤ℤ w

AtMost-refl : (a : Option ℤ) → AtMost a a
AtMost-refl none = tt
AtMost-refl (some a) = omega arith

AtMost-trans : (a b c : Option ℤ) → AtMost a b → AtMost b c → AtMost a c
AtMost-trans a b none h k = tt
AtMost-trans a none (some c) h k = absurd k
AtMost-trans none (some b) (some c) h k = absurd h
AtMost-trans (some a) (some b) (some c) h k = omega (arith, h, k)

with_deadline-AtMost :
    (now : ℤ) (best deadline : Option ℤ) → AtMost (with_deadline now best deadline) best
unfolding shorter
with_deadline-AtMost now best none = AtMost-refl best
with_deadline-AtMost now none (some d) = tt
with_deadline-AtMost now (some b) (some d) = ground arith

IsPrompt-shorter :
    (now : ℤ) (a b deadline : Option ℤ)
    → AtMost a b
    → IsPrompt now b deadline
    → IsPrompt now a deadline
IsPrompt-shorter now a b none h k = tt
IsPrompt-shorter now a none (some d) h k = absurd k
IsPrompt-shorter now none (some b) (some d) h k = absurd h
IsPrompt-shorter now (some a) (some b) (some d) h (inl k) = inl (k.0, omega (arith, h, k.1))
IsPrompt-shorter now (some a) (some b) (some d) h (inr k) = inr (omega (arith, h, k))

due-IsPrompt : (now d : ℤ) → IsPrompt now (some (wait_until_due now d)) (some d)
due-IsPrompt now d = elim (Bool-cases (leb_ℤ d now)) [
  | inl t ↦ rw t (inl (refl, omega arith))
  | inr t ↦ rw t (inr (omega arith))
]

with_deadline-IsPrompt :
    (now : ℤ) (best deadline : Option ℤ) → IsPrompt now (with_deadline now best deadline) deadline
unfolding shorter
with_deadline-IsPrompt now best none = tt
with_deadline-IsPrompt now none (some d) = due-IsPrompt now d
with_deadline-IsPrompt now (some b) (some d) =
    let wait : ℤ = wait_until_due now d in
    IsPrompt-shorter now (some (shorter (some b) wait)) (some wait) (some d) (ground arith)
      (due-IsPrompt now d)

abbrev pub NotNegative : Option ℤ → Type 0
NotNegative none = Unit
NotNegative (some w) = pos 0 ≤ℤ w

with_deadline-NotNegative :
    (now : ℤ) (best deadline : Option ℤ)
    → NotNegative best
    → NotNegative (with_deadline now best deadline)
unfolding shorter
with_deadline-NotNegative now best none h = h
with_deadline-NotNegative now none (some d) h = ground (arith, -ℤ_parts d now)
with_deadline-NotNegative now (some b) (some d) h = ground (arith, -ℤ_parts d now)

zero-IsPrompt : (now : ℤ) (deadline : Option ℤ) → IsPrompt now (some (pos 0)) deadline
zero-IsPrompt now none = tt
zero-IsPrompt now (some d) = elim (Bool-cases (leb_ℤ d now)) [
  | inl t ↦ inl (t, omega arith)
  | inr t ↦ inr (ground (arith, t, -ℤ_parts d now))
]

zero-AtMost : (best : Option ℤ) → NotNegative best → AtMost (some (pos 0)) best
zero-AtMost none h = tt
zero-AtMost (some b) h = h

-- What the managers answer does not change when one of them is asked.
asked_again :
    (p q : ℕ) (s : Sources)
    → (next_deadline (write s.manager_at p (next_deadline (s.manager_at p)).0 q)).1
      ≡ (next_deadline (s.manager_at q)).1
asked_again p q s = elim (Bool-cases (p == q)) [
  | inl e ↦ rw e (
      next_deadline_again (s.manager_at p)
      ∙ ap (λ (x : ℕ). (next_deadline (s.manager_at x)).1) (==→eq p q e))
  | inr e ↦ rw e refl
]

-- The result of the loop from a best wait on.
record IsBest (now : ℤ) (best : Option ℤ) (managers : List ℕ) (s : Sources) (wait : Option ℤ)
    : Type 0 where
  not_negative : NotNegative wait
  at_most : AtMost wait best
  prompt : All (λ p. IsPrompt now wait (next_deadline (s.manager_at p)).1) managers

All-zero :
    (now : ℤ) (managers : List ℕ) (s : Sources)
    → All (λ p. IsPrompt now (some (pos 0)) (next_deadline (s.manager_at p)).1) managers
All-zero now [] s = tt
All-zero now (p ∷ rest) s =
    (zero-IsPrompt now (next_deadline (s.manager_at p)).1, All-zero now rest s)

waits_from-IsBest :
    (now : ℤ) (best : Option ℤ) (managers : List ℕ) (s : Sources)
    → NotNegative best
    → IsBest now best managers s (waits_from now best managers s).1
unfolding waits_from
waits_from-IsBest now best [] s h = record {
  not_negative = h;
  at_most = AtMost-refl best;
  prompt = tt;
}
waits_from-IsBest now best (p ∷ rest) s h =
    let (m, deadline) = next_deadline (s.manager_at p) in
    let asked = record s { manager_at = write s.manager_at p m } in
    let best₁ = with_deadline now best deadline in
    let wait = (waits_from now best₁ rest asked).1 in
    let later =
      waits_from-IsBest now best₁ rest asked (with_deadline-NotNegative now best deadline h) in
    if_ind (λ (y : Sources × Option ℤ). IsBest now best (p ∷ rest) s y.1)
      (has_ready (s.manager_at p))
      (λ t. record {
        not_negative = omega arith;
        at_most = zero-AtMost best h;
        prompt = All-zero now (p ∷ rest) s;
      })
      (λ t. record {
        not_negative = later.not_negative;
        at_most =
            AtMost-trans wait best₁ best later.at_most (with_deadline-AtMost now best deadline);
        prompt = (
          IsPrompt-shorter now wait best₁ deadline later.at_most
              (with_deadline-IsPrompt now best deadline),
          All-mono (λ q. IsPrompt now wait (next_deadline (asked.manager_at q)).1)
              (λ q. IsPrompt now wait (next_deadline (s.manager_at q)).1)
              (λ q k. subst (IsPrompt now wait) (asked_again p q s) k) rest later.prompt,
        );
      })

-- The wait of next_task_wait() is not negative and does not last beyond the next deadline of any
-- manager of the loop: it is zero if that deadline is due, else at most the time until then, and
-- there is a wait if any manager has a deadline.
pub next_task_wait-IsPrompt :
    (now : ℤ) (loop : RunLoop) (s : Sources)
    → let wait = (next_task_wait now loop s).1 in
      NotNegative wait
      × All (λ p. IsPrompt now wait (next_deadline (s.manager_at p)).1) loop.task_managers
unfolding next_task_wait
next_task_wait-IsPrompt now loop s =
    let best = waits_from-IsBest now none loop.task_managers s tt in
    (best.not_negative, best.prompt)
