-- ===== src/TaskManager/Due.antt =====
-- The delayed heap: its order, promotion of what is due and the wait up to the next deadline.
use event_hub_cpp.Prelude.{
  ℕ, zero, suc, ◌≤◌, ◌≡◌, ◌⊎◌, ℤ, pos, ◌-ℤ◌, -ℤ_parts, ◌≤ℤ◌, ◌<ℤ◌, leb_ℤ, leb_ℤ→lt, refl, true,
  false, Option, none, some, List, [], ◌∷◌, length, All, All-mono, Bool-cases, inl, inr, arith, ap,
  sym, subst,
}
use event_hub_cpp.TaskManager.Types.{
  queued_delayed, queued_ready, Control, Entry, Manager, delayed_sooner, set_state, has_ready,
  increment_ready_count,
}
use event_hub_cpp.TaskManager.Delayed.{
  push_heap, prune_heap, prune_delayed_top, is_dead, promote_entry, promote_front, promote_loop,
  promote_due, next_deadline,
}
use event_hub_cpp.TaskManager.Cancel.{wait_until, recommend_wait_for}
use event_hub_cpp.TaskManager.Invariant.Defs.{push_heap-All}
use event_hub_cpp.TaskManager.Invariant.Delayed.{transition_cases}

-- No entry of the heap is due before one that stands in front of it.
abbrev pub Sorted : List Entry → Type 0
Sorted [] = Unit
Sorted (e ∷ es) = All (λ f. e.due ≤ℤ f.due) es × Sorted es

-- Neither entry that the comparator puts behind the other is due first.
sooner-le : (e x : Entry) → delayed_sooner e x ≡ true → x.due ≤ℤ e.due
unfolding delayed_sooner
sooner-le e x h = ground arith

not_sooner-le : (e x : Entry) → delayed_sooner e x ≡ false → e.due ≤ℤ x.due
unfolding delayed_sooner
not_sooner-le e x h = ground arith

≤ℤ_trans : (a b c : ℤ) → a ≤ℤ b → b ≤ℤ c → a ≤ℤ c
≤ℤ_trans a b c h k = omega arith

-- Pushing an entry onto the heap keeps the order by deadline.
pub push_heap-Sorted : (e : Entry) (es : List Entry) → Sorted es → Sorted (push_heap e es)
unfolding push_heap
push_heap-Sorted e [] s = (tt, tt)
push_heap-Sorted e (x ∷ es) s = elim (Bool-cases (delayed_sooner e x)) [
  | inl t ↦ rw t (
    push_heap-All (λ (f : Entry). x.due ≤ℤ f.due) e es (sooner-le e x t) s.0,
    push_heap-Sorted e es s.1,
  )
  | inr t ↦
      let le = not_sooner-le e x t in
      rw t (
        (
          le,
          All-mono (λ (f : Entry). x.due ≤ℤ f.due) (λ (f : Entry). e.due ≤ℤ f.due)
              (λ f h. ≤ℤ_trans e.due x.due f.due le h) es s.0,
        ),
        s,
      )
]

pub prune_heap-Sorted :
    (controls : ℕ → Control) (es : List Entry) → Sorted es → Sorted (prune_heap controls es)
unfolding prune_heap
prune_heap-Sorted controls [] s = tt
prune_heap-Sorted controls (e ∷ es) s = elim (Bool-cases (is_dead (controls e.control).state)) [
  | inl t ↦ rw t (prune_heap-Sorted controls es s.1)
  | inr t ↦ rw t s
]

prune_heap-length :
    (controls : ℕ → Control) (es : List Entry) → length (prune_heap controls es) ≤ length es
unfolding prune_heap
prune_heap-length controls [] = omega arith
prune_heap-length controls (e ∷ es) = elim (Bool-cases (is_dead (controls e.control).state)) [
  | inl t ↦ rw t (omega (arith, prune_heap-length controls es))
  | inr t ↦ rw t (omega arith)
]

promote_entry-heap : (e : Entry) (m : Manager) → (promote_entry e m).delayed_heap ≡ m.delayed_heap
unfolding promote_entry set_state increment_ready_count
promote_entry-heap e m = elim (transition_cases e.control queued_delayed queued_ready m) [
  | inl t ↦ rw (t, promote_entry) refl
  | inr (t, was) ↦ rw (t, promote_entry) refl
]

-- No entry of the heap is due at `now`, and the heap is in order.
abbrev pub Exhausted : ℤ → Manager → Type 0
Exhausted now m = All (λ e. now <ℤ e.due) m.delayed_heap × Sorted m.delayed_heap

promote_front-Exhausted :
    (fuel : ℕ) (now : ℤ) (continue : Manager → Manager)
    → ((m : Manager)
        → Sorted m.delayed_heap
        → length m.delayed_heap ≤ fuel
        → Exhausted now (continue m))
    → (heap : List Entry) (m : Manager) → m.delayed_heap ≡ heap
    → Sorted heap
    → length heap ≤ suc fuel
    → Exhausted now (promote_front continue now heap m)
unfolding promote_front prune_delayed_top
promote_front-Exhausted fuel now continue next [] m same s le = rw same (tt, tt)
promote_front-Exhausted fuel now continue next (e ∷ rest) m same s le =
    elim (Bool-cases (leb_ℤ e.due now)) [
      | inl t ↦
          let popped : Manager = record m { delayed_heap = rest } in
          let promoted = promote_entry e popped in
          let pruned =
            prune_heap-Sorted promoted.controls promoted.delayed_heap
              (subst Sorted (sym (promote_entry-heap e popped)) s.1) in
          simp t (
            next (prune_delayed_top promoted) pruned (
              omega (
                arith,
                prune_heap-length promoted.controls promoted.delayed_heap,
                ap length (promote_entry-heap e popped),
                le,
              )))
      | inr t ↦
          let later = leb_ℤ→lt e.due now t in
          simp (t, same)
            (
              (
                later,
                All-mono (λ (f : Entry). e.due ≤ℤ f.due) (λ (f : Entry). now <ℤ f.due)
                    (λ f h. omega (arith, later, h)) rest s.0,
              ),
              s,
            )
    ]

Exhausted-empty :
    (now : ℤ) (m : Manager) (heap : List Entry)
    → m.delayed_heap ≡ heap
    → length heap ≤ 0
    → Exhausted now m
Exhausted-empty now m [] same le = rw same (tt, tt)
Exhausted-empty now m (e ∷ es) same le = absurd (omega (arith, le))

promote_loop-Exhausted :
    (fuel : ℕ) (now : ℤ) (m : Manager)
    → Sorted m.delayed_heap
    → length m.delayed_heap ≤ fuel
    → Exhausted now (promote_loop fuel now m)
unfolding promote_loop
promote_loop-Exhausted zero now m s le = Exhausted-empty now m m.delayed_heap refl le
promote_loop-Exhausted (suc fuel) now m s le =
    promote_front-Exhausted fuel now (promote_loop fuel now) (promote_loop-Exhausted fuel now)
      m.delayed_heap m refl s le

-- When the heap is in order by deadline, promotion of what is due at `now` ends with the heap in
-- order and without any entry whose deadline is `now` or earlier: no round is missing.
pub promote_due-Exhausted :
    (now : ℤ) (m : Manager) → Sorted m.delayed_heap → Exhausted now (promote_due now m)
unfolding promote_due prune_delayed_top
promote_due-Exhausted now m s =
    promote_loop-Exhausted (length (prune_heap m.controls m.delayed_heap)) now (prune_delayed_top m)
      (prune_heap-Sorted m.controls m.delayed_heap s) (omega arith)

-- The wait is at most the cap, and it does not pass the deadline that is given.
wait_until-le : (now cap : ℤ) (d : Option ℤ) → pos 0 ≤ℤ cap → wait_until now cap d ≤ℤ cap
unfolding wait_until
wait_until-le now cap none h = omega arith
wait_until-le now cap (some d) h = ground (arith, -ℤ_parts d now)

wait_until-ge : (now cap : ℤ) (d : Option ℤ) → pos 0 ≤ℤ cap → pos 0 ≤ℤ wait_until now cap d
unfolding wait_until
wait_until-ge now cap none h = h
wait_until-ge now cap (some d) h = ground (arith, -ℤ_parts d now)

-- For a cap that is not negative, the recommended wait lies between zero and the cap.
pub recommend_wait_for_bounds :
    (now cap : ℤ) (m : Manager)
    → pos 0 ≤ℤ cap
    → (pos 0 ≤ℤ (recommend_wait_for now cap m).1) × ((recommend_wait_for now cap m).1 ≤ℤ cap)
unfolding recommend_wait_for
recommend_wait_for_bounds now cap m h = elim (Bool-cases (has_ready m)) [
  | inl t ↦ rw t (omega arith, h)
  | inr t ↦
      let d = (next_deadline m).1 in rw t (wait_until-ge now cap d h, wait_until-le now cap d h)
]

wait_until_prompt :
    (now cap d : ℤ)
    → pos 0 ≤ℤ cap
    → ((leb_ℤ d now ≡ true) × (wait_until now cap (some d) ≡ pos 0))
      ⊎ (wait_until now cap (some d) ≤ℤ (d -ℤ now))
unfolding wait_until
wait_until_prompt now cap d h = elim (Bool-cases (leb_ℤ d now)) [
  | inl t ↦ inl (t, rw t refl)
  | inr t ↦ inr (ground (arith, t, -ℤ_parts d now))
]

-- The recommended wait never passes the next deadline: for a cap that is not negative and no ready
-- task, when next_deadline() gives `d`, either `d` is due and the wait is zero, or the wait is at
-- most the time from `now` to `d`.
pub recommend_wait_for_prompt :
    (now cap d : ℤ) (m : Manager)
    → pos 0 ≤ℤ cap
    → has_ready m ≡ false
    → (next_deadline m).1 ≡ some d
    → ((leb_ℤ d now ≡ true) × ((recommend_wait_for now cap m).1 ≡ pos 0))
      ⊎ ((recommend_wait_for now cap m).1 ≤ℤ (d -ℤ now))
unfolding recommend_wait_for
recommend_wait_for_prompt now cap d m h idle next = rw (idle, next) (wait_until_prompt now cap d h)
