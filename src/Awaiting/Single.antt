-- ===== src/Awaiting/Single.antt =====
-- A single-shot awaiter ends once.
use native.Mathlib.Nat.{zero-add}
use event_hub_cpp.Prelude.{
  ℕ, ◌+◌, ◌==◌, ◌≤◌, ◌<◌, ◌≡◌, ◌∙◌, refl, ap, subst, ◌⊎◌, inl, inr, Bool, true, false, not, List,
  [], ◌∷◌, sym, write, Bool-cases, ==→eq, if◌then◌else◌, if_ind, arith,
}
use event_hub_cpp.Awaiting.Awaiter.{Awaiter, World, set_awaiter, cancel_awaiter}

abbrev pub one_if : Bool → ℕ
one_if true = 1
one_if false = 0

-- How often a callback of the awaiter was called, and its on_timeout.
unfoldable pub fired_count : ℕ → List (ℕ × ℕ) → ℕ
fired_count a [] = 0
fired_count a ((b, payload) ∷ rest) = one_if (b == a) + fired_count a rest

unfoldable pub timeout_count : ℕ → List ℕ → ℕ
timeout_count a [] = 0
timeout_count a (b ∷ rest) = one_if (b == a) + timeout_count a rest

abbrev pub ends : World → ℕ → ℕ
ends w a = fired_count a w.fired + timeout_count a w.timed_out

abbrev pub active : Awaiter → ℕ
active x = one_if (not x.cancelled)

-- A single-shot awaiter that has ended is not active, and nothing happens at a free address.
pub record IsSingle (awaiters : ℕ → Awaiter) (allocated : ℕ) (ended : ℕ → ℕ) : Type 0 where
  pub bounded :
      (a : ℕ)
      → a < allocated
      → ((awaiters a).single_shot ≡ false) ⊎ (ended a + active (awaiters a) ≤ 1)
  pub unmade : (a : ℕ) → allocated ≤ a → (ended a ≡ 0) × (active (awaiters a) ≡ 0)

abbrev pub IsSound : World → Type 0
IsSound w = IsSingle w.awaiters w.allocated (ends w)

-- The awaiter `b` is written and ends `k` times more.
update :
    (awaiters : ℕ → Awaiter) (n : ℕ) (ended ended' : ℕ → ℕ) (b k : ℕ) (y : Awaiter)
    → IsSingle awaiters n ended
    → ((a : ℕ) → ended' a ≡ (if b == a then k + ended a else ended a))
    → y.single_shot ≡ (awaiters b).single_shot
    → k ≤ active (awaiters b)
    → active y ≤ active (awaiters b)
    → (y.single_shot ≡ false) ⊎ (k + active y ≤ active (awaiters b))
    → IsSingle (write awaiters b y) n ended'
update awaiters n ended ended' b k y s more same few less single = record {
  bounded = λ a h. elim (Bool-cases (b == a)) [
    | inl e ↦
        let now : ended' a ≡ k + ended a = rw e at (more a) in
        rw e (
          bound (s.bounded b (subst (λ (x : ℕ). x < n) (eq a e) h))
            (now ∙ ap (λ (x : ℕ). k + ended x) (eq a e)))
    | inr e ↦ let now : ended' a ≡ ended a = rw e at (more a) in rw (e, now) (s.bounded a h)
  ];
  unmade = λ a h. elim (Bool-cases (b == a)) [
    | inl e ↦
        let now : ended' a ≡ k + ended a = rw e at (more a) in
        let free : (ended a ≡ 0) × (active (awaiters a) ≡ 0) = s.unmade a h in
        let idle : active (awaiters b) ≡ 0 =
          subst (λ (x : ℕ). active (awaiters x) ≡ 0) (eq a e) free.1 in
        rw e (omega (arith, now, free.0, idle, few), omega (arith, idle, less))
    | inr e ↦ let now : ended' a ≡ ended a = rw e at (more a) in rw (e, now) (s.unmade a h)
  ];
}
  where
    eq : (a : ℕ) → (b == a) ≡ true → a ≡ b
    eq a e = sym (==→eq b a e)

    bound :
        {m : ℕ}
        → ((awaiters b).single_shot ≡ false) ⊎ (ended b + active (awaiters b) ≤ 1)
        → m ≡ k + ended b
        → (y.single_shot ≡ false) ⊎ (m + active y ≤ 1)
    bound (inl multi) now = inl (same ∙ multi)
    bound (inr once) now = elim single [
      | inl multi ↦ inl multi
      | inr one ↦ inr (omega (arith, once, now, one))
    ]

-- The awaiter is written and does not end.
pub quiet :
    (w : World) (b : ℕ) (y : Awaiter)
    → IsSound w
    → y.single_shot ≡ (w.awaiters b).single_shot
    → active y ≤ active (w.awaiters b)
    → IsSingle (write w.awaiters b y) w.allocated (ends w)
quiet w b y s same less =
    update w.awaiters w.allocated (ends w) (ends w) b 0 y s
      (λ a. elim (Bool-cases (b == a)) [
        | inl e ↦ rw e (sym (zero-add (ends w a)))
        | inr e ↦ rw e refl
      ])
      same (omega arith) less (inr (omega (arith, less)))

pub cancel-Sound : (b : ℕ) (w : World) → IsSound w → IsSound (cancel_awaiter b w)
unfolding cancel_awaiter set_awaiter
cancel-Sound b w s =
    let x = w.awaiters b in
    if_ind IsSound x.cancelled (λ t. s)
      (λ t.
        quiet w b (record x { cancelled = true; subscription_id = 0; retained = false }) s refl
          (omega arith))

-- An active awaiter is written and ends once.
pub ends_once :
    (w : World) (b : ℕ) (y : Awaiter) (ended' : ℕ → ℕ)
    → IsSound w
    → (w.awaiters b).cancelled ≡ false
    → ((a : ℕ) → ended' a ≡ one_if (b == a) + ends w a)
    → y.single_shot ≡ (w.awaiters b).single_shot
    → (y.single_shot ≡ false) ⊎ (y.cancelled ≡ true)
    → IsSingle (write w.awaiters b y) w.allocated ended'
ends_once w b y ended' s live more same over =
    update w.awaiters w.allocated (ends w) ended' b 1 y s
      (λ a. elim (Bool-cases (b == a)) [
        | inl e ↦ let now : ended' a ≡ 1 + ends w a = rw e at (more a) in rw e now
        | inr e ↦
            let now : ended' a ≡ 0 + ends w a = rw e at (more a) in rw e (now ∙ zero-add (ends w a))
      ])
      same (rw live (omega arith)) (rw live (at_most (not y.cancelled)))
      (elim over [ inl multi ↦ inl multi | inr done ↦ inr (rw (done, live) (omega arith)) ])
  where
    at_most : (b : Bool) → one_if b ≤ 1
    at_most true = omega arith
    at_most false = omega arith

-- As ends_once, for an awaiter that stays as it is, since it is not single-shot.
pub ends_again :
    (w : World) (b : ℕ) (ended' : ℕ → ℕ)
    → IsSound w
    → (w.awaiters b).cancelled ≡ false
    → (w.awaiters b).single_shot ≡ false
    → ((a : ℕ) → ended' a ≡ one_if (b == a) + ends w a)
    → IsSingle w.awaiters w.allocated ended'
ends_again w b ended' s live multi more = record {
  bounded = λ a h. elim (Bool-cases (b == a)) [
    | inl e ↦ inl (subst (λ (x : ℕ). (w.awaiters x).single_shot ≡ false) (==→eq b a e) multi)
    | inr e ↦ rw (others a e) (s.bounded a h)
  ];
  unmade = λ a h. elim (Bool-cases (b == a)) [
    | inl e ↦
        let idle : active (w.awaiters b) ≡ 0 =
          subst (λ (x : ℕ). active (w.awaiters x) ≡ 0) (sym (==→eq b a e)) (s.unmade a h).1 in
        let one : 1 ≡ 0 = rw live at idle in absurd (omega (arith, one))
    | inr e ↦ rw (others a e) (s.unmade a h)
  ];
}
  where
    others : (a : ℕ) → (b == a) ≡ false → ended' a ≡ ends w a
    others a e = let now : ended' a ≡ 0 + ends w a = rw e at (more a) in now ∙ zero-add (ends w a)
