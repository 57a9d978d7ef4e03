-- ===== src/Calendar/Seconds.antt =====
-- What normalize_seconds keeps, and in which order.
use event_hub_cpp.Prelude.{
  ◌≡◌, ◌↔◌, ◌∙◌, sym, ◌⊎◌, inl, inr, ℤ, ◌≤ℤ◌, ◌<ℤ◌, leb_ℤ, eqb_ℤ, eqb_ℤ→eq, Bool, true, not, List,
  [], ◌∷◌, remove_if, All, All-mono, Any, Bool-cases, arith, subst,
}
use event_hub_cpp.Calendar.TimeShield.{TimeShield}
use event_hub_cpp.Calendar.Detail.{
  insert, sort, unique_after, unique, valid_second_of_day, normalize_seconds,
}

-- The number is in the list.
abbrev pub Has : ℤ → List ℤ → Type 0
Has x xs = Any (λ y. y ≡ x) xs

abbrev pub Ascending : List ℤ → Type 0
Ascending [] = Unit
Ascending (x ∷ xs) = All (λ y. x <ℤ y) xs × Ascending xs

abbrev InOrder : List ℤ → Type 0
InOrder [] = Unit
InOrder (x ∷ xs) = All (λ y. x ≤ℤ y) xs × InOrder xs

-- The second of three alternatives comes first.
second_first : {A B C D : Type 0} → (A ⊎ C → D) → A ⊎ (B ⊎ C) → B ⊎ D
second_first f (inl a) = inr (f (inl a))
second_first f (inr (inl b)) = inl b
second_first f (inr (inr c)) = inr (f (inr c))

second_back : {A B C D : Type 0} → (D → A ⊎ C) → B ⊎ D → A ⊎ (B ⊎ C)
second_back f (inl b) = inr (inl b)
second_back {A} {B} {C} {D} f (inr d) = elim (f d) [ inl a ↦ inl a | inr c ↦ inr (inr c) ]

insert_in : (x a : ℤ) (ys : List ℤ) → (a ≡ x) ⊎ Has x ys → Has x (insert a ys)
unfolding insert
insert_in x a [] h = h
insert_in x a (y ∷ ys) h = elim (Bool-cases (leb_ℤ a y)) [
  | inl t ↦ rw t h
  | inr t ↦ rw t (second_first (insert_in x a ys) h)
]

insert_out : (x a : ℤ) (ys : List ℤ) → Has x (insert a ys) → (a ≡ x) ⊎ Has x ys
unfolding insert
insert_out x a [] h = h
insert_out x a (y ∷ ys) h = elim (Bool-cases (leb_ℤ a y)) [
  | inl t ↦ rw t at h
  | inr t ↦ second_back (insert_out x a ys) (rw t at h)
]

sort_in : (x : ℤ) (xs : List ℤ) → Has x xs → Has x (sort xs)
unfolding sort
sort_in x [] h = h
sort_in x (y ∷ ys) (inl e) = insert_in x y (sort ys) (inl e)
sort_in x (y ∷ ys) (inr h) = insert_in x y (sort ys) (inr (sort_in x ys h))

sort_out : (x : ℤ) (xs : List ℤ) → Has x (sort xs) → Has x xs
unfolding sort
sort_out x [] h = h
sort_out x (y ∷ ys) h = elim (insert_out x y (sort ys) h) [
  | inl e ↦ inl e
  | inr k ↦ inr (sort_out x ys k)
]

insert-All : (P : ℤ → Type 0) (a : ℤ) (ys : List ℤ) → P a → All P ys → All P (insert a ys)
unfolding insert
insert-All P a [] h all = (h, tt)
insert-All P a (y ∷ ys) h all = elim (Bool-cases (leb_ℤ a y)) [
  | inl t ↦ rw t (h, all)
  | inr t ↦ rw t (all.0, insert-All P a ys h all.1)
]

insert-InOrder : (a : ℤ) (ys : List ℤ) → InOrder ys → InOrder (insert a ys)
unfolding insert
insert-InOrder a [] s = (tt, tt)
insert-InOrder a (y ∷ ys) s = elim (Bool-cases (leb_ℤ a y)) [
  | inl t ↦
      let le : a ≤ℤ y = ground (arith, t) in
      rw t (
        (le, All-mono (λ (z : ℤ). y ≤ℤ z) (λ (z : ℤ). a ≤ℤ z) (λ z h. omega (arith, le, h)) ys s.0),
        s,
      )
  | inr t ↦
      rw t (insert-All (λ (z : ℤ). y ≤ℤ z) a ys (ground (arith, t)) s.0, insert-InOrder a ys s.1)
]

sort-InOrder : (xs : List ℤ) → InOrder (sort xs)
unfolding sort
sort-InOrder [] = tt
sort-InOrder (x ∷ xs) = insert-InOrder x (sort xs) (sort-InOrder xs)

unique_after_out : (x previous : ℤ) (xs : List ℤ) → Has x (unique_after previous xs) → Has x xs
unfolding unique_after
unique_after_out x previous [] h = h
unique_after_out x previous (y ∷ ys) h = elim (Bool-cases (eqb_ℤ previous y)) [
  | inl t ↦ inr (unique_after_out x previous ys (rw t at h))
  | inr t ↦ elim (kept (rw t at h)) [ inl e ↦ inl e | inr k ↦ inr (unique_after_out x y ys k) ]
]
  where
    kept : Has x (y ∷ unique_after y ys) → (y ≡ x) ⊎ Has x (unique_after y ys)
    kept k = k

unique_after_in :
    (x previous : ℤ) (xs : List ℤ) → Has x xs → (previous ≡ x) ⊎ Has x (unique_after previous xs)
unfolding unique_after
unique_after_in x previous [] h = absurd h
unique_after_in x previous (y ∷ ys) (inl e) = elim (Bool-cases (eqb_ℤ previous y)) [
  | inl t ↦ inl (eqb_ℤ→eq previous y t ∙ e)
  | inr t ↦ rw t (inr (inl e))
]
unique_after_in x previous (y ∷ ys) (inr h) = elim (Bool-cases (eqb_ℤ previous y)) [
  | inl t ↦ rw t (unique_after_in x previous ys h)
  | inr t ↦ rw t (inr (unique_after_in x y ys h))
]

unique_after-Ascending :
    (previous : ℤ) (xs : List ℤ)
    → InOrder (previous ∷ xs)
    → Ascending (previous ∷ unique_after previous xs)
unfolding unique_after
unique_after-Ascending previous [] s = (tt, tt)
unique_after-Ascending previous (y ∷ ys) s = elim (Bool-cases (eqb_ℤ previous y)) [
  | inl t ↦ rw t (unique_after-Ascending previous ys (s.0.1, s.1.1))
  | inr t ↦
      let below : previous <ℤ y = ground (arith, t, s.0.0) in
      let rest = unique_after-Ascending y ys s.1 in
      rw t (
        (
          below,
          All-mono (λ (z : ℤ). y <ℤ z) (λ (z : ℤ). previous <ℤ z) (λ z h. omega (arith, below, h))
              (unique_after y ys) rest.0,
        ),
        rest,
      )
]

unique-Ascending : (xs : List ℤ) → InOrder xs → Ascending (unique xs)
unfolding unique
unique-Ascending [] s = tt
unique-Ascending (x ∷ xs) s = unique_after-Ascending x xs s

unique_in : (x : ℤ) (xs : List ℤ) → Has x xs → Has x (unique xs)
unfolding unique
unique_in x [] h = h
unique_in x (y ∷ ys) (inl e) = inl e
unique_in x (y ∷ ys) (inr h) = unique_after_in x y ys h

unique_out : (x : ℤ) (xs : List ℤ) → Has x (unique xs) → Has x xs
unfolding unique
unique_out x [] h = h
unique_out x (y ∷ ys) (inl e) = inl e
unique_out x (y ∷ ys) (inr h) = inr (unique_after_out x y ys h)

module _ (valid : ℤ → Bool) where
  remove_in :
      (x : ℤ) (xs : List ℤ) → Has x xs → valid x ≡ true → Has x (remove_if (λ s. not (valid s)) xs)
  remove_in x [] h v = h
  remove_in x (y ∷ ys) (inl e) v =
      let here : valid y ≡ true = subst (λ z. valid z ≡ true) (sym e) v in rw here (inl e)
  remove_in x (y ∷ ys) (inr h) v = elim (Bool-cases (valid y)) [
    | inl t ↦ rw t (inr (remove_in x ys h v))
    | inr t ↦ rw t (remove_in x ys h v)
  ]

  remove_out :
      (x : ℤ) (xs : List ℤ)
      → Has x (remove_if (λ s. not (valid s)) xs)
      → Has x xs × (valid x ≡ true)
  remove_out x [] h = absurd h
  remove_out x (y ∷ ys) h = elim (Bool-cases (valid y)) [
    | inl t ↦ kept t (remove_out x ys) (rw t at h)
    | inr t ↦ let (k, v) = remove_out x ys (rw t at h) in (inr k, v)
  ]
    where
      kept :
          valid y ≡ true
          → (Has x (remove_if (λ s. not (valid s)) ys) → Has x ys × (valid x ≡ true))
          → (y ≡ x) ⊎ Has x (remove_if (λ s. not (valid s)) ys)
          → Has x (y ∷ ys) × (valid x ≡ true)
      kept t later (inl e) = (inl e, subst (λ z. valid z ≡ true) e t)
      kept t later (inr k) = let (m, v) = later k in (inr m, v)

-- normalize_seconds() returns a list in strictly ascending order that holds exactly the seconds of
-- the input that are valid seconds of a day.
pub normalize_seconds-Ascending :
    (ts : TimeShield) (seconds : List ℤ) (x : ℤ)
    → Ascending (normalize_seconds ts seconds)
      × (Has x (normalize_seconds ts seconds) ↔ (Has x seconds × (valid_second_of_day ts x ≡ true)))
unfolding normalize_seconds
normalize_seconds-Ascending ts seconds x =
    let kept = remove_if (λ s. not (valid_second_of_day ts s)) seconds in
    (
      unique-Ascending (sort kept) (sort-InOrder kept),
      (
        (λ h.
            remove_out (valid_second_of_day ts) x seconds
              (sort_out x kept (unique_out x (sort kept) h))),
        (λ h.
            unique_in x (sort kept)
              (sort_in x kept (remove_in (valid_second_of_day ts) x seconds h.0 h.1))),
      ),
    )
