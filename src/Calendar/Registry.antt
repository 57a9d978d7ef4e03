-- ===== src/Calendar/Registry.antt =====
-- The map of the active tasks of a scheduler, and what every operation keeps of it.
use event_hub_cpp.Prelude.{
  ℕ, ◌==◌, ◌≤◌, ◌<◌, ◌≡◌, ◌∙◌, refl, subst, ◌⊎◌, inl, inr, ℤ, Bool, true, false, some, List, [],
  ◌∷◌, All, Bool-cases, Option-cases, ==→eq, if_ind, arith,
}
use event_hub_cpp.TaskManager.Types.{Manager, find_index, erase_index}
use event_hub_cpp.Calendar.Types.{CalendarObserverEvent, CalendarObserverInfo}
use event_hub_cpp.Calendar.Core.{State, Core, emit, cancel_scheduled}

-- An entry of the map leads to a state that was made, has this id and is not cancelled.
abbrev pub IsEntry : (allocated : ℕ) → (ℕ → State) → (ℕ × ℕ) → Type 0
IsEntry allocated states item =
    (item.1 < allocated) × ((states item.1).id ≡ item.0) × ((states item.1).is_cancelled ≡ false)

abbrev pub IsRegistered : Core → Type 0
IsRegistered core = All (IsEntry core.allocated core.states) core.tasks

-- As IsEntry, except that the state `p` may be cancelled.
abbrev pub IsEntryBut : ℕ → (allocated : ℕ) → (ℕ → State) → (ℕ × ℕ) → Type 0
IsEntryBut p allocated states item =
    (item.1 < allocated)
    × ((states item.1).id ≡ item.0)
    × ((item.1 ≡ p) ⊎ ((states item.1).is_cancelled ≡ false))

abbrev pub IsRegisteredBut : ℕ → Core → Type 0
IsRegisteredBut p core = All (IsEntryBut p core.allocated core.states) core.tasks

-- A later state: a state object keeps its id and stays cancelled, and a closed scheduler closed.
pub record Later (a b : Core) : Type 0 where
  pub grows : a.allocated ≤ b.allocated
  pub same_id : (p : ℕ) → p < a.allocated → (b.states p).id ≡ (a.states p).id
  pub stays_cancelled :
      (p : ℕ)
      → p < a.allocated
      → ((a.states p).is_cancelled ≡ false) ⊎ ((b.states p).is_cancelled ≡ true)
  pub stays_closed : (a.closed ≡ false) ⊎ (b.closed ≡ true)

pub flag_cases : (b : Bool) → (b ≡ false) ⊎ (b ≡ true)
flag_cases true = inr refl
flag_cases false = inl refl

chain :
    {x y z : Bool} → (x ≡ false) ⊎ (y ≡ true) → (y ≡ false) ⊎ (z ≡ true) → (x ≡ false) ⊎ (z ≡ true)
chain (inl e) k = inl e
chain (inr e) (inl k) = cc
chain (inr e) (inr k) = inr k

pub Later-refl : (a : Core) → Later a a
Later-refl a = record {
  grows = omega arith;
  same_id = λ p h. refl;
  stays_cancelled = λ p h. flag_cases (a.states p).is_cancelled;
  stays_closed = flag_cases a.closed;
}

pub Later-trans : {a b c : Core} → Later a b → Later b c → Later a c
Later-trans x y = record {
  grows = omega (arith, x.grows, y.grows);
  same_id = λ p h. y.same_id p (omega (arith, x.grows)) ∙ x.same_id p h;
  stays_cancelled =
      λ p h. chain (x.stays_cancelled p h) (y.stays_cancelled p (omega (arith, x.grows)));
  stays_closed = chain x.stays_closed y.stays_closed;
}

-- A later state that keeps the map well formed.
pub record Step (a b : Core) : Type 0 where
  pub later : Later a b
  pub registered : IsRegistered a → IsRegistered b

pub Step-refl : (a : Core) → Step a a
Step-refl a = record { later = Later-refl a; registered = λ h. h }

pub Step-trans : {a b c : Core} → Step a b → Step b c → Step a c
Step-trans x y = record {
  later = Later-trans x.later y.later;
  registered = λ h. y.registered (x.registered h);
}

pub erase_task-All {κ} :
    (P : (ℕ × ℕ) → Type κ) (id : ℕ) (items : List (ℕ × ℕ))
    → All P items
    → All P (erase_index id items)
unfolding erase_index
erase_task-All P id [] h = tt
erase_task-All P id ((k, p) ∷ items) h = elim (Bool-cases (k == id)) [
  | inl e ↦ rw e (erase_task-All P id items h.1)
  | inr e ↦ rw e (h.0, erase_task-All P id items h.1)
]

pub find_task-IsEntry {κ} :
    (P : (ℕ × ℕ) → Type κ) (id p : ℕ) (items : List (ℕ × ℕ))
    → All P items
    → find_index id items ≡ some p
    → P (id, p)
unfolding find_index
find_task-IsEntry P id p [] h e = cc
find_task-IsEntry P id p ((k, q) ∷ items) h e = elim (Bool-cases (k == id)) [
  | inl t ↦
      let s : some q ≡ some p = rw t at e in
      let item : (k, q) ≡ (id, p) = cc (s, ==→eq k id t) in subst P item h.0
  | inr t ↦ find_task-IsEntry P id p items h.1 (rw t at e)
]

pub Step-manager : (m : Manager) (core : Core) → Step core (record core { manager = m })
Step-manager m core = record {
  later = record {
    grows = omega arith;
    same_id = λ p h. refl;
    stays_cancelled = λ p h. flag_cases (core.states p).is_cancelled;
    stays_closed = flag_cases core.closed;
  };
  registered = λ h. h;
}

pub Step-runs : (runs : List ℕ) (core : Core) → Step core (record core { runs = runs })
Step-runs runs core = record {
  later = record {
    grows = omega arith;
    same_id = λ p h. refl;
    stays_cancelled = λ p h. flag_cases (core.states p).is_cancelled;
    stays_closed = flag_cases core.closed;
  };
  registered = λ h. h;
}

-- An observer sees nothing else change.
pub emit_ind {κ} :
    (P : Core → Type κ) (p : ℕ) (event : CalendarObserverEvent) (planned observed : ℤ)
    (task_id run_count : ℕ) (core : Core)
    → ((informed : List CalendarObserverInfo) → P (record core { informed = informed }))
    → P (emit p event planned observed task_id run_count core)
unfolding emit
emit_ind P p event planned observed task_id run_count core h =
    elim (Option-cases (core.states p).options.observer) [
      | inl e ↦ rw (e, emit) (h core.informed)
      | inr (o, e) ↦ rw (e, emit) (h _)
    ]

pub Step-emit :
    (p : ℕ) (event : CalendarObserverEvent) (planned observed : ℤ) (task_id run_count : ℕ)
    (core : Core)
    → Step core (emit p event planned observed task_id run_count core)
Step-emit p event planned observed task_id run_count core =
    emit_ind (λ (c : Core). Step core c) p event planned observed task_id run_count core
      (λ informed. record {
        later = record {
          grows = omega arith;
          same_id = λ q h. refl;
          stays_cancelled = λ q h. flag_cases (core.states q).is_cancelled;
          stays_closed = flag_cases core.closed;
        };
        registered = λ h. h;
      })

pub Step-cancel_scheduled : (task_id : ℕ) (core : Core) → Step core (cancel_scheduled task_id core)
unfolding cancel_scheduled
Step-cancel_scheduled task_id core =
    if_ind (λ (c : Core). Step core c) (task_id == 0) (λ t. Step-refl core)
      (λ t. Step-manager _ core)
