-- ===== src/Calendar/Registered.antt =====
-- Marking, cancelling and scheduling the states of a scheduler keeps its map well formed.
use event_hub_cpp.Prelude.{
  ℕ, ◌==◌, ◌≡◌, ◌∙◌, refl, sym, ap, subst, ◌⊎◌, inl, inr, Bool, true, false, List, [], ◌∷◌, All,
  All-mono, write, Bool-cases, ==→eq, ==→ne, ==_self, arith,
}
use event_hub_cpp.TaskManager.Types.{erase_index}
use event_hub_cpp.Calendar.Core.{State, Core, set_state, mark_completed}
use event_hub_cpp.Calendar.Registry.{
  IsEntry, IsRegistered, IsEntryBut, IsRegisteredBut, Later, Later-trans, Step, flag_cases,
}

-- A write to a state that keeps its id, and does not take back that it is cancelled.
pub Later-set_state :
    (p : ℕ) (s : State) (core : Core)
    → s.id ≡ (core.states p).id
    → ((core.states p).is_cancelled ≡ false) ⊎ (s.is_cancelled ≡ true)
    → Later core (set_state p s core)
unfolding set_state
Later-set_state p s core same keeps = record {
  grows = omega arith;
  same_id = λ q h. elim (Bool-cases (p == q)) [
    | inl e ↦ rw e (same ∙ ap (λ (x : ℕ). (core.states x).id) (==→eq p q e))
    | inr e ↦ rw e refl
  ];
  stays_cancelled = λ q h. elim (Bool-cases (p == q)) [
    | inl e ↦ rw e (
        subst (λ (x : ℕ). ((core.states x).is_cancelled ≡ false) ⊎ (s.is_cancelled ≡ true))
          (==→eq p q e) keeps)
    | inr e ↦ rw e (flag_cases (core.states q).is_cancelled)
  ];
  stays_closed = flag_cases core.closed;
}

-- One that changes neither keeps the map well formed.
pub Step-set_state :
    (p : ℕ) (s : State) (core : Core)
    → s.id ≡ (core.states p).id
    → s.is_cancelled ≡ (core.states p).is_cancelled
    → Step core (set_state p s core)
unfolding set_state
Step-set_state p s core same_id same = record {
  later = Later-set_state p s core same_id (
      subst (λ (b : Bool). ((core.states p).is_cancelled ≡ false) ⊎ (b ≡ true)) (sym same)
        (flag_cases (core.states p).is_cancelled));
  registered =
      All-mono (IsEntry core.allocated core.states) (IsEntry core.allocated (write core.states p s))
        (λ item h. elim (Bool-cases (p == item.1)) [
          | inl e ↦
              let q = ==→eq p item.1 e in
              rw e (
                h.0,
                (same_id ∙ (ap (λ (x : ℕ). (core.states x).id) q ∙ h.1)),
                (same ∙ (ap (λ (x : ℕ). (core.states x).is_cancelled) q ∙ h.2)),
              )
          | inr e ↦ rw e h
        ])
        core.tasks;
}

pub cancelled_but :
    (p : ℕ) (core : Core)
    → IsRegistered core
    → IsRegisteredBut p (set_state p (record (core.states p) { is_cancelled = true }) core)
unfolding set_state
cancelled_but p core =
    All-mono (IsEntry core.allocated core.states)
      (IsEntryBut p core.allocated
        (write core.states p (record (core.states p) { is_cancelled = true })))
      (λ item h. elim (Bool-cases (p == item.1)) [
        | inl e ↦
            let q = ==→eq p item.1 e in
            rw e (h.0, (ap (λ (x : ℕ). (core.states x).id) q ∙ h.1), inl (sym q))
        | inr e ↦ rw e (h.0, h.1, inr h.2)
      ])
      core.tasks

-- Without the entries of its id, a state that is cancelled is no exception any more.
pub erase_but :
    (p id allocated : ℕ) (states : ℕ → State) (items : List (ℕ × ℕ))
    → (states p).id ≡ id
    → All (IsEntryBut p allocated states) items
    → All (IsEntry allocated states) (erase_index id items)
unfolding erase_index
erase_but p id allocated states [] own h = tt
erase_but p id allocated states ((k, q) ∷ items) own h = elim (Bool-cases (k == id)) [
  | inl e ↦ rw e (erase_but p id allocated states items own h.1)
  | inr e ↦ rw e (live e h.0, erase_but p id allocated states items own h.1)
]
  where
    live :
        (k == id) ≡ false → IsEntryBut p allocated states (k, q) → IsEntry allocated states (k, q)
    live e (lt, same, inl r) =
        absurd (==→ne k id e (sym same ∙ (ap (λ (x : ℕ). (states x).id) r ∙ own)))
    live e (lt, same, inr alive) = (lt, same, alive)

abbrev pub marked : ℕ → Core → Core
marked p core = set_state p (record (core.states p) { is_cancelled = true }) core

pub Later-marked : (p : ℕ) (core : Core) → Later core (marked p core)
Later-marked p core = Later-set_state p _ core refl (inr refl)

pub Later-tasks : (tasks : List (ℕ × ℕ)) (core : Core) → Later core (record core { tasks = tasks })
Later-tasks tasks core = record {
  grows = omega arith;
  same_id = λ p h. refl;
  stays_cancelled = λ p h. flag_cases (core.states p).is_cancelled;
  stays_closed = flag_cases core.closed;
}

-- mark_completed also repairs a map whose only cancelled entries are those of the state.
pub mark_completed-but :
    (p : ℕ) (core : Core) → IsRegisteredBut p core → IsRegistered (mark_completed p core)
unfolding mark_completed set_state
mark_completed-but p core h =
    erase_but p (core.states p).id core.allocated
      (write core.states p (record (core.states p) { is_cancelled = true })) core.tasks
      (rw (==_self p) refl)
      (All-mono (IsEntryBut p core.allocated core.states)
        (IsEntryBut p core.allocated
          (write core.states p (record (core.states p) { is_cancelled = true })))
        (λ item k. elim (Bool-cases (p == item.1)) [
          | inl e ↦
              let q = ==→eq p item.1 e in
              rw e (k.0, (ap (λ (x : ℕ). (core.states x).id) q ∙ k.1), inl (sym q))
          | inr e ↦ rw e k
        ])
        core.tasks h)

pub Later-mark_completed : (p : ℕ) (core : Core) → Later core (mark_completed p core)
unfolding mark_completed
Later-mark_completed p core =
    Later-trans (Later-marked p core)
      (Later-tasks (erase_index (core.states p).id core.tasks) (marked p core))

pub weaken_but : (p : ℕ) (core : Core) → IsRegistered core → IsRegisteredBut p core
weaken_but p core =
    All-mono (IsEntry core.allocated core.states) (IsEntryBut p core.allocated core.states)
      (λ item h. (h.0, h.1, inr h.2)) core.tasks

pub Step-mark_completed : (p : ℕ) (core : Core) → Step core (mark_completed p core)
Step-mark_completed p core = record {
  later = Later-mark_completed p core;
  registered = λ h. mark_completed-but p core (weaken_but p core h);
}
