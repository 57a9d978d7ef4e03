-- ===== src/TaskManager/Located/Defs.antt =====
-- The places of entries: every live control has its entry where its state names.
use event_hub_cpp.Prelude.{
  ℕ, ◌<◌, ◌≡◌, ◌≢◌, refl, subst, inl, inr, List, ◌∷◌, Any, ◌==◌, ==→eq, ==→ne, Bool-cases,
}
use event_hub_cpp.TaskManager.Types.{
  State, queued_ready, queued_delayed, ready_snapshot, executing, cancelled, completed, Control,
  Entry, Manager, entries, set_control,
}

-- The control `p` has an entry in the list.
abbrev pub Holds : ℕ → List Entry → Type 0
Holds p es = Any (λ e. e.control ≡ p) es

-- The ready queues, the delayed heap, the rest of the batch that process() holds, and the entry
-- whose callback is running.
pub record Places : Type 0 where
  pub ready : List Entry
  pub delayed : List Entry
  pub batch : List Entry
  pub running : List Entry

abbrev pub Placed : Places → ℕ → State → Type 0
Placed l p queued_ready = Holds p l.ready
Placed l p queued_delayed = Holds p l.delayed
Placed l p ready_snapshot = Holds p l.batch
Placed l p executing = Holds p l.running
Placed l p cancelled = Unit
Placed l p completed = Unit

abbrev pub LocatedIn : Places → Manager → Type 0
LocatedIn l m = (p : ℕ) → p < m.allocated → Placed l p (m.controls p).state

abbrev pub places : Manager → List Entry → List Entry → Places
places m batch running = record {
  ready = entries m.ready;
  delayed = m.delayed_heap;
  batch = batch;
  running = running;
}

-- `batch` and `running` are what process() holds outside the manager.
abbrev pub Located : List Entry → List Entry → Manager → Type 0
Located batch running m = LocatedIn (places m batch running) m

-- A change of state moves one control; the others stay where they are.
pub move :
    (l l' : Places) (p : ℕ) (c : Control) (m : Manager)
    → ((q : ℕ) (s : State) → p ≢ q → Placed l q s → Placed l' q s)
    → Placed l' p c.state
    → LocatedIn l m
    → LocatedIn l' (set_control p c m)
unfolding set_control
move l l' p c m others here loc q lt = elim (Bool-cases (p == q)) [
  | inl e ↦ rw e (subst (λ r. Placed l' r c.state) (==→eq p q e) here)
  | inr e ↦ rw e (others q (m.controls q).state (==→ne p q e) (loc q lt))
]

-- Places that no control of their state uses may be left out.
pub relocate :
    (l l' : Places) (m : Manager)
    → ((q : ℕ) → Placed l q (m.controls q).state → Placed l' q (m.controls q).state)
    → LocatedIn l m
    → LocatedIn l' m
relocate l l' m f loc q lt = f q (loc q lt)

-- The head of one of the lists goes away, when it is not in the state of that list.
pub pop_ready :
    (e : Entry) (r d b x : List Entry) (q : ℕ) (s : State)
    → (s ≡ queued_ready → e.control ≢ q)
    → Placed (record { ready = e ∷ r; delayed = d; batch = b; running = x }) q s
    → Placed (record { ready = r; delayed = d; batch = b; running = x }) q s
pop_ready e r d b x q queued_ready ne (inl h) = absurd (ne refl h)
pop_ready e r d b x q queued_ready ne (inr h) = h
pop_ready e r d b x q queued_delayed ne h = h
pop_ready e r d b x q ready_snapshot ne h = h
pop_ready e r d b x q executing ne h = h
pop_ready e r d b x q cancelled ne h = h
pop_ready e r d b x q completed ne h = h

pub pop_delayed :
    (e : Entry) (r d b x : List Entry) (q : ℕ) (s : State)
    → (s ≡ queued_delayed → e.control ≢ q)
    → Placed (record { ready = r; delayed = e ∷ d; batch = b; running = x }) q s
    → Placed (record { ready = r; delayed = d; batch = b; running = x }) q s
pop_delayed e r d b x q queued_delayed ne (inl h) = absurd (ne refl h)
pop_delayed e r d b x q queued_delayed ne (inr h) = h
pop_delayed e r d b x q queued_ready ne h = h
pop_delayed e r d b x q ready_snapshot ne h = h
pop_delayed e r d b x q executing ne h = h
pop_delayed e r d b x q cancelled ne h = h
pop_delayed e r d b x q completed ne h = h

pub pop_batch :
    (e : Entry) (r d b x : List Entry) (q : ℕ) (s : State)
    → (s ≡ ready_snapshot → e.control ≢ q)
    → Placed (record { ready = r; delayed = d; batch = e ∷ b; running = x }) q s
    → Placed (record { ready = r; delayed = d; batch = b; running = x }) q s
pop_batch e r d b x q ready_snapshot ne (inl h) = absurd (ne refl h)
pop_batch e r d b x q ready_snapshot ne (inr h) = h
pop_batch e r d b x q queued_ready ne h = h
pop_batch e r d b x q queued_delayed ne h = h
pop_batch e r d b x q executing ne h = h
pop_batch e r d b x q cancelled ne h = h
pop_batch e r d b x q completed ne h = h

pub pop_running :
    (e : Entry) (r d b x : List Entry) (q : ℕ) (s : State)
    → (s ≡ executing → e.control ≢ q)
    → Placed (record { ready = r; delayed = d; batch = b; running = e ∷ x }) q s
    → Placed (record { ready = r; delayed = d; batch = b; running = x }) q s
pop_running e r d b x q executing ne (inl h) = absurd (ne refl h)
pop_running e r d b x q executing ne (inr h) = h
pop_running e r d b x q queued_ready ne h = h
pop_running e r d b x q queued_delayed ne h = h
pop_running e r d b x q ready_snapshot ne h = h
pop_running e r d b x q cancelled ne h = h
pop_running e r d b x q completed ne h = h

-- The lists may grow.
pub Placed-mono :
    (l l' : Places) (q : ℕ) (s : State)
    → (Holds q l.ready → Holds q l'.ready)
    → (Holds q l.delayed → Holds q l'.delayed)
    → (Holds q l.batch → Holds q l'.batch)
    → (Holds q l.running → Holds q l'.running)
    → Placed l q s
    → Placed l' q s
Placed-mono l l' q queued_ready fr fd fb fx h = fr h
Placed-mono l l' q queued_delayed fr fd fb fx h = fd h
Placed-mono l l' q ready_snapshot fr fd fb fx h = fb h
Placed-mono l l' q executing fr fd fb fx h = fx h
Placed-mono l l' q cancelled fr fd fb fx h = h
Placed-mono l l' q completed fr fd fb fx h = h
