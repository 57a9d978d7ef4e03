-- ===== src/TaskManager/Invariant/Defs.antt =====
-- The invariant of TaskManager: the two atomic counters agree with the states of the controls, and
-- every entry and index item refers to a control that was made.
use event_hub_cpp.Prelude.{
  ℕ, ◌%◌, ◌≤◌, ◌<◌, ◌≡◌, refl, Bool, true, false, some, List, [], ◌∷◌, ◌++◌, All, All-mono,
  All-append, All-append_left, All-append_right, total, u64_mod, ◌==◌, ◌∙◌, Option-cases,
  Bool-cases, inl, inr, arith,
}
use event_hub_cpp.Task.{TaskPriority, high, normal, low}
use event_hub_cpp.TaskManager.Types.{
  State, queued_ready, queued_delayed, ready_snapshot, executing, cancelled, completed, Control,
  Entry, Manager, Queues, entries, push_back, push_front, find_index, erase_index, emplace_index,
  delayed_sooner,
}
use event_hub_cpp.TaskManager.Delayed.{push_heap, prune_heap, is_dead}

abbrev pub is_ready : State → ℕ
is_ready queued_ready = 1
is_ready _ = 0

-- A periodic task counts as pending while it executes, a one-shot task does not.
abbrev pub is_pending : State → Bool → ℕ
is_pending queued_ready periodic = 1
is_pending queued_delayed periodic = 1
is_pending ready_snapshot periodic = 1
is_pending executing true = 1
is_pending executing false = 0
is_pending cancelled periodic = 0
is_pending completed periodic = 0

abbrev pub ready_weight : Control → ℕ
ready_weight c = is_ready c.state

abbrev pub pending_weight : Control → ℕ
pending_weight c = is_pending c.state c.periodic

-- The numbers of ready and of pending tasks, counted over the controls.
abbrev pub ready_total : Manager → ℕ
ready_total m = total ready_weight m.allocated m.controls

abbrev pub pending_total : Manager → ℕ
pending_total m = total pending_weight m.allocated m.controls

-- The entry refers to a control that was made, of its own kind.
abbrev pub IsMade : ℕ → (ℕ → Control) → Entry → Type 0
IsMade allocated controls e = (e.control < allocated) × ((controls e.control).periodic ≡ e.periodic)

abbrev pub IsIndexed : ℕ → (ℕ × ℕ) → Type 0
IsIndexed allocated item = item.1 < allocated

pub record IsValid (m : Manager) : Type 0 where
  pub ready_exact : m.ready_count ≡ ready_total m % u64_mod
  pub pending_exact : m.pending_count ≡ pending_total m % u64_mod
  pub index_made : All (IsIndexed m.allocated) m.index
  pub ready_made : All (IsMade m.allocated m.controls) (entries m.ready)
  pub delayed_made : All (IsMade m.allocated m.controls) m.delayed_heap

-- A later state: more controls may have been made, and none has changed its kind.
pub record Extends (m m' : Manager) : Type 0 where
  pub grows : m.allocated ≤ m'.allocated
  pub keeps : (p : ℕ) → p < m.allocated → (m'.controls p).periodic ≡ (m.controls p).periodic

pub Extends-refl : (m : Manager) → Extends m m
Extends-refl m = record { grows = omega arith; keeps = λ p h. refl }

pub Extends-trans : {a b c : Manager} → Extends a b → Extends b c → Extends a c
Extends-trans x y = record {
  grows = omega (arith, x.grows, y.grows);
  keeps = λ p h. y.keeps p (omega (arith, x.grows)) ∙ x.keeps p h;
}

pub IsMade-later :
    {m m' : Manager} (x : Extends m m') (es : List Entry)
    → All (IsMade m.allocated m.controls) es
    → All (IsMade m'.allocated m'.controls) es
IsMade-later {m} {m'} x es =
    All-mono (IsMade m.allocated m.controls) (IsMade m'.allocated m'.controls)
      (λ e h. (omega (arith, x.grows), x.keeps e.control h.0 ∙ h.1)) es

pub IsIndexed-later :
    (a b : ℕ) (items : List (ℕ × ℕ)) → a ≤ b → All (IsIndexed a) items → All (IsIndexed b) items
IsIndexed-later a b [] le h = tt
IsIndexed-later a b (x ∷ items) le h = (omega arith, IsIndexed-later a b items le h.1)

pub erase_index-All :
    (n id : ℕ) (items : List (ℕ × ℕ))
    → All (IsIndexed n) items
    → All (IsIndexed n) (erase_index id items)
unfolding erase_index
erase_index-All n id [] h = tt
erase_index-All n id ((k, p) ∷ items) h = elim (Bool-cases (k == id)) [
  | inl e ↦ rw e (erase_index-All n id items h.1)
  | inr e ↦ rw e (h.0, erase_index-All n id items h.1)
]

pub emplace_index-All :
    (n id p : ℕ) (items : List (ℕ × ℕ))
    → p < n
    → All (IsIndexed n) items
    → All (IsIndexed n) (emplace_index id p items)
unfolding emplace_index
emplace_index-All n id p items lt h = elim (Option-cases (find_index id items)) [
  | inl e ↦ rw (e, emplace_index) (lt, h)
  | inr (q, e) ↦ rw (e, emplace_index) h
]

-- The index leads only to controls that were made.
pub find_index-made :
    (n id p : ℕ) (items : List (ℕ × ℕ))
    → All (IsIndexed n) items
    → find_index id items ≡ some p
    → p < n
unfolding find_index
find_index-made n id p [] h e = cc
find_index-made n id p ((k, q) ∷ items) h e = elim (Bool-cases (k == id)) [
  | inl t ↦ let s : some q ≡ some p = rw t at e in ground arith
  | inr t ↦ find_index-made n id p items h.1 (rw t at e)
]

module _ {κ} (P : Entry → Type κ) (e : Entry) where
  pub push_back-All :
      (priority : TaskPriority) (q : Queues)
      → P e
      → All P (entries q)
      → All P (entries (push_back priority e q))
  unfolding push_back
  push_back-All high q h all =
      let rest = q.normal_queue ++ q.low_queue in
      All-append P (q.high_queue ++ (e ∷ [])) rest
        (All-append P q.high_queue (e ∷ []) (All-append_left P q.high_queue rest all) (h, tt))
        (All-append_right P q.high_queue rest all)
  push_back-All normal q h all =
      let rest = q.normal_queue ++ q.low_queue in
      let after = All-append_right P q.high_queue rest all in
      All-append P q.high_queue ((q.normal_queue ++ (e ∷ [])) ++ q.low_queue)
        (All-append_left P q.high_queue rest all)
        (All-append P (q.normal_queue ++ (e ∷ [])) q.low_queue
          (All-append P q.normal_queue (e ∷ []) (All-append_left P q.normal_queue q.low_queue after)
            (h, tt))
          (All-append_right P q.normal_queue q.low_queue after))
  push_back-All low q h all =
      let rest = q.normal_queue ++ q.low_queue in
      let after = All-append_right P q.high_queue rest all in
      All-append P q.high_queue (q.normal_queue ++ (q.low_queue ++ (e ∷ [])))
        (All-append_left P q.high_queue rest all)
        (All-append P q.normal_queue (q.low_queue ++ (e ∷ []))
          (All-append_left P q.normal_queue q.low_queue after)
          (All-append P q.low_queue (e ∷ []) (All-append_right P q.normal_queue q.low_queue after)
            (h, tt)))

  pub push_front-All :
      (priority : TaskPriority) (q : Queues)
      → P e
      → All P (entries q)
      → All P (entries (push_front priority e q))
  unfolding push_front
  push_front-All high q h all = (h, all)
  push_front-All normal q h all =
      let rest = q.normal_queue ++ q.low_queue in
      All-append P q.high_queue (e ∷ rest) (All-append_left P q.high_queue rest all)
        (h, All-append_right P q.high_queue rest all)
  push_front-All low q h all =
      let rest = q.normal_queue ++ q.low_queue in
      let after = All-append_right P q.high_queue rest all in
      All-append P q.high_queue (q.normal_queue ++ (e ∷ q.low_queue))
        (All-append_left P q.high_queue rest all)
        (All-append P q.normal_queue (e ∷ q.low_queue)
          (All-append_left P q.normal_queue q.low_queue after)
          (h, All-append_right P q.normal_queue q.low_queue after))

  pub push_heap-All : (es : List Entry) → P e → All P es → All P (push_heap e es)
  unfolding push_heap
  push_heap-All [] h all = (h, tt)
  push_heap-All (x ∷ es) h all = elim (Bool-cases (delayed_sooner e x)) [
    | inl t ↦ rw t (all.0, push_heap-All es h all.1)
    | inr t ↦ rw t (h, all)
  ]

pub prune_heap-All {κ} :
    (P : Entry → Type κ) (controls : ℕ → Control) (es : List Entry)
    → All P es
    → All P (prune_heap controls es)
unfolding prune_heap
prune_heap-All P controls [] all = tt
prune_heap-All P controls (e ∷ es) all = elim (Bool-cases (is_dead (controls e.control).state)) [
  | inl t ↦ rw t (prune_heap-All P controls es all.1)
  | inr t ↦ rw t all
]
