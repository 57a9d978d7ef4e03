-- ===== src/TaskManager/Delayed.antt =====
-- The delayed heap of TaskManager. std::push_heap and std::pop_heap keep the vector a heap whose
-- front no other entry precedes; the model lists the entries in the order of `delayed_sooner`, so
-- the front is the head. Entries of equal deadline carry different sequence numbers.
use event_hub_cpp.Prelude.{
  ℕ, zero, suc, ℤ, leb_ℤ, if◌then◌else◌, Bool, ◌||◌, Option, none, some, List, [], ◌∷◌, length,
}
use event_hub_cpp.TaskManager.Types.{
  State, queued_ready, queued_delayed, cancelled, completed, is_state, Control, Entry,
  delayed_sooner, push_back, Manager, transition, increment_ready_count,
}

-- `push_back` and `std::push_heap`.
unfoldable pub push_heap : Entry → List Entry → List Entry
push_heap e [] = e ∷ []
push_heap e (x ∷ rest) =
    let later = x ∷ push_heap e rest in if delayed_sooner e x then later else e ∷ x ∷ rest

abbrev pub is_dead : State → Bool
is_dead state = is_state cancelled state || is_state completed state

-- The loop of prune_delayed_top_locked over the heap.
unfoldable pub prune_heap : (ℕ → Control) → List Entry → List Entry
prune_heap controls [] = []
prune_heap controls (e ∷ rest) =
    let pruned = prune_heap controls rest in
    if is_dead (controls e.control).state then pruned else e ∷ rest

unfoldable pub prune_delayed_top : Manager → Manager
unfolding prune_heap
prune_delayed_top m = record m { delayed_heap = prune_heap m.controls m.delayed_heap }

-- The body of the loop of promote_due_locked for the entry that was popped.
unfoldable pub promote_entry : Entry → Manager → Manager
promote_entry e m = elim (transition e.control queued_delayed queued_ready m) [
  | none ↦ m
  | some m' ↦ increment_ready_count (record m' { ready = push_back e.priority e m'.ready })
]

-- One round of the loop of promote_due_locked over the heap, and the rounds that follow it.
unfoldable pub promote_front : (Manager → Manager) → ℤ → List Entry → Manager → Manager
promote_front continue now [] m = m
promote_front continue now (e ∷ rest) m =
    let popped = record m { delayed_heap = rest } in
    let next = continue (prune_delayed_top (promote_entry e popped)) in
    if leb_ℤ e.due now then next else m

-- Each round pops one entry, so the length of the heap is enough fuel.
unfoldable pub promote_loop : ℕ → ℤ → Manager → Manager
unfolding promote_front
promote_loop zero now m = m
promote_loop (suc fuel) now m = promote_front (promote_loop fuel now) now m.delayed_heap m

unfoldable pub promote_due : ℤ → Manager → Manager
promote_due now m =
    let pruned = prune_delayed_top m in promote_loop (length pruned.delayed_heap) now pruned

unfoldable pub front_due : List Entry → Option ℤ
front_due [] = none
front_due (e ∷ rest) = some e.due

-- It prunes the heap, so it returns the new state too.
unfoldable pub next_deadline : Manager → Manager × Option ℤ
unfolding front_due prune_delayed_top
next_deadline m = let pruned = prune_delayed_top m in (pruned, front_due pruned.delayed_heap)
