-- ===== src/TaskManager/Counts.antt =====
-- What the atomic counters of TaskManager tell about its tasks.
use event_hub_cpp.Prelude.{
  ℕ, ◌<◌, ◌≡◌, ◌≤◌, refl, true, false, u64_mod, total_pos, total-ge, total-le, arith,
}
use event_hub_cpp.TaskManager.Types.{
  State, queued_ready, queued_delayed, ready_snapshot, executing, cancelled, completed, Control,
  Manager, has_ready, has_pending,
}
use event_hub_cpp.TaskManager.Invariant.Defs.{
  IsValid, is_ready, is_pending, ready_weight, pending_weight, ready_total,
}

ready_weight-le : (c : Control) → ready_weight c ≤ 1
ready_weight-le c = ground arith

pending_weight-le : (c : Control) → pending_weight c ≤ 1
pending_weight-le c = ground arith

ready_weight_pos : (c : Control) → 0 < ready_weight c → c.state ≡ queued_ready
ready_weight_pos c pos = state_ready c.state pos
  where
    state_ready : (s : State) → 0 < is_ready s → s ≡ queued_ready
    state_ready queued_ready pos = refl
    state_ready queued_delayed pos = absurd (omega (arith, pos))
    state_ready ready_snapshot pos = absurd (omega (arith, pos))
    state_ready executing pos = absurd (omega (arith, pos))
    state_ready cancelled pos = absurd (omega (arith, pos))
    state_ready completed pos = absurd (omega (arith, pos))

-- If has_ready() answers yes in a valid state, then some control that was made is queued_ready.
pub has_ready_sound :
    (m : Manager)
    → IsValid m
    → has_ready m ≡ true
    → (p : ℕ) × (p < m.allocated) × ((m.controls p).state ≡ queued_ready)
has_ready_sound m v answer =
    let some_ready : 0 < ready_total m = ground (arith, v.ready_exact, answer) in
    let (p, lt, pos) = total_pos ready_weight m.allocated m.controls some_ready in
    (p, lt, ready_weight_pos (m.controls p) pos)

-- If a control is queued_ready in a valid state with fewer than 2^64 controls, then has_ready()
-- answers yes.
pub has_ready_complete :
    (m : Manager)
    → IsValid m
    → m.allocated < u64_mod
    → (p : ℕ) → p < m.allocated
    → (m.controls p).state ≡ queued_ready
    → has_ready m ≡ true
has_ready_complete m v small p lt ready =
    let here : 1 ≤ ready_weight (m.controls p) = ground (arith, ready) in
    ground (
      arith,
      here,
      v.ready_exact,
      total-ge ready_weight m.allocated m.controls p lt,
      total-le ready_weight ready_weight-le m.allocated m.controls,
    )

-- If has_pending() answers no in a valid state with fewer than 2^64 controls, then no control is
-- queued, in a batch, or a periodic one that executes.
pub has_pending_complete :
    (m : Manager)
    → IsValid m
    → m.allocated < u64_mod
    → has_pending m ≡ false
    → (p : ℕ) → p < m.allocated
    → is_pending (m.controls p).state (m.controls p).periodic ≡ 0
has_pending_complete m v small none_left p lt = ground (
  arith,
  none_left,
  v.pending_exact,
  total-ge pending_weight m.allocated m.controls p lt,
  total-le pending_weight pending_weight-le m.allocated m.controls,
)
