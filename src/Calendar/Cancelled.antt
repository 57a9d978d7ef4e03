-- ===== src/Calendar/Cancelled.antt =====
-- Cancelling keeps the map of the active tasks well formed.
use event_hub_cpp.Prelude.{
  ℕ, ◌==◌, ◌≡◌, refl, inl, inr, Bool, some, List, [], ◌∷◌, Option-cases, ==_self, if_ind, arith,
  ◌&&◌, ◌||◌, is_empty,
}
use event_hub_cpp.TaskManager.Types.{find_index, erase_index}
use event_hub_cpp.Calendar.Types.{cancelled}
use event_hub_cpp.Calendar.Detail.{Reading}
use event_hub_cpp.Calendar.Core.{
  Core, set_state, cancel_state, cancel_on_core, mark_all, stop_all, cancel_all_on_core,
}
use event_hub_cpp.Calendar.Registry.{
  IsEntry, Later, Later-refl, Later-trans, Step, Step-refl, Step-trans, find_task-IsEntry,
  Step-emit, Step-cancel_scheduled, flag_cases,
}
use event_hub_cpp.Calendar.Registered.{erase_but, marked, Later-marked, Later-tasks, cancelled_but}

Step-erased :
    (p id : ℕ) (core : Core)
    → find_index id core.tasks ≡ some p
    → Step core (record (marked p core) { tasks = erase_index id core.tasks })
unfolding set_state
Step-erased p id core e = record {
  later =
      Later-trans (Later-marked p core) (Later-tasks (erase_index id core.tasks) (marked p core));
  registered = λ h.
      erase_but p id core.allocated (marked p core).states core.tasks
        (own (find_task-IsEntry (IsEntry core.allocated core.states) id p core.tasks h e).1)
        (cancelled_but p core h);
}
  where
    own : (core.states p).id ≡ id → ((marked p core).states p).id ≡ id
    own k = rw (==_self p) k

pub Step-cancel_state :
    (reading : Reading) (id p : ℕ) (core : Core)
    → find_index id core.tasks ≡ some p
    → Step core (cancel_state reading id p core).0
unfolding cancel_state
Step-cancel_state reading id p core e =
    if_ind (λ (y : Core × Bool). Step core y.0) (core.states p).is_cancelled (λ t. Step-refl core)
      (λ t.
        Step-trans
          (Step-trans (Step-erased p id core e)
            (Step-cancel_scheduled (core.states p).scheduled_task_id _))
          (Step-emit p cancelled (core.states p).planned_utc_ms _ (core.states p).scheduled_task_id
            (core.states p).run_count _))

pub Step-cancel_on_core :
    (reading : Reading) (id : ℕ) (core : Core) → Step core (cancel_on_core reading id core).0
unfolding cancel_on_core
Step-cancel_on_core reading id core =
    if_ind (λ (y : Core × Bool). Step core y.0) (id == 0) (λ t. Step-refl core)
      (λ t. elim (Option-cases (find_index id core.tasks)) [
        | inl e ↦ rw e (Step-refl core)
        | inr (p, e) ↦ rw e (Step-cancel_state reading id p core e)
      ])

pub Later-mark_all : (items : List (ℕ × ℕ)) (core : Core) → Later core (mark_all items core)
unfolding mark_all
Later-mark_all [] core = Later-refl core
Later-mark_all ((id, p) ∷ rest) core =
    Later-trans (Later-marked p core) (Later-mark_all rest (marked p core))

pub Step-stop_all :
    (readings : ℕ → Reading) (items : List (ℕ × ℕ)) (core : Core)
    → Step core (stop_all readings items core)
unfolding stop_all
Step-stop_all readings [] core = Step-refl core
Step-stop_all readings ((id, p) ∷ rest) core =
    Step-trans
      (Step-trans (Step-cancel_scheduled (core.states p).scheduled_task_id core) (
        Step-emit p cancelled (core.states p).planned_utc_ms _ (core.states p).scheduled_task_id
          (core.states p).run_count _))
      (Step-stop_all readings rest _)

Later-closing :
    (close_core : Bool) (core : Core)
    → Later core (record core { closed = close_core || core.closed })
Later-closing close_core core = record {
  grows = omega arith;
  same_id = λ p h. refl;
  stays_cancelled = λ p h. flag_cases (core.states p).is_cancelled;
  stays_closed = elim (flag_cases core.closed) [ inl e ↦ inl e | inr e ↦ inr (ground (arith, e)) ];
}

pub Step-cancel_all_on_core :
    (readings : ℕ → Reading) (close_core : Bool) (core : Core)
    → Step core (cancel_all_on_core readings close_core core).0
unfolding cancel_all_on_core
Step-cancel_all_on_core readings close_core core =
    if_ind (λ (y : Core × ℕ). Step core y.0) ((close_core && core.closed) && is_empty core.tasks)
      (λ t. Step-refl core) (λ t. Step-trans emptied (Step-stop_all readings core.tasks _))
  where
    emptied :
        Step core
          (record (mark_all core.tasks (record core { closed = close_core || core.closed })) {
            tasks = [];
          })
    emptied = record {
      later =
          Later-trans (Later-trans (Later-closing close_core core) (Later-mark_all core.tasks _))
            (Later-tasks [] _);
      registered = λ h. tt;
    }
