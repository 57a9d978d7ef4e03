-- ===== src/Calendar/Running.antt =====
-- A run of a callback keeps the map of the active tasks well formed.
use event_hub_cpp.Prelude.{
  ℕ, ◌≡◌, refl, sym, inl, inr, ℤ, Bool, true, false, Option, none, some, ◌∷◌, write, Bool-cases,
  ==_self, if_ind, arith, ◌||◌, add_one64,
}
use event_hub_cpp.Task.{context_is_cancelled}
use event_hub_cpp.TaskManager.Types.{find_index}
use event_hub_cpp.TaskManager.Cancel.{make_context}
use event_hub_cpp.Calendar.Types.{due, before_callback, after_callback, cancelled}
use event_hub_cpp.Calendar.Detail.{safe_now_utc_ms}
use event_hub_cpp.Calendar.Core.{Core, set_state, emit, mark_completed, is_state_cancelled}
use event_hub_cpp.Calendar.Planning.{is_missing}
use event_hub_cpp.Calendar.Schedule.{apply_all, Run, count_run, finish_run, run_callback, run_due}
use event_hub_cpp.Calendar.Registry.{
  IsRegistered, IsRegisteredBut, Later, Later-trans, Step, Step-refl, Step-trans, Step-runs,
  Step-emit, emit_ind,
}
use event_hub_cpp.Calendar.Registered.{
  Later-set_state, Step-set_state, cancelled_but, weaken_but, mark_completed-but,
  Later-mark_completed, Step-mark_completed,
}
use event_hub_cpp.Calendar.Histories.{Step-schedule_after_run, Step-apply_all}

-- What run_due tests after the callback: its task is not to be scheduled again.
abbrev stops : (running p : ℕ) → Core → Bool
stops running p core =
    context_is_cancelled (make_context running) core.manager
    || is_state_cancelled (core.states p).id core

goes_on :
    (o : Option ℕ) (f : ℕ → Bool) (closed context : Bool)
    → (context || elim o as (λ x. Bool) [ none ↦ true | some q ↦ f q || closed ]) ≡ false
    → (elim o as (λ x. Bool) [ none ↦ true | some q ↦ false ] || (closed || context)) ≡ false
goes_on none f closed true h = cc
goes_on none f closed false h = cc
goes_on (some q) f closed context h = ground (arith, h)

module _ (ticks_per_ms : ℕ) where
  count_cancelled :
      (running p : ℕ) (core : Core)
      → (is_missing (core.states p).id core
          || (((core.states p).is_cancelled || core.closed)
              || context_is_cancelled (make_context running) core.manager))
        ≡ true
      → stops running p (set_state p (record (core.states p) { is_cancelled = true }) core) ≡ false
      → IsRegistered core
      → IsRegistered (set_state p (record (core.states p) { is_cancelled = true }) core)
  unfolding set_state is_state_cancelled
  count_cancelled running p core t h r = elim (Bool-cases (core.states p).is_cancelled) [
    | inl c ↦
        (Step-set_state p (record (core.states p) { is_cancelled = true }) core refl
            (sym c)).registered
          r
    | inr c ↦
        let closing : (is_missing (core.states p).id core
              || (core.closed || context_is_cancelled (make_context running) core.manager))
            ≡ true =
          rw c at t in
        let quiet =
          goes_on (find_index (core.states p).id core.tasks)
            (λ q.
              (write core.states p (record (core.states p) { is_cancelled = true }) q).is_cancelled)
            core.closed (context_is_cancelled (make_context running) core.manager)
            (rw (==_self p) at h) in
        cc
  ]

  count_but :
      (running p run_count : ℕ) (core : Core)
      → IsRegistered core
      → IsRegisteredBut p (count_run ticks_per_ms running p run_count core).0
  unfolding count_run
  count_but running p run_count core r =
      let s = core.states p in
      if_ind (λ (y : Core × ℕ). IsRegisteredBut p y.0)
        (is_missing s.id core
          || ((s.is_cancelled || core.closed)
              || context_is_cancelled (make_context running) core.manager))
        (λ t. cancelled_but p core r)
        (λ t. weaken_but p (set_state p (record s { run_count = add_one64 s.run_count }) core) (
          (Step-set_state p (record s { run_count = add_one64 s.run_count }) core refl
              refl).registered
            r))

  count_registered :
      (running p run_count : ℕ) (core : Core)
      → IsRegistered core
      → stops running p (count_run ticks_per_ms running p run_count core).0 ≡ false
      → IsRegistered (count_run ticks_per_ms running p run_count core).0
  unfolding count_run
  count_registered running p run_count core r =
      let s = core.states p in
      if_ind (λ (y : Core × ℕ). stops running p y.0 ≡ false → IsRegistered y.0)
        (is_missing s.id core
          || ((s.is_cancelled || core.closed)
              || context_is_cancelled (make_context running) core.manager))
        (λ t h. count_cancelled running p core t h r)
        (λ t h.
          (Step-set_state p (record s { run_count = add_one64 s.run_count }) core refl
              refl).registered
            r)

  Later-count_run :
      (running p run_count : ℕ) (core : Core)
      → Later core (count_run ticks_per_ms running p run_count core).0
  unfolding count_run
  Later-count_run running p run_count core =
      let s = core.states p in
      if_ind (λ (y : Core × ℕ). Later core y.0)
        (is_missing s.id core
          || ((s.is_cancelled || core.closed)
              || context_is_cancelled (make_context running) core.manager))
        (λ t. Later-set_state p (record s { is_cancelled = true }) core refl (inr refl))
        (λ t.
          (Step-set_state p (record s { run_count = add_one64 s.run_count }) core refl refl).later)

  Step-finish_run :
      (run : Run ticks_per_ms) (running p : ℕ) (planned : ℤ) (task_id run_count : ℕ) (core : Core)
      → Step core (finish_run ticks_per_ms run running p planned task_id run_count core).0
  unfolding finish_run is_state_cancelled
  Step-finish_run run running p planned task_id run_count core =
      let after_now = safe_now_utc_ms (core.states p).options run.after in
      let (counted, count) = count_run ticks_per_ms running p run_count core in
      let told = emit p after_callback planned after_now task_id count counted in
      let telling = Step-emit p after_callback planned after_now task_id count counted in
      let told_later = Later-trans (Later-count_run running p run_count core) telling.later in
      if_ind (λ (y : Core × Bool). Step core y.0) (stops running p told)
        (λ t.
          let completed : Step core (mark_completed p told) = record {
            later = Later-trans told_later (Later-mark_completed p told);
            registered = λ r. mark_completed-but p told (
                emit_ind (λ (c : Core). IsRegisteredBut p c) p after_callback planned after_now
                  task_id count counted (λ informed. count_but running p run_count core r));
          } in
          Step-trans completed (Step-emit p cancelled planned after_now task_id count _))
        (λ t.
          let counting : Step core told = record {
            later = told_later;
            registered = λ r.
                emit_ind (λ (c : Core). stops running p c ≡ false → IsRegistered c) p after_callback
                  planned after_now task_id count counted
                  (λ informed h. count_registered running p run_count core r h) t;
          } in
          Step-trans counting
            (Step-schedule_after_run ticks_per_ms run.steady p planned after_now told))

  Step-run_callback :
      (run : Run ticks_per_ms) (running p : ℕ) (planned : ℤ) (task_id run_count : ℕ) (core : Core)
      → Step core (run_callback ticks_per_ms run running p planned task_id run_count core).0
  unfolding run_callback
  Step-run_callback run running p planned task_id run_count core =
      let begun = record core { runs = (core.states p).id ∷ core.runs } in
      let called = apply_all ticks_per_ms run.commands begun in
      let calling =
        Step-trans (Step-runs ((core.states p).id ∷ core.runs) core)
          (Step-apply_all ticks_per_ms run.commands begun) in
      let after_now = safe_now_utc_ms (called.states p).options run.after in
      if_ind (λ (y : Core × Bool). Step core y.0) run.throws
        (λ t. Step-trans calling (
          Step-trans (Step-emit p after_callback planned after_now task_id run_count called)
            (Step-mark_completed p _)))
        (λ t. Step-trans calling (Step-finish_run run running p planned task_id run_count called))

  pub Step-run_due :
      (run : Run ticks_per_ms) (running p : ℕ) (core : Core)
      → Step core (run_due ticks_per_ms run running p core).0
  unfolding run_due
  Step-run_due run running p core =
      let s = core.states p in
      let taken = set_state p (record s { scheduled_task_id = 0 }) core in
      let now = safe_now_utc_ms s.options run.before in
      let told = emit p due s.planned_utc_ms now s.scheduled_task_id s.run_count taken in
      let ready =
        emit p before_callback s.planned_utc_ms now s.scheduled_task_id s.run_count told in
      if_ind (λ (y : Core × Bool). Step core y.0)
        (is_missing s.id core || (s.is_cancelled || core.closed)) (λ t. Step-refl core)
        (λ t.
          Step-trans
            (Step-trans
              (Step-trans (Step-set_state p (record s { scheduled_task_id = 0 }) core refl refl)
                (Step-emit p due s.planned_utc_ms now s.scheduled_task_id s.run_count taken))
              (Step-emit p before_callback s.planned_utc_ms now s.scheduled_task_id s.run_count
                told))
            (Step-run_callback run running p s.planned_utc_ms s.scheduled_task_id s.run_count
              ready))
