-- ===== src/Calendar/Histories.antt =====
-- The map of the active tasks through runs of callbacks and through histories of a scheduler.
use event_hub_cpp.Prelude.{ℕ, ℤ, leb_ℤ, Bool, true, false, none, some, List, [], ◌∷◌, if_ind}
use event_hub_cpp.Calendar.Types.{
  CalendarOverlapPolicy, skip_overlap, queue_one_after_current, missed,
}
use event_hub_cpp.Calendar.Detail.{Answer, next, provider_throws}
use event_hub_cpp.Calendar.Core.{Core, emit, mark_completed}
use event_hub_cpp.Calendar.Planning.{Steady, ask}
use event_hub_cpp.Calendar.Schedule.{
  reschedule, schedule_overlap, schedule_answer, schedule_after_run, Command, adds_rule, cancels,
  cancels_all, closes_scheduler, manages, apply, apply_all,
}
use event_hub_cpp.Calendar.Registry.{Step, Step-refl, Step-trans, Step-manager, Step-emit}
use event_hub_cpp.Calendar.Cancelled.{Step-cancel_on_core, Step-cancel_all_on_core}
use event_hub_cpp.Calendar.Registered.{Step-mark_completed}
use event_hub_cpp.Calendar.Rescheduling.{Step-add_rule, Step-reschedule}

module _ (ticks_per_ms : ℕ) where
  Step-future :
      (answer : Answer) (steady : Steady) (p : ℕ) (observed_now : ℤ) (core : Core)
      → Step core
          (elim answer as (λ x. Core × Bool) [
            | provider_throws ↦ (core, true)
            | next answer ↦ elim answer [
              | none ↦ (mark_completed p core, false)
              | some future ↦ (
                reschedule ticks_per_ms steady p future observed_now
                    (leb_ℤ future observed_now)
                    core,
                false,
              )
            ]
          ]).0
  Step-future provider_throws steady p observed_now core = Step-refl core
  Step-future (next none) steady p observed_now core = Step-mark_completed p core
  Step-future (next (some future)) steady p observed_now core =
      Step-reschedule ticks_per_ms steady p future observed_now (leb_ℤ future observed_now) core

  Step-schedule_overlap :
      (steady : Steady) (p : ℕ) (time observed_now : ℤ) (core : Core)
      → Step core (schedule_overlap ticks_per_ms steady p time observed_now core).0
  unfolding schedule_overlap
  Step-schedule_overlap steady p time observed_now core =
      Step-trans (Step-emit p missed time observed_now 0 (core.states p).run_count core)
        (by_policy (core.states p).options.overlap_policy)
    where
      told : Core
      told = emit p missed time observed_now 0 (core.states p).run_count core

      by_policy :
          (policy : CalendarOverlapPolicy)
          → Step told
              (elim policy as (λ x. Core × Bool) [
                | queue_one_after_current ↦
                    (reschedule ticks_per_ms steady p time observed_now true told, false)
                | skip_overlap ↦ elim (ask p observed_now observed_now told) [
                  | provider_throws ↦ (told, true)
                  | next answer ↦ elim answer [
                    | none ↦ (mark_completed p told, false)
                    | some future ↦ (
                      reschedule ticks_per_ms steady p future observed_now
                          (leb_ℤ future observed_now)
                          told,
                      false,
                    )
                  ]
                ]
              ]).0
      by_policy queue_one_after_current =
          Step-reschedule ticks_per_ms steady p time observed_now true told
      by_policy skip_overlap =
          Step-future (ask p observed_now observed_now told) steady p observed_now told

  Step-schedule_answer :
      (answer : Answer) (steady : Steady) (p : ℕ) (observed_now : ℤ) (core : Core)
      → Step core (schedule_answer ticks_per_ms answer steady p observed_now core).0
  unfolding schedule_answer
  Step-schedule_answer provider_throws steady p observed_now core = Step-refl core
  Step-schedule_answer (next none) steady p observed_now core = Step-mark_completed p core
  Step-schedule_answer (next (some time)) steady p observed_now core =
      if_ind (λ (y : Core × Bool). Step core y.0) (leb_ℤ time observed_now)
        (λ t. Step-schedule_overlap steady p time observed_now core)
        (λ t. Step-reschedule ticks_per_ms steady p time observed_now false core)

  pub Step-schedule_after_run :
      (steady : Steady) (p : ℕ) (previous_planned observed_now : ℤ) (core : Core)
      → Step core (schedule_after_run ticks_per_ms steady p previous_planned observed_now core).0
  unfolding schedule_after_run
  Step-schedule_after_run steady p previous_planned observed_now core =
      Step-schedule_answer (ask p previous_planned observed_now core) steady p observed_now core

  pub Step-apply : (c : Command ticks_per_ms) (core : Core) → Step core (apply ticks_per_ms c core)
  unfolding apply
  Step-apply (adds_rule first last steady provider callback options) core =
      Step-add_rule ticks_per_ms first last steady provider callback options core
  Step-apply (cancels reading id) core = Step-cancel_on_core reading id core
  Step-apply (cancels_all readings) core = Step-cancel_all_on_core readings false core
  Step-apply (closes_scheduler readings) core = Step-cancel_all_on_core readings true core
  Step-apply (manages running command) core = Step-manager _ core

  pub Step-apply_all :
      (commands : List (Command ticks_per_ms)) (core : Core)
      → Step core (apply_all ticks_per_ms commands core)
  unfolding apply_all
  Step-apply_all [] core = Step-refl core
  Step-apply_all (c ∷ rest) core =
      Step-trans (Step-apply c core) (Step-apply_all rest (apply ticks_per_ms c core))
