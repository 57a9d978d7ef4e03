-- ===== src/RunLoop/Tests.antt =====
-- A loop with two managers.
use event_hub_cpp.Prelude.{pos, false, none, some, [], ◌∷◌, All}
use event_hub_cpp.EventBus.Types.{new_bus}
use event_hub_cpp.TaskManager.Types.{Manager, new_manager}
use event_hub_cpp.TaskManager.Delayed.{next_deadline}
use event_hub_cpp.TaskManager.Submit.{post_at}
use event_hub_cpp.Task.{no_arg, normal}
use event_hub_cpp.RunLoop.Loop.{RunLoop, Sources, new_run_loop, next_task_wait}
use event_hub_cpp.RunLoop.Waiting.{IsPrompt, NotNegative, next_task_wait-IsPrompt}

abbrev delayed : Manager
delayed =
    (post_at (pos 0) (pos 40) (some (no_arg 7)) (record { priority = normal }) (new_manager none)).0

abbrev sources : Sources
sources = record {
  bus_at = λ b. new_bus (λ object. false) (λ awaiter. false);
  manager_at = λ p. delayed;
}

abbrev two_managers : RunLoop
two_managers = record (new_run_loop 9 128) { task_managers = 0 ∷ 1 ∷ [] }

next_task_wait-IsPrompt_example :
    let wait = (next_task_wait (pos 10) two_managers sources).1 in
    NotNegative wait
    × All
        (λ p. IsPrompt (pos 10) wait (next_deadline (sources.manager_at p)).1)
        two_managers.task_managers
next_task_wait-IsPrompt_example = next_task_wait-IsPrompt (pos 10) two_managers sources
