-- ===== src/Modules/Starting.antt =====
-- Starting all modules of a hub.
use event_hub_cpp.Prelude.{
  ℕ, suc, ◌≡◌, refl, if_ind, true, false, ◌||◌, not, List, [], ◌∷◌, map, All,
}
use event_hub_cpp.Modules.Module.{
  Module, Visit, Result, returns, logic_error, hook_throws, rethrows, initialize, visit,
  start_worker, is_private, clear_worker_exception,
}
use event_hub_cpp.Modules.Hub.{ModuleHub, initialize_each, stop_modules, initialize_hub}
use event_hub_cpp.Modules.Stopping.{IsSettled, IsStopped, IsInitialized, stop_modules-IsStopped}

initialize-IsSettled : (v : Visit) (m : Module) → IsSettled m → IsSettled (initialize v m).0
unfolding initialize visit
initialize-IsSettled v m h =
    if_ind (λ (y : Module × Result). IsSettled y.0) m.initialized (λ t. h)
      (λ t.
        if_ind (λ (y : Module × Result). IsSettled y.0) (m.stopping || m.stopped) (λ k. h)
          (λ k. if_ind (λ (y : Module × Result). IsSettled y.0) v.throws (λ l. h) (λ l. h)))

-- A module's initialize() that returns leaves it initialized.
abbrev Succeeds : (Module → Type 0) → Module × Result → Type 0
Succeeds P (m, returns n) = P m
Succeeds P (m, logic_error) = Unit
Succeeds P (m, hook_throws) = Unit
Succeeds P (m, rethrows e) = Unit

initialize-IsInitialized : (v : Visit) (m : Module) → Succeeds IsInitialized (initialize v m)
unfolding initialize visit
initialize-IsInitialized v m =
    if_ind (Succeeds IsInitialized) m.initialized (λ t. t)
      (λ t.
        if_ind (Succeeds IsInitialized) (m.stopping || m.stopped) (λ k. tt)
          (λ k. if_ind (Succeeds IsInitialized) v.throws (λ l. tt) (λ l. refl)))

-- The results of one module and of the modules behind it, put together as the loop does.
abbrev joined : Module × Result → List Module × Result → (rest : List Module) → List Module × Result
joined (m, outcome) (later, result) rest = elim outcome as (λ x. List Module × Result) [
  | returns n ↦ (m ∷ later, result)
  | logic_error ↦ (m ∷ rest, logic_error)
  | hook_throws ↦ (m ∷ rest, hook_throws)
  | rethrows e ↦ (m ∷ rest, rethrows e)
]

joined-IsSettled :
    (y : Module × Result) (z : List Module × Result) (rest : List Module)
    → IsSettled y.0
    → All IsSettled z.0
    → All IsSettled rest
    → All IsSettled (joined y z rest).0
joined-IsSettled (m, returns n) (later, result) rest h k l = (h, k)
joined-IsSettled (m, logic_error) (later, result) rest h k l = (h, l)
joined-IsSettled (m, hook_throws) (later, result) rest h k l = (h, l)
joined-IsSettled (m, rethrows e) (later, result) rest h k l = (h, l)

initialize_each-IsSettled :
    (visits : ℕ → Visit) (i : ℕ) (modules : List Module)
    → All IsSettled modules
    → All IsSettled (initialize_each visits i modules).0
unfolding initialize_each
initialize_each-IsSettled visits i [] h = tt
initialize_each-IsSettled visits i (m ∷ rest) h =
    joined-IsSettled (initialize (visits i) m) (initialize_each visits (suc i) rest) rest
      (initialize-IsSettled (visits i) m h.0) (initialize_each-IsSettled visits (suc i) rest h.1)
      h.1

abbrev AllSucceed : List Module × Result → Type 0
AllSucceed (modules, returns n) = All IsInitialized modules
AllSucceed (modules, logic_error) = Unit
AllSucceed (modules, hook_throws) = Unit
AllSucceed (modules, rethrows e) = Unit

joined-AllSucceed :
    (y : Module × Result) (z : List Module × Result) (rest : List Module)
    → Succeeds IsInitialized y
    → AllSucceed z
    → AllSucceed (joined y z rest)
joined-AllSucceed (m, returns n) (later, returns k) rest h l = (h, l)
joined-AllSucceed (m, returns n) (later, logic_error) rest h l = tt
joined-AllSucceed (m, returns n) (later, hook_throws) rest h l = tt
joined-AllSucceed (m, returns n) (later, rethrows e) rest h l = tt
joined-AllSucceed (m, logic_error) z rest h l = tt
joined-AllSucceed (m, hook_throws) z rest h l = tt
joined-AllSucceed (m, rethrows e) z rest h l = tt

initialize_each-AllSucceed :
    (visits : ℕ → Visit) (i : ℕ) (modules : List Module)
    → AllSucceed (initialize_each visits i modules)
unfolding initialize_each
initialize_each-AllSucceed visits i [] = tt
initialize_each-AllSucceed visits i (m ∷ rest) =
    joined-AllSucceed (initialize (visits i) m) (initialize_each visits (suc i) rest) rest
      (initialize-IsInitialized (visits i) m) (initialize_each-AllSucceed visits (suc i) rest)

start_workers-IsInitialized :
    (modules : List Module)
    → All IsInitialized modules
    → All IsInitialized (map start_worker modules)
unfolding start_worker clear_worker_exception
start_workers-IsInitialized [] h = tt
start_workers-IsInitialized (m ∷ rest) h = (
  if_ind IsInitialized (not (is_private m.options.execution)) (λ t. h.0)
      (λ t. if_ind IsInitialized m.worker (λ k. h.0) (λ k. h.0)),
  start_workers-IsInitialized rest h.1,
)

-- Every module is initialized if the call returned, and stopped if it threw.
abbrev pub AllOrNone : ModuleHub × Result → Type 0
AllOrNone (hub, returns n) = All IsInitialized hub.modules × (hub.initialized ≡ true)
AllOrNone (hub, logic_error) = All IsStopped hub.modules × (hub.initialized ≡ false)
AllOrNone (hub, hook_throws) = All IsStopped hub.modules × (hub.initialized ≡ false)
AllOrNone (hub, rethrows e) = All IsStopped hub.modules × (hub.initialized ≡ false)

finish_initialize :
    (endings : ℕ → Visit) (hub : ModuleHub) (z : List Module × Result)
    → hub.initialized ≡ false
    → All IsSettled z.0
    → AllSucceed z
    → AllOrNone (
        let visited = record hub { modules = z.0 } in
        elim z.1 as (λ x. ModuleHub × Result) [
          | returns n ↦
              (record visited { modules = map start_worker z.0; initialized = true }, returns 0)
          | logic_error ↦ (stop_modules endings visited, logic_error)
          | hook_throws ↦ (stop_modules endings visited, hook_throws)
          | rethrows e ↦ (stop_modules endings visited, rethrows e)
        ])
unfolding stop_modules
finish_initialize endings hub (modules, returns n) fresh h k =
    (start_workers-IsInitialized modules k, refl)
finish_initialize endings hub (modules, logic_error) fresh h k =
    (stop_modules-IsStopped endings (record hub { modules = modules }) h, fresh)
finish_initialize endings hub (modules, hook_throws) fresh h k =
    (stop_modules-IsStopped endings (record hub { modules = modules }) h, fresh)
finish_initialize endings hub (modules, rethrows e) fresh h k =
    (stop_modules-IsStopped endings (record hub { modules = modules }) h, fresh)

-- When initialize() of a hub that is not initialized and of whose modules none is just shutting down
-- returns, all modules are initialized and so is the hub; when it throws, since the initialization
-- of a module threw, all modules are stopped and the hub is not initialized.
pub initialize_hub-AllOrNone :
    (visits endings : ℕ → Visit) (hub : ModuleHub)
    → hub.initialized ≡ false
    → All IsSettled hub.modules
    → AllOrNone (initialize_hub visits endings hub)
unfolding initialize_hub
initialize_hub-AllOrNone visits endings hub fresh h =
    if_ind AllOrNone hub.initialized (λ t. cc)
      (λ t.
        finish_initialize endings hub (initialize_each visits 0 hub.modules) fresh
          (initialize_each-IsSettled visits 0 hub.modules h)
          (initialize_each-AllSucceed visits 0 hub.modules))
