-- ===== src/Lib.antt =====
-- Verification of event-hub-cpp, a header-only C++17 library for events, tasks and modules.
--
-- The program. A TaskManager (include/event_hub/task_manager.hpp) holds one-shot, delayed and
-- periodic tasks; any thread submits and cancels them, and one consumer runs them in process(). An
-- EventBus (include/event_hub/event_bus.hpp) dispatches events to subscribers at once or from a
-- queue. Both wake a consumer through an INotifier (include/event_hub/notifier.hpp) and report
-- exceptions of callbacks to a handler. An EventAwaiter (include/event_hub/event_awaiter.hpp) waits on
-- a bus for events, an EventEndpoint or EventNode owns subscriptions and awaiters and sends requests.
-- A RunLoop drives buses and managers; a ModuleHub owns a bus and modules, each a node with a manager
-- of its own. A CalendarScheduler posts the occurrences of local-time rules to a TaskManager.
--
-- The files.
--   Prelude       shared types, tests, lists, integers, 64-bit words and sums over numbered objects.
--   Task          include/event_hub/task.hpp: Task, TaskContext, the options.
--   TaskManager   include/event_hub/task_manager.hpp. Types: the fields of the class, Control, Entry,
--                 transition (the compare-and-exchange on a state) and the counters. Delayed: the
--                 heap, promote_due_locked and next_deadline. Submit: post, post_at, post_after,
--                 post_every, post_every_after, post_batch. Cancel: cancel, the calls of a context,
--                 close, clear_pending, the destructor, recommend_wait_for. Process: process and
--                 the parts of its loop, over the turns of callbacks in Turns.
--                 Invariant, Located, Surviving, Sorted, History, Counts, Clearing, Batch, Due,
--                 Deadline, Cancelling, Restoring and Ids hold proofs, Surviving.Log the log of
--                 a call of process() for the proofs of Surviving, Tests the concrete cases.
--   EventBus      include/event_hub/event_bus.hpp. Types: the fields. Subscriptions: subscribe and
--                 unsubscribe. Dispatch: post, dispatch, emit, process, poll_awaiters. Removal,
--                 Serving and Order hold proofs, Tests the concrete cases.
--   Request       RequestIdGenerator of include/event_hub/request.hpp.
--   Awaiting      Awaiter: include/event_hub/event_awaiter.hpp, over a World of the bus, the flags of
--                 the tokens and the awaiters. Endpoint: include/event_hub/event_endpoint.hpp.
--                 Requests: request_future() and Reply of include/event_hub/request.hpp. Node:
--                 include/event_hub/event_node.hpp. Single, Ending, Once and Closing hold
--                 proofs.
--   Modules       Module and Worker: include/event_hub/module.hpp, the life cycle and the rounds of
--                 the worker thread. Hub, Running and Threads: include/event_hub/module_hub.hpp,
--                 the modules' start and stop, the processing, and the background thread. Lifecycle,
--                 Stopping and Starting hold proofs.
--   RunLoop       Loop: include/event_hub/run_loop.hpp. Waiting holds proofs.
--   Calendar      include/event_hub/calendar_scheduler.hpp and include/event_hub/calendar_scheduler/.
--                 TimeShield: the interface of the time library. Types: types.hpp. Detail: the
--                 seconds, clocks and the scan of detail.hpp. Core: the shared state, the observer,
--                 cancellation. Planning: first_planned_due. Schedule: schedule_one, add_rule,
--                 run_due and schedule_after_run. Rules: the public operations that add a rule.
--                 Clocks, Seconds, Scan, Order, Least and Next hold the proofs on occurrences;
--                 Registry, Registered, Cancelled, Rescheduling, Histories, Running and Lifetime
--                 those on the map of active tasks.
--   Cancellation  include/event_hub/cancellation.hpp.
--   Notifier      SyncNotifier of include/event_hub/notifier.hpp.
--   Tests         concrete cases for Cancellation and Notifier.
--
-- How the code is modelled. A shared object (Control, awaiter, calendar state, token) is a number in a
-- store, so that all its users refer to the same object. The counters and ids wrap modulo 2^64. Time
-- points and durations are integers without the bounds of the clock's representation, and every
-- reading of a clock is an argument. std::push_heap and std::pop_heap are modelled by a list in the
-- order in which the front is popped, std::sort by insertion. Each section under a mutex, and each
-- compare-and-exchange outside one, is one step; a load and the exchange after it in cancel() are
-- one step too, and so is a round of a loop. What a callback does is an argument: a Behaviour gives
-- for each start a turn, the calls that the callback and other threads make meanwhile, whether it
-- throws, and what the exception handler does. A predicate of an awaiter only answers, and the calls
-- that its callback makes follow as further steps. An observer of the calendar only records. The
-- maps from types to subscribers are functions into Option, since no operation depends on their
-- order. The library time-shield is a parameter of the calendar: a record of its constants and
-- functions, of which only the theorems on fixed offsets assume anything, namely that the last
-- second of a day begins before the day ends.
--
-- The guard of an endpoint expires when close() resets it; a dispatch that holds a lock on it keeps
-- the object a little longer. handle_event() is one step, with its test of the flag, the predicate,
-- the cancellation and the callback. request_future() is given the results and timeouts that other
-- threads deliver before it stores the id of the request.
--
-- Fuel. promote_due has the length of the heap as fuel, since each round pops one entry; the other
-- loops are structural recursion. The scans of the calendar visit 3, 15 and 371 days, as in the code.
--
-- Not modelled: TaskManager::submit (std::packaged_task), process() or emit() called again from a
-- callback, a shutdown() from inside a virtual function, a std::thread that fails to start, the memory
-- orders of atomics, moves of tasks, and the class Event, whose type test and casts are those of the
-- language. The destructor of RunLoop is reset_sources().
pub mod Prelude
pub mod Task
pub mod TaskManager
pub mod Request
pub mod EventBus
pub mod Cancellation
pub mod Notifier
pub mod Tests
pub mod Calendar
pub mod Awaiting
pub mod Modules
pub mod RunLoop
