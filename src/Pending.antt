-- ===== src/Pending.antt =====
-- pending_operation.hpp: an operation waits for its events, and is then queued or run.
pub mod Queued
pub mod Tasks
use darma_simple_backend.Prelude.{
  ℕ, ◌+◌, ◌-◌, ◌%◌, not, true, false, Bool, Option, none, some, List, [], ◌∷◌, if◌then◌else◌, ◌==◌,
  ◌&&◌, ltb,
}
use darma_simple_backend.Machine.Types.{
  State, Pointer, Use, Task, ReadyOperation, Callable, decrement_trigger, join_workers, MessageKind,
  no_message, all_tasks_done, special_message, task_operation, callable_operation, emplace_ready,
  decrement_of, Action, Flow,
}
use darma_simple_backend.Machine.Monad.{Fault, ok, err, M, pure, ◌>>=◌, ◌>>◌, deref, require}
use darma_simple_backend.Machine.Counter.{
  word, make_counter, increment_count, decrement_count, attach_action,
}
use darma_simple_backend.Register.Others.{when}

-- What the backend calls and does not implement: the body of a task, over the data of its uses, and
-- the join of the worker threads.
pub record Host : Type 0 where
  pub run_task : Task → List (Option Pointer) → M (Unit {0})
  pub join_threads : M (Unit {0})

-- `is_runnable`, `is_stealable`, `has_message` and `get_message_kind` of the classes.
abbrev is_runnable : ReadyOperation → Bool
is_runnable (special_message k) = false
is_runnable (task_operation t) = true
is_runnable (callable_operation stealable c) = true

abbrev pub is_stealable : ReadyOperation → Bool
is_stealable (special_message k) = false
is_stealable (task_operation t) = true
is_stealable (callable_operation stealable c) = stealable

abbrev has_message : ReadyOperation → Bool
has_message (special_message k) = true
has_message (task_operation t) = false
has_message (callable_operation stealable c) = false

abbrev get_message_kind : ReadyOperation → MessageKind
get_message_kind (special_message k) = k
get_message_kind (task_operation t) = no_message
get_message_kind (callable_operation stealable c) = no_message

abbrev pub make_callable_operation : Callable → ReadyOperation
make_callable_operation c = callable_operation true c

abbrev pub make_nonstealable_callable_operation : Callable → ReadyOperation
make_nonstealable_callable_operation c = callable_operation false c

-- `dep->get_in_flow()->control_block->data`
unfoldable pub data_of : Option Flow → M (Option Pointer)
data_of f = do
  g ← deref f
  b ← λ s. deref (s.flows g.address).control_block s
  λ s. ok (some (s.blocks b).contents, s)

-- The data that a task's uses refer to: `none` where the use has no immediate permissions.
unfoldable pub data_pointers : List Use → M (List (Option Pointer))
unfolding data_of
data_pointers [] = pure []
data_pointers (u ∷ deps) = do
  p ← if u.has_immediate_permissions then data_of u.in_flow else pure none
  rest ← data_pointers deps
  pure (p ∷ rest)

-- `run_operation` on a message: only the end of all tasks is expected.
abbrev stop : MessageKind → M Bool
stop all_tasks_done s = ok (true, s)
stop no_message s = err Fault.assertion_failed

abbrev pub or_this : Option ℕ → ℕ → ℕ
or_this none w = w
or_this (some w) this = w

abbrev pub set_pending : ℕ → State → State
set_pending n s = record s { pending_tasks = n }

abbrev set_depth : ℕ → State → State
set_depth n s = record s { thread_stack_depth = n }

-- `PendingOperation()`: the one count of its counter is the setup's, and `make_ready` pays it.
unfoldable pub make_pending_operation : M ℕ
unfolding make_counter
make_pending_operation = make_counter 1

unfoldable pub add_dependency_on : ℕ → ℕ → M (Unit {0})
unfolding increment_count attach_action
add_dependency_on op prereq = do increment_count op; attach_action prereq (decrement_of op)

-- The loop over a task's dependencies.
unfoldable pub add_dependency : ℕ → Use → M (Unit {0})
unfolding add_dependency_on
add_dependency op dep = do
  when dep.is_dependency (do f ← deref dep.in_flow; add_dependency_on op f.ready_trigger)
  when dep.is_anti_dependency
      (do a ← require dep.anti_in_flow; add_dependency_on op a.ready_trigger)

unfoldable pub add_dependencies : ℕ → List Use → M (Unit {0})
unfolding add_dependency
add_dependencies op [] = pure tt
add_dependencies op (dep ∷ deps) = do add_dependency op dep; add_dependencies op deps

unfoldable pub add_dependencies_on : ℕ → List ℕ → M (Unit {0})
unfolding add_dependency_on
add_dependencies_on op [] = pure tt
add_dependencies_on op (c ∷ cs) = do add_dependency_on op c; add_dependencies_on op cs

-- `attach_or_do_action`: the second callable, if the event has fired; else the first is attached.
unfoldable pub attach_or_do_action : ℕ → Action → M (Unit {0}) → M (Unit {0})
unfolding attach_action
attach_or_do_action c a now s = if (s.counters c).triggered then now s else attach_action c a s

module _ (host : Host) where
  -- `run()` of a ready operation. A special message is not runnable.
  unfoldable pub run : ReadyOperation → M (Unit {0})
  unfolding data_pointers decrement_count
  run (special_message k) s = err Fault.assertion_failed
  run (task_operation t) s =
      (do
        pointers ← data_pointers t.dependencies
        host.run_task t pointers
        λ u. decrement_count u.shutdown_counter u)
        s
  run (callable_operation stealable (decrement_trigger c)) s = decrement_count c s
  run (callable_operation stealable join_workers) s = host.join_threads s

  -- `Worker::run_operation`: whether the worker is to stop.
  unfoldable pub run_operation : ReadyOperation → M Bool
  unfolding run
  run_operation op = if is_runnable op then (do run op; pure false) else stop (get_message_kind op)

  -- Run on this thread's stack, one level deeper.
  unfoldable pub run_on_stack : ReadyOperation → M (Unit {0})
  unfolding run_operation
  run_on_stack op = do
    λ s. ok (tt, set_depth (s.thread_stack_depth + 1) s)
    stopped ← run_operation op
    λ s. ok (tt, set_depth (s.thread_stack_depth - 1) s)
    λ s. ok (tt, set_pending ((s.pending_tasks + word - 1) % word) s)

  unfoldable pub enqueue_or_run : ℕ → ReadyOperation → ℕ → Bool → M (Unit {0})
  unfolding run_on_stack attach_or_do_action attach_action
  enqueue_or_run op ready_op worker_id allow_run_on_stack = do
    λ s. ok (tt, set_pending ((s.pending_tasks + 1) % word) s)
    λ s.
        if allow_run_on_stack
          && (ltb s.thread_stack_depth s.max_task_depth && worker_id == s.this_worker_id)
        then attach_or_do_action op (emplace_ready ready_op) (run_on_stack ready_op) s
        else attach_action op (emplace_ready ready_op) s

  -- `when_all_ready_do` and, for one event, `when_ready_do`.
  unfoldable pub when_all_ready_do : List ℕ → Callable → M (Unit {0})
  unfolding make_pending_operation add_dependencies_on enqueue_or_run decrement_count
  when_all_ready_do triggers c = do
    op ← make_pending_operation
    add_dependencies_on op triggers
    decrement_count op
    λ s. enqueue_or_run op (make_callable_operation c) s.this_worker_id true s

  unfoldable pub when_ready_do : ℕ → Callable → M (Unit {0})
  unfolding when_all_ready_do
  when_ready_do trigger c = when_all_ready_do (trigger ∷ []) c

  -- `none` is NO_WORKER_ID.
  unfoldable pub make_pending_task : Task → Option ℕ → M (Unit {0})
  unfolding make_pending_operation add_dependencies enqueue_or_run decrement_count
  make_pending_task t worker_id = do
    worker ← λ s. ok (or_this worker_id s.this_worker_id, s)
    op ← make_pending_operation
    add_dependencies op t.dependencies
    decrement_count op
    enqueue_or_run op (task_operation t) worker (not t.is_data_parallel)
