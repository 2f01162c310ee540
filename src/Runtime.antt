-- ===== src/Runtime.antt =====
-- runtime/runtime.cpp: the runtime's construction, and the registration of tasks and collections;
-- runtime_instance.hpp: a region's runtime.
pub mod Shutdown
pub mod Tasks
pub mod Region
pub mod Quiescence
use darma_simple_backend.Prelude.{
  ℕ, zero, suc, ◌+◌, ◌%◌, Bool, true, false, Option, none, some, List, [], ◌∷◌, ◌++◌, update,
  if◌then◌else◌, ◌==◌,
}
use darma_simple_backend.Machine.Types.{
  State, Use, Task, Flow, task_operation, join_workers, announce_shutdown, emplace_ready, Token,
}
use darma_simple_backend.Machine.Monad.{
  M, Result, ok, pure, and_then, ◌>>=◌, ◌>>◌, deref, require, assert,
}
use darma_simple_backend.Machine.Counter.{
  make_counter, increment_count, decrement_count, attach_action, push_ready, announce,
}
use darma_simple_backend.Flow.{blank_block}
use darma_simple_backend.Register.Others.{when}
use darma_simple_backend.Pending.{Host, make_pending_task, make_nonstealable_callable_operation}

-- A process before its runtime: no object has been made.
abbrev pub empty : ℕ → State
empty nthreads = record {
  counters = λ _. record { count = 0; triggered = false; actions = [] };
  next_counter = 0;
  flows = λ _. record { control_block = none; parent_collection_token = none };
  next_flow = 0;
  blocks = λ _. blank_block;
  next_block = 0;
  next_allocation = 0;
  objects = [];
  entries = λ _. record { source_flow = none; fetching_join_counter = 0; release_event = 0 };
  next_entry = 0;
  tokens = λ _. record { size = 0; current_published_entries = [] };
  next_token = 0;
  handle_keys = λ _. none;
  generated_keys = 0;
  ready_tasks = λ _. [];
  pending_tasks = 0;
  nthreads = nthreads;
  this_worker_id = 0;
  thread_stack_depth = 0;
  max_task_depth = 0;
  shutdown_counter = 0;
  dorment_workers = 0;
  quiescence_callbacks = [];
  callbacks_called = [];
}

abbrev pub make_shutdown_counter : M (Unit {0})
make_shutdown_counter = do c ← make_counter 1; λ s. ok (tt, record s { shutdown_counter = c })

-- `_init_shutdown_counter()`
unfoldable pub init_shutdown_counter : M (Unit {0})
unfolding attach_action
init_shutdown_counter s = attach_action s.shutdown_counter announce_shutdown s

-- `Runtime(top_level_task, options)`
unfoldable pub make_runtime : Task → M (Unit {0})
unfolding make_counter init_shutdown_counter
make_runtime top_level_task = do
  make_shutdown_counter
  init_shutdown_counter
  λ s. ok (tt, push_ready 0 (task_operation top_level_task) s)

unfoldable make_token : ℕ → M ℕ
make_token size s = ok (
  s.next_token,
  record s {
    tokens = update s.tokens s.next_token (record { size = size; current_published_entries = [] });
    next_token = s.next_token + 1;
  },
)

abbrev set_token : Flow → ℕ → State → State
set_token f token s = record s {
  flows =
      update s.flows f.address
        (record (s.flows f.address) { parent_collection_token = some token });
}

-- The loop that gives the token to the collections that the tasks depend on.
unfoldable set_tokens : ℕ → List Use → M (Unit {0})
set_tokens token [] = pure tt
set_tokens token (dep ∷ deps) = do
  when dep.manages_collection
      (do assert dep.is_anti_dependency; f ← deref dep.in_flow; λ s. ok (tt, set_token f token s))
  set_tokens token deps

module _ (host : Host) where
  -- `Runtime::register_task`
  unfoldable pub register_task : Task → M (Unit {0})
  unfolding increment_count make_pending_task
  register_task t = do λ s. increment_count s.shutdown_counter s; make_pending_task host t none

  -- The loop over the indices `0 .. n - 1`.
  unfoldable register_indices : (ℕ → Task) → ℕ → M (Unit {0})
  unfolding increment_count make_pending_task
  register_indices create_task_for_index zero = pure tt
  register_indices create_task_for_index (suc i) = do
    register_indices create_task_for_index i
    λ s. increment_count s.shutdown_counter s
    λ s.
        make_pending_task host (create_task_for_index i)
          (some ((s.this_worker_id + i) % s.nthreads)) s

  -- `Runtime::register_task_collection`. The names of the tasks are the front end's.
  unfoldable register_task_collection : ℕ → List Use → (ℕ → Task) → M (Unit {0})
  unfolding increment_count decrement_count make_token set_tokens register_indices
  register_task_collection size dependencies create_task_for_index = do
    λ s. increment_count s.shutdown_counter s
    token ← make_token size
    set_tokens token dependencies
    register_indices create_task_for_index size
    λ s. decrement_count s.shutdown_counter s

-- `get_execution_resource_count`
unfoldable get_execution_resource_count : ℕ → State → ℕ
get_execution_resource_count depth s = if depth == 0 then s.nthreads else 1
