-- ===== src/Machine/Types.antt =====
-- What the backend keeps: join counters (data_structures/join_counter.hpp, event.hpp), flows and
-- control blocks (flow/), publication entries (publish.hpp), task collection tokens
-- (task_collection_token.hpp), ready operations (ready_operation.hpp) and the fields of the runtime
-- (runtime/runtime.hpp). A shared pointer is an address into a table of the state; a flow's pointer
-- also carries the address of its counter, which is set once, at construction.
use darma_simple_backend.Prelude.{ℕ, Bool, Option, List}

-- A key of the front end, or one that its `backend_maker` makes of an index.
pub data Key : Type 0 where
  user_key : ℕ → Key
  backend_key : ℕ → Key

-- A handle of the front end, with its serialization manager's metadata size.
pub record Handle : Type 0 where
  pub id : ℕ
  pub metadata_size : ℕ

pub data Pointer : Type 0 where
  null_pointer : Pointer
  at : ℕ → ℕ → Pointer

pub record ControlBlock : Type 0 where
  pub handle : Option Handle
  pub contents : Pointer
  pub owns_data : Bool
  pub parent_collection : Option ℕ
  pub collection_index : ℕ
  pub n_indices : ℕ

pub record Flow : Type 0 where
  pub address : ℕ
  pub ready_trigger : ℕ

pub record AntiFlow : Type 0 where
  pub ready_trigger : ℕ
  pub is_index_fetching_antiflow : Bool

pub record FlowFields : Type 0 where
  pub control_block : Option ℕ
  pub parent_collection_token : Option ℕ

pub record Entry : Type 0 where
  pub source_flow : Option Flow
  pub fetching_join_counter : ℕ
  pub release_event : ℕ

-- A use after its registration.
pub record Use : Type 0 where
  pub is_dependency : Bool
  pub is_anti_dependency : Bool
  pub establishes_alias : Bool
  pub manages_collection : Bool
  pub in_flow : Option Flow
  pub out_flow : Option Flow
  pub anti_in_flow : Option AntiFlow
  pub anti_out_flow : Option AntiFlow
  pub has_immediate_permissions : Bool

pub record Task : Type 0 where
  pub id : ℕ
  pub dependencies : List Use
  pub is_data_parallel : Bool

pub data MessageKind : Type 0 where
  no_message all_tasks_done : MessageKind

-- What a `CallableOperation` calls: the decrement of a flow's counter, or the join of the workers.
pub data Callable : Type 0 where
  decrement_trigger : ℕ → Callable
  join_workers : Callable

pub data ReadyOperation : Type 0 where
  special_message : MessageKind → ReadyOperation
  task_operation : Task → ReadyOperation
  callable_operation : Bool → Callable → ReadyOperation

-- One constructor for each lambda that the code attaches to an event.
pub data Action : Type 0 where
  decrement_of : ℕ → Action
  emplace_ready : ReadyOperation → Action
  fetch_into : ℕ → Flow → Action
  announce_shutdown announce_region : Action

pub record JoinCounter : Type 0 where
  pub count : ℕ
  pub triggered : Bool
  pub actions : List Action

pub record Token : Type 0 where
  pub size : ℕ
  pub current_published_entries : List ((Key × Key × ℕ) × Option ℕ)

pub record State : Type 0 where
  pub counters : ℕ → JoinCounter
  pub next_counter : ℕ
  pub flows : ℕ → FlowFields
  pub next_flow : ℕ
  pub blocks : ℕ → ControlBlock
  pub next_block : ℕ
  pub next_allocation : ℕ
  pub objects : List Pointer
  pub entries : ℕ → Entry
  pub next_entry : ℕ
  pub tokens : ℕ → Token
  pub next_token : ℕ
  pub handle_keys : ℕ → Option Key
  pub generated_keys : ℕ
  pub ready_tasks : ℕ → List ReadyOperation
  pub pending_tasks : ℕ
  pub nthreads : ℕ
  pub this_worker_id : ℕ
  pub thread_stack_depth : ℕ
  pub max_task_depth : ℕ
  pub shutdown_counter : ℕ
  pub dorment_workers : ℕ
  pub quiescence_callbacks : List ℕ
  pub callbacks_called : List ℕ
