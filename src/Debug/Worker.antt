-- ===== src/Debug/Worker.antt =====
-- debug.hpp and main/main.cpp in a debug build: the state that the backend's calls are mirrored in, and
-- the worker of the debug actions. Each access to one of its queues under the lock, and each run of an
-- action under the lock of the state, is one event; other threads' come between the worker's.
use darma_simple_backend.Prelude.{
  ℕ, Bool, true, false, Option, none, some, List, [], ◌∷◌, ◌++◌, update,
}
use darma_simple_backend.ConcurrentDeque.{emplace_back, get_and_pop_front}

-- The three sets, by the addresses of their elements.
pub record DebugState : Type 0 where
  pub registered_uses : ℕ → Bool
  pub pending_tasks : ℕ → Bool
  pub running_tasks : ℕ → Bool

unfoldable pub add_registered_use : ℕ → DebugState → DebugState
add_registered_use u s = record s { registered_uses = update s.registered_uses u true }

unfoldable pub remove_registered_use : ℕ → DebugState → DebugState
remove_registered_use u s = record s { registered_uses = update s.registered_uses u false }

-- What a ready task's run does before and after the task's body.
unfoldable pub begin_task : ℕ → DebugState → DebugState
begin_task t s = record s {
  running_tasks = update s.running_tasks t true;
  pending_tasks = update s.pending_tasks t false;
}

unfoldable pub end_task : ℕ → DebugState → DebugState
end_task t s = record s { running_tasks = update s.running_tasks t false }

-- The callables of the backend's debug actions: those of `register_use`, `release_use` and the run of a
-- task, and that of the signal handler.
pub data Callable : Type 0 where
  adds_use removes_use begins_task ends_task : ℕ → Callable
  prints_state : Callable

-- The state, and the states that have been printed, the first one first.
pub record Output : Type 0 where
  pub current_state : DebugState
  pub printed : List DebugState

abbrev pub set_state : DebugState → Output → Output
set_state s o = record o { current_state = s }

-- `DebugAction::run`, under the lock of the state.
unfoldable pub run_callable : Callable → Output → Output
run_callable (adds_use u) o = set_state (add_registered_use u o.current_state) o
run_callable (removes_use u) o = set_state (remove_registered_use u o.current_state) o
run_callable (begins_task t) o = set_state (begin_task t o.current_state) o
run_callable (ends_task t) o = set_state (end_task t o.current_state) o
run_callable prints_state o = record o { printed = o.printed ++ o.current_state ∷ [] }

-- Where the worker stands in `run_work_loop`.
pub data Stage : Type 0 where
  popping draining finishing stopped : Stage

-- From where an action came that has been run.
pub data Origin : Type 0 where
  from_actions from_empty_queue directly : Origin

-- A null pointer in `actions` is `none`. The log has the actions that have been run, the first one first.
pub record DebugWorker : Type 0 where
  pub actions : List (Option Callable)
  pub empty_queue_actions : List Callable
  pub output : Output
  pub stage : Stage
  pub log : List (Origin × Callable)

abbrev pub go_to : Stage → DebugWorker → DebugWorker
go_to g w = record w { stage = g }

abbrev pub run_action : Origin → Callable → DebugWorker → DebugWorker
run_action from c w = record w { output = run_callable c w.output; log = w.log ++ (from, c) ∷ [] }

abbrev pub set_actions : List (Option Callable) → DebugWorker → DebugWorker
set_actions l w = record w { actions = l }

abbrev pub set_empty_queue_actions : List Callable → DebugWorker → DebugWorker
set_empty_queue_actions l w = record w { empty_queue_actions = l }

-- The main loop, by what `actions.get_and_pop_front()` gave.
abbrev pub take_action :
    Option (Option Callable) × List (Option Callable) → DebugWorker → DebugWorker
take_action (none, l) w = go_to draining w
take_action (some none, l) w = go_to finishing (set_actions l w)
take_action (some (some c), l) w = run_action from_actions c (set_actions l w)

-- The loops over the empty queue actions, and where they lead.
abbrev pub take_empty : Stage → Option Callable × List Callable → DebugWorker → DebugWorker
take_empty g (none, l) w = go_to g w
take_empty g (some c, l) w = run_action from_empty_queue c (set_empty_queue_actions l w)

-- One access of the worker to a queue, and the run of what it gets.
unfoldable pub work_from : Stage → DebugWorker → DebugWorker
unfolding get_and_pop_front
work_from popping w = take_action (get_and_pop_front w.actions) w
work_from draining w = take_empty popping (get_and_pop_front w.empty_queue_actions) w
work_from finishing w = take_empty stopped (get_and_pop_front w.empty_queue_actions) w
work_from stopped w = w

abbrev pub work : DebugWorker → DebugWorker
work w = work_from w.stage w

-- What happens next: the worker goes on; a thread enqueues an action, or does it itself; the signal
-- handler; the end of `main`.
pub data Event : Type 0 where
  works : Event
  enqueues does : Callable → Event
  signals ends : Event

-- `sig_usr2_handler`
abbrev pub signal_action : DebugWorker → DebugWorker
signal_action w = set_empty_queue_actions (emplace_back prints_state w.empty_queue_actions) w

-- What `main` does before it joins the worker.
abbrev pub end_of_main : DebugWorker → DebugWorker
end_of_main w = set_actions (emplace_back none w.actions) w

unfoldable pub happens : Event → DebugWorker → DebugWorker
unfolding emplace_back
happens works w = work w
happens (enqueues c) w = set_actions (emplace_back (some c) w.actions) w
happens (does c) w = run_action directly c w
happens signals w = signal_action w
happens ends w = end_of_main w

-- The events in order.
unfoldable pub happen : List Event → DebugWorker → DebugWorker
unfolding happens
happen [] w = w
happen (e ∷ es) w = happen es (happens e w)

abbrev pub no_output : Output
no_output = record {
  current_state = record {
    registered_uses = λ _. false;
    pending_tasks = λ _. false;
    running_tasks = λ _. false;
  };
  printed = [];
}

-- The worker as it is made, and its thread spawned.
abbrev pub spawned : DebugWorker
spawned = record {
  actions = [];
  empty_queue_actions = [];
  output = no_output;
  stage = popping;
  log = [];
}
