-- ===== src/Pool.antt =====
-- worker/worker_threads.cpp, worker/work_stealing_random.cpp and runtime/runtime.cpp on several
-- threads: the workers' threads, which take tasks from their queues and steal them from each other's,
-- the tasks that register others, and the shutdown counter. Each atomic access, and each access to a
-- queue under its lock, is one step of one thread. That a task is run is written to a log.
pub mod Weights
pub mod Invariant
pub mod Spawning
pub mod Plain
pub mod Queues
pub mod Counting
pub mod Moves
pub mod Kept
pub mod Cost
pub mod Measure
pub mod Progress
pub mod Outcome
pub mod Ends
use darma_simple_backend.Prelude.{
  ℕ, zero, suc, ◌+◌, ◌-◌, ◌%◌, ◌≤◌, ◌<◌, ◌≡◌, Bool, true, false, Option, none, some, List, [], ◌∷◌,
  ◌++◌, update, if◌then◌else◌, ◌==◌, ◌&&◌, ltb,
}
use darma_simple_backend.Machine.Counter.{word, int_max}

-- What the body of a task asks of the runtime, until it is over: it registers a task, by its name and
-- its body, or a collection of tasks, and goes on.
mutual
  pub data Body : Type 0 where
    over : Body
    registers : ℕ → Body → Body → Body
    registers_collection : Tasks → Body → Body

  -- The tasks of a collection, by index.
  pub data Tasks : Type 0 where
    no_tasks : Tasks
    task : ℕ → Body → Tasks → Tasks

pub data Operation : Type 0 where
  run_task : ℕ → Body → Operation
  all_tasks_done : Operation

abbrev pub is_stealable : Operation → Bool
is_stealable (run_task a b) = true
is_stealable all_tasks_done = false

-- A call that is to raise the shutdown counter: it registers one task, a collection of tasks, or the
-- element of a collection.
pub data Call : Type 0 where
  one_task : ℕ → Body → Body → Call
  all_tasks : Tasks → Body → Call
  element : ℕ → ℕ → Body → Tasks → Body → Call

-- Where the thread of a worker stands. The first worker's is the main thread: it spawns the threads of
-- the others, runs its own loop and joins the others.
pub data Phase : Type 0 where
  unspawned starting popping stealing ended failed : Phase
  spawning joining : ℕ → Phase
  waking : Operation → Phase
  running : ℕ → Body → Phase
  registering : Body → Phase
  raising : Call → Phase
  queueing : ℕ → Body → Body → Phase
  spreading : ℕ → Tasks → Body → Phase
  placing : ℕ → ℕ → Body → Tasks → Body → Phase
  asserting subtracting triggering : Option Body → Phase
  announcing : ℕ → Option Body → Phase
  dozing : Bool → Phase

-- What the threads share, and the log.
pub record Shared : Type 0 where
  pub count : ℕ
  pub triggered : Bool
  pub ready_tasks : ℕ → List Operation
  pub dorment_workers : ℕ
  pub log : List ℕ

abbrev pub set_ready : ℕ → List Operation → Shared → Shared
set_ready w l e = record e { ready_tasks = update e.ready_tasks w l }

abbrev pub emplace_locked : ℕ → Operation → Shared → Shared
emplace_locked w op e = set_ready w (e.ready_tasks w ++ op ∷ []) e

abbrev pub set_count : ℕ → Shared → Shared
set_count c e = record e { count = c }

abbrev pub set_dorment : ℕ → Shared → Shared
set_dorment d e = record e { dorment_workers = d }

-- `ready_tasks.pop(ready_op)`, by what the queue of the worker `w` holds.
abbrev pub pop_locked : ℕ → Shared → List Operation → Phase × Shared
pop_locked w e [] = (stealing, e)
pop_locked w e (op ∷ rest) = (waking op, set_ready w rest e)

-- `peak_and_pop_if` on the queue of the victim `w`.
abbrev pub steal_locked : ℕ → Shared → List Operation → Phase × Shared
steal_locked w e [] = (popping, e)
steal_locked w e (op ∷ rest) =
    if is_stealable op then (waking op, set_ready w rest e) else (popping, e)

-- `run_operation`: a task is run, and the message breaks the loop.
abbrev pub run_operation : Operation → Phase
run_operation (run_task a b) = running a b
run_operation all_tasks_done = dozing true

-- `advance_count` asserts that the counter has not fired, and raises its count.
abbrev assert_untriggered : Call → Shared → Phase × Shared
assert_untriggered c e = (if e.triggered then failed else raising c, e)

abbrev pub raise_count : Shared → Shared
raise_count e = set_count ((e.count + 1) % word) e

-- Where a call goes on that has raised the count.
abbrev pub after_raise : Call → Phase
after_raise (one_task a b rest) = queueing a b rest
after_raise (all_tasks ts rest) = spreading 0 ts rest
after_raise (element i a b ts rest) = placing i a b ts rest

-- The body of a task, up to its next call of the runtime: `register_task` and `register_task_collection`
-- raise the shutdown counter first; at the end of the body, the task's count is to be paid.
abbrev pub register_next : Body → Shared → Phase × Shared
register_next over e = (asserting none, e)
register_next (registers a b rest) e = assert_untriggered (one_task a b rest) e
register_next (registers_collection ts rest) e = assert_untriggered (all_tasks ts rest) e

-- The loop of `register_task_collection` at the index `i`; after it, the collection's count is paid. The
-- worker that the loop names is not the one whose queue gets the task: `enqueue_or_run` queues on the
-- thread's own worker.
abbrev pub spread_next : ℕ → Tasks → Body → Shared → Phase × Shared
spread_next i no_tasks rest e = (asserting (some rest), e)
spread_next i (task a b ts) rest e = assert_untriggered (element i a b ts rest) e

-- Where a thread goes on that has paid a count: a task that is over, or the body that registered a
-- collection.
abbrev pub after_count : Option Body → Phase
after_count none = dozing false
after_count (some rest) = registering rest

-- The end of the loop: the main thread goes on to join the other threads.
abbrev pub after_loop : ℕ → Bool → Phase
after_loop id true = if id == 0 then joining 0 else ended
after_loop id false = popping

-- The loop of the shutdown counter's action, at the worker `k`.
abbrev pub announce_next : Bool → ℕ → Option Body → Shared → Phase × Shared
announce_next true k r e = (announcing (k + 1) r, emplace_locked k all_tasks_done e)
announce_next false k r e = (after_count r, e)

module _ (n : ℕ) where
  -- `steal_distribution(generator) + id` is a sum of two ints: no step is taken where it overflows.
  abbrev pub victim : ℕ → ℕ → ℕ
  victim id draw = (draw + id) % n

  -- The loop of `spin_up_worker_threads`, then the main thread's own loop.
  abbrev spawn_next : ℕ → Phase
  spawn_next k = if ltb (k + 1) n then spawning (k + 1) else starting

  -- The loop of `wait_for_top_level_instance_to_shut_down`, when the worker `k + 1` has ended.
  abbrev join_next : ℕ → Phase
  join_next k = if ltb (k + 1) n then joining (k + 1) else ended

  -- The next atomic step of the thread of the worker `id`; `draw` is the number that the generator
  -- draws for a theft.
  unfoldable pub move : ℕ → ℕ → Phase → Shared → Phase × Shared
  move id draw unspawned e = (unspawned, e)
  move id draw (spawning k) e = (spawn_next k, e)
  move id draw starting e = (popping, set_dorment ((e.dorment_workers + 1) % word) e)
  move id draw popping e = pop_locked id e (e.ready_tasks id)
  move id draw stealing e = steal_locked (victim id draw) e (e.ready_tasks (victim id draw))
  move id draw (waking op) e =
      (run_operation op, set_dorment ((e.dorment_workers + word - 1) % word) e)
  move id draw (running a b) e = (registering b, record e { log = a ∷ e.log })
  move id draw (registering b) e = register_next b e
  move id draw (raising c) e = (after_raise c, raise_count e)
  move id draw (queueing a b rest) e = (registering rest, emplace_locked id (run_task a b) e)
  move id draw (spreading i ts rest) e = spread_next i ts rest e
  move id draw (placing i a b ts rest) e =
      (spreading (i + 1) ts rest, emplace_locked id (run_task a b) e)
  move id draw (asserting r) e = (if e.triggered then failed else subtracting r, e)
  move id draw (subtracting r) e = (
    if e.count == 1 then triggering r else after_count r,
    set_count ((e.count + word - 1) % word) e,
  )
  move id draw (triggering r) e = (announcing 0 r, record e { triggered = true })
  move id draw (announcing k r) e = announce_next (ltb k n) k r e
  move id draw (dozing stop) e =
      (after_loop id stop, set_dorment ((e.dorment_workers + 1) % word) e)
  move id draw (joining k) e = (join_next k, e)
  move id draw ended e = (ended, e)
  move id draw failed e = (failed, e)

pub record System : Type 0 where
  pub shared : Shared
  pub phase : ℕ → Phase

abbrev pub is_ended : Phase → Bool
is_ended ended = true
is_ended p = false

module _ (n : ℕ) where
  -- `spawn_work_loop(1)` of the worker `k + 1`: its thread starts.
  abbrev pub spawn : Phase → (ℕ → Phase) → ℕ → Phase
  spawn (spawning k) f = if ltb (k + 1) n then update f (k + 1) starting else f
  spawn p f = f

  -- The thread of the worker `id`, which is in the phase `p`, moves.
  abbrev pub advance_from : Phase → ℕ → ℕ → System → System
  advance_from p id draw s = record {
    shared = (move n id draw p s.shared).1;
    phase = update (spawn p s.phase) id (move n id draw p s.shared).0;
  }

  abbrev pub advance : ℕ → ℕ → System → System
  advance id draw s = advance_from (s.phase id) id draw s

  -- Whether a thread in this phase can move: `join` waits for the end of the other thread.
  abbrev pub can_move : Phase → (ℕ → Phase) → Bool
  can_move (joining k) f = if ltb (k + 1) n then is_ended (f (k + 1)) else true
  can_move unspawned f = false
  can_move ended f = false
  can_move failed f = false
  can_move p f = true

abbrev pub searches : Phase → Bool
searches popping = true
searches stealing = true
searches p = false

-- A search that finds nothing is no work; every other step is.
abbrev pub work : Phase → Phase → ℕ
work p q = if searches p && searches q then 0 else 1

-- The scheduler picks any of the first `n` threads that can move, and the generator any number whose sum
-- with the worker's id is an `int`: a theft whose sum overflows is undefined behaviour, and no step.
pub data Step (n : ℕ) (s : System) : ℕ → System → Type 0 where
  pick :
      (id draw : ℕ)
      → id < n
      → draw + id ≤ int_max
      → can_move n (s.phase id) s.phase ≡ true
      → Step n s (work (s.phase id) (move n id draw (s.phase id) s.shared).0) (advance n id draw s)

-- An execution with `k` steps of work, and any number of searches that find nothing.
pub data Run (n : ℕ) (s : System) : ℕ → System → Type 0 where
  here : Run n s 0 s
  next : {k d : ℕ} {t u : System} → Run n s k t → Step n t d u → Run n s (d + k) u

-- The runtime as it is made, with a top-level task, before `spin_up_worker_threads`.
abbrev pub launch : ℕ → Body → System
launch a b = record {
  shared = record {
    count = 1;
    triggered = false;
    ready_tasks = update (λ _. []) 0 (run_task a b ∷ []);
    dorment_workers = 0;
    log = [];
  };
  phase = update (λ _. unspawned) 0 (spawning 0);
}
