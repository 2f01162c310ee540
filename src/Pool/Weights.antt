-- ===== src/Pool/Weights.antt =====
-- What a thread in its phase, and an operation in a queue, count for.
use darma_simple_backend.Prelude.{
  Option, none, some, ℕ, suc, ◌+◌, ◌≡◌, List, [], ◌∷◌, ◌++◌, if◌then◌else◌, ltb, arith,
}
use darma_simple_backend.Pool.{
  Call, one_task, all_tasks, element, raising, Body, over, registers, registers_collection, Tasks,
  no_tasks, task, spreading, placing, Operation, run_task, all_tasks_done, Phase, unspawned,
  popping, stealing, ended, failed, spawning, joining, waking, running, registering, queueing,
  asserting, subtracting, triggering, announcing, dozing,
}

-- A queue weighs what its operations weigh.
unfoldable pub weight : (Operation → ℕ) → List Operation → ℕ
weight v [] = 0
weight v (op ∷ l) = v op + weight v l

pub weight-append :
    (v : Operation → ℕ) (l : List Operation) (op : Operation)
    → weight v (l ++ op ∷ []) ≡ weight v l + v op
unfolding weight
weight-append v [] op = omega arith
weight-append v (o ∷ l) op = omega (arith, weight-append v l op)

module _ (v : ℕ → ℕ) where
  -- The tasks that are still to be run, each weighed by `v` of its name.
  abbrev mutual
    pub worth : Body → ℕ
    worth over = 0
    worth (registers a b rest) = v a + worth b + worth rest
    worth (registers_collection ts rest) = worth_tasks ts + worth rest

    pub worth_tasks : Tasks → ℕ
    worth_tasks no_tasks = 0
    worth_tasks (task a b ts) = v a + worth b + worth_tasks ts

  abbrev pub worth_rest : Option Body → ℕ
  worth_rest none = 0
  worth_rest (some rest) = worth rest

  abbrev pub worth_op : Operation → ℕ
  worth_op (run_task a b) = v a + worth b
  worth_op all_tasks_done = 0

  abbrev pub worth_call : Call → ℕ
  worth_call (one_task a b rest) = v a + worth b + worth rest
  worth_call (all_tasks ts rest) = worth_tasks ts + worth rest
  worth_call (element i a b ts rest) = v a + worth b + worth_tasks ts + worth rest

  abbrev pub worth_phase : Phase → ℕ
  worth_phase (waking op) = worth_op op
  worth_phase (running a b) = v a + worth b
  worth_phase (registering b) = worth b
  worth_phase (raising c) = worth_call c
  worth_phase (queueing a b rest) = v a + worth b + worth rest
  worth_phase (spreading i ts rest) = worth_tasks ts + worth rest
  worth_phase (placing i a b ts rest) = v a + worth b + worth_tasks ts + worth rest
  worth_phase (asserting r) = worth_rest r
  worth_phase (subtracting r) = worth_rest r
  worth_phase (triggering r) = worth_rest r
  worth_phase (announcing k r) = worth_rest r
  worth_phase p = 0

  unfoldable pub worth_log : List ℕ → ℕ
  worth_log [] = 0
  worth_log (a ∷ l) = v a + worth_log l

-- The counts of the shutdown counter that a body takes in all: one for each task, and one for each
-- collection while it is registered.
abbrev mutual
  pub counts : Body → ℕ
  counts over = 0
  counts (registers a b rest) = 1 + counts b + counts rest
  counts (registers_collection ts rest) = 1 + counts_tasks ts + counts rest

  pub counts_tasks : Tasks → ℕ
  counts_tasks no_tasks = 0
  counts_tasks (task a b ts) = 1 + counts b + counts_tasks ts

abbrev pub counts_rest : Option Body → ℕ
counts_rest none = 0
counts_rest (some rest) = counts rest

abbrev pub owing_rest : Option Body → ℕ
owing_rest none = 0
owing_rest (some rest) = 1

-- The counts of the shutdown counter that an operation or a thread is to pay.
abbrev pub owing_op : Operation → ℕ
owing_op (run_task a b) = 1
owing_op all_tasks_done = 0

abbrev pub owing_call : Call → ℕ
owing_call (element i a b ts rest) = 2
owing_call c = 1

abbrev pub owing : Phase → ℕ
owing (waking op) = owing_op op
owing (running a b) = 1
owing (registering b) = 1
owing (raising c) = owing_call c
owing (queueing a b rest) = 2
owing (spreading i ts rest) = 2
owing (placing i a b ts rest) = 3
owing (asserting r) = owing_rest r + 1
owing (subtracting r) = owing_rest r + 1
owing (triggering r) = owing_rest r
owing (announcing k r) = owing_rest r
owing p = 0

-- The counts that it is still to take.
abbrev pub taking_op : Operation → ℕ
taking_op (run_task a b) = counts b
taking_op all_tasks_done = 0

abbrev pub taking_call : Call → ℕ
taking_call (one_task a b rest) = 1 + counts b + counts rest
taking_call (all_tasks ts rest) = 1 + counts_tasks ts + counts rest
taking_call (element i a b ts rest) = 1 + counts b + counts_tasks ts + counts rest

abbrev pub taking : Phase → ℕ
taking (waking op) = taking_op op
taking (running a b) = counts b
taking (registering b) = counts b
taking (raising c) = taking_call c
taking (queueing a b rest) = counts b + counts rest
taking (spreading i ts rest) = counts_tasks ts + counts rest
taking (placing i a b ts rest) = counts b + counts_tasks ts + counts rest
taking (asserting r) = counts_rest r
taking (subtracting r) = counts_rest r
taking (triggering r) = counts_rest r
taking (announcing k r) = counts_rest r
taking p = 0

abbrev pub firing : Phase → ℕ
firing (triggering r) = 1
firing p = 0

abbrev pub broken : Phase → ℕ
broken failed = 1
broken p = 0

abbrev pub message : Operation → ℕ
message all_tasks_done = 1
message (run_task a b) = 0

-- Whether the thread has taken the end message.
abbrev pub told : Phase → ℕ
told (waking op) = message op
told (dozing stop) = if stop then 1 else 0
told (joining k) = 1
told ended = 1
told p = 0

-- Whether the thread is still to send the end message to the worker `w`.
abbrev pub telling : ℕ → Phase → ℕ
telling w (announcing k r) = if ltb w k then 0 else 1
telling w p = 0

-- Whether the thread is counted as dormant.
abbrev pub asleep : Phase → ℕ
asleep popping = 1
asleep stealing = 1
asleep (waking op) = 1
asleep (joining k) = 1
asleep ended = 1
asleep p = 0

-- What only the main thread does.
abbrev pub leading : Phase → ℕ
leading (spawning k) = 1
leading (joining k) = 1
leading p = 0

abbrev pub unborn : Phase → ℕ
unborn unspawned = 1
unborn p = 0

-- The first worker that the main thread is still to spawn, or 0 when it has spawned all.
abbrev pub next_born : Phase → ℕ
next_born (spawning k) = suc k
next_born p = 0
