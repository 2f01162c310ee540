-- ===== src/Pool/Cost.antt =====
-- What is left to do costs, and each step is paid for.
use darma_simple_backend.Prelude.{
  Option, none, some, ℕ, zero, suc, ◌+◌, ◌-◌, ◌≤◌, ◌<◌, ◌≡◌, refl, ap, Bool, true, false, List, [],
  ◌∷◌, ◌++◌, update, total, total-update, if◌then◌else◌, ltb, arith,
}
use darma_simple_backend.Pool.{
  Call, one_task, all_tasks, element, raising, registers_collection, Tasks, no_tasks, task,
  spreading, placing, Body, over, registers, Operation, run_task, all_tasks_done, Phase, unspawned,
  starting, popping, stealing, ended, failed, spawning, joining, waking, running, registering,
  queueing, asserting, subtracting, triggering, announcing, dozing, Shared, System, advance_from,
  victim, move, spawn, can_move, work, pop_locked, steal_locked, emplace_locked, set_ready,
  announce_next,
}
use darma_simple_backend.Pool.Weights.{weight, weight-append, next_born}
use darma_simple_backend.Pool.Invariant.{queued}

-- `k` end messages, each with its queueing.
unfoldable pub messages_cost : ℕ → ℕ → ℕ
messages_cost n zero = 0
messages_cost n (suc k) = messages_cost n k + (n + 7)

-- The steps of work that are still to be made, at most: by the end of a task whose count is the last,
-- in the body of a task, for an operation in a queue, and for a thread in its phase.
module _ (n : ℕ) where
  abbrev telling_cost : ℕ
  telling_cost = messages_cost n n

  abbrev mutual
    body_cost : Body → ℕ
    body_cost over = 0
    body_cost (registers a b rest) = telling_cost + 13 + body_cost b + body_cost rest
    body_cost (registers_collection ts rest) = telling_cost + 7 + tasks_cost ts + body_cost rest

    tasks_cost : Tasks → ℕ
    tasks_cost no_tasks = 0
    tasks_cost (task a b ts) = telling_cost + 13 + body_cost b + tasks_cost ts

  abbrev rest_cost : Option Body → ℕ
  rest_cost none = 2
  rest_cost (some rest) = telling_cost + 7 + body_cost rest

  abbrev pub cost_op : Operation → ℕ
  cost_op (run_task a b) = telling_cost + 10 + body_cost b
  cost_op all_tasks_done = n + 6

  abbrev waking_cost : Operation → ℕ
  waking_cost (run_task a b) = telling_cost + 9 + body_cost b
  waking_cost all_tasks_done = n + 3

  abbrev call_cost : Call → ℕ
  call_cost (one_task a b rest) =
      telling_cost + 7 + (telling_cost + 12 + body_cost b) + body_cost rest
  call_cost (all_tasks ts rest) =
      telling_cost + 6 + (telling_cost + 7 + body_cost rest) + tasks_cost ts
  call_cost (element k a b ts rest) =
      telling_cost
      + 5
      + (telling_cost + 7 + body_cost rest)
      + tasks_cost ts
      + (telling_cost + 12 + body_cost b)

  abbrev pub cost : Phase → ℕ
  cost unspawned = 3
  cost (spawning k) = (n - k) + 3
  cost starting = 2
  cost popping = 1
  cost stealing = 1
  cost (waking op) = waking_cost op
  cost (running a b) = telling_cost + 8 + body_cost b
  cost (registering b) = telling_cost + 7 + body_cost b
  cost (raising c) = call_cost c
  cost (queueing a b rest) = telling_cost + 7 + (telling_cost + 11 + body_cost b) + body_cost rest
  cost (spreading k ts rest) =
      telling_cost + 5 + (telling_cost + 7 + body_cost rest) + tasks_cost ts
  cost (placing k a b ts rest) =
      telling_cost
      + 5
      + (telling_cost + 7 + body_cost rest)
      + tasks_cost ts
      + (telling_cost + 11 + body_cost b)
  cost (asserting r) = telling_cost + 4 + rest_cost r
  cost (subtracting r) = telling_cost + 3 + rest_cost r
  cost (triggering r) = telling_cost + 2 + rest_cost r
  cost (announcing k r) = messages_cost n (n - k) + 1 + rest_cost r
  cost (dozing stop) = if stop then n + 2 else 2
  cost (joining k) = (n - k) + 1
  cost p = 0

  abbrev pub measure : System → ℕ
  measure s = total cost n s.phase + queued n cost_op s.shared

module _ (n : ℕ) (s : System) (i draw : ℕ) where
  -- A step of the worker `i` from the phase `p` is paid for.
  abbrev IsPaid : Phase → Phase → Shared → Type 0
  IsPaid p q f =
      cost n q + queued n (cost_op n) f + work p q ≤ cost n p + queued n (cost_op n) s.shared

  queue_cost :
      (w : ℕ) (l : List Operation)
      → w < n
      → queued n (cost_op n) (set_ready w l s.shared) + weight (cost_op n) (s.shared.ready_tasks w)
        ≡ queued n (cost_op n) s.shared + weight (cost_op n) l
  queue_cost w l lt = total-update (weight (cost_op n)) n s.shared.ready_tasks w l lt

  emplace_cost :
      (w : ℕ) (op : Operation)
      → w < n
      → queued n (cost_op n) (emplace_locked w op s.shared)
        ≡ queued n (cost_op n) s.shared + cost_op n op
  emplace_cost w op lt = omega (
    arith,
    queue_cost w (s.shared.ready_tasks w ++ op ∷ []) lt,
    weight-append (cost_op n) (s.shared.ready_tasks w) op,
  )

  take_cost :
      (w : ℕ) (op : Operation) (rest : List Operation)
      → w < n
      → s.shared.ready_tasks w ≡ op ∷ rest
      → queued n (cost_op n) (set_ready w rest s.shared) + cost_op n op
        ≡ queued n (cost_op n) s.shared
  unfolding weight
  take_cost w op rest lt holds = omega (arith, queue_cost w rest lt, ap (weight (cost_op n)) holds)

  pop-IsPaid :
      (l : List Operation)
      → i < n
      → s.shared.ready_tasks i ≡ l
      → IsPaid popping (pop_locked i s.shared l).0 (pop_locked i s.shared l).1
  pop-IsPaid [] lt holds = omega arith
  pop-IsPaid (run_task a b ∷ rest) lt holds =
      omega (arith, take_cost i (run_task a b) rest lt holds)
  pop-IsPaid (all_tasks_done ∷ rest) lt holds =
      omega (arith, take_cost i all_tasks_done rest lt holds)

  steal-IsPaid :
      (w : ℕ) (l : List Operation)
      → w < n
      → s.shared.ready_tasks w ≡ l
      → IsPaid stealing (steal_locked w s.shared l).0 (steal_locked w s.shared l).1
  steal-IsPaid w [] lt holds = omega arith
  steal-IsPaid w (run_task a b ∷ rest) lt holds =
      omega (arith, take_cost w (run_task a b) rest lt holds)
  steal-IsPaid w (all_tasks_done ∷ rest) lt holds = omega arith

  announce-IsPaid :
      (k : ℕ) (r : Option Body) (more : Bool)
      → ltb k n ≡ more
      → IsPaid
          (announcing k r)
          (announce_next more k r s.shared).0
          (announce_next more k r s.shared).1
  unfolding messages_cost
  announce-IsPaid k r true lt =
      omega (arith, emplace_cost k all_tasks_done (ground (arith, lt)), ap (messages_cost n) left)
    where
      left : n - k ≡ suc (n - (k + 1))
      left = ground (arith, lt)
  announce-IsPaid k none false ge = omega arith
  announce-IsPaid k (some rest) false ge = omega arith

  -- The steps that spawn no thread.
  paid :
      (p : Phase)
      → i < n
      → can_move n p s.phase ≡ true
      → next_born p ≡ 0
      → s.phase i ≡ p
      → IsPaid p (move n i draw p s.shared).0 (move n i draw p s.shared).1
  unfolding move
  paid (spawning k) lt can settled e = absurd (omega (arith, settled))
  paid unspawned lt can settled e = absurd (ground (arith, can))
  paid ended lt can settled e = absurd (ground (arith, can))
  paid failed lt can settled e = absurd (ground (arith, can))
  paid starting lt can settled e = omega arith
  paid popping lt can settled e = pop-IsPaid _ lt refl
  paid stealing lt can settled e = steal-IsPaid (victim n i draw) _ (omega (arith, lt)) refl
  paid (joining k) lt can settled e = ground arith
  paid (waking (run_task a b)) lt can settled e = omega arith
  paid (waking all_tasks_done) lt can settled e = omega arith
  paid (running a b) lt can settled e = omega arith
  paid (registering over) lt can settled e = omega arith
  paid (registering (registers a b rest)) lt can settled e = ground arith
  paid (raising (one_task a b rest)) lt can settled e = omega arith
  paid (raising (all_tasks ts rest)) lt can settled e = omega arith
  paid (raising (element k a b ts rest)) lt can settled e = omega arith
  paid (queueing a b rest) lt can settled e = omega (arith, emplace_cost i (run_task a b) lt)
  paid (spreading k no_tasks rest) lt can settled e = omega arith
  paid (spreading k (task a b ts) rest) lt can settled e = ground arith
  paid (placing k a b ts rest) lt can settled e = omega (arith, emplace_cost i (run_task a b) lt)
  paid (registering (registers_collection ts rest)) lt can settled e = ground arith
  paid (asserting r) lt can settled e = ground arith
  paid (subtracting none) lt can settled e = ground arith
  paid (subtracting (some rest)) lt can settled e = ground arith
  paid (triggering r) lt can settled e =
      let everybody : n - 0 ≡ n = omega arith in omega (arith, ap (messages_cost n) everybody)
  paid (announcing k r) lt can settled e = announce-IsPaid k r _ refl
  paid (dozing true) lt can settled e = ground arith
  paid (dozing false) lt can settled e = omega arith

  -- What a step does to the measure, for a thread that spawns none.
  pub settled_measure :
      (p : Phase)
      → i < n
      → can_move n p s.phase ≡ true
      → next_born p ≡ 0
      → spawn n p s.phase ≡ s.phase
      → s.phase i ≡ p
      → measure n (advance_from n p i draw s) + work p (move n i draw p s.shared).0 ≤ measure n s
  settled_measure p lt can settled alone e = omega (
    arith,
    paid p lt can settled e,
    total-update (cost n) n s.phase i (move n i draw p s.shared).0 lt,
    ap (cost n) e,
    ap (λ f. total (cost n) n (update f i (move n i draw p s.shared).0)) alone,
  )
