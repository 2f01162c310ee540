-- ===== src/Tests/Structures.antt =====
-- The queue, the locks, the command line, the workers and the runtime at concrete inputs.
use Prim.Native.String.{String}
use darma_simple_backend.Arguments.Bounds.{
  LeavesAtMost, initialize_runtime_arguments, initialize_runtime_arguments-LeavesAtMost,
}
use darma_simple_backend.Debug.{friendly_pointer_name, read_name, friendly_pointer_name-read_name}
use darma_simple_backend.Prelude.{
  inr, ◌++◌, length, List, ◌+◌, Bool, ℕ, ◌≤◌, ◌≡◌, refl, true, false, none, some, [], ◌∷◌, update,
  ◌==◌, ltb, arith,
}
use darma_simple_backend.Machine.Types.{
  State, Task, special_message, all_tasks_done, task_operation, announce_shutdown,
}
use darma_simple_backend.Machine.Monad.{Returns, ok}
use darma_simple_backend.Machine.Balance.{Inv}
use darma_simple_backend.Queue.{Queue, new_node, emplace, consume_all, peak_and_pop_if}
use darma_simple_backend.Queue.Fifo.{
  Holds, Taken, Gives, consume_one-Holds, emplace-Holds, peak_and_pop_if-Holds, consume_all-Holds,
}
use darma_simple_backend.TryLock.{try_lock, Attempt, try_lock-Attempt, failed_at}
use darma_simple_backend.Arguments.{parse_args, parse_args-printed, ranks, plain, app_argv, unequal}
use darma_simple_backend.ConcurrentMap.{
  evaluate_or_emplace, evaluate_at, evaluate_or_evaluate_first, erase, Alters, evaluated,
  evaluate-Alters,
}
use darma_simple_backend.ConcurrentDeque.{
  get_and_pop_front, get_and_pop_back, emplace_front, emplace_back, splice_back, size, drained,
  pop-emplace,
}
use darma_simple_backend.Prelude.{==_refl, Bool}
use darma_simple_backend.Machine.Types.{at, Handle}
use darma_simple_backend.Machine.Monad.{◌>>=◌}
use darma_simple_backend.Flow.{
  make_block, make_block_at, make_block_in, copy_block, delete_block, blank_block,
}
use darma_simple_backend.Flow.Ownership.{
  HasCopied, delete_block-copy_block, KeepsObjects, delete_block-make_block,
}
use darma_simple_backend.Runtime.{empty, make_runtime}
use darma_simple_backend.Runtime.Shutdown.{one_task, make_runtime-Inv}

-- Two elements, at the addresses 0 and 1.
abbrev pair_queue : Queue ℕ
pair_queue = record {
  nodes =
      update
        (update (λ _. record { next = none; value = none }) 0
          (record { next = some 1; value = some 7 }))
        1 (new_node 9);
  next_node = 2;
  head = some 0;
  tail = some 1;
}

pair_queue-Holds : Holds pair_queue (7 ∷ 9 ∷ [])
pair_queue-Holds =
    (0, 1, refl, omega arith, omega arith, refl, (1, refl, omega arith, omega arith, refl, refl))

consume_one-Holds_example : Gives pair_queue (7 ∷ 9 ∷ [])
consume_one-Holds_example = consume_one-Holds pair_queue (7 ∷ 9 ∷ []) pair_queue-Holds

emplace-Holds_example : (r : Queue ℕ) × (emplace 4 pair_queue ≡ ok r) × Holds r (7 ∷ 9 ∷ 4 ∷ [])
emplace-Holds_example = emplace-Holds pair_queue (7 ∷ 9 ∷ []) 4 pair_queue-Holds

peak_and_pop_if-Holds_example :
    (ltb 7 8 ≡ true
      → (r : Queue ℕ) × (peak_and_pop_if (λ a. ltb a 8) pair_queue ≡ ok (some 7, r))
        × Taken pair_queue 7 (9 ∷ []) r)
    × (ltb 7 8 ≡ false → peak_and_pop_if (λ a. ltb a 8) pair_queue ≡ ok (none, pair_queue))
peak_and_pop_if-Holds_example =
    peak_and_pop_if-Holds pair_queue 7 (9 ∷ []) (λ a. ltb a 8) pair_queue-Holds

consume_all-Holds_example :
    (r : Queue ℕ) × (consume_all 3 pair_queue ≡ ok (7 ∷ 9 ∷ [], r)) × Holds r []
consume_all-Holds_example =
    consume_all-Holds 3 pair_queue (7 ∷ 9 ∷ []) (omega arith) pair_queue-Holds

-- The third mutex is taken by another thread.
abbrev third_taken : ℕ → Bool
third_taken m = m == 2

try_lock-Attempt_example :
    Attempt (0 ∷ 1 ∷ 2 ∷ []) third_taken (try_lock (0 ∷ 1 ∷ 2 ∷ []) third_taken)
try_lock-Attempt_example = try_lock-Attempt (0 ∷ 1 ∷ 2 ∷ []) third_taken

-- The index counts from the second mutex.
third_is_one : (try_lock (0 ∷ 1 ∷ 2 ∷ []) third_taken).0 ≡ failed_at 1
unfolding try_lock
third_is_one = refl

abbrev atoi_four : String → ℕ
atoi_four s = 4

parse_args-printed_example :
    parse_args atoi_four "app" ("--ranks" ∷ "4" ∷ "input.txt" ∷ "--app-argv" ∷ "--ranks" ∷ [])
    ≡ ok (record { n_threads = 4; lookahead = 20 }, "app" ∷ "input.txt" ∷ "--ranks" ∷ [])
parse_args-printed_example =
    parse_args-printed atoi_four "app" (ranks "4" ∷ plain "input.txt" ∷ [])
      (app_argv ("--ranks" ∷ []))
      (
        tt,
        (
          (
            unequal "input.txt" "--backend-n-workers" refl,
            unequal "input.txt" "--ranks" refl,
            unequal "input.txt" "--backend-lookahead" refl,
            unequal "input.txt" "--app-argv" refl,
            unequal "input.txt" "--" refl,
          ),
          tt,
        ),
      )

-- The second of two workers has been told to stop.
abbrev stopping : State
stopping = record (empty 2) {
  ready_tasks = update (empty 2).ready_tasks 1 (special_message all_tasks_done ∷ []);
}

abbrev main_task : Task
main_task = record { id = 0; dependencies = []; is_data_parallel = false }

make_runtime-Inv_example : Returns (make_runtime main_task (empty 4)) (λ _ t.
    Inv one_task [] t
    × (t.shutdown_counter ≡ 0)
    × ((t.counters 0).actions ≡ announce_shutdown ∷ [])
    × (t.ready_tasks 0 ≡ task_operation main_task ∷ []))
make_runtime-Inv_example = make_runtime-Inv main_task 4

equal_keys : (k j : ℕ) → (k == j) ≡ true → k ≡ j
equal_keys k j e = ground arith

abbrev two_entries : List (ℕ × ℕ)
two_entries = (1, 5) ∷ (2, 6) ∷ []

abbrev next_value : ℕ → ℕ
next_value v = v + 1

abbrev same_value : ℕ → ℕ
same_value v = v

evaluate-Alters_example :
    Alters ◌==◌ 2
      (evaluated next_value 10)
      two_entries
      (evaluate_or_emplace ◌==◌ 2 next_value 10 two_entries)
    × Alters ◌==◌ 2
        (evaluated next_value 11)
        two_entries
        (evaluate_at ◌==◌ 2 next_value 10 two_entries)
    × Alters ◌==◌ 2
        (evaluated next_value 10)
        two_entries
        (evaluate_or_evaluate_first ◌==◌ 2 next_value same_value 10 two_entries)
    × Alters ◌==◌ 2 (λ o. none) two_entries (erase ◌==◌ 2 two_entries)
evaluate-Alters_example =
    evaluate-Alters ◌==◌ ==_refl equal_keys 2 next_value same_value 10 two_entries
      (refl, (refl, tt))

abbrev one_two : List ℕ
one_two = 1 ∷ 2 ∷ []

abbrev four : List ℕ
four = 4 ∷ []

pop-emplace_example :
    (get_and_pop_front (emplace_front 3 one_two) ≡ (some 3, one_two))
    × (get_and_pop_back (emplace_back 3 one_two) ≡ (some 3, one_two))
    × (get_and_pop_back (splice_back one_two (emplace_back 3 four)).0
        ≡ (some 3, (splice_back one_two four).0))
    × (drained (size one_two + size four) (splice_back one_two four).0
        ≡ drained (size one_two) one_two ++ drained (size four) four)
    × (size (splice_back one_two four).0 ≡ size one_two + size four)
    × (size (splice_back one_two four).1 ≡ 0)
pop-emplace_example = pop-emplace 3 one_two four

abbrev eight_bytes : Handle
eight_bytes = record { id = 1; metadata_size = 8 }

-- One block, with its object.
abbrev with_block : State
with_block = record (empty 2) {
  blocks =
      update (empty 2).blocks 0
        (record blank_block { handle = some eight_bytes; contents = at 0 0 });
  next_block = 1;
  next_allocation = 1;
  objects = at 0 0 ∷ [];
}

delete_block-make_block_example :
    KeepsObjects with_block (make_block (some eight_bytes) >>= delete_block)
    × KeepsObjects with_block (make_block_at (some eight_bytes) (at 0 0) >>= delete_block)
    × KeepsObjects with_block (make_block_in (at 0 0) 0 0 >>= delete_block)
delete_block-make_block_example = delete_block-make_block with_block (some eight_bytes) (at 0 0) 0 0

-- The second block is an element of the collection at the first.
abbrev with_element : State
with_element = record with_block {
  blocks = update with_block.blocks 1 (record blank_block {
    owns_data = false;
    contents = at 0 8;
    parent_collection = some 0;
    collection_index = 1;
  });
  next_block = 2;
}

delete_block-copy_block_example :
    Returns (copy_block 1 with_element) (HasCopied eight_bytes with_element)
    × KeepsObjects with_element (copy_block 1 >>= delete_block)
delete_block-copy_block_example =
    delete_block-copy_block with_element 1 eight_bytes (inr (refl, 0, refl, refl))

friendly_pointer_name-read_name_example :
    (length (friendly_pointer_name 140737488355327) ≡ 9)
    × (140737488355327 ≤ 281474976710656
        → read_name (friendly_pointer_name 140737488355327) ≡ 140737488355327)
friendly_pointer_name-read_name_example = friendly_pointer_name-read_name 140737488355327

initialize_runtime_arguments-LeavesAtMost_example :
    LeavesAtMost 3 (parse_args atoi_four "app" ("--ranks" ∷ "4" ∷ []))
    × (initialize_runtime_arguments atoi_four "app" ("--ranks" ∷ "4" ∷ [])
        ≡ parse_args atoi_four "app" ("--ranks" ∷ "4" ∷ []))
initialize_runtime_arguments-LeavesAtMost_example =
    initialize_runtime_arguments-LeavesAtMost atoi_four "app" ("--ranks" ∷ "4" ∷ [])
