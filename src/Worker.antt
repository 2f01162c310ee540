-- ===== src/Worker.antt =====
-- worker/: the loop of a worker, and random work stealing.
pub mod Stealing
pub mod Stopping
use darma_simple_backend.Prelude.{
  ℕ, zero, suc, ◌+◌, ◌-◌, ◌%◌, Bool, true, false, Option, none, some, List, [], ◌∷◌, update,
  if◌then◌else◌, ltb,
}
use darma_simple_backend.Machine.Types.{State, ReadyOperation}
use darma_simple_backend.Machine.Monad.{
  M, Result, ok, err, Fault, signed_overflow, pure, and_then, ◌>>=◌, ◌>>◌,
}
use darma_simple_backend.Machine.Counter.{word, int_max}
use darma_simple_backend.Pending.{Host, is_stealable, run_operation}

abbrev pub set_ready : ℕ → List ReadyOperation → State → State
set_ready w l s = record s { ready_tasks = update s.ready_tasks w l }

-- `ready_tasks.pop(ready_op)`
unfoldable pub pop_ready : ℕ → M (Option ReadyOperation)
pop_ready w s = elim (s.ready_tasks w) [
  | [] ↦ ok (none, s)
  | op ∷ rest ↦ ok (some op, set_ready w rest s)
]

-- `peak_and_pop_if` with the test for a stealable operation: the head, if it may be stolen.
unfoldable pub pop_stealable : ℕ → M (Option ReadyOperation)
pop_stealable w s = elim (s.ready_tasks w) [
  | [] ↦ ok (none, s)
  | op ∷ rest ↦ if is_stealable op then ok (some op, set_ready w rest s) else ok (none, s)
]

abbrev pub set_dorment : ℕ → State → State
set_dorment n s = record s { dorment_workers = n }

unfoldable pub wake : M (Unit {0})
wake s = ok (tt, set_dorment ((s.dorment_workers + word - 1) % word) s)

unfoldable pub sleep : M (Unit {0})
sleep s = ok (tt, set_dorment ((s.dorment_workers + 1) % word) s)

module _ (host : Host) where
  -- An operation that has been taken, run between `--dorment_workers` and `++dorment_workers`.
  unfoldable pub run_awake : ReadyOperation → M Bool
  unfolding wake sleep run_operation
  run_awake op = do wake; should_break ← run_operation host op; sleep; pure should_break

  unfoldable pub run_stolen : Option ReadyOperation → M Bool
  unfolding run_awake
  run_stolen none = pure false
  run_stolen (some op) = do should_break ← run_awake op; pure true

  unfoldable pub steal_from : ℕ → M Bool
  unfolding pop_stealable run_stolen
  steal_from sum = do op ← λ s. pop_stealable (sum % s.nthreads) s; run_stolen op

  -- `try_to_steal_work`, by the number that the generator draws: whether work was found. The sum of the
  -- draw and the worker's id is one of two ints.
  unfoldable pub try_to_steal_work : ℕ → ℕ → M Bool
  unfolding steal_from
  try_to_steal_work id draw s =
      if ltb int_max (draw + id) then err signed_overflow else steal_from (draw + id) s

  unfoldable pub run_or_steal : ℕ → ℕ → Option ReadyOperation → M Bool
  unfolding run_awake try_to_steal_work
  run_or_steal id draw (some op) = run_awake op
  run_or_steal id draw none = do stole ← try_to_steal_work id draw; pure false

  -- One round of `run_work_loop`: whether the loop is to end.
  unfoldable pub work_round : ℕ → ℕ → M Bool
  unfolding pop_ready run_or_steal
  work_round id draw = do op ← pop_ready id; run_or_steal id draw op

  -- The rounds of the loop, one draw to each; whether it ended within them.
  unfoldable pub work_rounds : ℕ → List ℕ → M Bool
  unfolding work_round
  work_rounds id [] s = ok (false, s)
  work_rounds id (draw ∷ draws) s = elim (work_round id draw s) [
    | ok (true, t) ↦ ok (true, t)
    | ok (false, t) ↦ work_rounds id draws t
    | err e ↦ err e
  ]

  -- `run_work_loop`
  unfoldable pub run_work_loop : ℕ → List ℕ → M Bool
  unfolding sleep work_rounds
  run_work_loop id draws = do
    λ s. ok (tt, record s { this_worker_id = id })
    sleep
    work_rounds id draws
