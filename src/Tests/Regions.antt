-- ===== src/Tests/Regions.antt =====
-- Regions and the loops of their workers at concrete states.
use darma_simple_backend.Prelude.{
  length-append, ◌+◌, ℕ, ◌<◌, ◌≡◌, refl, sym, true, false, List, [], ◌∷◌, length, update, arith,
}
use mathlib.Core.List.{append-nil}
use darma_simple_backend.Machine.Types.{
  ReadyOperation, State, callable_operation, join_workers, special_message, all_tasks_done,
}
use darma_simple_backend.Machine.Monad.{ok, Returns, ◌>>◌, pure}
use darma_simple_backend.Pending.{Host, run_operation, run}
use darma_simple_backend.Worker.{run_work_loop}
use darma_simple_backend.Worker.Stopping.{IsStable, Runs, Stops, run_work_loop-Stops}
use darma_simple_backend.Runtime.{empty}
use darma_simple_backend.Runtime.Region.{initialize_runtime_instance, with_active_runtime_instance}
use darma_simple_backend.Runtime.Quiescence.{with_active_runtime_instance-Stops}
use darma_simple_backend.Tests.Uses.{idle}

-- The first worker is to join the others, twice, and then to stop.
abbrev joining : State
joining = record (empty 2) {
  ready_tasks = update (empty 2).ready_tasks 0 (
      callable_operation false join_workers
      ∷ callable_operation false join_workers
      ∷ special_message all_tasks_done
      ∷ []);
}

-- A join that leaves its mark.
abbrev marking : Host
marking = record idle {
  join_threads = λ s. ok (tt, record s { pending_tasks = s.pending_tasks + 1 });
}

abbrev Marked : List ReadyOperation → State → Type 0
Marked ran s = s.pending_tasks ≡ length ran

Marked-IsStable : IsStable 0 Marked
Marked-IsStable = record { queue = λ ran l s p. p; dorment = λ ran n s p. p; worker = λ ran s p. p }

join-Runs : Runs marking 0 Marked (callable_operation false join_workers)
unfolding run_operation run
join-Runs ran s p = (
  refl,
  omega (arith, p, length-append ran (callable_operation false join_workers ∷ [])),
  [],
  sym (append-nil (s.ready_tasks 0)),
)

run_work_loop-Stops_example : Returns (run_work_loop marking 0 (7 ∷ 7 ∷ 7 ∷ []) joining) (
    Stops marking 0 Marked Marked-IsStable
      (callable_operation false join_workers ∷ callable_operation false join_workers ∷ [])
      [])
run_work_loop-Stops_example =
    run_work_loop-Stops marking 0 Marked Marked-IsStable
      (callable_operation false join_workers ∷ callable_operation false join_workers ∷ []) []
      (7 ∷ 7 ∷ 7 ∷ []) joining (omega arith) refl refl (join-Runs, (join-Runs, tt))

with_active_runtime_instance-Stops_example :
    Returns
      ((initialize_runtime_instance >> with_active_runtime_instance (pure tt)) (empty 3))
      (λ _ t.
        (w : ℕ) (draws : List ℕ)
        → w < 3
        → 1 < length draws
        → Returns (run_work_loop idle w draws t) (λ stop _. stop ≡ true))
with_active_runtime_instance-Stops_example =
    with_active_runtime_instance-Stops idle 3 (λ s. refl) (omega arith)
