-- ===== src/Tests/Tasks.antt =====
-- Pending operations and tasks at concrete states.
use darma_simple_backend.Prelude.{
  ◌≤◌, ◌+◌, ℕ, refl, true, false, none, some, [], ◌∷◌, if◌then◌else◌, ◌==◌, arith,
}
use darma_simple_backend.Machine.Types.{
  callable_operation, ReadyOperation, Task, decrement_trigger, task_operation,
}
use darma_simple_backend.Machine.Monad.{Returns, After}
use darma_simple_backend.Machine.Counter.{increment_count}
use darma_simple_backend.Machine.Balance.{Inv}
use darma_simple_backend.Machine.Attach.{raise}
use darma_simple_backend.Machine.Stock.{stock}
use darma_simple_backend.Machine.Decrement.{bump}
use darma_simple_backend.Machine.Frame.{Frame-refl}
use darma_simple_backend.Flow.Laws.{Inv-ext}
use darma_simple_backend.Flow.Verbs.{Leaves}
use darma_simple_backend.Pending.{
  make_pending_operation, add_dependency_on, when_all_ready_do, make_pending_task, run,
  add_dependency,
}
use darma_simple_backend.Pending.Queued.{Fits, when_all_ready_do-Leaves}
use darma_simple_backend.Pending.Tasks.{FitsAll, make_pending_task-Leaves}
use darma_simple_backend.Runtime.{register_task}
use darma_simple_backend.Runtime.Tasks.{register_task-Leaves, run-Leaves}
use darma_simple_backend.Machine.Types.{Use}
use darma_simple_backend.Release.{release_use, alias_trigger}
use darma_simple_backend.Release.Paid.{with_use}
use darma_simple_backend.Release.Stocked.{aliases}
use darma_simple_backend.Release.Aliased.{Aliasable, with_alias, release_use-with_alias}
use darma_simple_backend.Tests.Counters.{
  first_held, none_held, two_flows, two_flows-Inv, apart, apart-Inv, no_actions,
}
use darma_simple_backend.Tests.Uses.{idle, held_use, second_flow, both_held}

two_flows-Fits : After (make_pending_operation two_flows) (λ op t. Fits op (0 ∷ 1 ∷ []) t)
unfolding make_pending_operation add_dependency_on
two_flows-Fits = (omega arith, omega arith, (omega arith, omega arith, tt))

when_all_ready_do-Leaves_example :
    Returns
      (when_all_ready_do idle (0 ∷ 1 ∷ []) (decrement_trigger 1) two_flows)
      (λ _ t. Leaves (bump none_held 0) two_flows t)
when_all_ready_do-Leaves_example =
    when_all_ready_do-Leaves idle (bump none_held 0) (0 ∷ 1 ∷ []) (decrement_trigger 1) two_flows
      two_flows-Inv refl two_flows-Fits

-- A task that reads what the second flow makes ready.
abbrev reader : Task
reader = record {
  id = 1;
  dependencies = record held_use { in_flow = some second_flow; is_anti_dependency = false } ∷ [];
  is_data_parallel = false;
}

reader-Fits : After (make_pending_operation two_flows) (λ op t. FitsAll op reader.dependencies t)
unfolding make_pending_operation add_dependency
reader-Fits = (((omega arith, omega arith), tt), tt)

make_pending_task-Leaves_example :
    Returns
      (make_pending_task idle reader (some 1) two_flows)
      (λ _ t. Leaves (bump none_held 0) two_flows t)
make_pending_task-Leaves_example =
    make_pending_task-Leaves idle (bump none_held 0) reader two_flows two_flows-Inv refl (some 1)
      reader-Fits

-- The first counter of `apart` is the shutdown counter.
registered-Fits :
    After
      (increment_count 0 apart)
      (λ _ t. After (make_pending_operation t) (λ op u. FitsAll op reader.dependencies u))
unfolding increment_count make_pending_operation add_dependency
registered-Fits = (((omega arith, omega arith), tt), tt)

register_task-Leaves_example :
    Returns (register_task idle reader apart) (λ _ t. Leaves (raise both_held 0 1) apart t)
register_task-Leaves_example =
    register_task-Leaves idle both_held reader apart apart-Inv refl (omega arith, refl, omega arith)
      registered-Fits

abbrev quiet : Task
quiet = record { id = 2; dependencies = []; is_data_parallel = false }

abbrev pub second_held : ℕ → ℕ
second_held c = if c == 1 then 1 else 0

pub quiet-Inv : Inv (raise second_held 0 1) [] apart
quiet-Inv = Inv-ext both_held (raise second_held 0 1) [] apart (λ x. ground arith) apart-Inv

run-Leaves_example :
    Returns (run idle (task_operation quiet) apart) (λ _ t. Leaves second_held apart t)
run-Leaves_example =
    run-Leaves idle second_held quiet apart quiet-Inv no_actions tt
      (λ ps. (quiet-Inv, Frame-refl apart))

-- A use whose out flow, the second, is an alias of its in flow, the first.
abbrev alias_use : Use
alias_use = record held_use {
  establishes_alias = true;
  in_flow = some (record { address = 1; ready_trigger = 0 });
  anti_out_flow = none;
}

alias_use-Inv : Inv (with_use first_held alias_use) [] apart
alias_use-Inv =
    Inv-ext both_held (with_use first_held alias_use) [] apart (λ x. ground arith) apart-Inv

alias_use-Aliasable : Aliasable idle alias_use apart
unfolding alias_trigger increment_count make_pending_operation add_dependency_on
alias_use-Aliasable =
    (_, _, refl, refl, ((omega arith, refl, omega arith), (omega arith, omega arith, tt)), tt)

-- One for each decrement of the flow 1.
abbrev decrements_one : ReadyOperation → ℕ
decrements_one (callable_operation stealable (decrement_trigger c)) = if c == 1 then 1 else 0
decrements_one op = 0

release_use-with_alias_example : Returns (release_use idle alias_use apart) (λ _ t.
    Leaves (with_alias first_held alias_use) apart t
    × (stock decrements_one apart + aliases decrements_one idle alias_use ≤ stock decrements_one t))
release_use-with_alias_example =
    release_use-with_alias idle decrements_one first_held apart alias_use alias_use-Inv refl
      (omega arith) no_actions refl alias_use-Aliasable
