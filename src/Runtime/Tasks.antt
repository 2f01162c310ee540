-- ===== src/Runtime/Tasks.antt =====
-- A task's count of the shutdown counter: its registration takes it, and its run pays it.
use darma_simple_backend.Prelude.{
  ℕ, ◌≡◌, refl, sym, subst, ◌∙◌, true, Option, none, some, List, [], ◌∷◌, All, inl, inr, Bool-cases,
}
use darma_simple_backend.Machine.Types.{State}
use darma_simple_backend.Machine.Monad.{
  After, Returns-and, ok, M, Returns, Returns-then, and_then, ◌>>◌,
}
use darma_simple_backend.Machine.Counter.{increment_count, decrement_count}
use darma_simple_backend.Machine.Balance.{Inv}
use darma_simple_backend.Machine.Attach.{raise}
use darma_simple_backend.Flow.Verbs.{
  Leaves, Leaves-after, CanHold, increment_count-Leaves, decrement_count-Leaves,
}
use darma_simple_backend.Pending.{Host, make_pending_operation}
use darma_simple_backend.Machine.Types.{Use, Task, Flow, Pointer, task_operation}
use darma_simple_backend.Pending.{run, data_of, data_pointers, make_pending_task}
use darma_simple_backend.Pending.Tasks.{FitsAll, make_pending_task-Leaves}
use darma_simple_backend.Release.Paid.{AllSourced}
use darma_simple_backend.Runtime.{register_task}

module _ (host : Host) (h : ℕ → ℕ) (task : Task) (s : State) where
  -- Under the invariant for the holds `h`, where operations are not run on the stack, the shutdown
  -- counter can take a count and there is room for a count of each dependency, `register_task` returns
  -- without a fault, and the invariant holds with one count more of the shutdown counter.
  pub register_task-Leaves :
      Inv h [] s
      → s.max_task_depth ≡ 0
      → CanHold s.shutdown_counter s
      → After
          (increment_count s.shutdown_counter s)
          (λ _ t. After (make_pending_operation t) (λ op u. FitsAll op task.dependencies u))
      → Returns (register_task host task s) (λ _ t. Leaves (raise h s.shutdown_counter 1) s t)
  unfolding register_task
  register_task-Leaves inv no_depth can fits =
      Returns-then (λ t. increment_count t.shutdown_counter t)
        (λ _. make_pending_task host task none)
        (λ _ t.
          Leaves held s t
          × After (make_pending_operation t) (λ op u. FitsAll op task.dependencies u))
        (λ _ t. Leaves held s t) s
        (Returns-and (λ _ t. Leaves held s t) _ (increment_count s.shutdown_counter s)
          (increment_count-Leaves h s s.shutdown_counter inv can) fits)
        λ _ t q.
          Leaves-after (λ _. held) s t (make_pending_task host task none t) q.0.1
            (make_pending_task-Leaves host held task t q.0.0 (q.0.1.3 ∙ no_depth) none q.1)
    where
      held : ℕ → ℕ
      held = raise h s.shutdown_counter 1

-- The data of a use that has permissions is there.
abbrev HasData : Use → State → Type 0
HasData u s =
    (u.has_immediate_permissions ≡ true)
    → (f : Flow) × (b : ℕ) × (u.in_flow ≡ some f) × ((s.flows f.address).control_block ≡ some b)

data_pointers_lem :
    (deps : List Use) (s : State)
    → All (λ u. HasData u s) deps
    → (ps : List (Option Pointer)) × (data_pointers deps s ≡ ok (ps, s))
unfolding data_pointers data_of
data_pointers_lem [] s p = ([], refl)
data_pointers_lem (u ∷ deps) s p =
    let (ps, e) = data_pointers_lem deps s p.1 in
    elim (Bool-cases u.has_immediate_permissions) [
      | inl yes_data ↦
          let (f, b, ef, eb) = p.0 yes_data in
          (some (s.blocks b).contents ∷ ps, rw (yes_data, ef, eb, e) refl)
      | inr no_data ↦ (none ∷ ps, rw (no_data, e) refl)
    ]

-- A task's body leaves the counters balanced, whatever the data it is run on: it registers and releases
-- what it uses through the backend.
abbrev KeepsHolds : Host → Task → (ℕ → ℕ) → State → Type 0
KeepsHolds host task k s =
    (ps : List (Option Pointer)) → Returns (host.run_task task ps s) (λ _ t. Leaves k s t)

module _ (host : Host) (h : ℕ → ℕ) (task : Task) (s : State) where
  -- Under the invariant for the holds `h` and the task's count of the shutdown counter, when every queued
  -- fetch has its data, the uses with permissions have theirs, and the task's body leaves the counters
  -- balanced, the run of a task returns without a fault and pays the task's count: the invariant then
  -- holds for `h`.
  pub run-Leaves :
      Inv (raise h s.shutdown_counter 1) [] s
      → AllSourced s
      → All (λ u. HasData u s) task.dependencies
      → KeepsHolds host task (raise h s.shutdown_counter 1) s
      → Returns (run host (task_operation task) s) (λ _ t. Leaves h s t)
  unfolding run
  run-Leaves inv sourced has_data body =
      let (ps, e) = data_pointers_lem task.dependencies s has_data in
      subst (λ r. Returns (and_then r (λ qs. host.run_task task qs >> pay)) (λ _ t. Leaves h s t))
        (sym e)
        (Returns-then (host.run_task task ps) (λ _. pay)
          (λ _ t. Leaves (raise h s.shutdown_counter 1) s t) (λ _ t. Leaves h s t) s (body ps)
          λ _ t q.
            Leaves-after (λ _. h) s t (pay t) q.1
              (decrement_count-Leaves h t t.shutdown_counter
                (subst (λ c. Inv (raise h c 1) [] t) (sym q.1.4) q.0)
                (λ _. q.1.2 t.shutdown_counter (sourced t.shutdown_counter))))
    where
      pay : M (Unit {0})
      pay u = decrement_count u.shutdown_counter u
