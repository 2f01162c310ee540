-- ===== src/Pending/Tasks.antt =====
-- A pending task: it waits for the flows and anti-flows of its uses.
use darma_simple_backend.Prelude.{
  ℕ, ◌+◌, ◌<◌, ◌≡◌, ◌∙◌, Bool, true, false, not, Option, none, some, List, [], ◌∷◌, All, arith,
}
use darma_simple_backend.Machine.Types.{State}
use darma_simple_backend.Machine.Monad.{After, Returns-and, M, Returns, Returns-then, ◌>>=◌, ◌>>◌}
use darma_simple_backend.Machine.Counter.{word, decrement_count}
use darma_simple_backend.Machine.Balance.{Inv, IsSourced}
use darma_simple_backend.Machine.Frame.{Frame-refl}
use darma_simple_backend.Machine.Attach.{raise}
use darma_simple_backend.Flow.Laws.{Made, make_one-Made}
use darma_simple_backend.Flow.Verbs.{Leaves, Leaves-after, decrement_count-Leaves}
use darma_simple_backend.Pending.{Host, make_pending_operation, add_dependency_on, enqueue_or_run}
use darma_simple_backend.Machine.Types.{Use, Task, Flow, AntiFlow, task_operation}
use darma_simple_backend.Machine.Monad.{deref, require}
use darma_simple_backend.Register.Others.{when}
use darma_simple_backend.Pending.{add_dependency, add_dependencies, make_pending_task, or_this}
use darma_simple_backend.Pending.Queued.{add_dependency_on-Leaves, enqueue_or_run-Leaves}

-- What the operation waits for, if the flag of its use is set: an event that has been made, with room
-- for its count.
abbrev FitsOne : ℕ → Bool → Option ℕ → State → Type 0
FitsOne op false c s = Unit
FitsOne op true none s = ⊥
FitsOne op true (some c) s = (c < s.next_counter) × ((s.counters op).count + 1 < word)

abbrev trigger_of_flow : Option Flow → Option ℕ
trigger_of_flow none = none
trigger_of_flow (some f) = some f.ready_trigger

abbrev trigger_of_anti : Option AntiFlow → Option ℕ
trigger_of_anti none = none
trigger_of_anti (some a) = some a.ready_trigger

abbrev depend_in : ℕ → Bool → Option Flow → M (Unit {0})
depend_in op b f = when b (deref f >>= λ g. add_dependency_on op g.ready_trigger)

abbrev depend_anti : ℕ → Bool → Option AntiFlow → M (Unit {0})
depend_anti op b a = when b (require a >>= λ g. add_dependency_on op g.ready_trigger)

abbrev FitsUse : ℕ → Use → State → Type 0
FitsUse op dep s =
    FitsOne op dep.is_dependency (trigger_of_flow dep.in_flow) s
    × After (depend_in op dep.is_dependency dep.in_flow s)
        (λ _ t. FitsOne op dep.is_anti_dependency (trigger_of_anti dep.anti_in_flow) t)

abbrev pub FitsAll : ℕ → List Use → State → Type 0
FitsAll op [] s = Unit
FitsAll op (dep ∷ deps) s =
    FitsUse op dep s × After (add_dependency op dep s) (λ _ t. FitsAll op deps t)

module _ (h : ℕ → ℕ) (op : ℕ) (held : 0 < h op) where
  depend_in-Leaves :
      (b : Bool) (f : Option Flow) (s : State)
      → Inv h [] s
      → All (IsSourced s) (s.counters op).actions
      → FitsOne op b (trigger_of_flow f) s
      → Returns (depend_in op b f s) (λ _ t. Leaves h s t)
  depend_in-Leaves false f s inv sourced fits = (inv, Frame-refl s)
  depend_in-Leaves true none s inv sourced fits = absurd fits
  depend_in-Leaves true (some f) s inv sourced (here, room) =
      add_dependency_on-Leaves h op held f.ready_trigger s inv here room sourced

  depend_anti-Leaves :
      (b : Bool) (a : Option AntiFlow) (s : State)
      → Inv h [] s
      → All (IsSourced s) (s.counters op).actions
      → FitsOne op b (trigger_of_anti a) s
      → Returns (depend_anti op b a s) (λ _ t. Leaves h s t)
  depend_anti-Leaves false a s inv sourced fits = (inv, Frame-refl s)
  depend_anti-Leaves true none s inv sourced fits = absurd fits
  depend_anti-Leaves true (some a) s inv sourced (here, room) =
      add_dependency_on-Leaves h op held a.ready_trigger s inv here room sourced

  add_dependency-Leaves :
      (dep : Use) (s : State)
      → Inv h [] s
      → All (IsSourced s) (s.counters op).actions
      → FitsUse op dep s
      → Returns (add_dependency op dep s) (λ _ t. Leaves h s t)
  unfolding add_dependency
  add_dependency-Leaves dep s inv sourced (first, second) =
      Returns-then (depend_in op dep.is_dependency dep.in_flow)
        (λ _. depend_anti op dep.is_anti_dependency dep.anti_in_flow)
        (λ _ t.
          Leaves h s t × FitsOne op dep.is_anti_dependency (trigger_of_anti dep.anti_in_flow) t)
        (λ _ t. Leaves h s t) s
        (Returns-and _ _ (depend_in op dep.is_dependency dep.in_flow s)
          (depend_in-Leaves dep.is_dependency dep.in_flow s inv sourced first) second)
        λ _ t q.
          Leaves-after (λ _. h) s t (depend_anti op dep.is_anti_dependency dep.anti_in_flow t) q.0.1
            (depend_anti-Leaves dep.is_anti_dependency dep.anti_in_flow t q.0.0 (q.0.1.2 op sourced)
              q.1)

  add_dependencies-Leaves :
      (deps : List Use) (s : State)
      → Inv h [] s
      → All (IsSourced s) (s.counters op).actions
      → FitsAll op deps s
      → Returns (add_dependencies op deps s) (λ _ t. Leaves h s t)
  unfolding add_dependencies
  add_dependencies-Leaves [] s inv sourced fits = (inv, Frame-refl s)
  add_dependencies-Leaves (dep ∷ deps) s inv sourced (first, later) =
      Returns-then (add_dependency op dep) (λ _. add_dependencies op deps)
        (λ _ t. Leaves h s t × FitsAll op deps t) (λ _ t. Leaves h s t) s
        (Returns-and _ _ (add_dependency op dep s) (add_dependency-Leaves dep s inv sourced first)
          later)
        λ _ t q.
          Leaves-after (λ _. h) s t (add_dependencies op deps t) q.0.1
            (add_dependencies-Leaves deps t q.0.0 (q.0.1.2 op sourced) q.1)

module _ (host : Host) (h : ℕ → ℕ) (task : Task) (s : State) (inv : Inv h [] s)
    (no_depth : s.max_task_depth ≡ 0) where
  -- Where operations are not run on the stack, and with room for a count of each dependency, a pending
  -- task is made without a fault, and the invariant for the holds `h` is kept: each flow that the task
  -- waits for pays its count, and the set-up pays its own.
  pub make_pending_task-Leaves :
      (worker_id : Option ℕ)
      → After (make_pending_operation s) (λ op t. FitsAll op task.dependencies t)
      → Returns (make_pending_task host task worker_id s) (λ _ t. Leaves h s t)
  unfolding make_pending_task make_pending_operation
  make_pending_task-Leaves worker_id fits =
      Returns-then make_pending_operation
        (λ op. add_dependencies op task.dependencies >> (decrement_count op >> queue op))
        (λ op t. Made h s op t × FitsAll op task.dependencies t) (λ _ t. Leaves h s t) s
        (Returns-and (Made h s) (λ op t. FitsAll op task.dependencies t) (make_pending_operation s)
          (make_one-Made h s inv) fits)
        λ op t m.
          Leaves-after (λ _. h) s t _ m.0.5
            (Returns-then (add_dependencies op task.dependencies)
              (λ _. decrement_count op >> queue op) (λ _ u. Leaves (raise h op 1) t u)
              (λ _ u. Leaves h t u) t
              (add_dependencies-Leaves (raise h op 1) op (ground arith) task.dependencies t m.0.4
                (rw m.0.2 tt) m.1)
              λ _ u q.
                Leaves-after (λ _. h) t u _ q.1
                  (Returns-then (decrement_count op) (λ _. queue op) (λ _ v. Leaves h u v)
                    (λ _ v. Leaves h u v) u
                    (decrement_count-Leaves h u op q.0 (λ _. q.1.2 op (rw m.0.2 tt)))
                    λ _ v w.
                      Leaves-after (λ _. h) u v _ w.1
                        (enqueue_or_run-Leaves host h op (task_operation task)
                          (or_this worker_id s.this_worker_id) (not task.is_data_parallel) v w.0
                          (w.1.3 ∙ q.1.3 ∙ m.0.5.3 ∙ no_depth)
                          (omega (arith, w.1.0, q.1.0, m.0.1)))))
    where
      queue : ℕ → M (Unit {0})
      queue op =
          enqueue_or_run host op (task_operation task) (or_this worker_id s.this_worker_id)
            (not task.is_data_parallel)
