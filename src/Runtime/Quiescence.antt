-- ===== src/Runtime/Quiescence.antt =====
-- A region whose callback registers nothing: every worker's loop comes to its end.
use darma_simple_backend.Prelude.{
  All, ℕ, ◌<◌, ◌≡◌, refl, sym, ap, subst, ◌∙◌, true, false, List, [], ◌∷◌, ◌++◌, length, arith,
  ℕ_discrete, total,
}
use mathlib.Core.List.{append-nil}
use darma_simple_backend.Machine.Types.{
  JoinCounter, State, ReadyOperation, callable_operation, join_workers, special_message,
  all_tasks_done, announce_region,
}
use darma_simple_backend.Machine.Monad.{and_then, ok, Returns, ◌>>◌, pure, Returns-map}
use darma_simple_backend.Machine.Counter.{
  set_counter, make_counter, attach_action, decrement_count, take_decrement, put_action, make_ready,
  take_actions, consume_all, consume, queued, exec, quiesce,
}
use darma_simple_backend.Pending.{Host, run_operation, run}
use darma_simple_backend.Worker.{run_work_loop}
use darma_simple_backend.Worker.Stopping.{IsStable, Runs, Stops, run_work_loop-Stops}
use darma_simple_backend.Runtime.{empty}
use darma_simple_backend.Runtime.Region.{
  quiesce-first, quiesce-other, initialize_runtime_instance, with_active_runtime_instance,
}

abbrev at_zero : JoinCounter → State → State
at_zero k s = set_counter s 0 k

-- The region's runtime after its shutdown counter has fired: each write to the counter, the last outside.
abbrev fired_region : ℕ → State
fired_region n =
    at_zero (record { count = 0; triggered = true; actions = [] })
      (at_zero (record { count = 0; triggered = true; actions = announce_region ∷ [] })
        (at_zero (record { count = 0; triggered = false; actions = announce_region ∷ [] })
          (at_zero (record { count = 1; triggered = false; actions = announce_region ∷ [] })
            (record (at_zero (record { count = 1; triggered = false; actions = [] }) (empty n)) {
              next_counter = 1;
            }))))

region_state :
    (n : ℕ)
    → (initialize_runtime_instance >> with_active_runtime_instance (pure tt)) (empty n)
      ≡ ok (tt, quiesce (fired_region n))
unfolding initialize_runtime_instance with_active_runtime_instance make_counter attach_action
    decrement_count take_decrement put_action make_ready take_actions consume_all consume queued
    exec total
region_state n = refl

-- The join of the threads is the operating system's: it returns, and changes nothing here.
abbrev JoinsThreads : Host → Type 0
JoinsThreads host = (s : State) → host.join_threads s ≡ ok (tt, s)

module _ (host : Host) (joins : JoinsThreads host) (w : ℕ) where
  anything : IsStable w (λ _ _. Unit)
  anything = record { queue = λ ran l s p. tt; dorment = λ ran n s p. tt; worker = λ ran s p. tt }

  join-Runs : Runs host w (λ _ _. Unit) (callable_operation false join_workers)
  unfolding run_operation run
  join-Runs ran s p =
      subst
        (λ r. Returns (and_then r (λ _. pure false)) (λ stop t.
          (stop ≡ false)
          × Unit
          × (more : List ReadyOperation) × (t.ready_tasks w ≡ s.ready_tasks w ++ more)))
        (sym (joins s)) (refl, tt, [], sym (append-nil (s.ready_tasks w)))

  ends_loop :
      (n : ℕ) (draws : List ℕ)
      → 0 < n
      → w < n
      → 1 < length draws
      → Returns (run_work_loop host w draws (quiesce (fired_region n))) (λ stop _. stop ≡ true)
  ends_loop n draws some_worker lt enough = elim (ℕ_discrete w 0) [
    | yes e ↦
        stopping (callable_operation false join_workers ∷ []) (omega (arith, enough))
          (ap (quiesce (fired_region n)).ready_tasks e ∙ quiesce-first (fired_region n) some_worker)
          (join-Runs, tt)
    | no ne ↦
        stopping [] (omega (arith, enough))
          (quiesce-other (fired_region n) w (omega (arith, ne)) lt) tt
  ]
    where
      stopping :
          (ops : List ReadyOperation)
          → length ops < length draws
          → (quiesce (fired_region n)).ready_tasks w ≡ ops ++ special_message all_tasks_done ∷ []
          → All (Runs host w (λ _ _. Unit)) ops
          → Returns (run_work_loop host w draws (quiesce (fired_region n))) (λ stop _. stop ≡ true)
      stopping ops few e runs =
          Returns-map (Stops host w (λ _ _. Unit) anything ops []) (λ stop _. stop ≡ true)
            (run_work_loop host w draws (quiesce (fired_region n))) (λ stop t q. q.0)
            (run_work_loop-Stops host w (λ _ _. Unit) anything ops [] draws
              (quiesce (fired_region n)) few e tt runs)

-- A region of `n` workers, at least one, whose callback registers nothing, is run on a new runtime: it
-- returns. If the join of the threads returns, then from the state that is reached the loop of every
-- worker stops within two rounds, whatever is drawn.
pub with_active_runtime_instance-Stops :
    (host : Host) (n : ℕ)
    → JoinsThreads host
    → 0 < n
    → Returns
        ((initialize_runtime_instance >> with_active_runtime_instance (pure tt)) (empty n))
        (λ _ t.
          (w : ℕ) (draws : List ℕ)
          → w < n
          → 1 < length draws
          → Returns (run_work_loop host w draws t) (λ stop _. stop ≡ true))
with_active_runtime_instance-Stops host n joins some_worker =
    subst
      (λ r. Returns r (λ _ t.
        (w : ℕ) (draws : List ℕ)
        → w < n
        → 1 < length draws
        → Returns (run_work_loop host w draws t) (λ stop _. stop ≡ true)))
      (sym (region_state n))
      (λ w draws lt enough. ends_loop host joins w n draws some_worker lt enough)
