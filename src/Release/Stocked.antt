-- ===== src/Release/Stocked.antt =====
-- The operations that the aliasing of a released use queues are not lost.
use darma_simple_backend.Prelude.{
  ℕ, ◌+◌, ◌%◌, ◌<◌, ◌≡◌, refl, sym, subst, Bool, true, false, not, ◌&&◌, Option, none, some, List,
  [], ◌∷◌, ◌==◌, if◌then◌else◌, arith,
}
use darma_simple_backend.Machine.Types.{
  State, ReadyOperation, Callable, Flow, AntiFlow, Use, decrement_of, emplace_ready,
  decrement_trigger,
}
use darma_simple_backend.Machine.Monad.{M, Result, ok, err, After, ◌>>=◌, ◌>>◌, deref, is_some}
use darma_simple_backend.Machine.Counter.{word, increment_count, decrement_count, attach_action}
use darma_simple_backend.Machine.Stocked.{
  IsShallow, Grows, both_grow, increment_count-Grows, make_counter-Grows, decrement_count-Grows,
  attach_action-Grows, attach_action_adds,
}
use darma_simple_backend.Register.Others.{when}
use darma_simple_backend.Pending.{
  Host, make_pending_operation, add_dependency_on, add_dependencies_on, enqueue_or_run,
  run_on_stack, attach_or_do_action, set_pending, when_all_ready_do, when_ready_do,
  make_callable_operation,
}
use darma_simple_backend.Pending.Queued.{shallow}
use darma_simple_backend.Release.{
  decrement_flow, decrement_anti_flow, alias_trigger, alias_anti_flows,
  handle_aliasing_for_released_use, release_use,
}
use darma_simple_backend.Release.Paid.{paying}

module _ (v : ReadyOperation → ℕ) where
  abbrev Stays : {A : Type 0} → Result (A × State) → ℕ → State → Type 0
  Stays r w s = After r (λ _ t. Unit × Grows v w s t)

  plainly :
      {A : Type 0} (r : Result (A × State)) (w : ℕ) (s : State)
      → After r (λ _ t. Grows v w s t)
      → Stays r w s
  plainly (ok (a, t)) w s p = (tt, p)
  plainly (err e) w s p = tt

  merely :
      {A : Type 0} (r : Result (A × State)) (w : ℕ) (s : State)
      → Stays r w s
      → After r (λ _ t. Grows v w s t)
  merely (ok (a, t)) w s p = p.1
  merely (err e) w s p = tt

  -- A counter that has been made is there afterwards.
  still_made :
      {A : Type 0} (r : Result (A × State)) (w op : ℕ) (s : State)
      → op < s.next_counter
      → Stays r w s
      → After r (λ _ t. (op < t.next_counter) × Grows v w s t)
  still_made (ok (a, t)) w op s made p = (omega (arith, made, p.1.1.3), p.1)
  still_made (err e) w op s made p = tt

  add_dependencies_on-Grows :
      (op : ℕ) (cs : List ℕ) (s : State) → IsShallow s → Stays (add_dependencies_on op cs s) 0 s
  unfolding add_dependencies_on add_dependency_on
  add_dependencies_on-Grows op [] s calm = (tt, (omega arith, (refl, refl, refl, omega arith)))
  add_dependencies_on-Grows op (c ∷ cs) s calm = plainly (add_dependencies_on op (c ∷ cs) s) 0 s (
      both_grow v (add_dependency_on op c) (λ _. add_dependencies_on op cs) 0 0 0 (λ _ _. Unit) s
        (omega arith) calm
        (plainly (add_dependency_on op c s) 0 s (
          both_grow v (increment_count op) (λ _. attach_action c (decrement_of op)) 0 0 0
            (λ _ _. Unit) s (omega arith) calm (increment_count-Grows v op s)
            λ _ t p quiet.
              merely (attach_action c (decrement_of op) t) 0 t
                (attach_action-Grows v c (decrement_of op) t quiet)))
        λ _ t p quiet.
          merely (add_dependencies_on op cs t) 0 t (add_dependencies_on-Grows op cs t quiet))

  module _ (host : Host) where
    enqueue_or_run-Grows :
        (op : ℕ) (ready_op : ReadyOperation) (worker_id : ℕ) (allow : Bool) (s : State)
        → op < s.next_counter
        → IsShallow s
        → After
            (enqueue_or_run host op ready_op worker_id allow s)
            (λ _ t. Grows v (v ready_op) s t)
    unfolding enqueue_or_run
    enqueue_or_run-Grows op ready_op worker_id allow s made calm =
        let p : State = set_pending ((s.pending_tasks + 1) % word) s in
        subst
          (λ b.
            After
              (if b
                then attach_or_do_action op (emplace_ready ready_op) (run_on_stack host ready_op) p
                else attach_action op (emplace_ready ready_op) p)
              (λ _ t. Grows v (v ready_op) s t))
          (sym (
            shallow allow (worker_id == s.this_worker_id) s.thread_stack_depth s.max_task_depth
              calm.1))
          (merely (attach_action op (emplace_ready ready_op) p) (v ready_op) p
            (attach_action_adds v op (emplace_ready ready_op) p made calm))

    when_all_ready_do-Grows :
        (triggers : List ℕ) (c : Callable) (s : State)
        → IsShallow s
        → After
            (when_all_ready_do host triggers c s)
            (λ _ t. Grows v (v (make_callable_operation c)) s t)
    unfolding when_all_ready_do make_pending_operation
    when_all_ready_do-Grows triggers c s calm =
        both_grow v make_pending_operation
          (λ op. add_dependencies_on op triggers >> (decrement_count op >> queue op)) 0 w w
          (λ op t. op < t.next_counter) s (omega arith) calm (make_counter-Grows v 1 s)
          λ op t made quiet.
            both_grow v (add_dependencies_on op triggers) (λ _. decrement_count op >> queue op) 0 w
              w (λ _ u. op < u.next_counter) t (omega arith) quiet
              (still_made (add_dependencies_on op triggers t) 0 op t made
                (add_dependencies_on-Grows op triggers t quiet))
              λ _ u made quiet.
                both_grow v (decrement_count op) (λ _. queue op) 0 w w (λ _ u. op < u.next_counter)
                  u (omega arith) quiet
                  (still_made (decrement_count op u) 0 op u made
                    (decrement_count-Grows v op u quiet))
                  λ _ x made quiet.
                    enqueue_or_run-Grows op (make_callable_operation c) x.this_worker_id true x made
                      quiet
      where
        w : ℕ
        w = v (make_callable_operation c)

        queue : ℕ → M (Unit {0})
        queue op = λ x. enqueue_or_run host op (make_callable_operation c) x.this_worker_id true x

    alias_trigger-Grows :
        (from to : ℕ) (s : State)
        → IsShallow s
        → After
            (alias_trigger host from to s)
            (λ _ t. Grows v (v (make_callable_operation (decrement_trigger to))) s t)
    unfolding alias_trigger when_ready_do
    alias_trigger-Grows from to s calm =
        both_grow v (increment_count to) (λ _. when_ready_do host from (decrement_trigger to)) 0
          (v (make_callable_operation (decrement_trigger to)))
          (v (make_callable_operation (decrement_trigger to))) (λ _ _. Unit) s (omega arith) calm
          (increment_count-Grows v to s)
          λ _ t p quiet. when_all_ready_do-Grows (from ∷ []) (decrement_trigger to) t quiet

    -- The decrement that an alias queues for an anti-flow that is not null.
    abbrev queued_anti : Option AntiFlow → ℕ
    queued_anti none = 0
    queued_anti (some a) = v (make_callable_operation (decrement_trigger a.ready_trigger))

    abbrev queued_flow : Option Flow → ℕ
    queued_flow none = 0
    queued_flow (some f) = v (make_callable_operation (decrement_trigger f.ready_trigger))

    alias_anti_flows-Grows :
        (anti_in anti_out : Option AntiFlow) (s : State)
        → IsShallow s
        → After
            (alias_anti_flows host anti_in anti_out s)
            (λ _ t. Grows v (queued_anti anti_in) s t)
    unfolding alias_anti_flows
    alias_anti_flows-Grows none anti_out s calm = (omega arith, (refl, refl, refl, omega arith))
    alias_anti_flows-Grows (some a) none s calm = tt
    alias_anti_flows-Grows (some a) (some b) s calm =
        alias_trigger-Grows b.ready_trigger a.ready_trigger s calm

    -- The decrements that the alias of the use queues.
    abbrev pub aliases : Use → ℕ
    aliases u = queued_flow u.out_flow + queued_anti u.anti_in_flow

    handle_aliasing-Grows :
        (u : Use) (s : State)
        → IsShallow s
        → After (handle_aliasing_for_released_use host u s) (λ _ t. Grows v (aliases u) s t)
    unfolding handle_aliasing_for_released_use
    handle_aliasing-Grows u s calm = go u.out_flow u.in_flow
      where
        go :
            (out in_flow : Option Flow)
            → After
                ((deref out >>= λ g. deref in_flow >>= λ f.
                    alias_trigger host f.ready_trigger g.ready_trigger
                    >> alias_anti_flows host u.anti_in_flow u.anti_out_flow)
                  s)
                (λ _ t. Grows v (queued_flow out + queued_anti u.anti_in_flow) s t)
        go none in_flow = tt
        go (some g) none = tt
        go (some g) (some f) =
            both_grow v (alias_trigger host f.ready_trigger g.ready_trigger)
              (λ _. alias_anti_flows host u.anti_in_flow u.anti_out_flow) (queued_flow (some g))
              (queued_anti u.anti_in_flow) (queued_flow (some g) + queued_anti u.anti_in_flow)
              (λ _ _. Unit) s (omega arith) calm
              (plainly (alias_trigger host f.ready_trigger g.ready_trigger s) (queued_flow (some g))
                s (alias_trigger-Grows f.ready_trigger g.ready_trigger s calm))
              λ _ t p quiet. alias_anti_flows-Grows u.anti_in_flow u.anti_out_flow t quiet

    decrement_flow-Grows :
        (o : Option Flow) (s : State) → IsShallow s → Stays (decrement_flow o s) 0 s
    decrement_flow-Grows none s calm = (tt, (omega arith, (refl, refl, refl, omega arith)))
    decrement_flow-Grows (some f) s calm = decrement_count-Grows v f.ready_trigger s calm

    decrement_anti_flow-Grows :
        (o : Option AntiFlow) (s : State) → IsShallow s → Stays (decrement_anti_flow o s) 0 s
    decrement_anti_flow-Grows none s calm = (tt, (omega arith, (refl, refl, refl, omega arith)))
    decrement_anti_flow-Grows (some a) s calm = decrement_count-Grows v a.ready_trigger s calm

    when-Grows :
        (b : Bool) (o : Option AntiFlow) (s : State)
        → IsShallow s
        → Stays (when b (decrement_anti_flow o) s) 0 s
    when-Grows true o s calm = decrement_anti_flow-Grows o s calm
    when-Grows false o s calm = (tt, (omega arith, (refl, refl, refl, omega arith)))

    paying-Grows : (u : Use) (s : State) → IsShallow s → After (paying u s) (λ _ t. Grows v 0 s t)
    paying-Grows u s calm =
        both_grow v
          (when (not u.is_anti_dependency && is_some u.anti_in_flow)
            (decrement_anti_flow u.anti_in_flow))
          (λ _. decrement_flow u.out_flow >> decrement_anti_flow u.anti_out_flow) 0 0 0
          (λ _ _. Unit) s (omega arith) calm
          (when-Grows (not u.is_anti_dependency && is_some u.anti_in_flow) u.anti_in_flow s calm)
          λ _ t p quiet.
            both_grow v (decrement_flow u.out_flow) (λ _. decrement_anti_flow u.anti_out_flow) 0 0 0
              (λ _ _. Unit) t (omega arith) quiet (decrement_flow-Grows u.out_flow t quiet)
              λ _ x p quiet.
                merely (decrement_anti_flow u.anti_out_flow x) 0 x
                  (decrement_anti_flow-Grows u.anti_out_flow x quiet)

    -- No operation is lost in the release of a use with an alias, and the decrements of the alias are
    -- queued, or are to be queued by an action.
    pub release_use-Grows :
        (u : Use) (s : State)
        → IsShallow s
        → u.establishes_alias ≡ true
        → After (release_use host u s) (λ _ t. Grows v (aliases u) s t)
    unfolding release_use
    release_use-Grows u s calm alias =
        subst
          (λ b.
            After ((when b (handle_aliasing_for_released_use host u) >> paying u) s)
              (λ _ t. Grows v (aliases u) s t))
          (sym alias)
          (both_grow v (handle_aliasing_for_released_use host u) (λ _. paying u) (aliases u) 0
            (aliases u) (λ _ _. Unit) s (omega arith) calm
            (plainly (handle_aliasing_for_released_use host u s) (aliases u) s
              (handle_aliasing-Grows u s calm))
            λ _ t p quiet. paying-Grows u t quiet)
