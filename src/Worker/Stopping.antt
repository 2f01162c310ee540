-- ===== src/Worker/Stopping.antt =====
-- The loop of a worker comes to the end message in its queue, and stops there.
use darma_simple_backend.Prelude.{
  ℕ, ◌+◌, ◌-◌, ◌%◌, ◌<◌, ◌≡◌, refl, sym, ap, subst, ◌∙◌, Bool, true, false, Option, none, some,
  List, [], ◌∷◌, ◌++◌, All, length, arith, update_eq,
}
use mathlib.Core.List.{append-nil, append_assoc}
use darma_simple_backend.Machine.Counter.{word}
use darma_simple_backend.Machine.Types.{State, ReadyOperation, special_message, all_tasks_done}
use darma_simple_backend.Machine.Monad.{
  Result, ok, err, Returns, Returns-then, Returns-map, and_then, pure, ◌>>◌,
}
use darma_simple_backend.Pending.{Host, run_operation}
use darma_simple_backend.Worker.{
  word, set_ready, set_dorment, run_awake, pop_ready, work_round, work_rounds, run_work_loop,
  run_or_steal, wake, sleep,
}

-- What holds of the state once the worker has run some operations, in their order.
abbrev pub Progress : Type 1
Progress = List ReadyOperation → State → Type 0

-- A property that the loop's own bookkeeping does not touch: the queue of the worker, the number of the
-- dormant workers, and the number of the worker on this thread.
pub record IsStable (id : ℕ) (P : Progress) : Type 0 where
  pub queue : (ran l : List ReadyOperation) (s : State) → P ran s → P ran (set_ready id l s)
  pub dorment : (ran : List ReadyOperation) (n : ℕ) (s : State) → P ran s → P ran (set_dorment n s)
  pub worker :
      (ran : List ReadyOperation) (s : State) → P ran s → P ran (record s { this_worker_id = id })

-- The operation returns from where the property holds of the operations before it, to where it holds of
-- these and itself; it does not stop the worker, and appends to the worker's queue at most.
abbrev pub Runs : Host → ℕ → Progress → ReadyOperation → Type 0
Runs host id P op =
    (ran : List ReadyOperation) (s : State)
    → P ran s
    → Returns (run_operation host op s) (λ stop t.
      (stop ≡ false)
      × P (ran ++ op ∷ []) t
      × (more : List ReadyOperation) × (t.ready_tasks id ≡ s.ready_tasks id ++ more))

module _ (host : Host) (id : ℕ) (P : Progress) (stable : IsStable id P) where
  pops :
      (draw : ℕ) (s : State) (op : ReadyOperation) (l : List ReadyOperation)
      → s.ready_tasks id ≡ op ∷ l
      → work_round host id draw s ≡ run_awake host op (set_ready id l s)
  unfolding work_round pop_ready run_or_steal
  pops draw s op l e = ap (λ q. and_then (popped q) (run_or_steal host id draw)) e
    where
      popped : List ReadyOperation → Result (Option ReadyOperation × State)
      popped q = elim q [ [] ↦ ok (none, s) | o ∷ rest ↦ ok (some o, set_ready id rest s) ]

  abbrev awake : List ReadyOperation → State → State
  awake l s = set_dorment ((s.dorment_workers + word - 1) % word) (set_ready id l s)

  awake_holds : (ran l : List ReadyOperation) (s : State) → P ran s → P ran (awake l s)
  awake_holds ran l s holds = stable.dorment ran _ (set_ready id l s) (stable.queue ran l s holds)

  rest_of : (l : List ReadyOperation) (s : State) → (awake l s).ready_tasks id ≡ l
  rest_of l s = update_eq s.ready_tasks id l id refl

  -- The worker has run the operations `ran`; the round has left the operations `l` in front of the queue, and the loop goes on, or stops.
  abbrev GoesOn : List ReadyOperation → List ReadyOperation → Bool → State → Type 0
  GoesOn ran l stop t =
      (stop ≡ false) × P ran t × (more : List ReadyOperation) × (t.ready_tasks id ≡ l ++ more)

  abbrev pub Stops : List ReadyOperation → List ReadyOperation → Bool → State → Type 0
  Stops ran l stop t =
      (stop ≡ true) × P ran t × (more : List ReadyOperation) × (t.ready_tasks id ≡ l ++ more)

  -- A round that runs an operation goes on, and the rest of the queue stays in front.
  go_on :
      (draw : ℕ) (s : State) (op : ReadyOperation) (ran l : List ReadyOperation)
      → s.ready_tasks id ≡ op ∷ l
      → P ran s
      → Runs host id P op
      → Returns (work_round host id draw s) (GoesOn (ran ++ op ∷ []) l)
  unfolding run_awake wake sleep
  go_on draw s op ran l e holds runs =
      subst (λ r. Returns r (GoesOn (ran ++ op ∷ []) l)) (sym (pops draw s op l e))
        (Returns-then (run_operation host op) (λ b. sleep >> pure b)
          (λ stop t.
            (stop ≡ false)
            × P (ran ++ op ∷ []) t
            × (more : List ReadyOperation) × (t.ready_tasks id
                ≡ (awake l s).ready_tasks id ++ more))
          (GoesOn (ran ++ op ∷ []) l) (awake l s) (runs ran (awake l s) (awake_holds ran l s holds))
          (λ b t q. (q.0, stable.dorment _ _ t q.1, q.2, q.3 ∙ ap (λ k. k ++ q.2) (rest_of l s))))

  ends_round :
      (draw : ℕ) (s : State) (ran l : List ReadyOperation)
      → s.ready_tasks id ≡ special_message all_tasks_done ∷ l
      → P ran s
      → Returns (work_round host id draw s) (Stops ran l)
  unfolding run_awake wake sleep run_operation
  ends_round draw s ran l e holds =
      subst (λ r. Returns r (Stops ran l)) (sym (pops draw s (special_message all_tasks_done) l e))
        (
          refl,
          stable.dorment ran _ (awake l s) (awake_holds ran l s holds),
          [],
          rest_of l s ∙ sym (append-nil l),
        )

  abbrev then_rounds : Result (Bool × State) → List ℕ → Result (Bool × State)
  then_rounds r draws = elim r [
    | ok (true, t) ↦ ok (true, t)
    | ok (false, t) ↦ work_rounds host id draws t
    | err x ↦ err x
  ]

  come_to_end :
      (ran ops l : List ReadyOperation) (draws : List ℕ) (s : State)
      → length ops < length draws
      → s.ready_tasks id ≡ ops ++ special_message all_tasks_done ∷ l
      → P ran s
      → All (Runs host id P) ops
      → Returns (work_rounds host id draws s) (Stops (ran ++ ops) l)
  unfolding work_rounds
  come_to_end ran ops l [] s enough e holds runs = absurd (omega (arith, enough))
  come_to_end ran [] l (d ∷ draws) s enough e holds runs =
      go (work_round host id d s) (ends_round d s ran l e holds)
    where
      go :
          (r : Result (Bool × State))
          → Returns r (Stops ran l)
          → Returns (then_rounds r draws) (Stops (ran ++ []) l)
      go (ok (true, t)) q = (q.0, subst (λ k. P k t) (sym (append-nil ran)) q.1, q.2, q.3)
      go (ok (false, t)) q = absurd (ground (arith, q.0))
      go (err x) q = q
  come_to_end ran (op ∷ ops) l (d ∷ draws) s enough e holds runs =
      go (λ more t. come_to_end (ran ++ op ∷ []) ops (l ++ more) draws t) (work_round host id d s)
        (go_on d s op ran (ops ++ special_message all_tasks_done ∷ l) e holds runs.0)
    where
      in_order : (ran ++ op ∷ []) ++ ops ≡ ran ++ op ∷ ops
      in_order = append_assoc ran (op ∷ []) ops

      go :
          ((more : List ReadyOperation) (t : State)
            → length ops < length draws
            → t.ready_tasks id ≡ ops ++ special_message all_tasks_done ∷ (l ++ more)
            → P (ran ++ op ∷ []) t
            → All (Runs host id P) ops
            → Returns (work_rounds host id draws t) (Stops ((ran ++ op ∷ []) ++ ops) (l ++ more)))
          → (r : Result (Bool × State))
          → Returns r (GoesOn (ran ++ op ∷ []) (ops ++ special_message all_tasks_done ∷ l))
          → Returns (then_rounds r draws) (Stops (ran ++ op ∷ ops) l)
      go again (ok (true, t)) q = absurd (ground (arith, q.0))
      go again (ok (false, t)) (x, kept, more, left) =
          Returns-map (Stops ((ran ++ op ∷ []) ++ ops) (l ++ more)) (Stops (ran ++ op ∷ ops) l)
            (work_rounds host id draws t)
            (λ b u q.
              (q.0, subst (λ k. P k u) in_order q.1, more ++ q.2, q.3 ∙ append_assoc l more q.2))
            (again more t (omega (arith, enough))
              (left ∙ append_assoc ops (special_message all_tasks_done ∷ l) more) kept runs.1)
      go again (err x) q = q

  -- The worker's queue holds some operations, each of which returns from where the property holds of
  -- those before it to where it holds of these and itself, does not stop the worker and appends to this
  -- queue at most; then the end message; and then others. The loop comes to the end message, without
  -- stealing, in as many rounds as there are operations up to it, and stops, where the property holds of
  -- all these operations, each run once and in their order; what stood behind the message is still in
  -- front of the queue.
  pub run_work_loop-Stops :
      (ops : List ReadyOperation) (l : List ReadyOperation) (draws : List ℕ) (s : State)
      → length ops < length draws
      → s.ready_tasks id ≡ ops ++ special_message all_tasks_done ∷ l
      → P [] s
      → All (Runs host id P) ops
      → Returns (run_work_loop host id draws s) (Stops ops l)
  unfolding run_work_loop sleep
  run_work_loop-Stops ops l draws s enough e holds runs =
      come_to_end [] ops l draws _ enough e (stable.dorment [] _ _ (stable.worker [] s holds)) runs
