-- ===== src/Pool/Outcome.antt =====
-- What the invariant says of the tasks that have been run, and of the end of all threads.
use darma_simple_backend.Prelude.{
  Option, none, some, ℕ, ◌+◌, ◌≤◌, ◌<◌, ◌≡◌, ◌≢◌, refl, ap, ◌∙◌, true, List, [], ◌∷◌, total_zero,
  total_at, total-number, total_ones, if◌then◌else◌, arith, ◌==◌, occurs,
}
use darma_simple_backend.Pool.{
  one_task, all_tasks, element, raising, spreading, placing, asserting, subtracting, triggering,
  announcing, Body, Operation, run_task, all_tasks_done, Phase, failed, waking, running,
  registering, queueing, System,
}
use darma_simple_backend.Pool.Weights.{
  owing_rest, worth_rest, weight, worth, worth_op, worth_phase, worth_log, owing, owing_op, told,
  asleep, broken, message,
}
use darma_simple_backend.Pool.Plain.{asleep_small}
use darma_simple_backend.Pool.Invariant.{Inv, fired}
use darma_simple_backend.Pool.Progress.{AllEnded}

abbrev only : ℕ → ℕ → ℕ
only a b = if b == a then 1 else 0

-- How often the task is the top-level task, or is registered by a task's body.
abbrev pub registered : ℕ → ℕ → Body → ℕ
registered a top b = (if top == a then 1 else 0) + worth (only a) b

worth_log-occurs : (a : ℕ) (l : List ℕ) → worth_log (only a) l ≡ occurs a l
unfolding worth_log
worth_log-occurs a [] = refl
worth_log-occurs a (b ∷ l) = ap (λ m. only a b + m) (worth_log-occurs a l)

-- No assertion of the shutdown counter, on its way up or down, has failed on any thread, no task has been run more often than
-- it was registered, and the number of the dormant workers is that of threads at most.
abbrev pub Safe : ℕ → ℕ → Body → System → Type 0
Safe n top b t =
    ((i : ℕ) → i < n → t.phase i ≢ failed)
    × ((a : ℕ) → occurs a t.shared.log ≤ registered a top b)
    × (t.shared.dorment_workers ≤ n)

-- Every task has been run as often as it was registered, to its end: nobody has a count to pay.
abbrev pub AllRun : ℕ → ℕ → Body → System → Type 0
AllRun n top b t =
    (t.shared.count ≡ 0)
    × (t.shared.triggered ≡ true)
    × ((a : ℕ) → occurs a t.shared.log ≡ registered a top b)
    × ((i : ℕ) → i < n → owing (t.phase i) ≡ 0)

-- Every queue is empty, and each thread is counted as dormant once.
abbrev pub AllQuiet : ℕ → System → Type 0
AllQuiet n t = ((w : ℕ) → w < n → t.shared.ready_tasks w ≡ []) × (t.shared.dorment_workers ≡ n)

-- What owes no count of the shutdown counter has no task to run.
paid_rest : (v : ℕ → ℕ) (r : Option Body) → owing_rest r ≡ 0 → worth_rest v r ≡ 0
paid_rest v none e = refl
paid_rest v (some rest) e = absurd (omega (arith, e))

paid_phase : (v : ℕ → ℕ) (p : Phase) → owing p ≡ 0 → worth_phase v p ≡ 0
paid_phase v (waking (run_task a b)) e = absurd (omega (arith, e))
paid_phase v (waking all_tasks_done) e = refl
paid_phase v (running a b) e = absurd (omega (arith, e))
paid_phase v (registering b) e = absurd (omega (arith, e))
paid_phase v (raising (one_task a b rest)) e = absurd (omega (arith, e))
paid_phase v (raising (all_tasks ts rest)) e = absurd (omega (arith, e))
paid_phase v (raising (element i a b ts rest)) e = absurd (omega (arith, e))
paid_phase v (queueing a b rest) e = absurd (omega (arith, e))
paid_phase v (spreading k ts rest) e = absurd (omega (arith, e))
paid_phase v (placing k a b ts rest) e = absurd (omega (arith, e))
paid_phase v (asserting r) e = absurd (omega (arith, e))
paid_phase v (subtracting r) e = absurd (omega (arith, e))
paid_phase v (triggering r) e = paid_rest v r e
paid_phase v (announcing k r) e = paid_rest v r e
paid_phase v p e = refl

paid_queue : (v : ℕ → ℕ) (l : List Operation) → weight owing_op l ≡ 0 → weight (worth_op v) l ≡ 0
unfolding weight
paid_queue v [] e = refl
paid_queue v (run_task a b ∷ l) e = absurd (omega (arith, e))
paid_queue v (all_tasks_done ∷ l) e = omega (arith, paid_queue v l (omega (arith, e)))

-- A queue with no task and no message is empty.
empty_queue : (l : List Operation) → weight owing_op l ≡ 0 → weight message l ≡ 0 → l ≡ []
unfolding weight
empty_queue [] e m = refl
empty_queue (run_task a b ∷ l) e m = absurd (omega (arith, e))
empty_queue (all_tasks_done ∷ l) e m = absurd (omega (arith, m))

abbrev pub all_worth : ℕ → Body → (ℕ → ℕ) → ℕ
all_worth top b v = v top + worth v b

module _ {n all : ℕ} (top : ℕ) (b : Body) {t : System} (inv : Inv n all (all_worth top b) t) where
  pub Inv-Safe : Safe n top b t
  Inv-Safe = (
    λ i lt e. omega (arith, inv.unbroken, total_at broken n t.phase i lt, ap broken e),
    λ a. omega (arith, inv.conserved (only a), worth_log-occurs a t.shared.log),
    omega (arith, inv.dormant, total-number asleep n t.phase asleep_small),
  )

  module _ (has_fired : fired t.shared ≡ 1) where
    none_left : t.shared.count ≡ 0
    none_left = ground (arith, inv.one_fires, has_fired)

    none_owes : (i : ℕ) → i < n → owing (t.phase i) ≡ 0
    none_owes i lt = omega (arith, inv.balance, none_left, total_at owing n t.phase i lt)

    none_queued : (w : ℕ) → w < n → weight owing_op (t.shared.ready_tasks w) ≡ 0
    none_queued w lt =
        omega
          (arith, inv.balance, none_left, total_at (weight owing_op) n t.shared.ready_tasks w lt)

    pub fired-AllRun : AllRun n top b t
    fired-AllRun = (
      none_left,
      ground (arith, has_fired),
      λ a. omega (
        arith,
        inv.conserved (only a),
        worth_log-occurs a t.shared.log,
        total_zero (worth_phase (only a)) n t.phase
            (λ i lt. paid_phase (only a) (t.phase i) (none_owes i lt)),
        total_zero (weight (worth_op (only a))) n t.shared.ready_tasks
            (λ w lt. paid_queue (only a) (t.shared.ready_tasks w) (none_queued w lt)),
      ),
      none_owes,
    )

  -- A thread that has taken the end message has been told by the counter's action.
  pub told_fired : (i : ℕ) → i < n → told (t.phase i) ≡ 1 → fired t.shared ≡ 1
  told_fired i lt e = ground (arith, inv.messages i lt, e)

  pub ended-AllQuiet : AllEnded n t → AllQuiet n t
  ended-AllQuiet ends = (
    λ w lt.
        let all_fired = told_fired w lt (ap told (ends w lt)) in
        empty_queue (t.shared.ready_tasks w) (none_queued all_fired w lt)
          (omega (arith, inv.messages w lt, all_fired, ap told (ends w lt))),
    inv.dormant ∙ total_ones asleep n t.phase (λ i lt. ap asleep (ends i lt)),
  )
