-- ===== src/Pool/Kept.antt =====
-- The invariant holds of the runtime as it is made, and in every execution.
use darma_simple_backend.Prelude.{
  ℕ, ◌+◌, ◌≤◌, ◌<◌, ◌≡◌, refl, sym, ap, subst, ◌∙◌, Bool, true, false, [], ◌∷◌, update, update_eq,
  update_ne, total, total_zero, total-update, if◌then◌else◌, ltb, arith, ℕ_discrete,
}
use darma_simple_backend.Machine.Counter.{word, int_max}
use darma_simple_backend.Pool.{
  spreading, placing, Body, Operation, run_task, Phase, unspawned, starting, popping, stealing,
  ended, failed, spawning, joining, waking, running, registering, raising, queueing, asserting,
  subtracting, triggering, announcing, dozing, System, advance_from, victim, move, can_move, Step,
  pick, Run, here, next, launch,
}
use darma_simple_backend.Pool.Weights.{
  counts, worth, worth_log, worth_phase, worth_op, leading, weight, owing, owing_op, taking,
  taking_op, firing, telling, asleep, broken, unborn, message, told,
}
use darma_simple_backend.Pool.Invariant.{Inv, queued}
use darma_simple_backend.Pool.Spawning.{spawned_all, spawned_one}
use darma_simple_backend.Pool.Queues.{pop_own, steal_other, queues, places, announces}
use darma_simple_backend.Pool.Counting.{
  registers_next, raises_call, spreads, asserts, pays, triggers,
}
use darma_simple_backend.Pool.Moves.{wakes_up, runs_task, dozes, starts, joins}

module _ {n all : ℕ} {most : (ℕ → ℕ) → ℕ} {s : System} (inv : Inv n all most s) where
  pub only_main : (i : ℕ) → i < n → 0 < leading (s.phase i) → i ≡ 0
  only_main i below leads = elim (ℕ_discrete i 0) [
    | yes first ↦ first
    | no other ↦ absurd (omega (arith, leads, inv.led i (omega (arith, other)) below))
  ]

module _ {n all : ℕ} {most : (ℕ → ℕ) → ℕ} {s : System} (inv : Inv n all most s) (draw : ℕ) where
  spawns :
      (k : ℕ) (more : Bool)
      → s.phase 0 ≡ spawning k
      → ltb (k + 1) n ≡ more
      → Inv n all most (record {
        shared = s.shared;
        phase =
            update
              (if more then update s.phase (k + 1) starting else s.phase)
              0
              (if more then spawning (k + 1) else starting);
      })
  spawns k true e lt = spawned_one inv k e (ground (arith, lt))
  spawns k false e ge = spawned_all inv k e (ground (arith, ge))

  moved :
      (i : ℕ) (p : Phase)
      → i < n
      → s.phase i ≡ p
      → can_move n p s.phase ≡ true
      → Inv n all most (advance_from n p i draw s)
  unfolding move
  moved i (spawning k) below e can =
      let first = only_main inv i below (omega (arith, ap leading e)) in
      subst (λ j. Inv n all most (advance_from n (spawning k) j draw s)) (sym first)
        (spawns k (ltb (k + 1) n) (ap s.phase (sym first) ∙ e) refl)
  moved i unspawned below e can = absurd (ground (arith, can))
  moved i ended below e can = absurd (ground (arith, can))
  moved i failed below e can = absurd (ground (arith, can))
  moved i starting below e can = starts inv i below e
  moved i popping below e can = pop_own inv i below _ refl e
  moved i stealing below e can =
      steal_other inv i below (victim n i draw) _ (omega (arith, inv.some_workers)) refl e
  moved i (joining k) below e can = joins inv i below k e
  moved i (waking op) below e can = wakes_up inv i below op e
  moved i (running a b) below e can = runs_task inv i below a b e
  moved i (registering b) below e can = registers_next inv i below b e
  moved i (raising c) below e can = raises_call inv i below c e
  moved i (queueing a b rest) below e can = queues inv i below a b rest e
  moved i (spreading k ts rest) below e can = spreads inv i below k ts rest e
  moved i (placing k a b ts rest) below e can = places inv i below i k a b ts rest below e
  moved i (asserting r) below e can = asserts inv i below r e
  moved i (subtracting r) below e can = pays inv i below r e
  moved i (triggering r) below e can = triggers inv i below r e
  moved i (announcing k r) below e can = announces inv i below k r _ e refl
  moved i (dozing stop) below e can = dozes inv i below stop e

Step-Inv :
    {n all d : ℕ} {most : (ℕ → ℕ) → ℕ} {s t : System}
    → Inv n all most s
    → Step n s d t
    → Inv n all most t
Step-Inv {s = s} inv (pick i draw below fits can) = moved inv draw i (s.phase i) below refl can

pub Run-Inv :
    {n all : ℕ} {most : (ℕ → ℕ) → ℕ} {s : System} {k : ℕ} {t : System}
    → Inv n all most s
    → Run n s k t
    → Inv n all most t
Run-Inv inv here = inv
Run-Inv inv (next r st) = Step-Inv (Run-Inv inv r) st

module _ (n a : ℕ) (b : Body) (some_workers : 0 < n) where
  abbrev first_phase : ℕ → Phase
  first_phase = (launch a b).phase

  none_at : (w : Phase → ℕ) → w unspawned ≡ 0 → w (spawning 0) ≡ 0 → total w n first_phase ≡ 0
  none_at w at_rest at_main = total_zero w n first_phase λ j lt. elim (ℕ_discrete j 0) [
    | yes first ↦ ap w (update_eq (λ _. unspawned) 0 (spawning 0) j first) ∙ at_main
    | no other ↦ ap w (update_ne (λ _. unspawned) 0 (spawning 0) j other) ∙ at_rest
  ]

  only_top : (v : Operation → ℕ) → queued n v (launch a b).shared ≡ v (run_task a b)
  unfolding weight
  only_top v = omega (
    arith,
    total-update (weight v) n (λ _. []) 0 (run_task a b ∷ []) some_workers,
    total_zero (weight v) n (λ _. []) (λ j lt. refl),
  )

  quiet_queue : (w : ℕ) → weight message ((launch a b).shared.ready_tasks w) ≡ 0
  unfolding weight
  quiet_queue w = elim (ℕ_discrete w 0) [
    | yes first ↦ ap (weight message) (update_eq (λ _. []) 0 (run_task a b ∷ []) w first)
    | no other ↦ ap (weight message) (update_ne (λ _. []) 0 (run_task a b ∷ []) w other)
  ]

  first_told : (w : ℕ) → told (first_phase w) ≡ 0
  first_told w = elim (ℕ_discrete w 0) [
    | yes first ↦ ap told (update_eq (λ _. unspawned) 0 (spawning 0) w first)
    | no other ↦ ap told (update_ne (λ _. unspawned) 0 (spawning 0) w other)
  ]

  -- The runtime as it is made satisfies the invariant.
  pub launch-Inv :
      n ≤ int_max → counts b + 1 < word → Inv n (counts b + 1) (λ v. v a + worth v b) (launch a b)
  unfolding worth_log
  launch-Inv few fit = record {
    few = few;
    some_workers = some_workers;
    tasks_fit = fit;
    balance = omega (arith, none_at owing refl refl, only_top owing_op);
    bounded = omega (arith, none_at taking refl refl, only_top taking_op);
    one_fires = omega (arith, none_at firing refl refl);
    conserved = λ v. omega (arith, none_at (worth_phase v) refl refl, only_top (worth_op v));
    messages = λ w lt. omega (arith, quiet_queue w, first_told w, none_at (telling w) refl refl);
    dormant = sym (none_at asleep refl refl);
    unbroken = none_at broken refl refl;
    led = λ j positive lt.
        ap leading
          (update_ne (λ _. unspawned) 0 (spawning 0) j (λ at. omega (arith, at, positive)));
    main = refl;
    born = λ j positive lt.
        ap unborn (update_ne (λ _. unspawned) 0 (spawning 0) j (λ at. omega (arith, at, positive)))
        ∙ ground (arith, positive);
  }
