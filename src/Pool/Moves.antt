-- ===== src/Pool/Moves.antt =====
-- The steps of the loop, the start of a task and the joins keep the invariant.
use darma_simple_backend.Prelude.{
  ◌⊎◌, ℕ, ◌+◌, ◌-◌, ◌%◌, ◌≤◌, ◌<◌, ◌≡◌, refl, sym, subst, Bool, true, false, ◌∷◌, update, total,
  total-number, if◌then◌else◌, ltb, arith, ℕ_discrete, ◌⊎◌, inl, inr,
}
use darma_simple_backend.Machine.Counter.{word}
use darma_simple_backend.Pool.{
  Body, Operation, run_task, all_tasks_done, Phase, starting, popping, ended, joining, waking,
  running, registering, dozing, Shared, System, run_operation, after_loop, set_dorment,
}
use darma_simple_backend.Pool.Weights.{worth_log, asleep}
use darma_simple_backend.Pool.Invariant.{Inv, Local-Inv, put, weigh}
use darma_simple_backend.Pool.Plain.{plain, still, by_flag, asleep_small}

module _ {n all : ℕ} {most : (ℕ → ℕ) → ℕ} {s : System} (inv : Inv n all most s) (i : ℕ)
    (below : i < n) where
  abbrev Keeps : Phase → Shared → Type 0
  Keeps q f = Inv n all most (put inv i below q f)

  few_asleep : total asleep n s.phase ≤ n
  few_asleep = total-number asleep n s.phase asleep_small

  -- `--dorment_workers` of a thread that is counted, and `++dorment_workers` of one that is not.
  one_less :
      (p q : Phase)
      → s.phase i ≡ p
      → asleep p ≡ 1
      → asleep q ≡ 0
      → (s.shared.dorment_workers + word - 1) % word + asleep p
        ≡ s.shared.dorment_workers + asleep q
  one_less p q e naps wakes =
      omega (arith, naps, wakes, few_asleep, inv.few, inv.dormant, weigh inv i below asleep p q e)

  one_more :
      (p q : Phase)
      → s.phase i ≡ p
      → asleep p ≡ 0
      → asleep q ≡ 1
      → (s.shared.dorment_workers + 1) % word + asleep p ≡ s.shared.dorment_workers + asleep q
  one_more p q e wakes naps = omega (
    arith,
    naps,
    wakes,
    total-number asleep n (update s.phase i q) asleep_small,
    inv.few,
    inv.dormant,
    weigh inv i below asleep p q e,
  )

  pub wakes_up :
      (op : Operation)
      → s.phase i ≡ waking op
      → Keeps
          (run_operation op)
          (set_dorment ((s.shared.dorment_workers + word - 1) % word) s.shared)
  wakes_up (run_task a b) e =
      plain inv i below (waking (run_task a b)) (running a b) _ e
        (one_less (waking (run_task a b)) (running a b) e refl refl) refl (omega arith)
  wakes_up all_tasks_done e =
      plain inv i below (waking all_tasks_done) (dozing true) _ e
        (one_less (waking all_tasks_done) (dozing true) e refl refl) refl (omega arith)

  pub runs_task :
      (a : ℕ) (b : Body)
      → s.phase i ≡ running a b
      → Keeps (registering b) (record s.shared { log = a ∷ s.shared.log })
  unfolding worth_log
  runs_task a b e = Local-Inv inv i below (running a b) (registering b) _ e (record {
    counts = refl;
    takes = omega arith;
    fires = refl;
    keeps = λ v. omega arith;
    tells = λ j below_j. refl;
    naps = refl;
    mends = omega arith;
    leads = omega arith;
    lives = refl;
    spawns = refl;
  })

  pub starts :
      s.phase i ≡ starting
      → Keeps popping (set_dorment ((s.shared.dorment_workers + 1) % word) s.shared)
  starts e =
      plain inv i below starting popping _ e (one_more starting popping e refl refl) refl
        (omega arith)

  pub joins :
      (k : ℕ)
      → s.phase i ≡ joining k
      → Keeps (if ltb (k + 1) n then joining (k + 1) else ended) s.shared
  joins k e =
      by_flag inv i below (ltb (k + 1) n) (joining (k + 1)) ended s.shared
        (λ t. still inv i below (joining k) (joining (k + 1)) e refl refl (omega arith))
        (λ t. still inv i below (joining k) ended e refl refl (omega arith))

  leaves_loop :
      (q : Phase)
      → s.phase i ≡ dozing true
      → (i ≡ 0) × (q ≡ joining 0) ⊎ (q ≡ ended)
      → Keeps q (set_dorment ((s.shared.dorment_workers + 1) % word) s.shared)
  leaves_loop q e (inl (first, at)) =
      subst (λ r. Keeps r (set_dorment ((s.shared.dorment_workers + 1) % word) s.shared)) (sym at)
        (Local-Inv inv i below (dozing true) (joining 0) _ e (record {
          counts = refl;
          takes = omega arith;
          fires = refl;
          keeps = λ v. refl;
          tells = λ j below_j. refl;
          naps = one_more (dozing true) (joining 0) e refl refl;
          mends = omega arith;
          leads = ground (arith, first);
          lives = refl;
          spawns = refl;
        }))
  leaves_loop q e (inr at) =
      subst (λ r. Keeps r (set_dorment ((s.shared.dorment_workers + 1) % word) s.shared)) (sym at)
        (plain inv i below (dozing true) ended _ e (one_more (dozing true) ended e refl refl) refl
          (omega arith))

  pub dozes :
      (stop : Bool)
      → s.phase i ≡ dozing stop
      → Keeps (after_loop i stop) (set_dorment ((s.shared.dorment_workers + 1) % word) s.shared)
  dozes true e = leaves_loop (after_loop i true) e (elim (ℕ_discrete i 0) [
    | yes first ↦ inl (first, ground (arith, first))
    | no other ↦ inr (ground (arith, other))
  ])
  dozes false e =
      plain inv i below (dozing false) popping _ e (one_more (dozing false) popping e refl refl)
        refl (omega arith)
