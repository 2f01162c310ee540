-- ===== src/Pool/Counting.antt =====
-- The steps at the shutdown counter keep the invariant: its counts are taken and paid.
use darma_simple_backend.Prelude.{
  ap, Option, none, some, ℕ, ◌+◌, ◌-◌, ◌%◌, ◌<◌, ◌≡◌, refl, true, false, if◌then◌else◌, ◌==◌, arith,
  Bool-cases, inl, inr,
}
use darma_simple_backend.Machine.Counter.{word}
use darma_simple_backend.Pool.{
  raise_count, after_raise, all_tasks, raising, Call, one_task, element, registers_collection,
  Tasks, no_tasks, task, spreading, placing, after_count, spread_next, Body, over, registers, Phase,
  ended, failed, registering, queueing, asserting, subtracting, triggering, announcing, Shared,
  System, register_next, set_count,
}
use darma_simple_backend.Pool.Weights.{leading, owing, owing_rest, taking, firing, asleep}
use darma_simple_backend.Pool.Invariant.{Inv, Local-Inv, put, weigh}
use darma_simple_backend.Pool.Plain.{IsPlain, profile, still, by_flag, owing_waits}

module _ {n all : ℕ} {most : (ℕ → ℕ) → ℕ} {s : System} (inv : Inv n all most s) (i : ℕ)
    (below : i < n) where
  abbrev Keeps : Phase → Shared → Type 0
  Keeps q f = Inv n all most (put inv i below q f)

  -- A count of the shutdown counter is taken by a thread that is to pay others.
  raises :
      (p q : Phase)
      → s.phase i ≡ p
      → 0 < owing p
      → profile q ≡ record (profile p) { owes = owing p + 1; takes = taking q }
      → taking p ≡ taking q + 1
      → (asleep p ≡ asleep q) × (leading q ≡ 0)
      → Keeps q (set_count ((s.shared.count + 1) % word) s.shared)
  raises p q e owes h takes (naps, leads) = Local-Inv inv i below p q _ e (record {
    counts = omega (arith, higher, ap (λ r. r.owes) h);
    takes = omega (arith, higher, takes);
    fires = ground (arith, higher, ap (λ r. r.fires) h, (owing_waits inv i below p e owes).0);
    keeps = λ v. omega (arith, ap (λ r. r.keeps v) h);
    tells = λ j below_j.
        omega (arith, ap (λ r. r.tells j) h, ap (λ r. if j == i then r.was_told else 0) h);
    naps = omega (arith, naps);
    mends = omega (arith, ap (λ r. r.breaks) h);
    leads = omega (arith, leads);
    lives = ap (λ r. r.lives) h;
    spawns = ap (λ r. r.spawns) h;
  })
    where
      higher : (s.shared.count + 1) % word ≡ s.shared.count + 1
      higher = omega (arith, inv.bounded, inv.tasks_fit, weigh inv i below taking p ended e, takes)

  -- The assertion of `advance_count` holds for a thread that is to pay a count.
  asserts_untriggered :
      (p : Phase) (c : Call)
      → s.phase i ≡ p
      → 0 < owing p
      → IsPlain p (raising c)
      → asleep p ≡ 0
      → Keeps (if s.shared.triggered then failed else raising c) s.shared
  asserts_untriggered p c e owes h naps =
      by_flag inv i below s.shared.triggered failed (raising c) s.shared
        (λ t. absurd (ground (arith, t, (owing_waits inv i below p e owes).1)))
        (λ t. still inv i below p (raising c) e naps h (omega arith))

  -- A task's body registers a task or a collection, or is over.
  pub registers_next :
      (b : Body)
      → s.phase i ≡ registering b
      → Keeps (register_next b s.shared).0 (register_next b s.shared).1
  registers_next over e =
      still inv i below (registering over) (asserting none) e refl refl (omega arith)
  registers_next (registers a b rest) e =
      asserts_untriggered (registering (registers a b rest)) (one_task a b rest) e (omega arith)
        refl refl
  registers_next (registers_collection ts rest) e =
      asserts_untriggered (registering (registers_collection ts rest)) (all_tasks ts rest) e
        (omega arith) refl refl

  pub raises_call :
      (c : Call) → s.phase i ≡ raising c → Keeps (after_raise c) (raise_count s.shared)
  raises_call (one_task a b rest) e =
      raises (raising (one_task a b rest)) (queueing a b rest) e (omega arith) refl (omega arith)
        (refl, refl)
  raises_call (all_tasks ts rest) e =
      raises (raising (all_tasks ts rest)) (spreading 0 ts rest) e (omega arith) refl (omega arith)
        (refl, refl)
  raises_call (element k a b ts rest) e =
      raises (raising (element k a b ts rest)) (placing k a b ts rest) e (omega arith) refl
        (omega arith) (refl, refl)

  pub spreads :
      (k : ℕ) (ts : Tasks) (rest : Body)
      → s.phase i ≡ spreading k ts rest
      → Keeps (spread_next k ts rest s.shared).0 (spread_next k ts rest s.shared).1
  spreads k no_tasks rest e =
      Local-Inv inv i below (spreading k no_tasks rest) (asserting (some rest)) _ e (record {
        counts = refl;
        takes = omega arith;
        fires = refl;
        keeps = λ v. omega arith;
        tells = λ j below_j. refl;
        naps = refl;
        mends = omega arith;
        leads = omega arith;
        lives = refl;
        spawns = refl;
      })
  spreads k (task a b ts) rest e =
      asserts_untriggered (spreading k (task a b ts) rest) (element k a b ts rest) e (omega arith)
        refl refl

  paid :
      (r : Option Body)
      → (profile (after_count r) ≡ record (profile (subtracting r)) { owes = owing_rest r })
        × (asleep (after_count r) ≡ 0)
        × (leading (after_count r) ≡ 0)
  paid none = (refl, refl, refl)
  paid (some rest) = (refl, refl, refl)

  -- A count is paid; the last one is to tell the workers.
  pub pays :
      (r : Option Body)
      → s.phase i ≡ subtracting r
      → Keeps
          (if s.shared.count == 1 then triggering r else after_count r)
          (set_count ((s.shared.count + word - 1) % word) s.shared)
  pays r e =
      let (h, naps, leads) = paid r in
      by_flag inv i below (s.shared.count == 1) (triggering r) (after_count r) lowered
        (λ one. Local-Inv inv i below (subtracting r) (triggering r) lowered e (record {
          counts = omega (arith, low);
          takes = omega (arith, low);
          fires = ground (arith, low, one, unfired);
          keeps = λ v. refl;
          tells = λ j below_j. refl;
          naps = refl;
          mends = omega arith;
          leads = omega arith;
          lives = refl;
          spawns = refl;
        }))
        (λ many. Local-Inv inv i below (subtracting r) (after_count r) lowered e (record {
          counts = omega (arith, low, ap (λ p. p.owes) h);
          takes = omega (arith, low, ap (λ p. p.takes) h);
          fires = ground (arith, low, many, some_left, ap (λ p. p.fires) h);
          keeps = λ v. omega (arith, ap (λ p. p.keeps v) h);
          tells = λ j below_j.
              omega (arith, ap (λ p. p.tells j) h, ap (λ p. if j == i then p.was_told else 0) h);
          naps = omega (arith, naps);
          mends = omega (arith, ap (λ p. p.breaks) h);
          leads = omega (arith, leads);
          lives = ap (λ p. p.lives) h;
          spawns = ap (λ p. p.spawns) h;
        }))
    where
      lowered : Shared
      lowered = set_count ((s.shared.count + word - 1) % word) s.shared

      some_left : 0 < s.shared.count
      some_left = (owing_waits inv i below (subtracting r) e (omega arith)).0

      unfired : s.shared.triggered ≡ false
      unfired = (owing_waits inv i below (subtracting r) e (omega arith)).1

      low : (s.shared.count + word - 1) % word + 1 ≡ s.shared.count
      low = omega (arith, some_left, inv.bounded, inv.tasks_fit)

  pub triggers :
      (r : Option Body)
      → s.phase i ≡ triggering r
      → Keeps (announcing 0 r) (record s.shared { triggered = true })
  triggers r e = Local-Inv inv i below (triggering r) (announcing 0 r) _ e (record {
    counts = refl;
    takes = omega arith;
    fires = ground (arith, unfired);
    keeps = λ v. refl;
    tells = λ j below_j. ground (arith, unfired);
    naps = refl;
    mends = omega arith;
    leads = omega arith;
    lives = refl;
    spawns = refl;
  })
    where
      unfired : s.shared.triggered ≡ false
      unfired = elim (Bool-cases s.shared.triggered) [
        | inl t ↦
            absurd
              (ground (arith, inv.one_fires, t, weigh inv i below firing (triggering r) ended e))
        | inr t ↦ t
      ]

  pub asserts :
      (r : Option Body)
      → s.phase i ≡ asserting r
      → Keeps (if s.shared.triggered then failed else subtracting r) s.shared
  asserts r e =
      by_flag inv i below s.shared.triggered failed (subtracting r) s.shared
        (λ t. absurd (ground (arith, t, (owing_waits inv i below (asserting r) e (omega arith)).1)))
        (λ t. still inv i below (asserting r) (subtracting r) e refl refl (omega arith))
