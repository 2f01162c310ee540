-- ===== src/Pool/Queues.antt =====
-- The steps at the queues keep the invariant: a pop, a theft, a registered task and the end messages.
use darma_simple_backend.Prelude.{
  Option, none, some, ◌⊎◌, ℕ, ◌+◌, ◌≤◌, ◌<◌, ◌≡◌, refl, ap, Bool, true, false, List, [], ◌∷◌, ◌++◌,
  update, update_eq, update_ne, total, total-update, if◌then◌else◌, ◌==◌, ltb, arith, ℕ_discrete,
  ◌⊎◌, inl, inr,
}
use darma_simple_backend.Pool.{
  Tasks, placing, spreading, after_count, Body, Body, Operation, run_task, all_tasks_done, Phase,
  popping, stealing, waking, registering, queueing, announcing, Shared, System, set_ready, searches,
  announce_next, pop_locked, steal_locked, emplace_locked,
}
use darma_simple_backend.Pool.Weights.{
  worth_phase, taking, leading, owing, asleep, counts, worth, weight, weight-append, worth_op,
  owing_op, taking_op, message,
}
use darma_simple_backend.Pool.Invariant.{Inv, Local-Inv, put}
use darma_simple_backend.Pool.Plain.{profile, still, searching}

module _ {n all : ℕ} {most : (ℕ → ℕ) → ℕ} {s : System} (inv : Inv n all most s) (i : ℕ)
    (below : i < n) where
  abbrev Keeps : Phase → Shared → Type 0
  Keeps q f = Inv n all most (put inv i below q f)

  weigh_queue :
      (v : Operation → ℕ) (w : ℕ) (l : List Operation)
      → w < n
      → total (weight v) n (update s.shared.ready_tasks w l) + weight v (s.shared.ready_tasks w)
        ≡ total (weight v) n s.shared.ready_tasks + weight v l
  weigh_queue v w l lt = total-update (weight v) n s.shared.ready_tasks w l lt

  queue_after :
      (w : ℕ) (l : List Operation) (j : ℕ)
      → weight message (update s.shared.ready_tasks w l j)
          + (if j == w then weight message (s.shared.ready_tasks w) else 0)
        ≡ weight message (s.shared.ready_tasks j) + (if j == w then weight message l else 0)
  queue_after w l j = elim (ℕ_discrete j w) [
    | yes same ↦ ground (
      arith,
      ap (weight message) (update_eq s.shared.ready_tasks w l j same),
      ap (λ k. weight message (s.shared.ready_tasks k)) same,
      same,
    )
    | no other ↦
        ground (arith, ap (weight message) (update_ne s.shared.ready_tasks w l j other), other)
  ]

  module _ (w : ℕ) (lt : w < n) (op : Operation) (rest : List Operation)
      (holds : s.shared.ready_tasks w ≡ op ∷ rest) where
    head : (v : Operation → ℕ) → weight v (s.shared.ready_tasks w) ≡ v op + weight v rest
    unfolding weight
    head v = ap (weight v) holds

    -- An operation is taken from the queue of this worker, or from that of another if it may be stolen.
    taken :
        (p : Phase)
        → s.phase i ≡ p
        → searches p ≡ true
        → (message op ≡ 0) ⊎ (w ≡ i)
        → Keeps (waking op) (set_ready w rest s.shared)
    taken p e seeks whose =
        let (h, leads, naps) = searching p seeks in
        Local-Inv inv i below p (waking op) _ e (record {
          counts = omega (arith, ap (λ r. r.owes) h, weigh_queue owing_op w rest lt, head owing_op);
          takes =
              omega (arith, ap (λ r. r.takes) h, weigh_queue taking_op w rest lt, head taking_op);
          fires = omega (arith, ap (λ r. r.fires) h);
          keeps = λ v.
              omega (
                arith,
                ap (λ r. r.keeps v) h,
                weigh_queue (worth_op v) w rest lt,
                head (worth_op v),
              );
          tells = λ j below_j. elim whose [
            | inl none_in ↦ ground (
              arith,
              ap (λ r. r.tells j) h,
              ap (λ r. r.was_told) h,
              queue_after w rest j,
              head message,
              none_in,
            )
            | inr mine ↦ ground (
              arith,
              ap (λ r. r.tells j) h,
              ap (λ r. r.was_told) h,
              queue_after w rest j,
              head message,
              mine,
            )
          ];
          naps = omega (arith, naps);
          mends = omega (arith, ap (λ r. r.breaks) h);
          leads = omega arith;
          lives = ap (λ r. r.lives) h;
          spawns = ap (λ r. r.spawns) h;
        })

  pub pop_own :
      (l : List Operation)
      → s.shared.ready_tasks i ≡ l
      → s.phase i ≡ popping
      → Keeps (pop_locked i s.shared l).0 (pop_locked i s.shared l).1
  pop_own [] holds e = still inv i below popping stealing e refl refl (omega arith)
  pop_own (op ∷ rest) holds e = taken i below op rest holds popping e refl (inr refl)

  pub steal_other :
      (w : ℕ) (l : List Operation)
      → w < n
      → s.shared.ready_tasks w ≡ l
      → s.phase i ≡ stealing
      → Keeps (steal_locked w s.shared l).0 (steal_locked w s.shared l).1
  steal_other w [] lt holds e = still inv i below stealing popping e refl refl (omega arith)
  steal_other w (run_task a b ∷ rest) lt holds e =
      taken w lt (run_task a b) rest holds stealing e refl (inl refl)
  steal_other w (all_tasks_done ∷ rest) lt holds e =
      still inv i below stealing popping e refl refl (omega arith)

  -- A task that has been registered is queued for the worker `w`.
  queued_for :
      (w a : ℕ) (b : Body) (p q : Phase)
      → w < n
      → s.phase i ≡ p
      → profile q
        ≡ record (profile p) { owes = owing q; takes = taking q; keeps = λ v. worth_phase v q }
      → owing p ≡ owing q + 1
      → taking p ≡ taking q + counts b
      → ((v : ℕ → ℕ) → worth_phase v p ≡ v a + worth v b + worth_phase v q)
      → (asleep p ≡ asleep q) × (leading q ≡ 0)
      → Keeps q (emplace_locked w (run_task a b) s.shared)
  queued_for w a b p q lt e h owes takes keeps (naps, leads) =
      Local-Inv inv i below p q _ e (record {
        counts = omega (arith, owes, weigh_queue owing_op w longer lt, added owing_op);
        takes = omega (arith, takes, weigh_queue taking_op w longer lt, added taking_op);
        fires = omega (arith, ap (λ r. r.fires) h);
        keeps =
            λ v. omega (arith, keeps v, weigh_queue (worth_op v) w longer lt, added (worth_op v));
        tells = λ j below_j. ground (
          arith,
          ap (λ r. r.tells j) h,
          ap (λ r. r.was_told) h,
          queue_after w longer j,
          added message,
        );
        naps = omega (arith, naps);
        mends = omega (arith, ap (λ r. r.breaks) h);
        leads = omega (arith, leads);
        lives = ap (λ r. r.lives) h;
        spawns = ap (λ r. r.spawns) h;
      })
    where
      longer : List Operation
      longer = s.shared.ready_tasks w ++ run_task a b ∷ []

      added :
          (v : Operation → ℕ)
          → weight v longer ≡ weight v (s.shared.ready_tasks w) + v (run_task a b)
      added v = weight-append v (s.shared.ready_tasks w) (run_task a b)

  pub queues :
      (a : ℕ) (b rest : Body)
      → s.phase i ≡ queueing a b rest
      → Keeps (registering rest) (emplace_locked i (run_task a b) s.shared)
  queues a b rest e =
      queued_for i a b (queueing a b rest) (registering rest) below e refl refl (omega arith)
        (λ v. refl) (refl, refl)

  pub places :
      (w k a : ℕ) (b : Body) (ts : Tasks) (rest : Body)
      → w < n
      → s.phase i ≡ placing k a b ts rest
      → Keeps (spreading (k + 1) ts rest) (emplace_locked w (run_task a b) s.shared)
  places w k a b ts rest lt e =
      queued_for w a b (placing k a b ts rest) (spreading (k + 1) ts rest) lt e refl refl
        (omega arith) (λ v. omega arith) (refl, refl)

  -- The end message is sent to the worker `k`.
  tells_worker :
      (k : ℕ) (r : Option Body)
      → k < n
      → s.phase i ≡ announcing k r
      → Keeps (announcing (k + 1) r) (emplace_locked k all_tasks_done s.shared)
  tells_worker k r lt e =
      Local-Inv inv i below (announcing k r) (announcing (k + 1) r) _ e (record {
        counts = omega (arith, weigh_queue owing_op k longer lt, added owing_op);
        takes = omega (arith, weigh_queue taking_op k longer lt, added taking_op);
        fires = refl;
        keeps = λ v. omega (arith, weigh_queue (worth_op v) k longer lt, added (worth_op v));
        tells = λ j below_j. ground (arith, queue_after k longer j, added message);
        naps = refl;
        mends = omega arith;
        leads = omega arith;
        lives = refl;
        spawns = refl;
      })
    where
      longer : List Operation
      longer = s.shared.ready_tasks k ++ all_tasks_done ∷ []

      added :
          (v : Operation → ℕ)
          → weight v longer ≡ weight v (s.shared.ready_tasks k) + v all_tasks_done
      added v = weight-append v (s.shared.ready_tasks k) all_tasks_done

  announced :
      (k : ℕ) (r : Option Body)
      → (profile (after_count r) ≡ record (profile (announcing k r)) { tells = λ w. 0 })
        × (asleep (after_count r) ≡ 0)
        × (leading (after_count r) ≡ 0)
  announced k none = (refl, refl, refl)
  announced k (some rest) = (refl, refl, refl)

  -- The last worker has been told.
  told_all :
      (k : ℕ) (r : Option Body)
      → s.phase i ≡ announcing k r
      → n ≤ k
      → Keeps (after_count r) s.shared
  told_all k r e le =
      let (h, naps, leads) = announced k r in
      Local-Inv inv i below (announcing k r) (after_count r) _ e (record {
        counts = omega (arith, ap (λ p. p.owes) h);
        takes = omega (arith, ap (λ p. p.takes) h);
        fires = omega (arith, ap (λ p. p.fires) h);
        keeps = λ v. omega (arith, ap (λ p. p.keeps v) h);
        tells =
            λ j below_j. ground (arith, below_j, le, ap (λ p. p.tells j) h, ap (λ p. p.was_told) h);
        naps = omega (arith, naps);
        mends = omega (arith, ap (λ p. p.breaks) h);
        leads = omega (arith, leads);
        lives = ap (λ p. p.lives) h;
        spawns = ap (λ p. p.spawns) h;
      })

  pub announces :
      (k : ℕ) (r : Option Body) (more : Bool)
      → s.phase i ≡ announcing k r
      → ltb k n ≡ more
      → Keeps (announce_next more k r s.shared).0 (announce_next more k r s.shared).1
  announces k r true e lt = tells_worker k r (ground (arith, lt)) e
  announces k r false e ge = told_all k r e (ground (arith, ge))
