-- ===== src/Pool/Spawning.antt =====
-- The main thread spawns the other threads: the steps of `spin_up_worker_threads` keep the invariant.
use darma_simple_backend.Prelude.{
  ℕ, ◌+◌, ◌≤◌, ◌<◌, ◌≡◌, refl, sym, ap, ◌∙◌, update, update_eq, update_ne, total_same, arith,
  ℕ_discrete,
}
use darma_simple_backend.Pool.{Phase, unspawned, starting, spawning, System}
use darma_simple_backend.Pool.Weights.{
  worth_phase, owing, taking, firing, broken, told, telling, asleep, leading, unborn, next_born,
}
use darma_simple_backend.Pool.Invariant.{waits, Inv}

-- A weight that does not tell the phases before a worker's loop apart.
abbrev IsBlind : (Phase → ℕ) → Type 0
IsBlind w = (w starting ≡ w unspawned) × ((k : ℕ) → w (spawning k) ≡ w unspawned)

pub is_unspawned : (p : Phase) → unborn p ≡ 1 → p ≡ unspawned
is_unspawned unspawned e = refl
is_unspawned p e = absurd (omega (arith, e))

module _ {n all : ℕ} {most : (ℕ → ℕ) → ℕ} {s : System} (inv : Inv n all most s) where
  respawned :
      (g : ℕ → Phase)
      → ((w : Phase → ℕ) → IsBlind w → (j : ℕ) → w (g j) ≡ w (s.phase j))
      → ((j : ℕ) → 0 < j → j < n → leading (g j) ≡ 0)
      → unborn (g 0) ≡ 0
      → ((j : ℕ) → 0 < j → j < n → unborn (g j) ≡ waits (next_born (g 0)) j)
      → Inv n all most (record { shared = s.shared; phase = g })
  respawned g same leads main born = record {
    few = inv.few;
    some_workers = inv.some_workers;
    tasks_fit = inv.tasks_fit;
    balance =
        omega (arith, inv.balance, total_same owing n g s.phase (same owing (refl, λ k. refl)));
    bounded =
        omega (arith, inv.bounded, total_same taking n g s.phase (same taking (refl, λ k. refl)));
    one_fires =
        omega (arith, inv.one_fires, total_same firing n g s.phase (same firing (refl, λ k. refl)));
    conserved = λ v. omega (
      arith,
      inv.conserved v,
      total_same (worth_phase v) n g s.phase (same (worth_phase v) (refl, λ k. refl)),
    );
    messages = λ w lt. omega (
      arith,
      inv.messages w lt,
      total_same (telling w) n g s.phase (same (telling w) (refl, λ k. refl)),
      same told (refl, λ k. refl) w,
    );
    dormant =
        omega (arith, inv.dormant, total_same asleep n g s.phase (same asleep (refl, λ k. refl)));
    unbroken =
        omega (arith, inv.unbroken, total_same broken n g s.phase (same broken (refl, λ k. refl)));
    led = leads;
    main = main;
    born = born;
  }

  module _ (k : ℕ) (e : s.phase 0 ≡ spawning k) where
    -- The last thread has been spawned.
    pub spawned_all :
        n ≤ k + 1 → Inv n all most (record { shared = s.shared; phase = update s.phase 0 starting })
    spawned_all le =
        respawned (update s.phase 0 starting)
          (λ w blind j. elim (ℕ_discrete j 0) [
            | yes at ↦
                ap w (update_eq s.phase 0 starting j at)
                ∙ blind.0
                ∙ sym (blind.1 k)
                ∙ ap w (sym (ap s.phase at ∙ e))
            | no ne ↦ ap w (update_ne s.phase 0 starting j ne)
          ])
          (λ j positive lt.
            ap leading (update_ne s.phase 0 starting j (λ at. omega (arith, at, positive)))
            ∙ inv.led j positive lt)
          refl
          (λ j positive lt.
            ap unborn (update_ne s.phase 0 starting j (λ at. omega (arith, at, positive)))
            ∙ inv.born j positive lt
            ∙ ap (λ p. waits (next_born p) j) e
            ∙ ground (arith, positive, lt, le))

    pub spawned_one :
        k + 1 < n
        → Inv n all most (record {
          shared = s.shared;
          phase = update (update s.phase (k + 1) starting) 0 (spawning (k + 1));
        })
    spawned_one lt =
        respawned g same_at
          (λ j positive below. elim (ℕ_discrete j (k + 1)) [
            | yes at ↦ ap leading (later j positive ∙ update_eq s.phase (k + 1) starting j at)
            | no ne ↦
                ap leading (later j positive ∙ update_ne s.phase (k + 1) starting j ne)
                ∙ inv.led j positive below
          ])
          refl
          (λ j positive below. elim (ℕ_discrete j (k + 1)) [
            | yes at ↦
                ap unborn (later j positive ∙ update_eq s.phase (k + 1) starting j at)
                ∙ ground (arith, at)
            | no ne ↦
                ap unborn (later j positive ∙ update_ne s.phase (k + 1) starting j ne)
                ∙ inv.born j positive below
                ∙ ap (λ p. waits (next_born p) j) e
                ∙ ground (arith, ne)
          ])
      where
        g : ℕ → Phase
        g = update (update s.phase (k + 1) starting) 0 (spawning (k + 1))

        later : (j : ℕ) → 0 < j → g j ≡ update s.phase (k + 1) starting j
        later j positive =
            update_ne (update s.phase (k + 1) starting) 0 (spawning (k + 1)) j
              (λ at. omega (arith, at, positive))

        was : s.phase (k + 1) ≡ unspawned
        was = is_unspawned (s.phase (k + 1)) (
            inv.born (k + 1) (omega arith) lt
            ∙ ap (λ p. waits (next_born p) (k + 1)) e
            ∙ ground arith)

        same_at : (w : Phase → ℕ) → IsBlind w → (j : ℕ) → w (g j) ≡ w (s.phase j)
        same_at w blind j = elim (ℕ_discrete j 0) [
          | yes at ↦
              ap (λ i. w (g i)) at
              ∙ blind.1 (k + 1)
              ∙ sym (blind.1 k)
              ∙ ap w (sym (ap s.phase at ∙ e))
          | no ne ↦ elim (ℕ_discrete j (k + 1)) [
            | yes at ↦
                ap w (later j (omega (arith, ne)) ∙ update_eq s.phase (k + 1) starting j at)
                ∙ blind.0
                ∙ ap w (sym (ap s.phase at ∙ was))
            | no other ↦
                ap w (later j (omega (arith, ne)) ∙ update_ne s.phase (k + 1) starting j other)
          ]
        ]
