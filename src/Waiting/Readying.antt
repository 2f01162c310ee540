-- ===== src/Waiting/Readying.antt =====
-- The steps at an operation's own counter and event keep the invariant.
use darma_simple_backend.Prelude.{
  zero, suc, ℕ, ◌+◌, ◌-◌, ◌%◌, ◌<◌, ◌≡◌, inl, inr, refl, sym, ap, ◌∙◌, Bool, true, false,
  Bool-cases, ◌∷◌, update_eq, update_ne, if◌then◌else◌, ◌==◌, arith, ℕ_discrete,
}
use darma_simple_backend.Machine.Counter.{word}
use darma_simple_backend.Waiting.{
  subtracting, failed, Phase, lowering, enqueueing, finished, Shared, System, set_count, triggering,
  offering, enqueueing_all, fire_ready, offer_next,
}
use darma_simple_backend.Waiting.Invariant.{
  broken, firing_of, wanting, offers, queueing, readying, owing, taking, outside, Inv, Local-Inv,
  put, weigh,
}
use darma_simple_backend.Waiting.Attaching.{by_flag, some_count, changed, inside}

module _ {n m : ℕ} {made most fires : ℕ → ℕ} {wants : ℕ → ℕ → ℕ} {s : System}
    (inv : Inv n m made most fires wants s) (i : ℕ) (below : i < n) where
  abbrev Keeps : Phase → Shared → Type 0
  Keeps q f = Inv n m made most fires wants (put inv i below q f)

  abbrev lowered : ℕ → Shared
  lowered op = set_count op ((s.shared.count op + word - 1) % word) s.shared

  -- A count is paid; the last one queues the operation.
  pub pays :
      (op : ℕ) (p : Phase) (b : Bool)
      → s.phase i ≡ subtracting op p
      → (s.shared.count op == 1) ≡ b
      → Keeps (if b then triggering op p else p) (lowered op)
  pays op p b e is_one = go b is_one
    where
      positive : 0 < s.shared.count op
      positive = some_count inv i below op (subtracting op p) e (ground arith)

      low : (s.shared.count op + word - 1) % word + 1 ≡ s.shared.count op
      low = omega (arith, positive, inv.bounded op, inv.fits op)

      paid : (o : ℕ) → (lowered op).count o + (if op == o then 1 else 0) ≡ s.shared.count o
      paid o =
          ground
            (arith, changed inv i below op ((s.shared.count op + word - 1) % word) o, low, positive)

      go :
          (b : Bool)
          → (s.shared.count op == 1) ≡ b
          → Keeps (if b then triggering op p else p) (lowered op)
      go true one =
          Local-Inv inv i below (subtracting op p) (triggering op p) (lowered op) e (record {
            counts = λ o. omega (arith, paid o);
            takes = λ o. omega (arith, paid o);
            queues = λ o. omega arith;
            readies = λ o. ground (arith, paid o, one);
            holds = inv.unheld;
            comes_late = λ o. inr (omega arith, refl);
            keeps = λ o d waits. (waits, refl);
            empties = inv.emptied;
            fires = λ d. inr (refl, refl);
            mends = omega arith;
            stays = λ z. omega (arith, z);
            keeps_inner = λ z. inv.inner;
          })
      go false many = Local-Inv inv i below (subtracting op p) p (lowered op) e (record {
        counts = λ o. omega (arith, paid o);
        takes = λ o. omega (arith, paid o);
        queues = λ o. omega arith;
        readies = λ o. ground (arith, paid o, many, positive);
        holds = inv.unheld;
        comes_late = λ o. inr (omega arith, refl);
        keeps = λ o d waits. (waits, refl);
        empties = inv.emptied;
        fires = λ d. inr (refl, refl);
        mends = omega arith;
        stays = λ z. omega (arith, z);
        keeps_inner = λ z. inv.inner;
      })

  -- The assertion of `decrement_count` holds: the thread owes a decrement.
  pub asserts :
      (op : ℕ) (p : Phase)
      → s.phase i ≡ lowering op p
      → Keeps (if s.shared.ready_event op then failed else subtracting op p) s.shared
  asserts op p e = by_flag inv i below op (lowering op p) (subtracting op p) e (ground arith) (
      Local-Inv inv i below (lowering op p) (subtracting op p) _ e (record {
        counts = λ o. refl;
        takes = λ o. omega arith;
        queues = λ o. omega arith;
        readies = λ o. refl;
        holds = inv.unheld;
        comes_late = λ o. inr (omega arith, refl);
        keeps = λ o d waits. (waits, refl);
        empties = inv.emptied;
        fires = λ d. inr (refl, refl);
        mends = omega arith;
        stays = λ z. omega (arith, z);
        keeps_inner = λ z. inv.inner;
      }))

  pub enqueues :
      (op : ℕ) (p : Phase)
      → s.phase i ≡ enqueueing op p
      → Keeps p (record s.shared { ready = op ∷ s.shared.ready })
  enqueues op p e = Local-Inv inv i below (enqueueing op p) p _ e (record {
    counts = λ o. refl;
    takes = λ o. omega arith;
    queues = λ o. omega arith;
    readies = λ o. refl;
    holds = inv.unheld;
    comes_late = λ o. inr (omega arith, refl);
    keeps = λ o d waits. (waits, refl);
    empties = inv.emptied;
    fires = λ d. inr (refl, refl);
    mends = omega arith;
    stays = λ z. omega (arith, z);
    keeps_inner = λ z. inv.inner;
  })

  enqueues_all :
      (w : Phase → ℕ) (op k : ℕ) (p : Phase)
      → ((q : Phase) → w (enqueueing op q) ≡ w q)
      → w (enqueueing_all k op p) ≡ w p
  unfolding enqueueing_all
  enqueues_all w op zero p same = refl
  enqueues_all w op (suc k) p same = same (enqueueing_all k op p) ∙ enqueues_all w op k p same

  outside_all :
      (op k : ℕ) (p : Phase) → op < m → outside m p ≡ 0 → outside m (enqueueing_all k op p) ≡ 0
  unfolding enqueueing_all
  outside_all op zero p inside_op z = z
  outside_all op (suc k) p inside_op z = ground (arith, inside_op, outside_all op k p inside_op z)

  queueing_all :
      (o op k : ℕ) (p : Phase)
      → queueing o (enqueueing_all k op p) ≡ (if op == o then k else 0) + queueing o p
  unfolding enqueueing_all
  queueing_all o op zero p = ground arith
  queueing_all o op (suc k) p = ground (arith, queueing_all o op k p)

  -- The operation's own event fires: it had not fired before.
  pub readies_op :
      (op : ℕ) (p : Phase)
      → s.phase i ≡ triggering op p
      → Keeps (fire_ready op p s.shared).0 (fire_ready op p s.shared).1
  readies_op op p e = Local-Inv inv i below (triggering op p) (enqueueing_all k op p) _ e (record {
    counts = λ o. omega (arith, enqueues_all (owing o) op k p (λ q. refl));
    takes = λ o. omega (arith, enqueues_all (taking o) op k p (λ q. refl));
    queues = λ o. elim (ℕ_discrete o op) [
      | yes same ↦ ground (
        arith,
        queueing_all o op k p,
        enqueues_all (offers o) op k p (λ q. refl),
        update_eq s.shared.held op 0 o same,
        ap s.shared.held same,
        same,
      )
      | no other ↦ ground (
        arith,
        queueing_all o op k p,
        enqueues_all (offers o) op k p (λ q. refl),
        update_ne s.shared.held op 0 o other,
        other,
      )
    ];
    readies = λ o. elim (ℕ_discrete o op) [
      | yes same ↦ ground (
        arith,
        enqueues_all (readying o) op k p (λ q. refl),
        update_eq s.shared.ready_event op true o same,
        ap s.shared.ready_event same,
        same,
        unfired,
      )
      | no other ↦ ground (
        arith,
        enqueues_all (readying o) op k p (λ q. refl),
        update_ne s.shared.ready_event op true o other,
        other,
      )
    ];
    holds = λ o t. elim (ℕ_discrete o op) [
      | yes same ↦ update_eq s.shared.held op 0 o same
      | no other ↦
          update_ne s.shared.held op 0 o other
          ∙ inv.unheld o (sym (update_ne s.shared.ready_event op true o other) ∙ t)
    ];
    comes_late = λ o. elim (ℕ_discrete o op) [
      | yes same ↦ inl (update_eq s.shared.ready_event op true o same)
      | no other ↦ inr (
        ground (arith, queueing_all o op k p, other),
        update_ne s.shared.ready_event op true o other,
      )
    ];
    keeps = λ o d waits. (waits, omega (arith, enqueues_all (wanting o d) op k p (λ q. refl)));
    empties = inv.emptied;
    fires = λ d. inr (enqueues_all (firing_of d) op k p (λ q. refl), refl);
    mends = omega (arith, enqueues_all broken op k p (λ q. refl));
    stays = λ z.
        outside_all op k p (inside inv i below op (triggering op p) e (omega arith))
          (omega (arith, z));
    keeps_inner = λ z. inv.inner;
  })
    where
      k : ℕ
      k = s.shared.held op

      unfired : s.shared.ready_event op ≡ false
      unfired = elim (Bool-cases (s.shared.ready_event op)) [
        | inl t ↦ absurd (
            ground (
              arith,
              t,
              inv.one_fires op,
              weigh inv i below (readying op) (triggering op p) finished e,
            ))
        | inr f ↦ f
      ]

  pub offers_op :
      (op : ℕ) (b : Bool)
      → s.phase i ≡ offering op
      → s.shared.ready_event op ≡ b
      → Keeps (offer_next b op s.shared).0 (offer_next b op s.shared).1
  offers_op op true e t = Local-Inv inv i below (offering op) (enqueueing op finished) _ e (record {
    counts = λ o. refl;
    takes = λ o. omega arith;
    queues = λ o. omega arith;
    readies = λ o. refl;
    holds = inv.unheld;
    comes_late = λ o. elim (ℕ_discrete o op) [
      | yes same ↦ inl (ap s.shared.ready_event same ∙ t)
      | no other ↦ inr (ground (arith, other), refl)
    ];
    keeps = λ o d waits. (waits, refl);
    empties = inv.emptied;
    fires = λ d. inr (refl, refl);
    mends = omega arith;
    stays = λ z. omega (arith, z);
    keeps_inner = λ z. inv.inner;
  })
  offers_op op false e f = Local-Inv inv i below (offering op) finished _ e (record {
    counts = λ o. refl;
    takes = λ o. omega arith;
    queues = λ o. elim (ℕ_discrete o op) [
      | yes same ↦ ground (
        arith,
        update_eq s.shared.held op (s.shared.held op + 1) o same,
        ap s.shared.held same,
        same,
      )
      | no other ↦ ground (arith, update_ne s.shared.held op (s.shared.held op + 1) o other, other)
    ];
    readies = λ o. refl;
    holds = λ o t. elim (ℕ_discrete o op) [
      | yes same ↦ absurd (ground (arith, t, ap s.shared.ready_event same, f))
      | no other ↦ update_ne s.shared.held op (s.shared.held op + 1) o other ∙ inv.unheld o t
    ];
    comes_late = λ o. inr (omega arith, refl);
    keeps = λ o d waits. (waits, refl);
    empties = inv.emptied;
    fires = λ d. inr (refl, refl);
    mends = omega arith;
    stays = λ z. omega (arith, z);
    keeps_inner = λ z. inv.inner;
  })
