-- ===== src/Waiting/Attaching.antt =====
-- The steps that add the events to an operation keep the invariant.
use darma_simple_backend.Prelude.{
  ℕ, ◌+◌, ◌%◌, ◌≤◌, ◌<◌, ◌≡◌, inl, inr, refl, sym, subst, ap, ◌∙◌, Bool, true, false, Bool-cases,
  List, [], ◌∷◌, ◌++◌, occurs, occurs-append, update, update_eq, update_ne, total-update,
  if◌then◌else◌, ◌==◌, ltb, arith, ℕ_discrete,
}
use darma_simple_backend.Machine.Counter.{word}
use darma_simple_backend.Waiting.{
  raising, failed, set_count, Phase, adding, attaching, lowering, finished, Shared, System,
  offering, add_next, attach_next,
}
use darma_simple_backend.Waiting.Invariant.{
  above, owing, taking, outside, Inv, Local-Inv, put, weigh,
}

above-append :
    (m : ℕ) (l : List ℕ) (c : ℕ) → above m (l ++ c ∷ []) ≡ above m l + (if ltb c m then 0 else 1)
above-append m [] c = omega arith
above-append m (d ∷ l) c = omega (arith, above-append m l c)

module _ {n m : ℕ} {made most fires : ℕ → ℕ} {wants : ℕ → ℕ → ℕ} {s : System}
    (inv : Inv n m made most fires wants s) (i : ℕ) (below : i < n) where
  abbrev Keeps : Phase → Shared → Type 0
  Keeps q f = Inv n m made most fires wants (put inv i below q f)

  pub some_count : (op : ℕ) (p : Phase) → s.phase i ≡ p → 0 < owing op p → 0 < s.shared.count op
  some_count op p e owes =
      omega (arith, inv.balance op, weigh inv i below (owing op) p finished e, owes)

  -- While a thread owes a decrement of the operation, its own event has not fired.
  pub by_flag :
      (op : ℕ) (p q : Phase)
      → s.phase i ≡ p
      → 0 < owing op p
      → Keeps q s.shared
      → Keeps (if s.shared.ready_event op then failed else q) s.shared
  by_flag op p q e owes kept = elim (Bool-cases (s.shared.ready_event op)) [
    | inl fired ↦ absurd (ground (arith, fired, inv.one_fires op, some_count op p e owes))
    | inr unfired ↦ subst (λ b. Keeps (if b then failed else q) s.shared) (sym unfired) kept
  ]

  pub changed :
      (op k j : ℕ)
      → update s.shared.count op k j + (if op == j then s.shared.count op else 0)
        ≡ s.shared.count j + (if op == j then k else 0)
  changed op k j = elim (ℕ_discrete j op) [
    | yes same ↦ ground (arith, update_eq s.shared.count op k j same, ap s.shared.count same, same)
    | no other ↦ ground (arith, update_ne s.shared.count op k j other, other)
  ]

  pub adds :
      (op : ℕ) (cs : List ℕ)
      → s.phase i ≡ adding op cs
      → Keeps (add_next op cs s.shared).0 (add_next op cs s.shared).1
  adds op [] e = Local-Inv inv i below (adding op []) (lowering op (offering op)) _ e (record {
    counts = λ o. omega arith;
    takes = λ o. ground arith;
    queues = λ o. omega arith;
    readies = λ o. refl;
    holds = inv.unheld;
    comes_late = λ o. inr (omega arith, refl);
    keeps = λ o c waits. (waits, ground arith);
    empties = inv.emptied;
    fires = λ c. inr (refl, refl);
    mends = omega arith;
    stays = λ z. omega (arith, z);
    keeps_inner = λ z. inv.inner;
  })
  adds op (c ∷ cs) e = by_flag op (adding op (c ∷ cs)) (raising op c cs) e (ground arith) (
      Local-Inv inv i below (adding op (c ∷ cs)) (raising op c cs) _ e (record {
        counts = λ o. omega arith;
        takes = λ o. omega arith;
        queues = λ o. omega arith;
        readies = λ o. refl;
        holds = inv.unheld;
        comes_late = λ o. inr (omega arith, refl);
        keeps = λ o d waits. (waits, refl);
        empties = inv.emptied;
        fires = λ d. inr (refl, refl);
        mends = omega arith;
        stays = λ z. omega (arith, z);
        keeps_inner = λ z. inv.inner;
      }))

  pub raises :
      (op c : ℕ) (cs : List ℕ)
      → s.phase i ≡ raising op c cs
      → Keeps (attaching op c cs) (set_count op ((s.shared.count op + 1) % word) s.shared)
  raises op c cs e = Local-Inv inv i below (raising op c cs) (attaching op c cs) _ e (record {
    counts = λ o. ground (arith, raised o);
    takes = λ o. ground (arith, raised o);
    queues = λ o. omega arith;
    readies = λ o. ground (arith, raised o, positive);
    holds = inv.unheld;
    comes_late = λ o. inr (omega arith, refl);
    keeps = λ o d waits. (waits, refl);
    empties = inv.emptied;
    fires = λ c. inr (refl, refl);
    mends = omega arith;
    stays = λ z. omega (arith, z);
    keeps_inner = λ z. inv.inner;
  })
    where
      positive : 0 < s.shared.count op
      positive = some_count op (raising op c cs) e (ground arith)

      higher : (s.shared.count op + 1) % word ≡ s.shared.count op + 1
      higher = ground (
        arith,
        inv.bounded op,
        inv.fits op,
        weigh inv i below (taking op) (raising op c cs) finished e,
      )

      raised :
          (o : ℕ)
          → update s.shared.count op ((s.shared.count op + 1) % word) o
            ≡ s.shared.count o + (if op == o then 1 else 0)
      raised o = ground (arith, changed op ((s.shared.count op + 1) % word) o, higher)

  pub inside :
      (c : ℕ) (p : Phase) → s.phase i ≡ p → (if ltb c m then 0 else 1) ≤ outside m p → c < m
  inside c p e le = elim (Bool-cases (ltb c m)) [
    | inl lt ↦ ground (arith, lt)
    | inr ge ↦
        absurd (ground (arith, le, ge, inv.within, weigh inv i below (outside m) p finished e))
  ]

  now :
      (op c : ℕ) (cs : List ℕ)
      → s.phase i ≡ attaching op c cs
      → s.shared.triggered c ≡ true
      → Keeps (lowering op (adding op cs)) s.shared
  now op c cs e t =
      Local-Inv inv i below (attaching op c cs) (lowering op (adding op cs)) _ e (record {
        counts = λ o. omega arith;
        takes = λ o. ground arith;
        queues = λ o. omega arith;
        readies = λ o. refl;
        holds = inv.unheld;
        comes_late = λ o. inr (omega arith, refl);
        keeps = λ o d waits. (waits, ground (arith, waits, t));
        empties = inv.emptied;
        fires = λ d. inr (refl, refl);
        mends = omega arith;
        stays = λ z. omega (arith, z);
        keeps_inner = λ z. inv.inner;
      })

  -- An action is attached to an event that has not fired.
  later :
      (op c : ℕ) (cs : List ℕ)
      → s.phase i ≡ attaching op c cs
      → s.shared.triggered c ≡ false
      → Keeps (attach_next false op c cs s.shared).0 (attach_next false op c cs s.shared).1
  later op c cs e f = Local-Inv inv i below (attaching op c cs) (adding op cs) _ e (record {
    counts = λ o. ground (
      arith,
      total-update (occurs o) m s.shared.actions c longer
          (inside c (attaching op c cs) e (omega arith)),
      added o,
    );
    takes = λ o. ground arith;
    queues = λ o. omega arith;
    readies = λ o. refl;
    holds = inv.unheld;
    comes_late = λ o. inr (omega arith, refl);
    keeps = λ o d waits. (
      waits,
      elim (ℕ_discrete d c) [
        | yes same ↦ ground (
          arith,
          ap (occurs o) (update_eq s.shared.actions c longer d same),
          ap (λ x. occurs o (s.shared.actions x)) same,
          added o,
          same,
        )
        | no other ↦
            ground (arith, ap (occurs o) (update_ne s.shared.actions c longer d other), other)
      ],
    );
    empties = λ d t. elim (ℕ_discrete d c) [
      | yes same ↦ absurd (ground (arith, t, ap s.shared.triggered same, f))
      | no other ↦ update_ne s.shared.actions c longer d other ∙ inv.emptied d t
    ];
    fires = λ d. inr (refl, refl);
    mends = omega arith;
    stays = λ z. omega (arith, z);
    keeps_inner = λ z d. elim (ℕ_discrete d c) [
      | yes same ↦
          ap (above m) (update_eq s.shared.actions c longer d same)
          ∙ omega (arith, z, above-append m (s.shared.actions c) op, inv.inner c)
      | no other ↦ ap (above m) (update_ne s.shared.actions c longer d other) ∙ inv.inner d
    ];
  })
    where
      longer : List ℕ
      longer = s.shared.actions c ++ op ∷ []

      added : (o : ℕ) → occurs o longer ≡ occurs o (s.shared.actions c) + (if op == o then 1 else 0)
      added o = omega (arith, occurs-append o (s.shared.actions c) (op ∷ []))

  pub attaches :
      (op c : ℕ) (cs : List ℕ) (b : Bool)
      → s.phase i ≡ attaching op c cs
      → s.shared.triggered c ≡ b
      → Keeps (attach_next b op c cs s.shared).0 (attach_next b op c cs s.shared).1
  attaches op c cs true e t = now op c cs e t
  attaches op c cs false e f = later op c cs e f
