-- ===== src/Waiting/Kept.antt =====
-- The steps at the events, and every step, keep the invariant.
use darma_simple_backend.Prelude.{
  ℕ, ◌+◌, ◌<◌, ◌≡◌, inl, inr, refl, sym, ap, ◌∙◌, true, List, [], ◌∷◌, occurs, update_eq, update_ne,
  total-update, arith, ℕ_discrete,
}
use darma_simple_backend.Waiting.{
  raising, subtracting, failed, Phase, adding, attaching, lowering, enqueueing, firing, consuming,
  finished, Shared, System, triggering, offering, fire, move, is_active, Step, pick, Run, here,
  next,
}
use darma_simple_backend.Waiting.Invariant.{above, Inv, Local-Inv, put}
use darma_simple_backend.Waiting.Attaching.{inside, adds, raises, attaches}
use darma_simple_backend.Waiting.Readying.{pays, asserts, enqueues, readies_op, offers_op}

module _ {n m : ℕ} {made most fires : ℕ → ℕ} {wants : ℕ → ℕ → ℕ} {s : System}
    (inv : Inv n m made most fires wants s) (i : ℕ) (below : i < n) where
  abbrev Keeps : Phase → Shared → Type 0
  Keeps q f = Inv n m made most fires wants (put inv i below q f)

  fires_event : (c : ℕ) → s.phase i ≡ firing c → Keeps (fire c s.shared).0 (fire c s.shared).1
  fires_event c e = Local-Inv inv i below (firing c) (consuming (s.shared.actions c)) _ e (record {
    counts = λ o. omega (
      arith,
      total-update (occurs o) m s.shared.actions c []
          (inside inv i below c (firing c) e (omega arith)),
    );
    takes = λ o. omega arith;
    queues = λ o. omega arith;
    readies = λ o. refl;
    holds = inv.unheld;
    comes_late = λ o. inr (omega arith, refl);
    keeps = λ o d waits. elim (ℕ_discrete d c) [
      | yes same ↦ absurd (ground (arith, waits, update_eq s.shared.triggered c true d same))
      | no other ↦ (
        sym (update_ne s.shared.triggered c true d other) ∙ waits,
        ap (λ l. 0 + occurs o l) (update_ne s.shared.actions c [] d other),
      )
    ];
    empties = λ d t. elim (ℕ_discrete d c) [
      | yes same ↦ update_eq s.shared.actions c [] d same
      | no other ↦
          update_ne s.shared.actions c [] d other
          ∙ inv.emptied d (sym (update_ne s.shared.triggered c true d other) ∙ t)
    ];
    fires = λ d. elim (ℕ_discrete d c) [
      | yes same ↦ inl (update_eq s.shared.triggered c true d same)
      | no other ↦ inr (ground (arith, other), update_ne s.shared.triggered c true d other)
    ];
    mends = omega arith;
    stays = λ z. inv.inner c;
    keeps_inner = λ z d. elim (ℕ_discrete d c) [
      | yes same ↦ ap (above m) (update_eq s.shared.actions c [] d same)
      | no other ↦ ap (above m) (update_ne s.shared.actions c [] d other) ∙ inv.inner d
    ];
  })

  consumes :
      (l : List ℕ)
      → s.phase i ≡ consuming l
      → Keeps (move (consuming l) s.shared).0 (move (consuming l) s.shared).1
  unfolding move
  consumes [] e = Local-Inv inv i below (consuming []) finished _ e (record {
    counts = λ o. refl;
    takes = λ o. omega arith;
    queues = λ o. omega arith;
    readies = λ o. refl;
    holds = inv.unheld;
    comes_late = λ o. inr (omega arith, refl);
    keeps = λ o d waits. (waits, refl);
    empties = inv.emptied;
    fires = λ d. inr (refl, refl);
    mends = omega arith;
    stays = λ z. omega (arith, z);
    keeps_inner = λ z. inv.inner;
  })
  consumes (op ∷ l) e =
      Local-Inv inv i below (consuming (op ∷ l)) (lowering op (consuming l)) _ e (record {
        counts = λ o. refl;
        takes = λ o. omega arith;
        queues = λ o. omega arith;
        readies = λ o. refl;
        holds = inv.unheld;
        comes_late = λ o. inr (omega arith, refl);
        keeps = λ o d waits. (waits, refl);
        empties = inv.emptied;
        fires = λ d. inr (refl, refl);
        mends = omega arith;
        stays = λ z. omega (arith, z);
        keeps_inner = λ z. inv.inner;
      })

  moved :
      (p : Phase)
      → s.phase i ≡ p
      → is_active p ≡ true
      → Keeps (move p s.shared).0 (move p s.shared).1
  unfolding move
  moved (adding op cs) e can = adds inv i below op cs e
  moved (raising op c cs) e can = raises inv i below op c cs e
  moved (attaching op c cs) e can = attaches inv i below op c cs _ e refl
  moved (lowering op p) e can = asserts inv i below op p e
  moved (subtracting op p) e can = pays inv i below op p _ e refl
  moved (triggering op p) e can = readies_op inv i below op p e
  moved (offering op) e can = offers_op inv i below op _ e refl
  moved (enqueueing op p) e can = enqueues inv i below op p e
  moved (firing c) e can = fires_event c e
  moved (consuming l) e can = consumes l e
  moved failed e can = absurd (ground (arith, can))
  moved finished e can = absurd (ground (arith, can))

Step-Inv :
    {n m : ℕ} {made most fires : ℕ → ℕ} {wants : ℕ → ℕ → ℕ} {s t : System}
    → Inv n m made most fires wants s
    → Step n s t
    → Inv n m made most fires wants t
Step-Inv {s = s} inv (pick i below can) = moved inv i below (s.phase i) refl can

pub Run-Inv :
    {n m : ℕ} {made most fires : ℕ → ℕ} {wants : ℕ → ℕ → ℕ} {s : System} {k : ℕ} {t : System}
    → Inv n m made most fires wants s
    → Run n s k t
    → Inv n m made most fires wants t
Run-Inv inv here = inv
Run-Inv inv (next r st) = Step-Inv (Run-Inv inv r) st
