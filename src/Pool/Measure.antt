-- ===== src/Pool/Measure.antt =====
-- The work of an execution is bounded: a step of work lowers the measure, and no step raises it.
use darma_simple_backend.Prelude.{
  ℕ, ◌+◌, ◌≤◌, ◌<◌, ◌≡◌, refl, sym, ap, subst, ◌∙◌, Bool, true, false, update, update_ne, total,
  total-update, if◌then◌else◌, ltb, arith,
}
use darma_simple_backend.Pool.{
  Phase, unspawned, starting, spawning, System, advance_from, move, can_move, Step, pick, Run, here,
  next, work,
}
use darma_simple_backend.Pool.Weights.{leading, next_born}
use darma_simple_backend.Pool.Invariant.{Inv, waits}
use darma_simple_backend.Pool.Spawning.{is_unspawned}
use darma_simple_backend.Pool.Kept.{Run-Inv, only_main}
use darma_simple_backend.Pool.Cost.{cost, measure, settled_measure}

module _ {n all : ℕ} {most : (ℕ → ℕ) → ℕ} {s : System} (inv : Inv n all most s) where
  spawn_measure :
      (k : ℕ) (more : Bool)
      → s.phase 0 ≡ spawning k
      → ltb (k + 1) n ≡ more
      → total (cost n) n (
            update
              (if more then update s.phase (k + 1) starting else s.phase)
              0
              (if more then spawning (k + 1) else starting))
          + 1
        ≤ total (cost n) n s.phase
  spawn_measure k true e lt = omega (
    arith,
    below,
    total-update (cost n) n (update s.phase (k + 1) starting) 0 (spawning (k + 1)) inv.some_workers,
    total-update (cost n) n s.phase (k + 1) starting below,
    ap (cost n) (update_ne s.phase (k + 1) starting 0 (λ at. omega (arith, at)) ∙ e),
    ap (cost n) was,
  )
    where
      below : k + 1 < n
      below = ground (arith, lt)

      was : s.phase (k + 1) ≡ unspawned
      was = is_unspawned (s.phase (k + 1)) (
          inv.born (k + 1) (omega arith) below
          ∙ ap (λ p. waits (next_born p) (k + 1)) e
          ∙ ground arith)
  spawn_measure k false e ge =
      omega (arith, total-update (cost n) n s.phase 0 starting inv.some_workers, ap (cost n) e)

  pub moved_measure :
      (i draw : ℕ) (p : Phase)
      → i < n
      → can_move n p s.phase ≡ true
      → s.phase i ≡ p
      → measure n (advance_from n p i draw s) + work p (move n i draw p s.shared).0 ≤ measure n s
  unfolding move
  moved_measure i draw (spawning k) lt can e =
      let first = only_main inv i lt (omega (arith, ap leading e)) in
      subst (λ j. measure n (advance_from n (spawning k) j draw s) + 1 ≤ measure n s) (sym first)
        (omega (arith, spawn_measure k (ltb (k + 1) n) (ap s.phase (sym first) ∙ e) refl))
  moved_measure i draw unspawned lt can e = settled_measure n s i draw unspawned lt can refl refl e
  moved_measure i draw p lt can e = settled_measure n s i draw p lt can refl refl e

Step-measure :
    {n all d : ℕ} {most : (ℕ → ℕ) → ℕ} {s t : System}
    → Inv n all most s
    → Step n s d t
    → measure n t + d ≤ measure n s
Step-measure {s = s} inv (pick i draw lt fits can) =
    moved_measure inv i draw (s.phase i) lt can refl

-- The work of an execution is at most the measure of the state where it starts.
pub Run-measure :
    {n all : ℕ} {most : (ℕ → ℕ) → ℕ} {s : System} {k : ℕ} {t : System}
    → Inv n all most s
    → Run n s k t
    → k + measure n t ≤ measure n s
Run-measure inv here = omega arith
Run-measure inv (next r st) = omega (arith, Run-measure inv r, Step-measure (Run-Inv inv r) st)
