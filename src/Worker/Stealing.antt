-- ===== src/Worker/Stealing.antt =====
-- What may be stolen from a worker's queue.
use darma_simple_backend.Prelude.{
  ltb, arith, ◌≤◌, ℕ, ◌+◌, ◌%◌, ◌≡◌, ◌⊎◌, refl, ap, ◌∙◌, inl, inr, true, false, Option, none, some,
  List, [], ◌∷◌, if◌then◌else◌, Bool-cases,
}
use darma_simple_backend.Machine.Types.{State, ReadyOperation}
use darma_simple_backend.Machine.Monad.{Result, ok, err, signed_overflow, and_then}
use darma_simple_backend.Machine.Counter.{int_max}
use darma_simple_backend.Pending.{Host, is_stealable}
use darma_simple_backend.Worker.{
  set_ready, pop_stealable, steal_from, try_to_steal_work, run_stolen,
}

-- What a thief takes from the queue of the worker `w`: its head, or nothing.
abbrev pub Takes : ℕ → State → Option ReadyOperation → State → Type 0
Takes w s none t =
    (t ≡ s)
    × ((s.ready_tasks w ≡ [])
        ⊎ ((op : ReadyOperation) × (rest : List ReadyOperation) × (s.ready_tasks w ≡ op ∷ rest)
            × (is_stealable op ≡ false)))
Takes w s (some op) t =
    (rest : List ReadyOperation) × (s.ready_tasks w ≡ op ∷ rest)
    × (is_stealable op ≡ true)
    × (t ≡ set_ready w rest s)

-- A theft returns. It takes the oldest operation of the queue if that may be stolen; if it may not, or
-- the queue is empty, nothing changes, whatever stands behind it.
pub pop_stealable-Takes :
    (w : ℕ) (s : State)
    → (op : Option ReadyOperation) × (t : State) × (pop_stealable w s ≡ ok (op, t)) × Takes w s op t
unfolding pop_stealable
pop_stealable-Takes w s = go (s.ready_tasks w) refl
  where
    stolen : List ReadyOperation → Result (Option ReadyOperation × State)
    stolen l = elim l [
      | [] ↦ ok (none, s)
      | op ∷ rest ↦ if is_stealable op then ok (some op, set_ready w rest s) else ok (none, s)
    ]

    go :
        (l : List ReadyOperation)
        → s.ready_tasks w ≡ l
        → (op : Option ReadyOperation) × (t : State) × (pop_stealable w s ≡ ok (op, t))
          × Takes w s op t
    go [] e = (none, s, ap stolen e, (refl, inl e))
    go (op ∷ rest) e = elim (Bool-cases (is_stealable op)) [
      | inl may ↦ (
        some op,
        set_ready w rest s,
        ap stolen e ∙ ap (λ b. if b then ok (some op, set_ready w rest s) else ok (none, s)) may,
        (rest, e, may, refl),
      )
      | inr may_not ↦ (
        none,
        s,
        ap stolen e
            ∙ ap (λ b. if b then ok (some op, set_ready w rest s) else ok (none, s)) may_not,
        (refl, inr (op, rest, e, may_not)),
      )
    ]

-- A thief whose sum does not overflow, and whose victim's queue starts with the end message, or with the join of the workers, finds no
-- work and leaves the state as it is.
pub try_to_steal_work-message :
    (host : Host) (id draw : ℕ) (s : State) (op : ReadyOperation) (rest : List ReadyOperation)
    → draw + id ≤ int_max
    → s.ready_tasks ((draw + id) % s.nthreads) ≡ op ∷ rest
    → is_stealable op ≡ false
    → try_to_steal_work host id draw s ≡ ok (false, s)
unfolding try_to_steal_work steal_from pop_stealable run_stolen
try_to_steal_work-message host id draw s op rest fits e may_not =
    ap (λ b. if b then err signed_overflow else steal_from host (draw + id) s) in_range
    ∙ ap (λ r. and_then r (run_stolen host))
        (ap stolen e
          ∙ ap (λ b. if b then ok (some op, set_ready w rest s) else ok (none, s)) may_not)
  where
    in_range : ltb int_max (draw + id) ≡ false
    in_range = ground (arith, fits)

    w : ℕ
    w = (draw + id) % s.nthreads

    stolen : List ReadyOperation → Result (Option ReadyOperation × State)
    stolen l = elim l [
      | [] ↦ ok (none, s)
      | op ∷ rest ↦ if is_stealable op then ok (some op, set_ready w rest s) else ok (none, s)
    ]
