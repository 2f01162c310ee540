-- ===== src/Waiting/Ends.antt =====
-- The threads come to an end, whatever the schedule, and every operation has then been queued.
use darma_simple_backend.Prelude.{
  zero, suc, ℕ, zero, suc, ◌+◌, ◌≤◌, ◌<◌, ◌≡◌, ◌⊎◌, inl, inr, refl, ap, ◌∙◌, Bool, true, false,
  Bool-cases, List, [], ◌∷◌, ◌++◌, occurs, total, total_zero, total-update, arith, ℕ_discrete,
}
use darma_simple_backend.Waiting.{
  raising, subtracting, failed, enqueueing_all, offer_next, triggering, offering, offering,
  triggering, Phase, adding, attaching, lowering, enqueueing, firing, consuming, finished, Shared,
  System, is_active, move, attach_next, advance, Step, pick, Run, here, next,
}
use darma_simple_backend.Waiting.Invariant.{
  offers, broken, readying, owing, queueing, firing_of, Inv,
}
use darma_simple_backend.Waiting.Attaching.{inside}
use darma_simple_backend.Waiting.Kept.{Run-Inv}
use darma_simple_backend.Waiting.Queued.{IsStart, wants, fires, reached, start-Inv}

abbrev pub AllDone : ℕ → System → Type 0
AllDone n t = (i : ℕ) → i < n → t.phase i ≡ finished

-- Every operation that one thread makes, and whose events all have a thread that fires them, has been
-- queued exactly once.
abbrev pub AllQueued : ℕ → System → System → Type 0
AllQueued n s t =
    (op : ℕ)
    → s.shared.count op ≡ 1
    → ((c : ℕ) → 0 < wants n s op c → 0 < fires n s c)
    → occurs op t.shared.ready ≡ 1

module _ {n m : ℕ} {most : ℕ → ℕ} (s : System) {t : System}
    (inv : Inv n m s.shared.count most (fires n s) (wants n s) t) (done : AllDone n t) where
  none_at : (w : Phase → ℕ) → w finished ≡ 0 → total w n t.phase ≡ 0
  none_at w zero_at = total_zero w n t.phase (λ i lt. ap w (done i lt) ∙ zero_at)

  module _ (op : ℕ) (fired_all : (c : ℕ) → 0 < wants n s op c → 0 < fires n s c) where
    none_waits : (c : ℕ) → occurs op (t.shared.actions c) ≡ 0
    none_waits c = elim (Bool-cases (t.shared.triggered c)) [
      | inl fired ↦ ap (occurs op) (inv.emptied c fired)
      | inr waits ↦ elim (ℕ_discrete (wants n s op c) 0) [
        | yes none_wanted ↦ omega (arith, none_wanted, inv.kept op c waits)
        | no wanted ↦ absurd (
            ground (
              arith,
              waits,
              inv.fired c (fired_all c (omega (arith, wanted))) (none_at (firing_of c) refl),
            ))
      ]
    ]

    is_fired : s.shared.count op ≡ 1 → t.shared.ready_event op ≡ true
    is_fired one = elim (Bool-cases (t.shared.ready_event op)) [
      | inl fired ↦ fired
      | inr unfired ↦ absurd (
          ground (
            arith,
            unfired,
            one,
            inv.one_fires op,
            none_at (readying op) refl,
            inv.balance op,
            none_at (owing op) refl,
            total_zero (occurs op) m t.shared.actions (λ c lt. none_waits c),
          ))
    ]

  done-AllQueued : AllQueued n s t
  done-AllQueued op one fired_all = omega (
    arith,
    one,
    inv.once op,
    none_at (queueing op) refl,
    none_at (offers op) refl,
    inv.unheld op (is_fired op fired_all one),
  )

-- The steps that are still to be made, at most: for the actions of a list, and for a thread.
abbrev actions_cost : List ℕ → ℕ
actions_cost [] = 0
actions_cost (op ∷ l) = 4 + actions_cost l

actions_cost-append : (l : List ℕ) (op : ℕ) → actions_cost (l ++ op ∷ []) ≡ actions_cost l + 4
actions_cost-append [] op = refl
actions_cost-append (o ∷ l) op = omega (arith, actions_cost-append l op)

abbrev adding_cost : List ℕ → ℕ
adding_cost [] = 7
adding_cost (c ∷ cs) = 7 + adding_cost cs

abbrev cost : Phase → ℕ
cost (adding op cs) = adding_cost cs
cost (raising op c cs) = 6 + adding_cost cs
cost (attaching op c cs) = 5 + adding_cost cs
cost (lowering op p) = 3 + cost p
cost (subtracting op p) = 2 + cost p
cost (triggering op p) = 1 + cost p
cost (enqueueing op p) = 1 + cost p
cost (offering op) = 3
cost (firing c) = 2
cost (consuming l) = 1 + actions_cost l
cost failed = 0
cost finished = 0

enqueueing_all-cost : (op k : ℕ) (p : Phase) → cost (enqueueing_all k op p) ≡ k + cost p
unfolding enqueueing_all
enqueueing_all-cost op zero p = omega arith
enqueueing_all-cost op (suc k) p = omega (arith, enqueueing_all-cost op k p)

abbrev stored : ℕ → Shared → ℕ
stored m e = total actions_cost m e.actions + total (λ k. k) m e.held

abbrev pub measure : ℕ → ℕ → System → ℕ
measure n m s = total cost n s.phase + stored m s.shared

module _ {n m : ℕ} {made most fires : ℕ → ℕ} {wants : ℕ → ℕ → ℕ} {s : System}
    (inv : Inv n m made most fires wants s) (i : ℕ) (below : i < n) where
  abbrev IsCheaper : Phase → Phase → Shared → Type 0
  IsCheaper p q f = cost q + stored m f < cost p + stored m s.shared

  offer-IsCheaper :
      (op : ℕ) (b : Bool)
      → s.phase i ≡ offering op
      → IsCheaper (offering op) (offer_next b op s.shared).0 (offer_next b op s.shared).1
  offer-IsCheaper op true e = omega arith
  offer-IsCheaper op false e = omega (
    arith,
    total-update (λ k. k) m s.shared.held op (s.shared.held op + 1)
        (inside inv i below op (offering op) e (omega arith)),
  )

  attach-IsCheaper :
      (op c : ℕ) (cs : List ℕ) (b : Bool)
      → s.phase i ≡ attaching op c cs
      → IsCheaper
          (attaching op c cs)
          (attach_next b op c cs s.shared).0
          (attach_next b op c cs s.shared).1
  attach-IsCheaper op c cs true e = omega arith
  attach-IsCheaper op c cs false e = omega (
    arith,
    total-update actions_cost m s.shared.actions c (s.shared.actions c ++ op ∷ [])
        (inside inv i below c (attaching op c cs) e (omega arith)),
    actions_cost-append (s.shared.actions c) op,
  )

  move-IsCheaper :
      (p : Phase)
      → s.phase i ≡ p
      → is_active p ≡ true
      → IsCheaper p (move p s.shared).0 (move p s.shared).1
  unfolding move
  move-IsCheaper (adding op []) e can = omega arith
  move-IsCheaper (adding op (c ∷ cs)) e can = ground arith
  move-IsCheaper (raising op c cs) e can = omega arith
  move-IsCheaper (attaching op c cs) e can = attach-IsCheaper op c cs _ e
  move-IsCheaper (lowering op p) e can = ground arith
  move-IsCheaper (subtracting op p) e can = ground arith
  move-IsCheaper (triggering op p) e can = omega (
    arith,
    enqueueing_all-cost op (s.shared.held op) p,
    total-update (λ k. k) m s.shared.held op 0
        (inside inv i below op (triggering op p) e (omega arith)),
  )
  move-IsCheaper (offering op) e can = offer-IsCheaper op _ e
  move-IsCheaper (enqueueing op p) e can = omega arith
  move-IsCheaper (firing c) e can = omega (
    arith,
    total-update actions_cost m s.shared.actions c []
        (inside inv i below c (firing c) e (omega arith)),
  )
  move-IsCheaper (consuming []) e can = omega arith
  move-IsCheaper (consuming (op ∷ l)) e can = omega arith
  move-IsCheaper failed e can = absurd (ground (arith, can))
  move-IsCheaper finished e can = absurd (ground (arith, can))

Step-measure :
    {n m : ℕ} {made most fires : ℕ → ℕ} {wants : ℕ → ℕ → ℕ} {s t : System}
    → Inv n m made most fires wants s
    → Step n s t
    → measure n m t < measure n m s
Step-measure {n} {s = s} inv (pick i below can) = omega (
  arith,
  move-IsCheaper inv i below (s.phase i) refl can,
  total-update cost n s.phase i (move (s.phase i) s.shared).0 below,
)

Run-measure :
    {n m : ℕ} {made most fires : ℕ → ℕ} {wants : ℕ → ℕ → ℕ} {s : System} {k : ℕ} {t : System}
    → Inv n m made most fires wants s
    → Run n s k t
    → k + measure n m t ≤ measure n m s
Run-measure inv here = omega arith
Run-measure inv (next r st) = omega (arith, Run-measure inv r, Step-measure (Run-Inv inv r) st)

active_is : (p : Phase) → broken p ≡ 0 → (is_active p ≡ true) ⊎ (p ≡ finished)
active_is finished e = inr refl
active_is failed e = absurd (omega (arith, e))
active_is p e = inl refl

-- A thread that can move, or none, where no assertion has failed.
some_active :
    (n : ℕ) (s : System)
    → total broken n s.phase ≡ 0
    → ((i : ℕ) × (i < n) × (is_active (s.phase i) ≡ true)) ⊎ AllDone n s
unfolding total
some_active zero s sound = inr (λ i lt. absurd (omega (arith, lt)))
some_active (suc n) s sound = elim (active_is (s.phase n) (omega (arith, sound))) [
  | inl moves ↦ inl (n, omega arith, moves)
  | inr rests ↦ elim (some_active n s (omega (arith, sound))) [
    | inl (i, lt, moves) ↦ inl (i, omega (arith, lt), moves)
    | inr all ↦ inr (λ i lt. elim (ℕ_discrete i n) [
      | yes e ↦ ap s.phase e ∙ rests
      | no ne ↦ all i (omega (arith, lt, ne))
    ])
  ]
]

finishes :
    {n m : ℕ} {made most fires : ℕ → ℕ} {wants : ℕ → ℕ → ℕ} {s : System}
    → Inv n m made most fires wants s
    → (f : ℕ) {k : ℕ} (t : System) → Run n s k t
    → measure n m t ≤ f
    → (l : ℕ) × (u : System) × Run n s l u × AllDone n u
finishes {n} inv zero t r le = elim (some_active n t (Run-Inv inv r).unbroken) [
  | inr all ↦ (_, t, r, all)
  | inl (i, lt, moves) ↦ absurd (omega (arith, Step-measure (Run-Inv inv r) (pick i lt moves)))
]
finishes {n} inv (suc f) t r le = elim (some_active n t (Run-Inv inv r).unbroken) [
  | inr all ↦ (_, t, r, all)
  | inl (i, lt, moves) ↦
      finishes inv f (advance i t) (next r (pick i lt moves))
        (omega (arith, Step-measure (Run-Inv inv r) (pick i lt moves)))
]

-- From operations and events as they are made, no execution is longer than the measure of its start, on
-- any schedule; and from whatever state it has reached, the threads can go on until every thread is done,
-- so that no assertion has failed, and every operation that one thread makes, and whose events all have
-- a thread that fires them, has been queued exactly once.
pub Run-AllQueued :
    {n m : ℕ} {s : System} {k : ℕ} {t : System}
    → IsStart n m s
    → Run n s k t
    → (k ≤ measure n m s) × (l : ℕ) × (u : System) × Run n t l u × AllDone n u × AllQueued n s u
Run-AllQueued {n} {m} {s} {k} {t} start r =
    let inv = reached start r in
    let (l, u, run, done) = finishes inv (measure n m t) t here (omega arith) in
    (
      omega (arith, Run-measure (start-Inv n m s start) r),
      l,
      u,
      run,
      done,
      done-AllQueued s (Run-Inv inv run) done,
    )
