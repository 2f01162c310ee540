-- ===== src/Pool/Progress.antt =====
-- As long as a worker's thread has not ended, some thread can do work.
use darma_simple_backend.Prelude.{
  ℕ, zero, suc, ◌+◌, ◌≤◌, ◌<◌, ◌≡◌, ◌≢◌, ◌⊎◌, refl, sym, ap, subst, ◌∙◌, true, false, List, [], ◌∷◌,
  total, total_zero, total_at, if◌then◌else◌, arith, ℕ_discrete, Bool-cases, inl, inr,
}
use darma_simple_backend.Pool.{
  Operation, Phase, unspawned, popping, stealing, ended, failed, spawning, joining, System,
  can_move, is_ended, searches,
}
use darma_simple_backend.Pool.Weights.{
  weight, owing, owing_op, firing, broken, told, telling, leading, unborn, next_born, message,
}
use darma_simple_backend.Pool.Invariant.{Inv, fired}

-- Where a thread stands that can do no work: it searches, and its queue is empty; or it has ended; or it
-- waits for the end of another.
abbrev Rests : ℕ → System → ℕ → Type 0
Rests n s i =
    ((searches (s.phase i) ≡ true) × (s.shared.ready_tasks i ≡ []))
    ⊎ (s.phase i ≡ ended)
    ⊎ ((k : ℕ) × (s.phase i ≡ joining k) × (k + 1 < n) × (is_ended (s.phase (k + 1)) ≡ false))

-- A thread that can do work: it can take a step that is no search, or its queue is not empty.
abbrev pub Works : ℕ → System → ℕ → Type 0
Works n s i =
    (i < n)
    × ((can_move n (s.phase i) s.phase ≡ true) × (searches (s.phase i) ≡ false)
        ⊎ ((op : Operation) × (rest : List Operation) × (searches (s.phase i) ≡ true)
            × (s.shared.ready_tasks i ≡ op ∷ rest)))

abbrev pub AllEnded : ℕ → System → Type 0
AllEnded n s = (i : ℕ) → i < n → s.phase i ≡ ended

spawner_moves :
    (n : ℕ) (p : Phase) (f : ℕ → Phase)
    → 0 < next_born p
    → (can_move n p f ≡ true) × (searches p ≡ false)
spawner_moves n (spawning k) f positive = (refl, refl)
spawner_moves n p f positive = absurd (omega (arith, positive))

search_is :
    {c : ℕ} (w : Phase → ℕ)
    → w popping ≡ c
    → w stealing ≡ c
    → (p : Phase) → searches p ≡ true
    → w p ≡ c
search_is w at_pop at_steal popping e = at_pop
search_is w at_pop at_steal stealing e = at_steal
search_is w at_pop at_steal p e = absurd (ground (arith, e))

ended_is : (p : Phase) → is_ended p ≡ false → p ≢ ended
ended_is ended e same = absurd (ground (arith, e))
ended_is p e same = absurd (ground (arith, e, ap is_ended same))

module _ {n all : ℕ} {most : (ℕ → ℕ) → ℕ} {s : System} (inv : Inv n all most s) where
  -- A phase in which a thread cannot move.
  stuck :
      (i : ℕ) (p : Phase)
      → i < n
      → s.phase i ≡ p
      → can_move n p s.phase ≡ false
      → Works n s 0 ⊎ Rests n s i
  stuck i unspawned below e cannot = elim (ℕ_discrete i 0) [
    | yes first ↦
        absurd (omega (arith, inv.main, ap (λ j. unborn (s.phase j)) (sym first), ap unborn e))
    | no other ↦ inl (
      inv.some_workers,
      inl (
          spawner_moves n (s.phase 0) s.phase
            (ground (arith, inv.born i (omega (arith, other)) below, ap unborn e))),
    )
  ]
  stuck i failed below e cannot =
      absurd (omega (arith, inv.unbroken, total_at broken n s.phase i below, ap broken e))
  stuck i ended below e cannot = inr (inr (inl e))
  stuck i (joining k) below e cannot =
      inr (inr (inr (k, e, ground (arith, cannot), ground (arith, cannot))))
  stuck i p below e cannot = absurd (ground (arith, cannot))

  seeking :
      (i : ℕ) (l : List Operation)
      → i < n
      → searches (s.phase i) ≡ true
      → s.shared.ready_tasks i ≡ l
      → Works n s i ⊎ Rests n s i
  seeking i [] below seeks holds = inr (inl (seeks, holds))
  seeking i (op ∷ rest) below seeks holds = inl (below, inr (op, rest, seeks, holds))

  cases_at : (i : ℕ) → i < n → ((j : ℕ) × Works n s j) ⊎ Rests n s i
  cases_at i below = elim (Bool-cases (searches (s.phase i))) [
    | inl seeks ↦ elim (seeking i _ below seeks refl) [
      | inl works ↦ inl (i, works)
      | inr rests ↦ inr rests
    ]
    | inr moves ↦ elim (Bool-cases (can_move n (s.phase i) s.phase)) [
      | inl can ↦ inl (i, (below, inl (can, moves)))
      | inr cannot ↦ elim (stuck i (s.phase i) below refl cannot) [
        | inl works ↦ inl (0, works)
        | inr rests ↦ inr rests
      ]
    ]
  ]

  search_below : (m : ℕ) → m ≤ n → ((j : ℕ) × Works n s j) ⊎ ((i : ℕ) → i < m → Rests n s i)
  search_below zero le = inr (λ i lt. absurd (omega (arith, lt)))
  search_below (suc m) le = elim (cases_at m (omega (arith, le))) [
    | inl works ↦ inl works
    | inr rests ↦ elim (search_below m (omega (arith, le))) [
      | inl works ↦ inl works
      | inr all_rest ↦ inr (λ i lt. elim (ℕ_discrete i m) [
        | yes e ↦ subst (Rests n s) (sym e) rests
        | no ne ↦ all_rest i (omega (arith, lt, ne))
      ])
    ]
  ]

  quiet :
      (w : Phase → ℕ)
      → w popping ≡ 0
      → w stealing ≡ 0
      → w ended ≡ 0
      → ((k : ℕ) → w (joining k) ≡ 0)
      → ((i : ℕ) → i < n → Rests n s i)
      → total w n s.phase ≡ 0
  quiet w at_pop at_steal at_end at_join rests = total_zero w n s.phase λ i lt. go i (rests i lt)
    where
      go : (i : ℕ) → Rests n s i → w (s.phase i) ≡ 0
      go i (inl (seeks, holds)) = search_is w at_pop at_steal (s.phase i) seeks
      go i (inr (inl e)) = ap w e ∙ at_end
      go i (inr (inr (k, e, _, _))) = ap w e ∙ at_join k

  module _ (rests : (i : ℕ) → i < n → Rests n s i) where
    none_tells : (w : ℕ) → total (telling w) n s.phase ≡ 0
    none_tells w = quiet (telling w) refl refl refl (λ k. refl) rests

    -- The counter has fired: else the threads all search in empty queues, and nobody owes its count.
    has_fired : fired s.shared ≡ 1
    unfolding weight
    has_fired = elim (Bool-cases s.shared.triggered) [
      | inl t ↦ ap (λ b. if b then 1 else 0) t
      | inr f ↦ absurd (
          ground (
            arith,
            f,
            inv.one_fires,
            inv.balance,
            quiet owing refl refl refl (λ k. refl) rests,
            quiet firing refl refl refl (λ k. refl) rests,
            total_zero (weight owing_op) n s.shared.ready_tasks
                (λ i lt. emptied f i lt (rests i lt)),
          ))
    ]
      where
        emptied :
            s.shared.triggered ≡ false
            → (i : ℕ) → i < n
            → Rests n s i
            → weight owing_op (s.shared.ready_tasks i) ≡ 0
        emptied f i lt (inl (seeks, holds)) = ap (weight owing_op) holds
        emptied f i lt (inr (inl e)) = absurd (ground (arith, f, inv.messages i lt, ap told e))
        emptied f i lt (inr (inr (k, e, _, _))) =
            absurd (ground (arith, f, inv.messages i lt, ap told e))

    not_seeking :
        (i : ℕ)
        → i < n
        → searches (s.phase i) ≡ true
        → s.shared.ready_tasks i ≡ []
        → s.phase i ≡ ended
    unfolding weight
    not_seeking i lt seeks holds = absurd (
        omega (
          arith,
          has_fired,
          inv.messages i lt,
          none_tells i,
          ap (weight message) holds,
          search_is told refl refl (s.phase i) seeks,
        ))

    not_joining : (i k : ℕ) → i < n → s.phase i ≡ joining k → i ≡ 0
    not_joining i k lt e = elim (ℕ_discrete i 0) [
      | yes first ↦ first
      | no other ↦ absurd (omega (arith, inv.led i (omega (arith, other)) lt, ap leading e))
    ]

    rest_ended : AllEnded n s
    rest_ended i lt = go i lt (rests i lt)
      where
        other : (k : ℕ) → k + 1 < n → Rests n s (k + 1) → s.phase (k + 1) ≡ ended
        other k below (inl (seeks, holds)) = not_seeking (k + 1) below seeks holds
        other k below (inr (inl e)) = e
        other k below (inr (inr (j, e, _, _))) =
            absurd (omega (arith, not_joining (k + 1) j below e))

        go : (j : ℕ) → j < n → Rests n s j → s.phase j ≡ ended
        go j below (inl (seeks, holds)) = not_seeking j below seeks holds
        go j below (inr (inl e)) = e
        go j below (inr (inr (k, e, less, waits_for))) =
            absurd (ended_is (s.phase (k + 1)) waits_for (other k less (rests (k + 1) less)))

  pub active_or_ended : ((i : ℕ) × Works n s i) ⊎ AllEnded n s
  active_or_ended = elim (search_below n (omega arith)) [
    | inl works ↦ inl works
    | inr rests ↦ inr (rest_ended rests)
  ]
