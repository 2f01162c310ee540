-- ===== src/Pool/Ends.antt =====
-- No worker ends early, and each execution goes on to the end of all of them.
use native.Mathlib.Nat.{mod-eq_of_lt}
use darma_simple_backend.Prelude.{
  ℕ, zero, suc, ◌+◌, ◌%◌, ◌≤◌, ◌<◌, ◌≡◌, refl, sym, ap, subst, ◌∙◌, true, false, List, ◌∷◌, update,
  update_eq, arith, inl, inr,
}
use darma_simple_backend.Machine.Counter.{word, int_max}
use darma_simple_backend.Pool.{
  Body, Operation, run_task, all_tasks_done, Phase, popping, stealing, ended, Shared, System,
  advance, advance_from, move, can_move, searches, work, pop_locked, steal_locked, victim, Step,
  pick, Run, here, next, launch,
}
use darma_simple_backend.Pool.Weights.{counts, told}
use darma_simple_backend.Pool.Invariant.{Inv}
use darma_simple_backend.Pool.Kept.{Run-Inv, launch-Inv}
use darma_simple_backend.Pool.Cost.{measure}
use darma_simple_backend.Pool.Measure.{moved_measure, Run-measure}
use darma_simple_backend.Pool.Progress.{Works, AllEnded, active_or_ended}
use darma_simple_backend.Pool.Outcome.{
  Safe, AllRun, AllQuiet, all_worth, Inv-Safe, fired-AllRun, told_fired, ended-AllQuiet,
}

-- A step that lowers the measure.
abbrev Onward : ℕ → System → Type 0
Onward n t = (u : System) × (d : ℕ) × Step n t d u × (measure n u + 1 ≤ measure n t)

unsearched : (p q : Phase) → searches p ≡ false → work p q ≡ 1
unsearched p q e = ground (arith, e)

module _ {n all : ℕ} {most : (ℕ → ℕ) → ℕ} {s : System} (inv : Inv n all most s) where
  -- The sum of no theft need overflow: the generator may draw 0.
  some_draw : (i : ℕ) → i < n → 0 + i ≤ int_max
  some_draw i lt = omega (arith, lt, inv.few)

  moves_on :
      (i draw : ℕ) (p : Phase)
      → i < n
      → draw + i ≤ int_max
      → s.phase i ≡ p
      → can_move n p s.phase ≡ true
      → work p (move n i draw p s.shared).0 ≡ 1
      → Onward n s
  moves_on i draw p lt fits e can works = (
    advance n i draw s,
    _,
    pick i draw lt fits (subst (λ q. can_move n q s.phase ≡ true) (sym e) can),
    subst (λ q. measure n (advance_from n q i draw s) + 1 ≤ measure n s) (sym e)
        (omega (arith, works, moved_measure inv i draw p lt can e)),
  )

  pops_on :
      (i : ℕ) (op : Operation) (rest : List Operation)
      → i < n
      → s.phase i ≡ popping
      → s.shared.ready_tasks i ≡ op ∷ rest
      → Onward n s
  unfolding move
  pops_on i op rest lt e holds =
      moves_on i 0 popping lt (some_draw i lt) e refl
        (ap (λ l. work popping (pop_locked i s.shared l).0) holds)

  abbrev robbed : ℕ → Phase × Shared
  robbed w = steal_locked w s.shared (s.shared.ready_tasks w)

  own_queue :
      (i : ℕ) (op : Operation) (rest : List Operation)
      → i < n
      → s.shared.ready_tasks i ≡ op ∷ rest
      → robbed (victim n i 0) ≡ steal_locked i s.shared (op ∷ rest)
  own_queue i op rest lt holds = ap robbed itself ∙ ap (steal_locked i s.shared) holds
    where
      drawn : 0 + i ≡ i
      drawn = omega arith

      itself : victim n i 0 ≡ i
      itself = ap (λ m. m % n) drawn ∙ mod-eq_of_lt lt

  steals_on :
      (i a : ℕ) (b : Body) (rest : List Operation)
      → i < n
      → s.phase i ≡ stealing
      → s.shared.ready_tasks i ≡ run_task a b ∷ rest
      → Onward n s
  unfolding move
  steals_on i a b rest lt e holds =
      moves_on i 0 stealing lt (some_draw i lt) e refl
        (ap (λ q. work stealing q.0) (own_queue i (run_task a b) rest lt holds))

  -- A thief that draws its own queue, where the end message is, goes back to its own queue.
  abbrev seeking_again : ℕ → System
  seeking_again i = record { shared = s.shared; phase = update s.phase i popping }

  returns_on :
      (i : ℕ) (rest : List Operation)
      → i < n
      → s.phase i ≡ stealing
      → s.shared.ready_tasks i ≡ all_tasks_done ∷ rest
      → (d : ℕ) × Step n s d (seeking_again i) × (measure n (seeking_again i) ≤ measure n s)
  unfolding move
  returns_on i rest lt e holds = (
    _,
    subst (Step n s _) (ap (λ p. advance_from n p i 0 s) e ∙ back)
        (pick i 0 lt (some_draw i lt) (subst (λ q. can_move n q s.phase ≡ true) (sym e) refl)),
    subst (λ t. measure n t ≤ measure n s) back
        (omega (arith, moved_measure inv i 0 stealing lt refl e)),
  )
    where
      after : Phase × Shared → System
      after q = record { shared = q.1; phase = update s.phase i q.0 }

      back : advance_from n stealing i 0 s ≡ seeking_again i
      back = ap after (own_queue i all_tasks_done rest lt holds)

module _ {n all : ℕ} {most : (ℕ → ℕ) → ℕ} {o : System} (inv : Inv n all most o) where
  -- An execution that goes on to a state with less left to do.
  abbrev Goes : System → Type 0
  Goes s = (m : ℕ) × (u : System) × Run n o m u × (measure n u + 1 ≤ measure n s)

  by_step : {k : ℕ} {s : System} → Run n o k s → Onward n s → Goes s
  by_step r (u, d, st, lower) = (_, u, next r st, lower)

  seeks_on :
      {k : ℕ} (s : System) (i : ℕ) (op : Operation) (rest : List Operation) (p : Phase)
      → Run n o k s
      → i < n
      → s.phase i ≡ p
      → searches p ≡ true
      → s.shared.ready_tasks i ≡ op ∷ rest
      → Goes s
  seeks_on s i op rest popping r lt e seeks holds =
      by_step r (pops_on (Run-Inv inv r) i op rest lt e holds)
  seeks_on s i (run_task a b) rest stealing r lt e seeks holds =
      by_step r (steals_on (Run-Inv inv r) i a b rest lt e holds)
  seeks_on s i all_tasks_done rest stealing r lt e seeks holds =
      let (d, st, no_more) = returns_on (Run-Inv inv r) i rest lt e holds in
      let back = next r st in
      let (m, u, run, lower) = by_step back (
        pops_on (Run-Inv inv back) i all_tasks_done rest lt (update_eq s.phase i popping i refl)
          holds) in
      (m, u, run, omega (arith, lower, no_more))
  seeks_on s i op rest p r lt e seeks holds = absurd (ground (arith, seeks))

  advances : {k : ℕ} (s : System) (i : ℕ) → Run n o k s → Works n s i → Goes s
  advances s i r (lt, inl (can, moves)) = by_step r (
      moves_on (Run-Inv inv r) i 0 (s.phase i) lt (some_draw (Run-Inv inv r) i lt) refl can
        (unsearched _ _ moves))
  advances s i r (lt, inr (op, rest, seeks, holds)) =
      seeks_on s i op rest (s.phase i) r lt refl seeks holds

  finishes :
      (f : ℕ) {k : ℕ} (s : System)
      → Run n o k s
      → measure n s ≤ f
      → (m : ℕ) × (u : System) × Run n o m u × AllEnded n u
  finishes zero s r le = elim (active_or_ended (Run-Inv inv r)) [
    | inr ends ↦ (_, s, r, ends)
    | inl (i, works) ↦
        let (m, u, run, lower) = advances s i r works in absurd (omega (arith, lower))
  ]
  finishes (suc f) s r le = elim (active_or_ended (Run-Inv inv r)) [
    | inr ends ↦ (_, s, r, ends)
    | inl (i, works) ↦
        let (m, u, run, lower) = advances s i r works in finishes f u run (omega (arith, lower))
  ]

module _ (n top : ℕ) (b : Body) (some_workers : 0 < n) (few : n ≤ int_max)
    (fit : counts b + 1 < word) {k : ℕ} {t : System} (r : Run n (launch top b) k t) where
  reached : Inv n (counts b + 1) (all_worth top b) t
  reached = Run-Inv (launch-Inv n top b some_workers few fit) r

  -- In every execution of at least one worker, with no more workers than an `int` counts and fewer tasks
  -- than a machine word counts, in which the sum of no theft overflows: no assertion of the shutdown
  -- counter fails, as it is raised or lowered, no task is run more often than it was registered, and
  -- there are no more dormant workers than workers.
  pub Run-Safe : Safe n top b t
  Run-Safe = Inv-Safe top b reached

  -- No worker ends early: when the thread of any worker has ended, in an execution of at least one
  -- worker, with no more workers than an `int` counts and fewer tasks than a machine word counts, in
  -- which the sum of no theft overflows, the shutdown counter has fired, every task has been run exactly
  -- as often as it was registered, and none is still running.
  pub Run-AllRun : (i : ℕ) → i < n → t.phase i ≡ ended → AllRun n top b t
  Run-AllRun i lt e = fired-AllRun top b reached (told_fired top b reached i lt (ap told e))

  -- An execution of at least one worker, with no more workers than an `int` counts and fewer tasks than
  -- a machine word counts, in which the sum of no theft overflows, does as much work as the measure of
  -- its start at most; and from whatever state it has reached, the threads can go on to one in which
  -- the thread of every worker has ended: no state is a dead end. There every task has been run exactly
  -- as often as it was registered, every queue is empty, and the number of the dormant workers is that
  -- of the workers.
  pub Run-ends :
      (k ≤ measure n (launch top b))
      × (m : ℕ) × (u : System) × Run n t m u
      × AllEnded n u
      × AllRun n top b u
      × AllQuiet n u
  Run-ends =
      let start = launch-Inv n top b some_workers few fit in
      let (m, u, run, ends) = finishes reached (measure n t) t here (omega arith) in
      let inv = Run-Inv reached run in
      (
        omega (arith, Run-measure start r),
        m,
        u,
        run,
        ends,
        fired-AllRun top b inv
            (told_fired top b inv 0 some_workers (ap told (ends 0 some_workers))),
        ended-AllQuiet top b inv ends,
      )
