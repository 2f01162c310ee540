-- ===== src/Debug/Stops.antt =====
-- The debug worker stops once the null pointer has been enqueued.
use mathlib.Core.List.{append-nil, append_assoc}
use darma_simple_backend.Prelude.{
  ℕ, zero, suc, ◌+◌, ◌≤◌, ◌≡◌, ◌⊎◌, inl, inr, refl, sym, ap, subst, ◌∙◌, Bool, true, false, Option,
  none, some, List, [], ◌∷◌, ◌++◌, map, length, arith,
}
use darma_simple_backend.ConcurrentDeque.{get_and_pop_front}
use darma_simple_backend.Debug.Worker.{
  Callable, Stage, popping, draining, finishing, stopped, DebugWorker, take_action, take_empty,
  work_from, Event, works, happens, happen, spawned, from_actions, from_empty_queue,
}
use darma_simple_backend.Debug.Log.{picks, offered, signalled, done}
use darma_simple_backend.Debug.Recorded.{taken, Recorded, happen-Recorded, worked}

abbrev pub ends_with_null : List (Option Callable) → Bool
ends_with_null [] = false
ends_with_null (none ∷ l) = true
ends_with_null (some c ∷ l) = ends_with_null l

-- The accesses to the queues that the worker makes at most until it stops.
abbrev left_at : Stage → DebugWorker → ℕ
left_at popping w = length w.actions + length w.empty_queue_actions + 2
left_at draining w = length w.actions + length w.empty_queue_actions + 3
left_at finishing w = length w.empty_queue_actions + 1
left_at stopped w = 0

-- The worker will come to the null pointer, or has taken it.
abbrev WillStop : Stage → DebugWorker → Type 0
WillStop popping w = ends_with_null w.actions ≡ true
WillStop draining w = ends_with_null w.actions ≡ true
WillStop finishing w = Unit
WillStop stopped w = w.empty_queue_actions ≡ []

-- One access: the worker still stops, and is nearer to it.
abbrev IsNearer : Stage → DebugWorker → DebugWorker → Type 0
IsNearer g w v = WillStop v.stage v × (left_at v.stage v + 1 ≤ left_at g w)

module _ (w : DebugWorker) where
  pops :
      (l : List (Option Callable))
      → w.stage ≡ popping
      → ends_with_null l ≡ true
      → w.actions ≡ l
      → IsNearer popping w (take_action (get_and_pop_front l) w)
  unfolding get_and_pop_front
  pops [] at will holds = absurd (ground (arith, will))
  pops (none ∷ l) at will holds = (tt, omega (arith, ap length holds))
  pops (some c ∷ l) at will holds =
      subst (λ g. WillStop g popped × (left_at g popped + 1 ≤ left_at popping w)) (sym at)
        (will, omega (arith, ap length holds))
    where
      popped : DebugWorker
      popped = take_action (some (some c), l) w

  drains :
      (l : List Callable)
      → w.stage ≡ draining
      → ends_with_null w.actions ≡ true
      → w.empty_queue_actions ≡ l
      → IsNearer draining w (take_empty popping (get_and_pop_front l) w)
  unfolding get_and_pop_front
  drains [] at will holds = (will, omega (arith, ap length holds))
  drains (c ∷ l) at will holds =
      subst (λ g. WillStop g popped × (left_at g popped + 1 ≤ left_at draining w)) (sym at)
        (will, omega (arith, ap length holds))
    where
      popped : DebugWorker
      popped = take_empty popping (some c, l) w

  finishes :
      (l : List Callable)
      → w.stage ≡ finishing
      → w.empty_queue_actions ≡ l
      → IsNearer finishing w (take_empty stopped (get_and_pop_front l) w)
  unfolding get_and_pop_front
  finishes [] at holds = (holds, omega (arith, ap length holds))
  finishes (c ∷ l) at holds =
      subst (λ g. WillStop g popped × (left_at g popped + 1 ≤ left_at finishing w)) (sym at)
        (tt, omega (arith, ap length holds))
    where
      popped : DebugWorker
      popped = take_empty stopped (some c, l) w

  nearer : (g : Stage) → w.stage ≡ g → WillStop g w → IsNearer g w (work_from g w) ⊎ (g ≡ stopped)
  unfolding work_from
  nearer popping at will = inl (pops w.actions at will refl)
  nearer draining at will = inl (drains w.empty_queue_actions at will refl)
  nearer finishing at will = inl (finishes w.empty_queue_actions at refl)
  nearer stopped at will = inr refl

-- The worker goes on by itself, `n` times.
abbrev pub alone : ℕ → List Event
alone zero = []
alone (suc n) = works ∷ alone n

rests : (n : ℕ) (w : DebugWorker) → w.stage ≡ stopped → happen (alone n) w ≡ w
unfolding happen happens work_from
rests zero w at = refl
rests (suc n) w at = ap (λ g. happen (alone n) (work_from g w)) at ∙ rests n w at

stops_within :
    (n : ℕ) (w : DebugWorker)
    → WillStop w.stage w
    → left_at w.stage w ≤ n
    → ((happen (alone n) w).stage ≡ stopped) × ((happen (alone n) w).empty_queue_actions ≡ [])
unfolding happen happens
stops_within zero w will enough = elim (nearer w w.stage refl will) [
  | inr at ↦ (
    ap (λ v. v.stage) (rests 0 w at) ∙ at,
    ap (λ v. v.empty_queue_actions) (rests 0 w at) ∙ subst (λ g. WillStop g w) at will,
  )
  | inl (still, less) ↦ absurd (omega (arith, enough, less))
]
stops_within (suc n) w will enough = elim (nearer w w.stage refl will) [
  | inr at ↦ (
    ap (λ v. v.stage) (rests (suc n) w at) ∙ at,
    ap (λ v. v.empty_queue_actions) (rests (suc n) w at) ∙ subst (λ g. WillStop g w) at will,
  )
  | inl (still, less) ↦ stops_within n (work_from w.stage w) still (omega (arith, enough, less))
]

Recorded-alone :
    (n : ℕ) {w : DebugWorker} {acts : List (Option Callable)} {prints own : List Callable}
    → Recorded w acts prints own
    → Recorded (happen (alone n) w) acts prints own
unfolding happen happens
Recorded-alone zero r = r
Recorded-alone (suc n) {w} r = Recorded-alone n (worked r w.stage refl)

ends_with_null-some :
    (P : List Callable) (l : List (Option Callable))
    → ends_with_null (map some P ++ l) ≡ ends_with_null l
ends_with_null-some [] l = refl
ends_with_null-some (c ∷ P) l = ends_with_null-some P l

Recorded-WillStop :
    {acts : List (Option Callable)} {prints own : List Callable} (w : DebugWorker) (g : Stage)
    → w.stage ≡ g
    → Recorded w acts prints own
    → ends_with_null acts ≡ true
    → WillStop g w ⊎ (g ≡ stopped)
Recorded-WillStop {acts} w popping at r ends = inl (
    sym (ends_with_null-some (picks from_actions w.log) w.actions)
    ∙ ap ends_with_null
        (subst (λ g. taken g (picks from_actions w.log) ++ w.actions ≡ acts) at r.in_order)
    ∙ ends)
Recorded-WillStop {acts} w draining at r ends = inl (
    sym (ends_with_null-some (picks from_actions w.log) w.actions)
    ∙ ap ends_with_null
        (subst (λ g. taken g (picks from_actions w.log) ++ w.actions ≡ acts) at r.in_order)
    ∙ ends)
Recorded-WillStop w finishing at r ends = inl tt
Recorded-WillStop w stopped at r ends = inr refl

-- The accesses that the worker makes at most once nobody enqueues anything more.
abbrev pub accesses : DebugWorker → ℕ
accesses w = length w.actions + length w.empty_queue_actions + 3

left-accesses : (g : Stage) (w : DebugWorker) → left_at g w ≤ accesses w
left-accesses popping w = omega arith
left-accesses draining w = omega arith
left-accesses finishing w = omega arith
left-accesses stopped w = omega arith

-- After any events with the end of `main` among them, the worker that goes on by itself stops, within an
-- access for each action in its queues and three more. It has then run, in their order, exactly the
-- actions that were enqueued before the null pointer; and if it had not stopped before, it has run every
-- action of the signal handler.
pub happen-Stops :
    (es : List Event)
    → ends_with_null (offered es) ≡ true
    → let w = happen es spawned in
      let v = happen (alone (accesses w)) w in
      (v.stage ≡ stopped)
      × ((rest : List (Option Callable)) × (map some (picks from_actions v.log) ++ none ∷ rest
            ≡ offered es))
      × ((w.stage ≡ stopped) ⊎ (picks from_empty_queue v.log ≡ signalled es))
happen-Stops es ends = go (Recorded-WillStop w w.stage refl (happen-Recorded es) ends)
  where
    w : DebugWorker
    w = happen es spawned

    v : DebugWorker
    v = happen (alone (accesses w)) w

    r : Recorded v (offered es) (signalled es) (done es)
    r = Recorded-alone (accesses w) (happen-Recorded es)

    before_null :
        v.stage ≡ stopped → map some (picks from_actions v.log) ++ none ∷ v.actions ≡ offered es
    before_null at =
        sym (append_assoc (map some (picks from_actions v.log)) (none ∷ []) v.actions)
        ∙ subst (λ g. taken g (picks from_actions v.log) ++ v.actions ≡ offered es) at r.in_order

    go :
        WillStop w.stage w ⊎ (w.stage ≡ stopped)
        → (v.stage ≡ stopped)
          × ((rest : List (Option Callable)) × (map some (picks from_actions v.log) ++ none ∷ rest
                ≡ offered es))
          × ((w.stage ≡ stopped) ⊎ (picks from_empty_queue v.log ≡ signalled es))
    go (inl will) =
        let (at, empty) = stops_within (accesses w) w will (left-accesses w.stage w) in
        (
          at,
          (v.actions, before_null at),
          inr (
              sym (append-nil (picks from_empty_queue v.log))
              ∙ ap (λ l. picks from_empty_queue v.log ++ l) (sym empty)
              ∙ r.prints_in_order),
        )
    go (inr at) =
        let same : v ≡ w = rests (accesses w) w at in
        (
          ap (λ x. x.stage) same ∙ at,
          (v.actions, before_null (ap (λ x. x.stage) same ∙ at)),
          inl at,
        )
