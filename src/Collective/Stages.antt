-- ===== src/Collective/Stages.antt =====
-- Contributions and events that fire take a collective from one stage to the next.
use darma_simple_backend.Prelude.{
  ℕ, suc, ◌+◌, ◌*◌, ◌%◌, ◌<◌, ◌≡◌, ◌≢◌, inl, inr, refl, sym, ap, subst, ◌∙◌, true, false, Bool,
  none, some, List, [], ◌∷◌, ◌++◌, length, length-append, total-update, total_at, total_zero,
  occurs, if◌then◌else◌, ◌==◌, arith, ℕ_discrete, update,
}
use darma_simple_backend.Machine.Counter.{word}
use darma_simple_backend.Collective.{
  run_lambdas, Invocation, Frontend, InputUse, Lambda, decrement_ready, contribute, Store,
  contributes, fires, happens, allreduce_use, fire_event, start_collective, join_collective,
}
use darma_simple_backend.Collective.Invariant.{
  Ends, blocks, mentioned, Active, Next, Idle, IsWithin,
}
use darma_simple_backend.Collective.Steps.{no_length}
use darma_simple_backend.Collective.Lambdas.{
  Ends-then, run_lambdas-After, attach-After, attach_anti_in-After,
}

-- The use has another control block than the first one.
abbrev pub Apart : List InputUse → InputUse → Type 0
Apart [] v = Unit
Apart (u ∷ rest) v = v.control_block ≢ u.control_block

module _ {A B : Type 0} (frontend : Frontend A B) (n bound : ℕ) (init : ℕ → A)
    (copies : (a : A) → frontend.unpack_data (frontend.pack_data a) ≡ a) (several : n ≢ 1)
    (some_there : 0 < n) (fits : 2 * n < word) where
  abbrev invocation : ℕ → List InputUse → Invocation
  invocation k l = record { input_uses = l; count = k; triggered = false; completes = true }

  started-Active :
      (fired : ℕ → Bool) (u : InputUse) (s : Store A)
      → IsWithin bound u
      → Idle frontend n bound init fired s
      → Active frontend n bound init fired u [] []
          (decrement_ready ∷ decrement_ready ∷ [])
          (record s { collective = some (invocation (2 * n % word) (u ∷ [])) })
  started-Active fired u s w idle = record {
    flags = idle.flags;
    count = 2 * n % word;
    current = refl;
    balance = omega (
      arith,
      fits,
      total_zero (length {A = Lambda}) bound s.actions
          (λ e lt. ap (length {A = Lambda}) (idle.none_waiting e)),
    );
    bounded = omega (arith, some_there);
    small = omega arith;
    positive = omega (arith, fits, some_there);
    accounted = λ b. omega (
      arith,
      total_zero (mentioned b) bound s.actions (λ e lt. ap (mentioned b) (idle.none_waiting e)),
    );
    values = λ b. idle.initial b ∙ ground arith;
    quiet = λ e f. idle.none_waiting e;
    unreleased = idle.unreleased;
    within = w;
    distinct = refl;
  }

  joined-Active :
      (fired : ℕ → Bool) (u v : InputUse) (rest : List InputUse) (done : List ℕ) (s : Store A)
      → (a : Active frontend n bound init fired u rest done [] s) → suc (length rest) < n
      → v.control_block ≢ u.control_block
      → Active frontend n bound init fired u
          (rest ++ v ∷ [])
          done
          (decrement_ready ∷ contribute v.control_block ∷ [])
          (record s { collective = some (invocation a.count (u ∷ rest ++ v ∷ [])) })
  joined-Active fired u v rest done s a room apart = record {
    flags = a.flags;
    count = a.count;
    current = refl;
    balance = omega (arith, a.balance, length-append rest (v ∷ []));
    bounded = omega (arith, room, length-append rest (v ∷ []));
    small = a.small;
    positive = a.positive;
    accounted = λ b. omega (arith, a.accounted b, blocks-append b rest v);
    values = a.values;
    quiet = a.quiet;
    unreleased = a.unreleased;
    within = a.within;
    distinct = ground (arith, a.distinct, blocks-append u.control_block rest v);
  }
    where
      blocks-append :
          (b : ℕ) (l : List InputUse) (v : InputUse)
          → occurs b (blocks (l ++ v ∷ []))
            ≡ occurs b (blocks l) + (if v.control_block == b then 1 else 0)
      blocks-append b [] v = omega arith
      blocks-append b (w ∷ l) v = omega (arith, blocks-append b l v)

  -- The event's queue is taken.
  fired-Active :
      (fired : ℕ → Bool) (u : InputUse) (rest : List InputUse) (done : List ℕ) (e : ℕ) (s : Store A)
      → Active frontend n bound init fired u rest done [] s
      → e < bound
      → Active frontend n bound init
          (update fired e true)
          u
          rest
          done
          (s.actions e)
          (record s { triggered = update s.triggered e true; actions = update s.actions e [] })
  fired-Active fired u rest done e s a lt = record {
    flags = λ d. ground (arith, a.flags d);
    count = a.count;
    current = a.current;
    balance = omega (arith, a.balance, total-update (length {A = Lambda}) bound s.actions e [] lt);
    bounded = a.bounded;
    small = a.small;
    positive = a.positive;
    accounted =
        λ b. omega (arith, a.accounted b, total-update (mentioned b) bound s.actions e [] lt);
    values = a.values;
    quiet = λ d f. elim (ℕ_discrete d e) [
      | yes p ↦ ground (arith, p)
      | no np ↦ ground (arith, np, a.quiet d, f)
    ];
    unreleased = a.unreleased;
    within = a.within;
    distinct = a.distinct;
  }

  abbrev without : ℕ → Store A → Store A
  without e s = record s { triggered = update s.triggered e true; actions = update s.actions e [] }

  -- By the uses contributed so far: none, or those of a collective that is running or over.
  abbrev pub Stage : (ℕ → Bool) → List InputUse → Store A → Type 0
  Stage fired [] s = Idle frontend n bound init fired s
  Stage fired (u ∷ rest) s = Next frontend n bound init fired u rest [] s

  starts :
      (v : InputUse) (s : Store A)
      → s.collective ≡ none
      → allreduce_use frontend n n v s
        ≡ start_collective frontend n v
            (record { input_uses = []; count = 2 * n % word; triggered = false; completes = false })
            s
  unfolding allreduce_use
  starts v s e = simp (e, same_size)
    where
      same_size : (n == n) ≡ true
      same_size = ground arith

  joins :
      (c : Invocation) (v : InputUse) (s : Store A)
      → s.collective ≡ some c
      → allreduce_use frontend n n v s ≡ join_collective frontend n v c s
  unfolding allreduce_use
  joins c v s e = simp (e, same_size)
    where
      same_size : (n == n) ≡ true
      same_size = ground arith

  -- A contribution leads to the next stage.
  pub contributes-Stage :
      (fired : ℕ → Bool) (l : List InputUse) (v : InputUse) (s : Store A)
      → Stage fired l s
      → IsWithin bound v
      → length l < n
      → Apart l v
      → Ends (happens frontend n (contributes v) s) (Stage fired (l ++ v ∷ []))
  unfolding happens start_collective join_collective
  contributes-Stage fired [] v s idle w room apart =
      subst (λ r. Ends r (Next frontend n bound init fired v [] []))
        (sym (starts v s idle.no_collective))
        (Ends-then (Next frontend n bound init fired v [] (decrement_ready ∷ []))
          (Next frontend n bound init fired v [] []) _ _
          (attach_anti_in-After frontend n bound init fired copies several v [] []
            (decrement_ready ∷ []) v.anti_in_flow _ w.1 (started-Active fired v s w idle))
          (λ t.
            attach-After frontend n bound init fired copies several v [] decrement_ready v.in_flow t
              w.0))
  contributes-Stage fired (u ∷ rest) v s (inl (done, a)) w room apart =
      subst (λ r. Ends r (Next frontend n bound init fired u (rest ++ v ∷ []) []))
        (sym (joins (invocation a.count (u ∷ rest)) v s a.current))
        (Ends-then
          (Next frontend n bound init fired u (rest ++ v ∷ []) (contribute v.control_block ∷ []))
          (Next frontend n bound init fired u (rest ++ v ∷ []) []) _ _
          (attach_anti_in-After frontend n bound init fired copies several u (rest ++ v ∷ []) done
            (contribute v.control_block ∷ []) v.anti_in_flow _ w.1
            (joined-Active fired u v rest done s a room apart))
          (λ t.
            attach-After frontend n bound init fired copies several u (rest ++ v ∷ [])
              (contribute v.control_block) v.in_flow t w.0))
  contributes-Stage fired (u ∷ rest) v s (inr (e, over)) w room apart =
      absurd (omega (arith, room, over.all_there))

  -- So does an event that fires.
  pub fires-Stage :
      (fired : ℕ → Bool) (l : List InputUse) (e : ℕ) (s : Store A)
      → Stage fired l s
      → e < bound
      → Ends (happens frontend n (fires e) s) (Stage (update fired e true) l)
  unfolding happens fire_event
  fires-Stage fired [] e s idle lt =
      subst
        (λ q.
          Ends (run_lambdas frontend n q (without e s))
            (Idle frontend n bound init (update fired e true)))
        (sym (idle.none_waiting e))
        (record {
          flags = λ d. ground (arith, idle.flags d);
          no_collective = idle.no_collective;
          none_waiting = λ d. ground (arith, idle.none_waiting d);
          initial = idle.initial;
          unreleased = idle.unreleased;
        })
  fires-Stage fired (u ∷ rest) e s (inl (done, a)) lt =
      run_lambdas-After frontend n bound init (update fired e true) copies several u rest
        (s.actions e) _ (inl (done, fired-Active fired u rest done e s a lt))
  fires-Stage fired (u ∷ rest) e s (inr (p, over)) lt =
      subst
        (λ q.
          Ends (run_lambdas frontend n q (without e s))
            (Next frontend n bound init (update fired e true) u rest []))
        (sym none_there)
        (inr (
          refl,
          record {
            flags = λ d. ground (arith, over.flags d);
            no_collective = over.no_collective;
            none_waiting = omega (
              arith,
              over.none_waiting,
              total-update (length {A = Lambda}) bound s.actions e [] lt,
            );
            all_there = over.all_there;
            order = over.order;
            each_once = over.each_once;
            results = over.results;
            all_released = over.all_released;
          },
        ))
    where
      none_there : s.actions e ≡ []
      none_there =
          no_length (s.actions e)
            (omega (arith, over.none_waiting, total_at (length {A = Lambda}) bound s.actions e lt))
