-- ===== src/Release/Aliased.antt =====
-- Releasing a use that establishes an alias, where operations are not run on the stack.
use darma_simple_backend.Prelude.{
  ◌==◌, if◌then◌else◌, ℕ, ◌≡◌, Bool, true, false, Option, none, some, [], subst, sym,
}
use darma_simple_backend.Machine.Types.{State, Flow, AntiFlow}
use darma_simple_backend.Machine.Monad.{M, Returns, Returns-then, ◌>>◌}
use darma_simple_backend.Machine.Balance.{Inv}
use darma_simple_backend.Machine.Frame.{Frame-refl}
use darma_simple_backend.Flow.Verbs.{Leaves, Leaves-after}
use darma_simple_backend.Register.AntiIn.{with_flow, with_anti_flow, with_anti_in}
use darma_simple_backend.Register.Others.{when}
use darma_simple_backend.Machine.Types.{Use}
use darma_simple_backend.Pending.{Host}
use darma_simple_backend.Release.{handle_aliasing_for_released_use, release_use}
use darma_simple_backend.Prelude.{
  ℕ, ◌+◌, ◌≡◌, sym, subst, ◌∙◌, true, false, Bool, none, some, Option, [], ◌∷◌, arith,
}
use darma_simple_backend.Machine.Types.{Flow, AntiFlow, State, decrement_trigger}
use darma_simple_backend.Machine.Monad.{◌>>=◌, After, Returns-and, Returns, Returns-then, deref}
use darma_simple_backend.Machine.Counter.{increment_count}
use darma_simple_backend.Machine.Attach.{raise}
use darma_simple_backend.Flow.Laws.{Inv-ext}
use darma_simple_backend.Flow.Verbs.{CanHold, increment_count-Leaves}
use darma_simple_backend.Pending.{make_pending_operation, when_ready_do}
use darma_simple_backend.Pending.Queued.{Fits, when_all_ready_do-Leaves}
use darma_simple_backend.Release.{alias_trigger, alias_anti_flows, handle_aliasing_for_released_use}
use darma_simple_backend.Release.Paid.{with_use, AllSourced, paying, paying-Leaves}
use darma_simple_backend.Machine.Types.{ReadyOperation}
use darma_simple_backend.Machine.Monad.{Result, ok, err}
use darma_simple_backend.Machine.Stock.{stock}
use darma_simple_backend.Machine.Stocked.{Grows}
use darma_simple_backend.Release.Stocked.{aliases, release_use-Grows}
use darma_simple_backend.Prelude.{◌≤◌, ◌<◌}

-- The flow `to` can take a count, and the operation that waits for `from` as well.
abbrev FitsAlias : ℕ → ℕ → State → Type 0
FitsAlias from to s =
    CanHold to s
    × After (increment_count to s)
        (λ _ t. After (make_pending_operation t) (λ op v. Fits op (from ∷ []) v))

abbrev FitsAnti : Option AntiFlow → Option AntiFlow → State → Type 0
FitsAnti none anti_out s = Unit
FitsAnti (some a) none s = ⊥
FitsAnti (some a) (some b) s = FitsAlias b.ready_trigger a.ready_trigger s

-- What a flow that is held adds to the holds.
flow_count : Option Flow → ℕ → ℕ
flow_count none x = 0
flow_count (some f) x = if x == f.ready_trigger then 1 else 0

anti_count : Option AntiFlow → ℕ → ℕ
anti_count none x = 0
anti_count (some a) x = if x == a.ready_trigger then 1 else 0

kept_count : Bool → Option AntiFlow → ℕ → ℕ
kept_count true a x = 0
kept_count false a x = anti_count a x

with_flow_add : (h : ℕ → ℕ) (o : Option Flow) (x : ℕ) → with_flow h o x ≡ h x + flow_count o x
unfolding flow_count
with_flow_add h none x = omega arith
with_flow_add h (some f) x = ground arith

with_anti_flow_add :
    (h : ℕ → ℕ) (a : Option AntiFlow) (x : ℕ) → with_anti_flow h a x ≡ h x + anti_count a x
unfolding anti_count
with_anti_flow_add h none x = omega arith
with_anti_flow_add h (some a) x = ground arith

with_anti_in_add :
    (h : ℕ → ℕ) (b : Bool) (a : Option AntiFlow) (x : ℕ)
    → with_anti_in h b a x ≡ h x + kept_count b a x
unfolding kept_count
with_anti_in_add h true a x = omega arith
with_anti_in_add h false a x = with_anti_flow_add h a x

-- The holds of the alias and those of the use, in either order.
alias-with_use :
    (h : ℕ → ℕ) (b : Bool) (a : Option AntiFlow) (o : Option Flow) (ao : Option AntiFlow) (x : ℕ)
    → with_anti_flow (with_flow (with_anti_in (with_flow (with_anti_flow h ao) o) b a) o) a x
      ≡ with_anti_in (with_flow (with_anti_flow (with_anti_flow (with_flow h o) a) ao) o) b a x
alias-with_use h b a o ao x =
    let d : ℕ → ℕ = with_anti_flow h ao in
    let c : ℕ → ℕ = with_flow d o in
    let k : ℕ → ℕ = with_flow h o in
    let g : ℕ → ℕ = with_anti_flow k a in
    let f : ℕ → ℕ = with_anti_flow g ao in
    omega (
      arith,
      with_anti_flow_add (with_flow (with_anti_in c b a) o) a x,
      with_flow_add (with_anti_in c b a) o x,
      with_anti_in_add c b a x,
      with_flow_add d o x,
      with_anti_flow_add h ao x,
      with_anti_in_add (with_flow f o) b a x,
      with_flow_add f o x,
      with_anti_flow_add g ao x,
      with_anti_flow_add k a x,
      with_flow_add h o x,
    )

-- The holds `h`, and those of the two decrements that an alias leaves to the work queue.
abbrev pub with_alias : (ℕ → ℕ) → Use → ℕ → ℕ
with_alias h u = with_anti_flow (with_flow h u.out_flow) u.anti_in_flow

module _ (host : Host) where
  module _ (h : ℕ → ℕ) (s : State) (inv : Inv h [] s) (no_depth : s.max_task_depth ≡ 0) where
    alias_trigger-Leaves :
        (from to : ℕ)
        → FitsAlias from to s
        → Returns (alias_trigger host from to s) (λ _ t. Leaves (raise h to 1) s t)
    unfolding alias_trigger when_ready_do
    alias_trigger-Leaves from to (can, fits) =
        Returns-then (increment_count to) (λ _. when_ready_do host from (decrement_trigger to))
          (λ _ t.
            Leaves (raise h to 1) s t
            × After (make_pending_operation t) (λ op v. Fits op (from ∷ []) v))
          (λ _ t. Leaves (raise h to 1) s t) s
          (Returns-and (λ _ t. Leaves (raise h to 1) s t)
            (λ _ t. After (make_pending_operation t) (λ op v. Fits op (from ∷ []) v))
            (increment_count to s) (increment_count-Leaves h s to inv can) fits)
          λ _ t q.
            Leaves-after (λ _. raise h to 1) s t (when_ready_do host from (decrement_trigger to) t)
              q.0.1
              (when_all_ready_do-Leaves host (raise h to 1) (from ∷ []) (decrement_trigger to) t
                q.0.0 (q.0.1.3 ∙ no_depth) q.1)

    alias_anti_flows-Leaves :
        (anti_in anti_out : Option AntiFlow)
        → FitsAnti anti_in anti_out s
        → Returns
            (alias_anti_flows host anti_in anti_out s)
            (λ _ t. Leaves (with_anti_flow h anti_in) s t)
    unfolding alias_anti_flows
    alias_anti_flows-Leaves none anti_out fits = (inv, Frame-refl s)
    alias_anti_flows-Leaves (some a) none fits = absurd fits
    alias_anti_flows-Leaves (some a) (some b) fits =
        alias_trigger-Leaves b.ready_trigger a.ready_trigger fits

  -- The flows that are aliased are there, and can take the counts of the alias.
  abbrev pub Aliasable : Use → State → Type 0
  Aliasable u s =
      (i o : Flow) × (u.in_flow ≡ some i)
      × (u.out_flow ≡ some o)
      × FitsAlias i.ready_trigger o.ready_trigger s
      × After (alias_trigger host i.ready_trigger o.ready_trigger s)
          (λ _ t. FitsAnti u.anti_in_flow u.anti_out_flow t)

  module _ (h : ℕ → ℕ) (s : State) (u : Use) (inv : Inv h [] s)
      (no_depth : s.max_task_depth ≡ 0) where
    handle_aliasing-Leaves :
        Aliasable u s
        → Returns (handle_aliasing_for_released_use host u s) (λ _ t. Leaves (with_alias h u) s t)
    unfolding handle_aliasing_for_released_use
    handle_aliasing-Leaves (i, o, ei, eo, fits, later) =
        subst
          (λ out.
            Returns ((deref out >>= λ g. deref u.in_flow >>= λ f. both f g) s)
              (λ _ t. Leaves (with_anti_flow (with_flow h out) u.anti_in_flow) s t))
          (sym eo)
          (subst
            (λ p.
              Returns ((deref p >>= λ f. both f o) s)
                (λ _ t. Leaves (with_anti_flow (raise h o.ready_trigger 1) u.anti_in_flow) s t))
            (sym ei)
            (Returns-then (alias_trigger host i.ready_trigger o.ready_trigger)
              (λ _. alias_anti_flows host u.anti_in_flow u.anti_out_flow)
              (λ _ t.
                Leaves (raise h o.ready_trigger 1) s t × FitsAnti u.anti_in_flow u.anti_out_flow t)
              (λ _ t. Leaves (with_anti_flow (raise h o.ready_trigger 1) u.anti_in_flow) s t) s
              (Returns-and _ _ (alias_trigger host i.ready_trigger o.ready_trigger s)
                (alias_trigger-Leaves h s inv no_depth i.ready_trigger o.ready_trigger fits) later)
              λ _ t q.
                Leaves-after (λ _. with_anti_flow (raise h o.ready_trigger 1) u.anti_in_flow) s t
                  (alias_anti_flows host u.anti_in_flow u.anti_out_flow t) q.0.1
                  (alias_anti_flows-Leaves (raise h o.ready_trigger 1) t q.0.0 (q.0.1.3 ∙ no_depth)
                    u.anti_in_flow u.anti_out_flow q.1)))
      where
        both : Flow → Flow → M (Unit {0})
        both f g =
            alias_trigger host f.ready_trigger g.ready_trigger
            >> alias_anti_flows host u.anti_in_flow u.anti_out_flow

  released-Leaves :
      (h : ℕ → ℕ) (s : State) (u : Use)
      → Inv (with_use h u) [] s
      → s.max_task_depth ≡ 0
      → AllSourced s
      → u.establishes_alias ≡ true
      → Aliasable u s
      → Returns (release_use host u s) (λ _ t. Leaves (with_alias h u) s t)
  unfolding release_use
  released-Leaves h s u inv no_depth sourced alias able =
      subst
        (λ b.
          Returns ((when b (handle_aliasing_for_released_use host u) >> paying u) s)
            (λ _ t. Leaves (with_alias h u) s t))
        (sym alias)
        (Returns-then (handle_aliasing_for_released_use host u) (λ _. paying u)
          (λ _ t. Leaves (with_alias (with_use h u) u) s t) (λ _ t. Leaves (with_alias h u) s t) s
          (handle_aliasing-Leaves (with_use h u) s u inv no_depth able)
          λ _ t q.
            Leaves-after (λ _. with_alias h u) s t (paying u t) q.1
              (paying-Leaves (with_alias h u) t u (λ c. q.1.2 c (sourced c))
                (Inv-ext (with_alias (with_use h u) u) (with_use (with_alias h u) u) [] t
                  (alias-with_use h u.is_anti_dependency u.anti_in_flow u.out_flow u.anti_out_flow)
                  q.0)))

  -- Where operations are not run on the stack, and the worker of this thread is one of the runtime's, a
  -- use that establishes an alias is released without a fault, if its in and out flows are there, the
  -- flows of the alias can take their counts, and every queued fetch has its data: under the invariant
  -- for the holds `h` and the counts that its flows hold, the invariant then holds for `h` with one count
  -- more of the out flow and one of the anti-in flow that is not null. The operations that decrement
  -- these two flows are queued, or are to be queued by an action, besides all the operations that were,
  -- however operations are weighed.
  pub release_use-with_alias :
      (v : ReadyOperation → ℕ) (h : ℕ → ℕ) (s : State) (u : Use)
      → Inv (with_use h u) [] s
      → s.max_task_depth ≡ 0
      → s.this_worker_id < s.nthreads
      → AllSourced s
      → u.establishes_alias ≡ true
      → Aliasable u s
      → Returns
          (release_use host u s)
          (λ _ t. Leaves (with_alias h u) s t × (stock v s + aliases v host u ≤ stock v t))
  release_use-with_alias v h s u inv no_depth lt sourced alias able =
      Returns-and (λ _ t. Leaves (with_alias h u) s t)
        (λ _ t. stock v s + aliases v host u ≤ stock v t) (release_use host u s)
        (released-Leaves h s u inv no_depth sourced alias able)
        (stocked (release_use host u s) (release_use-Grows v host u s (lt, no_depth) alias))
    where
      stocked :
          (r : Result (Unit {0} × State))
          → After r (λ _ t. Grows v (aliases v host u) s t)
          → After r (λ _ t. stock v s + aliases v host u ≤ stock v t)
      stocked (ok (x, t)) p = p.0
      stocked (err e) p = tt
