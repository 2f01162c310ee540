-- ===== src/Release/RoundTrip.antt =====
-- `register_use` and `release_use` together: the counts that the one takes are those that the other
-- pays.
use darma_simple_backend.Prelude.{
  inr, inl, Bool-cases, update, ◌∙◌, ℕ, ◌+◌, ◌≡◌, refl, Bool, true, false, Option, none, some, [],
  subst, sym, if◌then◌else◌, arith,
}
use darma_simple_backend.Machine.Types.{backend_key, State, Flow, AntiFlow}
use darma_simple_backend.Machine.Monad.{
  After, Returns-and, ok, M, Returns, Returns-then, pure, and_then, ◌>>=◌,
}
use darma_simple_backend.Machine.Balance.{Inv}
use darma_simple_backend.Machine.Frame.{Frame-refl, Frame-trans}
use darma_simple_backend.Flow.Laws.{Inv-ext}
use darma_simple_backend.Flow.Verbs.{Leaves, Leaves-after}
use darma_simple_backend.Register.{set_generated_key, UsePendingRegistration, register_in_flow}
use darma_simple_backend.Register.Others.{register_anti_in_flow}
use darma_simple_backend.Register.AntiIn.{with_flow, with_anti_flow, with_anti_in}
use darma_simple_backend.Machine.Types.{Use}
use darma_simple_backend.Pending.{Host}
use darma_simple_backend.Release.{release_use}
use darma_simple_backend.Release.Paid.{with_use, AllSourced, release_use-Leaves}
use darma_simple_backend.Register.Balance.{InIsReady, register_in_flow-Leaves}
use darma_simple_backend.Register.AntiIn.{AntiInIsReady, register_anti_in_flow-Leaves}
use darma_simple_backend.Register.Out.{OutIsReady, register_out_flow-Leaves}
use darma_simple_backend.Register.AntiOut.{AntiOutIsReady, register_anti_out_flow-Leaves}
use darma_simple_backend.Register.Others.{register_out_flow, register_anti_out_flow, out_related}
use darma_simple_backend.Register.Whole.{register_use, registered}

-- The in flow is not null where the out flow is to be related to it.
abbrev RelatesOut : UsePendingRegistration → Option Flow → Type 0
RelatesOut u (some f) = Unit
RelatesOut u none = u.out_flow_relationship.use_corresponding_in_flow_as_related ≡ false

-- The related pointer of the out flow, without the assertion.
abbrev out_pointer : UsePendingRegistration → Option Flow → Option (Option Flow)
out_pointer u in_flow =
    if u.out_flow_relationship.use_corresponding_in_flow_as_related
    then some in_flow
    else u.out_flow_relationship.related_flow

out_related_lem :
    (u : UsePendingRegistration) (f : Option Flow) (s : State)
    → RelatesOut u f
    → out_related u f s ≡ ok (out_pointer u f, s)
out_related_lem u (some f) s p = ground arith
out_related_lem u none s p = rw p refl

-- The state after `set_generated_key`.
abbrev keyed : UsePendingRegistration → State → State
keyed u s = if u.has_user_defined_key then s else record s {
  handle_keys = update s.handle_keys u.handle.id (some (backend_key s.generated_keys));
  generated_keys = s.generated_keys + 1;
}

set_generated_key_lem :
    (u : UsePendingRegistration) (s : State) → set_generated_key u s ≡ ok (tt, keyed u s)
unfolding set_generated_key
set_generated_key_lem u s = elim (Bool-cases u.has_user_defined_key) [
  | inl e ↦ ground arith
  | inr e ↦ ground arith
]

keyed-Leaves :
    (h : ℕ → ℕ) (u : UsePendingRegistration) (s : State) → Inv h [] s → Leaves h s (keyed u s)
keyed-Leaves h u s inv = go u.has_user_defined_key
  where
    fresh : State
    fresh = record s {
      handle_keys = update s.handle_keys u.handle.id (some (backend_key s.generated_keys));
      generated_keys = s.generated_keys + 1;
    }

    go : (b : Bool) → Leaves h s (if b then s else fresh)
    go true = (inv, Frame-refl s)
    go false = (
      record {
        balance = inv.balance;
        small = inv.small;
        fired = inv.fired;
        waiting = inv.waiting;
        fresh = inv.fresh;
        flows_fresh = inv.flows_fresh;
        fetchers = inv.fetchers;
        sourced = inv.sourced;
      },
      Frame-refl s,
    )

-- Each flow finds what its description asks, in the state that the flows before it leave.
pub record Registrable (u : UsePendingRegistration) (s : State) : Type 0 where
  pub in_ready : InIsReady u.in_flow_relationship.description u (keyed u s)
  pub others : After (register_in_flow u.in_flow_relationship.description u (keyed u s)) λ f t.
      RelatesOut u f
      × AntiInIsReady u.anti_in_flow_relationship.description u t
      × After (register_anti_in_flow u.anti_in_flow_relationship.description u t) λ a v.
        OutIsReady u.out_flow_relationship.description (out_pointer u f) f v
        × After
            (register_out_flow u.out_flow_relationship.description (out_pointer u f) f v)
            λ o w. AntiOutIsReady u.anti_out_flow_relationship.description u a w

-- The counts of the flows, in whatever order they were taken.
held-with_use :
    (h : ℕ → ℕ) (u : UsePendingRegistration) (f o : Option Flow) (a ao : Option AntiFlow) (x : ℕ)
    → with_anti_flow (with_flow (with_anti_in h u.is_anti_dependency a) o) ao x
      ≡ with_use h (registered u f o a ao) x
held-with_use h u f o a ao x = go u.is_anti_dependency a o ao
  where
    go :
        (b : Bool) (a : Option AntiFlow) (o : Option Flow) (ao : Option AntiFlow)
        → with_anti_flow (with_flow (with_anti_in h b a) o) ao x
          ≡ with_anti_in (with_flow (with_anti_flow h ao) o) b a x
    go true a none none = refl
    go true a none (some ao) = refl
    go true a (some o) none = refl
    go true a (some o) (some ao) = ground arith
    go false none none none = refl
    go false none none (some ao) = refl
    go false none (some o) none = refl
    go false none (some o) (some ao) = ground arith
    go false (some a) none none = refl
    go false (some a) none (some ao) = ground arith
    go false (some a) (some o) none = ground arith
    go false (some a) (some o) (some ao) = ground arith

module _ (h : ℕ → ℕ) (u : UsePendingRegistration) (s : State) where
  abbrev Q : Use → State → Type 0
  Q r t = Leaves (with_use h r) s t × (r.establishes_alias ≡ u.establishes_alias)

  anti_out : Option Flow → Option AntiFlow → Option Flow → M Use
  anti_out f a o = register_anti_out_flow u.anti_out_flow_relationship.description u a >>= λ ao.
      pure (registered u f o a ao)

  out : Option Flow → Option AntiFlow → M Use
  out f a = out_related u f >>= λ r.
      register_out_flow u.out_flow_relationship.description r f >>= λ o. anti_out f a o

  anti_in : Option Flow → M Use
  anti_in f = register_anti_in_flow u.anti_in_flow_relationship.description u >>= λ a. out f a

  anti_out-Leaves :
      (f o : Option Flow) (a : Option AntiFlow) (w : State)
      → Leaves (with_flow (with_anti_in h u.is_anti_dependency a) o) s w
      → AntiOutIsReady u.anti_out_flow_relationship.description u a w
      → Returns (anti_out f a o w) Q
  unfolding anti_out
  anti_out-Leaves f o a w q ready =
      let held : ℕ → ℕ = with_flow (with_anti_in h u.is_anti_dependency a) o in
      Returns-then (register_anti_out_flow u.anti_out_flow_relationship.description u a)
        (λ ao. pure (registered u f o a ao)) (λ ao x. Leaves (with_anti_flow held ao) w x) Q w
        (register_anti_out_flow-Leaves held w u a q.0 u.anti_out_flow_relationship.description
          ready)
        λ ao x p. (
          (
            Inv-ext (with_anti_flow held ao) (with_use h (registered u f o a ao)) [] x
                (held-with_use h u f o a ao) p.0,
            Frame-trans s w x q.1 p.1,
          ),
          refl,
        )

  abbrev OutReady : Option Flow → Option AntiFlow → State → Type 0
  OutReady f a v =
      OutIsReady u.out_flow_relationship.description (out_pointer u f) f v
      × After (register_out_flow u.out_flow_relationship.description (out_pointer u f) f v)
          λ o w. AntiOutIsReady u.anti_out_flow_relationship.description u a w

  out-Leaves :
      (f : Option Flow) (a : Option AntiFlow) (v : State)
      → Leaves (with_anti_in h u.is_anti_dependency a) s v
      → RelatesOut u f
      → OutReady f a v
      → Returns (out f a v) Q
  unfolding out
  out-Leaves f a v q relates (ready, later) =
      let held : ℕ → ℕ = with_anti_in h u.is_anti_dependency a in
      subst
        (λ r.
          Returns
            (and_then r (λ p.
              register_out_flow u.out_flow_relationship.description p f >>= λ o. anti_out f a o))
            Q)
        (sym (out_related_lem u f v relates))
        (Returns-then (register_out_flow u.out_flow_relationship.description (out_pointer u f) f)
          (λ o. anti_out f a o)
          (λ o w.
            Leaves (with_flow held o) v w
            × AntiOutIsReady u.anti_out_flow_relationship.description u a w)
          Q v
          (Returns-and _ _
            (register_out_flow u.out_flow_relationship.description (out_pointer u f) f v)
            (register_out_flow-Leaves held v q.0 u.out_flow_relationship.description
              (out_pointer u f) f ready)
            later)
          λ o w p. anti_out-Leaves f o a w (p.0.0, Frame-trans s v w q.1 p.0.1) p.1)

  anti_in-Leaves :
      (f : Option Flow) (t : State)
      → Leaves h s t
      → RelatesOut u f
      → AntiInIsReady u.anti_in_flow_relationship.description u t
      → After (register_anti_in_flow u.anti_in_flow_relationship.description u t) (OutReady f)
      → Returns (anti_in f t) Q
  unfolding anti_in
  anti_in-Leaves f t q relates ready later =
      Returns-then (register_anti_in_flow u.anti_in_flow_relationship.description u) (out f)
        (λ a v. Leaves (with_anti_in h u.is_anti_dependency a) t v × OutReady f a v) Q t
        (Returns-and _ _ (register_anti_in_flow u.anti_in_flow_relationship.description u t)
          (register_anti_in_flow-Leaves h t u q.0 u.anti_in_flow_relationship.description ready)
          later)
        λ a v p. out-Leaves f a v (p.0.0, Frame-trans s t v q.1 p.0.1) relates p.1

  -- Under the invariant for the holds `h`, and when each flow finds what its description asks (a
  -- fetching flow is left out), `register_use` returns without a fault a use with the alias flag it was
  -- asked for, and the invariant holds for `h` with one count more for each flow that the use is to
  -- release.
  pub register_use-Leaves : Inv h [] s → Registrable u s → Returns (register_use u s) Q
  unfolding register_use anti_in out anti_out
  register_use-Leaves inv ok_use =
      let first : Leaves h s (keyed u s) = keyed-Leaves h u s inv in
      subst
        (λ r.
          Returns
            (and_then r (λ _. register_in_flow u.in_flow_relationship.description u >>= anti_in)) Q)
        (sym (set_generated_key_lem u s))
        (Returns-then (register_in_flow u.in_flow_relationship.description u) anti_in
          (λ f t.
            Leaves h (keyed u s) t
            × (RelatesOut u f
                × AntiInIsReady u.anti_in_flow_relationship.description u t
                × After (register_anti_in_flow u.anti_in_flow_relationship.description u t)
                    (OutReady f)))
          Q (keyed u s)
          (Returns-and _ _ (register_in_flow u.in_flow_relationship.description u (keyed u s))
            (register_in_flow-Leaves h (keyed u s) u first.0 u.in_flow_relationship.description
              ok_use.in_ready)
            ok_use.others)
          λ f t p.
            anti_in-Leaves f t (p.0.0, Frame-trans s (keyed u s) t first.1 p.0.1) p.1.0 p.1.1 p.1.2)

  -- Registering a use that establishes no alias, and then releasing it, returns without a fault: under
  -- the invariant for the holds `h`, when each flow finds what its description asks (a fetching flow is
  -- left out) and every queued fetch has its data, the invariant holds for `h` again, so no count of
  -- the use is left over and none is paid twice.
  pub register_use-release_use :
      (host : Host)
      → Inv h [] s
      → AllSourced s
      → Registrable u s
      → u.establishes_alias ≡ false
      → Returns ((register_use u >>= release_use host) s) (λ _ t. Leaves h s t)
  register_use-release_use host inv sourced ok_use no_alias =
      Returns-then (register_use u) (release_use host) Q (λ _ t. Leaves h s t) s
        (register_use-Leaves inv ok_use)
        λ r t q.
          Leaves-after (λ _. h) s t (release_use host r t) q.0.1
            (release_use-Leaves host h t r (λ c. q.0.1.2 c (sourced c)) (q.1 ∙ no_alias) q.0.0)
