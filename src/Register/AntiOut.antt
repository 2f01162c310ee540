-- ===== src/Register/AntiOut.antt =====
-- What registering an anti-out flow makes its caller hold: a count of its trigger.
use darma_simple_backend.Prelude.{ℕ, ◌≡◌, true, false, Option, some, [], All, subst, sym, arith}
use darma_simple_backend.Machine.Types.{State, AntiFlow}
use darma_simple_backend.Machine.Monad.{is_some, assert, Returns, Returns-then, pure, ◌>>=◌, ◌>>◌}
use darma_simple_backend.Machine.Counter.{attach_decrement_of}
use darma_simple_backend.Machine.Balance.{Inv, IsSourced}
use darma_simple_backend.Machine.Frame.{Frame-refl, Frame-trans}
use darma_simple_backend.Flow.Laws.{Inv-ext, Made, make_anti_flow-Made}
use darma_simple_backend.Flow.Verbs.{
  Leaves, CanHold, increment_count-Leaves, attach_decrement_of-Leaves,
}
use darma_simple_backend.Register.{
  Description, insignificant, insignificant_collection, same, same_collection, next,
  next_collection, initial, initial_collection, null, null_collection, indexed_local,
  indexed_fetching, forwarding, UsePendingRegistration,
}
use darma_simple_backend.Machine.Attach.{raise}
use darma_simple_backend.Machine.Counter.{increment_count}
use darma_simple_backend.Flow.{make_anti_flow}
use darma_simple_backend.Register.AntiIn.{with_anti_flow, new_anti_flow-Leaves}
use darma_simple_backend.Register.Out.{CanFollow}
use darma_simple_backend.Register.Others.{
  register_anti_out_flow, anti_out_related, held_anti_out_flow, next_anti_out_flow,
  local_anti_out_flow,
}

-- What each description of an anti-out flow asks. A fetching one is not covered.
abbrev pub AntiOutIsReady : Description → UsePendingRegistration → Option AntiFlow → State → Type 0
AntiOutIsReady insignificant u anti_in s = Unit
AntiOutIsReady insignificant_collection u anti_in s = Unit
AntiOutIsReady initial u anti_in s = Unit
AntiOutIsReady initial_collection u anti_in s = Unit
AntiOutIsReady same u anti_in s =
    (a : AntiFlow) × (anti_out_related u anti_in ≡ some (some a))
    × (is_some u.anti_out_flow_relationship.related_anti_flow ≡ true)
    × CanHold a.ready_trigger s
AntiOutIsReady same_collection u anti_in s =
    (a : AntiFlow) × (anti_out_related u anti_in ≡ some (some a))
    × (is_some u.anti_out_flow_relationship.related_anti_flow ≡ true)
    × CanHold a.ready_trigger s
AntiOutIsReady next u anti_in s = (a : AntiFlow) × (anti_out_related u anti_in ≡ some (some a))
AntiOutIsReady next_collection u anti_in s =
    (a : AntiFlow) × (anti_out_related u anti_in ≡ some (some a))
AntiOutIsReady indexed_local u anti_in s =
    (a : AntiFlow) × (anti_out_related u anti_in ≡ some (some a)) × CanFollow a.ready_trigger s
AntiOutIsReady _ u anti_in s = ⊥

module _ (h : ℕ → ℕ) (s : State) (inv : Inv h [] s) where
  abbrev Q : Option AntiFlow → State → Type 0
  Q o t = Leaves (with_anti_flow h o) s t

  follow-Leaves :
      (r : AntiFlow) (t : State)
      → Leaves (raise h r.ready_trigger 1) s t
      → All (IsSourced s) (s.counters r.ready_trigger).actions
      → Returns
          ((make_anti_flow 1 false >>= λ f.
              attach_decrement_of f.ready_trigger r.ready_trigger >> pure (some f))
            t)
          Q
  follow-Leaves r t (held, fr) sourced =
      Returns-then (make_anti_flow 1 false)
        (λ f. attach_decrement_of f.ready_trigger r.ready_trigger >> pure (some f))
        (λ f u. Made (raise h r.ready_trigger 1) t f.ready_trigger u) Q t
        (make_anti_flow-Made _ t held false)
        λ f u m.
          Returns-then (attach_decrement_of f.ready_trigger r.ready_trigger) (λ _. pure (some f))
            (λ _ v. Leaves (raise h f.ready_trigger 1) u v) Q u
            (attach_decrement_of-Leaves (raise h f.ready_trigger 1) u r.ready_trigger
              f.ready_trigger
              (Inv-ext (raise (raise h r.ready_trigger 1) f.ready_trigger 1)
                (raise (raise h f.ready_trigger 1) r.ready_trigger 1) [] u (λ x. ground arith) m.4)
              m.1 (m.5.2 r.ready_trigger (fr.2 r.ready_trigger sourced)))
            λ _ v q. (q.0, Frame-trans s t v fr (Frame-trans t u v m.5 q.1))

  local_anti_out-Leaves :
      (r : AntiFlow)
      → CanFollow r.ready_trigger s
      → Returns (local_anti_out_flow (some (some r)) s) Q
  unfolding local_anti_out_flow
  local_anti_out-Leaves r (can, sourced) =
      Returns-then (increment_count r.ready_trigger)
        (λ _. make_anti_flow 1 false >>= λ f.
          attach_decrement_of f.ready_trigger r.ready_trigger >> pure (some f))
        (λ _ t. Leaves (raise h r.ready_trigger 1) s t) Q s
        (increment_count-Leaves h s r.ready_trigger inv can) λ _ t q. follow-Leaves r t q sourced

module _ (h : ℕ → ℕ) (s : State) (u : UsePendingRegistration) (anti_in : Option AntiFlow)
    (inv : Inv h [] s) where
  abbrev R : Option AntiFlow → State → Type 0
  R o t = Leaves (with_anti_flow h o) s t

  held :
      (a : AntiFlow)
      → (is_some u.anti_out_flow_relationship.related_anti_flow ≡ true)
      → CanHold a.ready_trigger s
      → Returns (held_anti_out_flow u (some (some a)) s) R
  unfolding held_anti_out_flow
  held a own can =
      subst (λ b. Returns ((assert b >> (increment_count a.ready_trigger >> pure (some a))) s) R)
        (sym own)
        (Returns-then (increment_count a.ready_trigger) (λ _. pure (some a))
          (λ _ t. Leaves (raise h a.ready_trigger 1) s t) R s
          (increment_count-Leaves h s a.ready_trigger inv can) λ _ t q. q)

  same_anti_out :
      ((a : AntiFlow) × (anti_out_related u anti_in ≡ some (some a))
        × (is_some u.anti_out_flow_relationship.related_anti_flow ≡ true)
        × CanHold a.ready_trigger s)
      → Returns (held_anti_out_flow u (anti_out_related u anti_in) s) R
  same_anti_out (a, e, own, can) =
      subst (λ p. Returns (held_anti_out_flow u p s) R) (sym e) (held a own can)

  next_anti_out :
      ((a : AntiFlow) × (anti_out_related u anti_in ≡ some (some a)))
      → Returns (next_anti_out_flow (anti_out_related u anti_in) s) R
  unfolding next_anti_out_flow
  next_anti_out (a, e) =
      subst (λ p. Returns (next_anti_out_flow p s) R) (sym e) (new_anti_flow-Leaves h s inv)

  -- Under the invariant for the holds `h`, and with what its description asks (a fetching one is left
  -- out), the anti-out flow of a use is registered without a fault, and the invariant holds with one
  -- count more at its trigger, unless it is null.
  pub register_anti_out_flow-Leaves :
      (d : Description)
      → AntiOutIsReady d u anti_in s
      → Returns (register_anti_out_flow d u anti_in s) R
  unfolding register_anti_out_flow
  register_anti_out_flow-Leaves insignificant p = (inv, Frame-refl s)
  register_anti_out_flow-Leaves insignificant_collection p = (inv, Frame-refl s)
  register_anti_out_flow-Leaves initial p = new_anti_flow-Leaves h s inv
  register_anti_out_flow-Leaves initial_collection p = new_anti_flow-Leaves h s inv
  register_anti_out_flow-Leaves same p = same_anti_out p
  register_anti_out_flow-Leaves same_collection p = same_anti_out p
  register_anti_out_flow-Leaves next p = next_anti_out p
  register_anti_out_flow-Leaves next_collection p = next_anti_out p
  register_anti_out_flow-Leaves indexed_local (a, e, can) =
      subst (λ p. Returns (local_anti_out_flow p s) R) (sym e) (local_anti_out-Leaves h s inv a can)
  register_anti_out_flow-Leaves null p = absurd p
  register_anti_out_flow-Leaves null_collection p = absurd p
  register_anti_out_flow-Leaves indexed_fetching p = absurd p
  register_anti_out_flow-Leaves forwarding p = absurd p
