-- ===== src/Register/AntiIn.antt =====
-- What registering an anti-in flow makes its caller hold.
use darma_simple_backend.Prelude.{
  ℕ, ◌<◌, ◌≡◌, Bool, true, false, not, Option, none, some, [], subst, sym, arith,
}
use darma_simple_backend.Machine.Types.{State, Flow, AntiFlow}
use darma_simple_backend.Machine.Monad.{
  is_some, assert, M, Returns, Returns-then, pure, require, ◌>>=◌, ◌>>◌,
}
use darma_simple_backend.Machine.Counter.{decrement_count, attach_decrement_of}
use darma_simple_backend.Machine.Balance.{Inv}
use darma_simple_backend.Machine.Frame.{Frame-refl, Frame-trans}
use darma_simple_backend.Flow.Laws.{Made, make_anti_flow-Made}
use darma_simple_backend.Flow.Verbs.{
  Leaves, CanHold, increment_count-Leaves, decrement_count-Leaves, attach_decrement_of-Leaves,
}
use darma_simple_backend.Register.{
  Description, insignificant, insignificant_collection, same, same_collection, next,
  next_collection, initial, initial_collection, null, null_collection, indexed_local,
  indexed_fetching, forwarding, UsePendingRegistration,
}
use darma_simple_backend.Register.Others.{
  new_anti_flow, hold_anti_in, local_anti_in, next_anti_in, register_anti_in_flow,
}
use darma_simple_backend.Machine.Attach.{raise}
use darma_simple_backend.Machine.Counter.{increment_count}
use darma_simple_backend.Flow.{make_anti_flow}

-- The holds `h`, and one of the trigger of each flow that is not null.
abbrev pub with_flow : (ℕ → ℕ) → Option Flow → ℕ → ℕ
with_flow h none = h
with_flow h (some f) = raise h f.ready_trigger 1

abbrev pub with_anti_flow : (ℕ → ℕ) → Option AntiFlow → ℕ → ℕ
with_anti_flow h none = h
with_anti_flow h (some a) = raise h a.ready_trigger 1

-- The anti-in flow is held by a use that is no anti-dependency.
abbrev pub with_anti_in : (ℕ → ℕ) → Bool → Option AntiFlow → ℕ → ℕ
with_anti_in h true a = h
with_anti_in h false a = with_anti_flow h a

abbrev CanHoldAnti : Option AntiFlow → State → Type 0
CanHoldAnti none s = Unit
CanHoldAnti (some a) s = CanHold a.ready_trigger s

abbrev IsMade : Option AntiFlow → State → Type 0
IsMade none s = Unit
IsMade (some a) s = a.ready_trigger < s.next_counter

-- What each description of an anti-in flow asks.
abbrev pub AntiInIsReady : Description → UsePendingRegistration → State → Type 0
AntiInIsReady insignificant u s = Unit
AntiInIsReady insignificant_collection u s = Unit
AntiInIsReady same u s =
    (a : Option AntiFlow) × (u.anti_in_flow_relationship.related_anti_flow ≡ some a)
    × CanHoldAnti a s
AntiInIsReady same_collection u s =
    (a : Option AntiFlow) × (u.anti_in_flow_relationship.related_anti_flow ≡ some a)
    × CanHoldAnti a s
AntiInIsReady next u s =
    (a : Option AntiFlow) × (u.anti_in_flow_relationship.related_anti_flow ≡ some a)
    × (u.is_anti_dependency ≡ false)
AntiInIsReady next_collection u s =
    (a : Option AntiFlow) × (u.anti_in_flow_relationship.related_anti_flow ≡ some a)
    × (u.is_anti_dependency ≡ false)
AntiInIsReady forwarding u s =
    (a : AntiFlow) × (u.anti_in_flow_relationship.related_anti_flow ≡ some (some a))
    × (u.is_anti_dependency ≡ true)
AntiInIsReady indexed_local u s =
    (a : Option AntiFlow) × (u.anti_in_flow_relationship.related_anti_flow ≡ some a)
    × (u.is_anti_dependency ≡ true)
    × IsMade a s
AntiInIsReady _ u s = ⊥

module _ (h : ℕ → ℕ) (s : State) (inv : Inv h [] s) where
  pub new_anti_flow-Leaves : Returns (new_anti_flow s) (λ a t. Leaves (with_anti_flow h a) s t)
  unfolding new_anti_flow
  new_anti_flow-Leaves =
      Returns-then (make_anti_flow 1 false) (λ a. pure (some a)) (λ f t. Made h s f.ready_trigger t)
        (λ a t. Leaves (with_anti_flow h a) s t) s (make_anti_flow-Made h s inv false)
        λ f t m. (m.4, m.5)

  hold_anti_in-Leaves :
      (a : Option AntiFlow) (is_anti : Bool)
      → CanHoldAnti a s
      → Returns (hold_anti_in a is_anti s) (λ b t. Leaves (with_anti_in h is_anti b) s t)
  unfolding hold_anti_in
  hold_anti_in-Leaves none true can = (inv, Frame-refl s)
  hold_anti_in-Leaves none false can = (inv, Frame-refl s)
  hold_anti_in-Leaves (some a) true can = (inv, Frame-refl s)
  hold_anti_in-Leaves (some a) false can =
      Returns-then (increment_count a.ready_trigger) (λ _. pure (some a))
        (λ _ t. Leaves (raise h a.ready_trigger 1) s t) (λ b t. Leaves (with_anti_flow h b) s t) s
        (increment_count-Leaves h s a.ready_trigger inv can) λ _ t q. q

  -- An anti-flow that is released with another is not held.
  local_anti_in-Leaves :
      (a : Option AntiFlow) → IsMade a s → Returns (local_anti_in a s) (λ _ t. Leaves h s t)
  unfolding local_anti_in
  local_anti_in-Leaves none made = (inv, Frame-refl s)
  local_anti_in-Leaves (some related) made =
      Returns-then (make_anti_flow 1 false)
        (λ a. attach_decrement_of related.ready_trigger a.ready_trigger >> pure (some a))
        (λ f t. Made h s f.ready_trigger t) (λ _ t. Leaves h s t) s
        (make_anti_flow-Made h s inv false)
        λ f t m.
          Returns-then (attach_decrement_of related.ready_trigger f.ready_trigger)
            (λ _. pure (some f)) (λ _ u. Leaves h t u) (λ _ u. Leaves h s u) t
            (attach_decrement_of-Leaves h t f.ready_trigger related.ready_trigger m.4
              (omega (arith, m.5.0)) (rw m.2 tt))
            λ _ u q. (q.0, Frame-trans s t u m.5 q.1)

  -- A forwarded anti-flow is ready at once.
  ready_anti_flow : M (Option AntiFlow)
  ready_anti_flow = make_anti_flow 1 false >>= λ a. decrement_count a.ready_trigger >> pure (some a)

  ready_anti_flow-Leaves : Returns (ready_anti_flow s) (λ _ t. Leaves h s t)
  unfolding ready_anti_flow
  ready_anti_flow-Leaves =
      Returns-then (make_anti_flow 1 false) (λ a. decrement_count a.ready_trigger >> pure (some a))
        (λ f t. Made h s f.ready_trigger t) (λ _ t. Leaves h s t) s
        (make_anti_flow-Made h s inv false)
        λ f t m.
          Returns-then (decrement_count f.ready_trigger) (λ _. pure (some f)) (λ _ u. Leaves h t u)
            (λ _ u. Leaves h s u) t
            (decrement_count-Leaves h t f.ready_trigger m.4 (λ _. rw m.2 tt))
            λ _ u q. (q.0, Frame-trans s t u m.5 q.1)

module _ (h : ℕ → ℕ) (s : State) (u : UsePendingRegistration) (inv : Inv h [] s) where
  abbrev rel : Option (Option AntiFlow)
  rel = u.anti_in_flow_relationship.related_anti_flow

  abbrev Q : Option AntiFlow → State → Type 0
  Q a t = Leaves (with_anti_in h u.is_anti_dependency a) s t

  abbrev QAt : Bool → Option AntiFlow → State → Type 0
  QAt b a t = Leaves (with_anti_in h b a) s t

  held :
      (a : Option AntiFlow)
      → rel ≡ some a
      → CanHoldAnti a s
      → Returns ((require rel >>= λ b. hold_anti_in b u.is_anti_dependency) s) Q
  held a e can =
      subst (λ p. Returns ((require p >>= λ b. hold_anti_in b u.is_anti_dependency) s) Q) (sym e)
        (hold_anti_in-Leaves h s inv a u.is_anti_dependency can)

  made :
      (a : Option AntiFlow)
      → rel ≡ some a
      → u.is_anti_dependency ≡ false
      → Returns (next_anti_in u s) Q
  unfolding next_anti_in
  made a e no_anti =
      subst (λ b. Returns ((require rel >>= λ _. assert (not b) >> new_anti_flow) s) (QAt b))
        (sym no_anti)
        (subst (λ p. Returns ((require p >>= λ _. assert true >> new_anti_flow) s) (QAt false))
          (sym e) (new_anti_flow-Leaves h s inv))

  local :
      (a : Option AntiFlow)
      → rel ≡ some a
      → u.is_anti_dependency ≡ true
      → IsMade a s
      → Returns ((require rel >>= λ r. assert u.is_anti_dependency >> local_anti_in r) s) Q
  local a e anti here =
      subst (λ b. Returns ((require rel >>= λ r. assert b >> local_anti_in r) s) (QAt b)) (sym anti)
        (subst (λ p. Returns ((require p >>= λ r. assert true >> local_anti_in r) s) (QAt true))
          (sym e) (local_anti_in-Leaves h s inv a here))

  forwarded :
      (a : AntiFlow)
      → rel ≡ some (some a)
      → u.is_anti_dependency ≡ true
      → Returns
          ((require rel >>= λ r.
              assert (is_some r) >> (assert u.is_anti_dependency >> ready_anti_flow h s inv))
            s)
          Q
  forwarded a e anti =
      subst
        (λ b.
          Returns
            ((require rel >>= λ r. assert (is_some r) >> (assert b >> ready_anti_flow h s inv)) s)
            (QAt b))
        (sym anti)
        (subst
          (λ p.
            Returns
              ((require p >>= λ r. assert (is_some r) >> (assert true >> ready_anti_flow h s inv))
                s)
              (QAt true))
          (sym e) (ready_anti_flow-Leaves h s inv))

  nothing : (b : Bool) → Leaves (with_anti_in h b none) s s
  nothing true = (inv, Frame-refl s)
  nothing false = (inv, Frame-refl s)

  -- Under the invariant for the holds `h`, and with what its description asks, the anti-in flow of a
  -- use is registered without a fault, and the invariant holds with one count more at its trigger,
  -- unless it is null or the use is an anti-dependency.
  pub register_anti_in_flow-Leaves :
      (d : Description) → AntiInIsReady d u s → Returns (register_anti_in_flow d u s) Q
  unfolding register_anti_in_flow ready_anti_flow
  register_anti_in_flow-Leaves insignificant p = nothing u.is_anti_dependency
  register_anti_in_flow-Leaves insignificant_collection p = nothing u.is_anti_dependency
  register_anti_in_flow-Leaves same (a, e, can) = held a e can
  register_anti_in_flow-Leaves same_collection (a, e, can) = held a e can
  register_anti_in_flow-Leaves next (a, e, no_anti) = made a e no_anti
  register_anti_in_flow-Leaves next_collection (a, e, no_anti) = made a e no_anti
  register_anti_in_flow-Leaves forwarding (a, e, anti) = forwarded a e anti
  register_anti_in_flow-Leaves indexed_local (a, e, anti, here) = local a e anti here
  register_anti_in_flow-Leaves initial p = absurd p
  register_anti_in_flow-Leaves initial_collection p = absurd p
  register_anti_in_flow-Leaves null p = absurd p
  register_anti_in_flow-Leaves null_collection p = absurd p
  register_anti_in_flow-Leaves indexed_fetching p = absurd p
