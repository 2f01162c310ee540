-- ===== src/Register/Out.antt =====
-- What registering an out flow makes its caller hold: a count of its trigger, that its release pays.
use darma_simple_backend.Prelude.{ℕ, ◌≡◌, Option, none, some, [], All, subst, sym, arith}
use darma_simple_backend.Machine.Types.{State, Flow}
use darma_simple_backend.Machine.Monad.{Returns, Returns-then, pure, require, ◌>>=◌, ◌>>◌}
use darma_simple_backend.Machine.Counter.{attach_decrement_of}
use darma_simple_backend.Machine.Balance.{Inv, IsSourced}
use darma_simple_backend.Machine.Frame.{Frame-refl, Frame-trans}
use darma_simple_backend.Flow.{make_flow, make_block}
use darma_simple_backend.Flow.Laws.{Inv-ext, Made, make_flow-Made}
use darma_simple_backend.Flow.Verbs.{
  Leaves, CanHold, increment_count-Leaves, attach_decrement_of-Leaves, make_block-Leaves,
}
use darma_simple_backend.Register.{
  Description, insignificant, insignificant_collection, same, same_collection, next,
  next_collection, initial, initial_collection, null, null_collection, indexed_local,
  indexed_fetching, forwarding,
}
use darma_simple_backend.Machine.Attach.{raise}
use darma_simple_backend.Machine.Counter.{increment_count}
use darma_simple_backend.Register.AntiIn.{with_flow}
use darma_simple_backend.Register.Others.{
  register_out_flow, held_out_flow, new_out_flow, next_out_flow, local_out_flow,
}

-- A flow under which another becomes ready: it can take a count, and no fetch on it lacks its data.
abbrev pub CanFollow : ℕ → State → Type 0
CanFollow c s = CanHold c s × All (IsSourced s) (s.counters c).actions

-- What each description of an out flow asks.
abbrev pub OutIsReady : Description → Option (Option Flow) → Option Flow → State → Type 0
OutIsReady insignificant related in_flow s = Unit
OutIsReady insignificant_collection related in_flow s = Unit
OutIsReady same related in_flow s =
    (f : Flow) × (related ≡ some (some f)) × CanHold f.ready_trigger s
OutIsReady same_collection related in_flow s =
    (f : Flow) × (related ≡ some (some f)) × CanHold f.ready_trigger s
OutIsReady next related in_flow s = (f : Flow) × (related ≡ some (some f))
OutIsReady next_collection related in_flow s = (f : Flow) × (related ≡ some (some f))
OutIsReady null related in_flow s = (f : Flow) × (in_flow ≡ some f)
OutIsReady null_collection related in_flow s = (f : Flow) × (in_flow ≡ some f)
OutIsReady indexed_local related in_flow s =
    (f : Flow) × (related ≡ some (some f)) × CanFollow f.ready_trigger s
OutIsReady _ related in_flow s = ⊥

module _ (h : ℕ → ℕ) (s : State) (inv : Inv h [] s) where
  abbrev Q : Option Flow → State → Type 0
  Q o t = Leaves (with_flow h o) s t

  new_out_flow-Leaves : (f : Flow) → Returns (new_out_flow f s) Q
  unfolding new_out_flow
  new_out_flow-Leaves f =
      Returns-then (make_flow (s.flows f.address).control_block 1) (λ g. pure (some g))
        (λ g t. Made h s g.ready_trigger t) Q s (make_flow-Made h s inv _) λ g t m. (m.4, m.5)

  -- The counts of the two flows are swapped: the related one's goes to the new one's queue.
  follow-Leaves :
      (r : Flow) (t : State)
      → Leaves (raise h r.ready_trigger 1) s t
      → All (IsSourced s) (s.counters r.ready_trigger).actions
      → (b : ℕ)
      → Returns
          ((make_flow (some b) 1 >>= λ f.
              attach_decrement_of f.ready_trigger r.ready_trigger >> pure (some f))
            t)
          Q
  follow-Leaves r t (held, fr) sourced b =
      Returns-then (make_flow (some b) 1)
        (λ f. attach_decrement_of f.ready_trigger r.ready_trigger >> pure (some f))
        (λ f u. Made (raise h r.ready_trigger 1) t f.ready_trigger u) Q t
        (make_flow-Made _ t held (some b))
        λ f u m.
          Returns-then (attach_decrement_of f.ready_trigger r.ready_trigger) (λ _. pure (some f))
            (λ _ v. Leaves (raise h f.ready_trigger 1) u v) Q u
            (attach_decrement_of-Leaves (raise h f.ready_trigger 1) u r.ready_trigger
              f.ready_trigger
              (Inv-ext (raise (raise h r.ready_trigger 1) f.ready_trigger 1)
                (raise (raise h f.ready_trigger 1) r.ready_trigger 1) [] u (λ x. ground arith) m.4)
              m.1 (m.5.2 r.ready_trigger (fr.2 r.ready_trigger sourced)))
            λ _ v q. (q.0, Frame-trans s t v fr (Frame-trans t u v m.5 q.1))

  local_out_flow-Leaves :
      (r : Flow) → CanFollow r.ready_trigger s → Returns (local_out_flow (some (some r)) s) Q
  unfolding local_out_flow
  local_out_flow-Leaves r (can, sourced) =
      Returns-then (increment_count r.ready_trigger)
        (λ _. make_block none >>= λ b. make_flow (some b) 1 >>= λ f.
          attach_decrement_of f.ready_trigger r.ready_trigger >> pure (some f))
        (λ _ t. Leaves (raise h r.ready_trigger 1) s t) Q s
        (increment_count-Leaves h s r.ready_trigger inv can)
        λ _ t q.
          Returns-then (make_block none)
            (λ b. make_flow (some b) 1 >>= λ f.
              attach_decrement_of f.ready_trigger r.ready_trigger >> pure (some f))
            (λ _ u. Leaves (raise h r.ready_trigger 1) t u) Q t
            (make_block-Leaves (raise h r.ready_trigger 1) t q.0 none)
            λ b u w. follow-Leaves r u (w.0, Frame-trans s t u q.1 w.1) sourced b

  held_out_flow-Leaves :
      (f : Flow) → CanHold f.ready_trigger s → Returns (held_out_flow (some (some f)) s) Q
  unfolding held_out_flow
  held_out_flow-Leaves f can =
      Returns-then (increment_count f.ready_trigger) (λ _. pure (some f))
        (λ _ t. Leaves (raise h f.ready_trigger 1) s t) Q s
        (increment_count-Leaves h s f.ready_trigger inv can) λ _ t q. q

  same_out :
      (related : Option (Option Flow))
      → ((f : Flow) × (related ≡ some (some f)) × CanHold f.ready_trigger s)
      → Returns (held_out_flow related s) Q
  same_out related (f, e, can) =
      subst (λ p. Returns (held_out_flow p s) Q) (sym e) (held_out_flow-Leaves f can)

  next_out :
      (related : Option (Option Flow))
      → ((f : Flow) × (related ≡ some (some f)))
      → Returns (next_out_flow related s) Q
  unfolding next_out_flow
  next_out related (f, e) =
      subst (λ p. Returns (next_out_flow p s) Q) (sym e) (new_out_flow-Leaves f)

  null_out :
      (in_flow : Option Flow)
      → ((f : Flow) × (in_flow ≡ some f))
      → Returns ((require in_flow >>= new_out_flow) s) Q
  null_out in_flow (f, e) =
      subst (λ p. Returns ((require p >>= new_out_flow) s) Q) (sym e) (new_out_flow-Leaves f)

  -- Under the invariant for the holds `h`, and with what its description asks, the out flow of a use is
  -- registered without a fault, and the invariant holds with one count more at its trigger, unless it
  -- is null.
  pub register_out_flow-Leaves :
      (d : Description) (related : Option (Option Flow)) (in_flow : Option Flow)
      → OutIsReady d related in_flow s
      → Returns (register_out_flow d related in_flow s) Q
  unfolding register_out_flow
  register_out_flow-Leaves insignificant related in_flow p = (inv, Frame-refl s)
  register_out_flow-Leaves insignificant_collection related in_flow p = (inv, Frame-refl s)
  register_out_flow-Leaves same related in_flow p = same_out related p
  register_out_flow-Leaves same_collection related in_flow p = same_out related p
  register_out_flow-Leaves next related in_flow p = next_out related p
  register_out_flow-Leaves next_collection related in_flow p = next_out related p
  register_out_flow-Leaves null related in_flow p = null_out in_flow p
  register_out_flow-Leaves null_collection related in_flow p = null_out in_flow p
  register_out_flow-Leaves indexed_local related in_flow (f, e, can) =
      subst (λ p. Returns (local_out_flow p s) Q) (sym e) (local_out_flow-Leaves f can)
  register_out_flow-Leaves initial related in_flow p = absurd p
  register_out_flow-Leaves initial_collection related in_flow p = absurd p
  register_out_flow-Leaves indexed_fetching related in_flow p = absurd p
  register_out_flow-Leaves forwarding related in_flow p = absurd p
