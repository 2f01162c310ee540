-- ===== src/Register/Balance.antt =====
-- What registration makes its caller hold: the in flow nothing, and each of the other flows that the
-- use is to release one count.
use darma_simple_backend.Prelude.{◌*◌, ℕ, ◌<◌, ◌≡◌, not, Option, none, some, [], subst, sym, arith}
use darma_simple_backend.Machine.Types.{State, Flow, Handle}
use darma_simple_backend.Machine.Monad.{
  is_some, assert, M, Returns, Returns-then, pure, and_then, deref, require, ◌>>=◌, ◌>>◌,
}
use darma_simple_backend.Machine.Counter.{decrement_count, attach_decrement_of}
use darma_simple_backend.Machine.Balance.{Inv}
use darma_simple_backend.Machine.Frame.{Frame-refl, Frame-trans}
use darma_simple_backend.Flow.{
  shift, make_flow, make_block, make_block_in, make_collection_block, data_for_index,
}
use darma_simple_backend.Flow.Laws.{Made, make_flow-Made}
use darma_simple_backend.Flow.Verbs.{
  Leaves, Leaves-after, decrement_count-Leaves, attach_decrement_of-Leaves, make_block-Leaves,
  make_block_in-Leaves, make_collection_block-Leaves,
}
use darma_simple_backend.Register.{
  from_pointer, related_flow_of, flow_after, index_block, Description, insignificant,
  insignificant_collection, same, same_collection, next, next_collection, initial,
  initial_collection, null, null_collection, indexed_local, indexed_fetching, forwarding,
  Relationship, UsePendingRegistration, register_in_flow, ready_flow, following_flow, local_flow,
}

-- A pointer to a block of a collection, which has a handle.
abbrev IsCollection : Option ℕ → State → Type 0
IsCollection coll s = (b : ℕ) × (coll ≡ some b) × (hd : Handle) × ((s.blocks b).handle ≡ some hd)

-- A related flow that has been made.
abbrev Related : Relationship → State → Type 0
Related r s = (f : Flow) × (r.related_flow ≡ some (some f)) × (f.ready_trigger < s.next_counter)

abbrev IndexedRelated : Relationship → State → Type 0
IndexedRelated r s =
    (f : Flow) × (r.related_flow ≡ some (some f))
    × (f.ready_trigger < s.next_counter)
    × IsCollection (s.flows f.address).control_block s

module _ (h : ℕ → ℕ) (s : State) (inv : Inv h [] s) where
  -- A flow that is made ready at once.
  ready_flow-Leaves : (b : ℕ) → Returns (ready_flow b s) (λ _ t. Leaves h s t)
  unfolding ready_flow
  ready_flow-Leaves b =
      Returns-then (make_flow (some b) 1) (λ f. decrement_count f.ready_trigger >> pure (some f))
        (λ f t. Made h s f.ready_trigger t) (λ _ t. Leaves h s t) s
        (make_flow-Made h s inv (some b))
        λ f t m.
          Returns-then (decrement_count f.ready_trigger) (λ _. pure (some f)) (λ _ u. Leaves h t u)
            (λ _ u. Leaves h s u) t
            (decrement_count-Leaves h t f.ready_trigger m.4 (λ _. rw m.2 tt))
            λ _ u q. (q.0, Frame-trans s t u m.5 q.1)

  -- A flow that becomes ready with another.
  flow_after-Leaves :
      (related : Flow)
      → related.ready_trigger < s.next_counter
      → (b : Option ℕ) → Returns (flow_after related b s) (λ _ t. Leaves h s t)
  unfolding flow_after
  flow_after-Leaves related here b =
      Returns-then (make_flow b 1)
        (λ f. attach_decrement_of related.ready_trigger f.ready_trigger >> pure (some f))
        (λ f t. Made h s f.ready_trigger t) (λ _ t. Leaves h s t) s (make_flow-Made h s inv b)
        λ f t m.
          Returns-then (attach_decrement_of related.ready_trigger f.ready_trigger)
            (λ _. pure (some f)) (λ _ u. Leaves h t u) (λ _ u. Leaves h s u) t
            (attach_decrement_of-Leaves h t f.ready_trigger related.ready_trigger m.4
              (omega (arith, m.5.0)) (rw m.2 tt))
            λ _ u q. (q.0, Frame-trans s t u m.5 q.1)

  index_block-Leaves :
      (coll : Option ℕ) (index : ℕ)
      → IsCollection coll s
      → Returns (index_block coll index s) (λ _ t. Leaves h s t)
  unfolding index_block data_for_index
  index_block-Leaves coll index (b, e, hd, eh) =
      subst (λ o. Returns (index_block o index s) (λ _ t. Leaves h s t)) (sym e)
        (subst
          (λ o.
            Returns
              (and_then
                (and_then (deref o s)
                  (λ k. pure (shift (s.blocks b).contents (index * k.metadata_size))))
                (λ p. make_block_in p b index))
              (λ _ t. Leaves h s t))
          (sym eh)
          (make_block_in-Leaves h s inv (shift (s.blocks b).contents (index * hd.metadata_size)) b
            index))

-- What each description of an in flow asks of the related flow. A fetching in flow is not covered.
abbrev pub InIsReady : Description → UsePendingRegistration → State → Type 0
InIsReady insignificant u s = Unit
InIsReady insignificant_collection u s = Unit
InIsReady same u s = (f : Option Flow) × (u.in_flow_relationship.related_flow ≡ some f)
InIsReady same_collection u s = (f : Option Flow) × (u.in_flow_relationship.related_flow ≡ some f)
InIsReady forwarding u s = (f : Option Flow) × (u.in_flow_relationship.related_flow ≡ some f)
InIsReady next u s = Related u.in_flow_relationship s
InIsReady next_collection u s = Related u.in_flow_relationship s
InIsReady initial u s = u.in_flow_relationship.related_flow ≡ none
InIsReady initial_collection u s = u.in_flow_relationship.related_flow ≡ none
InIsReady indexed_local u s = IndexedRelated u.in_flow_relationship s
InIsReady indexed_fetching u s = ⊥
InIsReady null u s = ⊥
InIsReady null_collection u s = ⊥

module _ (h : ℕ → ℕ) (s : State) (u : UsePendingRegistration) (inv : Inv h [] s) where
  abbrev Q : Option Flow → State → Type 0
  Q _ t = Leaves h s t

  given :
      (f : Option Flow)
      → u.in_flow_relationship.related_flow ≡ some f
      → Returns (require u.in_flow_relationship.related_flow s) Q
  given f e = subst (λ p. Returns (require p s) Q) (sym e) (inv, Frame-refl s)

  following :
      Related u.in_flow_relationship s
      → Returns ((related_flow_of u.in_flow_relationship >>= following_flow) s) Q
  unfolding following_flow
  following (f, e, here) =
      subst (λ p. Returns ((from_pointer p >>= following_flow) s) Q) (sym e)
        (flow_after-Leaves h s inv f here (s.flows f.address).control_block)

  made_ready :
      (m : M ℕ)
      → Returns (m s) (λ _ t. Leaves h s t)
      → u.in_flow_relationship.related_flow ≡ none
      → Returns
          ((assert (not (is_some u.in_flow_relationship.related_flow)) >> (m >>= ready_flow)) s)
          Q
  made_ready m left e =
      subst (λ p. Returns ((assert (not (is_some p)) >> (m >>= ready_flow)) s) Q) (sym e)
        (Returns-then m ready_flow (λ _ t. Leaves h s t) Q s left
          λ b t q. Leaves-after (λ _. h) s t (ready_flow b t) q.1 (ready_flow-Leaves h t q.0 b))

  made_local :
      IndexedRelated u.in_flow_relationship s
      → Returns
          ((related_flow_of u.in_flow_relationship >>= λ f. local_flow f u.in_flow_relationship) s)
          Q
  unfolding local_flow
  made_local (f, e, here, coll) =
      subst (λ p. Returns ((from_pointer p >>= λ g. local_flow g u.in_flow_relationship) s) Q)
        (sym e)
        (Returns-then (index_block (s.flows f.address).control_block u.in_flow_relationship.index)
          (λ b. flow_after f (some b)) (λ _ t. Leaves h s t) Q s
          (index_block-Leaves h s inv (s.flows f.address).control_block u.in_flow_relationship.index
            coll)
          λ b t q.
            Leaves-after (λ _. h) s t (flow_after f (some b) t) q.1
              (flow_after-Leaves h t q.0 f (omega (arith, q.1.0)) (some b)))

  -- Under the invariant for the holds `h`, and with what its description asks (a fetching one is left
  -- out), the in flow of a use is registered without a fault, and the invariant holds for `h`: the use
  -- has nothing to release for it.
  pub register_in_flow-Leaves :
      (d : Description) → InIsReady d u s → Returns (register_in_flow d u s) Q
  unfolding register_in_flow
  register_in_flow-Leaves insignificant p = (inv, Frame-refl s)
  register_in_flow-Leaves insignificant_collection p = (inv, Frame-refl s)
  register_in_flow-Leaves same (f, e) = given f e
  register_in_flow-Leaves same_collection (f, e) = given f e
  register_in_flow-Leaves forwarding (f, e) = given f e
  register_in_flow-Leaves next p = following p
  register_in_flow-Leaves next_collection p = following p
  register_in_flow-Leaves initial e =
      made_ready (make_block (some u.handle)) (make_block-Leaves h s inv (some u.handle)) e
  register_in_flow-Leaves initial_collection e =
      made_ready (make_collection_block u.handle u.collection_size)
        (make_collection_block-Leaves h s u.handle u.collection_size inv) e
  register_in_flow-Leaves indexed_local p = made_local p
  register_in_flow-Leaves indexed_fetching p = absurd p
  register_in_flow-Leaves null p = absurd p
  register_in_flow-Leaves null_collection p = absurd p
