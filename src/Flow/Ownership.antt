-- ===== src/Flow/Ownership.antt =====
-- Who destroys the data of a control block.
use darma_simple_backend.Prelude.{
  ◌⊎◌, inl, inr, true, none, ◌∙◌, ℕ, ◌+◌, ◌≡◌, refl, sym, ap, subst, Option, none, some, List, ◌∷◌,
  false, update, update_eq, if◌then◌else◌, ◌==◌, ==_refl, ◌&&◌,
}
use darma_simple_backend.Machine.Types.{State, Handle, Pointer, at, ControlBlock}
use darma_simple_backend.Machine.Monad.{Result, ok, M, Returns, and_then, deref, ◌>>=◌}
use darma_simple_backend.Flow.{
  make_block, make_block_at, make_block_in, copy_block, copy_data, copied_handle, delete_block,
  destroy, erase_object, allocate, construct, new_block, blank_block,
}

-- A call that leaves the objects as they were.
abbrev pub KeepsObjects : State → M (Unit {0}) → Type 0
KeepsObjects s m = Returns (m s) (λ _ t. t.objects ≡ s.objects)

erase_first : (a : ℕ) (l : List Pointer) → erase_object (at a 0) (at a 0 ∷ l) ≡ l
unfolding erase_object
erase_first a l =
    ap (λ b. if b && (0 == 0) then l else at a 0 ∷ erase_object (at a 0) l) (==_refl a)

-- The deletion of a block, by the fields that it reads.
delete_of : ControlBlock → State → Result (Unit {0} × State)
delete_of b s =
    if b.owns_data then and_then (deref b.handle s) (λ h. destroy b.contents) else ok (tt, s)

delete_made :
    (b : ControlBlock) (s : State) (n : ℕ) → s.blocks n ≡ b → delete_block n s ≡ delete_of b s
unfolding delete_block delete_of
delete_made b s n e =
    ap
      (λ c.
        if c.owns_data then and_then (deref c.handle s) (λ h. destroy c.contents) else ok (tt, s))
      e

delete_new :
    (b : ControlBlock) (s : State) (Q : Unit {0} → State → Type 0)
    → Returns
        (delete_of b
          (record s { blocks = update s.blocks s.next_block b; next_block = s.next_block + 1 }))
        Q
    → Returns ((new_block b >>= delete_block) s) Q
unfolding new_block
delete_new b s Q p =
    let t : State = record s {
      blocks = update s.blocks s.next_block b;
      next_block = s.next_block + 1;
    } in
    subst (λ r. Returns r Q)
      (sym (delete_made b t s.next_block (update_eq s.blocks s.next_block b s.next_block refl))) p

module _ (s : State) where
  made : (o : Option Handle) → KeepsObjects s (make_block o >>= delete_block)
  unfolding make_block delete_of allocate construct destroy
  made none = delete_new (record blank_block { owns_data = false }) s _ refl
  made (some h) =
      delete_new (record blank_block { handle = some h; contents = at s.next_allocation 0 })
        (record s {
          next_allocation = s.next_allocation + 1;
          objects = at s.next_allocation 0 ∷ s.objects;
        })
        (λ _ t. t.objects ≡ s.objects) (erase_first s.next_allocation s.objects)

  -- A block over given data, its own or a collection's.
  made_at : (o : Option Handle) (p : Pointer) → KeepsObjects s (make_block_at o p >>= delete_block)
  unfolding make_block_at delete_of
  made_at o p =
      delete_new (record blank_block { handle = o; contents = p; owns_data = false }) s _ refl

  made_in :
      (p : Pointer) (parent index : ℕ)
      → KeepsObjects s (make_block_in p parent index >>= delete_block)
  unfolding make_block_in delete_of
  made_in p parent index =
      delete_new
        (record blank_block {
          contents = p;
          owns_data = false;
          parent_collection = some parent;
          collection_index = index;
        })
        s _ refl

  -- A control block that allocates its data destroys exactly what it has constructed, and one that is
  -- given its data, or has no handle, destroys nothing: making it and deleting it returns and leaves the
  -- objects as they were.
  pub delete_block-make_block :
      (o : Option Handle) (p : Pointer) (parent index : ℕ)
      → KeepsObjects s (make_block o >>= delete_block)
        × KeepsObjects s (make_block_at o p >>= delete_block)
        × KeepsObjects s (make_block_in p parent index >>= delete_block)
  delete_block-make_block o p parent index = (made o, made_at o p, made_in p parent index)

-- The block has the handle, or none, as an element, and its collection has it.
abbrev pub HandleOf : ℕ → Handle → State → Type 0
HandleOf other h s =
    ((s.blocks other).handle ≡ some h)
    ⊎ ((s.blocks other).handle ≡ none)
      × (parent : ℕ) × ((s.blocks other).parent_collection ≡ some parent)
      × ((s.blocks parent).handle ≡ some h)

-- The new block has the handle and owns its data, which is one more object, in a new allocation.
abbrev pub HasCopied : Handle → State → ℕ → State → Type 0
HasCopied h s n t =
    ((t.blocks n).handle ≡ some h)
    × ((t.blocks n).owns_data ≡ true)
    × ((t.blocks n).contents ≡ at s.next_allocation 0)
    × (t.objects ≡ at s.next_allocation 0 ∷ s.objects)

module _ (s : State) (other : ℕ) (h : Handle) where
  handle_copied :
      HandleOf other h s
      → copied_handle (s.blocks other).handle (s.blocks other).parent_collection s ≡ ok (h, s)
  handle_copied (inl e) = ap (λ o. copied_handle o (s.blocks other).parent_collection s) e
  handle_copied (inr (e, parent, in_collection, has)) =
      ap (λ o. copied_handle o (s.blocks other).parent_collection s) e
      ∙ ap (λ p. copied_handle none p s) in_collection
      ∙ ap (λ o. deref o s) has

  rest : Handle → M ℕ
  rest g = allocate >>= λ p. (λ t. copy_data (t.blocks other).contents p t) >>= λ q.
      new_block (record blank_block { handle = some g; contents = q })

  abbrev allocated : State
  allocated = record s {
    next_allocation = s.next_allocation + 1;
    objects = at s.next_allocation 0 ∷ s.objects;
  }

  abbrev copy : ControlBlock
  copy = record blank_block { handle = some h; contents = at s.next_allocation 0 }

  HasCopied-rest : Returns (rest h s) (HasCopied h s)
  unfolding rest allocate copy_data construct new_block
  HasCopied-rest =
      let e : update s.blocks s.next_block copy s.next_block ≡ copy =
        update_eq s.blocks s.next_block copy s.next_block refl in
      (
        ap (λ (b : ControlBlock). b.handle) e,
        ap (λ (b : ControlBlock). b.owns_data) e,
        ap (λ (b : ControlBlock). b.contents) e,
        refl,
      )

  deletes_copy : Returns (and_then (rest h s) delete_block) (λ _ t. t.objects ≡ s.objects)
  unfolding rest allocate copy_data construct delete_of destroy
  deletes_copy =
      delete_new copy allocated (λ _ t. t.objects ≡ s.objects)
        (erase_first s.next_allocation s.objects)

  -- A copy of a block that has a handle, or of an element of a collection that has one, returns a block
  -- with this handle, which owns one new object; and its deletion destroys this object, so that copying
  -- a block and deleting the copy leaves the objects as they were.
  pub delete_block-copy_block :
      HandleOf other h s
      → Returns (copy_block other s) (HasCopied h s)
        × KeepsObjects s (copy_block other >>= delete_block)
  unfolding copy_block rest
  delete_block-copy_block has = (
    subst (λ r. Returns (and_then r rest) (HasCopied h s)) (sym (handle_copied has)) HasCopied-rest,
    subst (λ r. Returns (and_then (and_then r rest) delete_block) (λ _ t. t.objects ≡ s.objects))
        (sym (handle_copied has)) deletes_copy,
  )
