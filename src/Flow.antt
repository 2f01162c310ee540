-- ===== src/Flow.antt =====
-- flow/flow.hpp and flow/control_block.hpp: flows, anti-flows and the control blocks that own the
-- data. What the serialization manager makes of the bytes is the front end's: the state lists the
-- objects that have been constructed and not destroyed.
pub mod Laws
pub mod Verbs
pub mod Ownership
use darma_simple_backend.Prelude.{
  ℕ, zero, suc, ◌+◌, ◌*◌, not, true, false, Bool, Option, none, some, List, [], ◌∷◌, update,
  if◌then◌else◌, ◌==◌, ◌&&◌,
}
use darma_simple_backend.Machine.Types.{
  State, Handle, Pointer, null_pointer, at, ControlBlock, Flow, AntiFlow, FlowFields,
}
use darma_simple_backend.Machine.Monad.{
  Fault, Result, ok, err, M, pure, and_then, ◌>>=◌, ◌>>◌, assert, deref, require, is_some,
}
use darma_simple_backend.Machine.Counter.{make_counter}

-- `::operator new`: a region that no other pointer reaches.
unfoldable allocate : M Pointer
allocate s = ok (at s.next_allocation 0, record s { next_allocation = s.next_allocation + 1 })

-- A serialization manager's `default_construct` and `unpack_data` make an object.
unfoldable pub construct : Pointer → M (Unit {0})
construct p s = ok (tt, record s { objects = p ∷ s.objects })

abbrev pointer_eq : Pointer → Pointer → Bool
pointer_eq null_pointer null_pointer = true
pointer_eq null_pointer (at b j) = false
pointer_eq (at a i) null_pointer = false
pointer_eq (at a i) (at b j) = a == b && i == j

unfoldable erase_object : Pointer → List Pointer → List Pointer
erase_object p [] = []
erase_object p (q ∷ l) = if pointer_eq p q then l else q ∷ erase_object p l

unfoldable destroy : Pointer → M (Unit {0})
unfolding erase_object
destroy p s = ok (tt, record s { objects = erase_object p s.objects })

unfoldable new_block : ControlBlock → M ℕ
new_block b s = ok (
  s.next_block,
  record s { blocks = update s.blocks s.next_block b; next_block = s.next_block + 1 },
)

abbrev pub blank_block : ControlBlock
blank_block = record {
  handle = none;
  contents = null_pointer;
  owns_data = true;
  parent_collection = none;
  collection_index = 0;
  n_indices = 0;
}

-- `ControlBlock(in_handle)`
unfoldable pub make_block : Option Handle → M ℕ
unfolding allocate construct new_block
make_block (some h) = do
  p ← allocate
  construct p
  new_block (record blank_block { handle = some h; contents = p })
make_block none = new_block (record blank_block { owns_data = false })

-- `ControlBlock(in_handle, in_data)`, for fetching.
unfoldable pub make_block_at : Option Handle → Pointer → M ℕ
unfolding new_block
make_block_at h p = new_block (record blank_block { handle = h; contents = p; owns_data = false })

-- `ControlBlock(in_data, parent_coll, collection_index)`
unfoldable pub make_block_in : Pointer → ℕ → ℕ → M ℕ
unfolding new_block
make_block_in p parent index = new_block (record blank_block {
  contents = p;
  owns_data = false;
  parent_collection = some parent;
  collection_index = index;
})

abbrev pub shift : Pointer → ℕ → Pointer
shift null_pointer n = null_pointer
shift (at a i) n = at a (i + n)

-- The loops over the indices `0 .. n - 1` of a collection.
unfoldable pub construct_indices : Pointer → ℕ → ℕ → M (Unit {0})
unfolding construct
construct_indices base md_size zero = pure tt
construct_indices base md_size (suc n) = do
  construct_indices base md_size n
  construct (shift base (n * md_size))

unfoldable destroy_indices : Pointer → ℕ → ℕ → M (Unit {0})
unfolding destroy
destroy_indices base md_size zero = pure tt
destroy_indices base md_size (suc n) = do
  destroy_indices base md_size n
  destroy (shift base (n * md_size))

-- `CollectionControlBlock(in_handle, n_idxs)`
unfoldable pub make_collection_block : Handle → ℕ → M ℕ
unfolding allocate construct_indices new_block
make_collection_block h n = do
  p ← allocate
  construct_indices p h.metadata_size n
  new_block (record blank_block { handle = some h; contents = p; n_indices = n })

unfoldable pub data_for_index : ℕ → ℕ → M Pointer
data_for_index block index s =
    and_then (deref (s.blocks block).handle s)
      (λ h. pure (shift (s.blocks block).contents (index * h.metadata_size)))

-- `copy_data`: the packed bytes of the source make an object at the destination, in a new region if
-- the destination is null; the destination is returned.
unfoldable copy_data : Pointer → Pointer → M Pointer
unfolding allocate construct
copy_data source null_pointer = do p ← allocate; construct p; pure p
copy_data source (at a i) = do construct (at a i); pure (at a i)

-- The handle of a block, or of its collection.
abbrev copied_handle : Option Handle → Option ℕ → M Handle
copied_handle (some h) parent s = ok (h, s)
copied_handle none parent s = and_then (require parent s) (λ c t. deref (t.blocks c).handle t)

-- `ControlBlock(copy_underlying_data_tag_t, other_block)`
unfoldable pub copy_block : ℕ → M ℕ
unfolding allocate copy_data new_block
copy_block other = do
  h ← λ s. copied_handle (s.blocks other).handle (s.blocks other).parent_collection s
  p ← allocate
  q ← λ s. copy_data (s.blocks other).contents p s
  new_block (record blank_block { handle = some h; contents = q })

-- `~ControlBlock()`
unfoldable pub delete_block : ℕ → M (Unit {0})
unfolding destroy
delete_block block s =
    let b = s.blocks block in
    if b.owns_data then and_then (deref b.handle s) (λ h. destroy b.contents) else ok (tt, s)

abbrev disown : ℕ → M (Unit {0})
disown block s = ok (
  tt,
  record s { blocks = update s.blocks block (record (s.blocks block) { owns_data = false }) },
)

-- `~CollectionControlBlock()`, which the destructor of the base class follows.
unfoldable delete_collection_block : ℕ → M (Unit {0})
unfolding destroy_indices delete_block
delete_collection_block block = do
  λ s.
      let b = s.blocks block in
      if b.owns_data
      then and_then (deref b.handle s)
          (λ h. destroy_indices b.contents h.metadata_size b.n_indices >> disown block)
      else ok (tt, s)
  delete_block block

-- `Flow(cblk, initial_count)`, with the base class's counter and assertion.
unfoldable pub make_flow : Option ℕ → ℕ → M Flow
unfolding make_counter
make_flow block initial_count = do
  trigger ← make_counter initial_count
  assert (not (initial_count == 0))
  λ s. ok (
    record { address = s.next_flow; ready_trigger = trigger },
    record s {
      flows =
          update s.flows s.next_flow
            (record { control_block = block; parent_collection_token = none });
      next_flow = s.next_flow + 1;
    },
  )

unfoldable pub make_anti_flow : ℕ → Bool → M AntiFlow
unfolding make_counter
make_anti_flow initial_count fetching = do
  trigger ← make_counter initial_count
  assert (not (initial_count == 0))
  pure (record { ready_trigger = trigger; is_index_fetching_antiflow = fetching })
