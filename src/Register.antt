-- ===== src/Register.antt =====
-- register_use.cpp: `Runtime::register_use`, one function for each of its four flows.
pub mod Published
pub mod Others
pub mod Whole
pub mod Balance
pub mod AntiIn
pub mod Out
pub mod AntiOut
use darma_simple_backend.Prelude.{
  ℕ, ◌+◌, not, true, false, Bool, Option, none, some, List, [], ◌∷◌, update, if◌then◌else◌,
}
use darma_simple_backend.Machine.Types.{
  State, Key, user_key, backend_key, Handle, null_pointer, Flow, AntiFlow, Use, Entry, fetch_into,
}
use darma_simple_backend.Machine.Monad.{
  Fault, Result, ok, err, M, pure, and_then, ◌>>=◌, ◌>>◌, assert, deref, require, is_some,
}
use darma_simple_backend.Machine.Counter.{
  make_counter, increment_count, decrement_count, attach_action, attach_decrement_of,
}
use darma_simple_backend.Flow.{
  make_block, make_block_at, make_block_in, make_collection_block, data_for_index, make_flow,
  make_anti_flow,
}
use darma_simple_backend.Register.Published.{with_entry}

-- `FlowRelationship::description()`, by the cases that the code names.
pub data Description : Type 0 where
  insignificant insignificant_collection same same_collection next next_collection : Description
  initial initial_collection null null_collection : Description
  indexed_local indexed_fetching forwarding : Description

-- The related flows are pointers to shared pointers: either may be null.
pub record Relationship : Type 0 where
  pub description : Description
  pub related_flow : Option (Option Flow)
  pub related_anti_flow : Option (Option AntiFlow)
  pub index : ℕ
  pub version_key : Option Key
  pub use_corresponding_in_flow_as_related : Bool
  pub use_corresponding_in_flow_as_anti_related : Bool

-- `UsePendingRegistration`, as the front end answers.
pub record UsePendingRegistration : Type 0 where
  pub handle : Handle
  pub has_user_defined_key : Bool
  pub is_dependency : Bool
  pub is_anti_dependency : Bool
  pub establishes_alias : Bool
  pub manages_collection : Bool
  pub has_immediate_permissions : Bool
  pub collection_size : ℕ
  pub in_flow_relationship : Relationship
  pub anti_in_flow_relationship : Relationship
  pub out_flow_relationship : Relationship
  pub anti_out_flow_relationship : Relationship

abbrev pub fail : {A : Type 0} → M A
fail s = err Fault.assertion_failed

unfoldable pub set_generated_key : UsePendingRegistration → M (Unit {0})
set_generated_key u s =
    if u.has_user_defined_key
    then ok (tt, s)
    else ok (
      tt,
      record s {
        handle_keys = update s.handle_keys u.handle.id (some (backend_key s.generated_keys));
        generated_keys = s.generated_keys + 1;
      },
    )

abbrev pub block_of : Flow → M (Option ℕ)
block_of f s = ok ((s.flows f.address).control_block, s)

abbrev pub token_of : Flow → M (Option ℕ)
token_of f s = ok ((s.flows f.address).parent_collection_token, s)

abbrev key_of : Handle → M (Option Key)
key_of h s = ok (s.handle_keys h.id, s)

-- The handle's key of a collection's control block.
unfoldable pub collection_key : Option ℕ → M Key
collection_key block = do
  b ← deref block
  h ← λ s. deref (s.blocks b).handle s
  key ← key_of h
  deref key

-- A flow over a new block, with a count that is released at once.
unfoldable pub ready_flow : ℕ → M (Option Flow)
unfolding make_flow decrement_count
ready_flow b = do f ← make_flow (some b) 1; decrement_count f.ready_trigger; pure (some f)

unfoldable attach_fetch : ℕ → Flow → M (Unit {0})
unfolding attach_action
attach_fetch e f = do
  c ← λ s. ok ((s.entries e).fetching_join_counter, s)
  attach_action c (fetch_into e f)

unfoldable fetching_flow : Handle → Flow → Relationship → M (Option Flow)
unfolding make_block_at make_flow collection_key with_entry attach_fetch
fetching_flow h related r = do
  coll_cntrl ← block_of related
  b ← make_block_at (some h) null_pointer
  f ← make_flow (some b) 1
  t ← token_of related
  token ← require t
  key ← collection_key coll_cntrl
  version ← deref r.version_key
  e ← with_entry token (key, version, r.index)
  attach_fetch e f
  pure (some f)

-- A flow that becomes ready with the related one.
unfoldable pub flow_after : Flow → Option ℕ → M (Option Flow)
unfolding make_flow attach_decrement_of
flow_after related block = do
  f ← make_flow block 1
  attach_decrement_of related.ready_trigger f.ready_trigger
  pure (some f)

-- The block of one index of a collection.
unfoldable pub index_block : Option ℕ → ℕ → M ℕ
unfolding data_for_index make_block_in
index_block coll index = do
  coll_cntrl ← deref coll
  p ← data_for_index coll_cntrl index
  make_block_in p coll_cntrl index

unfoldable pub local_flow : Flow → Relationship → M (Option Flow)
unfolding index_block flow_after
local_flow related r = do
  coll ← block_of related
  b ← index_block coll r.index
  flow_after related (some b)

unfoldable pub following_flow : Flow → M (Option Flow)
unfolding flow_after
following_flow related = do block ← block_of related; flow_after related block

-- `assert(p)`, and then a use of what the shared pointer at `p` points to.
abbrev pub from_pointer : {A : Type 0} → Option (Option A) → M A
from_pointer p = do f ← require p; deref f

abbrev pub related_flow_of : Relationship → M Flow
related_flow_of r = from_pointer r.related_flow

-- The in flow's `switch`.
unfoldable pub register_in_flow : Description → UsePendingRegistration → M (Option Flow)
unfolding ready_flow fetching_flow local_flow following_flow make_block make_collection_block
register_in_flow insignificant u = pure none
register_in_flow insignificant_collection u = pure none
register_in_flow same u = require u.in_flow_relationship.related_flow
register_in_flow same_collection u = require u.in_flow_relationship.related_flow
register_in_flow next u = do f ← related_flow_of u.in_flow_relationship; following_flow f
register_in_flow next_collection u = do f ← related_flow_of u.in_flow_relationship; following_flow f
register_in_flow initial u = do
  assert (not (is_some u.in_flow_relationship.related_flow))
  b ← make_block (some u.handle)
  ready_flow b
register_in_flow initial_collection u = do
  assert (not (is_some u.in_flow_relationship.related_flow))
  b ← make_collection_block u.handle u.collection_size
  ready_flow b
register_in_flow indexed_local u = do
  f ← related_flow_of u.in_flow_relationship
  local_flow f u.in_flow_relationship
register_in_flow indexed_fetching u = do
  f ← related_flow_of u.in_flow_relationship
  fetching_flow u.handle f u.in_flow_relationship
register_in_flow forwarding u = require u.in_flow_relationship.related_flow
register_in_flow _ u = fail
