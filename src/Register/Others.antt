-- ===== src/Register/Others.antt =====
-- register_use.cpp: the anti-in flow, the out flow and the anti-out flow of a use.
use darma_simple_backend.Prelude.{not, true, false, Bool, Option, none, some, if◌then◌else◌}
use darma_simple_backend.Machine.Types.{Flow, AntiFlow}
use darma_simple_backend.Machine.Monad.{ok, M, pure, ◌>>=◌, ◌>>◌, assert, deref, require, is_some}
use darma_simple_backend.Machine.Counter.{increment_count, decrement_count, attach_decrement_of}
use darma_simple_backend.Flow.{make_block, make_flow, make_anti_flow}
use darma_simple_backend.Register.Published.{entry_at}
use darma_simple_backend.Register.{
  Description, insignificant, insignificant_collection, same, same_collection, next,
  next_collection, initial, initial_collection, null, null_collection, indexed_local,
  indexed_fetching, forwarding, UsePendingRegistration, fail, block_of, token_of, related_flow_of,
  collection_key,
}

abbrev pub when : Bool → M (Unit {0}) → M (Unit {0})
when true m = m
when false m = pure tt

-- The related anti-flow, kept back by a use that is no anti-dependency.
unfoldable pub hold_anti_in : Option AntiFlow → Bool → M (Option AntiFlow)
unfolding increment_count
hold_anti_in none is_anti = pure none
hold_anti_in (some a) is_anti = do
  when (not is_anti) (increment_count a.ready_trigger)
  pure (some a)

unfoldable pub local_anti_in : Option AntiFlow → M (Option AntiFlow)
unfolding make_anti_flow attach_decrement_of
local_anti_in none = pure none
local_anti_in (some related) = do
  a ← make_anti_flow 1 false
  attach_decrement_of related.ready_trigger a.ready_trigger
  pure (some a)

unfoldable pub new_anti_flow : M (Option AntiFlow)
unfolding make_anti_flow
new_anti_flow = do a ← make_anti_flow 1 false; pure (some a)

unfoldable pub next_anti_in : UsePendingRegistration → M (Option AntiFlow)
unfolding new_anti_flow
next_anti_in u = do
  related ← require u.anti_in_flow_relationship.related_anti_flow
  assert (not u.is_anti_dependency)
  new_anti_flow

-- The anti-in flow's `switch`.
unfoldable pub register_anti_in_flow : Description → UsePendingRegistration → M (Option AntiFlow)
unfolding hold_anti_in local_anti_in next_anti_in make_anti_flow decrement_count
register_anti_in_flow insignificant u = pure none
register_anti_in_flow insignificant_collection u = pure none
register_anti_in_flow same u = do
  a ← require u.anti_in_flow_relationship.related_anti_flow
  hold_anti_in a u.is_anti_dependency
register_anti_in_flow same_collection u = do
  a ← require u.anti_in_flow_relationship.related_anti_flow
  hold_anti_in a u.is_anti_dependency
register_anti_in_flow next u = next_anti_in u
register_anti_in_flow next_collection u = next_anti_in u
register_anti_in_flow forwarding u = do
  related ← require u.anti_in_flow_relationship.related_anti_flow
  assert (is_some related)
  assert u.is_anti_dependency
  a ← make_anti_flow 1 false
  decrement_count a.ready_trigger
  pure (some a)
register_anti_in_flow indexed_local u = do
  related ← require u.anti_in_flow_relationship.related_anti_flow
  assert u.is_anti_dependency
  local_anti_in related
register_anti_in_flow _ u = fail

-- `out_related`: the relationship's pointer, or the address of the in flow.
abbrev pub out_related : UsePendingRegistration → Option Flow → M (Option (Option Flow))
out_related u in_flow =
    if u.out_flow_relationship.use_corresponding_in_flow_as_related
    then assert (is_some in_flow) >> pure (some in_flow)
    else pure u.out_flow_relationship.related_flow

unfoldable pub held_out_flow : Option (Option Flow) → M (Option Flow)
unfolding increment_count
held_out_flow related = do
  out ← require related
  f ← deref out
  increment_count f.ready_trigger
  pure (some f)

-- A flow over the block of another, with one count for its use.
unfoldable pub new_out_flow : Flow → M (Option Flow)
unfolding make_flow
new_out_flow related = do block ← block_of related; f ← make_flow block 1; pure (some f)

unfoldable pub next_out_flow : Option (Option Flow) → M (Option Flow)
unfolding new_out_flow
next_out_flow related = do out ← require related; f ← deref out; new_out_flow f

unfoldable pub local_out_flow : Option (Option Flow) → M (Option Flow)
unfolding increment_count make_block make_flow attach_decrement_of
local_out_flow related = do
  out ← require related
  r ← deref out
  increment_count r.ready_trigger
  b ← make_block none
  f ← make_flow (some b) 1
  attach_decrement_of f.ready_trigger r.ready_trigger
  pure (some f)

-- The out flow's `switch`.
unfoldable pub register_out_flow :
    Description → Option (Option Flow) → Option Flow → M (Option Flow)
unfolding held_out_flow next_out_flow new_out_flow local_out_flow
register_out_flow insignificant related in_flow = pure none
register_out_flow insignificant_collection related in_flow = pure none
register_out_flow same related in_flow = held_out_flow related
register_out_flow same_collection related in_flow = held_out_flow related
register_out_flow next related in_flow = next_out_flow related
register_out_flow next_collection related in_flow = next_out_flow related
register_out_flow null related in_flow = do f ← require in_flow; new_out_flow f
register_out_flow null_collection related in_flow = do f ← require in_flow; new_out_flow f
register_out_flow indexed_local related in_flow = local_out_flow related
register_out_flow _ related in_flow = fail

-- `anti_out_related_anti_flow`: the relationship's pointer, or the address of the anti-in flow.
abbrev pub anti_out_related : UsePendingRegistration → Option AntiFlow → Option (Option AntiFlow)
anti_out_related u anti_in_flow =
    if u.anti_out_flow_relationship.use_corresponding_in_flow_as_anti_related
    then some anti_in_flow
    else u.anti_out_flow_relationship.related_anti_flow

-- The assertion reads the relationship's own pointer, and the flow is the corresponding one.
unfoldable pub held_anti_out_flow :
    UsePendingRegistration → Option (Option AntiFlow) → M (Option AntiFlow)
unfolding increment_count
held_anti_out_flow u related = do
  assert (is_some u.anti_out_flow_relationship.related_anti_flow)
  anti_out ← deref related
  a ← deref anti_out
  increment_count a.ready_trigger
  pure (some a)

unfoldable pub next_anti_out_flow : Option (Option AntiFlow) → M (Option AntiFlow)
unfolding new_anti_flow
next_anti_out_flow related = do r ← require related; assert (is_some r); new_anti_flow

unfoldable pub local_anti_out_flow : Option (Option AntiFlow) → M (Option AntiFlow)
unfolding make_anti_flow increment_count attach_decrement_of
local_anti_out_flow related = do
  r ← require related
  a ← require r
  increment_count a.ready_trigger
  b ← make_anti_flow 1 false
  attach_decrement_of b.ready_trigger a.ready_trigger
  pure (some b)

unfoldable fetching_anti_out_flow : UsePendingRegistration → M (Option AntiFlow)
unfolding make_anti_flow collection_key entry_at attach_decrement_of
fetching_anti_out_flow u = do
  f ← related_flow_of u.in_flow_relationship
  t ← token_of f
  token ← require t
  a ← make_anti_flow 1 true
  coll_cntrl ← block_of f
  key ← collection_key coll_cntrl
  version ← deref u.anti_out_flow_relationship.version_key
  e ← λ s.
      require
        (entry_at (key, version, u.anti_out_flow_relationship.index)
          (s.tokens token).current_published_entries)
        s
  release ← λ s. ok ((s.entries e).release_event, s)
  attach_decrement_of a.ready_trigger release
  pure (some a)

-- The anti-out flow's `switch`.
unfoldable pub register_anti_out_flow :
    Description → UsePendingRegistration → Option AntiFlow → M (Option AntiFlow)
unfolding new_anti_flow held_anti_out_flow next_anti_out_flow local_anti_out_flow
    fetching_anti_out_flow
register_anti_out_flow insignificant u anti_in = pure none
register_anti_out_flow insignificant_collection u anti_in = pure none
register_anti_out_flow initial u anti_in = new_anti_flow
register_anti_out_flow initial_collection u anti_in = new_anti_flow
register_anti_out_flow same u anti_in = held_anti_out_flow u (anti_out_related u anti_in)
register_anti_out_flow same_collection u anti_in = held_anti_out_flow u (anti_out_related u anti_in)
register_anti_out_flow next u anti_in = next_anti_out_flow (anti_out_related u anti_in)
register_anti_out_flow next_collection u anti_in = next_anti_out_flow (anti_out_related u anti_in)
register_anti_out_flow indexed_local u anti_in = local_anti_out_flow (anti_out_related u anti_in)
register_anti_out_flow indexed_fetching u anti_in = fetching_anti_out_flow u
register_anti_out_flow _ u anti_in = fail
