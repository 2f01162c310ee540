-- ===== src/Publication.antt =====
-- publish.cpp: `Runtime::publish_use`, and what register_use.cpp does for the uses that fetch what is
-- published, on the entry of one key in a token's table (publish.hpp). The contents of the data are
-- modelled: an object of the front end at each address.
pub mod Stages
pub mod Copy
pub mod Publishes
pub mod Fetches
pub mod Fetched
use darma_simple_backend.Prelude.{
  suc, ℕ, zero, suc, ◌+◌, ◌-◌, ◌%◌, not, true, false, Bool, Option, none, some, List, [], ◌∷◌, ◌++◌,
  update, if◌then◌else◌, ◌==◌,
}
use darma_simple_backend.Machine.Monad.{Fault, Result, ok, err}
use darma_simple_backend.Machine.Counter.{word}
use darma_simple_backend.Collective.{Frontend, given, and_next}

-- The use that is published: whether its block belongs to a collection, and the address of its data.
pub record PublishedUse : Type 0 where
  pub has_parent_collection : Bool
  pub contents : ℕ

-- The flow that the copy is made for: its block's data, once there is a block, and its ready event.
pub record SourceFlow : Type 0 where
  pub control_block : Option ℕ
  pub is_ready : Bool

-- `PublicationTableEntry::Impl`, with its two counters written out. The actions of the fetching counter
-- are those of the fetching in flows, by number; the release event has none.
pub record TableEntry : Type 0 where
  pub source_flow : Option SourceFlow
  pub fetching_count : ℕ
  pub fetching_triggered : Bool
  pub fetching_actions : List ℕ
  pub release_count : ℕ
  pub release_triggered : Bool

-- The published use's in flow has an event, to which the copying may be attached. For the fetching use of
-- each number: the data and the readiness of its in flow, and the event of its anti-out flow, to which
-- the decrement of the release event may be attached, which reads the entry.
pub record Publishing (A : Type 0) : Type 0 where
  pub entry : Option TableEntry
  pub in_triggered : Bool
  pub in_actions : List PublishedUse
  pub fetched_data : ℕ → Option ℕ
  pub fetched_ready : ℕ → Bool
  pub anti_out_triggered : ℕ → Bool
  pub anti_out_actions : ℕ → ℕ
  pub objects : ℕ → Option A
  pub next_allocation : ℕ
  pub released : List PublishedUse

abbrev pub new_entry : TableEntry
new_entry = record {
  source_flow = none;
  fetching_count = 1;
  fetching_triggered = false;
  fetching_actions = [];
  release_count = 1;
  release_triggered = false;
}

-- `evaluate_at`: the entry of the key, made if it is not there.
abbrev pub or_new : Option TableEntry → TableEntry
or_new none = new_entry
or_new (some e) = e

abbrev pub set_entry : {A : Type 0} → TableEntry → Publishing A → Publishing A
set_entry e s = record s { entry = some e }

-- `release_event->advance_count(n)` and `release_event->decrement_count()`
unfoldable pub advance_release : ℕ → TableEntry → Result TableEntry
advance_release n e =
    if e.release_triggered
    then err Fault.assertion_failed
    else ok (record e { release_count = (e.release_count + n) % word })

unfoldable pub decrement_release : TableEntry → Result TableEntry
decrement_release e =
    if e.release_triggered
    then err Fault.assertion_failed
    else ok (record e {
      release_count = (e.release_count + word - 1) % word;
      release_triggered = e.release_count == 1;
    })

module _ {A : Type 0} where
  -- The lambda of a fetching in flow: it takes the source's data, and the flow, whose count is 1, becomes
  -- ready.
  unfoldable pub fetch_data : ℕ → Publishing A → Result (Publishing A)
  fetch_data f s = given Fault.assertion_failed s.entry λ e.
      given Fault.null_dereference e.source_flow λ source.
        given Fault.null_dereference source.control_block λ p.
          if s.fetched_ready f
          then err Fault.assertion_failed
          else ok (record s {
            fetched_data = update s.fetched_data f (some p);
            fetched_ready = update s.fetched_ready f true;
          })

  abbrev pub fetch_all : List ℕ → Publishing A → Result (Publishing A)
  fetch_all [] s = ok s
  fetch_all (f ∷ fs) s = and_next (fetch_data f s) (fetch_all fs)

  -- `fetching_join_counter->decrement_count()`
  unfoldable pub decrement_fetching : Publishing A → Result (Publishing A)
  unfolding fetch_data
  decrement_fetching s = given Fault.assertion_failed s.entry λ e.
      let left = record e { fetching_count = (e.fetching_count + word - 1) % word } in
      if e.fetching_triggered
      then err Fault.assertion_failed
      else if e.fetching_count == 1
      then fetch_all e.fetching_actions
          (set_entry (record left { fetching_triggered = true; fetching_actions = [] }) s)
      else ok (set_entry left s)

  -- A fetching in flow is made, with null data, and its lambda attached to the fetching counter.
  unfoldable pub fetch_in_flow : ℕ → Publishing A → Result (Publishing A)
  unfolding fetch_data
  fetch_in_flow f s =
      let e = or_new s.entry in
      let made = record s {
        entry = some e;
        fetched_data = update s.fetched_data f none;
        fetched_ready = update s.fetched_ready f false;
      } in
      if e.fetching_triggered
      then fetch_data f made
      else ok (set_entry (record e { fetching_actions = e.fetching_actions ++ f ∷ [] }) made)

  -- What is attached to the anti-out flow of a fetching use.
  unfoldable pub release_fetched : Publishing A → Result (Publishing A)
  unfolding decrement_release
  release_fetched s =
      given Fault.assertion_failed s.entry
        λ e. and_next (decrement_release e) λ left. ok (set_entry left s)

  -- The anti-out flow of a fetching use: its event is to decrement the release event.
  unfoldable pub fetch_anti_out_flow : ℕ → Publishing A → Result (Publishing A)
  unfolding release_fetched
  fetch_anti_out_flow f s = given Fault.assertion_failed s.entry λ e.
      if s.anti_out_triggered f
      then release_fetched s
      else ok
          (record s { anti_out_actions = update s.anti_out_actions f (s.anti_out_actions f + 1) })

  -- `register_use` of a fetching use.
  unfoldable pub fetch_use : ℕ → Publishing A → Result (Publishing A)
  unfolding fetch_in_flow fetch_anti_out_flow
  fetch_use f s = and_next (fetch_in_flow f s) (fetch_anti_out_flow f)

  abbrev pub run_decrements : ℕ → Publishing A → Result (Publishing A)
  run_decrements zero s = ok s
  run_decrements (suc k) s = and_next (release_fetched s) (run_decrements k)

  -- The fetching use is released: its anti-out flow's event fires.
  unfoldable pub free_fetched : ℕ → Publishing A → Result (Publishing A)
  unfolding release_fetched
  free_fetched f s = run_decrements (s.anti_out_actions f) (record s {
    anti_out_triggered = update s.anti_out_triggered f true;
    anti_out_actions = update s.anti_out_actions f 0;
  })

module _ {A B : Type 0} (frontend : Frontend A B) where
  -- The lambda of the published use's in flow: the data is copied to a new region, the source flow gets
  -- a block with the copy and becomes ready, the fetching counter is decremented, and the use released.
  unfoldable pub copy_published : PublishedUse → Publishing A → Result (Publishing A)
  unfolding decrement_fetching
  copy_published u s = given Fault.assertion_failed s.entry λ e.
      given Fault.null_dereference e.source_flow λ source.
        given Fault.null_dereference (s.objects u.contents) λ v.
          if source.is_ready
          then err Fault.assertion_failed
          else and_next
              (decrement_fetching (record s {
                entry = some (record e {
                  source_flow =
                      some (record { control_block = some s.next_allocation; is_ready = true });
                });
                objects =
                    update s.objects s.next_allocation
                      (some (frontend.unpack_data (frontend.pack_data v)));
                next_allocation = s.next_allocation + 1;
              }))
              λ t. ok (record t { released = t.released ++ u ∷ [] })

  abbrev pub copy_all : List PublishedUse → Publishing A → Result (Publishing A)
  copy_all [] s = ok s
  copy_all (u ∷ us) s = and_next (copy_published u s) (copy_all us)

  -- The rest of `publish_use`, once the release event has been counted: a source flow with no block, and
  -- the lambda on the use's in flow.
  unfoldable pub await_copy : PublishedUse → TableEntry → Publishing A → Result (Publishing A)
  unfolding copy_published
  await_copy u e s =
      let t =
        set_entry
          (record e { source_flow = some (record { control_block = none; is_ready = false }) }) s in
      if t.in_triggered
      then copy_published u t
      else ok (record t { in_actions = t.in_actions ++ u ∷ [] })

  -- `Runtime::publish_use`
  unfoldable pub publish_use : ℕ → PublishedUse → Publishing A → Result (Publishing A)
  unfolding advance_release decrement_release await_copy
  publish_use n_fetchers u s =
      if not u.has_parent_collection
      then err Fault.assertion_failed
      else and_next (advance_release n_fetchers (or_new s.entry))
          λ advanced. and_next (decrement_release advanced) λ counted. await_copy u counted s

  -- The published use's in flow becomes ready.
  unfoldable pub fire_in_flow : Publishing A → Result (Publishing A)
  unfolding copy_published
  fire_in_flow s = copy_all s.in_actions (record s { in_triggered = true; in_actions = [] })

-- What happens around a published entry. `writes` is a later task that writes the published use's data.
pub data PublicationEvent (A : Type 0) : Type 0 where
  publishes in_flow_fires : PublicationEvent A
  fetches frees : ℕ → PublicationEvent A
  writes : A → PublicationEvent A

module _ {A B : Type 0} (frontend : Frontend A B) (n_fetchers : ℕ) (u : PublishedUse) where
  unfoldable pub publication_step : PublicationEvent A → Publishing A → Result (Publishing A)
  unfolding publish_use fire_in_flow fetch_use free_fetched
  publication_step publishes s = publish_use frontend n_fetchers u s
  publication_step in_flow_fires s = fire_in_flow frontend s
  publication_step (fetches f) s = fetch_use f s
  publication_step (frees f) s = free_fetched f s
  publication_step (writes v) s = ok (record s { objects = update s.objects u.contents (some v) })

  unfoldable pub publication_steps :
      List (PublicationEvent A) → Publishing A → Result (Publishing A)
  unfolding publication_step
  publication_steps [] s = ok s
  publication_steps (p ∷ ps) s = and_next (publication_step p s) (publication_steps ps)
