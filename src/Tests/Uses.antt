-- ===== src/Tests/Uses.antt =====
-- Uses: the flows of a first use, and their release.
use darma_simple_backend.Prelude.{ℕ, ◌≡◌, refl, true, false, none, some, [], total, arith}
use darma_simple_backend.Machine.Types.{Use, AntiFlow, Flow}
use darma_simple_backend.Machine.Monad.{Returns, pure, ◌>>=◌}
use darma_simple_backend.Machine.Balance.{Inv}
use darma_simple_backend.Flow.Verbs.{Leaves}
use darma_simple_backend.Register.{
  indexed_local, Relationship, UsePendingRegistration, insignificant, initial, null, same,
  Description, register_in_flow,
}
use darma_simple_backend.Register.Whole.{register_use}
use darma_simple_backend.Release.{release_use}
use darma_simple_backend.Release.Paid.{with_use, release_use-Leaves}
use darma_simple_backend.Release.RoundTrip.{
  Registrable, register_use-Leaves, register_use-release_use,
}
use darma_simple_backend.Runtime.{empty}
use darma_simple_backend.Register.Others.{register_anti_in_flow, register_out_flow}
use darma_simple_backend.Machine.Attach.{with_action}
use darma_simple_backend.Flow.Laws.{Inv-ext}
use darma_simple_backend.Machine.Types.{decrement_of}
use darma_simple_backend.Tests.Counters.{apart, apart-Inv, first_held, no_actions}
use darma_simple_backend.Pending.{Host}

-- A host whose tasks do nothing.
abbrev pub idle : Host
idle = record { run_task = λ t pointers. pure tt; join_threads = pure tt }

abbrev zero_held : ℕ → ℕ
zero_held c = 0

empty-Inv : (n : ℕ) → Inv zero_held [] (empty n)
unfolding total
empty-Inv n = record {
  balance = λ c. refl;
  small = λ c. omega arith;
  fired = λ c e. (refl, refl);
  waiting = λ c. ground arith;
  fresh = λ c p. (refl, refl, refl);
  flows_fresh = λ a p. refl;
  fetchers = λ c. tt;
  sourced = tt;
}

abbrev relation : Description → Relationship
relation d = record {
  description = d;
  related_flow = none;
  related_anti_flow = none;
  index = 0;
  version_key = none;
  use_corresponding_in_flow_as_related = false;
  use_corresponding_in_flow_as_anti_related = false;
}

-- The first use of a handle, with a key that the backend makes.
abbrev first_use : UsePendingRegistration
first_use = record {
  handle = record { id = 3; metadata_size = 8 };
  has_user_defined_key = false;
  is_dependency = true;
  is_anti_dependency = false;
  establishes_alias = false;
  manages_collection = false;
  has_immediate_permissions = true;
  collection_size = 0;
  in_flow_relationship = relation initial;
  anti_in_flow_relationship = relation insignificant;
  out_flow_relationship = relation null;
  anti_out_flow_relationship = relation initial;
}

first_use-Registrable : Registrable first_use (empty 2)
unfolding register_in_flow register_anti_in_flow register_out_flow
first_use-Registrable = record { in_ready = refl; others = (tt, tt, ((_, refl), tt)) }

register_use-Leaves_example :
    Returns
      (register_use first_use (empty 2))
      (λ r t. Leaves (with_use zero_held r) (empty 2) t × (r.establishes_alias ≡ false))
register_use-Leaves_example =
    register_use-Leaves zero_held first_use (empty 2) (empty-Inv 2) first_use-Registrable

register_use-release_use_example :
    Returns
      ((register_use first_use >>= release_use idle) (empty 2))
      (λ _ t. Leaves zero_held (empty 2) t)
register_use-release_use_example =
    register_use-release_use zero_held first_use (empty 2) idle (empty-Inv 2) (λ c. tt)
      first_use-Registrable refl

-- A use that is related to what the counters of `apart` trigger.
abbrev first_anti_flow : AntiFlow
first_anti_flow = record { ready_trigger = 0; is_index_fetching_antiflow = false }

abbrev pub second_flow : Flow
second_flow = record { address = 0; ready_trigger = 1 }

abbrev later_use : UsePendingRegistration
later_use = record first_use {
  anti_in_flow_relationship = record (relation same) {
    related_anti_flow = some (some first_anti_flow);
  };
  anti_out_flow_relationship = record (relation indexed_local) {
    related_anti_flow = some (some first_anti_flow);
  };
}

abbrev pub both_held : ℕ → ℕ
both_held = with_action first_held (decrement_of 1)

abbrev pub held_use : Use
held_use = record {
  is_dependency = true;
  is_anti_dependency = true;
  establishes_alias = false;
  manages_collection = false;
  in_flow = none;
  out_flow = some second_flow;
  anti_in_flow = none;
  anti_out_flow = some first_anti_flow;
  has_immediate_permissions = true;
}

held_use-Inv : Inv (with_use zero_held held_use) [] apart
held_use-Inv =
    Inv-ext both_held (with_use zero_held held_use) [] apart (λ x. ground arith) apart-Inv

release_use-Leaves_example :
    Returns (release_use idle held_use apart) (λ _ t. Leaves zero_held apart t)
release_use-Leaves_example =
    release_use-Leaves idle zero_held apart held_use no_actions refl held_use-Inv
