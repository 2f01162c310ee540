-- ===== src/Release.antt =====
-- release_use.cpp, and the aliasing strategy that config.hpp selects (flow/aliasing_strategy.cpp).
pub mod Paid
pub mod RoundTrip
pub mod Stocked
pub mod Aliased
use darma_simple_backend.Prelude.{ℕ, not, Bool, true, false, Option, none, some, ◌&&◌}
use darma_simple_backend.Machine.Types.{State, Use, Flow, AntiFlow, decrement_trigger}
use darma_simple_backend.Machine.Monad.{
  M, Result, ok, pure, and_then, ◌>>=◌, ◌>>◌, deref, require, assert, is_some,
}
use darma_simple_backend.Machine.Counter.{increment_count, decrement_count}
use darma_simple_backend.Register.Others.{when}
use darma_simple_backend.Pending.{Host, when_ready_do}

abbrev trigger_of : AntiFlow → ℕ
trigger_of a = a.ready_trigger

abbrev pub decrement_flow : Option Flow → M (Unit {0})
decrement_flow none s = ok (tt, s)
decrement_flow (some f) s = decrement_count f.ready_trigger s

abbrev pub decrement_anti_flow : Option AntiFlow → M (Unit {0})
decrement_anti_flow none s = ok (tt, s)
decrement_anti_flow (some a) s = decrement_count a.ready_trigger s

module _ (host : Host) where
  -- `to` becomes ready no earlier than `from`: it is held, and the decrement goes through the work
  -- queue.
  unfoldable pub alias_trigger : ℕ → ℕ → M (Unit {0})
  unfolding increment_count when_ready_do
  alias_trigger from to = do increment_count to; when_ready_do host from (decrement_trigger to)

  unfoldable pub alias_anti_flows : Option AntiFlow → Option AntiFlow → M (Unit {0})
  unfolding alias_trigger
  alias_anti_flows none anti_out s = ok (tt, s)
  alias_anti_flows (some anti_in) anti_out s =
      and_then (require anti_out s) (λ a. alias_trigger (trigger_of a) (trigger_of anti_in))

  unfoldable pub handle_aliasing_for_released_use : Use → M (Unit {0})
  unfolding alias_trigger alias_anti_flows
  handle_aliasing_for_released_use u = do
    out_flow ← deref u.out_flow
    in_flow ← deref u.in_flow
    alias_trigger in_flow.ready_trigger out_flow.ready_trigger
    alias_anti_flows u.anti_in_flow u.anti_out_flow

  -- `Runtime::release_use`
  unfoldable pub release_use : Use → M (Unit {0})
  unfolding handle_aliasing_for_released_use decrement_count
  release_use u = do
    when u.establishes_alias (handle_aliasing_for_released_use u)
    when (not u.is_anti_dependency && is_some u.anti_in_flow) (decrement_anti_flow u.anti_in_flow)
    decrement_flow u.out_flow
    decrement_anti_flow u.anti_out_flow
