-- ===== src/Register/Whole.antt =====
-- register_use.cpp: the four flows of a use, in the order of the code.
use darma_simple_backend.Prelude.{Option}
use darma_simple_backend.Machine.Types.{Flow, AntiFlow, Use}
use darma_simple_backend.Machine.Monad.{M, pure, ◌>>=◌, ◌>>◌}
use darma_simple_backend.Register.{UsePendingRegistration, set_generated_key, register_in_flow}
use darma_simple_backend.Register.Others.{
  register_anti_in_flow, out_related, register_out_flow, register_anti_out_flow,
}

abbrev pub registered :
    UsePendingRegistration → Option Flow → Option Flow → Option AntiFlow → Option AntiFlow → Use
registered u in_flow out_flow anti_in_flow anti_out_flow = record {
  is_dependency = u.is_dependency;
  is_anti_dependency = u.is_anti_dependency;
  establishes_alias = u.establishes_alias;
  manages_collection = u.manages_collection;
  in_flow = in_flow;
  out_flow = out_flow;
  anti_in_flow = anti_in_flow;
  anti_out_flow = anti_out_flow;
  has_immediate_permissions = u.has_immediate_permissions;
}

-- `Runtime::register_use`. The four `set_…_flow` calls make the registered use.
unfoldable pub register_use : UsePendingRegistration → M Use
unfolding set_generated_key register_in_flow register_anti_in_flow register_out_flow
    register_anti_out_flow
register_use u = do
  set_generated_key u
  in_flow ← register_in_flow u.in_flow_relationship.description u
  anti_in_flow ← register_anti_in_flow u.anti_in_flow_relationship.description u
  related ← out_related u in_flow
  out_flow ← register_out_flow u.out_flow_relationship.description related in_flow
  anti_out_flow ← register_anti_out_flow u.anti_out_flow_relationship.description u anti_in_flow
  pure (registered u in_flow out_flow anti_in_flow anti_out_flow)
