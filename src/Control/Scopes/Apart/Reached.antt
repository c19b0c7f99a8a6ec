-- ===== src/Control/Scopes/Apart/Reached.antt =====
-- Every state of the control plane that its operations reach from one without scopes.
use dsx_connect.Prelude.{String, ◌≡◌, List, [], ◌∷◌, sym, subst, arith}
use dsx_connect.Prelude.Dict.{get}
use dsx_connect.Control.Models.{
  IntegrationCreate, IntegrationUpdate, ProtectedScopeCreate, ProtectedScopeUpdate,
  ConnectorInstanceRegister, ConnectorInstanceHeartbeat,
}
use dsx_connect.Control.World.{World, Env}
use dsx_connect.Control.Repository as Repo
use dsx_connect.Control.Scopes.{
  create_integration, update_integration, create_scope, update_scope, get_integration_or_404,
}
use dsx_connect.Control.Connectors.{upsert_connector_instance, update_connector_instance_heartbeat}
use dsx_connect.Control.Scopes.Apart.{IsApart, clash}
use dsx_connect.Control.Scopes.Apart.Kept.{create_scope-IsApart, update_scope-IsApart}

-- The operations that write the state.
pub data Operation : Type 0 where
  integration_created : IntegrationCreate → Operation
  integration_updated : String → IntegrationUpdate → Operation
  scope_created : ProtectedScopeCreate → Operation
  scope_updated : String → ProtectedScopeUpdate → Operation
  connector_registered : ConnectorInstanceRegister → String → Operation
  connector_beat : String → ConnectorInstanceHeartbeat → Operation

-- The state after an operation, whether it returned or raised.
unfoldable pub after : Env → Operation → World → World
after env (integration_created p) w = (create_integration env p w).1
after env (integration_updated id p) w = (update_integration env id p w).1
after env (scope_created p) w = (create_scope env p w).1
after env (scope_updated id p) w = (update_scope env id p w).1
after env (connector_registered p id) w = (upsert_connector_instance env p id w).1
after env (connector_beat id p) w = (update_connector_instance_heartbeat env id p w).1

unfoldable pub after_all : Env → List Operation → World → World
unfolding after
after_all env [] w = w
after_all env (o ∷ os) w = after_all env os (after env o w)

create_integration-scopes :
    (env : Env) (p : IntegrationCreate) (w : World)
    → (create_integration env p w).1.scopes ≡ w.scopes
unfolding create_integration Repo.create_integration
create_integration-scopes env p w = ground arith

update_integration-scopes :
    (env : Env) (id : String) (p : IntegrationUpdate) (w : World)
    → (update_integration env id p w).1.scopes ≡ w.scopes
unfolding update_integration Repo.update_integration get_integration_or_404
update_integration-scopes env id p w = ground arith

upsert-scopes :
    (env : Env) (p : ConnectorInstanceRegister) (id : String) (w : World)
    → (upsert_connector_instance env p id w).1.scopes ≡ w.scopes
unfolding upsert_connector_instance
upsert-scopes env p id w = ground arith

beat-scopes :
    (env : Env) (id : String) (p : ConnectorInstanceHeartbeat) (w : World)
    → (update_connector_instance_heartbeat env id p w).1.scopes ≡ w.scopes
unfolding update_connector_instance_heartbeat
beat-scopes env id p w = ground arith

after-IsApart :
    (env : Env) (o : Operation) (w : World) → IsApart w.scopes → IsApart (after env o w).scopes
unfolding after
after-IsApart env (integration_created p) w h =
    subst IsApart (sym (create_integration-scopes env p w)) h
after-IsApart env (integration_updated id p) w h =
    subst IsApart (sym (update_integration-scopes env id p w)) h
after-IsApart env (scope_created p) w h = create_scope-IsApart env p w h
after-IsApart env (scope_updated id p) w h = update_scope-IsApart env id p w h
after-IsApart env (connector_registered p id) w h = subst IsApart (sym (upsert-scopes env p id w)) h
after-IsApart env (connector_beat id p) w h = subst IsApart (sym (beat-scopes env id p w)) h

kept :
    (env : Env) (os : List Operation) (w : World)
    → IsApart w.scopes
    → IsApart (after_all env os w).scopes
unfolding after_all
kept env [] w h = h
kept env (o ∷ os) w h = kept env os (after env o w) (after-IsApart env o w h)

none-IsApart : IsApart []
unfolding IsApart clash get
none-IsApart i j = ground arith

-- Whatever integrations, scopes and connector instances are created, changed and refreshed, in any
-- order and with any refusals, from a state without scopes: no scope of an integration overlaps
-- another of it.
pub after_all-IsApart :
    (env : Env) (os : List Operation) (w : World)
    → w.scopes ≡ []
    → IsApart (after_all env os w).scopes
after_all-IsApart env os w empty = kept env os w (subst IsApart (sym empty) none-IsApart)
