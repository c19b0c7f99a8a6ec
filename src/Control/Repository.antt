-- ===== src/Control/Repository.antt =====
-- dsx_connect_ng/dsx_connect_ng/control_plane/repository.py: class InMemoryControlPlaneRepository, its
-- methods on integrations and scopes.
use Prim.Native.String.{◌++◌ as str_append}
use dsx_connect.Prelude.{
  ℕ, String, Bool, Option, none, some, List, str_eq, if◌then◌else◌, filter, or_else,
}
use dsx_connect.Prelude.Dict.{get, put, values}
use dsx_connect.Prelude.Sort.{sort_by, ascending}
use dsx_connect.Control.Models.{
  IntegrationCreate, IntegrationUpdate, IntegrationRecord, ProtectedScopeCreate,
  ProtectedScopeUpdate, ProtectedScopeRecord,
}
use dsx_connect.Control.World.{World, Env, M, ◌>>=◌, ◌>>◌, pure, gets, modify, utcnow, uuid4}

-- `given or f"{prefix}{uuid4().hex}"`
abbrev pub or_uuid : Env → String → Option String → M String
or_uuid env prefix none = do hex ← uuid4 env; pure (str_append prefix hex)
or_uuid env prefix (some given) =
    if str_eq given "" then (do hex ← uuid4 env; pure (str_append prefix hex)) else pure given

unfoldable pub list_integrations : World → List IntegrationRecord
unfolding values sort_by
list_integrations w = sort_by (ascending (λ row. row.created_at)) (values w.integrations)

unfoldable pub get_integration : String → World → Option IntegrationRecord
unfolding get
get_integration integration_id w = get w.integrations integration_id

abbrev pub put_integration : String → IntegrationRecord → M (Unit {0})
unfolding put
put_integration integration_id row =
    modify (λ w. record w { integrations = put w.integrations integration_id row })

unfoldable pub create_integration : Env → IntegrationCreate → M IntegrationRecord
unfolding put_integration
create_integration env p = do
  integration_id ← or_uuid env "int_" p.integration_id
  created_at ← utcnow env
  updated_at ← utcnow env
  let row : IntegrationRecord = record {
    integration_id = integration_id;
    platform = p.platform;
    platform_key = p.platform_key;
    display_name = p.display_name;
    enabled = p.enabled;
    capability_discover = p.capability_discover;
    capability_monitor = p.capability_monitor;
    capability_enumerate = p.capability_enumerate;
    capability_read = p.capability_read;
    capability_remediate = p.capability_remediate;
    config = p.config;
    created_at = created_at;
    updated_at = updated_at;
  }
  put_integration integration_id row
  pure row

-- `current.model_copy(update={**payload.model_dump(exclude_none=True), "updated_at": …})`
abbrev pub merged_integration : IntegrationRecord → IntegrationUpdate → ℕ → IntegrationRecord
merged_integration current p now = record current {
  display_name = or_else p.display_name current.display_name;
  enabled = or_else p.enabled current.enabled;
  capability_discover = or_else p.capability_discover current.capability_discover;
  capability_monitor = or_else p.capability_monitor current.capability_monitor;
  capability_enumerate = or_else p.capability_enumerate current.capability_enumerate;
  capability_read = or_else p.capability_read current.capability_read;
  capability_remediate = or_else p.capability_remediate current.capability_remediate;
  config = or_else p.config current.config;
  updated_at = now;
}

write_integration :
    Env → String → IntegrationUpdate → Option IntegrationRecord → M (Option IntegrationRecord)
unfolding put_integration
write_integration env integration_id p none = pure none
write_integration env integration_id p (some current) = do
  now ← utcnow env
  put_integration integration_id (merged_integration current p now)
  pure (some (merged_integration current p now))

unfoldable pub update_integration : Env → String → IntegrationUpdate → M (Option IntegrationRecord)
unfolding get write_integration
update_integration env integration_id p = do
  current ← gets (λ w. get w.integrations integration_id)
  write_integration env integration_id p current

abbrev pub of_integration : String → ProtectedScopeRecord → Bool
of_integration integration_id row = str_eq row.integration_id integration_id

-- `list_scopes`, for an integration that is named
unfoldable pub list_scopes : String → World → List ProtectedScopeRecord
unfolding values sort_by
list_scopes integration_id w = sort_by (ascending (λ row. row.created_at)) (
    if str_eq integration_id ""
    then values w.scopes
    else filter (of_integration integration_id) (values w.scopes))

unfoldable pub get_scope : String → World → Option ProtectedScopeRecord
unfolding get
get_scope scope_id w = get w.scopes scope_id

abbrev pub put_scope : String → ProtectedScopeRecord → M (Unit {0})
unfolding put
put_scope scope_id row = modify (λ w. record w { scopes = put w.scopes scope_id row })

abbrev pub new_scope : String → ProtectedScopeCreate → List ℕ → ℕ → ℕ → ProtectedScopeRecord
new_scope scope_id p normalized created_at updated_at = record {
  scope_id = scope_id;
  normalized_selector = normalized;
  integration_id = p.integration_id;
  scope_type = p.scope_type;
  resource_selector = p.resource_selector;
  display_name = p.display_name;
  mode = p.mode;
  enabled = p.enabled;
  filter_expression = p.filter_expression;
  post_scan_policy = p.post_scan_policy;
  created_at = created_at;
  updated_at = updated_at;
}

-- The record that `create_scope` stores, under its identifier.
unfoldable pub store_scope : Env → ProtectedScopeCreate → List ℕ → String → M ProtectedScopeRecord
unfolding put_scope
store_scope env p normalized scope_id = do
  created_at ← utcnow env
  updated_at ← utcnow env
  put_scope scope_id (new_scope scope_id p normalized created_at updated_at)
  pure (new_scope scope_id p normalized created_at updated_at)

unfoldable pub create_scope : Env → ProtectedScopeCreate → List ℕ → M ProtectedScopeRecord
unfolding store_scope
create_scope env p normalized = do
  scope_id ← or_uuid env "scope_" p.scope_id
  store_scope env p normalized scope_id

-- `o if o is not None else current`, where both may be None
abbrev or_current : Option String → Option String → Option String
or_current none current = current
or_current (some s) current = some s

abbrev pub merged_scope :
    ProtectedScopeRecord → ProtectedScopeUpdate → Option (List ℕ) → ℕ → ProtectedScopeRecord
merged_scope current p normalized now = record current {
  display_name = or_else p.display_name current.display_name;
  mode = or_else p.mode current.mode;
  enabled = or_else p.enabled current.enabled;
  filter_expression = or_current p.filter_expression current.filter_expression;
  post_scan_policy = or_else p.post_scan_policy current.post_scan_policy;
  normalized_selector = or_else normalized current.normalized_selector;
  updated_at = now;
}

unfoldable pub write_scope :
    Env
    → String
    → ProtectedScopeUpdate
    → Option (List ℕ)
    → Option ProtectedScopeRecord
    → M (Option ProtectedScopeRecord)
unfolding put_scope
write_scope env scope_id p normalized none = pure none
write_scope env scope_id p normalized (some current) = do
  now ← utcnow env
  put_scope scope_id (merged_scope current p normalized now)
  pure (some (merged_scope current p normalized now))

unfoldable pub update_scope :
    Env → String → ProtectedScopeUpdate → Option (List ℕ) → M (Option ProtectedScopeRecord)
unfolding get write_scope
update_scope env scope_id p normalized = do
  current ← gets (λ w. get w.scopes scope_id)
  write_scope env scope_id p normalized current
