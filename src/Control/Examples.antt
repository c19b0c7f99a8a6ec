-- ===== src/Control/Examples.antt =====
-- One integration with one scope.
use dsx_connect.Prelude.{◌≡◌, refl, true, false, none, some, [], ◌∷◌, arith}
use dsx_connect.Prelude.Dict.{get, put}
use dsx_connect.Prelude.Value.{no_fields}
use dsx_connect.Prelude.Text.{codes}
use dsx_connect.Control.Selectors.{path}
use dsx_connect.Control.Models.{
  IntegrationRecord, ProtectedScopeCreate, ProtectedScopeUpdate, ProtectedScopeRecord, ScopeMode,
}
use dsx_connect.Control.World.{World, Env, ok}
use dsx_connect.Control.Repository.{list_scopes, get_integration}
use dsx_connect.Control.Scopes.{create_scope, update_scope, match_scope}
use dsx_connect.Control.Scopes.Apart.{IsApart, IsApart-put, clash}
use dsx_connect.Control.Scopes.Apart.Reached.{
  scope_created, scope_updated, after_all, after_all-IsApart,
}
use dsx_connect.Control.Scopes.Match.{match_scope-covers}

abbrev env : Env
env = record { clock = λ n. n; uuid = λ n. "0"; valid_config = λ c. true; valid_policy = λ c. true }

abbrev integration : IntegrationRecord
integration = record {
  integration_id = "int";
  platform = "smb";
  platform_key = "host";
  display_name = "Files";
  enabled = true;
  capability_discover = true;
  capability_monitor = true;
  capability_enumerate = false;
  capability_read = false;
  capability_remediate = false;
  config = no_fields;
  created_at = 0;
  updated_at = 0;
}

abbrev scope : ProtectedScopeRecord
scope = record {
  scope_id = "s";
  normalized_selector = codes "/a";
  integration_id = "int";
  scope_type = path;
  resource_selector = "/a";
  display_name = "A";
  mode = ScopeMode.monitor;
  enabled = true;
  filter_expression = none;
  post_scan_policy = no_fields;
  created_at = 1;
  updated_at = 1;
}

abbrev empty : World
empty = record {
  integrations = ("int", integration) ∷ [];
  connector_instances = [];
  scopes = [];
  ticks = 0;
}

abbrev store : World
store = record empty { scopes = ("s", scope) ∷ [] }

empty-IsApart : IsApart empty.scopes
unfolding IsApart clash get
empty-IsApart i j = ground arith

store-IsApart : IsApart store.scopes
unfolding put list_scopes
store-IsApart = IsApart-put scope "s" empty empty-IsApart refl

abbrev request : ProtectedScopeCreate
request = record {
  scope_id = none;
  integration_id = "int";
  scope_type = path;
  resource_selector = "/a/b";
  display_name = "B";
  mode = ScopeMode.monitor;
  enabled = true;
  filter_expression = none;
  post_scan_policy = no_fields;
}

abbrev change : ProtectedScopeUpdate
change = record {
  display_name = some "Z";
  mode = none;
  enabled = some false;
  filter_expression = none;
  post_scan_policy = none;
}

after_all-IsApart_example :
    IsApart (after_all env (scope_created request ∷ scope_updated "s" change ∷ []) empty).scopes
after_all-IsApart_example =
    after_all-IsApart env (scope_created request ∷ scope_updated "s" change ∷ []) empty refl

match_scope-covers_example : match_scope "int" path "/a/b/c.txt" store ≡ (ok (some scope), store)
unfolding get get_integration dsx_connect.Control.Scopes.covers
    dsx_connect.Control.Selectors.normalize_selector
match_scope-covers_example =
    match_scope-covers "int" "/a/b/c.txt" store "s" scope refl refl (refl, tt) store-IsApart refl
      refl refl refl
