-- ===== src/Control/Scopes.antt =====
-- dsx_connect_ng/dsx_connect_ng/control_plane/service.py: class ControlPlaneService, its methods on
-- integrations and scopes.
pub mod Apart
pub mod Match
use dsx_connect.Prelude.{
  ℕ, String, Bool, true, false, not, ◌&&◌, ◌||◌, Option, none, some, List, [], ◌∷◌, str_eq,
  if◌then◌else◌, filter, any, length, ltb,
}
use dsx_connect.Prelude.Value.{Fields}
use dsx_connect.Prelude.Text.{same_codes}
use dsx_connect.Control.Selectors.{
  ScopeType, path, identity, is_identity, normalize_selector, selectors_overlap, rstrip_slash,
  starts_with, as_prefix,
}
use dsx_connect.Control.Models.{
  IntegrationCreate, IntegrationUpdate, IntegrationRecord, ProtectedScopeCreate,
  ProtectedScopeUpdate, ProtectedScopeRecord,
}
use dsx_connect.Control.World.{World, Env, M, ◌>>=◌, ◌>>◌, pure, gets, http_error, or_404, demand}
use dsx_connect.Control.Repository.{list_integrations, get_integration, list_scopes, get_scope}
use dsx_connect.Control.Repository as Repo

unfoldable pub get_integration_or_404 : String → M IntegrationRecord
unfolding get_integration
get_integration_or_404 integration_id = do
  row ← gets (get_integration integration_id)
  or_404 row "integration_not_found"

-- `_validate_integration_config`
abbrev pub validate_integration_config : Env → IntegrationCreate → M (Unit {0})
validate_integration_config env p =
    demand (env.valid_config p.config) 422 "invalid_integration_runtime_config"

abbrev pub same_platform : IntegrationCreate → IntegrationRecord → Bool
same_platform p row = str_eq row.platform p.platform && str_eq row.platform_key p.platform_key

unfoldable pub create_integration : Env → IntegrationCreate → M IntegrationRecord
unfolding list_integrations Repo.create_integration
create_integration env p = do
  validate_integration_config env p
  rows ← gets list_integrations
  demand (not (any (same_platform p) rows)) 409 "integration_platform_key_conflict"
  Repo.create_integration env p

abbrev valid_update : Env → Option Fields → M (Unit {0})
valid_update env none = pure tt
valid_update env (some config) =
    demand (env.valid_config config) 422 "invalid_integration_runtime_config"

unfoldable pub update_integration : Env → String → IntegrationUpdate → M IntegrationRecord
unfolding get_integration_or_404 Repo.update_integration
update_integration env integration_id p = do
  get_integration_or_404 integration_id
  valid_update env p.config
  row ← Repo.update_integration env integration_id p
  or_404 row "integration_not_found"

unfoldable pub get_scope_or_404 : String → M ProtectedScopeRecord
unfolding get_scope
get_scope_or_404 scope_id = do row ← gets (get_scope scope_id); or_404 row "scope_not_found"

abbrev pub same_type : ScopeType → ScopeType → Bool
same_type s t = if is_identity s then is_identity t else not (is_identity t)

-- `exclude_scope_id and existing.scope_id == exclude_scope_id`
abbrev pub is_excluded : Option String → ProtectedScopeRecord → Bool
is_excluded none row = false
is_excluded (some scope_id) row = not (str_eq scope_id "") && str_eq row.scope_id scope_id

-- Does the loop of `_validate_overlap` raise at this row?
abbrev pub conflicts : ScopeType → List ℕ → Option String → ProtectedScopeRecord → Bool
unfolding selectors_overlap
conflicts scope_type normalized excluded row =
    not (is_excluded excluded row)
    && (same_type row.scope_type scope_type
        && selectors_overlap scope_type row.normalized_selector normalized)

-- `_validate_overlap`
unfoldable pub validate_overlap : String → ScopeType → List ℕ → Option String → M (Unit {0})
unfolding list_scopes conflicts
validate_overlap integration_id scope_type normalized excluded = do
  rows ← gets (list_scopes integration_id)
  demand (not (any (conflicts scope_type normalized excluded) rows)) 409 "scope_overlap"

-- `_validate_scope_policy`
abbrev pub validate_scope_policy : Env → Fields → M (Unit {0})
validate_scope_policy env policy =
    demand (env.valid_policy policy) 422 "invalid_scope_policy_config"

unfoldable pub create_scope : Env → ProtectedScopeCreate → M ProtectedScopeRecord
unfolding get_integration_or_404 validate_overlap normalize_selector Repo.create_scope
create_scope env p = do
  get_integration_or_404 p.integration_id
  validate_scope_policy env p.post_scan_policy
  validate_overlap p.integration_id p.scope_type
      (normalize_selector p.scope_type p.resource_selector) none
  Repo.create_scope env p (normalize_selector p.scope_type p.resource_selector)

abbrev pub valid_policy_update : Env → Option Fields → M (Unit {0})
valid_policy_update env none = pure tt
valid_policy_update env (some policy) = validate_scope_policy env policy

unfoldable pub update_scope : Env → String → ProtectedScopeUpdate → M ProtectedScopeRecord
unfolding get_scope_or_404 validate_overlap Repo.update_scope
update_scope env scope_id p = do
  current ← get_scope_or_404 scope_id
  valid_policy_update env p.post_scan_policy
  validate_overlap current.integration_id current.scope_type current.normalized_selector
      (some scope_id)
  row ← Repo.update_scope env scope_id p (some current.normalized_selector)
  or_404 row "scope_not_found"

-- `scope.enabled and scope.scope_type == scope_type`
abbrev pub is_candidate : ScopeType → ProtectedScopeRecord → Bool
is_candidate scope_type row = row.enabled && same_type row.scope_type scope_type

-- The loop over the candidates for an identity.
abbrev pub find_exact : List ℕ → List ProtectedScopeRecord → Option ProtectedScopeRecord
find_exact normalized [] = none
find_exact normalized (row ∷ rows) =
    let rest : Option ProtectedScopeRecord = find_exact normalized rows in
    if same_codes row.normalized_selector normalized then some row else rest

-- `normalized_selector == selector or normalized_selector.startswith(prefix)`
unfoldable pub covers : List ℕ → ProtectedScopeRecord → Bool
unfolding rstrip_slash
covers normalized row =
    same_codes normalized (rstrip_slash row.normalized_selector)
    || starts_with normalized (as_prefix row.normalized_selector)

abbrev pub is_longer : ProtectedScopeRecord → Option ProtectedScopeRecord → Bool
is_longer row none = true
is_longer row (some best) = ltb (length best.normalized_selector) (length row.normalized_selector)

-- The loop over the candidates for a path.
unfoldable pub longest :
    List ℕ → List ProtectedScopeRecord → Option ProtectedScopeRecord → Option ProtectedScopeRecord
unfolding covers
longest normalized [] best = best
longest normalized (row ∷ rows) best =
    longest normalized rows (if covers normalized row && is_longer row best then some row else best)

abbrev pub best_match : ScopeType → List ℕ → List ProtectedScopeRecord → Option ProtectedScopeRecord
unfolding longest
best_match identity normalized rows = find_exact normalized rows
best_match path normalized rows = longest normalized rows none

unfoldable pub match_scope : String → ScopeType → String → M (Option ProtectedScopeRecord)
unfolding get_integration_or_404 list_scopes normalize_selector best_match
match_scope integration_id scope_type resource_selector = do
  get_integration_or_404 integration_id
  rows ← gets (list_scopes integration_id)
  pure (
      best_match scope_type (normalize_selector scope_type resource_selector)
        (filter (is_candidate scope_type) rows))
