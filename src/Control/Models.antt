-- ===== src/Control/Models.antt =====
-- dsx_connect_ng/dsx_connect_ng/control_plane/models.py: integrations and protected scopes.
use dsx_connect.Prelude.{ℕ, String, Bool, Option, List}
use dsx_connect.Prelude.Value.{Fields}
use dsx_connect.Control.Selectors.{ScopeType}

pub record IntegrationCreate : Type 0 where
  pub integration_id : Option String
  pub platform : String
  pub platform_key : String
  pub display_name : String
  pub enabled : Bool
  pub capability_discover : Bool
  pub capability_monitor : Bool
  pub capability_enumerate : Bool
  pub capability_read : Bool
  pub capability_remediate : Bool
  pub config : Fields

pub record IntegrationUpdate : Type 0 where
  pub display_name : Option String
  pub enabled : Option Bool
  pub capability_discover : Option Bool
  pub capability_monitor : Option Bool
  pub capability_enumerate : Option Bool
  pub capability_read : Option Bool
  pub capability_remediate : Option Bool
  pub config : Option Fields

pub record IntegrationRecord : Type 0 where
  pub integration_id : String
  pub platform : String
  pub platform_key : String
  pub display_name : String
  pub enabled : Bool
  pub capability_discover : Bool
  pub capability_monitor : Bool
  pub capability_enumerate : Bool
  pub capability_read : Bool
  pub capability_remediate : Bool
  pub config : Fields
  pub created_at : ℕ
  pub updated_at : ℕ

pub data ConnectorHealth : Type 0 where
  unknown healthy degraded unhealthy : ConnectorHealth

pub record ConnectorInstanceRegister : Type 0 where
  pub connector_instance_id : Option String
  pub display_name : Option String
  pub integration_id : Option String
  pub platform : String
  pub platform_key : String
  pub connector_name : String
  pub connector_version : Option String
  pub base_url : String
  pub capabilities : Fields
  pub health : ConnectorHealth
  pub labels : Fields
  pub lease_seconds : ℕ

pub record ConnectorInstanceHeartbeat : Type 0 where
  pub health : Option ConnectorHealth
  pub connector_version : Option String
  pub capabilities : Option Fields
  pub labels : Option Fields
  pub lease_seconds : Option ℕ

pub record ConnectorInstanceRecord : Type 0 where
  pub connector_instance_id : String
  pub integration_id : String
  pub platform : String
  pub platform_key : String
  pub connector_name : String
  pub connector_version : Option String
  pub base_url : String
  pub capabilities : Fields
  pub health : ConnectorHealth
  pub labels : Fields
  pub lease_seconds : ℕ
  pub first_seen_at : ℕ
  pub last_seen_at : ℕ
  pub expires_at : ℕ
  pub created_at : ℕ
  pub updated_at : ℕ

pub data ScopeMode : Type 0 where
  monitor full_scan : ScopeMode

pub record ProtectedScopeCreate : Type 0 where
  pub scope_id : Option String
  pub integration_id : String
  pub scope_type : ScopeType
  pub resource_selector : String
  pub display_name : String
  pub mode : ScopeMode
  pub enabled : Bool
  pub filter_expression : Option String
  pub post_scan_policy : Fields

pub record ProtectedScopeUpdate : Type 0 where
  pub display_name : Option String
  pub mode : Option ScopeMode
  pub enabled : Option Bool
  pub filter_expression : Option String
  pub post_scan_policy : Option Fields

pub record ProtectedScopeRecord : Type 0 where
  pub scope_id : String
  pub normalized_selector : List ℕ
  pub integration_id : String
  pub scope_type : ScopeType
  pub resource_selector : String
  pub display_name : String
  pub mode : ScopeMode
  pub enabled : Bool
  pub filter_expression : Option String
  pub post_scan_policy : Fields
  pub created_at : ℕ
  pub updated_at : ℕ
