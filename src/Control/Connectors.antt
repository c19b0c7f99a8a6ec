-- ===== src/Control/Connectors.antt =====
-- dsx_connect_ng/dsx_connect_ng/control_plane/repository.py: class InMemoryControlPlaneRepository, its
-- methods on connector instances, which hold a lease.
pub mod Lease
use dsx_connect.Prelude.{
  ℕ, zero, suc, ◌+◌, ◌*◌, String, Bool, true, false, Option, none, some, List, [], ◌∷◌, str_eq,
  if◌then◌else◌, filter, or_else,
}
use dsx_connect.Prelude.Dict.{Dict, get, put, values}
use dsx_connect.Prelude.Sort.{sort_by, ascending}
use dsx_connect.Control.Models.{
  ConnectorInstanceRegister, ConnectorInstanceHeartbeat, ConnectorInstanceRecord,
}
use dsx_connect.Control.World.{World, Env, M, ◌>>=◌, ◌>>◌, pure, gets, modify, utcnow, or_404}
use dsx_connect.Control.Repository.{or_uuid}

-- `timedelta(seconds=n)`
abbrev pub seconds : ℕ → ℕ
seconds n = 1000000 * n

abbrev pub of_integration : String → ConnectorInstanceRecord → Bool
of_integration integration_id row = str_eq row.integration_id integration_id

-- `list_connector_instances`; an integration that is None or empty selects all.
unfoldable pub list_connector_instances : Option String → World → List ConnectorInstanceRecord
unfolding values sort_by
list_connector_instances none w =
    sort_by (ascending (λ row. row.first_seen_at)) (values w.connector_instances)
list_connector_instances (some integration_id) w = sort_by (ascending (λ row. row.first_seen_at)) (
    if str_eq integration_id ""
    then values w.connector_instances
    else filter (of_integration integration_id) (values w.connector_instances))

unfoldable pub get_connector_instance : String → World → Option ConnectorInstanceRecord
unfolding get
get_connector_instance connector_instance_id w = get w.connector_instances connector_instance_id

abbrev pub put_connector : String → ConnectorInstanceRecord → M (Unit {0})
unfolding put
put_connector connector_instance_id row =
    modify
      (λ w. record w { connector_instances = put w.connector_instances connector_instance_id row })

-- When the instance was first seen, and its row was made.
abbrev first_seen : Option ConnectorInstanceRecord → ℕ → ℕ
first_seen none now = now
first_seen (some current) now = current.first_seen_at

abbrev created : Option ConnectorInstanceRecord → ℕ → ℕ
created none now = now
created (some current) now = current.created_at

abbrev row_id : Option ConnectorInstanceRecord → String → String
row_id none connector_instance_id = connector_instance_id
row_id (some current) connector_instance_id = current.connector_instance_id

-- The row of a registration: a new one, or the current one with the fields of the payload.
abbrev pub registered :
    Option ConnectorInstanceRecord
    → String
    → String
    → ConnectorInstanceRegister
    → ℕ
    → ConnectorInstanceRecord
registered current connector_instance_id integration_id p now = record {
  connector_instance_id = row_id current connector_instance_id;
  integration_id = integration_id;
  platform = p.platform;
  platform_key = p.platform_key;
  connector_name = p.connector_name;
  connector_version = p.connector_version;
  base_url = p.base_url;
  capabilities = p.capabilities;
  health = p.health;
  labels = p.labels;
  lease_seconds = p.lease_seconds;
  first_seen_at = first_seen current now;
  last_seen_at = now;
  expires_at = now + seconds p.lease_seconds;
  created_at = created current now;
  updated_at = now;
}

-- The part of `upsert_connector_instance` after the identifier is known.
unfoldable pub register_as :
    String → ConnectorInstanceRegister → ℕ → String → M ConnectorInstanceRecord
unfolding put_connector get
register_as integration_id p now connector_instance_id = do
  current ← gets (λ w. get w.connector_instances connector_instance_id)
  put_connector connector_instance_id
      (registered current connector_instance_id integration_id p now)
  pure (registered current connector_instance_id integration_id p now)

unfoldable pub upsert_connector_instance :
    Env → ConnectorInstanceRegister → String → M ConnectorInstanceRecord
unfolding register_as
upsert_connector_instance env p integration_id = do
  now ← utcnow env
  connector_instance_id ← or_uuid env "conn_" p.connector_instance_id
  register_as integration_id p now connector_instance_id

-- `payload.lease_seconds or current.lease_seconds`
abbrev pub lease_of : Option ℕ → ℕ → ℕ
lease_of none current = current
lease_of (some zero) current = current
lease_of (some (suc n)) current = suc n

abbrev version_of : Option String → Option String → Option String
version_of none current = current
version_of (some v) current = some v

abbrev pub beaten :
    ConnectorInstanceRecord → ConnectorInstanceHeartbeat → ℕ → ConnectorInstanceRecord
beaten current p now = record current {
  last_seen_at = now;
  expires_at = now + seconds (lease_of p.lease_seconds current.lease_seconds);
  updated_at = now;
  lease_seconds = lease_of p.lease_seconds current.lease_seconds;
  health = or_else p.health current.health;
  connector_version = version_of p.connector_version current.connector_version;
  capabilities = or_else p.capabilities current.capabilities;
  labels = or_else p.labels current.labels;
}

abbrev pub beat :
    Env
    → String
    → ConnectorInstanceHeartbeat
    → Option ConnectorInstanceRecord
    → M (Option ConnectorInstanceRecord)
unfolding put_connector
beat env connector_instance_id p none = pure none
beat env connector_instance_id p (some current) = do
  now ← utcnow env
  put_connector connector_instance_id (beaten current p now)
  pure (some (beaten current p now))

unfoldable pub update_connector_instance_heartbeat :
    Env → String → ConnectorInstanceHeartbeat → M (Option ConnectorInstanceRecord)
unfolding beat get
update_connector_instance_heartbeat env connector_instance_id p = do
  current ← gets (λ w. get w.connector_instances connector_instance_id)
  beat env connector_instance_id p current
