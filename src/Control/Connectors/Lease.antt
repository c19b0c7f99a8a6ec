-- ===== src/Control/Connectors/Lease.antt =====
-- The leases of connector instances.
use Prim.Native.String.{◌++◌}
use dsx_connect.Prelude.{
  ℕ, suc, String, ◌≡◌, ◌+◌, Bool, true, false, Option, none, some, arith, str_eq, if◌then◌else◌,
  ◌==◌,
}
use dsx_connect.Prelude.Dict.{get, get-put}
use dsx_connect.Control.Models.{
  ConnectorInstanceRegister, ConnectorInstanceHeartbeat, ConnectorInstanceRecord,
}
use dsx_connect.Control.World.{World, Env, ◌>>=◌, uuid4, utcnow, pure}
use dsx_connect.Control.Repository.{or_uuid}
use dsx_connect.Control.Connectors.{
  seconds, register_as, upsert_connector_instance, update_connector_instance_heartbeat,
}

-- The lease of the row ends so many seconds after it was last seen.
abbrev pub is_leased : Option ConnectorInstanceRecord → Bool
is_leased none = true
is_leased (some row) = row.expires_at == row.last_seen_at + seconds row.lease_seconds

-- So it is with every stored row.
unfoldable pub AreLeased : World → Type 0
unfolding get
AreLeased w = (k : String) → is_leased (get w.connector_instances k) ≡ true

register_as-AreLeased :
    (id : String) (p : ConnectorInstanceRegister) (now : ℕ) (c : String) (w : World)
    → AreLeased w
    → AreLeased (register_as id p now c w).1
unfolding AreLeased register_as
register_as-AreLeased id p now c w h k = grind (arith, h k, get-put)

upsert-AreLeased :
    (env : Env) (p : ConnectorInstanceRegister) (id : String) (w : World)
    → AreLeased w
    → AreLeased (upsert_connector_instance env p id w).1
unfolding upsert_connector_instance AreLeased
upsert-AreLeased env p id w h = by p.connector_instance_id
  where
    drawn :
        (b : Bool) (s : String)
        → AreLeased
            (((if b then (do hex ← uuid4 env; pure ("conn_" ++ hex)) else pure s)
                >>= register_as id p (env.clock w.ticks))
              (utcnow env w).1).1
    drawn true s =
        register_as-AreLeased id p (env.clock w.ticks) ("conn_" ++ env.uuid (suc w.ticks))
          (uuid4 env (utcnow env w).1).1 h
    drawn false s = register_as-AreLeased id p (env.clock w.ticks) s (utcnow env w).1 h

    by :
        (o : Option String)
        → AreLeased
            ((or_uuid env "conn_" o >>= register_as id p (env.clock w.ticks)) (utcnow env w).1).1
    by none =
        register_as-AreLeased id p (env.clock w.ticks) ("conn_" ++ env.uuid (suc w.ticks))
          (uuid4 env (utcnow env w).1).1 h
    by (some s) = drawn (str_eq s "") s

heartbeat-AreLeased :
    (env : Env) (c : String) (p : ConnectorInstanceHeartbeat) (w : World)
    → AreLeased w
    → AreLeased (update_connector_instance_heartbeat env c p w).1
unfolding update_connector_instance_heartbeat AreLeased
heartbeat-AreLeased env c p w h k = grind (arith, h k, get-put)

-- When every lease ends as many seconds after its instance was last seen as the instance asked for, so it is
-- after a registration and after a heartbeat.
pub connectors-AreLeased :
    (env : Env) (p : ConnectorInstanceRegister) (id : String) (c : String)
    (q : ConnectorInstanceHeartbeat) (w : World)
    → AreLeased w
    → AreLeased (upsert_connector_instance env p id w).1
      × AreLeased (update_connector_instance_heartbeat env c q w).1
connectors-AreLeased env p id c q w h =
    (upsert-AreLeased env p id w h, heartbeat-AreLeased env c q w h)
