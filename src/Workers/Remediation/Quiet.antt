-- ===== src/Workers/Remediation/Quiet.antt =====
-- workers/remediation_worker.py: what the executor makes of a call that fails.
use dsx_connect.Prelude.{
  ◌≡◌, Bool, true, false, Option, none, some, arith, String, ◌==◌, ◌||◌, not, is_some,
}
use dsx_connect.Jobs.World.{Result, ok, raised}
use dsx_connect.Workers.PolicyEngine.Handoff.{Env as Values}
use dsx_connect.Workers.Remediation.Request.{
  RemediationRequested, ConnectorActionRequest, ConnectorRemediationRequest,
  as_connector_action_request,
}
use dsx_connect.Workers.Remediation.Connector.{Env, Call, Reply, prepare_call}
use dsx_connect.Workers.Remediation.Executor.{
  RemediationResult, read_reply, connector_item_action, stub_remediation_executor,
  execute_remediation, stub_path,
}

-- The answers after which it is not known that the connector did anything: an HTTP error other than
-- 404 and 422, a body that is no JSON, no connection.
abbrev pub is_lost : Reply → Bool
is_lost (Reply.answered v) = false
is_lost Reply.unreadable = true
is_lost (Reply.http_error status) = not (status == 404 || status == 422)
is_lost Reply.no_connection = true

abbrev pub outcome : Result RemediationResult → Option String
outcome (ok r) = some r.outcome
outcome (raised x) = none

stub_succeeds :
    (values : Values) (request : RemediationRequested) (action : ConnectorActionRequest)
    → as_connector_action_request values request ≡ some action
    → is_some (stub_path values request) ≡ true
    → outcome (stub_remediation_executor values request) ≡ some "succeeded"
unfolding stub_remediation_executor
stub_succeeds values request action ha hp = ground arith

-- A remediation whose call of the connector is lost (an HTTP error other than 404 and 422, an answer
-- that is no JSON, or no connection) is reported as succeeded, by the stub, wherever the target path
-- of the plan is a text or missing.
pub lost_call_succeeds :
    (env : Env) (request : RemediationRequested) (action : ConnectorActionRequest)
    (normalized : ConnectorRemediationRequest) (call : Call)
    → as_connector_action_request env.values request ≡ some action
    → is_some (stub_path env.values request) ≡ true
    → prepare_call env request ≡ ok (normalized, call)
    → is_lost (env.put call) ≡ true
    → outcome (execute_remediation env.values (some env) request) ≡ some "succeeded"
unfolding execute_remediation connector_item_action read_reply
lost_call_succeeds env request action normalized call ha hp hc hl =
    ground (arith, stub_succeeds env.values request action ha hp)
