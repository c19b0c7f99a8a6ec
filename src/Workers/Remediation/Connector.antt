-- ===== src/Workers/Remediation/Connector.antt =====
-- dsx_connect_ng/dsx_connect_ng/workers/connector_actions.py: the call of a connector for a remediation.
use Prim.Native.String.{◌++◌ as str_append}
use dsx_connect.Prelude.{ℕ, String, Bool, true, false, Option, none, some, if◌then◌else◌, str_eq}
use dsx_connect.Prelude.Value.{
  Fields, Value, no_fields, field, bool, num, str, obj, get_field, or_value, merge,
}
use dsx_connect.Prelude.Text.{before_last_slash, rstrip_slashes, strip_slashes}
use dsx_connect.Jobs.World.{Result, ok, raised, Raised, invalid, http, terminal_error}
use dsx_connect.Control.Config.{
  ProxyReaderConfig, ProxyAuthMode, supports_action, resolve_remediation_capabilities,
  parse_integration_runtime_config,
}
use dsx_connect.Workers.PolicyEngine.Handoff.{Env as Values, text_of, opt_text}
use dsx_connect.Workers.Remediation.Request.{
  RemediationRequested, ConnectorRemediationRequest, ConnectorActionRequest, ItemAction,
  item_action_text, as_connector_remediation_request, as_legacy_action_request,
}

-- What the call reads of an integration.
pub record Integration : Type 0 where
  pub config : Fields
  pub capability_remediate : Bool

pub record Call : Type 0 where
  pub endpoint_url : String
  pub payload : Fields
  pub headers : Fields

-- The answer of `urlopen`: a JSON value, a body that is none, an HTTP error with its status, or no
-- connection.
pub data Reply : Type 0 where
  answered : Value → Reply
  unreadable : Reply
  http_error : ℕ → Reply
  no_connection : Reply

-- `get_integration_or_404` (`none` is a 404), the signature of a call (the key, the secret, the URL
-- and the payload), and the connector.
pub record Env : Type 0 where
  pub values : Values
  pub integration : String → Option Integration
  pub sign : String → String → String → Fields → String
  pub put : Call → Reply

infixl 5 ◌>>=◌ ◌>>◌
abbrev pub ◌>>=◌ : {A B : Type 0} → Result A → (A → Result B) → Result B
ok a >>= f = f a
raised x >>= f = raised x

abbrev pub ◌>>◌ : {A B : Type 0} → Result A → Result B → Result B
m >> n = m >>= λ _. n

abbrev pub checked : {A : Type 0} → Option A → Raised → Result A
checked none x = raised x
checked (some a) x = ok a

-- A text that is not empty.
abbrev pub given_text : Option String → Option String
given_text none = none
given_text (some s) = if str_eq s "" then none else some s

abbrev config_invalid : Raised
config_invalid = terminal_error "connector_action_auth_config_invalid"

abbrev config_missing : Raised
config_missing = terminal_error "connector_action_config_missing"

abbrev pub pair_of : {A : Type 0} → Option A → Option A → Option (A × A)
pair_of (some a) (some b) = some (a, b)
pair_of _ _ = none

-- `_build_auth_headers`
unfoldable pub build_auth_headers : Env → Option ProxyReaderConfig → String → Fields → Result Fields
build_auth_headers env none url payload = ok no_fields
build_auth_headers env (some proxy) url payload = elim proxy.auth_mode [
  | ProxyAuthMode.no_auth ↦ ok no_fields
  | ProxyAuthMode.static_header ↦ do
    (name, value) ←
        checked (pair_of (given_text proxy.header_name) (given_text proxy.header_value))
          config_invalid
    ok (field name (str value) no_fields)
  | ProxyAuthMode.dsx_hmac ↦ do
    (key_id, secret) ←
        checked (pair_of (given_text proxy.hmac_key_id) (given_text proxy.hmac_secret))
          config_invalid
    ok (field "Authorization" (str (env.sign key_id secret url payload)) no_fields)
]

-- `f"{base_url.rstrip('/')}/{connector_name.strip('/')}"`
abbrev pub joined_url : String × String → String
joined_url (base_url, connector_name) =
    str_append (rstrip_slashes base_url) (str_append "/" (strip_slashes connector_name))

-- The URL of the connector: the endpoint without its last part, or the base URL and the name.
abbrev connector_url_of : Option ProxyReaderConfig → Option String
connector_url_of none = none
connector_url_of (some proxy) = elim (given_text proxy.endpoint_url) [
  | some url ↦ given_text (some (before_last_slash url))
  | none ↦ elim (pair_of (given_text proxy.base_url) (given_text proxy.connector_name)) [
    | none ↦ none
    | some p ↦ some (joined_url p)
  ]
]

-- `control_plane.get_integration_or_404(request.integration_id)`, and its configuration
abbrev pub find_integration : Env → RemediationRequested → Result Integration
find_integration env request = do
  id ← checked (given_text request.integration_id) config_missing
  checked (env.integration id) (http 404 "integration_not_found")

-- `resolve_connector_action_runtime_config`: the URL of the connector and its proxy.
unfoldable pub resolve_connector_action_runtime_config :
    Env → RemediationRequested → Result (String × Option ProxyReaderConfig)
resolve_connector_action_runtime_config env request = do
  integration ← find_integration env request
  runtime ←
      checked (parse_integration_runtime_config env.values.parser (some integration.config)) invalid
  url ← checked (connector_url_of runtime.reader_proxy) config_missing
  ok (url, runtime.reader_proxy)

abbrev metainfo_value : ConnectorActionRequest → Value
metainfo_value action = or_value (opt_text action.item_action_move_metainfo) (str "")

abbrev action_value : ItemAction → Value
action_value action = str (item_action_text action)

abbrev is_number : Value → Bool
is_number (num n) = true
is_number (bool b) = true
is_number _ = false

abbrev size_fields : Fields → Fields
size_fields plan =
    let size : Value = or_value (get_field plan "sizeInBytes") (get_field plan "size_in_bytes") in
    if is_number size then field "size_in_bytes" size no_fields else no_fields

abbrev dump_request : ConnectorRemediationRequest → String → Fields
dump_request r name = field name (action_value r.action) (
    field "destination" (obj r.destination)
      (field "tags" (obj r.tags) (field "details" (obj r.details) no_fields)))

-- `build_legacy_connector_action_payload`
unfoldable pub build_legacy_connector_action_payload :
    Env
    → RemediationRequested
    → ConnectorRemediationRequest
    → ConnectorActionRequest
    → String
    → Fields
build_legacy_connector_action_payload env request normalized action connector_url =
    let location : Value = str (
      text_of env.values (or_value request.content_source.locator (str request.object_identity))) in
    merge
      (field "location" location (
        field "metainfo" (str request.object_identity) (
          field "connector_url" (str connector_url) (
            field "connector"
              (obj (
                field "url" (str connector_url) (
                  field "item_action" (action_value action.item_action)
                    (field "item_action_move_metainfo" (metainfo_value action) no_fields))))
              (field "item_action" (action_value action.item_action) (
                field "item_action_move_metainfo" (metainfo_value action) (
                  field "tags" (obj action.tags) (
                    field "action_details" (obj action.details) (
                      field "requested_action" (obj (dump_request normalized "type")) (
                        field "scan_context"
                          (obj (
                            field "scan_guid" (opt_text request.scan_result.scan_guid)
                              (field "verdict" (str request.scan_result.verdict) no_fields)))
                          (field "scan_job_id" (str request.job_id)
                            (field "job_item_id" (str request.job_item_id) no_fields))))))))))))
      (size_fields request.remediation_plan)

-- The capabilities of the connector, and the test of the action.
unfoldable pub check_capability : Env → RemediationRequested → ItemAction → Result (Unit {0})
check_capability env request action = do
  integration ← find_integration env request
  capabilities ←
      checked
        (resolve_remediation_capabilities env.values.parser (some integration.config)
          integration.capability_remediate)
        invalid
  if supports_action capabilities (item_action_text action)
      then ok tt
      else raised (terminal_error "connector_action_not_supported")

-- What `_connector_item_action_sync` does before the call.
unfoldable pub prepare_call :
    Env → RemediationRequested → Result (ConnectorRemediationRequest × Call)
prepare_call env request = do
  (url, proxy) ← resolve_connector_action_runtime_config env request
  normalized ← checked (as_connector_remediation_request env.values request) invalid
  check_capability env request normalized.action
  let action = as_legacy_action_request env.values normalized
  let payload = build_legacy_connector_action_payload env request normalized action url
  let endpoint_url = str_append url "/item_action"
  headers ← build_auth_headers env proxy endpoint_url payload
  ok (
    normalized,
    record {
      endpoint_url = endpoint_url;
      payload = payload;
      headers =
          merge
            (field "Content-Type" (str "application/json")
              (field "Accept" (str "application/json") no_fields))
            headers;
    },
  )
