-- ===== src/Workers/Stages/Delivery.antt =====
-- dsx_connect_ng/dsx_connect_ng/workers/delivery_worker.py: the executors of deliveries.
pub mod Cached
use Prim.Native.String.{◌++◌ as str_append}
use dsx_connect.Prelude.{
  ℕ, String, Bool, true, false, Option, none, some, List, [], ◌∷◌, if◌then◌else◌, ◌&&◌, ◌||◌, not,
  str_eq, or_else, filter, ltb,
}
use dsx_connect.Prelude.Sort.{sort_by, ascending}
use dsx_connect.Prelude.Value.{
  Fields, Value, no_fields, field, null, str, obj, get_field, or_value, is_text, is_false,
}
use dsx_connect.Prelude.Text.{
  strip, lower_text, has_prefix, drop_text, strip_slashes, rstrip_slashes, split_slash,
}
use dsx_connect.Jobs.World.{Result, ok, raised, Raised, invalid, http, other_error}
use dsx_connect.Jobs.Service.Envelopes.{result_type_text}
use dsx_connect.Control.Config.{
  ProxyReaderConfig, ProxyAuthMode, IntegrationRuntimeConfig, parse_integration_runtime_config,
}
use dsx_connect.Control.Models.{ConnectorHealth, ConnectorInstanceRecord}
use dsx_connect.Workers.PolicyEngine.Handoff.{Env as Values, text_of}
use dsx_connect.Workers.Remediation.Connector.{
  ◌>>=◌, ◌>>◌, checked, given_text, pair_of, joined_url, Reply,
}
use dsx_connect.Workers.Stages.Messages.{ResultSinkEmitRequested}
use dsx_connect.Workers.Stages.Process.{DeliveryResult}

-- A file that is posted to a connector: its path, the fields and headers beside it.
pub record Post : Type 0 where
  pub endpoint_url : String
  pub locator : String
  pub fields : Fields
  pub headers : Fields

-- The control plane (the configuration of an integration, and its connector instances), the clock,
-- the files (`Path(s)` as a text, and whether it is a file), the connector, and the sink with the
-- event that it is given, which returns or raises.
pub record Env : Type 0 where
  pub values : Values
  pub integration_config : String → Option Fields
  pub connector_instances : String → List ConnectorInstanceRecord
  pub now : ℕ
  pub path_text : String → String
  pub is_file : String → Bool
  pub post : Post → Reply
  pub emit : ResultSinkEmitRequested → Option Raised

abbrev without_scheme : String → String → String
without_scheme platform raw =
    if str_eq platform "gcs" && has_prefix raw "gs://"
      || str_eq platform "s3" && has_prefix raw "s3://"
    then drop_text 5 raw
    else raw

abbrev bucket_and_key : String × Option String → String × String
bucket_and_key (raw, none) = (raw, "")
bucket_and_key (bucket, some key) = (strip bucket, strip_slashes key)

-- `_split_object_storage_path`
unfoldable pub split_object_storage_path : String → String → String × String
unfolding strip strip_slashes split_slash
split_object_storage_path value platform =
    bucket_and_key (split_slash (strip_slashes (without_scheme platform (strip value))))

-- `str(target.get("platform") or "").lower()`
abbrev pub platform_of : Values → Fields → String
platform_of env target = lower_text (text_of env (or_value (get_field target "platform") (str "")))

abbrev pub is_object_storage : String → Bool
is_object_storage platform = str_eq platform "gcs" || str_eq platform "s3"

-- `_gateway_object_storage_target`
unfoldable pub gateway_object_storage_target : Values → ResultSinkEmitRequested → Option Fields
gateway_object_storage_target env request =
    let target : Fields = request.delivery_target in
    if is_text (get_field target "type") "gateway_destination"
      && is_object_storage (platform_of env target)
    then some target
    else none

abbrev pub demand : Bool → String → Result (Unit {0})
demand test message = if test then ok tt else raised (other_error message)

abbrev source_dict : Value → Result Fields
source_dict (obj d) = ok d
source_dict _ = raised (other_error "no contentSource")

-- `_content_source_locator`
unfoldable pub content_source_locator : Env → ResultSinkEmitRequested → Result String
unfolding strip
content_source_locator env request = do
  source ← source_dict (get_field request.final_result "contentSource")
  demand (is_text (get_field source "mode") "cached") "content is not cached"
  let locator = strip (text_of env.values (or_value (get_field source "locator") (str "")))
  demand (not (str_eq locator "")) "no locator"
  demand (env.is_file (env.path_text locator)) "no file"
  ok (env.path_text locator)

abbrev health_priority : ConnectorHealth → ℕ
health_priority ConnectorHealth.healthy = 0
health_priority ConnectorHealth.degraded = 1
health_priority ConnectorHealth.unknown = 2
health_priority ConnectorHealth.unhealthy = 3

abbrev can_write : Env → ConnectorInstanceRecord → Bool
can_write env i = ltb env.now i.expires_at && not (is_false (get_field i.capabilities "write"))

abbrev first_url : List ConnectorInstanceRecord → Option String
first_url [] = none
first_url (i ∷ is) = some (str_append (rstrip_slashes i.base_url) "/write_file")

-- The URL of the healthiest instance that can write.
unfoldable pub instance_url : Env → String → Option String
unfolding sort_by rstrip_slashes
instance_url env id = first_url (
    sort_by (ascending (λ i. health_priority i.health))
      (filter (can_write env) (env.connector_instances id)))

abbrev proxy_endpoint : Option ProxyReaderConfig → Option String
proxy_endpoint none = none
proxy_endpoint (some p) = given_text p.endpoint_url

abbrev named_url : String × String → String
named_url p = str_append (joined_url p) "/write_file"

abbrev proxy_base : Option ProxyReaderConfig → Option String
proxy_base none = none
proxy_base (some p) = elim (pair_of (given_text p.base_url) (given_text p.connector_name)) [
  | none ↦ none
  | some q ↦ some (named_url q)
]

abbrev first_of : {A : Type 0} → Option A → Option A → Option A
first_of none b = b
first_of (some a) b = some a

-- `_delivery_proxy_config`: the URL and the proxy.
unfoldable pub delivery_proxy_config :
    Env → ResultSinkEmitRequested → Result (String × Option ProxyReaderConfig)
unfolding instance_url
delivery_proxy_config env request = do
  id ← checked (given_text request.envelope.integration_id) (other_error "no integration_id")
  config ← checked (env.integration_config id) (http 404 "integration_not_found")
  runtime ← checked (parse_integration_runtime_config env.values.parser (some config)) invalid
  let proxy = runtime.delivery_proxy
  url ←
      checked (first_of (proxy_endpoint proxy) (first_of (instance_url env id) (proxy_base proxy)))
        (other_error "no endpoint_url")
  ok (url, proxy)

-- The headers by the mode of the proxy; signed requests are refused.
unfoldable pub delivery_headers : Option ProxyReaderConfig → Result Fields
delivery_headers none = ok no_fields
delivery_headers (some proxy) = elim proxy.auth_mode [
  | ProxyAuthMode.no_auth ↦ ok no_fields
  | ProxyAuthMode.static_header ↦ do
    (name, value) ←
        checked (pair_of (given_text proxy.header_name) (given_text proxy.header_value))
          (other_error "no header")
    ok (field name (str value) no_fields)
  | ProxyAuthMode.dsx_hmac ↦ raised (other_error "dsx_hmac is not supported")
]

abbrev object_uri : String → String × String → String
object_uri platform (bucket, key) =
    str_append (if str_eq platform "gcs" then "gs" else "s3")
      (str_append "://" (str_append bucket (str_append "/" key)))

-- What `deliver_gateway_object_storage` does before the call: the file, the bucket and the key.
unfoldable pub prepare_post :
    Env → ResultSinkEmitRequested → Fields → Result (Post × (String × String))
unfolding delivery_proxy_config
prepare_post env request target = do
  let platform = platform_of env.values target
  demand (is_object_storage platform) "unsupported platform"
  let path =
      text_of env.values (or_value (get_field target "path") (str request.envelope.object_identity))
  let parts = split_object_storage_path path platform
  demand (not (str_eq parts.0 "" || str_eq parts.1 "")) "no bucket or no key"
  locator ← content_source_locator env request
  (url, proxy) ← delivery_proxy_config env request
  headers ← delivery_headers proxy
  ok (
    record {
      endpoint_url = url;
      locator = locator;
      fields = field "bucket" (str parts.0) (
          field "key" (str parts.1)
            (field "destination" (str (object_uri platform parts)) no_fields));
      headers = headers;
    },
    parts,
  )

-- The JSON answer; every other answer is an error.
abbrev posted : Reply → Result Fields
posted (Reply.answered (obj payload)) = ok payload
posted _ = raised (other_error "connector delivery failed")

-- `deliver_gateway_object_storage`
unfoldable pub deliver_gateway_object_storage :
    Env → ResultSinkEmitRequested → Fields → Result DeliveryResult
deliver_gateway_object_storage env request target = do
  (p, parts) ← prepare_post env request target
  payload ← posted (env.post p)
  let platform = platform_of env.values target
  let uri = object_uri platform parts
  ok (record {
    destination = some uri;
    outcome = "delivered";
    external_reference = some (text_of env.values (or_value (get_field payload "uri") (str uri)));
    details = field "worker" (str (str_append platform "_gateway_delivery")) (
        field "endpointUrl" (str p.endpoint_url) (
          field "platform" (str platform) (
            field "bucket" (str parts.0)
              (field "key" (str parts.1) (field "connectorResponse" (obj payload) no_fields)))));
  })

-- A destination that is a text.
abbrev destination_text : Value → Option (Option String)
destination_text (str s) = some (some s)
destination_text _ = none

-- `target.get("connector") or target.get("destination") or default`
abbrev destination_in : Fields → String → Result (Option String)
destination_in target default =
    checked
      (destination_text (
        or_value (or_value (get_field target "connector") (get_field target "destination"))
          (str default)))
      invalid

abbrev emitted : String → String → String → String → ResultSinkEmitRequested → Result DeliveryResult
emitted default outcome reference worker request = do
  destination ← destination_in request.delivery_target default
  ok (record {
    destination = destination;
    outcome = outcome;
    external_reference = some (str_append reference request.envelope.job_item_id);
    details =
        field "worker" (str worker)
          (field "result_type" (str (result_type_text request.result_type)) no_fields);
  })

-- `stub_result_sink_executor`
unfoldable pub stub_result_sink_executor : ResultSinkEmitRequested → Result DeliveryResult
stub_result_sink_executor request =
    emitted "unknown" "delivered" "delivery-" "result_sink_stub" request

abbrev sent : Option Raised → Result (Unit {0})
sent none = ok tt
sent (some x) = raised x

abbrev emit_event : Env → ResultSinkEmitRequested → Result DeliveryResult
emit_event env request = do
  sent (env.emit request)
  emitted "result_sink" "emitted" "result-sink-" "result_sink_adapter" request

-- `build_result_sink_executor`
unfoldable pub execute_result_sink : Env → ResultSinkEmitRequested → Result DeliveryResult
execute_result_sink env request = elim (gateway_object_storage_target env.values request) [
  | none ↦ emit_event env request
  | some target ↦ deliver_gateway_object_storage env request target
]
