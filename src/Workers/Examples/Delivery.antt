-- ===== src/Workers/Examples/Delivery.antt =====
-- The delivery of one cached file to an object store.
use dsx_connect.Prelude.{◌≡◌, refl, true, false, none, some, [], ◌||◌, str_eq}
use dsx_connect.Prelude.Value.{Fields, no_fields, field, str, obj, get_field, is_text}
use dsx_connect.Prelude.Text.{lower_text, strip, strip_slashes, split_slash, drop_text}
use dsx_connect.Jobs.Models.{MessageType}
use dsx_connect.Jobs.Policy.{workflow_summary}
use dsx_connect.Control.Config.{
  ProxyAuthMode, ProxyReaderConfig, default_policy, parse_integration_runtime_config,
}
use dsx_connect.Workers.Remediation.Connector.{Reply}
use dsx_connect.Workers.Stages.Messages.{ResultSinkEmitRequested}
use dsx_connect.Workers.Stages.Delivery.{
  Env, Post, prepare_post, split_object_storage_path, content_source_locator, delivery_proxy_config,
  delivery_headers,
}
use dsx_connect.Workers.Stages.Delivery.Cached.{source_mode, posted_is_cached}

abbrev proxy : ProxyReaderConfig
proxy = record {
  endpoint_url = some "http://c/write_file";
  base_url = none;
  connector_name = none;
  auth_mode = ProxyAuthMode.no_auth;
  header_name = none;
  header_value = none;
  hmac_key_id = none;
  hmac_secret = none;
}

abbrev env : Env
env = record {
  values = record {
    parser = record {
      integration = λ v. some (record {
        reader_proxy = none;
        delivery_proxy = some proxy;
        remediation = none;
        policy = none;
      });
      policy = λ v. some default_policy;
    };
    read_decision = λ v. none;
    repr = λ v. "";
    dict_of = λ vs. none;
  };
  integration_config = λ id. some no_fields;
  connector_instances = λ id. [];
  now = 0;
  path_text = λ s. s;
  is_file = λ s. true;
  post = λ p. Reply.no_connection;
  emit = λ r. none;
}

abbrev target : Fields
target =
    field "type" (str "gateway_destination")
      (field "platform" (str "S3") (field "path" (str "s3://b/k/f.txt") no_fields))

abbrev request : ResultSinkEmitRequested
request = record {
  envelope = record {
    message_type = MessageType.result_sink_emit_requested;
    job_id = "j";
    job_item_id = "i";
    integration_id = some "int";
    scope_id = none;
    object_identity = "/share/a";
    idempotency_key = none;
    emitted_at = 0;
    payload = no_fields;
  };
  result_type = workflow_summary;
  result_payload = no_fields;
  final_result =
      field "contentSource"
        (obj (field "mode" (str "cached") (field "locator" (str "/cache/1") no_fields))) no_fields;
  delivery_target = target;
}

abbrev post : Post
post = record {
  endpoint_url = "http://c/write_file";
  locator = "/cache/1";
  fields =
      field "bucket" (str "b")
        (field "key" (str "k/f.txt") (field "destination" (str "s3://b/k/f.txt") no_fields));
  headers = no_fields;
}

posted_is_cached_example :
    (is_text (source_mode request) "cached" ≡ true)
    × (env.is_file post.locator ≡ true)
    × ((str_eq "b" "" || str_eq "k/f.txt" "") ≡ false)
unfolding prepare_post split_object_storage_path content_source_locator delivery_proxy_config
    delivery_headers get_field lower_text strip strip_slashes split_slash drop_text
    parse_integration_runtime_config
posted_is_cached_example = posted_is_cached env request target post "b" "k/f.txt" refl
