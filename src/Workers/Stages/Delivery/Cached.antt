-- ===== src/Workers/Stages/Delivery/Cached.antt =====
-- workers/delivery_worker.py: what is posted to a connector.
use dsx_connect.Prelude.{◌≡◌, refl, Bool, true, false, arith, String, str_eq, ◌||◌, not}
use dsx_connect.Prelude.Value.{Fields, Value, null, str, obj, get_field, is_text, or_value}
use dsx_connect.Jobs.World.{ok}
use dsx_connect.Workers.PolicyEngine.Handoff.{text_of}
use dsx_connect.Workers.Remediation.Returns.{Returns, Returns-bind, Returns-ok}
use dsx_connect.Workers.Stages.Messages.{ResultSinkEmitRequested}
use dsx_connect.Workers.Stages.Delivery.{
  Env, Post, prepare_post, content_source_locator, delivery_proxy_config, delivery_headers,
  split_object_storage_path, platform_of, is_object_storage, demand,
}

-- The mode of the content source that comes with the result.
abbrev pub source_mode : ResultSinkEmitRequested → Value
source_mode request = elim (get_field request.final_result "contentSource") [
  | obj d ↦ get_field d "mode"
  | _ ↦ null
]

-- The file to post exists, and the content is a cached copy.
record IsCached (env : Env) (request : ResultSinkEmitRequested) (locator : String) : Type 0 where
  cached : is_text (source_mode request) "cached" ≡ true
  exists : env.is_file locator ≡ true

locator_cached :
    (env : Env) (request : ResultSinkEmitRequested)
    → Returns (IsCached env request) (content_source_locator env request)
unfolding content_source_locator
locator_cached env request = record {
  on_ok = λ locator e. record { cached = ground arith; exists = ground arith };
}

record IsPostable (env : Env) (request : ResultSinkEmitRequested) (r : Post × (String × String))
    : Type 0 where
  file : IsCached env request r.0.locator
  named : (str_eq r.1.0 "" || str_eq r.1.1 "") ≡ false

demand-ok :
    (test : Bool) (message : String) (u : Unit {0}) → demand test message ≡ ok u → test ≡ true
demand-ok true message u e = refl
demand-ok false message u e = cc

reads_false : (b : Bool) → not b ≡ true → b ≡ false
reads_false true e = cc
reads_false false e = refl

prepared :
    (env : Env) (request : ResultSinkEmitRequested) (target : Fields)
    → Returns (IsPostable env request) (prepare_post env request target)
unfolding prepare_post
prepared env request target =
    let platform : String = platform_of env.values target in
    let parts : String × String =
      split_object_storage_path
        (text_of env.values
          (or_value (get_field target "path") (str request.envelope.object_identity)))
        platform in
    Returns-bind (IsPostable env request) (demand (is_object_storage platform) _) _ (λ u hu.
      Returns-bind (IsPostable env request)
        (demand (not (str_eq parts.0 "" || str_eq parts.1 "")) "no bucket or no key") _
        (λ u' hu'.
          Returns-bind (IsPostable env request) (content_source_locator env request) _
            (λ locator hl.
              Returns-bind (IsPostable env request) (delivery_proxy_config env request) _ (λ c hc.
                Returns-bind (IsPostable env request) (delivery_headers c.1) _ (λ headers hh.
                  Returns-ok (IsPostable env request) _ (record {
                    file = (locator_cached env request).on_ok locator hl;
                    named = reads_false _ (demand-ok _ _ u' hu');
                  }))))))

-- A file is only posted to a connector when the result says that its content is a cached copy, when
-- the file is there, and with a bucket and a key that are not empty.
pub posted_is_cached :
    (env : Env) (request : ResultSinkEmitRequested) (target : Fields) (p : Post)
    (bucket key : String)
    → prepare_post env request target ≡ ok (p, (bucket, key))
    → (is_text (source_mode request) "cached" ≡ true)
      × (env.is_file p.locator ≡ true)
      × ((str_eq bucket "" || str_eq key "") ≡ false)
posted_is_cached env request target p bucket key e =
    let h : IsPostable env request (p, (bucket, key)) =
      (prepared env request target).on_ok (p, (bucket, key)) e in
    (h.file.cached, h.file.exists, h.named)
