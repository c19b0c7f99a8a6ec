-- ===== src/Workers/PolicyEngine/Handoff.antt =====
-- dsx_connect_ng/dsx_connect_ng/workers/policy_engine.py and jobs/models.py: what a policy engine is
-- given, and Python's reading of the values in it.
use dsx_connect.Prelude.{ℕ, String, Option, none, some, if◌then◌else◌, List, [], ◌∷◌}
use dsx_connect.Prelude.Value.{
  Fields, Value, Items, no_fields, no_items, item, field, null, str, arr, obj, get_field, truthy,
}
use dsx_connect.Prelude.Text.{chars}
use dsx_connect.Jobs.Models.{ContentSource, DeliveryRequirements}
use dsx_connect.Jobs.Policy.{PolicyDecision}
use dsx_connect.Control.Config.{PolicyRuntimeConfig, Parser, resolve_policy_runtime_config}

pub record ScanResult : Type 0 where
  pub verdict : String
  pub scan_guid : Option String
  pub verdict_details : Fields
  pub file_info : Option Fields
  pub protected_entity : Option ℕ

pub record PolicyHandoffRequest : Type 0 where
  pub job_id : String
  pub job_item_id : String
  pub integration_id : Option String
  pub scope_id : Option String
  pub object_identity : String
  pub content_source : ContentSource
  pub delivery_requirements : DeliveryRequirements
  pub scan_result : ScanResult
  pub item_payload : Fields
  pub policy_context : Fields
  pub item_metadata : Fields

-- pydantic's validation, `str(v)` of a value that is not a text, and `dict(v)` of a list (`none` is
-- an error).
pub record Env : Type 0 where
  pub parser : Parser
  pub read_decision : Value → Option PolicyDecision
  pub repr : Value → String
  pub dict_of : Items → Option Fields

-- A computation that returns or raises.
infixl 5 ◌>>=◌
abbrev pub ◌>>=◌ : {A B : Type 0} → Option A → (A → Option B) → Option B
none >>= f = none
some a >>= f = f a

-- `str(v)`
abbrev pub text_of : Env → Value → String
text_of env (str s) = s
text_of env v = env.repr v

-- `v or {}` where a dict is read or validated: another true value is an error.
abbrev pub dict_or_empty : Value → Option Fields
dict_or_empty (obj d) = some d
dict_or_empty v = if truthy v then none else some no_fields

-- `dict(v)`
abbrev pub to_dict : Env → Value → Option Fields
to_dict env (obj d) = some d
to_dict env (arr vs) = env.dict_of vs
to_dict env (str s) = if truthy (str s) then none else some no_fields
to_dict env _ = none

abbrev pub list_of : Items → List Value
list_of no_items = []
list_of (item v vs) = v ∷ list_of vs

abbrev pub texts_of : List String → List Value
texts_of [] = []
texts_of (s ∷ ss) = str s ∷ texts_of ss

abbrev pub field_names : Fields → List Value
field_names no_fields = []
field_names (field k v d) = str k ∷ field_names d

-- `for x in v`
unfoldable pub iterated : Value → Option (List Value)
unfolding chars
iterated (arr vs) = some (list_of vs)
iterated (str s) = some (texts_of (chars s))
iterated (obj d) = some (field_names d)
iterated _ = none

-- A text or `None`, as a value.
abbrev pub opt_text : Option String → Value
opt_text none = null
opt_text (some s) = str s

-- A dict or `None`, as a value.
abbrev pub opt_dict : Option Fields → Value
opt_dict none = null
opt_dict (some d) = obj d

-- `_extract_policy_runtime_config`
unfoldable pub extract_policy_runtime_config :
    Env → PolicyHandoffRequest → Option PolicyRuntimeConfig
unfolding resolve_policy_runtime_config
extract_policy_runtime_config env handoff =
    let resolved : Value = get_field handoff.policy_context "resolved_policy" in
    if truthy resolved then env.parser.policy resolved else do
      integration_config ← dict_or_empty (get_field handoff.policy_context "integration_config")
      scope_policy ← dict_or_empty (get_field handoff.policy_context "scope_policy")
      resolve_policy_runtime_config env.parser (some integration_config) (some scope_policy)
