-- ===== src/Workers/PolicyEngine/FileTypes.antt =====
-- dsx_connect_ng/dsx_connect_ng/workers/policy_engine.py: the file types that a policy blocks.
use Prim.Native.Nat.{Ordering}
use Prim.Native.String.{compare as compare_text}
use dsx_connect.Prelude.{
  String, Bool, true, false, Option, none, some, List, [], ◌∷◌, ◌++◌, if◌then◌else◌, ◌||◌, any,
  filter, is_empty,
}
use dsx_connect.Prelude.Value.{
  Fields, Value, no_items, str, arr, get_field, has_field, or_value, truthy, or_empty,
}
use dsx_connect.Prelude.Text.{lower_text, lower_strip, occurs_in, ends_with}
use dsx_connect.Control.Config.{PolicyRuntimeConfig}
use dsx_connect.Workers.PolicyEngine.Handoff.{
  Env, PolicyHandoffRequest, ◌>>=◌, text_of, dict_or_empty, iterated,
}
use dsx_connect.Workers.PolicyEngine.Plans.{is_one_of}

-- `str(file_info.get("file_type") or "").lower()`
abbrev pub file_type_of : Env → Fields → String
file_type_of env file_info =
    lower_text (text_of env (or_value (get_field file_info "file_type") (str "")))

abbrev executable_markers : List String
executable_markers = "pe" ∷ "elf" ∷ "macho" ∷ "mach-o" ∷ "executable" ∷ "eicar" ∷ []

abbrev office_token : String → Fields → String
office_token object_identity office_data =
    if truthy (get_field office_data "vba") || truthy (get_field office_data "xl4_macros")
    then "office_macro"
    else if ends_with object_identity ".doc"
        || ends_with object_identity ".docx"
        || occurs_in "_doc" object_identity
    then "office_word"
    else if ends_with object_identity ".xls"
        || ends_with object_identity ".xlsx"
        || occurs_in "_xls" object_identity
        || occurs_in "_xlsx" object_identity
    then "office_excel"
    else "office_other"

abbrev office_tokens : String → String → Fields → Option (List String)
office_tokens file_type object_identity file_info =
    if occurs_in "office" file_type
    then (do
      office_data ← dict_or_empty (get_field file_info "additional_office_data")
      some (office_token object_identity office_data ∷ []))
    else some []

-- The tokens before the branch of office files.
abbrev pub plain_tokens : String → String → List String
plain_tokens file_type object_identity =
    (if occurs_in "pdf" file_type || ends_with object_identity ".pdf" then "pdf" ∷ [] else [])
    ++ (if any (λ marker. occurs_in marker file_type) executable_markers
        then "executables" ∷ "windows_executable" ∷ []
        else [])

-- `_file_type_tokens`; the set is a list without repetitions.
unfoldable pub file_type_tokens : Env → PolicyHandoffRequest → Option (List String)
file_type_tokens env handoff = do
  let file_info = or_empty handoff.scan_result.file_info
  let file_type = file_type_of env file_info
  let object_identity = lower_text handoff.object_identity
  office ← office_tokens file_type object_identity file_info
  some (plain_tokens file_type object_identity ++ office)

abbrev text_before : String → String → Bool
text_before s t = elim (compare_text s t) [ Ordering.lt ↦ true | _ ↦ false ]

abbrev lesser : String → Option String → String
lesser s none = s
lesser s (some t) = if text_before t s then t else s

-- `sorted(texts)[0]`, if there is one
unfoldable pub least : List String → Option String
least [] = none
least (s ∷ ss) = some (lesser s (least ss))

abbrev pub normalized_items : Env → List Value → List String
normalized_items env [] = []
normalized_items env (v ∷ vs) = lower_strip (text_of env v) ∷ normalized_items env vs

-- `non_compliance.get("blocked_file_types", [])`
abbrev pub blocked_value : Fields → Value
blocked_value d =
    if has_field d "blocked_file_types" then get_field d "blocked_file_types" else arr no_items

abbrev blocked_match : Env → PolicyHandoffRequest → List String → Option (Option String)
blocked_match env handoff blocked = if is_empty blocked then some none else do
  tokens ← file_type_tokens env handoff
  some (least (filter (λ token. is_one_of token blocked) tokens))

-- `_non_compliance_match`
unfoldable pub non_compliance_match :
    Env → PolicyRuntimeConfig → PolicyHandoffRequest → Option (Option String)
non_compliance_match env c handoff = elim c.non_compliance [
  | none ↦ some none
  | some d ↦ do
    blocked ← iterated (blocked_value d)
    blocked_match env handoff (normalized_items env blocked)
]
