-- ===== src/Transfer/Policy.antt =====
-- dsx_transfer/dsx_transfer/policy.py and dsxa_file_types.py: the action for what a scan observed.
pub mod Rules
use dsx_connect.Prelude.{
  ℕ, String, Bool, true, false, Option, none, some, List, [], ◌∷◌, str_eq, any, if◌then◌else◌,
  or_else,
}
use Prim.Native.String.{◌++◌}
use dsx_connect.Prelude.Dict.{Dict, get, put}
use dsx_connect.Prelude.Value.{Fields, put_field, str}
use dsx_connect.Transfer.Models.{
  TransferVerdict, TransferAction, TransferItem, ScanDecision, ScanObservation, is_verdict,
}

abbrev windows_executables : List String
windows_executables = "PEFileType" ∷ "PE32FileType" ∷ "PE64FileType" ∷ []

abbrev linux_executables : List String
linux_executables = "ELF32FileType" ∷ "ELF64FileType" ∷ []

abbrev macos_executables : List String
macos_executables = "MachoFATFileType" ∷ "Macho32FileType" ∷ "Macho64FileType" ∷ []

abbrev executables : List String
executables =
    "PEFileType" ∷ "PE32FileType" ∷ "PE64FileType" ∷ "ELF32FileType" ∷ "ELF64FileType"
    ∷ "MachoFATFileType" ∷ "Macho32FileType" ∷ "Macho64FileType" ∷ []

-- `FILE_TYPE_GROUPS`; the members of a group all get the same action, so their order is immaterial.
abbrev pub file_type_group : String → Option (List String)
file_type_group name =
    if str_eq name "windows_executables"
    then some windows_executables
    else if str_eq name "linux_executables"
    then some linux_executables
    else if str_eq name "macos_executables"
    then some macos_executables
    else if str_eq name "executables"
    then some executables
    else none

unfoldable pub put_all : Dict TransferAction → List String → TransferAction → Dict TransferAction
unfolding put
put_all d [] action = d
put_all d (k ∷ ks) action = put_all (put d k action) ks action

-- The types that one entry of the rules stands for.
abbrev pub expanded : String → List String
expanded name = or_else (file_type_group name) (name ∷ [])

unfoldable pub expand_onto : Dict TransferAction → Dict TransferAction → Dict TransferAction
unfolding put_all
expand_onto d [] = d
expand_onto d ((name, action) ∷ rest) = expand_onto (put_all d (expanded name) action) rest

-- `expand_file_type_actions`
unfoldable pub expand_file_type_actions : Dict TransferAction → Dict TransferAction
unfolding expand_onto
expand_file_type_actions actions = expand_onto [] actions

abbrev pub default_action : TransferVerdict → TransferAction
default_action TransferVerdict.benign = TransferAction.allow
default_action TransferVerdict.malicious = TransferAction.block
default_action TransferVerdict.suspicious = TransferAction.block
default_action TransferVerdict.unknown = TransferAction.block
default_action TransferVerdict.error = TransferAction.error

-- `class GuardedTransferPolicy`: the overriding actions of verdicts, later entries first, and the
-- expanded rules of file types.
pub record GuardedTransferPolicy : Type 0 where
  pub policy_id : Option String
  pub verdict_actions : List (TransferVerdict × TransferAction)
  pub file_type_actions : Dict TransferAction

abbrev pub verdict_action :
    List (TransferVerdict × TransferAction) → TransferVerdict → TransferAction
verdict_action [] v = default_action v
verdict_action ((u, a) ∷ rest) v = if is_verdict u v then a else verdict_action rest v

abbrev pub verdict_name : TransferVerdict → String
verdict_name TransferVerdict.benign = "benign"
verdict_name TransferVerdict.malicious = "malicious"
verdict_name TransferVerdict.suspicious = "suspicious"
verdict_name TransferVerdict.unknown = "unknown"
verdict_name TransferVerdict.error = "error"

-- `GuardedTransferPolicy(…)`
unfoldable pub new_policy :
    Option String
    → List (TransferVerdict × TransferAction)
    → Dict TransferAction
    → GuardedTransferPolicy
unfolding expand_file_type_actions
new_policy policy_id verdict_actions file_type_actions = record {
  policy_id = policy_id;
  verdict_actions = verdict_actions;
  file_type_actions = expand_file_type_actions file_type_actions;
}

-- The rule for the file type, if one is named and has a rule.
unfoldable pub type_rule : GuardedTransferPolicy → Option String → Option (String × TransferAction)
unfolding get
type_rule p none = none
type_rule p (some t) =
    if str_eq t ""
    then none
    else elim (get p.file_type_actions t) [ none ↦ none | some a ↦ some (t, a) ]

-- The action and the reason.
abbrev pub ruling :
    Option (String × TransferAction)
    → GuardedTransferPolicy
    → TransferVerdict
    → TransferAction × String
ruling (some (t, a)) p v = (a, "file_type_rule:" ++ t)
ruling none p v = (verdict_action p.verdict_actions v, "verdict_rule:" ++ verdict_name v)

-- `GuardedTransferPolicy.evaluate`
unfoldable pub evaluate : GuardedTransferPolicy → TransferItem → ScanObservation → ScanDecision
unfolding type_rule
evaluate p item o =
    let (action, reason) = ruling (type_rule p o.file_type) p o.verdict in
    record {
      verdict = o.verdict;
      action = action;
      file_type = o.file_type;
      policy_id = p.policy_id;
      scan_guid = o.scan_guid;
      reason = some reason;
      details = put_field o.details "object_identity" (str item.object_identity);
    }
