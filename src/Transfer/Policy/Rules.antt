-- ===== src/Transfer/Policy/Rules.antt =====
-- Which action a policy gives: the rules of file types before those of verdicts, and the last of them.
use dsx_connect.Prelude.{
  String, ◌≡◌, refl, ap, ◌∙◌, Bool, Option, none, some, List, [], ◌∷◌, arith, str_eq, any,
  if◌then◌else◌,
}
use dsx_connect.Prelude.Dict.{Dict, get, put, get-put}
use dsx_connect.Transfer.Models.{
  TransferAction, TransferItem, ScanObservation, decision_allowed, is_allow,
}
use dsx_connect.Transfer.Policy.{
  GuardedTransferPolicy, put_all, expand_onto, expand_file_type_actions, expanded, evaluate,
  type_rule, verdict_action,
}

-- Does an entry of the rules stand for the file type?
abbrev pub covers : String → String → Bool
covers name t = any (λ k. str_eq k t) (expanded name)

-- The action of the last entry that stands for the file type.
unfoldable pub last_rule :
    Dict TransferAction → String → Option TransferAction → Option TransferAction
last_rule [] t found = found
last_rule ((name, action) ∷ rules) t found =
    last_rule rules t (if covers name t then some action else found)

get-put_all :
    (d : Dict TransferAction) (ks : List String) (a : TransferAction) (t : String)
    → get (put_all d ks a) t ≡ (if any (λ k. str_eq k t) ks then some a else get d t)
unfolding put_all
get-put_all d [] a t = refl
get-put_all d (k ∷ ks) a t = grind (arith, get-put_all (put d k a) ks a t, get-put d k t a)

get-expand_onto :
    (d rules : Dict TransferAction) (t : String)
    → get (expand_onto d rules) t ≡ last_rule rules t (get d t)
unfolding expand_onto last_rule
get-expand_onto d [] t = refl
get-expand_onto d ((name, action) ∷ rules) t =
    get-expand_onto (put_all d (expanded name) action) rules t
    ∙ ap (last_rule rules t) (get-put_all d (expanded name) action t)

-- The expanded rules give a file type the action of the last entry that names it or a group of it.
pub get-expand_file_type_actions :
    (rules : Dict TransferAction) (t : String)
    → get (expand_file_type_actions rules) t ≡ last_rule rules t none
unfolding expand_file_type_actions get
get-expand_file_type_actions rules t = get-expand_onto [] rules t

-- An item passes exactly when its file type has a rule that allows it, or it has no rule and its verdict
-- has an action that allows it.
abbrev pub allows : GuardedTransferPolicy → ScanObservation → Bool
allows p o = elim (type_rule p o.file_type) [
  | some r ↦ is_allow r.1
  | none ↦ is_allow (verdict_action p.verdict_actions o.verdict)
]

pub evaluate-allows :
    (p : GuardedTransferPolicy) (item : TransferItem) (o : ScanObservation)
    → decision_allowed (evaluate p item o) ≡ allows p o
unfolding evaluate
evaluate-allows p item o = ground arith
