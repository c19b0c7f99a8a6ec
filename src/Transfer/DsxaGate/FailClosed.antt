-- ===== src/Transfer/DsxaGate/FailClosed.antt =====
-- What passes the gate of the scanner.
use dsx_connect.Prelude.{
  ℕ, String, ◌≡◌, refl, sym, ◌∙◌, if◌then◌else◌, Bool, true, false, Option, none, some, List, [],
  ◌∷◌, not, arith, all,
}
use dsx_connect.Prelude.Dict.{Dict}
use dsx_connect.Prelude.Value.{Fields, get_field}
use dsx_connect.Transfer.Models.{
  TransferVerdict, TransferAction, TransferItem, ScanObservation, decision_allowed, is_allow,
  is_verdict,
}
use dsx_connect.Transfer.Policy.{new_policy, verdict_action, type_rule}
use dsx_connect.Transfer.Policy.Rules.{
  evaluate-allows, allows, get-expand_file_type_actions, last_rule, covers,
}
use dsx_connect.Transfer.World.{Env}
use dsx_connect.Transfer.DsxaGate.{
  dsxa_decide, scan_observation_from_dsxa_response, verdict_text, verdict_of_text, reads,
}

-- No entry lets anything pass.
abbrev pub are_strict : Dict TransferAction → Bool
are_strict rules = all (λ r. not (is_allow r.1)) rules

abbrev pub are_strict_verdicts : List (TransferVerdict × TransferAction) → Bool
are_strict_verdicts actions = all (λ r. not (is_allow r.1)) actions

rule_allows : Option TransferAction → Bool
rule_allows none = false
rule_allows (some a) = is_allow a

strict_step :
    (b : Bool) (a : TransferAction) (found : Option TransferAction)
    → is_allow a ≡ false
    → rule_allows found ≡ false
    → rule_allows (if b then some a else found) ≡ false
unfolding rule_allows
strict_step true a found h k = h
strict_step false a found h k = k

last_rule-strict :
    (rules : Dict TransferAction) (t : String) (found : Option TransferAction)
    → are_strict rules ≡ true
    → rule_allows found ≡ false
    → rule_allows (last_rule rules t found) ≡ false
unfolding last_rule rule_allows
last_rule-strict [] t found h k = k
last_rule-strict ((name, a) ∷ rules) t found h k =
    last_rule-strict rules t (if covers name t then some a else found) (ground (arith, h))
      (strict_step (covers name t) a found (ground (arith, h)) k)

verdict_action-strict :
    (actions : List (TransferVerdict × TransferAction)) (v : TransferVerdict)
    → are_strict_verdicts actions ≡ true
    → is_allow (verdict_action actions v) ≡ true
    → is_verdict v TransferVerdict.benign ≡ true
verdict_action-strict [] v h k = ground (arith, h, k)
verdict_action-strict ((u, a) ∷ actions) v h k =
    ground (arith, h, k, verdict_action-strict actions v)

allows-strict :
    (id : Option String) (actions : List (TransferVerdict × TransferAction))
    (rules : Dict TransferAction) (o : ScanObservation)
    → are_strict rules ≡ true
    → are_strict_verdicts actions ≡ true
    → allows (new_policy id actions rules) o ≡ true
    → is_verdict o.verdict TransferVerdict.benign ≡ true
unfolding new_policy type_rule rule_allows
allows-strict id actions rules o h k a = by o.file_type a
  where
    by :
        (t : Option String)
        → elim (type_rule (new_policy id actions rules) t) [
          | some r ↦ is_allow r.1
          | none ↦ is_allow (verdict_action actions o.verdict)
        ]
          ≡ true
        → is_verdict o.verdict TransferVerdict.benign ≡ true
    by none e = verdict_action-strict actions o.verdict k e
    by (some t) e = grind (
      arith,
      e,
      get-expand_file_type_actions rules t,
      last_rule-strict rules t none h refl,
      verdict_action-strict actions o.verdict k,
    )

verdict_of_text-benign :
    (t : List ℕ)
    → is_verdict (verdict_of_text t) TransferVerdict.benign ≡ true
    → reads t "benign" ≡ true
unfolding verdict_of_text
verdict_of_text-benign t h = ground (arith, h)

-- Under a policy in which no entry, of a verdict or of a file type, lets anything pass, the gate of the
-- scanner lets an item pass only if the response names the verdict benign; a missing verdict, an
-- unknown one and every other one are refused.
pub dsxa_decide-benign :
    (env : Env) (id : Option String) (actions : List (TransferVerdict × TransferAction))
    (rules : Dict TransferAction) (item : TransferItem) (response : Fields)
    → are_strict_verdicts actions ≡ true
    → are_strict rules ≡ true
    → decision_allowed (dsxa_decide env (new_policy id actions rules) item response) ≡ true
    → reads (verdict_text env (get_field response "verdict")) "benign" ≡ true
unfolding dsxa_decide scan_observation_from_dsxa_response
dsxa_decide-benign env id actions rules item response k h d =
    let o = scan_observation_from_dsxa_response env response in
    verdict_of_text-benign (verdict_text env (get_field response "verdict")) (
      allows-strict id actions rules o h k
        (sym (evaluate-allows (new_policy id actions rules) item o) ∙ d))
