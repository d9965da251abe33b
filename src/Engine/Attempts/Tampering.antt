-- ===== src/Engine/Attempts/Tampering.antt =====
-- `checkEnforcementTamper` of internal/engine/enforce.go: what it charges.
use mathlib.Core.List.{append_assoc, append-nil}
use kubedrill.Shared.{
  ◌≡◌, refl, sym, ◌∙◌, String, Bool, true, false, not, ◌||◌, List, [], ◌∷◌, ◌++◌, map, is_empty,
  arith, if◌then◌else◌,
}
use kubedrill.Shared.Results.{ok}
use kubedrill.Cluster.{Api, ResourceInterface, Got, found, not_found, failed, resource_for}
use kubedrill.Verify.Score.{Scorecard}
use kubedrill.Engine.Attempts.{
  tamper_from, charge_removed, removed_policy, check_enforcement_tamper,
}

abbrev pub is_gone : {F : Type 0} → Got F → Bool
is_gone not_found = true
is_gone _ = false

module _ {F W : Type 0} (api : Api F W) where
  -- The policies that the cluster answers not to have, asked one after the other.
  abbrev pub missing : ResourceInterface → List String → W → List String
  missing ri [] w = []
  missing ri (name ∷ names) w =
      let (got, w') = api.get ri name w in
      let rest = missing ri names w' in if is_gone got then name ∷ rest else rest

  -- The card fails for the policies `gone`, has a violation for each, and is else as it was.
  pub record ChargedFor (gone : List String) (card out : Scorecard) : Type 0 where
    pub failed : out.failed ≡ (card.failed || not (is_empty gone))
    pub violations : out.rule_violations ≡ card.rule_violations ++ map removed_policy gone
    pub score : out.score ≡ card.score
    pub rule_penalty : out.rule_penalty ≡ card.rule_penalty
    pub objectives : out.objectives ≡ card.objectives

  ChargedFor-step :
      (name : String) (got : Got F) (gone : List String) (card out : Scorecard)
      → ChargedFor gone (charge_removed api name got card) out
      → ChargedFor (if is_gone got then name ∷ gone else gone) card out
  ChargedFor-step name not_found gone card out c = record {
    failed = ground (arith, c.failed);
    violations =
        c.violations
        ∙ append_assoc card.rule_violations (removed_policy name ∷ []) (map removed_policy gone);
    score = c.score;
    rule_penalty = c.rule_penalty;
    objectives = c.objectives;
  }
  ChargedFor-step name (found o) gone card out c = c
  ChargedFor-step name (failed e) gone card out c = c

  tamper_from-ChargedFor :
      (ri : ResourceInterface) (names : List String) (card : Scorecard) (w : W)
      → ChargedFor (missing ri names w) card (tamper_from api ri names card w).0
  unfolding tamper_from
  tamper_from-ChargedFor ri [] card w = record {
    failed = ground arith;
    violations = sym (append-nil _);
    score = refl;
    rule_penalty = refl;
    objectives = refl;
  }
  tamper_from-ChargedFor ri (name ∷ names) card w =
      let (got, w') = api.get ri name w in
      ChargedFor-step name got (missing ri names w') card _
        (tamper_from-ChargedFor ri names (charge_removed api name got card) w')

  -- If the resource of admission policies can be resolved, the check of a list of enforced policies
  -- that is not empty fails the card exactly for those that the cluster answers not to have, adds an
  -- integrity violation for each, in order, and leaves the score, the penalty and the results.
  pub check_enforcement_tamper-ChargedFor :
      (name : String) (names : List String) (card : Scorecard) (w w' : W) (ri : ResourceInterface)
      → resource_for api "admissionregistration.k8s.io/v1" "ValidatingAdmissionPolicy" "" w
        ≡ (ok ri, w')
      → ChargedFor
          (missing ri (name ∷ names) w')
          card
          (check_enforcement_tamper api (name ∷ names) card w).0
  unfolding check_enforcement_tamper
  check_enforcement_tamper-ChargedFor name names card w w' ri h =
      rw (h, check_enforcement_tamper) (tamper_from-ChargedFor ri (name ∷ names) card w')
