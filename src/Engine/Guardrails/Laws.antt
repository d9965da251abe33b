-- ===== src/Engine/Guardrails/Laws.antt =====
-- Which policies a start enforces, and that waiting for them ends.
use kubedrill.Shared.{
  ℕ, String, Bool, true, false, Option, none, some, List, [], ◌∷◌, ◌++◌, ◌≡◌, ◌≢◌, refl, sym, ap,
  ◌∙◌, is_empty, if◌then◌else◌,
}
use mathlib.Core.List.{append_assoc, append-nil}
use kubedrill.Shared.Results.{Result, ok, err}
use kubedrill.Shared.State.{M}
use kubedrill.Json.{Json, str, obj, Fields, lookup}
use kubedrill.Challenge.{Challenge, Rule, RuleSpec}
use kubedrill.Cluster.{
  Api, ResourceInterface, Created, created, already_exists, refused, resource_for,
}
use kubedrill.Rules.Enforce.{
  policy_objects, enforce_message, enforced_policy_name, enforced_spec, enforcement_policies,
  policies_from, rule_policies, validating_admission_policy, validating_admission_policy_binding,
}
use kubedrill.Provision.{Writes}
use kubedrill.Provision.Waiting.{Clock, Onward}
use kubedrill.Engine.Guardrails.{
  Admission, Watched, settled, ended, exhausted, wait_enforcement_active, applied_names,
  after_create, create_resolved, create_policies, after_watch, watch_applied, enforce_if_modern,
  server_minor_at_least, min_vap_minor, apply_enforcement, fields_of,
}
use kubedrill.Engine.Guardrails.Watching.{wait_enforcement_active-Ends}

-- The names of the policies for the rules that are enforced, in their order.
abbrev name_if : Rule → Option (RuleSpec × List String) → List String
name_if r none = []
name_if r (some _) = enforced_policy_name r.id ∷ []

abbrev pub names_of_rule : Rule → List String
names_of_rule r = if r.enforce then name_if r (enforced_spec r.deny r.protect) else []

abbrev pub guarded_names : List Rule → List String
guarded_names [] = []
guarded_names (r ∷ rs) = names_of_rule r ++ guarded_names rs

module _ {F W : Type 0} (api : Api F W) (writes : Writes F W) (admission : Admission F W)
    (time : W → ℕ) where
  -- What is documented of the accessors of the generated objects.
  pub record Accessors : Type 0 where
    pub kinds : (o : Fields F) (s : String) → lookup "kind" o ≡ some (str s) → writes.kind_of o ≡ s
    pub names :
        (o m : Fields F) (s : String)
        → lookup "metadata" o ≡ some (obj m)
        → lookup "name" m ≡ some (str s)
        → writes.name_of o ≡ s

  -- The names that the loop of `applyEnforcement` has collected after all objects.
  abbrev collected : List (Json F) → List String → List String
  collected [] applied = applied
  collected (j ∷ js) applied =
      collected js (applied_names api writes admission (fields_of j) applied)

  collected-append :
      (js ks : List (Json F)) (applied : List String)
      → collected (js ++ ks) applied ≡ collected ks (collected js applied)
  collected-append [] ks applied = refl
  collected-append (j ∷ js) ks applied =
      collected-append js ks (applied_names api writes admission (fields_of j) applied)

  create_policies-collected :
      (js : List (Json F)) (applied names : List String) (w : W)
      → (create_policies api writes admission js applied w).0 ≡ ok names
      → names ≡ collected js applied
  unfolding create_policies
  create_policies-collected [] applied names w h = cc
  create_policies-collected (j ∷ js) applied names w h =
      resolved (resource_for api (writes.api_version_of o) (writes.kind_of o) "" w).0
        (resource_for api (writes.api_version_of o) (writes.kind_of o) "" w).1 h
        (create_policies-collected js (applied_names api writes admission o applied) names)
    where
      o : Fields F
      o = fields_of j

      next : List String
      next = applied_names api writes admission o applied

      made :
          (r : Created) (w' : W)
          → (after_create api writes admission o applied
              (create_policies api writes admission js)
              r
              w').0
            ≡ ok names
          → ((w' : W)
              → (create_policies api writes admission js next w').0 ≡ ok names
              → names ≡ collected js next)
          → names ≡ collected js next
      made (refused e) w' h later = cc
      made created w' h later = later w' h
      made already_exists w' h later = later w' h

      resolved :
          (r : Result ResourceInterface) (w' : W)
          → (create_resolved api writes admission o applied
              (create_policies api writes admission js)
              r
              w').0
            ≡ ok names
          → ((w' : W)
              → (create_policies api writes admission js next w').0 ≡ ok names
              → names ≡ collected js next)
          → names ≡ collected js next
      resolved (err e) w' h later = cc
      resolved (ok ri) w' h later =
          made (admission.create ri o w').0 (admission.create ri o w').1 h later

  module _ (accessors : Accessors) where
    policy-applied :
        (o : Fields F) (applied : List String) (name : String)
        → writes.kind_of o ≡ "ValidatingAdmissionPolicy"
        → writes.name_of o ≡ name
        → applied_names api writes admission o applied ≡ applied ++ name ∷ []
    policy-applied o applied name k n = rw (k, n) refl

    binding-applied :
        (o : Fields F) (applied : List String)
        → writes.kind_of o ≡ "ValidatingAdmissionPolicyBinding"
        → applied_names api writes admission o applied ≡ applied
    binding-applied o applied k = rw k refl

    objects-collected :
        (r : Rule) (x : Option (RuleSpec × List String)) (applied : List String)
        → collected (policy_objects r x) applied ≡ applied ++ name_if r x
    unfolding validating_admission_policy validating_admission_policy_binding
    objects-collected r none applied = sym (append-nil applied)
    objects-collected r (some (spec, ops)) applied =
        binding-applied binding (applied_names api writes admission policy applied)
          (accessors.kinds binding "ValidatingAdmissionPolicyBinding" refl)
        ∙ policy-applied policy applied (enforced_policy_name r.id)
            (accessors.kinds policy "ValidatingAdmissionPolicy" refl)
            (accessors.names policy _ (enforced_policy_name r.id) refl refl)
      where
        policy : Fields F
        policy =
            fields_of
              (validating_admission_policy (enforced_policy_name r.id) spec ops (enforce_message r))

        binding : Fields F
        binding = fields_of (validating_admission_policy_binding (enforced_policy_name r.id))

    rule-collected :
        (r : Rule) (applied : List String)
        → collected (rule_policies r) applied ≡ applied ++ names_of_rule r
    unfolding rule_policies
    rule-collected r applied = either r.enforce
      where
        either :
            (b : Bool)
            → collected
                (if b then policy_objects r (enforced_spec r.deny r.protect) else [])
                applied
              ≡ applied ++ (if b then name_if r (enforced_spec r.deny r.protect) else [])
        either true = objects-collected r (enforced_spec r.deny r.protect) applied
        either false = sym (append-nil applied)

    policies_from-collected :
        (rs : List Rule) (applied : List String)
        → collected (policies_from rs) applied ≡ applied ++ guarded_names rs
    unfolding policies_from
    policies_from-collected [] applied = sym (append-nil applied)
    policies_from-collected (r ∷ rs) applied =
        collected-append (rule_policies r) (policies_from rs) applied
        ∙ ap (collected (policies_from rs)) (rule-collected r applied)
        ∙ policies_from-collected rs (applied ++ names_of_rule r)
        ∙ append_assoc applied (names_of_rule r) (guarded_names rs)

    -- What `applyEnforcement` returns on a cluster that has admission policies, or not.
    abbrev pub Guards : Challenge → Bool → Option (Result (List String)) → Type 0
    Guards ch modern none = ⊥
    Guards ch modern (some (err e)) = Unit
    Guards ch modern (some (ok names)) = names ≡ (if modern then guarded_names ch.rules else [])

    module _ (clock : Clock api time)
        (getting : (ri : ResourceInterface) (name : String) → Onward time (api.get ri name)) where
      watch_applied-Guards :
          (ch : Challenge) (r : Result (List String)) (w : W)
          → ((names : List String) → r ≡ ok names → names ≡ guarded_names ch.rules)
          → Guards ch true (watch_applied api writes admission r w).0
      watch_applied-Guards ch (err e) w h = tt
      watch_applied-Guards ch (ok names) w h =
          either (wait_enforcement_active api writes admission names w).0
            (wait_enforcement_active-Ends api writes admission time clock getting names w)
        where
          either :
              (r : Watched)
              → r ≢ exhausted
              → Guards ch true (after_watch api writes admission names r)
          either settled n = h names refl
          either ended n = h names refl
          either exhausted n = n refl

      pub apply_enforcement-Guards :
          (ch : Challenge) (w : W)
          → Guards ch
              (server_minor_at_least api writes admission min_vap_minor w).0
              (apply_enforcement api writes admission ch w).0
      unfolding apply_enforcement enforcement_policies
      apply_enforcement-Guards ch w =
          none_or_some (enforcement_policies ch) (policies_from-collected ch.rules [])
        where
          modern : Bool × W
          modern = server_minor_at_least api writes admission min_vap_minor w

          either :
              (objs : List (Json F)) (b : Bool)
              → collected objs [] ≡ guarded_names ch.rules
              → Guards ch b (enforce_if_modern api writes admission objs b modern.1).0
          either objs false e = refl
          either objs true e =
              watch_applied-Guards ch (create_policies api writes admission objs [] modern.1).0
                (create_policies api writes admission objs [] modern.1).1
                (λ names h. create_policies-collected objs [] names modern.1 h ∙ e)

          nothing : (b : Bool) → [] ≡ guarded_names ch.rules → Guards ch b (some (ok []))
          nothing true e = e
          nothing false e = refl

          none_or_some :
              (objs : List (Json F))
              → collected objs [] ≡ guarded_names ch.rules
              → Guards ch modern.0
                  (if◌then◌else◌ {A = M W (Option (Result (List String)))}
                    (is_empty objs)
                    (λ w'. (some (ok []), w'))
                    (λ w'.
                      enforce_if_modern api writes admission objs
                        (server_minor_at_least api writes admission min_vap_minor w').0
                        (server_minor_at_least api writes admission min_vap_minor w').1)
                    w).0
          none_or_some [] e = nothing modern.0 e
          none_or_some (j ∷ js) e = either (j ∷ js) modern.0 e
