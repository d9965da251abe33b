-- ===== src/Engine/Guardrails.antt =====
-- `applyEnforcement` of internal/engine/enforce.go with its helpers: the admission policies are created
-- before the player has the cluster.
pub mod Watching
pub mod Laws
use Prim.Native.Char.{code}
use kubedrill.Shared.{
  ℕ, zero, suc, ◌+◌, ◌*◌, ◌/◌, String, Bool, true, false, ◌&&◌, Option, none, some, List, [], ◌∷◌,
  ◌++◌, ◌==◌, leb, ltb, is_empty, if◌then◌else◌, ◌⧺◌, quote,
}
use kubedrill.Shared.Int.{Int64, int_lt}
use kubedrill.Shared.Results.{Result, ok, err}
use kubedrill.Shared.State.{M, pure, ◌>>=◌}
use kubedrill.Json.{Json, obj, Fields, end}
use kubedrill.Challenge.{Challenge}
use kubedrill.Cluster.{
  Api, ResourceInterface, Got, found, not_found, failed, Created, created, already_exists, refused,
  resource_for,
}
use kubedrill.Rules.Enforce.{enforcement_policies}
use kubedrill.Verify.Probe.{second}
use kubedrill.Provision.{Writes}

-- What the package calls besides: `Create` of an object, the minor version that the server reports,
-- `strconv.Atoi`, and `NestedInt64` at two keys.
pub record Admission (F W : Type 0) : Type 0 where
  pub create : ResourceInterface → Fields F → M W Created
  pub server_minor : M W (Result String)
  pub atoi : String → Option Int64
  pub nested_int : Fields F → String → String → Option Int64

abbrev pub min_vap_minor : ℕ
min_vap_minor = 30

-- `digits`
abbrev pub digits : String → String
digits String.[] = String.[]
digits (String.◌∷◌ c s) =
    let rest = digits s in
    if leb b'0' (code c) && leb (code c) b'9' then String.◌∷◌ c rest else String.[]

abbrev pub enforce_window : ℕ
enforce_window = 20 * second

abbrev pub enforce_interval : ℕ
enforce_interval = second / 2

abbrev pub enforce_rounds : ℕ
enforce_rounds = enforce_window / enforce_interval + 2

abbrev or_zero : Option Int64 → Int64
or_zero none = 0
or_zero (some n) = n

-- How the waiting for a policy ends: it is active or the time is up, the context ended, or the rounds
-- of the model are used up.
pub data Watched : Type 0 where
  settled ended exhausted : Watched

abbrev pub fields_of : {F : Type 0} → Json F → Fields F
fields_of (obj fs) = fs
fields_of _ = end

module _ {F W : Type 0} (api : Api F W) (writes : Writes F W) (admission : Admission F W) where
  abbrev at_least : ℕ → Option Int64 → Bool
  at_least want none = true
  at_least want (some n) = if int_lt n want then false else true

  abbrev pub minor_of : ℕ → Result String → Bool
  minor_of want (err e) = true
  minor_of want (ok minor) = at_least want (admission.atoi (digits minor))

  -- The test of `serverMinorAtLeast`
  abbrev pub server_minor_at_least : ℕ → M W Bool
  server_minor_at_least want = do minor ← admission.server_minor; pure (minor_of want minor)

  abbrev observed : Int64 → Option Int64 → Bool
  observed generation none = false
  observed generation (some seen) = if int_lt seen generation then false else int_lt 0 generation

  abbrev pub is_active : Got F → Bool
  is_active (found o) =
      observed (or_zero (admission.nested_int o "metadata" "generation"))
        (admission.nested_int o "status" "observedGeneration")
  is_active not_found = false
  is_active (failed e) = false

  -- The inner loop of `waitEnforcementActive`, on fuel
  unfoldable pub watch : ℕ → ℕ → ResourceInterface → String → M W Watched
  watch zero deadline ri name w = (exhausted, w)
  watch (suc n) deadline ri name w =
      let (t, w₁) = api.now w in
      elim (ltb t deadline) [
        | false ↦ (settled, w₁)
        | true ↦
            let (got, w₂) = api.get ri name w₁ in
            elim (is_active got) [
              | true ↦ (settled, w₂)
              | false ↦
                  let (cancelled, w₃) = api.wait enforce_interval w₂ in
                  elim cancelled [ true ↦ (ended, w₃) | false ↦ watch n deadline ri name w₃ ]
            ]
      ]

  abbrev pub settle_bindings : M W Watched
  settle_bindings w = let (_, w') = api.wait (3 * second) w in (settled, w')

  abbrev pub unless_ended : M W Watched → Watched → M W Watched
  unless_ended rest settled = rest
  unless_ended rest ended = pure ended
  unless_ended rest exhausted = pure exhausted

  -- Its outer loop, and the time for the bindings after it.
  unfoldable pub watch_all : ℕ → ResourceInterface → List String → M W Watched
  unfolding watch
  watch_all deadline ri [] = settle_bindings
  watch_all deadline ri (name ∷ names) = do
    r ← watch enforce_rounds deadline ri name
    unless_ended (watch_all deadline ri names) r

  abbrev pub watch_resolved : List String → Result ResourceInterface → M W Watched
  watch_resolved names (err e) = pure settled
  watch_resolved names (ok ri) = do now ← api.now; watch_all (now + enforce_window) ri names

  -- `waitEnforcementActive`
  unfoldable pub wait_enforcement_active : List String → M W Watched
  unfolding watch_all resource_for
  wait_enforcement_active names = if is_empty names then pure settled else do
    ri ← resource_for api "admissionregistration.k8s.io/v1" "ValidatingAdmissionPolicy" ""
    watch_resolved names ri

  abbrev pub applied_names : Fields F → List String → List String
  applied_names o applied =
      if writes.kind_of o == "ValidatingAdmissionPolicy"
      then applied ++ writes.name_of o ∷ []
      else applied

  abbrev pub after_create :
      Fields F
      → List String
      → (List String → M W (Result (List String)))
      → Created
      → M W (Result (List String))
  after_create o applied rest (refused e) =
      pure (err ("enforce: create " ⧺ writes.kind_of o ⧺ " " ⧺ quote (writes.name_of o) ⧺ ": " ⧺ e))
  after_create o applied rest created = rest (applied_names o applied)
  after_create o applied rest already_exists = rest (applied_names o applied)

  abbrev pub create_resolved :
      Fields F
      → List String
      → (List String → M W (Result (List String)))
      → Result ResourceInterface
      → M W (Result (List String))
  create_resolved o applied rest (err e) =
      pure (err ("enforce: resolve " ⧺ writes.kind_of o ⧺ ": " ⧺ e))
  create_resolved o applied rest (ok ri) = do
    r ← admission.create ri o
    after_create o applied rest r

  -- The loop of `applyEnforcement`
  unfoldable pub create_policies : List (Json F) → List String → M W (Result (List String))
  unfolding resource_for
  create_policies [] applied = pure (ok applied)
  create_policies (j ∷ js) applied = do
    let o = fields_of j
    ri ← resource_for api (writes.api_version_of o) (writes.kind_of o) ""
    create_resolved o applied (create_policies js) ri

  abbrev pub after_watch : List String → Watched → Option (Result (List String))
  after_watch applied exhausted = none
  after_watch applied settled = some (ok applied)
  after_watch applied ended = some (ok applied)

  abbrev pub watch_applied : Result (List String) → M W (Option (Result (List String)))
  watch_applied (err e) = pure (some (err e))
  watch_applied (ok applied) = do r ← wait_enforcement_active applied; pure (after_watch applied r)

  abbrev pub enforce_if_modern : List (Json F) → Bool → M W (Option (Result (List String)))
  enforce_if_modern objs false = pure (some (ok []))
  enforce_if_modern objs true = do r ← create_policies objs []; watch_applied r

  -- `applyEnforcement`; none where the rounds of the model are used up.
  unfoldable pub apply_enforcement : Challenge → M W (Option (Result (List String)))
  unfolding create_policies wait_enforcement_active enforcement_policies
  apply_enforcement ch =
      let objs : List (Json F) = enforcement_policies ch in
      if is_empty objs
      then pure (some (ok []))
      else do modern ← server_minor_at_least min_vap_minor; enforce_if_modern objs modern
