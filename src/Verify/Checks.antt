-- ===== src/Verify/Checks.antt =====
-- internal/verify/eval.go and cel.go: evaluating one check.
pub mod Laws
pub mod Listing
use kubedrill.Shared.{
  String, Bool, true, false, not, Option, none, some, List, [], ◌∷◌, ◌==◌, is_some, filter, map,
  if◌then◌else◌, ◌⧺◌, quote,
}
use kubedrill.Shared.Results.{Result, ok, err}
use kubedrill.Shared.State.{M, pure, ◌>>=◌}
use kubedrill.Json.{
  Json, null, bool, float, int, str, arr, obj, Fields, end, lookup, Decoded, decoded, malformed,
  Float64,
}
use kubedrill.Challenge.{
  Check, check, Checks, nil, cons, MatchCheck, Probe, Target, Targets, cel_of, probe_of, any_of,
  no_leaves,
}
use kubedrill.Cluster.{
  Api, ResourceInterface, Got, found, not_found, failed, default_api_version, resource_for,
  Compiled, env_error, compile_error, program_error, program, CelAnswer, eval_error, not_bool,
  answer,
}
use kubedrill.Matching.{matches}
use kubedrill.Verify.Outcome.{Outcome, pass, fail, errored, CheckResult, result}
use kubedrill.Verify.Probe.{Texts, eval_probe}

abbrev pub probe_label : String
probe_label = "kubedrill.dev/probe"

-- A value, or the result of the check that its absence decides.
pub data Fetched (A : Type 0) : Type 0 where
  fetched : A → Fetched A
  decides : CheckResult → Fetched A

module _ {F : Type 0} where
  abbrev pub as_map : Option (Json F) → Option (Fields F)
  as_map (some (obj fields)) = some fields
  as_map _ = none

  abbrev pub map_at : String → Option (Fields F) → Option (Fields F)
  map_at key none = none
  map_at key (some fields) = as_map (lookup key fields)

  abbrev pub has_label : Option (Fields F) → Bool
  has_label none = false
  has_label (some labels) = is_some (lookup probe_label labels)

  unfoldable pub is_probe_object : Fields F → Bool
  is_probe_object o = has_label (map_at "labels" (map_at "metadata" (some o)))

  abbrev parsed : Decoded F → Result (Json F)
  parsed (decoded v) = ok v
  parsed (malformed e) = err ("match.object invalid: " ⧺ e)

  unfoldable pub decode_match_tree : (String → Decoded F) → String → Result (Json F)
  decode_match_tree unmarshal raw =
      if raw == "" then err "match.object is empty" else parsed (unmarshal raw)

abbrev or_default_version : String → String → String
or_default_version api_version kind =
    if api_version == "" then default_api_version kind else api_version

module _ (fl : Float64) {W : Type 0} (api : Api fl.Float W) (texts : Texts) (dir : String) where
  open fl use {Float}

  abbrev got_target : Target → Got Float → Fetched (Fields Float)
  got_target t (found o) = fetched o
  got_target t not_found = decides (result fail (t.kind ⧺ " " ⧺ quote t.name ⧺ " not found"))
  got_target t (failed e) = decides (result errored ("get " ⧺ t.kind ⧺ "/" ⧺ t.name ⧺ ": " ⧺ e))

  abbrev get_from : Target → Result ResourceInterface → M W (Fetched (Fields Float))
  get_from t (err e) = pure (decides (result errored e))
  get_from t (ok ri) = do got ← api.get ri t.name; pure (got_target t got)

  unfoldable pub get_target : Target → M W (Fetched (Fields Float))
  get_target t =
      let api_version = or_default_version t.api_version t.kind in
      if api_version == ""
      then pure (
          decides (
            result errored
              ("cannot resolve apiVersion for kind " ⧺ quote t.kind ⧺ "; set target.apiVersion")))
      else do ri ← resource_for api api_version t.kind t.namespace; get_from t ri

  abbrev listed : Targets → Result (List (Fields Float)) → Fetched (List (Fields Float))
  listed t (err e) = decides (result errored ("list " ⧺ t.kind ⧺ ": " ⧺ e))
  listed t (ok objects) = fetched (filter (λ o. not (is_probe_object o)) objects)

  abbrev list_from : Targets → Result ResourceInterface → M W (Fetched (List (Fields Float)))
  list_from t (err e) = pure (decides (result errored e))
  list_from t (ok ri) = do objects ← api.list ri t.label_selector; pure (listed t objects)

  unfoldable pub list_targets : Targets → M W (Fetched (List (Fields Float)))
  unfolding is_probe_object
  list_targets t =
      let api_version = or_default_version t.api_version t.kind in
      if api_version == ""
      then pure (decides (result errored ("cannot resolve apiVersion for kind " ⧺ quote t.kind)))
      else do ri ← resource_for api api_version t.kind t.namespace; list_from t ri

  abbrev match_result : MatchCheck → Result (Json Float) → Fields Float → CheckResult
  match_result m (err e) o = result errored e
  match_result m (ok tree) o =
      if matches fl tree (obj o)
      then result pass ""
      else result fail (m.target.kind ⧺ "/" ⧺ m.target.name ⧺ " did not match the expected subset")

  abbrev match_fetched : MatchCheck → Fetched (Fields Float) → CheckResult
  match_fetched m (decides r) = r
  match_fetched m (fetched o) = match_result m (decode_match_tree api.unmarshal m.object) o

  unfoldable pub eval_match : MatchCheck → M W CheckResult
  unfolding get_target
  eval_match m = do o ← get_target m.target; pure (match_fetched m o)

  abbrev cel_result : CelAnswer → CheckResult
  cel_result (eval_error e) = result errored ("cel eval: " ⧺ e)
  cel_result not_bool = result errored "cel expression did not evaluate to a bool"
  cel_result (answer true) = result pass ""
  cel_result (answer false) = result fail "cel expression was false"

  abbrev first_object : List (Fields Float) → Json Float
  first_object [] = obj end
  first_object (o ∷ _) = obj o

  abbrev Program : Type 0
  Program = Json Float → List (Json Float) → CelAnswer

  abbrev run_on_one : Program → Fetched (Fields Float) → CheckResult
  run_on_one prg (decides r) = r
  run_on_one prg (fetched o) = cel_result (prg (obj o) [])

  abbrev run_on_all : Program → Fetched (List (Fields Float)) → CheckResult
  run_on_all prg (decides r) = r
  run_on_all prg (fetched os) = cel_result (prg (first_object os) (map obj os))

  abbrev eval_program : Program → Option Target → Option Targets → M W CheckResult
  eval_program prg (some t) _ = do o ← get_target t; pure (run_on_one prg o)
  eval_program prg none (some ts) = do os ← list_targets ts; pure (run_on_all prg os)
  eval_program prg none none = pure (result errored "cel check needs a target or targets")

  abbrev eval_compiled : Compiled Float → Option Target → Option Targets → M W CheckResult
  eval_compiled (env_error e) t ts = pure (result errored e)
  eval_compiled (compile_error e) t ts = pure (result errored ("cel compile: " ⧺ e))
  eval_compiled (program_error e) t ts = pure (result errored ("cel program: " ⧺ e))
  eval_compiled (program prg) t ts = eval_program prg t ts

  unfoldable pub eval_cel : String → Option Target → Option Targets → M W CheckResult
  unfolding get_target list_targets
  eval_cel cel t ts = eval_compiled (api.cel_compile cel) t ts

  abbrev any_failed : String → CheckResult
  any_failed last_fail =
      result fail ("anyOf: " ⧺ (if last_fail == "" then "no anyOf branch matched" else last_fail))

  unfoldable mutual
    unfolding eval_match eval_cel

    -- The switch of `Check`: the first of match, cel, probe and anyOf that is set.
    pub eval_check : Check → M W CheckResult
    eval_check (check (some m) cel probe leaves poll t ts) w = eval_match m w
    eval_check (check none cel probe leaves poll t ts) w = elim (cel == "") [
      | false ↦ eval_cel cel t ts w
      | true ↦ elim probe [
        | some p ↦ eval_probe api texts dir p w
        | none ↦ elim (no_leaves leaves) [
          | true ↦ (result errored "check has no assertion", w)
          | false ↦ eval_any_of leaves "" w
        ]
      ]
    ]

    -- `evalAnyOf`
    pub eval_any_of : Checks → String → M W CheckResult
    eval_any_of nil last_fail w = (any_failed last_fail, w)
    eval_any_of (cons leaf leaves) last_fail w =
        let (r, w') = eval_check leaf w in
        elim r.outcome [
          | pass ↦ (result pass "", w')
          | fail ↦ eval_any_of leaves r.reason w'
          | errored ↦ eval_any_of leaves last_fail w'
        ]
