-- ===== src/Verify/Probe.antt =====
-- internal/verify/probe.go: running a script as a Job and reading its exit code.
pub mod Laws
pub mod Exits
use Prim.Native.Char.{Char, code}
use Prim.Native.String
use kubedrill.Shared.{
  ℕ, zero, suc, ◌+◌, ◌*◌, ◌/◌, String, Bool, true, false, ◌||◌, Option, none, some, List, [], ◌∷◌,
  ◌++◌, ◌==◌, ltb, nat_eq, leb, ◌&&◌, if◌then◌else◌, ◌⧺◌, quote,
}
use kubedrill.Shared.Int.{Int64, add, is_neg}
use kubedrill.Shared.Results.{Result, ok, err}
use kubedrill.Shared.State.{M, pure, ◌>>=◌}
use kubedrill.Challenge.{Probe}
use kubedrill.Cluster.{Api, Pod, Created, created, already_exists, refused, time_add}
use kubedrill.Verify.Outcome.{CheckResult, result, pass, fail, errored}

abbrev pub default_probe_namespace : String
default_probe_namespace = "kubedrill-system"

abbrev pub second : ℕ
second = 1000000000

-- `show` is `%d`: the decimal text of an int32.
unfoldable pub interpret_exit : (Int64 → String) → Int64 → String → CheckResult
interpret_exit show code reason =
    if nat_eq code 0
    then result pass ""
    else if nat_eq code 1
    then result fail (if reason == "" then "probe reported failure" else reason)
    else result errored (
        "exit "
        ⧺ show code
        ⧺ ": "
        ⧺ (if reason == "" then "probe errored (exit " ⧺ show code ⧺ ")" else reason))

-- The loop over the pods and their containers: the first one that has terminated.
abbrev pub first_code : List (Option Int64) → Option Int64
first_code [] = none
first_code (some code ∷ cs) = some code
first_code (none ∷ cs) = first_code cs

abbrev named : String → Option Int64 → Option (String × Int64) → Option (String × Int64)
named pod (some code) later = some (pod, code)
named pod none later = later

unfoldable pub terminated : List Pod → Option (String × Int64)
terminated [] = none
terminated (p ∷ ps) = named p.name (first_code p.exit_codes) (terminated ps)

abbrev or_empty : Result String → String
or_empty (ok s) = s
or_empty (err e) = ""

abbrev pods_of : Result (List Pod) → List Pod
pods_of (ok pods) = pods
pods_of (err e) = []

-- `lastLine`: the last line with more than white space, trimmed, or "".
last_nonblank : (String → String) → List String → String
last_nonblank trim [] = ""
last_nonblank trim (l ∷ ls) =
    let later = last_nonblank trim ls in if later == "" then trim l else later

-- What the code uses of `fmt` and `strings` beyond `Shared`: `%d`, `TrimSpace`, and the lines of a
-- text, `Split(TrimRight(_, "\n"), "\n")`.
pub record Texts : Type 0 where
  pub show_int : Int64 → String
  pub split_lines : String → List String
  pub trim_space : String → String

unfoldable pub last_line : Texts → String → String
unfolding last_nonblank
last_line texts s = last_nonblank texts.trim_space (texts.split_lines s)

abbrev or_default : Option Int64 → Int64 → Int64
or_default none d = d
or_default (some n) d = n

-- The timeout of a probe: 30 seconds, or what its text parses to.
abbrev pub probe_timeout : (String → Option Int64) → String → Int64
probe_timeout parse_duration text =
    if text == "" then 30 * second else or_default (parse_duration text) (30 * second)

abbrev pub probe_namespace : String → String
probe_namespace ns = if ns == "" then default_probe_namespace else ns

-- Rounds of two seconds that fit before the deadline, and two more.
abbrev pub probe_rounds : Int64 → ℕ
probe_rounds d = (if is_neg d then 0 else d) / (2 * second) + 2

module _ {F W : Type 0} (api : Api F W) (texts : Texts) where
  abbrev pub finish : String → String × Int64 → M W CheckResult
  finish ns (pod, code) = do
    logs ← api.pod_logs ns pod
    pure (interpret_exit texts.show_int code (last_line texts (or_empty logs)))

  -- The rounds of the loop in `awaitProbe`, on fuel.
  unfoldable pub await_rounds : ℕ → String → String → ℕ → M W CheckResult
  await_rounds zero ns name deadline w = (result errored "probe did not finish before timeout", w)
  await_rounds (suc n) ns name deadline w =
      let (listed, w₁) = api.list_pods ns name w in
      elim (terminated (pods_of listed)) [
        | some done ↦ finish ns done w₁
        | none ↦
            let (t, w₂) = api.now w₁ in
            elim (ltb deadline t) [
              | true ↦ (result errored "probe did not finish before timeout", w₂)
              | false ↦
                  let (cancelled, w₃) = api.wait (2 * second) w₂ in
                  elim cancelled [
                    | true ↦ (result errored "probe cancelled", w₃)
                    | false ↦ await_rounds n ns name deadline w₃
                  ]
            ]
      ]

  unfoldable pub await_probe : String → String → Int64 → M W CheckResult
  unfolding await_rounds
  await_probe ns name timeout = do
    t ← api.now
    let patience = add timeout (15 * second)
    await_rounds (probe_rounds patience) ns name (time_add t patience)

  abbrev pub namespace_created : String → Created → Option String
  namespace_created ns (refused e) = some ("create namespace " ⧺ quote ns ⧺ ": " ⧺ e)
  namespace_created ns _ = none

  abbrev pub make_namespace : String → Option (Bool × String) → M W (Option String)
  make_namespace ns none = pure none
  make_namespace ns (some (true, e)) = do
    made ← api.create_namespace ns
    pure (namespace_created ns made)
  make_namespace ns (some (false, e)) = pure (some ("check namespace " ⧺ quote ns ⧺ ": " ⧺ e))

  -- `ensureNamespace`: none, or the text of the error
  unfoldable pub ensure_namespace : String → M W (Option String)
  ensure_namespace ns = do missing ← api.namespace_missing ns; make_namespace ns missing

  -- A deferred call runs when the function returns, whatever it returns.
  abbrev deferred : M W CheckResult → M W (Unit {0}) → M W CheckResult
  deferred body cleanup = do r ← body; _ ← cleanup; pure r

  abbrev with_job : String → String → Int64 → Result (Unit {0}) → M W CheckResult
  with_job ns name timeout (err e) = pure (result errored ("create probe job: " ⧺ e))
  with_job ns name timeout (ok _) = deferred (await_probe ns name timeout) (api.delete_job ns name)

  abbrev with_config_map : String → String → String → Int64 → Result (Unit {0}) → M W CheckResult
  with_config_map ns name image timeout (err e) =
      pure (result errored ("create probe configmap: " ⧺ e))
  with_config_map ns name image timeout (ok _) =
      deferred (do job ← api.create_job ns name image timeout; with_job ns name timeout job)
        (api.delete_config_map ns name)

  abbrev in_namespace : String → String → String → Int64 → Option String → M W CheckResult
  in_namespace ns script image timeout (some e) = pure (result errored e)
  in_namespace ns script image timeout none = do
    suffix ← api.random_suffix
    let name = "kd-probe-" ⧺ suffix
    made ← api.create_config_map ns name script
    with_config_map ns name image timeout made

  abbrev run_script : Probe → Result String → M W CheckResult
  run_script p (err e) = pure (result errored ("read probe script " ⧺ quote p.script ⧺ ": " ⧺ e))
  run_script p (ok script) = do
    let ns = probe_namespace p.namespace
    let timeout = probe_timeout api.parse_duration p.timeout
    problem ← ensure_namespace ns
    in_namespace ns script p.image timeout problem

  -- `evalProbe`; `dir` is the directory of the challenge
  unfoldable pub eval_probe : String → Probe → M W CheckResult
  unfolding ensure_namespace await_probe
  eval_probe dir p = do script ← api.read_file dir p.script; run_script p script
