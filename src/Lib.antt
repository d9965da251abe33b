-- ===== src/Lib.antt =====
-- kubedrill: Kubernetes exercises that are graded on a live cluster.
--
-- A challenge is a document (apis/challenge/v1alpha1): an environment, objectives with checks, rules,
-- hints. The engine (internal/engine) starts a cluster for it, and at each verify evaluates the
-- checks against the cluster (internal/verify), grades the rules from the audit log
-- (internal/rules), lays the penalties into the scorecard and records the attempt in the session
-- (pkg/api). Rules that are enforced become admission policies, and the rules decide what the audit
-- policy captures. An author tests a challenge before publishing it (internal/author).
--
-- The files and the code:
-- - Challenge: apis/challenge/v1alpha1/types.go. Go's pointers are Options, raw JSON is its text, and
--   an int is its 64-bit pattern (Shared.Int).
-- - Validation: apis/challenge/v1alpha1/validation.go. The method validate of a check is validate,
--   dependsOnCycle is Validation.Cycle, and Validate is Validation.Document.
-- - Json: decoded JSON values, over a type of floats with an equality (Float64). Json objects are
--   lists of entries of which the first with a key counts.
-- - Cluster: internal/kube/client.go (ResourceFor, DefaultAPIVersion), and Api, the record of what the
--   program calls outside of its own code: the Kubernetes API, CEL, the clock, the file system and
--   Go's parsers. A call reads and changes a world of any type; stateful code is a function of the
--   world (Shared.State).
-- - Matching: internal/challenge/match.go. Match is matches, arraySubset is assign with try_from, its
--   loop over the candidates of one element.
-- - Rules.Audit, Rules.Attribution: audit.go and attribution.go (Attribute is attribute).
--   Rules.Grade: grade.go (Grade is grade, matchSpec is match_spec, matchRequire is match_require).
--   Rules.Enforce: enforce.go (EnforcementPolicies is enforcement_policies, the objects as JSON
--   trees; admissionOps, exemptCEL, sanitize). Rules.Policy and Rules.Resource: policy.go.
-- - Verify.Outcome, Verify.Checks: internal/verify/eval.go and cel.go (Check is eval_check).
--   Verify.Probe: probe.go (evalProbe, awaitProbe). Verify.Score: score.go (Evaluate,
--   EvaluateDirect, pollCheck, NetScore).
-- - Author.Lint is internal/author/lint.go. Author.Harness has the phase verdicts of harness.go and
--   Author.Testing its function Test, on the definitions of Engine below.
-- - Session: pkg/api/session.go. Of internal/engine, Engine.Hints is hint.go on a session
--   that was loaded and Engine.Reveal on the store, with EvaluateDirect, Engine.Attempts the
--   recording of an attempt, the loop of gradeRules and checkEnforcementTamper, Engine.Reading
--   readAllAuditEvents of grade.go, and Engine.Verify the method Verify, which composes the loader,
--   the store, Verify.Score, Rules.Grade and these. Its state is the cluster's and the store's.
-- - Loader: internal/challenge/loader.go with decodeTree of match.go and CompileCEL of cel.go, over
--   Library, the record of the calls that a load makes. Loader.Loadable says what is required of a
--   challenge beyond Validation.Document.Valid.
-- - Store: internal/store/store.go. Files is the directory of the sessions, where any call may fail,
--   os.Stat too; a blank id is the path of the directory itself, which Remove then removes as a whole.
--   Store has the operations (writeState is write_state), and Sessions the map from ids to sessions
--   that they stand for.
-- - Packs: internal/sources/file/pack.go, from the manifest to Resolve, over Shelf, the calls that they
--   make beside the loader's.
-- - Provision: internal/provision. Provision is provision.go and yaml.go (Apply is apply,
--   waitReadiness is wait_readiness), Provision.Reset is reset.go, over Writes, the calls that change
--   a cluster, and Provision.Waiting the loop in which both wait.
-- - Engine.Guardrails is applyEnforcement of enforce.go, Engine.Nodes nodes.go, Engine.Start the
--   method Start of engine.go with failStart, and Engine.Reset reset.go. They compose Provision, the
--   loader, the store and the provider of clusters, which is a record of calls (Provider).
-- - Cli: of internal/cli, Cli.Sessions is session.go (list, stop, prune, resolveSession) on the store
--   and a provider, and Cli the two checks of play.go.
-- - Kind: internal/providers/kind, with a file for config.go, environment.go and identity.go,
--   and Kind.Clusters and Kind.Images for provider.go, over Runtime, the calls of kind, docker and
--   client-go.
-- - Shared: helpers. Text operations are exact on ASCII (ToLower, EqualFold, %q). Tests: the theorems
--   at concrete inputs.
--
-- Fuel: five loops wait for a clock that the code does not own. pollCheck's has window / 2s + 2
-- rounds, awaitProbe's (timeout + 15s) / 2s + 2, that of a readiness gate 90s / 2s + 2, that of a
-- deletion 30s / 1s + 2, and that of a policy 20s / 0.5s + 2; each round that goes on waits for the
-- time between two rounds, so the deadline comes before the fuel ends. The search for a cycle nests no
-- deeper than there are names in the objectives, which is its fuel, since each call colours one more of
-- them. Reading the audit log takes as many rounds as it is given: one more than the log has bytes is enough. All
-- other loops are structural recursion.
--
-- Not modelled: the installation and the export of challenge packages, the scaffold of a new
-- challenge, the image cache, and of the command line its flags, its output and the commands that only
-- call the engine or the author tools. The JSON form of a penalty, the CEL environment and the
-- Job object of a probe are calls of libraries. Concurrency does not appear: the modelled functions
-- run in one goroutine, and the store's operations one after the other, as its locks have it for
-- one session.
mod Shared
pub mod Json
pub mod Challenge
pub mod Cluster
pub mod Matching
pub mod Rules
pub mod Validation
pub mod Verify
pub mod Author
pub mod Session
pub mod Loader
pub mod Store
pub mod Packs
pub mod Provision
pub mod Engine
pub mod Cli
pub mod Kind
mod Tests
