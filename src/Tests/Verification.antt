-- ===== src/Tests/Verification.antt =====
-- Checks, probes and scorecards at concrete inputs.
use kubedrill.Shared.Results.{ok}
use kubedrill.Shared.{
  ◌⊎◌, ◌+◌, ◌≡◌, ◌≢◌, ◌↔◌, refl, true, none, some, [], All, any, arith, if◌then◌else◌, ◌*◌,
}
use kubedrill.Challenge.{Probe, check, cons, nil, Targets}
use kubedrill.Cluster.{resource_for, default_api_version, time_add}
use kubedrill.Shared.Int.{add}
use kubedrill.Verify.Outcome.{pass, fail, is_pass, result}
use kubedrill.Verify.Probe.{await_probe, eval_probe, second}
use kubedrill.Verify.Probe.Laws as Waiting
use kubedrill.Verify.Probe.Exits.{Errored, ProbeExited, eval_probe-ProbeExited}
use kubedrill.Verify.Checks.{eval_check, eval_match, get_target, list_targets}
use kubedrill.Verify.Checks.Laws.{outcomes, any_of_outcome}
use kubedrill.Verify.Checks.Listing.{IsListing, list_targets-IsListing}
use kubedrill.Verify.Score.{evaluate, poll_after, poll_window, Scorecard, empty_card}
use kubedrill.Verify.Score.Laws.{IsScored, evaluate-IsScored}
use kubedrill.Verify.Score.Passed.{HasPoints, evaluate-all_passed_iff}
use kubedrill.Verify.Score.Polling.{Clock, Polls, poll_after-Polls}
use kubedrill.Tests.Setting.{floats, api, plain_texts, shop, scaled, never}

evaluate-IsScored_example : IsScored shop (evaluate floats api plain_texts "dir" shop 0).0
evaluate-IsScored_example = evaluate-IsScored floats api plain_texts "dir" shop 0

shop-HasPoints : HasPoints shop.objectives
shop-HasPoints = record { positive = (omega arith, (omega arith, tt)); bounded = omega arith }

evaluate-all_passed_iff_example :
    ((evaluate floats api plain_texts "dir" shop 0).0.all_passed ≡ true) ↔ (
      (shop.objectives ≢ [])
      × All (λ r. r.passed ≡ true) (evaluate floats api plain_texts "dir" shop 0).0.objectives)
evaluate-all_passed_iff_example =
    evaluate-all_passed_iff floats api plain_texts "dir" shop 0 shop-HasPoints

abbrev violated : Scorecard
violated = record empty_card {
  score = 30;
  hint_penalty = 2;
  rule_penalty = 40;
  advisory = true;
  failed = true;
}

any_of_outcome_example :
    (eval_check floats api plain_texts "dir"
      (check none "" none (cons never (cons scaled nil)) none none none)
      0).0.outcome
    ≡ (if any is_pass (outcomes floats api plain_texts "dir" (cons never (cons scaled nil)) 0)
        then pass
        else fail)
any_of_outcome_example =
    any_of_outcome floats api plain_texts "dir" never (cons scaled nil) none none none 0

abbrev deployments : Targets
deployments = record {
  kind = "Deployment";
  namespace = "shop";
  label_selector = "";
  api_version = "";
}

list_targets-IsListing_example :
    IsListing floats api plain_texts "dir" deployments 0
      (list_targets floats api plain_texts "dir" deployments 0).0
list_targets-IsListing_example = list_targets-IsListing floats api plain_texts "dir" deployments 0

abbrev probe : Probe
probe = record { image = "busybox"; script = "p.sh"; namespace = ""; timeout = "4s" }

eval_probe-ProbeExited_example :
    let r = (eval_probe api plain_texts "dir" probe 0).0 in
    Errored r ⊎ ProbeExited api plain_texts probe (ok "exit 1") 0 r
eval_probe-ProbeExited_example = eval_probe-ProbeExited api plain_texts "dir" probe 0

pods-Clock : Waiting.Clock api plain_texts "shop" "kd-probe-abcd" (λ w. w)
pods-Clock = record {
  reads = λ w. refl;
  reading = λ w. omega arith;
  waiting = λ d w h. omega arith;
  listing = λ w. omega arith;
}

await_probe-Awaits_example :
    Waiting.Awaits api plain_texts "shop" "kd-probe-abcd"
      (time_add 7 (add 4000000000 (15 * second)))
      7
      (await_probe api plain_texts "shop" "kd-probe-abcd" 4000000000 7)
await_probe-Awaits_example =
    Waiting.await_probe-Awaits api plain_texts "shop" "kd-probe-abcd" (λ w. w) pods-Clock 4000000000
      7

check-Clock : Clock api (eval_check floats api plain_texts "dir" scaled) (λ w. w)
unfolding eval_check eval_match get_target resource_for default_api_version
check-Clock = record {
  reads = λ w. refl;
  reading = λ w. omega arith;
  waiting = λ d w h. omega arith;
  evaluating = λ w. omega arith;
}

poll_after-Polls_example :
    Polls api
      (eval_check floats api plain_texts "dir" scaled)
      (7 + poll_window api.parse_duration (some (record { timeout = "4s"; window = "" })))
      (result fail "not scaled")
      7
      (poll_after api
        (eval_check floats api plain_texts "dir" scaled)
        (some (record { timeout = "4s"; window = "" }))
        (result fail "not scaled")
        7)
poll_after-Polls_example =
    poll_after-Polls api (eval_check floats api plain_texts "dir" scaled) (λ w. w) check-Clock
      (some (record { timeout = "4s"; window = "" })) (result fail "not scaled") 7
