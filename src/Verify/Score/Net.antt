-- ===== src/Verify/Score/Net.antt =====
-- `Net` of internal/verify/score.go: the score after the penalties.
use kubedrill.Shared.{◌+◌, ◌-◌, ◌≤◌, ◌≡◌, not, ◌&&◌, arith, if◌then◌else◌}
use kubedrill.Shared.Int.{max_int, IsNonneg}
use kubedrill.Verify.Score.{Scorecard, net_score}

-- For a score and penalties that are not negative and whose penalties together fit into an int, the
-- modular arithmetic of `Net` comes to this: a failed card that is not advisory nets 0; else it is
-- the score less the penalties that count, at least 0, the rule penalty only off advisory cards.
pub net_score_clamps :
    (c : Scorecard)
    → IsNonneg c.score
    → c.hint_penalty + c.rule_penalty ≤ max_int
    → net_score c ≡ (
        if c.failed && not c.advisory
        then 0
        else c.score - (c.hint_penalty + (if c.advisory then 0 else c.rule_penalty)))
unfolding net_score
net_score_clamps c s h = ground arith
