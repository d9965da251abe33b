-- ===== src/Verify/Score/Polling.antt =====
-- `pollCheck` of internal/verify/score.go: how its loop ends.
use kubedrill.Shared.{
  ℕ, zero, suc, ◌+◌, ◌*◌, ◌/◌, ◌≤◌, ◌<◌, ◌≡◌, inl, inr, true, false, arith, ltb, Bool-cases, Option,
}
use kubedrill.Shared.State.{M}
use kubedrill.Challenge.{Poll}
use kubedrill.Cluster.{Api}
use kubedrill.Verify.Outcome.{CheckResult, is_fail}
use kubedrill.Verify.Score.{poll_loop, poll_after, poll_interval, poll_rounds, poll_window}

module _ {F W : Type 0} (api : Api F W) (again : M W CheckResult) where
  -- The world before the next evaluation: the clock was read and the interval waited for.
  abbrev pub waited : W → W
  waited w = (api.wait poll_interval (api.now w).1).1

  -- The loop without a bound on its rounds, one constructor for each way a round goes: the deadline
  -- has come, the context ends during the wait, the check no longer fails, it fails again.
  pub data Polls (deadline : ℕ) : CheckResult → W → CheckResult × W → Type 0 where
    expired :
        (r : CheckResult) (w : W) → deadline ≤ (api.now w).0 → Polls deadline r w (r, (api.now w).1)
    cancelled :
        (r : CheckResult) (w : W)
        → (api.now w).0 < deadline
        → (api.wait poll_interval (api.now w).1).0 ≡ true
        → Polls deadline r w (r, waited w)
    settled :
        (r : CheckResult) (w : W)
        → (api.now w).0 < deadline
        → (api.wait poll_interval (api.now w).1).0 ≡ false
        → is_fail (again (waited w)).0.outcome ≡ false
        → Polls deadline r w (again (waited w))
    retried :
        (r : CheckResult) (w : W) (out : CheckResult × W)
        → (api.now w).0 < deadline
        → (api.wait poll_interval (api.now w).1).0 ≡ false
        → is_fail (again (waited w)).0.outcome ≡ true
        → Polls deadline (again (waited w)).0 (again (waited w)).1 out
        → Polls deadline r w out

  -- `time` is the clock of a world: `Now` reads it, a timer that fires has waited for its duration,
  -- and nothing turns it back.
  pub record Clock (time : W → ℕ) : Type 0 where
    pub reads : (w : W) → (api.now w).0 ≡ time w
    pub reading : (w : W) → time w ≤ time (api.now w).1
    pub waiting : (d : ℕ) (w : W) → (api.wait d w).0 ≡ false → time w + d ≤ time (api.wait d w).1
    pub evaluating : (w : W) → time w ≤ time (again w).1

  module _ (time : W → ℕ) (clock : Clock time) where
    round_passes :
        (w : W)
        → (api.wait poll_interval (api.now w).1).0 ≡ false
        → time w + poll_interval ≤ time (again (waited w)).1
    round_passes w h =
        let a = clock.reading w in
        let b = clock.waiting poll_interval (api.now w).1 h in
        let c = clock.evaluating (waited w) in omega arith

    poll_loop-Polls :
        (n deadline : ℕ) (r : CheckResult) (w : W)
        → deadline ≤ time w + n * poll_interval
        → Polls deadline r w (poll_loop api (suc n) again deadline r w)
    unfolding poll_loop
    poll_loop-Polls zero deadline r w h =
        let e = clock.reads w in
        let late : ltb (api.now w).0 deadline ≡ false = ground arith in
        rw (late, poll_loop) (expired r w (omega arith))
    poll_loop-Polls (suc n) deadline r w h = elim (Bool-cases (ltb (api.now w).0 deadline)) [
      | inr late ↦ rw (late, poll_loop) (expired r w (ground arith))
      | inl early ↦ elim (Bool-cases (api.wait poll_interval (api.now w).1).0) [
        | inl gone ↦ rw (early, gone, poll_loop) (cancelled r w (ground arith) gone)
        | inr on ↦ elim (Bool-cases (is_fail (again (waited w)).0.outcome)) [
          | inr fine ↦ rw (early, on, fine, poll_loop) (settled r w (ground arith) on fine)
          | inl bad ↦
              let later = round_passes w on in
              rw (early, on, bad, poll_loop)
                (retried r w _ (ground arith) on bad (
                  poll_loop-Polls n deadline (again (waited w)).0 (again (waited w)).1
                    (omega arith)))
        ]
      ]
    ]

    -- The loop of `pollCheck` ends within the rounds that the model gives it, whatever window the
    -- check names and whatever the cluster answers, if the clock reads and waits as a clock does: its
    -- result is one that the unbounded loop reaches from the first result, with the deadline a window
    -- after the start.
    pub poll_after-Polls :
        (poll : Option Poll) (r : CheckResult) (w : W)
        → Polls
            (time w + poll_window api.parse_duration poll)
            r
            (api.now w).1
            (poll_after api again poll r w)
    unfolding poll_loop
    poll_after-Polls poll r w =
        let window = poll_window api.parse_duration poll in
        let a = clock.reading w in
        let rounds : poll_rounds window ≡ suc (window / poll_interval + 1) = omega arith in
        rw (clock.reads w, rounds)
          (poll_loop-Polls (window / poll_interval + 1) (time w + window) r (api.now w).1
            (omega arith))
