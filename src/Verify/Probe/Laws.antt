-- ===== src/Verify/Probe/Laws.antt =====
-- `awaitProbe` of internal/verify/probe.go: how the wait for a probe ends.
use kubedrill.Shared.{
  ℕ, zero, suc, ◌+◌, ◌*◌, ◌/◌, ◌-◌, ◌≤◌, ◌<◌, ◌≡◌, inl, inr, true, false, arith, ltb, Bool-cases,
  Option, some, none, Option-cases, String, if◌then◌else◌,
}
use kubedrill.Shared.Int.{Int64, add, is_neg}
use kubedrill.Cluster.{Api, time_add}
use kubedrill.Verify.Outcome.{CheckResult, result, errored}
use kubedrill.Verify.Probe.{
  Texts, second, terminated, pods_of, finish, await_rounds, await_probe, probe_rounds,
}

module _ {F W : Type 0} (api : Api F W) (texts : Texts) (ns name : String) where
  -- The world after the pods were listed, after the clock was read as well, and after the wait.
  abbrev pub after_list : W → W
  after_list w = (api.list_pods ns name w).1

  abbrev pub after_now : W → W
  after_now w = (api.now (after_list w)).1

  abbrev pub after_wait : W → W
  after_wait w = (api.wait (2 * second) (after_now w)).1

  abbrev pub ended : W → Option (String × Int64)
  ended w = terminated (pods_of (api.list_pods ns name w).0)

  -- The loop without a bound on its rounds, one constructor for each way a round goes: a container
  -- has terminated, the deadline is over, the context ends during the wait, another round.
  pub data Awaits (deadline : ℕ) : W → CheckResult × W → Type 0 where
    exited :
        (w : W) (done : String × Int64)
        → ended w ≡ some done
        → Awaits deadline w (finish api texts ns done (after_list w))
    timed_out :
        (w : W)
        → ended w ≡ none
        → deadline < (api.now (after_list w)).0
        → Awaits deadline w (result errored "probe did not finish before timeout", after_now w)
    cancelled :
        (w : W)
        → ended w ≡ none
        → (api.now (after_list w)).0 ≤ deadline
        → (api.wait (2 * second) (after_now w)).0 ≡ true
        → Awaits deadline w (result errored "probe cancelled", after_wait w)
    another :
        (w : W) (out : CheckResult × W)
        → ended w ≡ none
        → (api.now (after_list w)).0 ≤ deadline
        → (api.wait (2 * second) (after_now w)).0 ≡ false
        → Awaits deadline (after_wait w) out
        → Awaits deadline w out

  -- `time` is the clock of a world: `Now` reads it, a timer that fires has waited for its duration,
  -- and nothing turns it back.
  pub record Clock (time : W → ℕ) : Type 0 where
    pub reads : (w : W) → (api.now w).0 ≡ time w
    pub reading : (w : W) → time w ≤ time (api.now w).1
    pub waiting : (d : ℕ) (w : W) → (api.wait d w).0 ≡ false → time w + d ≤ time (api.wait d w).1
    pub listing : (w : W) → time w ≤ time (after_list w)

  module _ (time : W → ℕ) (clock : Clock time) where
    round_passes :
        (w : W)
        → (api.wait (2 * second) (after_now w)).0 ≡ false
        → time w + 2 * second ≤ time (after_wait w)
    round_passes w h =
        let a = clock.reading (after_list w) in
        let b = clock.waiting (2 * second) (after_now w) h in let c = clock.listing w in omega arith

    await_rounds-Awaits :
        (n deadline : ℕ) (w : W)
        → deadline < time w + n * (2 * second)
        → Awaits deadline w (await_rounds api texts (suc n) ns name deadline w)
    unfolding await_rounds
    await_rounds-Awaits zero deadline w h = elim (Option-cases (ended w)) [
      | inr (done, e) ↦ rw (e, await_rounds) (exited w done e)
      | inl e ↦
          let a = clock.reads (after_list w) in
          let b = clock.listing w in
          let late : ltb deadline (api.now (after_list w)).0 ≡ true = ground arith in
          rw (e, late, await_rounds) (timed_out w e (ground arith))
    ]
    await_rounds-Awaits (suc n) deadline w h = elim (Option-cases (ended w)) [
      | inr (done, e) ↦ rw (e, await_rounds) (exited w done e)
      | inl e ↦ elim (Bool-cases (ltb deadline (api.now (after_list w)).0)) [
        | inl late ↦ rw (e, late, await_rounds) (timed_out w e (ground arith))
        | inr early ↦ elim (Bool-cases (api.wait (2 * second) (after_now w)).0) [
          | inl gone ↦ rw (e, early, gone, await_rounds) (cancelled w e (ground arith) gone)
          | inr on ↦
              let later = round_passes w on in
              rw (e, early, on, await_rounds)
                (another w _ e (ground arith) on
                  (await_rounds-Awaits n deadline (after_wait w) (omega arith)))
        ]
      ]
    ]

    enough : (d : Int64) (t : ℕ) → time_add t d < t + (probe_rounds d - 1) * (2 * second)
    enough d t = ground arith

    -- The wait for a probe ends within the rounds that the model gives it, whatever the timeout and
    -- whatever the pods do, if the clock reads and waits as a clock does: its result is one that the
    -- unbounded loop reaches, with the deadline 15 seconds after the probe's own timeout.
    pub await_probe-Awaits :
        (timeout : Int64) (w : W)
        → Awaits
            (time_add (time w) (add timeout (15 * second)))
            (api.now w).1
            (await_probe api texts ns name timeout w)
    unfolding await_probe
    await_probe-Awaits timeout w =
        let patience = add timeout (15 * second) in
        let a = clock.reading w in
        let n = (if is_neg patience then 0 else patience) / (2 * second) + 1 in
        let rounds : probe_rounds patience ≡ suc n = omega arith in
        let b = enough patience (time w) in
        rw (clock.reads w, rounds)
          (await_rounds-Awaits n (time_add (time w) patience) (api.now w).1 (omega arith))
