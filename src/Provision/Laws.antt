-- ===== src/Provision/Laws.antt =====
-- How setting up and resetting a challenge ends.
use kubedrill.Shared.{
  refl, ℕ, ◌+◌, ◌*◌, ◌≤◌, ◌<◌, String, true, Option, none, some, List, [], ◌∷◌, ◌≡◌, sym, subst,
  ltb, arith, inl, inr, Bool-cases, All, if◌then◌else◌,
}
use kubedrill.Shared.Int.{Int64}
use kubedrill.Shared.State.{M}
use kubedrill.Json.{Float64}
use kubedrill.Challenge.{Challenge, Check, poll_of}
use kubedrill.Cluster.{Api, time_add}
use kubedrill.Verify.Outcome.{CheckResult, is_pass}
use kubedrill.Verify.Probe.{Texts}
use kubedrill.Verify.Checks.{eval_check}
use kubedrill.Provision.Waiting.{
  Awaited, arrived, late, cancelled, exhausted, await, Clock, Onward, Arrived, await-Arrived,
}
use kubedrill.Provision.{
  Writes, Finish, done, unfinished, failing, finish_of, unless_failing, as_it_is, gate_timeout,
  gate_deadline, gate_rounds, gate_interval, overall_window, gate_answer, try_gate, gate_finish,
  wait_gate, wait_gates, wait_readiness, inject_and_wait, apply, inject_faults, apply_manifests,
}

-- An end with what holds of the world without an error: within the rounds of the model.
abbrev pub EndsWith : {W : Type 0} → (W → Type 0) → Finish × W → Type 0
EndsWith P (done, w) = P w
EndsWith P (failing e, w) = Unit
EndsWith P (unfinished, w) = ⊥

pub unless_failing-EndsWith :
    {W : Type 0} (P Q : W → Type 0) (label : String → String) (rest : M W Finish) (f : Finish)
    (w : W)
    → EndsWith P (f, w)
    → (P w → EndsWith Q (rest w))
    → EndsWith Q (unless_failing label rest f w)
unless_failing-EndsWith P Q label rest done w h k = k h
unless_failing-EndsWith P Q label rest (failing e) w h k = tt
unless_failing-EndsWith P Q label rest unfinished w h k = h

pub EndsWith-map :
    {W : Type 0} (P Q : W → Type 0) (r : Finish × W)
    → ((w : W) → P w → Q w)
    → EndsWith P r
    → EndsWith Q r
EndsWith-map P Q (done, w) f p = f w p
EndsWith-map P Q (failing e, w) f p = tt
EndsWith-map P Q (unfinished, w) f p = p

-- An end without an error is that of a computation that is done.
pub EndsWith-done :
    {W : Type 0} (P : W → Type 0) (r : Finish × W)
    → EndsWith P r
    → EndsWith (λ w. (r.0 ≡ done) × P w) r
EndsWith-done P (done, w) p = (refl, p)
EndsWith-done P (failing e, w) p = tt
EndsWith-done P (unfinished, w) p = p

pub finish_of-EndsWith :
    {W : Type 0} (e : Option String) (w : W) → EndsWith (λ _. Unit) (finish_of e, w)
finish_of-EndsWith none w = tt
finish_of-EndsWith (some e) w = tt

gate_deadline_le : (deadline now : ℕ) (to : Int64) → gate_deadline deadline now to ≤ deadline
gate_deadline_le deadline now to = either (time_add now to)
  where
    either : (d : ℕ) → (if ltb deadline d then deadline else d) ≤ deadline
    either d = elim (Bool-cases (ltb deadline d)) [
      | inl e ↦ rw e (omega arith)
      | inr e ↦ rw e (ground arith)
    ]

module _ (fl : Float64) {W : Type 0} (api : Api fl.Float W) (texts : Texts)
    (writes : Writes fl.Float W) (dir : String) (time : W → ℕ) where
  -- The evaluations of the gates do not turn the clock back.
  abbrev pub OnwardGates : List Check → Type 0
  OnwardGates = All (λ g. Onward time (eval_check fl api texts dir g))

  -- The gates passed, each in an evaluation that is not before the one of the gate before it; the
  -- first not before the time `t`, the last not after the end.
  abbrev pub PassedFrom : ℕ → List Check → W → Type 0
  PassedFrom t [] w' = t ≤ time w'
  PassedFrom t (g ∷ gs) w' =
      (w : W) × (t ≤ time w)
      × (is_pass (eval_check fl api texts dir g w).0.outcome ≡ true)
      × PassedFrom (time w) gs w'

  gate_answer-none :
      (r : CheckResult) → gate_answer fl api texts writes dir r ≡ none → is_pass r.outcome ≡ true
  gate_answer-none r h = elim (Bool-cases (is_pass r.outcome)) [
    | inl e ↦ e
    | inr e ↦ let k = rw e at h in cc
  ]

  module _ (clock : Clock api time) where
    try_gate-Onward :
        (g : Check)
        → Onward time (eval_check fl api texts dir g)
        → Onward time (try_gate fl api texts writes dir g)
    try_gate-Onward g onward w = onward w

    gate_finish-EndsWith :
        (g : Check) (onward : Onward time (eval_check fl api texts dir g)) (t : ℕ) (to : Int64)
        (a : Awaited) (w : W)
        → Arrived api time clock gate_interval
            (try_gate fl api texts writes dir g)
            (try_gate-Onward g onward)
            t
            (a, w)
        → EndsWith (PassedFrom t (g ∷ [])) (gate_finish fl api texts writes dir to a w)
    gate_finish-EndsWith g onward t to arrived w (v, h, e, l) = (
      v,
      h,
      gate_answer-none (eval_check fl api texts dir g v).0 e,
      subst (λ w. time v ≤ time w) (sym l) (onward v),
    )
    gate_finish-EndsWith g onward t to (late reason) w s = tt
    gate_finish-EndsWith g onward t to cancelled w s = tt
    gate_finish-EndsWith g onward t to exhausted w s = s

    gate_window :
        (deadline : ℕ) (to : Int64) (w : W)
        → deadline ≤ time w + overall_window
        → gate_deadline deadline (api.now w).0 to < time (api.now w).1 + 46 * gate_interval
    gate_window deadline to w h =
        let a = gate_deadline_le deadline (api.now w).0 to in let b = clock.reading w in omega arith

    wait_gate-EndsWith :
        (deadline : ℕ) (g : Check) (w : W)
        → Onward time (eval_check fl api texts dir g)
        → deadline ≤ time w + overall_window
        → EndsWith
            (PassedFrom (time (api.now w).1) (g ∷ []))
            (wait_gate fl api texts writes dir deadline g w)
    wait_gate-EndsWith deadline g w onward h =
        gate_finish-EndsWith g onward (time (api.now w).1) to
          (await api gate_interval try gate_rounds until (api.now w).1).0
          (await api gate_interval try gate_rounds until (api.now w).1).1
          (await-Arrived api time clock gate_interval try (try_gate-Onward g onward) 46 until
            (api.now w).1 (gate_window deadline to w h))
      where
        to : Int64
        to = gate_timeout api.parse_duration (poll_of g)

        try : M W (Option String)
        try = try_gate fl api texts writes dir g

        until : ℕ
        until = gate_deadline deadline (api.now w).0 to

    PassedFrom-earlier :
        (s t : ℕ) (gs : List Check) (w : W) → s ≤ t → PassedFrom t gs w → PassedFrom s gs w
    PassedFrom-earlier s t [] w h p = omega arith
    PassedFrom-earlier s t (g ∷ gs) w h (v, l, p, rest) =
        let k : s ≤ time v = omega arith in (v, k, p, rest)

    PassedFrom-cons :
        (t : ℕ) (g : Check) (gs : List Check) (w w' : W)
        → PassedFrom t (g ∷ []) w
        → PassedFrom (time w) gs w'
        → PassedFrom t (g ∷ gs) w'
    PassedFrom-cons t g gs w w' (v, l, p, k) rest =
        (v, l, p, PassedFrom-earlier (time v) (time w) gs w' k rest)

    PassedFrom-time : (t : ℕ) (g : Check) (w : W) → PassedFrom t (g ∷ []) w → t ≤ time w
    PassedFrom-time t g w (v, l, p, k) = omega arith

    wait_gates-EndsWith :
        (deadline : ℕ) (gs : List Check) (w : W)
        → OnwardGates gs
        → deadline ≤ time w + overall_window
        → EndsWith (PassedFrom (time w) gs) (wait_gates fl api texts writes dir deadline gs w)
    unfolding wait_gates
    wait_gates-EndsWith deadline [] w onward h = let e : time w ≤ time w = omega arith in e
    wait_gates-EndsWith deadline (g ∷ gs) w (onward, rest) h =
        unless_failing-EndsWith (PassedFrom (time (api.now w).1) (g ∷ []))
          (PassedFrom (time w) (g ∷ gs)) as_it_is (wait_gates fl api texts writes dir deadline gs)
          (wait_gate fl api texts writes dir deadline g w).0 between
          (wait_gate-EndsWith deadline g w onward h)
          (λ p.
            let q =
              PassedFrom-earlier (time w) (time (api.now w).1) (g ∷ []) between (clock.reading w)
                p in
            let l = PassedFrom-time (time w) g between q in
            EndsWith-map (PassedFrom (time between) gs) (PassedFrom (time w) (g ∷ gs))
              (wait_gates fl api texts writes dir deadline gs between)
              (λ w'. PassedFrom-cons (time w) g gs between w' q)
              (wait_gates-EndsWith deadline gs between rest (omega arith)))
      where
        between : W
        between = (wait_gate fl api texts writes dir deadline g w).1

    wait_readiness-EndsWith :
        (gs : List Check) (w : W)
        → OnwardGates gs
        → EndsWith (PassedFrom (time w) gs) (wait_readiness fl api texts writes dir gs w)
    unfolding wait_readiness
    wait_readiness-EndsWith [] w onward = let e : time w ≤ time w = omega arith in e
    wait_readiness-EndsWith (g ∷ gs) w onward =
        let a = clock.reads w in
        let b = clock.reading w in
        EndsWith-map (PassedFrom (time (api.now w).1) (g ∷ gs)) (PassedFrom (time w) (g ∷ gs))
          (wait_gates fl api texts writes dir ((api.now w).0 + overall_window) (g ∷ gs)
            (api.now w).1)
          (λ w'. PassedFrom-earlier (time w) (time (api.now w).1) (g ∷ gs) w' b)
          (wait_gates-EndsWith ((api.now w).0 + overall_window) (g ∷ gs) (api.now w).1 onward
            (omega arith))

    -- The world after the manifests, and the one after the faults as well.
    abbrev pub manifested : Challenge → W → W
    manifested ch w =
        (apply_manifests api writes dir ch.metadata.name ch.environment.setup.manifests w).1

    abbrev pub broken : Challenge → W → W
    broken ch w = (inject_faults api writes ch.environment.setup.faults (manifested ch w)).1

    -- `Apply` comes to an end, whatever the timeouts of the gates and the answers of the cluster, if
    -- the clock reads and waits as a clock does. Where it returns no error, every readiness gate has
    -- passed in an evaluation after the faults were injected, one after the other in their order.
    pub apply-EndsWith :
        (ch : Challenge) (w : W)
        → OnwardGates ch.environment.setup.readiness
        → EndsWith
            (PassedFrom (time (broken ch w)) ch.environment.setup.readiness)
            (apply fl api texts writes dir ch w)
    unfolding apply
    apply-EndsWith ch w onward =
        unless_failing-EndsWith (λ _. Unit) ready as_it_is
          (inject_and_wait fl api texts writes dir ch) (finish_of applied.0) applied.1
          (finish_of-EndsWith applied.0 applied.1)
          (λ _.
            unless_failing-EndsWith (λ _. Unit) ready as_it_is
              (wait_readiness fl api texts writes dir ch.environment.setup.readiness)
              (finish_of faulted.0) faulted.1 (finish_of-EndsWith faulted.0 faulted.1)
              (λ _. wait_readiness-EndsWith ch.environment.setup.readiness faulted.1 onward))
      where
        applied : Option String × W
        applied = apply_manifests api writes dir ch.metadata.name ch.environment.setup.manifests w

        faulted : Option String × W
        faulted = inject_faults api writes ch.environment.setup.faults applied.1

        ready : W → Type 0
        ready = PassedFrom (time (broken ch w)) ch.environment.setup.readiness
