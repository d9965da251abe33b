-- ===== src/Provision/Waiting.antt =====
-- internal/provision: the loop of `waitReadiness` in provision.go and of `deleteAndWait` in reset.go,
-- which differ in what they try, in their deadline and in the time between two tries.
use kubedrill.Shared.{
  ℕ, zero, suc, ◌+◌, ◌*◌, ◌≤◌, ◌<◌, String, true, false, Option, none, some, ◌≡◌, inl, inr, arith,
  ltb, Bool-cases, Option-cases,
}
use kubedrill.Shared.State.{M}
use kubedrill.Cluster.{Api}

-- How the loop ends: the try succeeded, the deadline passed (with what the last try said), the
-- context ended, or the rounds of the model are used up.
pub data Awaited : Type 0 where
  arrived cancelled exhausted : Awaited
  late : String → Awaited

module _ {F W : Type 0} (api : Api F W) (interval : ℕ) (attempt : M W (Option String)) where
  -- The loop, on fuel: `attempt` gives none when it succeeds, else the reason.
  unfoldable pub await : ℕ → ℕ → M W Awaited
  await zero deadline w = (exhausted, w)
  await (suc n) deadline w =
      let (r, w₁) = attempt w in
      elim r [
        | none ↦ (arrived, w₁)
        | some reason ↦
            let (t, w₂) = api.now w₁ in
            elim (ltb deadline t) [
              | true ↦ (late reason, w₂)
              | false ↦
                  let (ended, w₃) = api.wait interval w₂ in
                  elim ended [ true ↦ (cancelled, w₃) | false ↦ await n deadline w₃ ]
            ]
      ]

  -- The world after an attempt, and the one after reading the clock and the wait that follow.
  abbrev pub tried : W → W
  tried w = (attempt w).1

  abbrev pub rested : W → W
  rested w = (api.wait interval (api.now (tried w)).1).1

  -- The loop without a bound on its rounds, one constructor for each way a round goes.
  pub data Awaits (deadline : ℕ) : W → Awaited × W → Type 0 where
    succeeded : (w : W) → (attempt w).0 ≡ none → Awaits deadline w (arrived, tried w)
    expired :
        (w : W) (reason : String)
        → (attempt w).0 ≡ some reason
        → deadline < (api.now (tried w)).0
        → Awaits deadline w (late reason, (api.now (tried w)).1)
    ended :
        (w : W) (reason : String)
        → (attempt w).0 ≡ some reason
        → (api.now (tried w)).0 ≤ deadline
        → (api.wait interval (api.now (tried w)).1).0 ≡ true
        → Awaits deadline w (cancelled, rested w)
    again :
        (w : W) (reason : String) (out : Awaited × W)
        → (attempt w).0 ≡ some reason
        → (api.now (tried w)).0 ≤ deadline
        → (api.wait interval (api.now (tried w)).1).0 ≡ false
        → Awaits deadline (rested w) out
        → Awaits deadline w out

-- `time` is the clock of a world: `Now` reads it, a timer that fires has waited for its duration, and
-- neither turns it back.
pub record Clock {F W : Type 0} (api : Api F W) (time : W → ℕ) : Type 0 where
  pub reads : (w : W) → (api.now w).0 ≡ time w
  pub reading : (w : W) → time w ≤ time (api.now w).1
  pub waiting : (d : ℕ) (w : W) → (api.wait d w).0 ≡ false → time w + d ≤ time (api.wait d w).1

-- What a computation does not do: turn the clock back.
abbrev pub Onward : {W A : Type 0} → (W → ℕ) → M W A → Type 0
Onward time m = (w : _) → time w ≤ time (m w).1

module _ {F W : Type 0} (api : Api F W) (time : W → ℕ) (clock : Clock api time) (interval : ℕ)
    (attempt : M W (Option String)) (onward : Onward time attempt) where
  round_passes :
      (w : W)
      → (api.wait interval (api.now (tried api interval attempt w)).1).0 ≡ false
      → time w + interval ≤ time (rested api interval attempt w)
  round_passes w h =
      let a = onward w in
      let b = clock.reading (tried api interval attempt w) in
      let c = clock.waiting interval (api.now (tried api interval attempt w)).1 h in omega arith

  -- With a round for each interval up to the deadline, and one more, the loop ends as the unbounded
  -- one does.
  pub await-Awaits :
      (n deadline : ℕ) (w : W)
      → deadline < time w + n * interval
      → Awaits api interval attempt deadline w (await api interval attempt (suc n) deadline w)
  unfolding await
  await-Awaits zero deadline w h =
      let a = onward w in
      let b = clock.reads (tried api interval attempt w) in
      let l : ltb deadline (api.now (tried api interval attempt w)).0 ≡ true = ground arith in
      elim (Option-cases (attempt w).0) [
        | inl e ↦ rw (e, await) (succeeded w e)
        | inr (reason, e) ↦ rw (e, l, await) (expired w reason e (omega arith))
      ]
  await-Awaits (suc n) deadline w h = elim (Option-cases (attempt w).0) [
    | inl e ↦ rw (e, await) (succeeded w e)
    | inr (reason, e) ↦
        elim (Bool-cases (ltb deadline (api.now (tried api interval attempt w)).0)) [
          | inl l ↦ rw (e, l, await) (expired w reason e (ground arith))
          | inr l ↦
              elim (Bool-cases (api.wait interval (api.now (tried api interval attempt w)).1).0) [
                | inl c ↦ rw (e, l, c, await) (ended w reason e (ground arith) c)
                | inr c ↦
                    let a = round_passes w c in
                    rw (e, l, c, await)
                      (again w reason _ e (ground arith) c
                        (await-Awaits n deadline (rested api interval attempt w) (omega arith)))
              ]
        ]
  ]

  -- From the time `t` on: the attempt that succeeded, where the loop ended by one; no round too few.
  abbrev pub Arrived : ℕ → Awaited × W → Type 0
  Arrived t (arrived, w') =
      (w : W) × (t ≤ time w) × ((attempt w).0 ≡ none) × (w' ≡ tried api interval attempt w)
  Arrived t (exhausted, w') = ⊥
  Arrived t (late reason, w') = Unit
  Arrived t (cancelled, w') = Unit

  Awaits-Arrived :
      (t deadline : ℕ) (w : W) (out : Awaited × W)
      → Awaits api interval attempt deadline w out
      → t ≤ time w
      → Arrived t out
  Awaits-Arrived t deadline _ _ (succeeded w e) h = (w, h, e, λ i. tried api interval attempt w)
  Awaits-Arrived t deadline _ _ (expired w reason e l) h = tt
  Awaits-Arrived t deadline _ _ (ended w reason e l c) h = tt
  Awaits-Arrived t deadline _ _ (again w reason out e l c rest) h =
      let a = round_passes w c in
      Awaits-Arrived t deadline (rested api interval attempt w) out rest (omega arith)

  pub await-Arrived :
      (n deadline : ℕ) (w : W)
      → deadline < time w + n * interval
      → Arrived (time w) (await api interval attempt (suc n) deadline w)
  await-Arrived n deadline w h =
      Awaits-Arrived (time w) deadline w (await api interval attempt (suc n) deadline w)
        (await-Awaits n deadline w h) (omega arith)
