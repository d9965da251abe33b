-- ===== src/Engine/Guardrails/Watching.antt =====
-- The wait for the policies that were created to be in force comes to an end.
use kubedrill.Shared.{
  ℕ, zero, suc, ◌+◌, ◌*◌, ◌≤◌, String, false, List, [], ◌∷◌, ◌≡◌, ◌≢◌, ltb, arith, inl, inr,
  Bool-cases,
}
use kubedrill.Shared.Results.{Result, ok, err}
use kubedrill.Cluster.{Api, ResourceInterface, Got, resource_for}
use kubedrill.Provision.{Writes}
use kubedrill.Provision.Waiting.{Clock, Onward}
use kubedrill.Engine.Guardrails.{
  Admission, Watched, settled, ended, exhausted, watch, watch_all, unless_ended, watch_resolved,
  wait_enforcement_active, enforce_interval, enforce_window, is_active, enforce_rounds,
}

settled≢exhausted : settled ≢ exhausted
settled≢exhausted e = cc

ended≢exhausted : ended ≢ exhausted
ended≢exhausted e = cc

module _ {F W : Type 0} (api : Api F W) (writes : Writes F W) (admission : Admission F W)
    (time : W → ℕ) where
  -- A wait that ended within the rounds of the model, and not before the time `t`.
  abbrev EndsFrom : ℕ → Watched × W → Type 0
  EndsFrom t (exhausted, w) = ⊥
  EndsFrom t (settled, w) = t ≤ time w
  EndsFrom t (ended, w) = Unit

  EndsFrom-earlier : (s t : ℕ) (r : Watched × W) → s ≤ t → EndsFrom t r → EndsFrom s r
  EndsFrom-earlier s t (exhausted, w) h e = e
  EndsFrom-earlier s t (settled, w) h e = omega arith
  EndsFrom-earlier s t (ended, w) h e = tt

  module _ (clock : Clock api time)
      (getting : (ri : ResourceInterface) (name : String) → Onward time (api.get ri name)) where
    watch-EndsFrom :
        (n deadline : ℕ) (ri : ResourceInterface) (name : String) (w : W)
        → deadline ≤ time w + n * enforce_interval
        → EndsFrom (time w) (watch api writes admission (suc n) deadline ri name w)
    unfolding watch
    watch-EndsFrom zero deadline ri name w h =
        let a = clock.reads w in
        let b = clock.reading w in
        let l : ltb (api.now w).0 deadline ≡ false = ground arith in rw (l, watch) b
    watch-EndsFrom (suc n) deadline ri name w h = elim (Bool-cases (ltb (api.now w).0 deadline)) [
      | inr l ↦ rw (l, watch) (clock.reading w)
      | inl l ↦ elim (Bool-cases (is_active api writes admission seen.0)) [
        | inl e ↦ rw (l, e, watch) later
        | inr e ↦ elim (Bool-cases (api.wait enforce_interval seen.1).0) [
          | inl c ↦ rw (l, e, c, watch) tt
          | inr c ↦
              let a = later in
              let b = clock.waiting enforce_interval seen.1 c in
              let next = (api.wait enforce_interval seen.1).1 in
              rw (l, e, c, watch)
                (EndsFrom-earlier (time w) (time next)
                  (watch api writes admission (suc n) deadline ri name next) (omega arith)
                  (watch-EndsFrom n deadline ri name next (omega arith)))
        ]
      ]
    ]
      where
        seen : Got F × W
        seen = api.get ri name (api.now w).1

        later : time w ≤ time seen.1
        later = let a = clock.reading w in let b = getting ri name (api.now w).1 in omega arith

    watch_all-Ends :
        (deadline : ℕ) (ri : ResourceInterface) (names : List String) (w : W)
        → deadline ≤ time w + enforce_window
        → (watch_all api writes admission deadline ri names w).0 ≢ exhausted
    unfolding watch_all
    watch_all-Ends deadline ri [] w h = settled≢exhausted
    watch_all-Ends deadline ri (name ∷ names) w h =
        either (watch api writes admission enforce_rounds deadline ri name w).0
          (watch api writes admission enforce_rounds deadline ri name w).1
          (watch-EndsFrom 41 deadline ri name w (omega arith))
          (λ w' l. watch_all-Ends deadline ri names w' (omega arith))
      where
        either :
            (r : Watched) (w' : W)
            → EndsFrom (time w) (r, w')
            → ((w' : W)
                → time w ≤ time w'
                → (watch_all api writes admission deadline ri names w').0 ≢ exhausted)
            → (unless_ended api writes admission
                (watch_all api writes admission deadline ri names)
                r
                w').0
              ≢ exhausted
        either settled w' l later = later w' l
        either ended w' l later = ended≢exhausted
        either exhausted w' l later = absurd l

    pub wait_enforcement_active-Ends :
        (names : List String) (w : W)
        → (wait_enforcement_active api writes admission names w).0 ≢ exhausted
    unfolding wait_enforcement_active
    wait_enforcement_active-Ends [] w = settled≢exhausted
    wait_enforcement_active-Ends (name ∷ names) w =
        either
          (resource_for api "admissionregistration.k8s.io/v1" "ValidatingAdmissionPolicy" "" w).0
          (resource_for api "admissionregistration.k8s.io/v1" "ValidatingAdmissionPolicy" "" w).1
      where
        either :
            (r : Result ResourceInterface) (w' : W)
            → (watch_resolved api writes admission (name ∷ names) r w').0 ≢ exhausted
        either (err e) w' = settled≢exhausted
        either (ok ri) w' =
            let a = clock.reads w' in
            let b = clock.reading w' in
            watch_all-Ends ((api.now w').0 + enforce_window) ri (name ∷ names) (api.now w').1
              (omega arith)
