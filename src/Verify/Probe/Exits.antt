-- ===== src/Verify/Probe/Exits.antt =====
-- internal/verify/probe.go: what a probe's result says of its containers.
use kubedrill.Shared.{
  List, [], ◌∷◌, All, ap, Bool, true, false, subst, ℕ, zero, suc, ◌*◌, ◌≡◌, refl, inl, inr, ◌⊎◌,
  ltb, Bool-cases, Option, some, none, Option-cases, String, if◌then◌else◌, nat_eq, ◌⧺◌,
}
use kubedrill.Shared.Int.{Int64, add}
use kubedrill.Shared.Results.{Result, ok, err}
use kubedrill.Challenge.{Probe}
use kubedrill.Cluster.{Api, Pod, Created, created, already_exists, refused, time_add}
use kubedrill.Verify.Outcome.{Outcome, CheckResult, pass, fail, errored}
use kubedrill.Verify.Probe.{
  Texts, second, terminated, first_code, make_namespace, namespace_created, pods_of, interpret_exit,
  await_rounds, await_probe, probe_namespace, eval_probe, ensure_namespace, with_job,
  with_config_map, in_namespace, run_script, probe_rounds, probe_timeout,
}

-- The documented meaning of an exit code.
abbrev pub exit_outcome : Int64 → Outcome
exit_outcome code = if nat_eq code 0 then pass else if nat_eq code 1 then fail else errored

interpret_exit_outcome :
    (show : Int64 → String) (code : Int64) (reason : String)
    → (interpret_exit show code reason).outcome ≡ exit_outcome code
unfolding interpret_exit
interpret_exit_outcome show code reason = elim (Bool-cases (nat_eq code 0)) [
  | inl e ↦ rw (e, interpret_exit) refl
  | inr n ↦ elim (Bool-cases (nat_eq code 1)) [
    | inl e ↦ rw (n, e, interpret_exit) refl
    | inr m ↦ rw (n, m, interpret_exit) refl
  ]
]

abbrev pub Errored : CheckResult → Type 0
Errored r = r.outcome ≡ errored

or_map : {A B C : Type 0} → (B → C) → A ⊎ B → A ⊎ C
or_map f (inl a) = inl a
or_map f (inr b) = inr (f b)

-- Of the containers in order, the first one that is terminated has the exit code.
abbrev pub FirstOf : Int64 → List (Option Int64) → Type 0
FirstOf code [] = ⊥
FirstOf code (some c ∷ cs) = c ≡ code
FirstOf code (none ∷ cs) = FirstOf code cs

-- No container is terminated.
abbrev pub NoneOf : List (Option Int64) → Type 0
NoneOf cs = All (λ (c : Option Int64). c ≡ none) cs

-- The first pod with a container that is terminated has the exit code.
abbrev pub FirstExit : Int64 → List Pod → Type 0
FirstExit code [] = ⊥
FirstExit code (p ∷ ps) = FirstOf code p.exit_codes ⊎ (NoneOf p.exit_codes × FirstExit code ps)

first_code-cases :
    (cs : List (Option Int64))
    → ((first_code cs ≡ none) × NoneOf cs)
      ⊎ ((code : Int64) × (first_code cs ≡ some code) × FirstOf code cs)
first_code-cases [] = inl (refl, tt)
first_code-cases (some c ∷ cs) = inr (c, refl, refl)
first_code-cases (none ∷ cs) = elim (first_code-cases cs) [
  | inl (e, n) ↦ inl (e, (refl, n))
  | inr found ↦ inr found
]

same_pair : {p q : String × Int64} → some p ≡ some q → p ≡ q
same_pair h = cc

terminated-FirstExit :
    (pods : List Pod) (pod : String) (code : Int64)
    → terminated pods ≡ some (pod, code)
    → FirstExit code pods
unfolding terminated
terminated-FirstExit [] pod code h = cc
terminated-FirstExit (p ∷ ps) pod code h = elim (first_code-cases p.exit_codes) [
  | inl (e, n) ↦ inr (n, terminated-FirstExit ps pod code (rw e at h))
  | inr (c, e, f) ↦
      let same : c ≡ code = ap (λ x. x.1) (same_pair (rw e at h)) in
      inl (subst (λ k. FirstOf k p.exit_codes) same f)
]

-- A round that shows a terminated container has listed the pods.
listed_exit :
    (r : Result (List Pod)) (pod : String) (code : Int64)
    → terminated (pods_of r) ≡ some (pod, code)
    → (pods : List Pod) × (r ≡ ok pods) × FirstExit code pods
listed_exit (ok pods) pod code h = (pods, refl, terminated-FirstExit pods pod code h)
listed_exit (err e) pod code h = absurd (terminated-FirstExit [] pod code h)

module _ {F W : Type 0} (api : Api F W) (texts : Texts) where
  -- The world after a round of the wait: the pods listed, the clock read, two seconds waited for.
  abbrev pub next_round : String → String → W → W
  next_round ns name w = (api.wait (2 * second) (api.now (api.list_pods ns name w).1).1).1

  pub data Rounds (ns name : String) : W → W → Type 0 where
    here : (w : W) → Rounds ns name w w
    later : (w w' : W) → Rounds ns name (next_round ns name w) w' → Rounds ns name w w'

  -- The namespace `ns` is there in the world `w`, or it is not and is created; `w'` is the world after.
  abbrev pub Provided : String → W → W → Type 0
  Provided ns w w' =
      (((api.namespace_missing ns w).0 ≡ none) × (w' ≡ (api.namespace_missing ns w).1))
      ⊎ ((e : String) × ((api.namespace_missing ns w).0 ≡ some (true, e))
          × (((api.create_namespace ns (api.namespace_missing ns w).1).0 ≡ created)
              ⊎ ((api.create_namespace ns (api.namespace_missing ns w).1).0 ≡ already_exists))
          × (w' ≡ (api.create_namespace ns (api.namespace_missing ns w).1).1))

  -- In some round of the wait that begins in the world `w` the cluster showed a container of the job's
  -- pods as terminated, and the outcome is what its exit code means.
  abbrev pub Exited : String → String → W → CheckResult → Type 0
  Exited ns name w r =
      (w' : W) × Rounds ns name w w'
      × ((pods : List Pod) × (code : Int64) × ((api.list_pods ns name w').0 ≡ ok pods)
          × FirstExit code pods
          × (r.outcome ≡ exit_outcome code))

  -- The same for a job that was created, for a script whose config map was created, and in a
  -- namespace that is there.
  abbrev pub JobExited : String → String → Result (Unit {0}) → W → CheckResult → Type 0
  JobExited ns name job w r = (job ≡ ok tt) × Exited ns name (api.now w).1 r

  abbrev pub MapExited :
      String → String → String → Int64 → Result (Unit {0}) → W → CheckResult → Type 0
  MapExited ns name image timeout made w r =
      let (job, w') = api.create_job ns name image timeout w in
      (made ≡ ok tt) × JobExited ns name job w' r

  abbrev pub SpaceExited : String → String → String → Int64 → W → CheckResult → Type 0
  SpaceExited ns script image timeout w r =
      let (suffix, w₁) = api.random_suffix w in
      let name = "kd-probe-" ⧺ suffix in
      let (made, w₂) = api.create_config_map ns name script w₁ in
      MapExited ns name image timeout made w₂ r

  abbrev pub ProbeExited : Probe → Result String → W → CheckResult → Type 0
  ProbeExited p read w r =
      let ns = probe_namespace p.namespace in
      (script : String) × (w' : W) × (read ≡ ok script)
      × Provided ns w w'
      × SpaceExited ns script p.image (probe_timeout api.parse_duration p.timeout) w' r

  await_rounds-Exited :
      (n : ℕ) (ns name : String) (deadline : ℕ) (w : W)
      → let r = (await_rounds api texts n ns name deadline w).0 in Errored r ⊎ Exited ns name w r
  unfolding await_rounds
  await_rounds-Exited zero ns name deadline w = inl refl
  await_rounds-Exited (suc n) ns name deadline w =
      let (listed, w₁) = api.list_pods ns name w in
      let (t, w₂) = api.now w₁ in
      let (cancelled, w₃) = api.wait (2 * second) w₂ in
      elim (Option-cases (terminated (pods_of listed))) [
        | inr ((pod, code), e) ↦
            let (pods, l, x) = listed_exit listed pod code e in
            rw (e, await_rounds)
              (inr (
                w,
                Rounds.here w,
                (pods, code, l, x, interpret_exit_outcome texts.show_int code _),
              ))
        | inl e ↦ elim (Bool-cases (ltb deadline t)) [
          | inl late ↦ rw (e, late, await_rounds) (inl refl)
          | inr early ↦ elim (Bool-cases cancelled) [
            | inl gone ↦ rw (e, early, gone, await_rounds) (inl refl)
            | inr on ↦
                rw (e, early, on, await_rounds)
                  (or_map (λ (w', at, found). (w', Rounds.later w w' at, found))
                    (await_rounds-Exited n ns name deadline w₃))
          ]
        ]
      ]

  with_job-JobExited :
      (ns name : String) (timeout : Int64) (job : Result (Unit {0})) (w : W)
      → let r = (with_job api texts ns name timeout job w).0 in
        Errored r ⊎ JobExited ns name job w r
  unfolding await_probe
  with_job-JobExited ns name timeout (err e) w = inl refl
  with_job-JobExited ns name timeout (ok _) w =
      let patience = add timeout (15 * second) in
      let (t, w') = api.now w in
      or_map (λ x. (refl, x))
        (await_rounds-Exited (probe_rounds patience) ns name (time_add t patience) w')

  with_config_map-MapExited :
      (ns name image : String) (timeout : Int64) (made : Result (Unit {0})) (w : W)
      → let r = (with_config_map api texts ns name image timeout made w).0 in
        Errored r ⊎ MapExited ns name image timeout made w r
  with_config_map-MapExited ns name image timeout (err e) w = inl refl
  with_config_map-MapExited ns name image timeout (ok _) w =
      let (job, w') = api.create_job ns name image timeout w in
      or_map (λ x. (refl, x)) (with_job-JobExited ns name timeout job w')

  in_namespace-SpaceExited :
      (ns script image : String) (timeout : Int64) (w : W)
      → let r = (in_namespace api texts ns script image timeout none w).0 in
        Errored r ⊎ SpaceExited ns script image timeout w r
  in_namespace-SpaceExited ns script image timeout w =
      let (suffix, w₁) = api.random_suffix w in
      let (made, w₂) = api.create_config_map ns ("kd-probe-" ⧺ suffix) script w₁ in
      with_config_map-MapExited ns ("kd-probe-" ⧺ suffix) image timeout made w₂

  -- Whatever is said of the namespace, an error or a namespace that is there.
  ensured :
      (ns : String) (w : W)
      → ((e : String) × ((ensure_namespace api texts ns w).0 ≡ some e))
        ⊎ (((ensure_namespace api texts ns w).0 ≡ none)
            × Provided ns w (ensure_namespace api texts ns w).1)
  unfolding ensure_namespace
  ensured ns w = either (api.namespace_missing ns w).0 refl
    where
      w' : W
      w' = (api.namespace_missing ns w).1

      made :
          (e : String) (r : Created)
          → (api.namespace_missing ns w).0 ≡ some (true, e)
          → (api.create_namespace ns w').0 ≡ r
          → ((t : String) × (namespace_created api texts ns r ≡ some t))
            ⊎ ((namespace_created api texts ns r ≡ none)
                × Provided ns w (api.create_namespace ns w').1)
      made e created m h = inr (refl, inr (e, m, inl h, refl))
      made e already_exists m h = inr (refl, inr (e, m, inr h, refl))
      made e (refused t) m h = inl (_, refl)

      either :
          (r : Option (Bool × String))
          → (api.namespace_missing ns w).0 ≡ r
          → ((t : String) × ((make_namespace api texts ns r w').0 ≡ some t))
            ⊎ (((make_namespace api texts ns r w').0 ≡ none)
                × Provided ns w (make_namespace api texts ns r w').1)
      either none m = inr (refl, inl (m, refl))
      either (some (false, e)) m = inl (_, refl)
      either (some (true, e)) m = made e (api.create_namespace ns w').0 m refl

  run_script-ProbeExited :
      (p : Probe) (read : Result String) (w : W)
      → let r = (run_script api texts p read w).0 in Errored r ⊎ ProbeExited p read w r
  run_script-ProbeExited p (err e) w = inl refl
  run_script-ProbeExited p (ok script) w = elim (ensured ns w) [
    | inl (e, h) ↦ rw h (inl refl)
    | inr (h, there) ↦ rw h (
        or_map (λ x. (script, w', refl, there, x))
          (in_namespace-SpaceExited ns script p.image (probe_timeout api.parse_duration p.timeout)
            w'))
  ]
    where
      ns : String
      ns = probe_namespace p.namespace

      w' : W
      w' = (ensure_namespace api texts ns w).1

  -- Whatever the cluster does, a probe's result is an error, or its script was read, its namespace was
  -- there or created, its config map and its job were created, and in a round of the wait the cluster
  -- showed a container of the job as terminated, the first such one in the order of the pods: exit code 0 passes and exit code 1 fails, and every
  -- other code is an error too.
  pub eval_probe-ProbeExited :
      (dir : String) (p : Probe) (w : W)
      → let (read, w') = api.read_file dir p.script w in
        let r = (eval_probe api texts dir p w).0 in Errored r ⊎ ProbeExited p read w' r
  unfolding eval_probe
  eval_probe-ProbeExited dir p w =
      let (script, w') = api.read_file dir p.script w in run_script-ProbeExited p script w'
