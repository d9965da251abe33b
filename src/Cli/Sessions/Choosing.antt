-- ===== src/Cli/Sessions/Choosing.antt =====
-- The session that the arguments of a command choose.
use kubedrill.Shared.{
  ◌⊎◌, String, not, Bool, true, false, List, [], ◌∷◌, ◌==◌, ◌≡◌, refl, sym, ap, ◌∙◌, inl, inr,
  if◌then◌else◌,
}
use kubedrill.Shared.Results.{Result, ok, err}
use kubedrill.Store.Files.{World, Os}
use kubedrill.Store as Store
use kubedrill.Store.{Codec}
use kubedrill.Store.Views.{current-same}
use kubedrill.Cli.Sessions.{resolve_session, resolve_current, resolved}

module _ (os : Os) (codec : Codec) where
  -- The id of the current session, which is not blank.
  abbrev pub IsCurrent : World → String → Type 0
  IsCurrent f id = ((id == "") ≡ false) × ((Store.current os codec f).0 ≡ ok id)

  -- The session that arguments choose: the first of them, or the current one where there is none or
  -- it is blank.
  abbrev pub Chosen : List String → World → String → Type 0
  Chosen [] f id = IsCurrent f id
  Chosen (arg ∷ args) f id =
      (((arg == "") ≡ false) × (id ≡ arg)) ⊎ (((arg == "") ≡ true) × IsCurrent f id)

  resolve_current-IsCurrent :
      (f : World) (id : String) → (resolve_current os codec f).0 ≡ ok id → IsCurrent f id
  resolve_current-IsCurrent f id h = either (Store.current os codec f).0 refl h
    where
      either :
          (r : Result String)
          → (Store.current os codec f).0 ≡ r
          → resolved os codec r ≡ ok id
          → IsCurrent f id
      either (err e) k h = cc
      either (ok cur) k h = named (cur == "") refl h
        where
          named :
              (b : Bool)
              → (cur == "") ≡ b
              → (if b then err "no session specified and no current session set" else ok cur)
                ≡ ok id
              → IsCurrent f id
          named true m h = cc
          named false m h = (ap (λ t. t == "") (sym same) ∙ m, k ∙ ap ok same)
            where
              same : cur ≡ id
              same = cc

  pub resolve_session-Chosen :
      (args : List String) (f : World) (id : String)
      → (resolve_session os codec args f).0 ≡ ok id
      → Chosen args f id
  unfolding resolve_session
  resolve_session-Chosen [] f id h = resolve_current-IsCurrent f id h
  resolve_session-Chosen (arg ∷ args) f id h = either (arg == "") refl h
    where
      either :
          (b : Bool)
          → (arg == "") ≡ b
          → ((if not b then (λ f'. (ok arg, f')) else resolve_current os codec) f).0 ≡ ok id
          → Chosen (arg ∷ args) f id
      either true k h = inr (k, resolve_current-IsCurrent f id h)
      either false k h = inl (k, cc)

  pub resolve_session-same :
      (args : List String) (f : World) → (resolve_session os codec args f).1.disk ≡ f.disk
  unfolding resolve_session
  resolve_session-same [] f = current-same os codec f
  resolve_session-same (arg ∷ args) f = either (not (arg == ""))
    where
      either :
          (b : Bool)
          → ((if b then (λ f'. (ok arg, f')) else resolve_current os codec) f).1.disk ≡ f.disk
      either true = refl
      either false = current-same os codec f
