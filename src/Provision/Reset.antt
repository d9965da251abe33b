-- ===== src/Provision/Reset.antt =====
-- internal/provision/reset.go: the setup of a challenge is deleted and applied again.
pub mod Manifests
pub mod Laws
use kubedrill.Shared.{
  ℕ, ◌+◌, ◌*◌, ◌/◌, String, Option, none, some, List, [], ◌∷◌, ◌++◌, ◌==◌, if◌then◌else◌, ◌⧺◌,
}
use kubedrill.Shared.Results.{Result, ok, err}
use kubedrill.Shared.State.{M, pure, ◌>>=◌}
use kubedrill.Json.{Fields, Float64}
use kubedrill.Challenge.{Challenge, ManifestRef}
use kubedrill.Cluster.{Api, ResourceInterface, Got, found, not_found, failed, resource_for}
use kubedrill.Verify.Probe.{Texts, second}
use kubedrill.Provision.Waiting.{Awaited, arrived, late, cancelled, exhausted, await}
use kubedrill.Provision.{
  Writes, Finish, done, unfinished, failing, Deleted, deleted, absent, refused, unless_failing,
  as_it_is, split_yaml, apply,
}

pub record ObjRef : Type 0 where
  pub api_version : String
  pub kind : String
  pub namespace : String
  pub name : String

abbrev pub delete_window : ℕ
delete_window = 30 * second

abbrev pub delete_rounds : ℕ
delete_rounds = delete_window / second + 2

module _ {F W : Type 0} (api : Api F W) (writes : Writes F W) where
  abbrev pub ref_of : Fields F → ObjRef
  ref_of o = record {
    api_version = writes.api_version_of o;
    kind = writes.kind_of o;
    namespace = writes.namespace_of o;
    name = writes.name_of o;
  }

  abbrev pub and_refs : List ObjRef → Result (List ObjRef) → Result (List ObjRef)
  and_refs objs (err e) = err e
  and_refs objs (ok rest) = ok (objs ++ rest)

  abbrev pub parsed_ref : String → Result (Fields F) → Result (List ObjRef)
  parsed_ref path (err e) = err ("parse " ⧺ path ⧺ ": " ⧺ e)
  parsed_ref path (ok o) = ok (if writes.kind_of o == "" then [] else ref_of o ∷ [])

  abbrev pub and_then_refs : Result (List ObjRef) → Result (List ObjRef) → Result (List ObjRef)
  and_then_refs (err e) rest = err e
  and_then_refs (ok objs) rest = and_refs objs rest

  -- The objects of a file's documents, in the inner loop of `setupObjects`
  unfoldable pub document_refs : String → List String → Result (List ObjRef)
  document_refs path [] = ok []
  document_refs path (doc ∷ docs) =
      let rest = document_refs path docs in
      if doc == "" then rest else and_then_refs (parsed_ref path (writes.parse_yaml doc)) rest

  abbrev pub file_refs : String → Result String → Result (List ObjRef)
  file_refs path (err e) = err e
  file_refs path (ok raw) = document_refs path (split_yaml writes raw)

  abbrev pub with_refs :
      M W (Result (List ObjRef)) → Result (List ObjRef) → M W (Result (List ObjRef))
  with_refs rest (err e) = pure (err e)
  with_refs rest (ok objs) = do more ← rest; pure (and_refs objs more)

  -- `setupObjects`
  unfoldable pub setup_objects : String → List ManifestRef → M W (Result (List ObjRef))
  unfolding document_refs
  setup_objects dir [] = pure (ok [])
  setup_objects dir (m ∷ ms) = do
    raw ← api.read_file dir m.path
    with_refs (setup_objects dir ms) (file_refs m.path raw)

  abbrev pub unless_gone : Got F → Option String
  unless_gone not_found = none
  unless_gone (found o) = some ""
  unless_gone (failed e) = some ""

  -- `ri.Get`, none where the object is not found
  abbrev pub try_gone : ResourceInterface → String → M W (Option String)
  try_gone ri name w = let (got, w') = api.get ri name w in (unless_gone got, w')

  abbrev pub delete_finish : ObjRef → Awaited → M W Finish
  delete_finish o arrived = pure done
  delete_finish o (late reason) =
      pure (failing (o.kind ⧺ "/" ⧺ o.name ⧺ " still present after 30s"))
  delete_finish o cancelled = do e ← writes.context_error; pure (failing e)
  delete_finish o exhausted = pure unfinished

  abbrev pub wait_gone : ObjRef → ResourceInterface → M W Finish
  wait_gone o ri = do
    now ← api.now
    a ← await api second (try_gone ri o.name) delete_rounds (now + delete_window)
    delete_finish o a

  abbrev pub after_delete : ObjRef → ResourceInterface → Deleted → M W Finish
  after_delete o ri (refused e) = pure (failing e)
  after_delete o ri deleted = wait_gone o ri
  after_delete o ri absent = wait_gone o ri

  abbrev pub delete_resolved : ObjRef → Result ResourceInterface → M W Finish
  delete_resolved o (err e) = pure (failing e)
  delete_resolved o (ok ri) = do d ← writes.delete ri o.name; after_delete o ri d

  -- `deleteAndWait`
  unfoldable pub delete_and_wait : ObjRef → M W Finish
  unfolding resource_for await
  delete_and_wait o = do
    ri ← resource_for api o.api_version o.kind o.namespace
    delete_resolved o ri

  -- A round of the loop of `Reset`
  abbrev pub delete_object : ObjRef → M W Finish
  delete_object o = if o.kind == "Namespace" then pure done else do
    f ← delete_and_wait o
    unless_failing (λ e. "reset delete " ⧺ o.kind ⧺ "/" ⧺ o.name ⧺ ": " ⧺ e) (pure done) f

  -- The loop of `Reset`: what comes after an object in the list is deleted before it.
  unfoldable pub delete_all : List ObjRef → M W Finish
  unfolding delete_and_wait
  delete_all [] = pure done
  delete_all (o ∷ os) = do f ← delete_all os; unless_failing as_it_is (delete_object o) f

module _ (fl : Float64) {W : Type 0} (api : Api fl.Float W) (texts : Texts)
    (writes : Writes fl.Float W) (dir : String) where
  abbrev pub reset_objects : Challenge → Result (List ObjRef) → M W Finish
  reset_objects ch (err e) = pure (failing e)
  reset_objects ch (ok objs) = do
    f ← delete_all api writes objs
    unless_failing as_it_is (apply fl api texts writes dir ch) f

  -- `Reset`
  unfoldable pub reset : Challenge → M W Finish
  unfolding setup_objects delete_all apply
  reset ch = do
    objs ← setup_objects api writes dir ch.environment.setup.manifests
    reset_objects ch objs
