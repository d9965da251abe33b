-- ===== src/Tests/Commands.antt =====
-- Commands on sessions at concrete inputs.
use kubedrill.Rules.Grade.{contains}
use kubedrill.Shared.{ℕ, true, false, none, [], ◌∷◌, ◌≡◌, refl}
use kubedrill.Shared.Results.{ok}
use kubedrill.Store as Store
use kubedrill.Store.Sessions.{view}
use kubedrill.Cli.Sessions.{Clusters, stop, prune_orphans, list_sessions}
use kubedrill.Cli.Sessions.Stopping.{StopsFor, stop-StopsFor}
use kubedrill.Cli.Sessions.Pruning.{sessions_of, clusters_of, Pruned, prune_orphans-Pruned}
use kubedrill.Tests.Stores.{codec, os, one}

-- The provider owns one cluster, which has no session.
abbrev clusters : Clusters ℕ
clusters = record { list = λ w. (ok ("s2" ∷ []), w); destroy = λ id w. (none, w) }

no_blank_id : contains (sessions_of os codec clusters (Store.list os codec one).0) "" ≡ false
unfolding Store.list
no_blank_id = refl

prune_orphans-Pruned_example :
    Pruned os codec clusters
      (sessions_of os codec clusters (Store.list os codec one).0)
      (clusters_of os codec clusters (clusters.list 7).0)
      (view codec one.disk)
      7
      (prune_orphans os codec clusters (λ ids. ids) (7, one)).1
prune_orphans-Pruned_example =
    prune_orphans-Pruned os codec clusters (λ ids. ids) (λ ids j. refl) 7 one no_blank_id

pruned :
    (prune_orphans os codec clusters (λ ids. ids) (7, one)).0
    ≡ "destroyed orphan cluster s2" ∷ "removed stale session s1" ∷ []
unfolding prune_orphans
pruned = refl

stop-StopsFor_example :
    StopsFor os codec clusters true [] one (stop os codec clusters true [] (7, one))
stop-StopsFor_example = stop-StopsFor os codec clusters true [] 7 one

stopped_current : (stop os codec clusters false [] (7, one)).0 ≡ none
unfolding stop
stopped_current = refl

no_pressure :
    (list_sessions os codec one).0
    ≡ ok (
      (record {
        id = "s1";
        is_current = true;
        challenge = "shop";
        phase = "running";
        best_score = 0;
      })
          ∷ [],
      none,
    )
unfolding list_sessions
no_pressure = refl
