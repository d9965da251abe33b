-- ===== src/Validation/Cycle/Graph.antt =====
-- The graph of the dependencies: walks, and the nodes from which every walk ends.
use kubedrill.Shared.{String, List, Memᴰ}
use kubedrill.Challenge.{Objective}
use kubedrill.Validation.Cycle.{edges}

module _ (os : List Objective) where
  abbrev pub Edge : String → String → Type 0
  Edge n m = Memᴰ m (edges os n)

  -- Walks of any length.
  pub data Walk (n : String) : String → Type 0 where
    here : Walk n n
    step : (m k : String) → Walk n m → Edge m k → Walk n k

  pub record Cycle : Type 0 where
    pub from : String
    pub to : String
    pub walk : Walk from to
    pub back : Edge to from

  -- Every walk from `n` ends.
  pub data IsSafe : String → Type 0 where
    safe : (n : String) → ((m : String) → Edge n m → IsSafe m) → IsSafe n

  pub IsSafe-Walk : (n m : String) → IsSafe n → Walk n m → IsSafe m
  IsSafe-Walk n _ s here = s
  IsSafe-Walk n _ s (step m k w e) = IsSafe-next m k (IsSafe-Walk n m s w) e
    where
      IsSafe-next : (m k : String) → IsSafe m → Edge m k → IsSafe k
      IsSafe-next m k (safe _ next) e = next k e

  -- The first edge of a walk that has one.
  pub first-Edge : (n m k : String) → Walk n m → Edge m k → (l : String) × Edge n l × Walk l k
  first-Edge n _ k here e = (k, e, here)
  first-Edge n _ k (step m j w e) f = let (l, g, v) = first-Edge n m j w e in (l, g, step j k v f)

  -- A safe node lies on no cycle.
  pub IsSafe-not_on_cycle : (n m : String) → IsSafe n → Walk n m → ¬ Edge m n
  IsSafe-not_on_cycle n m (safe _ next) w e =
      let (l, f, v) = first-Edge n m n w e in IsSafe-not_on_cycle l n (next l f) v f
