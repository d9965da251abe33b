-- ===== src/Engine/Start/Laws.antt =====
-- What a start leaves in the session store, and of the cluster.
use kubedrill.Shared.{ℕ, String, Option, some, ◌≡◌}
use kubedrill.Shared.Results.{ok}
use kubedrill.Json.{Float64}
use kubedrill.Challenge.{Challenge}
use kubedrill.Session.{Session}
use kubedrill.Loader.{load_dir}
use kubedrill.Store.Files.{World, Os}
use kubedrill.Store as Store
use kubedrill.Store.{Codec, filled, load}
use kubedrill.Store.Sessions.{Sessions, stored}
use kubedrill.Engine.Start.{Wiring, created_session}
use kubedrill.Engine.Start.Halts.{Recorded, Made}

module _ (fl : Float64) {W : Type 0} (wiring : Wiring fl.Float W) (os : Os) (codec : Codec) where
  module _ (dir id : String) (s : Sessions) where
    -- A session in the store whose challenge was loaded from the directory.
    abbrev MadeFor : Challenge → Session → World → Type 0
    MadeFor ch st f =
        Made fl wiring os codec dir id s st f
        × (load_dir wiring.library dir ≡ ok ch)
        × Recorded fl wiring os codec dir id ch st

    -- A session that a start records can be written and read back, its id with it.
    abbrev pub ReadsBack : Type 0
    ReadsBack =
        (ch : Challenge) (d : Option ℕ) (now : ℕ)
        → (st : Session) × (stored codec
              (filled now (created_session fl wiring os codec dir id ch d))
            ≡ some st)
          × (st.id ≡ id)
