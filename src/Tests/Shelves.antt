-- ===== src/Tests/Shelves.antt =====
-- A shelf with one pack.
use kubedrill.Shared.{
  ℕ, String, true, false, none, some, [], ◌∷◌, ◌==◌, ◌≡◌, ◌↔◌, refl, if◌then◌else◌, Memᴰ,
}
use kubedrill.Shared.Results.{ok}
use kubedrill.Packs.{
  manifest_name, Shelf, Pack, Entry, Manifest, listed, missing, resolve, read_manifest, is_label,
}
use kubedrill.Packs.Manifests.{IsManifest, read_manifest_iff}
use kubedrill.Packs.Laws.{IsInstalled, Gives, resolve-Resolves}
use kubedrill.Tests.Documents.{library}

abbrev folder : String → Entry
folder name = record { name = name; is_dir = true }

abbrev manifest : Manifest
manifest = record {
  api_version = "kubedrill.dev/v1alpha1";
  kind = "Pack";
  name = "core-1";
  version = "1.0";
  description = "";
}

abbrev shelf : Shelf ℕ
shelf = record {
  library = record library { read_file = λ path. ok "doc"; stat = λ path. true };
  read_dir = λ dir.
      if dir == "store"
      then listed (folder "core-1" ∷ record { name = "core-1.lock"; is_dir = false } ∷ [])
      else if dir == "store/core-1"
      then listed (folder ".tmp-1.0-7" ∷ folder "1.0" ∷ [])
      else if dir == "store/core-1/1.0"
      then listed (folder "shop" ∷ [])
      else missing;
  unmarshal_manifest = λ raw. ok manifest;
}

shop_resolved : resolve shelf "store" "shop" ≡ some ("store/core-1/1.0/shop", "core-1")
unfolding resolve kubedrill.Validation.validate
shop_resolved = refl

manifest_read : read_manifest shelf "src" ≡ ok manifest
unfolding read_manifest
manifest_read = refl

no_label : is_label "core-" ≡ false
unfolding is_label
no_label = refl

resolve-Resolves_example :
    (resolve shelf "store" "shop" ≡ none
      → (p : Pack) → IsInstalled shelf "store" p
      → ¬ Memᴰ "shop" p.challenges)
    × ((dir pack : String)
        → resolve shelf "store" "shop" ≡ some (dir, pack)
        → (p : Pack) × IsInstalled shelf "store" p × Gives shelf "shop" dir pack p)
resolve-Resolves_example = resolve-Resolves shelf "store" "shop"

read_manifest_iff_example : (read_manifest shelf "src" ≡ ok manifest) ↔ (
    (raw : String) × (shelf.library.read_file (shelf.library.join "src" manifest_name) ≡ ok raw)
    × (shelf.unmarshal_manifest raw ≡ ok manifest)
    × IsManifest manifest)
read_manifest_iff_example = read_manifest_iff shelf "src" manifest
