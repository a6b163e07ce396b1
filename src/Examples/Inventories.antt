-- ===== src/Examples/Inventories.antt =====
-- The inventory's operations on small inventories.
use Prim.Native.Nat.{max}
use fork_kustomize_controlle.Prelude.{
  ◌-◌, String, not, ◌&&◌, ◌||◌, some, List, [], ◌∷◌, ◌++◌, ◌≡◌, refl, arith, map, any, contains,
  string_eq, ◌==◌,
}
use fork_kustomize_controlle.Prelude.Int.{pos, ◌≤ℤ◌}
use fork_kustomize_controlle.Errors.{ok}
use fork_kustomize_controlle.Api.{ResourceRef, ResourceInventory}
use fork_kustomize_controlle.Api.Defaults.{
  half_minute, get_timeout, half_minute-le-get_timeout, get_timeout_default,
}
use fork_kustomize_controlle.Objects.{
  ObjMetadata, Unstructured, ChangeSetEntry, deleted, unknown, bare_object,
}
use fork_kustomize_controlle.Inventory.{diff, merge, ids, object_ref, version_of}
use fork_kustomize_controlle.Inventory.Tracking.{tracks, Distinct}
use fork_kustomize_controlle.Inventory.Difference.{is_object, diff_lem}
use fork_kustomize_controlle.Inventory.Merging.{merged, merge_adds, merge-Distinct}
use fork_kustomize_controlle.Controller.Pruning.{entries_of, prune_survivors}
use fork_kustomize_controlle.Controller.Pruning.Survivors.{is_settled, any-prune_survivors}
use fork_kustomize_controlle.Examples.{sample_objects, sample_metadata, sample_kustomization}
use fork_kustomize_controlle.Examples.Laws.{object_laws}

abbrev entry : String → ResourceRef
entry s = record { id = s; version = "v1" }

abbrev old_inventory : ResourceInventory
old_inventory = record { entries = entry "web" ∷ entry "gone" ∷ [] }

abbrev new_inventory : ResourceInventory
new_inventory = record { entries = entry "web" ∷ [] }

abbrev objects : List Unstructured
objects = bare_object "" "v1" "" "gone" "" ∷ bare_object "" "v1" "" "web" "" ∷ []

abbrev change_set : List ChangeSetEntry
change_set =
    record { metadata = sample_metadata "gone"; group_version = "v1"; action = deleted }
    ∷ record { metadata = sample_metadata "web"; group_version = "v1"; action = unknown }
    ∷ []

stale_names :
    diff sample_objects old_inventory new_inventory ≡ ok (bare_object "" "v1" "" "gone" "" ∷ [])
unfolding diff
stale_names = refl

diff_example :
    (us : List Unstructured) × (diff sample_objects old_inventory new_inventory ≡ ok us)
    × ((m : ObjMetadata)
        → any
            (is_object sample_objects object_laws m
              (version_of sample_objects old_inventory.entries m))
            us
          ≡ (tracks sample_objects old_inventory.entries m
              && not (tracks sample_objects new_inventory.entries m)))
diff_example =
    diff_lem sample_objects object_laws old_inventory new_inventory
      ((sample_metadata "web", refl), ((sample_metadata "gone", refl), tt))
      ((sample_metadata "web", refl), tt)

merge_adds_example :
    (more : List ResourceRef) × (merge sample_objects (some new_inventory) objects
      ≡ some (record { entries = new_inventory.entries ++ more }))
    × ((i : String)
        → contains i (ids (new_inventory.entries ++ more)) ≡ (
            contains i (ids new_inventory.entries)
            || contains i (ids (map (object_ref sample_objects) objects))))
merge_adds_example = merge_adds sample_objects new_inventory objects

merge-Distinct_example :
    (merge sample_objects (some new_inventory) objects
      ≡ some (record { entries = merged sample_objects new_inventory objects }))
    × Distinct (ids (merged sample_objects new_inventory objects))
    × (merge sample_objects (merge sample_objects (some new_inventory) objects) objects
        ≡ merge sample_objects (some new_inventory) objects)
merge-Distinct_example = merge-Distinct sample_objects new_inventory objects (refl, tt)

any-prune_survivors_example :
    any (λ u. u.name == "web") (prune_survivors sample_objects objects (some change_set))
    ≡ any
        (λ u.
          not (
            is_settled sample_objects
              (entries_of (some change_set))
              (sample_objects.to_string (sample_objects.metadata_of u)))
          && u.name == "web")
        objects
any-prune_survivors_example =
    any-prune_survivors sample_objects (λ u. u.name == "web") objects (some change_set)

half_minute-le-get_timeout_example : half_minute ≤ℤ get_timeout sample_kustomization
half_minute-le-get_timeout_example = half_minute-le-get_timeout sample_kustomization

get_timeout_default_example :
    get_timeout sample_kustomization ≡ pos (max 30000000000 (600000000000 - 30000000000))
get_timeout_default_example =
    get_timeout_default sample_kustomization 600000000000 refl refl (omega arith)
