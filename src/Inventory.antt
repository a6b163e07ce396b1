-- ===== src/Inventory.antt =====
-- internal/inventory/inventory.go. A function that changes the inventory through its pointer
-- returns the new one; the errors of a parse are returned as `err`.
pub mod Tracking
pub mod Merging
pub mod Difference
use fork_kustomize_controlle.Prelude.{
  String, Option, none, some, List, [], ◌∷◌, ◌++◌, map, ◌==◌, contains, string_eq, if◌then◌else◌,
}
use fork_kustomize_controlle.Errors.{Result, ok, ◌>>=◌}
use fork_kustomize_controlle.Api.{ResourceRef, ResourceInventory, NamespacedObjectKindReference}
use fork_kustomize_controlle.Objects.{
  ObjMetadata, Unstructured, ChangeSetEntry, ObjectApi, bare_object,
}

-- `New`
abbrev pub new : ResourceInventory
new = record { entries = [] }

abbrev pub ids : List ResourceRef → List String
ids = map (λ e. e.id)

module _ (api : ObjectApi) where
  abbrev pub entry_ref : ChangeSetEntry → ResourceRef
  entry_ref e = record { id = api.to_string e.metadata; version = e.group_version }

  -- A nil change set adds nothing. No error is ever returned.
  unfoldable pub add_change_set :
      ResourceInventory → Option (List ChangeSetEntry) → ResourceInventory
  add_change_set inv none = inv
  add_change_set inv (some set) = record { entries = inv.entries ++ map entry_ref set }

  -- The id and the version under which an object is tracked.
  abbrev pub object_ref : Unstructured → ResourceRef
  object_ref u = record { id = api.to_string (api.metadata_of u); version = u.version }

  -- The loop of `Merge`; `seen` holds the ids that the map is true at.
  unfoldable merge_from : List String → List ResourceRef → List Unstructured → List ResourceRef
  merge_from seen entries [] = entries
  merge_from seen entries (obj ∷ objects) =
      let id = (object_ref obj).id in
      if contains id seen
      then merge_from seen entries objects
      else merge_from (id ∷ seen) (entries ++ object_ref obj ∷ []) objects

  -- A nil inventory stays nil.
  unfoldable pub merge : Option ResourceInventory → List Unstructured → Option ResourceInventory
  unfolding merge_from
  merge none objects = none
  merge (some inv) objects =
      some (record { entries = merge_from (ids inv.entries) inv.entries objects })

  entry_object : ResourceRef → ObjMetadata → Unstructured
  entry_object e m = bare_object m.group e.version m.kind m.name m.namespace

  list_entries : List ResourceRef → Result (List Unstructured)
  unfolding entry_object
  list_entries [] = ok []
  list_entries (e ∷ es) = do m ← api.parse e.id; us ← list_entries es; ok (entry_object e m ∷ us)

  -- `List`; a nil result is the empty list
  unfoldable pub list : ResourceInventory → Result (List Unstructured)
  unfolding list_entries
  list inv = do us ← list_entries inv.entries; ok (api.sort us)

  unfoldable pub metadata_of_entries : List ResourceRef → Result (List ObjMetadata)
  metadata_of_entries [] = ok []
  metadata_of_entries (e ∷ es) = do m ← api.parse e.id; ms ← metadata_of_entries es; ok (m ∷ ms)

  unfoldable pub list_metadata : ResourceInventory → Result (List ObjMetadata)
  unfolding metadata_of_entries
  list_metadata inv = metadata_of_entries inv.entries

  -- The closure `versionOf` of `Diff`: the version of the first entry with the id.
  unfoldable pub version_of : List ResourceRef → ObjMetadata → String
  version_of [] m = ""
  version_of (e ∷ es) m = if e.id == api.to_string m then e.version else version_of es m

  unfoldable pub stale_object : ResourceInventory → ObjMetadata → Unstructured
  unfolding version_of
  stale_object inv m = bare_object m.group (version_of inv.entries m) m.kind m.name m.namespace

  abbrev objects_of : ResourceInventory → List ObjMetadata → List Unstructured
  objects_of inv [] = []
  objects_of inv ms = api.sort (map (stale_object inv) ms)

  unfoldable pub diff : ResourceInventory → ResourceInventory → Result (List Unstructured)
  unfolding list_metadata stale_object
  diff inv target = do
    a_list ← list_metadata inv
    b_list ← list_metadata target
    ok (objects_of inv (api.set_diff a_list b_list))

  -- For backwards compatibility with Kustomization v1beta1
  abbrev or_apps : String → String
  or_apps v = if v == "" then "apps/v1" else v

  reference_object : NamespacedObjectKindReference → String × String → Unstructured
  reference_object c (group, version) = bare_object group version c.kind c.name c.namespace

  -- `ReferenceToObjMetadataSet`
  unfoldable pub reference_to_obj_metadata_set :
      List NamespacedObjectKindReference → Result (List ObjMetadata)
  unfolding reference_object
  reference_to_obj_metadata_set [] = ok []
  reference_to_obj_metadata_set (c ∷ cr) = do
    gv ← api.parse_group_version (or_apps c.api_version)
    ms ← reference_to_obj_metadata_set cr
    ok (api.metadata_of (reference_object c gv) ∷ ms)
