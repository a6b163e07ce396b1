-- ===== src/Inventory/Difference.antt =====
-- What `Diff`, `List` and `ListMetadata` of internal/inventory/inventory.go return.
use fork_kustomize_controlle.Prelude.{
  String, Bool, ◌&&◌, not, List, [], ◌∷◌, ◌≡◌, refl, ◌∙◌, arith, any, string_eq, eq_iff, inl, inr,
  Bool-cases, ◌==◌,
}
use fork_kustomize_controlle.Errors.{ok, >>=-eq-ok, ok-injective}
use fork_kustomize_controlle.Api.{ResourceInventory}
use fork_kustomize_controlle.Objects.{
  ObjMetadata, Unstructured, ObjectApi, ObjectLaws, same_metadata, same_metadata_iff, metadata_eq,
}
use fork_kustomize_controlle.Inventory.{
  metadata_of_entries, list_metadata, stale_object, version_of, objects_of, diff,
}
use fork_kustomize_controlle.Inventory.Tracking.{
  tracks, AllParse, contains-metadata_of_entries, metadata_of_entries-AllParse, any-objects_of,
}

module _ (api : ObjectApi) (laws : ObjectLaws api) where
  -- the object has these metadata and this version
  abbrev pub is_object : ObjMetadata → String → Unstructured → Bool
  is_object m v u = same_metadata (api.metadata_of u) m && u.version == v

  metadata_of-stale_object :
      (inv : ResourceInventory) (m : ObjMetadata) → api.metadata_of (stale_object api inv m) ≡ m
  unfolding stale_object
  metadata_of-stale_object inv m = laws.metadata_of_lem _

  -- the test on a stale object is a test on its metadata
  is_object-stale_object :
      (inv : ResourceInventory) (m x : ObjMetadata)
      → is_object m (version_of api inv.entries m) (stale_object api inv x) ≡ same_metadata x m
  is_object-stale_object inv m x =
      rw (metadata_of-stale_object inv x) (elim (Bool-cases (same_metadata x m)) [
        | inl same ↦ rw ((same_metadata_iff x m).0 same) (
            unfold stale_object in
            ground (arith, eq_iff (version_of api inv.entries m) (version_of api inv.entries m)))
        | inr other ↦ rw other refl
      ])

  any_cong {ℓ} :
      {A : Type ℓ} (p q : A → Bool) (xs : List A) → ((x : A) → p x ≡ q x) → any p xs ≡ any q xs
  any_cong p q [] h = refl
  any_cong p q (x ∷ xs) h = ground (arith, h x, any_cong p q xs h)

  -- What a successful `Diff` returns has an object with these metadata, and with the version of
  -- the first entry that has the object's id, exactly if the first inventory tracks the object
  -- and the target does not.
  pub diff-eq-ok :
      (inv target : ResourceInventory) (us : List Unstructured) (m : ObjMetadata)
      → diff api inv target ≡ ok us
      → any (is_object m (version_of api inv.entries m)) us
        ≡ (tracks api inv.entries m && not (tracks api target.entries m))
  unfolding diff list_metadata
  diff-eq-ok inv target us m h =
      let (ms, ei, rest) = >>=-eq-ok (metadata_of_entries api inv.entries) _ h in
      let (ts, et, last) = >>=-eq-ok (metadata_of_entries api target.entries) _ rest in
      rw (← ok-injective last) (
        any-objects_of api laws inv.entries _ (api.set_diff ms ts)
        ∙ any_cong _ (λ x. same_metadata x m) (api.set_diff ms ts) (is_object-stale_object inv m)
        ∙ laws.contains-set_diff m ms ts
        ∙ cc (
          contains-metadata_of_entries api inv.entries ms m ei,
          contains-metadata_of_entries api target.entries ts m et,
        ))

  -- `Diff` succeeds when every id of both inventories can be parsed.
  diff_total :
      (inv target : ResourceInventory)
      → AllParse api inv.entries
      → AllParse api target.entries
      → (us : List Unstructured) × (diff api inv target ≡ ok us)
  unfolding diff list_metadata
  diff_total inv target hi ht =
      let (ms, ei) = metadata_of_entries-AllParse api inv.entries hi in
      let (ts, et) = metadata_of_entries-AllParse api target.entries ht in
      (objects_of api inv (api.set_diff ms ts), rw (ei, et))

  -- When every id of both inventories can be parsed, `Diff` succeeds. What it returns has, for
  -- any metadata, an object with these metadata exactly if the first inventory tracks the object
  -- and the target does not, and that object has the version of the first entry of the inventory
  -- with the object's id.
  pub diff_lem :
      (inv target : ResourceInventory)
      → AllParse api inv.entries
      → AllParse api target.entries
      → (us : List Unstructured) × (diff api inv target ≡ ok us)
        × ((m : ObjMetadata)
            → any (is_object m (version_of api inv.entries m)) us
              ≡ (tracks api inv.entries m && not (tracks api target.entries m)))
  diff_lem inv target hi ht =
      let (us, e) = diff_total inv target hi ht in (us, e, λ m. diff-eq-ok inv target us m e)
