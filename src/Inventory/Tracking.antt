-- ===== src/Inventory/Tracking.antt =====
-- Which objects an inventory tracks, and lemmas on the lists of its entries.
use fork_kustomize_controlle.Prelude.{
  String, Bool, false, ◌||◌, List, [], ◌∷◌, ◌++◌, map, ◌≡◌, refl, ap, ◌∙◌, arith, any, contains,
  string_eq,
}
use fork_kustomize_controlle.Errors.{Result, ok, err, >>=-eq-ok, ok-injective}
use fork_kustomize_controlle.Api.{ResourceRef}
use fork_kustomize_controlle.Objects.{
  ObjMetadata, Unstructured, ObjectApi, ObjectLaws, same_metadata, metadata_eq,
}
use fork_kustomize_controlle.Inventory.{ids, metadata_of_entries, objects_of, stale_object}

abbrev pub is_parse_of : Result ObjMetadata → ObjMetadata → Bool
is_parse_of (ok m') m = same_metadata m' m
is_parse_of (err e) m = false

module _ {ℓ κ} {A : Type ℓ} {B : Type κ} where
  pub any-map : (p : B → Bool) (f : A → B) (xs : List A) → any p (map f xs) ≡ any (λ x. p (f x)) xs
  any-map p f [] = refl
  any-map p f (x ∷ xs) = ground (arith, any-map p f xs)

-- No id stands twice.
abbrev pub Distinct : List String → Type 0
Distinct [] = Unit
Distinct (x ∷ xs) = (contains x xs ≡ false) × Distinct xs

pub ids-append : (xs ys : List ResourceRef) → ids (xs ++ ys) ≡ ids xs ++ ids ys
ids-append [] ys = refl
ids-append (x ∷ xs) ys = ground (arith, ids-append xs ys)

module _ (api : ObjectApi) where
  -- Some entry's id is that of an object with these metadata.
  abbrev pub tracks : List ResourceRef → ObjMetadata → Bool
  tracks entries m = any (λ e. is_parse_of (api.parse e.id) m) entries

  -- Every id can be parsed.
  abbrev pub AllParse : List ResourceRef → Type 0
  AllParse [] = Unit
  AllParse (e ∷ es) = ((m : ObjMetadata) × (api.parse e.id ≡ ok m)) × AllParse es

  pub contains-metadata_of_entries :
      (es : List ResourceRef) (ms : List ObjMetadata) (m : ObjMetadata)
      → metadata_of_entries api es ≡ ok ms
      → contains m ms ≡ tracks es m
  unfolding metadata_of_entries
  contains-metadata_of_entries [] ms m h = rw (← ok-injective h)
  contains-metadata_of_entries (e ∷ es) ms m h =
      let (m', parsed, rest) = >>=-eq-ok (api.parse e.id) _ h in
      let (ms', entries, last) = >>=-eq-ok (metadata_of_entries api es) _ rest in
      rw (← ok-injective last) (
        rw parsed
          (ap (λ b. same_metadata m' m || b) (contains-metadata_of_entries es ms' m entries)))

  pub metadata_of_entries-AllParse :
      (es : List ResourceRef)
      → AllParse es
      → (ms : List ObjMetadata) × (metadata_of_entries api es ≡ ok ms)
  unfolding metadata_of_entries
  metadata_of_entries-AllParse [] h = ([], refl)
  metadata_of_entries-AllParse (e ∷ es) ((m, parsed), rest) =
      let (ms, entries) = metadata_of_entries-AllParse es rest in (m ∷ ms, rw (parsed, entries))

  module _ (laws : ObjectLaws api) where
    pub any-objects_of :
        (inv : List ResourceRef) (p : Unstructured → Bool) (ms : List ObjMetadata)
        → any p (objects_of api (record { entries = inv }) ms)
          ≡ any (λ m. p (stale_object api (record { entries = inv }) m)) ms
    any-objects_of inv p [] = refl
    any-objects_of inv p (m ∷ ms) =
        laws.any-sort p _ ∙ any-map p (stale_object api (record { entries = inv })) (m ∷ ms)
