-- ===== src/Inventory/Merging.antt =====
-- What `Merge` of internal/inventory/inventory.go leaves in the inventory.
use fork_kustomize_controlle.Prelude.{
  String, true, false, ◌||◌, some, List, [], ◌∷◌, ◌++◌, map, ◌≡◌, refl, sym, ◌∙◌, ap, arith,
  contains, string_eq, eq_iff, inl, inr, Bool-cases,
}
use fork_kustomize_controlle.Api.{ResourceRef, ResourceInventory}
use fork_kustomize_controlle.Objects.{Unstructured, ObjectApi}
use fork_kustomize_controlle.Inventory.{ids, object_ref, merge_from, merge}
use fork_kustomize_controlle.Inventory.Tracking.{Distinct}
use mathlib.Core.List.{append-nil, append_assoc}

module _ (api : ObjectApi) where
  abbrev object_ids : List Unstructured → List String
  object_ids us = ids (map (object_ref api) us)

  -- the map of the loop holds the ids of the entries
  abbrev Agrees : List String → List ResourceRef → Type 0
  Agrees seen entries = (i : String) → contains i seen ≡ contains i (ids entries)

  contains-snoc :
      (i : String) (xs : List ResourceRef) (x : ResourceRef)
      → contains i (ids (xs ++ x ∷ [])) ≡ contains i (x.id ∷ ids xs)
  contains-snoc i [] x = refl
  contains-snoc i (y ∷ xs) x = ground (arith, contains-snoc i xs x)

  Agrees-snoc :
      (seen : List String) (entries : List ResourceRef) (x : ResourceRef)
      → Agrees seen entries
      → Agrees (x.id ∷ seen) (entries ++ x ∷ [])
  Agrees-snoc seen entries x same i = ground (arith, contains-snoc i entries x, same i)

  Distinct-snoc :
      (xs : List ResourceRef) (x : ResourceRef)
      → contains x.id (ids xs) ≡ false
      → Distinct (ids xs)
      → Distinct (ids (xs ++ x ∷ []))
  Distinct-snoc [] x new d = (refl, tt)
  Distinct-snoc (y ∷ xs) x new d = (
    ground (arith, contains-snoc y.id xs x, eq_iff y.id x.id, eq_iff x.id y.id),
    Distinct-snoc xs x (ground arith) d.1,
  )

  contains-merge_from :
      (seen : List String) (entries : List ResourceRef) (us : List Unstructured) (i : String)
      → Agrees seen entries
      → contains i (ids (merge_from api seen entries us))
        ≡ (contains i (ids entries) || contains i (object_ids us))
  unfolding merge_from
  contains-merge_from seen entries [] i same = ground arith
  contains-merge_from seen entries (u ∷ us) i same =
      let x = object_ref api u in
      elim (Bool-cases (contains x.id seen)) [
        | inl old ↦
            rw old
              (ground (arith, contains-merge_from seen entries us i same, eq_iff x.id i, same i))
        | inr new ↦ rw new (
            contains-merge_from (x.id ∷ seen) (entries ++ x ∷ []) us i
              (Agrees-snoc seen entries x same)
            ∙ ground (arith, contains-snoc i entries x))
      ]

  Distinct-merge_from :
      (seen : List String) (entries : List ResourceRef) (us : List Unstructured)
      → Agrees seen entries
      → Distinct (ids entries)
      → Distinct (ids (merge_from api seen entries us))
  unfolding merge_from
  Distinct-merge_from seen entries [] same d = d
  Distinct-merge_from seen entries (u ∷ us) same d =
      let x = object_ref api u in
      elim (Bool-cases (contains x.id seen)) [
        | inl old ↦ rw old (Distinct-merge_from seen entries us same d)
        | inr new ↦ rw new (
            Distinct-merge_from (x.id ∷ seen) (entries ++ x ∷ []) us
              (Agrees-snoc seen entries x same) (Distinct-snoc entries x (sym (same x.id) ∙ new) d))
      ]

  merge_from-extends :
      (seen : List String) (entries : List ResourceRef) (us : List Unstructured)
      → (more : List ResourceRef) × (merge_from api seen entries us ≡ entries ++ more)
  unfolding merge_from
  merge_from-extends seen entries [] = ([], sym (append-nil entries))
  merge_from-extends seen entries (u ∷ us) =
      let x = object_ref api u in
      elim (Bool-cases (contains x.id seen)) [
        | inl old ↦ rw old (merge_from-extends seen entries us)
        | inr new ↦
            let (more, e) = merge_from-extends (x.id ∷ seen) (entries ++ x ∷ []) us in
            (x ∷ more, rw new (e ∙ append_assoc entries (x ∷ []) more))
      ]

  merge_from_tracked :
      (seen : List String) (entries : List ResourceRef) (us : List Unstructured)
      → ((i : String) → contains i (object_ids us) ≡ true → contains i seen ≡ true)
      → merge_from api seen entries us ≡ entries
  unfolding merge_from
  merge_from_tracked seen entries [] all = refl
  merge_from_tracked seen entries (u ∷ us) all =
      let x = object_ref api u in
      rw (all x.id (ground (arith, eq_iff x.id x.id)))
        (merge_from_tracked seen entries us (λ i h. all i (ground arith)))

  module _ (inv : ResourceInventory) (us : List Unstructured) where
    -- the entries after a merge
    abbrev pub merged : List ResourceRef
    merged = merge_from api (ids inv.entries) inv.entries us

    -- `Merge` keeps the entries that were there, in their place and with their version, adds only
    -- behind them, and tracks exactly the ids that were tracked and those of the objects.
    pub merge_adds :
        (more : List ResourceRef) × (merge api (some inv) us
          ≡ some (record { entries = inv.entries ++ more }))
        × ((i : String)
            → contains i (ids (inv.entries ++ more))
              ≡ (contains i (ids inv.entries) || contains i (ids (map (object_ref api) us))))
    unfolding merge
    merge_adds =
        let (more, e) = merge_from-extends (ids inv.entries) inv.entries us in
        (more, rw e, λ i. rw (← e) (contains-merge_from _ inv.entries us i (λ j. refl)))

    -- `Merge` into an inventory without duplicates makes none, and merging the same objects a
    -- second time changes nothing.
    pub merge-Distinct :
        Distinct (ids inv.entries)
        → (merge api (some inv) us ≡ some (record { entries = merged }))
          × Distinct (ids merged)
          × (merge api (merge api (some inv) us) us ≡ merge api (some inv) us)
    unfolding merge
    merge-Distinct d = (
      refl,
      Distinct-merge_from (ids inv.entries) inv.entries us (λ j. refl) d,
      ap (λ es. some (record { entries = es }))
          (merge_from_tracked (ids merged) merged us (λ i h.
            contains-merge_from (ids inv.entries) inv.entries us i (λ j. refl)
            ∙ ground (arith, h))),
    )
