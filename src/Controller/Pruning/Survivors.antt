-- ===== src/Controller/Pruning/Survivors.antt =====
-- Which objects `pruneSurvivors` returns.
use fork_kustomize_controlle.Prelude.{
  String, Bool, true, false, not, ◌&&◌, Option, List, [], ◌∷◌, ◌≡◌, refl, ◌∙◌, arith, any, ap,
  contains, string_eq, ◌==◌, any-select,
}
use fork_kustomize_controlle.Objects.{
  Unstructured, ChangeSetEntry, ObjectApi, Action, created, configured, unchanged, deleted, skipped,
  unknown,
}
use fork_kustomize_controlle.Controller.Pruning.{
  is_settling, entries_of, settled_ids, prune_survivors,
}

-- The object that an entry with this action reports is gone, or is not the controller's to delete.
abbrev pub is_discharged : Action → Bool
is_discharged created = false
is_discharged configured = false
is_discharged unchanged = false
is_discharged unknown = false
is_discharged deleted = true
is_discharged skipped = true

is_settling_lem : (a : Action) → is_settling a ≡ is_discharged a
is_settling_lem created = refl
is_settling_lem configured = refl
is_settling_lem unchanged = refl
is_settling_lem unknown = refl
is_settling_lem deleted = refl
is_settling_lem skipped = refl

module _ (api : ObjectApi) where
  -- An entry of the change set reports the object with this id as deleted or skipped.
  abbrev pub is_settled : List ChangeSetEntry → String → Bool
  is_settled es id = any (λ e. is_discharged e.action && api.to_string e.metadata == id) es

  pub contains-settled_ids :
      (es : List ChangeSetEntry) (id : String) → contains id (settled_ids api es) ≡ is_settled es id
  unfolding settled_ids
  contains-settled_ids [] id = refl
  contains-settled_ids (e ∷ es) id =
      rw (is_settling_lem e.action) (ground (arith, contains-settled_ids es id))

  any_cong :
      (p q : Unstructured → Bool) (us : List Unstructured)
      → ((u : Unstructured) → p u ≡ q u)
      → any p us ≡ any q us
  any_cong p q [] h = refl
  any_cong p q (u ∷ us) h = ground (arith, h u, any_cong p q us h)

  -- For every test on objects: some survivor passes it exactly if some object passes it that no
  -- entry of the change set reports as deleted or skipped. Without a change set every object
  -- survives.
  pub any-prune_survivors :
      (p : Unstructured → Bool) (us : List Unstructured) (cs : Option (List ChangeSetEntry))
      → any p (prune_survivors api us cs)
        ≡ any (λ u. not (is_settled (entries_of cs) (api.to_string (api.metadata_of u))) && p u) us
  unfolding prune_survivors
  any-prune_survivors p us cs =
      any-select p _ us
      ∙ any_cong _ _ us (λ u. ap (λ b. not b && p u) (contains-settled_ids (entries_of cs) _))
