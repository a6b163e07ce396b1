-- ===== src/Controller/Pruning.antt =====
-- `deleteObjects`, `prune`, `pruneSurvivors` and `finalizerShouldDeleteResources`.
pub mod Survivors
use fork_kustomize_controlle.Prelude.{
  on_option, String, Bool, true, false, not, ◌&&◌, ◌||◌, Option, none, some, List, [], ◌∷◌, map,
  select, ◌==◌, contains, is_empty, string_eq, if◌then◌else◌,
}
use fork_kustomize_controlle.Errors.{Err}
use fork_kustomize_controlle.Api.{
  Kustomization, ResourceInventory, disabled_value, ignore_value, deletion_policy_mirror_prune,
  deletion_policy_delete, deletion_policy_wait_for_termination,
}
use fork_kustomize_controlle.Api.Defaults.{get_deletion_policy}
use fork_kustomize_controlle.Objects.{
  Unstructured, ChangeSetEntry, Action, deleted, skipped, ObjectApi,
}
use fork_kustomize_controlle.Controller.{
  DeleteOptions, deleted_all, info_severity, Outcome, Env, Exec, pure, call, ◌>>=◌, ◌>>◌,
}
use fork_kustomize_controlle.Controller.Status.{event}

-- the cases of the `switch` on the action
abbrev pub is_settling : Action → Bool
is_settling deleted = true
is_settling skipped = true
is_settling _ = false

abbrev pub entries_of : Option (List ChangeSetEntry) → List ChangeSetEntry
entries_of none = []
entries_of (some entries) = entries

module _ (api : ObjectApi) where
  -- The ids at which the map `settled` is true.
  unfoldable pub settled_ids : List ChangeSetEntry → List String
  settled_ids [] = []
  settled_ids (e ∷ es) =
      let rest = settled_ids es in
      if is_settling e.action then api.to_string e.metadata ∷ rest else rest

  unfoldable pub prune_survivors :
      List Unstructured → Option (List ChangeSetEntry) → List Unstructured
  prune_survivors objects change_set =
      let settled = settled_ids (entries_of change_set) in
      select (λ obj. not (contains (api.to_string (api.metadata_of obj)) settled)) objects

-- `deleteObjects`: what is left alone is in the exclusions.
unfoldable pub delete_options : Env → Kustomization → DeleteOptions
delete_options env obj = record {
  inclusions = env.get_owner_labels obj.name obj.namespace;
  exclusions =
      ("kustomize.toolkit.fluxcd.io/prune", disabled_value)
      ∷ ("kustomize.toolkit.fluxcd.io/reconcile", disabled_value)
      ∷ ("kustomize.toolkit.fluxcd.io/ssa", ignore_value)
      ∷ [];
}

-- What `prune` returns: whether something was deleted, the survivors, and the error.
pub record Pruned : Type 0 where
  pub changed : Bool
  pub survivors : List Unstructured
  pub error : Option Err

module _ (env : Env) where
  unfoldable pub delete_objects :
      Kustomization → List Unstructured → Exec (Outcome (List ChangeSetEntry))
  delete_objects obj objects =
      let opts = delete_options env obj in
      call (deleted_all objects opts) (λ h. env.delete_all h objects opts)

  abbrev pub nothing_pruned : Pruned
  nothing_pruned = record { changed = false; survivors = []; error = none }

  -- After a deletion without an error: an event, if something was deleted.
  unfoldable pub prune_report : String → String → Option (List ChangeSetEntry) → Exec Pruned
  prune_report revision origin_revision none = pure nothing_pruned
  prune_report revision origin_revision (some []) = pure nothing_pruned
  prune_report revision origin_revision (some (e ∷ es)) = do
    event env revision origin_revision info_severity (env.format_change_set (e ∷ es)) []
    pure (record nothing_pruned { changed = true })

  unfoldable pub prune_result :
      String → String → List Unstructured → Outcome (List ChangeSetEntry) → Exec Pruned
  unfolding prune_report
  prune_result revision origin_revision objects out =
      on_option out.error (prune_report revision origin_revision out.value) (λ e. pure (record {
        changed = false;
        survivors = prune_survivors env.objects objects out.value;
        error = some e;
      }))

  unfoldable pub prune : Kustomization → String → String → List Unstructured → Exec Pruned
  unfolding delete_objects prune_result
  prune obj revision origin_revision objects =
      if not obj.spec.prune
      then pure nothing_pruned
      else delete_objects obj objects >>= prune_result revision origin_revision objects

abbrev pub no_entries : Option ResourceInventory → Bool
no_entries none = true
no_entries (some inv) = is_empty inv.entries

unfoldable pub finalizer_should_delete_resources : Kustomization → Bool
unfolding get_deletion_policy
finalizer_should_delete_resources obj =
    if obj.spec.suspend
    then false
    else if no_entries obj.status.inventory
    then false
    else let policy = get_deletion_policy obj in
      if policy == deletion_policy_mirror_prune
      then obj.spec.prune
      else policy == deletion_policy_delete || policy == deletion_policy_wait_for_termination
