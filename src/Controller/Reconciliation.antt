-- ===== src/Controller/Reconciliation.antt =====
-- `reconcile`: one revision of the source is fetched, built, applied, pruned and checked.
pub mod Garbage
pub mod Orphans
pub mod Outcomes
pub mod Collection
use fork_kustomize_controlle.Prelude.{
  on_option, String, Bool, true, false, not, ◌&&◌, ◌||◌, Option, none, some, List, [], ◌∷◌, ◌++◌,
  ◌==◌, is_empty, is_some, if◌then◌else◌,
}
use fork_kustomize_controlle.Errors.{
  Err, Arg, Args, str, Message, Result, ok, err, wrapf, is_terminal, as_queue_event,
}
use fork_kustomize_controlle.Api.{
  Labels, Kustomization, ResourceInventory, Snapshot, Reason, ready, status_true, status_unknown,
  progressing, reconciliation_succeeded, reconciliation_failed, prune_failed, artifact_failed,
  build_failed, health_check_failed, dir_creation_failed,
}
use fork_kustomize_controlle.Objects.{Unstructured, ChangeSetEntry}
use fork_kustomize_controlle.Inventory.{new, add_change_set, merge, diff}
use fork_kustomize_controlle.Controller.{
  Reconciler, Artifact, Source, made_tmp_dir, removed_tmp_dir, fetched, State, Env, Exec, pure,
  raise, lift, call, check, attempt, failing, mark, get_obj, get_state, modify_status,
  modify_conditions, ◌>>=◌, ◌>>◌,
}
use fork_kustomize_controlle.Controller.Status.{patch}
use fork_kustomize_controlle.Controller.Builder.{impersonation, build_client, generate, build}
use fork_kustomize_controlle.Controller.Applying.{apply}
use fork_kustomize_controlle.Controller.Pruning.{Pruned, prune}
use fork_kustomize_controlle.Controller.Health.{progress_message, check_health}

abbrev same_error : Err → Err
same_error e = e

-- `oldInventory`: a copy of the status, or a new inventory
abbrev pub snapshot_of : Option ResourceInventory → ResourceInventory
snapshot_of none = new
snapshot_of (some inv) = inv

-- The revision, its origin revision, and the checksum of what was built.
pub record Build : Type 0 where
  pub revision : String
  pub origin_revision : String
  pub checksum : String

-- `historyMeta`
abbrev history_meta : Build → Labels
history_meta b =
    ("revision", b.revision)
    ∷ (if not (b.origin_revision == "") then ("originRevision", b.origin_revision) ∷ [] else [])

module _ (r : Reconciler) (env : Env) where
  abbrev snapshot : Build → Reason → Snapshot
  snapshot b status = record { digest = b.checksum; status = status; metadata = history_meta b }

  unfoldable pub upsert : Build → Reason → Exec (Unit {0})
  unfolding modify_status
  upsert b status =
      modify_status (λ st. record st { history = env.upsert (snapshot b status) st.history })

  -- `obj.Status.History.Upsert(…)` and `conditions.MarkFalse(…)` with the reason; `return err`
  unfoldable pub recording {ℓ} : {A : Type ℓ} → Build → Reason → Exec A → Exec A
  unfolding upsert
  recording b reason m = attempt m λ e. upsert b reason >> failing env reason same_error (raise e)

  unfoldable pub status_update : Exec (Unit {0})
  status_update = attempt (patch env) (λ e. raise (wrapf (str "failed to update status: %w") e))

  -- The status says what is going on, and is patched.
  unfoldable pub progress : String → String → Exec (Unit {0})
  unfolding status_update
  progress f revision = do
    obj ← get_obj
    modify_conditions
        (env.conditions.mark_reconciling progressing (progress_message f revision obj))
    status_update

  -- The first lines of `reconcile`.
  unfoldable pub start : String → Exec (Unit {0})
  start revision = do
    mark env status_unknown ready progressing (str "Reconciliation in progress")
    progress "Fetching manifests for revision %s with a timeout of %s" revision

  -- The artifact's host name is overridden for local access.
  unfoldable pub source_localhost : Artifact → String
  source_localhost a =
      if env.contains_text a.url "//source-watcher"
      then env.getenv "SOURCE_WATCHER_LOCALHOST"
      else env.getenv "SOURCE_CONTROLLER_LOCALHOST"

  -- Download the artifact, and find the path of the overlay in it.
  unfoldable pub fetch : Artifact → String → Exec String
  fetch a tmp_dir = do
    obj ← get_obj
    failing env artifact_failed same_error (
        call (fetched a.url a.digest tmp_dir)
          (λ h. env.fetch h (source_localhost a) a.url a.digest tmp_dir)
        >>= check)
    dir_path ← failing env artifact_failed same_error (lift (env.secure_join tmp_dir obj.spec.path))
    s ← get_state
    failing env artifact_failed (wrapf (str "kustomization path not found: %w"))
        (check (env.stat s.history dir_path))
    pure dir_path

  -- The client, the overlay's kustomization.yaml, the build, and the objects that it holds.
  unfoldable pub prepare : String → String → String → Exec (String × List Unstructured)
  prepare revision tmp_dir dir_path = do
    modify_status (λ st. record st { last_attempted_revision = revision })
    progress "Building manifests for revision %s with a timeout of %s" revision
    obj ← get_obj
    let polls = r.cluster_reader || not (is_empty obj.spec.health_check_exprs)
    attempt
        (failing env reconciliation_failed same_error
          (build_client r env (impersonation r obj polls)))
        (λ e. raise (wrapf (str "failed to build kube client: %w") e))
    failing env build_failed same_error (check (env.to_unstructured obj))
    failing env build_failed same_error (generate r env obj dir_path)
    resources ← failing env build_failed same_error (build r env obj tmp_dir dir_path)
    objects ← failing env build_failed same_error (lift (env.read_objects resources))
    pure (resources, env.set_owner_labels obj.name obj.namespace objects)

  -- The inventory in the status becomes that of the change set.
  unfoldable pub track_applied : Bool × List ChangeSetEntry → Exec (Bool × List ChangeSetEntry)
  track_applied (drifted, entries) = do
    let new_inventory = add_change_set env.objects new (some entries)
    modify_status (λ st. record st { inventory = some new_inventory })
    pure (drifted, entries)

  -- Apply the objects, and set the inventory of what was applied. What is returned is whether
  -- something has changed, and the change set.
  unfoldable pub apply_stage : Build → List Unstructured → Exec (Bool × List ChangeSetEntry)
  unfolding track_applied
  apply_stage b objects = do
    progress "Detecting drift for revision %s with a timeout of %s" b.revision
    applied ← recording b reconciliation_failed (apply r env b.revision b.origin_revision objects)
    track_applied applied

  -- The survivors of a prune that failed are tracked again, and its error is returned.
  unfoldable pub retrack : Build → Pruned → Exec (Unit {0})
  retrack b p = on_option p.error (pure tt) (λ e. do
    modify_status (λ st. record st { inventory = merge env.objects st.inventory p.survivors })
    recording b prune_failed (raise e))

  -- Collect the objects of the old inventory that are not in the new one.
  unfoldable pub prune_stage : Build → ResourceInventory → Exec (Unit {0})
  unfolding retrack
  prune_stage b old_inventory = do
    obj ← get_obj
    stale ←
        recording b reconciliation_failed
          (lift (diff env.objects old_inventory (snapshot_of obj.status.inventory)))
    p ← prune env obj b.revision b.origin_revision stale
    retrack b p

  -- A cancelled health check is returned as it is; any other error is recorded.
  unfoldable pub health_failed : Build → Err → Exec (Unit {0})
  health_failed b e =
      if is_some (as_queue_event e) then raise e else recording b health_check_failed (raise e)

  unfoldable pub health_stage :
      Artifact → Build → Bool → List ChangeSetEntry → List Unstructured → Exec (Unit {0})
  unfolding health_failed
  health_stage a b drifted entries objects = do
    obj ← get_obj
    let is_new_revision = not (env.has_revision a obj.status.last_applied_revision)
    attempt
        (check_health r env b.revision b.origin_revision is_new_revision drifted entries
          (env.extract_jobs_with_ttl objects))
        (health_failed b)

  -- The last lines of `reconcile`.
  unfoldable pub succeed : Build → Exec (Unit {0})
  succeed b = do
    modify_status (λ st. record st {
      last_applied_revision = b.revision;
      last_applied_origin_revision = b.origin_revision;
    })
    mark env status_true ready reconciliation_succeeded
        (Arg.printf "Applied revision: %s" (Args.arg (str b.revision) Args.nil))
    upsert b reconciliation_succeeded

  abbrev pub build_of : Artifact → String → String → Build
  build_of a origin_revision resources = record {
    revision = a.revision;
    origin_revision = origin_revision;
    checksum = env.digest_of resources;
  }

  -- What happens between the tmp dir's creation and its removal.
  unfoldable pub reconcile_in : Artifact → String → String → ResourceInventory → Exec (Unit {0})
  unfolding fetch prepare apply_stage prune_stage health_stage succeed
  reconcile_in a origin_revision tmp_dir old_inventory = do
    dir_path ← fetch a tmp_dir
    (resources, objects) ← prepare a.revision tmp_dir dir_path
    let b = build_of a origin_revision resources
    (drifted, entries) ← apply_stage b objects
    prune_stage b old_inventory
    health_stage a b drifted entries objects
    succeed b

  -- The deferred removal of the tmp dir; its error is logged.
  unfoldable pub removing {ℓ} : {A : Type ℓ} → String → Exec A → Exec A
  removing tmp_dir m s =
      let (res, s') = m s in (res, record s' { history = removed_tmp_dir tmp_dir ∷ s'.history })

  -- The work in a new tmp dir, against a copy of the old inventory.
  unfoldable pub in_tmp_dir : Artifact → String → ResourceInventory → Exec (Unit {0})
  unfolding reconcile_in
  in_tmp_dir a origin_revision old_inventory = do
    tmp_dir ←
        failing env dir_creation_failed (wrapf (str "tmp dir error: %w"))
          (call made_tmp_dir env.mkdir_temp >>= lift)
    removing tmp_dir (reconcile_in a origin_revision tmp_dir old_inventory)

  unfoldable pub reconcile : Artifact → String → Exec (Unit {0})
  unfolding start in_tmp_dir
  reconcile a origin_revision = do
    start a.revision
    obj ← get_obj
    in_tmp_dir a origin_revision (snapshot_of obj.status.inventory)
