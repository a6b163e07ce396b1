-- ===== src/Controller/Types.antt =====
-- The reconciler's configuration, the options and results of its calls, and what it does to the
-- outside world: internal/controller/kustomization_controller.go.
use fork_kustomize_controlle.Prelude.{ℕ, String, Bool, Option, List, [], ◌∷◌, ◌==◌, if◌then◌else◌}
use fork_kustomize_controlle.Errors.{Message}
use fork_kustomize_controlle.Api.{Labels, Duration, Kustomization, IgnoreRule}
use fork_kustomize_controlle.Objects.{ObjMetadata, Unstructured, ChangeSetEntry}

-- `KustomizationReconciler`, less its clients and recorders. `cluster_reader` and `token_cache`
-- say that the field is not nil.
pub record Reconciler : Type 0 where
  pub cluster_reader : Bool
  pub concurrent_ssa : ℕ
  pub controller_name : String
  pub status_manager : String
  pub custom_stage_kinds : List (String × String)
  pub default_service_account : String
  pub disallowed_field_managers : List String
  pub no_cross_namespace_refs : Bool
  pub no_remote_bases : Bool
  pub sops_age_secret : String
  pub sops_vault_config_map : String
  pub token_cache : Bool
  pub artifact_fetch_retries : ℕ
  pub dependency_requeue_interval : Duration
  pub additive_cel_dependency_check : Bool
  pub allow_external_artifact : Bool
  pub direct_source_fetch : Bool
  pub fail_fast : Bool
  pub group_change_log : Bool
  pub migrate_api_version : Bool
  pub strict_substitutions : Bool

-- `types.NamespacedName`
pub record NamespacedName : Type 0 where
  pub namespace : String
  pub name : String

-- `meta.Artifact` of a source
pub record Artifact : Type 0 where
  pub revision : String
  pub url : String
  pub digest : String
  pub metadata : Labels

pub record Source : Type 0 where
  pub artifact : Option Artifact

-- `r.Client`, which caches, and `r.APIReader`, which does not
pub data Reader : Type 0 where
  cached direct : Reader

-- `ssa.FieldManager`
pub data OperationType : Type 0 where
  apply_operation update_operation : OperationType

pub record FieldManager : Type 0 where
  pub name : String
  pub operation_type : OperationType

-- `ssa.ApplyOptions` with its `ApplyCleanupOptions`
pub record ApplyOptions : Type 0 where
  pub force : Bool
  pub exclusion_selector : Labels
  pub if_not_present_selector : Labels
  pub force_selector : Labels
  pub custom_stage_kinds : List (String × String)
  pub migrate_api_version : Bool
  pub drift_ignore_rules : List IgnoreRule
  pub cleanup_annotations : List String
  pub cleanup_labels : List String
  pub cleanup_field_managers : List FieldManager
  pub cleanup_exclusions : Labels

-- `ssa.DeleteOptions`; the propagation policy is always background
pub record DeleteOptions : Type 0 where
  pub inclusions : Labels
  pub exclusions : Labels

-- `ssa.WaitOptions`
pub record WaitOptions : Type 0 where
  pub interval : Duration
  pub timeout : Duration
  pub fail_fast : Bool
  pub jobs_with_ttl : List ObjMetadata

-- How the Kubernetes client of a reconciliation is made: `mustImpersonate` and the options.
pub record Impersonation : Type 0 where
  pub must_impersonate : Bool
  -- the default and the given account, and the namespace
  pub service_account : Option (String × String × String)
  pub kube_config : Bool
  pub polling : Bool

pub data Severity : Type 0 where
  info_severity error_severity : Severity

pub data EventType : Type 0 where
  normal warning : EventType

-- The call of `AnnotatedEventf`. The reason is that of the Ready condition, or the severity.
pub record Event : Type 0 where
  pub metadata : Labels
  pub type : EventType
  pub reason : String
  pub message : Message

-- What the reconciler does that others can see, in the order of the calls.
pub data Effect : Type 0 where
  got_kustomization : Reader → NamespacedName → Effect
  got_source : Reader → String → NamespacedName → Effect
  patched : Kustomization → Effect
  emitted : Event → Effect
  made_tmp_dir : Effect
  removed_tmp_dir : String → Effect
  fetched : String → String → String → Effect
  generated : String → Effect
  sources_decrypted : String → Effect
  built : String → Effect
  client_built : Impersonation → Effect
  applied : List Unstructured → ApplyOptions → Effect
  deleted_all : List Unstructured → DeleteOptions → Effect
  waited : List ObjMetadata → WaitOptions → Effect
  waited_termination : List ChangeSetEntry → Duration → Effect
  duration_recorded : Effect
  cache_events_deleted : String → Effect

-- `m[key]` of a Go map from texts to texts: the empty text if the key is missing.
abbrev pub get_label : String → Labels → String
get_label k [] = ""
get_label k ((j, v) ∷ m) = if j == k then v else get_label k m

-- `ctrl.Result`
pub data Requeue : Type 0 where
  -- `ctrl.Result{}`
  no_requeue : Requeue
  -- `ctrl.Result{Requeue: true}`
  at_once : Requeue
  -- `ctrl.Result{RequeueAfter: d}`
  after : Duration → Requeue
