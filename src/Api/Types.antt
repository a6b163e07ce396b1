-- ===== src/Api/Types.antt =====
-- The records of api/v1. A nil pointer is `none`, and a map an association list.
use fork_kustomize_controlle.Prelude.{ℕ, String, Bool, Option, List}
use fork_kustomize_controlle.Prelude.Int.{ℤ}
use fork_kustomize_controlle.Errors.{Message}

abbrev pub Labels : Type 0
Labels = List (String × String)

-- `metav1.Duration`, in nanoseconds
abbrev pub Duration : Type 0
Duration = ℤ

-- api/v1/reference_types.go
pub record CrossNamespaceSourceReference : Type 0 where
  pub api_version : String
  pub kind : String
  pub name : String
  pub namespace : String

-- `meta.DependencyReference`
pub record DependencyReference : Type 0 where
  pub name : String
  pub namespace : String
  pub ready_expr : String

-- `meta.NamespacedObjectKindReference`
pub record NamespacedObjectKindReference : Type 0 where
  pub api_version : String
  pub kind : String
  pub name : String
  pub namespace : String

-- `meta.KubeConfigReference`, with the names of the objects that it refers to
pub record KubeConfigReference : Type 0 where
  pub secret_ref : Option String
  pub config_map_ref : Option String

pub record CommonMetadata : Type 0 where
  pub annotations : Labels
  pub labels : Labels

-- `kustomize.Selector`
pub record Selector : Type 0 where
  pub group : String
  pub version : String
  pub kind : String
  pub name : String
  pub namespace : String
  pub annotation_selector : String
  pub label_selector : String

pub record IgnoreRule : Type 0 where
  pub paths : List String
  pub target : Option Selector

pub record Decryption : Type 0 where
  pub provider : String
  pub service_account_name : String
  pub secret_ref : Option String

pub record SubstituteReference : Type 0 where
  pub kind : String
  pub name : String
  pub optional : Bool

pub record PostBuild : Type 0 where
  pub substitute_strategy : String
  pub substitute : Labels
  pub substitute_from : List SubstituteReference

pub record KustomizationSpec : Type 0 where
  pub common_metadata : Option CommonMetadata
  pub depends_on : List DependencyReference
  pub decryption : Option Decryption
  pub interval : Duration
  pub retry_interval : Option Duration
  pub kube_config : Option KubeConfigReference
  pub path : String
  pub post_build : Option PostBuild
  pub prune : Bool
  pub deletion_policy : String
  pub health_checks : List NamespacedObjectKindReference
  pub service_account_name : String
  pub source_ref : CrossNamespaceSourceReference
  pub suspend : Bool
  pub timeout : Option Duration
  pub force : Bool
  pub wait : Bool
  -- the CEL expressions of the custom health checks
  pub health_check_exprs : List String
  pub ignore : List IgnoreRule

pub record ResourceRef : Type 0 where
  pub id : String
  pub version : String

pub record ResourceInventory : Type 0 where
  pub entries : List ResourceRef

pub data ConditionType : Type 0 where
  ready healthy reconciling stalled : ConditionType

pub data ConditionStatus : Type 0 where
  status_true status_false status_unknown : ConditionStatus

-- The reasons that the controller gives.
pub data Reason : Type 0 where
  progressing progressing_with_retry reconciliation_succeeded succeeded : Reason
  reconciliation_failed prune_failed artifact_failed build_failed health_check_failed : Reason
  health_check_canceled dependency_not_ready invalid_cel_expression : Reason
  feature_gate_disabled access_denied dir_creation_failed : Reason

-- `metav1.Condition`, less its times
pub record Condition : Type 0 where
  pub type : ConditionType
  pub status : ConditionStatus
  pub reason : Reason
  pub message : Message

-- One entry of `meta.History`, less its times
pub record Snapshot : Type 0 where
  pub digest : String
  pub status : Reason
  pub metadata : Labels

pub record KustomizationStatus : Type 0 where
  pub last_handled_reconcile_at : String
  pub observed_generation : ℕ
  pub conditions : List Condition
  pub last_applied_revision : String
  pub last_applied_origin_revision : String
  pub last_attempted_revision : String
  pub inventory : Option ResourceInventory
  pub history : List Snapshot

-- Of `metav1.ObjectMeta`, what the controller reads; `deleting` says that the deletion timestamp
-- is set.
pub record Kustomization : Type 0 where
  pub name : String
  pub namespace : String
  pub generation : ℕ
  pub deleting : Bool
  pub finalizers : List String
  pub annotations : Labels
  pub spec : KustomizationSpec
  pub status : KustomizationStatus

abbrev pub disabled_value : String
disabled_value = "disabled"

abbrev pub enabled_value : String
enabled_value = "enabled"

abbrev pub merge_value : String
merge_value = "Merge"

abbrev pub if_not_present_value : String
if_not_present_value = "IfNotPresent"

abbrev pub ignore_value : String
ignore_value = "Ignore"

abbrev pub deletion_policy_mirror_prune : String
deletion_policy_mirror_prune = "MirrorPrune"

abbrev pub deletion_policy_delete : String
deletion_policy_delete = "Delete"

abbrev pub deletion_policy_wait_for_termination : String
deletion_policy_wait_for_termination = "WaitForTermination"

abbrev pub kustomization_kind : String
kustomization_kind = "Kustomization"

abbrev pub kustomization_finalizer : String
kustomization_finalizer = "finalizers.fluxcd.io"

abbrev pub substitute_strategy_with_variables : String
substitute_strategy_with_variables = "WithVariables"

abbrev pub substitute_strategy_always : String
substitute_strategy_always = "Always"
