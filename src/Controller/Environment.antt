-- ===== src/Controller/Environment.antt =====
-- What the controller takes from the API server, the file system and the libraries, as functions.
-- A call that can answer differently each time is given what was done before it, newest first.
use fork_kustomize_controlle.Prelude.{
  String, Bool, true, false, Option, none, some, List, ◌≡◌, if◌then◌else◌, string_eq, is_some,
}
use fork_kustomize_controlle.Errors.{Err, Message, Result}
use fork_kustomize_controlle.Api.{
  Labels, Duration, Kustomization, Snapshot, Condition, ConditionType, ConditionStatus, Reason,
  ready, healthy, reconciling, stalled, status_true, status_false,
}
use fork_kustomize_controlle.Objects.{ObjMetadata, Unstructured, ChangeSetEntry, ObjectApi}
use fork_kustomize_controlle.Controller.Types.{
  Reader, NamespacedName, Source, Artifact, Effect, Impersonation, ApplyOptions, DeleteOptions,
  WaitOptions,
}

abbrev pub same_type : ConditionType → ConditionType → Bool
same_type ready ready = true
same_type healthy healthy = true
same_type reconciling reconciling = true
same_type stalled stalled = true
same_type _ _ = false

-- The package `conditions` of fluxcd/pkg/runtime, over the list of conditions, and
-- `IsStatusConditionTrue` of apimachinery.
pub record ConditionApi : Type 0 where
  pub get : List Condition → ConditionType → Option Condition
  pub set : Condition → List Condition → List Condition
  pub delete : ConditionType → List Condition → List Condition
  -- MarkTrue, MarkFalse and MarkUnknown
  pub mark : ConditionStatus → ConditionType → Reason → Message → List Condition → List Condition
  pub mark_reconciling : Reason → Message → List Condition → List Condition
  pub mark_stalled : Reason → Message → List Condition → List Condition
  pub is_true : List Condition → ConditionType → Bool
  pub is_false : List Condition → ConditionType → Bool
  pub has : List Condition → ConditionType → Bool
  pub is_ready : List Condition → Bool
  pub is_reconciling : List Condition → Bool
  -- the empty text if there is no such condition
  pub get_reason : List Condition → ConditionType → String
  pub is_status_condition_true : List Condition → ConditionType → Bool

abbrev pub status_of : Option Condition → Option (ConditionStatus × Reason)
status_of none = none
status_of (some c) = some (c.status, c.reason)

abbrev pub has_status : ConditionStatus → Option (ConditionStatus × Reason) → Bool
has_status s none = false
has_status status_true (some (status_true, r)) = true
has_status status_false (some (status_false, r)) = true
has_status ConditionStatus.status_unknown (some (ConditionStatus.status_unknown, r)) = true
has_status _ _ = false

-- What the controller relies on: each call changes the status and the reason of the conditions
-- that it names, and no others.
pub record ConditionLaws (api : ConditionApi) : Type 0 where
  pub get-mark :
      (s : ConditionStatus) (t u : ConditionType) (r : Reason) (m : Message) (cs : List Condition)
      → status_of (api.get (api.mark s t r m cs) u)
        ≡ (if same_type t u then some (s, r) else status_of (api.get cs u))
  pub get-mark_reconciling :
      (u : ConditionType) (r : Reason) (m : Message) (cs : List Condition)
      → status_of (api.get (api.mark_reconciling r m cs) u) ≡ (
          if same_type reconciling u
          then some (status_true, r)
          else if same_type stalled u
          then none
          else status_of (api.get cs u))
  pub get-mark_stalled :
      (u : ConditionType) (r : Reason) (m : Message) (cs : List Condition)
      → status_of (api.get (api.mark_stalled r m cs) u) ≡ (
          if same_type stalled u
          then some (status_true, r)
          else if same_type reconciling u
          then none
          else status_of (api.get cs u))
  pub get-delete :
      (t u : ConditionType) (cs : List Condition)
      → status_of (api.get (api.delete t cs) u)
        ≡ (if same_type t u then none else status_of (api.get cs u))
  pub get-set :
      (c : Condition) (u : ConditionType) (cs : List Condition)
      → status_of (api.get (api.set c cs) u)
        ≡ (if same_type c.type u then some (c.status, c.reason) else status_of (api.get cs u))
  -- a condition is found under its type
  pub type-get :
      (cs : List Condition) (t : ConditionType) (c : Condition) → api.get cs t ≡ some c → c.type ≡ t
  pub is_true-get :
      (cs : List Condition) (t : ConditionType)
      → api.is_true cs t ≡ has_status status_true (status_of (api.get cs t))
  pub is_false-get :
      (cs : List Condition) (t : ConditionType)
      → api.is_false cs t ≡ has_status status_false (status_of (api.get cs t))
  pub has-get : (cs : List Condition) (t : ConditionType) → api.has cs t ≡ is_some (api.get cs t)

-- controllerutil.ContainsFinalizer, AddFinalizer and RemoveFinalizer, over the list of finalizers
pub record FinalizerApi : Type 0 where
  pub contains_finalizer : List String → String → Bool
  pub add_finalizer : List String → String → List String
  pub remove_finalizer : List String → String → List String

pub record FinalizerLaws (api : FinalizerApi) : Type 0 where
  pub contains-add :
      (fs : List String) (f : String) → api.contains_finalizer (api.add_finalizer fs f) f ≡ true
  pub contains-remove :
      (fs : List String) (f : String) → api.contains_finalizer (api.remove_finalizer fs f) f ≡ false

-- One resource of kustomize's `resmap.ResMap`.
pub record Resource : Type 0 where
  pub name : String
  pub kind : String
  pub api_version : String
  pub content : String

-- A call that returns a value and an error at once, either of which may be nil.
pub record Outcome {ℓ} (A : Type ℓ) : Type ℓ where
  pub value : Option A
  pub error : Option Err

abbrev pub History : Type 0
History = List Effect

pub record Env : Type 0 where
  pub objects : ObjectApi
  pub conditions : ConditionApi
  pub finalizers : FinalizerApi
  pub is_not_found : Err → Bool
  pub is_access_denied : Err → Bool
  -- kerrors.FilterOut of the errors that are NotFound, and kerrors.NewAggregate with a second error
  pub filter_out_not_found : Err → Option Err
  pub new_aggregate : Option Err → Err → Err
  pub error_text : Err → Message
  -- the clients
  pub get_kustomization : History → Reader → NamespacedName → Result Kustomization
  pub get_source : History → Reader → String → NamespacedName → Result Source
  pub patch : History → Kustomization → Option Err
  pub has_revision : Artifact → String → Bool
  -- meta.ReconcileAnnotationValue
  pub reconcile_annotation : Labels → Option String
  pub jitter : Duration → Duration
  -- cel.NewStatusReader, cel.NewExpression, EvaluateBoolean and the conversion to unstructured
  pub new_status_reader : List String → Option Err
  pub new_expression : String → Option Err
  pub evaluate : String → Kustomization → Kustomization → Result Bool
  pub to_unstructured : Kustomization → Option Err
  pub workload_identity_enabled : Bool
  -- the file system and the fetcher
  pub mkdir_temp : History → Result String
  pub getenv : String → String
  pub contains_text : String → String → Bool
  -- with the host name that replaces the URL's, the URL, the digest and the directory
  pub fetch : History → String → String → String → String → Option Err
  pub secure_join : String → String → Result String
  pub stat : History → String → Option Err
  pub remove_all : History → String → Option Err
  -- impersonation.GetClient, impersonation.CanImpersonate
  pub get_client : History → Impersonation → Option Err
  pub can_impersonate : History → Impersonation → Bool
  -- the manifest generator and kustomize
  pub write_file : History → Kustomization → String → Option Err
  pub new_decryptor : History → Option Err
  pub import_keys : History → Option Err
  pub decrypt_sources : History → String → Option Err
  pub secure_build : History → String → String → Bool → Result (List Resource)
  pub decrypt_resource : Kustomization → Resource → Result (Option Resource)
  pub substitute_variables : Kustomization → Bool → Bool → Resource → Result (Option Resource)
  pub replace : Resource → Option Err
  pub as_yaml : List Resource → Result String
  pub digest_of : String → String
  pub read_objects : String → Result (List Unstructured)
  -- ssautil.SetCommonMetadata, ssautil.ExtractJobsWithTTL, normalize.UnstructuredList
  pub set_common_metadata : Labels → Labels → List Unstructured → List Unstructured
  pub extract_jobs_with_ttl : List Unstructured → List ObjMetadata
  pub normalize : List Unstructured → Result (List Unstructured)
  -- ssa.ResourceManager
  pub set_owner_labels : String → String → List Unstructured → List Unstructured
  pub get_owner_labels : String → String → Labels
  pub default_apply_options : ApplyOptions
  pub apply_all_staged : History → List Unstructured → ApplyOptions → Outcome (List ChangeSetEntry)
  pub delete_all : History → List Unstructured → DeleteOptions → Outcome (List ChangeSetEntry)
  pub wait_for_set : History → List ObjMetadata → WaitOptions → Option Err
  pub wait_for_set_termination : History → List ChangeSetEntry → Duration → Option Err
  -- runtimeCtrl.IsObjectEnqueued: the event source if a new reconciliation was queued
  pub is_object_enqueued : History → Option Err
  -- ssa.ChangeSetEntry.String, ssa.ChangeSet.String and ssautil.FmtUnstructured
  pub format_entry : ChangeSetEntry → String
  pub format_change_set : List ChangeSetEntry → Message
  pub format_unstructured : Unstructured → String
  pub format_objects : List Unstructured → Message
  -- the metadata of the event that reports a success, which update the commit status
  pub commit_status : Labels
  -- meta.History.Upsert
  pub upsert : Snapshot → List Snapshot → List Snapshot
  -- strings.EqualFold
  pub equal_fold : String → String → Bool
