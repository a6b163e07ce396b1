-- ===== src/Examples.antt =====
-- Concrete libraries, configurations and objects, on which the operations are run.
pub mod Laws
mod Inventories
mod Runs
pub mod Secrets
mod Watches
use fork_kustomize_controlle.Prelude.{
  string_eq, String, Bool, true, false, not, ◌&&◌, Option, none, some, List, [], ◌∷◌, ◌++◌, ◌==◌,
  select, contains, is_some, is_empty, if◌then◌else◌,
}
use fork_kustomize_controlle.Prelude.Int.{ℤ, pos}
use fork_kustomize_controlle.Errors.{Err, opaque, Result, ok, Message, str}
use fork_kustomize_controlle.Api.{
  Kustomization, KustomizationSpec, KustomizationStatus, Condition, ConditionType, ConditionStatus,
  Reason, ready, healthy, reconciling, stalled, status_true, status_false, status_unknown,
  ResourceInventory, Labels,
}
use fork_kustomize_controlle.Objects.{
  ObjMetadata, Unstructured, ChangeSetEntry, ObjectApi, bare_object, metadata_eq,
}
use fork_kustomize_controlle.Controller.{
  Reconciler, Artifact, Source, Env, State, ConditionApi, FinalizerApi, Outcome, ApplyOptions,
  same_type, status_of, has_status,
}

-- The text of an object's metadata is its name, and every other field is empty.
abbrev pub sample_metadata : String → ObjMetadata
sample_metadata s = record { namespace = ""; name = s; group = ""; kind = "" }

abbrev pub sample_objects : ObjectApi
sample_objects = record {
  to_string = λ m. m.name;
  parse = λ s. ok (sample_metadata s);
  metadata_of =
      λ u. record { namespace = u.namespace; name = u.name; group = u.group; kind = u.kind };
  set_diff = λ xs ys. select (λ x. not (contains x ys)) xs;
  sort = λ us. us;
  parse_group_version = λ s. ok ("", s);
  api_version = λ u. u.version;
}

-- The conditions of a list, the newest first.
abbrev pub find_condition : List Condition → ConditionType → Option Condition
find_condition [] t = none
find_condition (c ∷ cs) t =
    let rest = find_condition cs t in if same_type c.type t then some c else rest

abbrev pub drop_condition : ConditionType → List Condition → List Condition
drop_condition t [] = []
drop_condition t (c ∷ cs) =
    let rest = drop_condition t cs in if same_type c.type t then rest else c ∷ rest

abbrev pub put_condition : Condition → List Condition → List Condition
put_condition c cs = c ∷ drop_condition c.type cs

abbrev pub condition : ConditionStatus → ConditionType → Reason → Message → Condition
condition s t r m = record { type = t; status = s; reason = r; message = m }

abbrev pub sample_conditions : ConditionApi
sample_conditions = record {
  get = find_condition;
  set = put_condition;
  delete = drop_condition;
  mark = λ s t r m cs. put_condition (condition s t r m) cs;
  mark_reconciling =
      λ r m cs. put_condition (condition status_true reconciling r m) (drop_condition stalled cs);
  mark_stalled =
      λ r m cs. put_condition (condition status_true stalled r m) (drop_condition reconciling cs);
  is_true = λ cs t. has_status status_true (status_of (find_condition cs t));
  is_false = λ cs t. has_status status_false (status_of (find_condition cs t));
  has = λ cs t. is_some (find_condition cs t);
  is_ready = λ cs. has_status status_true (status_of (find_condition cs ready));
  is_reconciling = λ cs. has_status status_true (status_of (find_condition cs reconciling));
  get_reason = λ cs t. "";
  is_status_condition_true = λ cs t. has_status status_true (status_of (find_condition cs t));
}

abbrev pub sample_finalizers : FinalizerApi
sample_finalizers = record {
  contains_finalizer = λ fs f. contains f fs;
  add_finalizer = λ fs f. f ∷ fs;
  remove_finalizer = λ fs f. select (λ g. not (g == f)) fs;
}

abbrev pub sample_artifact : Artifact
sample_artifact = record {
  revision = "main@2";
  url = "http://source";
  digest = "d2";
  metadata = [];
}

abbrev pub sample_apply_options : ApplyOptions
sample_apply_options = record {
  force = false;
  exclusion_selector = [];
  if_not_present_selector = [];
  force_selector = [];
  custom_stage_kinds = [];
  migrate_api_version = false;
  drift_ignore_rules = [];
  cleanup_annotations = [];
  cleanup_labels = [];
  cleanup_field_managers = [];
  cleanup_exclusions = [];
}

abbrev pub sample_reconciler : Reconciler
sample_reconciler = record {
  cluster_reader = false;
  concurrent_ssa = 4;
  controller_name = "kustomize-controller";
  status_manager = "gotk-kustomize-controller";
  custom_stage_kinds = [];
  default_service_account = "";
  disallowed_field_managers = [];
  no_cross_namespace_refs = true;
  no_remote_bases = false;
  sops_age_secret = "";
  sops_vault_config_map = "";
  token_cache = false;
  artifact_fetch_retries = 3;
  dependency_requeue_interval = pos 30000000000;
  additive_cel_dependency_check = false;
  allow_external_artifact = false;
  direct_source_fetch = false;
  fail_fast = false;
  group_change_log = false;
  migrate_api_version = false;
  strict_substitutions = false;
}

abbrev pub sample_spec : KustomizationSpec
sample_spec = record {
  common_metadata = none;
  depends_on = record { name = "base"; namespace = ""; ready_expr = "" } ∷ [];
  decryption = none;
  interval = pos 600000000000;
  retry_interval = none;
  kube_config = none;
  path = "./";
  post_build = none;
  prune = true;
  deletion_policy = "";
  health_checks = [];
  service_account_name = "";
  source_ref = record { api_version = ""; kind = "GitRepository"; name = "repo"; namespace = "" };
  suspend = false;
  timeout = none;
  force = false;
  wait = false;
  health_check_exprs = [];
  ignore = [];
}

abbrev pub sample_status : KustomizationStatus
sample_status = record {
  last_handled_reconcile_at = "";
  observed_generation = 1;
  conditions = [];
  last_applied_revision = "main@1";
  last_applied_origin_revision = "";
  last_attempted_revision = "main@1";
  inventory = some (record { entries = record { id = "gone"; version = "v1" } ∷ [] });
  history = [];
}

abbrev pub sample_kustomization : Kustomization
sample_kustomization = record {
  name = "apps";
  namespace = "flux-system";
  generation = 2;
  deleting = false;
  finalizers = "finalizers.fluxcd.io" ∷ [];
  annotations = ("reconcile.fluxcd.io/requestedAt", "now") ∷ [];
  spec = sample_spec;
  status = sample_status;
}

-- The dependency that the API server answers with: ready, and at its generation.
abbrev pub sample_dependency : Kustomization
sample_dependency = record sample_kustomization {
  name = "base";
  generation = 1;
  status = record sample_status {
    conditions = condition status_true ready Reason.reconciliation_succeeded (str "") ∷ [];
    last_applied_revision = "main@2";
  };
}

abbrev pub answered {ℓ} : {A : Type ℓ} → A → Outcome A
answered a = record { value = some a; error = none }

-- Every call succeeds, except that `delete_error` is the error of the deletion.
abbrev pub sample_env : Option Err → Env
sample_env delete_error = record {
  objects = sample_objects;
  conditions = sample_conditions;
  finalizers = sample_finalizers;
  is_not_found = λ e. false;
  is_access_denied = λ e. false;
  filter_out_not_found = λ e. some e;
  new_aggregate = λ o e. e;
  error_text = λ e. str "error";
  get_kustomization = λ h c n. ok sample_dependency;
  get_source = λ h c k n. ok (record { artifact = some sample_artifact });
  patch = λ h o. none;
  has_revision = λ a v. a.revision == v;
  reconcile_annotation = λ m. if is_empty m then none else some "now";
  jitter = λ d. d;
  new_status_reader = λ es. none;
  new_expression = λ e. none;
  evaluate = λ e s d. ok true;
  to_unstructured = λ k. none;
  workload_identity_enabled = false;
  mkdir_temp = λ h. ok "/tmp/work";
  getenv = λ k. "";
  contains_text = λ s t. false;
  fetch = λ h n u d t. none;
  secure_join = λ a b. ok a;
  stat = λ h p. none;
  remove_all = λ h p. none;
  get_client = λ h i. none;
  can_impersonate = λ h i. true;
  write_file = λ h k p. none;
  new_decryptor = λ h. none;
  import_keys = λ h. none;
  decrypt_sources = λ h p. none;
  secure_build = λ h a b n. ok [];
  decrypt_resource = λ k x. ok none;
  substitute_variables = λ k a b x. ok none;
  replace = λ x. none;
  as_yaml = λ xs. ok "";
  digest_of = λ s. s;
  read_objects = λ s. ok (bare_object "" "v1" "" "web" "" ∷ []);
  set_common_metadata = λ a b us. us;
  extract_jobs_with_ttl = λ us. [];
  normalize = λ us. ok us;
  set_owner_labels = λ a b us. us;
  get_owner_labels = λ a b. [];
  default_apply_options = sample_apply_options;
  apply_all_staged = λ h us o. answered [];
  delete_all = λ h us o. record { value = none; error = delete_error };
  wait_for_set = λ h ms o. none;
  wait_for_set_termination = λ h es d. none;
  is_object_enqueued = λ h. none;
  format_entry = λ e. "";
  format_change_set = λ es. str "";
  format_unstructured = λ u. u.name;
  format_objects = λ us. str "";
  commit_status = [];
  upsert = λ x xs. x ∷ xs;
  equal_fold = λ a b. a == b;
}

abbrev pub sample_state : State
sample_state = record { obj = sample_kustomization; history = [] }
