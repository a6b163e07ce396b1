-- ===== src/Watching.antt =====
-- The watches of the controller: the indexes over the Kustomizations that SetupWithManager makes
-- (internal/controller/kustomization_manager.go), and the requests for a changed object
-- (kustomization_indexers.go).
pub mod Requests
use fork_kustomize_controlle.Prelude.{
  String, Bool, not, ◌&&◌, ◌||◌, Option, none, some, List, [], ◌∷◌, ◌++◌, ◌==◌, select,
  if◌then◌else◌, on_option,
}
use fork_kustomize_controlle.Prelude.Texts.{slashed}
use fork_kustomize_controlle.Errors.{Err, Result, ok, err}
use fork_kustomize_controlle.Api.{Kustomization, SubstituteReference, KubeConfigReference}
use fork_kustomize_controlle.Controller.{NamespacedName, Artifact, Source, Env}

-- The text of a `NamespacedName`
abbrev pub text_of : NamespacedName → String
text_of n = slashed n.namespace n.name

abbrev pub name_of : Kustomization → NamespacedName
name_of k = record { namespace = k.namespace; name = k.name }

-- The keys under which a Kustomization is found.
abbrev pub Index : Type 0
Index = Kustomization → List String

-- `indexBy`
unfoldable pub index_by : String → Index
index_by kind k =
    let namespace =
      if not (k.spec.source_ref.namespace == "")
      then k.spec.source_ref.namespace
      else k.namespace in
    if k.spec.source_ref.kind == kind then slashed namespace k.spec.source_ref.name ∷ [] else []

abbrev pub optional_key : Kustomization → Option String → List String
optional_key k none = []
optional_key k (some name) = slashed k.namespace name ∷ []

-- The loop over the references of a post build.
abbrev pub substitute_keys : String → Kustomization → List SubstituteReference → List String
substitute_keys kind k [] = []
substitute_keys kind k (ref ∷ refs) =
    let rest = substitute_keys kind k refs in
    if ref.kind == kind then slashed k.namespace ref.name ∷ rest else rest

abbrev pub post_build_keys : String → Kustomization → List String
post_build_keys kind k =
    on_option k.spec.post_build [] (λ pb. substitute_keys kind k pb.substitute_from)

-- The functions that are given to `IndexField` for ConfigMaps and for Secrets.
unfoldable pub index_config_map : Index
index_config_map k =
    on_option k.spec.kube_config [] (λ kc. optional_key k kc.config_map_ref)
    ++ post_build_keys "ConfigMap" k

unfoldable pub index_secret : Index
index_secret k =
    on_option k.spec.decryption [] (λ dec. optional_key k dec.secret_ref)
    ++ (on_option k.spec.kube_config [] (λ kc. optional_key k kc.secret_ref)
        ++ post_build_keys "Secret" k)

-- `r.List` with a key of an index, which is named by its function, and `dependency.Sort`.
pub record WatchApi : Type 0 where
  pub list : Index → String → Result (List Kustomization)
  pub sort : List Kustomization → Result (List NamespacedName)

abbrev pub or_no_requests {ℓ} : {A : Type ℓ} → Result (List A) → List A
or_no_requests (ok requests) = requests
or_no_requests (err e) = []

module _ (api : WatchApi) where
  -- `sortAndEnqueue`
  unfoldable pub sort_and_enqueue : List Kustomization → Result (List NamespacedName)
  sort_and_enqueue dd = api.sort dd

  abbrev pub dependents : Result (List Kustomization) → List NamespacedName
  dependents (err e) = []
  dependents (ok items) = or_no_requests (sort_and_enqueue items)

  -- `requestsForConfigDependency`
  unfoldable pub requests_for_config_dependency : Index → NamespacedName → List NamespacedName
  unfolding sort_and_enqueue
  requests_for_config_dependency index name = dependents (api.list index (text_of name))

abbrev pub is_up_to_date : Env → Artifact → Kustomization → Bool
is_up_to_date env artifact d =
    (env.conditions.is_ready d.status.conditions
      || env.conditions.is_reconciling d.status.conditions)
    && env.has_revision artifact d.status.last_attempted_revision

module _ (env : Env) (api : WatchApi) where
  abbrev pub requests_for : Artifact → Result (List Kustomization) → List NamespacedName
  requests_for artifact (err e) = []
  requests_for artifact (ok items) =
      or_no_requests (sort_and_enqueue api (select (λ d. not (is_up_to_date env artifact d)) items))

  -- `requestsForRevisionChangeOf`, of an object with the name; an object that is no source is none
  unfoldable pub requests_for_revision_change_of :
      Index → NamespacedName → Option Source → List NamespacedName
  unfolding sort_and_enqueue
  requests_for_revision_change_of index name none = []
  requests_for_revision_change_of index name (some repo) =
      on_option repo.artifact [] (λ artifact. requests_for artifact (api.list index (text_of name)))
