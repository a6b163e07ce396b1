-- ===== src/Watching/Requests.antt =====
-- The requests for a changed object, and the Kustomizations that refer to it.
use fork_kustomize_controlle.Prelude.{
  String, Bool, false, not, ◌&&◌, ◌||◌, Option, none, some, List, [], ◌∷◌, ◌==◌, select, any,
  contains, string_eq, on_option, ◌≡◌, refl, ◌∙◌, arith, any-select, any-append,
}
use fork_kustomize_controlle.Prelude.Texts.{slashed}
use fork_kustomize_controlle.Errors.{ok}
use fork_kustomize_controlle.Api.{Kustomization, SubstituteReference, PostBuild}
use fork_kustomize_controlle.Controller.{NamespacedName, Artifact, Source, Env}
use fork_kustomize_controlle.Controller.Sources.{source_name, source_namespace}
use fork_kustomize_controlle.Watching.{
  WatchApi, Index, text_of, name_of, index_by, is_up_to_date, requests_for_revision_change_of,
  requests_for_config_dependency, sort_and_enqueue, index_config_map, index_secret, optional_key,
  substitute_keys, post_build_keys,
}

-- The cache lists exactly the Kustomizations of the cluster that the index has under the key, and
-- a sort that succeeds returns the names of its objects.
pub record WatchLaws (api : WatchApi) (cluster : List Kustomization) : Type 0 where
  pub any-list :
      (p : Kustomization → Bool) (index : Index) (key : String) (items : List Kustomization)
      → api.list index key ≡ ok items
      → any p items ≡ any (λ k. contains key (index k) && p k) cluster
  pub any-sort :
      (p : NamespacedName → Bool) (dd : List Kustomization) (names : List NamespacedName)
      → api.sort dd ≡ ok names
      → any p names ≡ any (λ k. p (name_of k)) dd

module _ {ℓ} {A : Type ℓ} where
  any_cong : (p q : A → Bool) (xs : List A) → ((x : A) → p x ≡ q x) → any p xs ≡ any q xs
  any_cong p q [] h = refl
  any_cong p q (x ∷ xs) h = rw (h x, any_cong p q xs h) refl

-- The source of the Kustomization, by its kind and the name that `getSource` reads.
abbrev pub has_source : String → NamespacedName → Kustomization → Bool
has_source kind name k = k.spec.source_ref.kind == kind && text_of (source_name k) == text_of name

index_by-has_source :
    (kind : String) (name : NamespacedName) (k : Kustomization)
    → contains (text_of name) (index_by kind k) ≡ has_source kind name k
unfolding index_by source_name source_namespace
index_by-has_source kind name k = ground arith

module _ (env : Env) (api : WatchApi) (cluster : List Kustomization)
    (laws : WatchLaws api cluster) where
  -- A change of a source with an artifact requests exactly the Kustomizations of the cluster whose
  -- source, as `getSource` reads it, has the kind and the name, and which are not ready or
  -- reconciling with the revision attempted last, if the cache answers and the sort succeeds.
  pub requests_for_revision_change_of_lem :
      (kind : String) (name : NamespacedName) (repo : Source) (artifact : Artifact)
      (items : List Kustomization) (names : List NamespacedName) (p : NamespacedName → Bool)
      → repo.artifact ≡ some artifact
      → api.list (index_by kind) (text_of name) ≡ ok items
      → api.sort (select (λ d. not (is_up_to_date env artifact d)) items) ≡ ok names
      → any p (requests_for_revision_change_of env api (index_by kind) name (some repo))
        ≡ any
            (λ k. has_source kind name k && (not (is_up_to_date env artifact k) && p (name_of k)))
            cluster
  unfolding requests_for_revision_change_of sort_and_enqueue
  requests_for_revision_change_of_lem kind name repo artifact items names p here listed sorted =
      rw (here, listed, sorted)
        (laws.any-sort p _ names sorted
          ∙ (any-select (λ k. p (name_of k)) (λ d. not (is_up_to_date env artifact d)) items
              ∙ (laws.any-list _ _ _ items listed
                  ∙ any_cong _ _ cluster (λ k. rw (index_by-has_source kind name k) refl))))

-- The Kustomization refers to a ConfigMap or a Secret in its namespace: by its kubeconfig, by its
-- decryption, or by a substitution.
abbrev pub names_key : Kustomization → String → Option String → Bool
names_key k key none = false
names_key k key (some name) = slashed k.namespace name == key

abbrev pub substitutes : String → String → Kustomization → Bool
substitutes kind key k =
    on_option k.spec.post_build false (λ pb.
      any (λ ref. ref.kind == kind && slashed k.namespace ref.name == key) pb.substitute_from)

abbrev pub refers_to_config_map : String → Kustomization → Bool
refers_to_config_map key k =
    on_option k.spec.kube_config false (λ kc. names_key k key kc.config_map_ref)
    || substitutes "ConfigMap" key k

abbrev pub refers_to_secret : String → Kustomization → Bool
refers_to_secret key k =
    on_option k.spec.decryption false (λ dec. names_key k key dec.secret_ref)
    || (on_option k.spec.kube_config false (λ kc. names_key k key kc.secret_ref)
        || substitutes "Secret" key k)

contains-substitute_keys :
    (kind key : String) (k : Kustomization) (refs : List SubstituteReference)
    → contains key (substitute_keys kind k refs)
      ≡ any (λ ref. ref.kind == kind && slashed k.namespace ref.name == key) refs
contains-substitute_keys kind key k [] = refl
contains-substitute_keys kind key k (ref ∷ refs) =
    ground (arith, contains-substitute_keys kind key k refs)

contains-post_build_keys :
    (kind key : String) (k : Kustomization) (pb : Option PostBuild)
    → contains key (on_option pb [] (λ pb. substitute_keys kind k pb.substitute_from))
      ≡ on_option pb false (λ pb.
        any (λ ref. ref.kind == kind && slashed k.namespace ref.name == key) pb.substitute_from)
contains-post_build_keys kind key k none = refl
contains-post_build_keys kind key k (some pb) =
    contains-substitute_keys kind key k pb.substitute_from

contains-optional_key :
    {A : Type 0} (key : String) (k : Kustomization) (o : Option A) (name : A → Option String)
    → contains key (on_option o [] (λ a. optional_key k (name a)))
      ≡ on_option o false (λ a. names_key k key (name a))
contains-optional_key key k none name = refl
contains-optional_key key k (some a) name = one (name a)
  where
    one : (n : Option String) → contains key (optional_key k n) ≡ names_key k key n
    one none = refl
    one (some n) = ground arith

contains-index_config_map :
    (key : String) (k : Kustomization)
    → contains key (index_config_map k) ≡ refers_to_config_map key k
unfolding index_config_map
contains-index_config_map key k =
    any-append _ (on_option k.spec.kube_config [] (λ kc. optional_key k kc.config_map_ref)) _
    ∙ rw
        (
          contains-optional_key key k k.spec.kube_config (λ kc. kc.config_map_ref),
          contains-post_build_keys "ConfigMap" key k k.spec.post_build,
        )
        refl

contains-index_secret :
    (key : String) (k : Kustomization) → contains key (index_secret k) ≡ refers_to_secret key k
unfolding index_secret
contains-index_secret key k =
    any-append _ (on_option k.spec.decryption [] (λ dec. optional_key k dec.secret_ref)) _
    ∙ rw
        (
          contains-optional_key key k k.spec.decryption (λ dec. dec.secret_ref),
          any-append (λ x. x == key)
              (on_option k.spec.kube_config [] (λ kc. optional_key k kc.secret_ref))
              (post_build_keys "Secret" k),
          contains-optional_key key k k.spec.kube_config (λ kc. kc.secret_ref),
          contains-post_build_keys "Secret" key k k.spec.post_build,
        )
        refl

module _ (api : WatchApi) (cluster : List Kustomization) (laws : WatchLaws api cluster) where
  requests_by_index :
      (index : Index) (name : NamespacedName) (items : List Kustomization)
      (names : List NamespacedName) (p : NamespacedName → Bool)
      → api.list index (text_of name) ≡ ok items
      → api.sort items ≡ ok names
      → any p (requests_for_config_dependency api index name)
        ≡ any (λ k. contains (text_of name) (index k) && p (name_of k)) cluster
  unfolding requests_for_config_dependency sort_and_enqueue
  requests_by_index index name items names p listed sorted =
      rw (listed, sorted)
        (laws.any-sort p items names sorted ∙ laws.any-list _ index _ items listed)

  -- A change of a ConfigMap requests exactly the Kustomizations of the cluster that refer to it by
  -- their kubeconfig or a substitution, and a change of a Secret those that refer to it by their
  -- decryption, their kubeconfig or a substitution, if the cache answers and the sort succeeds.
  pub requests_for_config_dependency_lem :
      (name : NamespacedName) (items items' : List Kustomization)
      (names names' : List NamespacedName) (p : NamespacedName → Bool)
      → api.list index_config_map (text_of name) ≡ ok items
      → api.sort items ≡ ok names
      → api.list index_secret (text_of name) ≡ ok items'
      → api.sort items' ≡ ok names'
      → (any p (requests_for_config_dependency api index_config_map name)
          ≡ any (λ k. refers_to_config_map (text_of name) k && p (name_of k)) cluster)
        × (any p (requests_for_config_dependency api index_secret name)
            ≡ any (λ k. refers_to_secret (text_of name) k && p (name_of k)) cluster)
  requests_for_config_dependency_lem name items items' names names' p l s l' s' = (
    requests_by_index index_config_map name items names p l s
        ∙ any_cong _ _ cluster (λ k. rw (contains-index_config_map (text_of name) k) refl),
    requests_by_index index_secret name items' names' p l' s'
        ∙ any_cong _ _ cluster (λ k. rw (contains-index_secret (text_of name) k) refl),
  )
