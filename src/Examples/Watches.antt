-- ===== src/Examples/Watches.antt =====
-- Runs of the feature gates, and of the watches, over a cache that holds one Kustomization.
use fork_kustomize_controlle.Prelude.{
  Bool, false, not, ◌&&◌, none, some, List, [], ◌∷◌, ◌==◌, map, any, any-select, select, contains,
  string_eq, ◌≡◌, refl, subst,
}
use fork_kustomize_controlle.Errors.{ok, ok-injective}
use fork_kustomize_controlle.Api.{Kustomization}
use fork_kustomize_controlle.Controller.{NamespacedName, Source}
use fork_kustomize_controlle.Watching.{
  WatchApi, text_of, name_of, index_by, is_up_to_date, requests_for_revision_change_of,
  index_config_map, index_secret, requests_for_config_dependency,
}
use fork_kustomize_controlle.Watching.Requests.{
  WatchLaws, has_source, refers_to_config_map, refers_to_secret,
  requests_for_revision_change_of_lem, requests_for_config_dependency_lem,
}
use fork_kustomize_controlle.Features.{GateNames, feature_gates, lookup, disable, lookup-disable}
use fork_kustomize_controlle.Examples.{sample_kustomization, sample_artifact, sample_env}

-- It takes variables from a ConfigMap and a Secret of one name.
abbrev substituting : Kustomization
substituting = record sample_kustomization {
  spec = record sample_kustomization.spec {
    post_build = some (record {
      substitute_strategy = "";
      substitute = [];
      substitute_from =
          record { kind = "ConfigMap"; name = "vars"; optional = false }
          ∷ (record { kind = "Secret"; name = "vars"; optional = false } ∷ []);
    });
  };
}

abbrev sample_cluster : List Kustomization
sample_cluster = substituting ∷ []

abbrev sample_watch : WatchApi
sample_watch = record {
  list = λ index key. ok (select (λ k. contains key (index k)) sample_cluster);
  sort = λ dd. ok (map name_of dd);
}

any-map :
    (p : NamespacedName → Bool) (ks : List Kustomization)
    → any p (map name_of ks) ≡ any (λ k. p (name_of k)) ks
any-map p [] = refl
any-map p (k ∷ ks) = rw (any-map p ks) refl

sample_watch_laws : WatchLaws sample_watch sample_cluster
sample_watch_laws = record {
  any-list = λ p index key items h.
      subst (λ xs. any p xs ≡ any (λ k. contains key (index k) && p k) sample_cluster)
        (ok-injective h) (any-select p (λ k. contains key (index k)) sample_cluster);
  any-sort = λ p dd names h.
      subst (λ xs. any p xs ≡ any (λ k. p (name_of k)) dd) (ok-injective h) (any-map p dd);
}

abbrev repository : NamespacedName
repository = record { namespace = "flux-system"; name = "repo" }

abbrev sample_source : Source
sample_source = record { artifact = some sample_artifact }

abbrev listed : List Kustomization
listed = select (λ k. contains (text_of repository) (index_by "GitRepository" k)) sample_cluster

requests_for_revision_change_of_example :
    any
      (λ n. n.name == "apps")
      (requests_for_revision_change_of
        (sample_env none)
        sample_watch
        (index_by "GitRepository")
        repository
        (some sample_source))
    ≡ any
        (λ k.
          has_source "GitRepository" repository k
          && (not (is_up_to_date (sample_env none) sample_artifact k)
              && (name_of k).name == "apps"))
        sample_cluster
requests_for_revision_change_of_example =
    requests_for_revision_change_of_lem (sample_env none) sample_watch sample_cluster
      sample_watch_laws "GitRepository" repository sample_source sample_artifact listed
      (map name_of (select (λ d. not (is_up_to_date (sample_env none) sample_artifact d)) listed))
      (λ n. n.name == "apps") refl refl refl

abbrev variables : NamespacedName
variables = record { namespace = "flux-system"; name = "vars" }

requests_for_config_dependency_example :
    (any
        (λ n. n.name == "apps")
        (requests_for_config_dependency sample_watch index_config_map variables)
      ≡ any
          (λ k. refers_to_config_map (text_of variables) k && (name_of k).name == "apps")
          sample_cluster)
    × (any
          (λ n. n.name == "apps")
          (requests_for_config_dependency sample_watch index_secret variables)
        ≡ any
            (λ k. refers_to_secret (text_of variables) k && (name_of k).name == "apps")
            sample_cluster)
requests_for_config_dependency_example =
    requests_for_config_dependency_lem sample_watch sample_cluster sample_watch_laws variables
      (select (λ k. contains (text_of variables) (index_config_map k)) sample_cluster)
      (select (λ k. contains (text_of variables) (index_secret k)) sample_cluster)
      (map name_of (select (λ k. contains (text_of variables) (index_config_map k)) sample_cluster))
      (map name_of (select (λ k. contains (text_of variables) (index_secret k)) sample_cluster))
      (λ n. n.name == "apps") refl refl refl refl

abbrev gate_names : GateNames
gate_names = record {
  cache_secrets_and_config_maps = "CacheSecretsAndConfigMaps";
  additive_cel_dependency_check = "AdditiveCELDependencyCheck";
  external_artifact = "ExternalArtifact";
  disable_config_watchers = "DisableConfigWatchers";
  direct_source_fetch = "DirectSourceFetch";
  set_feature_gates = λ gates. ("ObjectLevelWorkloadIdentity", false) ∷ gates;
}

lookup-disable_example :
    lookup "StrictPostBuildSubstitutions"
      (disable "StrictPostBuildSubstitutions" (feature_gates gate_names))
    ≡ some false
unfolding feature_gates
lookup-disable_example =
    lookup-disable "StrictPostBuildSubstitutions" "StrictPostBuildSubstitutions"
      (feature_gates gate_names)
