-- ===== src/Features.antt =====
-- internal/features/features.go: the feature gates and their defaults. The names of the gates of
-- fluxcd/pkg/runtime/controller are parameters.
use fork_kustomize_controlle.Prelude.{
  String, Bool, true, false, Option, none, some, List, [], ◌∷◌, ◌==◌, if◌then◌else◌, ◌≡◌, refl, ◌∙◌,
  arith, eq_iff, subst, Bool-cases, Option-cases, inl, inr, on_option,
}

abbrev pub disable_status_poller_cache : String
disable_status_poller_cache = "DisableStatusPollerCache"

abbrev pub disable_fail_fast_behavior : String
disable_fail_fast_behavior = "DisableFailFastBehavior"

abbrev pub strict_post_build_substitutions : String
strict_post_build_substitutions = "StrictPostBuildSubstitutions"

abbrev pub group_change_log : String
group_change_log = "GroupChangeLog"

abbrev pub cancel_health_check_on_new_revision : String
cancel_health_check_on_new_revision = "CancelHealthCheckOnNewRevision"

abbrev pub migrate_api_version : String
migrate_api_version = "MigrateAPIVersion"

-- `controller.FeatureGate…`, and the gates of the authentication package
pub record GateNames : Type 0 where
  pub cache_secrets_and_config_maps : String
  pub additive_cel_dependency_check : String
  pub external_artifact : String
  pub disable_config_watchers : String
  pub direct_source_fetch : String
  -- `auth.SetFeatureGates` of fluxcd/pkg/auth, which adds the gates of that package to the map
  pub set_feature_gates : List (String × Bool) → List (String × Bool)

abbrev pub Gates : Type 0
Gates = List (String × Bool)

-- `features`, as `init` leaves it, which `FeatureGates` returns
unfoldable pub feature_gates : GateNames → Gates
feature_gates names = names.set_feature_gates (
    (names.cache_secrets_and_config_maps, false)
    ∷ ((disable_status_poller_cache, true)
        ∷ ((disable_fail_fast_behavior, false)
            ∷ ((strict_post_build_substitutions, true)
                ∷ ((group_change_log, false)
                    ∷ ((names.additive_cel_dependency_check, false)
                        ∷ ((names.external_artifact, false)
                            ∷ ((cancel_health_check_on_new_revision, false)
                                ∷ ((names.disable_config_watchers, false)
                                    ∷ ((names.direct_source_fetch, false)
                                        ∷ ((migrate_api_version, false) ∷ [])))))))))))

abbrev pub lookup : String → Gates → Option Bool
lookup f [] = none
lookup f ((g, b) ∷ gates) = let rest = lookup f gates in if g == f then some b else rest

abbrev pub put : String → Bool → Gates → Gates
put f v [] = (f, v) ∷ []
put f v ((g, b) ∷ gates) =
    let rest = put f v gates in if g == f then (g, v) ∷ gates else (g, b) ∷ rest

-- `Disable`
unfoldable pub disable : String → Gates → Gates
disable feature gates = on_option (lookup feature gates) gates (λ b. put feature false gates)

-- Every assignment to the map can be read back, also of a feature that was not there.
lookup-put :
    (f g : String) (gates : Gates)
    → lookup g (put f false gates) ≡ (if f == g then some false else lookup g gates)
lookup-put f g [] = ground arith
lookup-put f g ((h, b) ∷ gates) =
    ground (arith, lookup-put f g gates, eq_iff f g, eq_iff h f, eq_iff h g)

-- After Disable, every feature is looked up as before, but the disabled one, which is false if it
-- was supported, and remains absent if it was not.
pub lookup-disable :
    (f g : String) (gates : Gates)
    → lookup g (disable f gates)
      ≡ (if f == g then on_option (lookup g gates) none (λ b. some false) else lookup g gates)
unfolding disable
lookup-disable f g gates = elim (Option-cases (lookup f gates)) [
  | inr (b, here) ↦ rw here (lookup-put f g gates ∙ supported b here)
  | inl absent ↦ rw absent (elim (Bool-cases (f == g)) [
    | inl same ↦
        let none_there = subst (λ x. lookup x gates ≡ none) ((eq_iff f g).0 same) absent in
        rw (same, none_there) refl
    | inr other ↦ rw other refl
  ])
]
  where
    supported :
        (b : Bool)
        → lookup f gates ≡ some b
        → (if f == g then some false else lookup g gates)
          ≡ (if f == g then on_option (lookup g gates) none (λ b. some false) else lookup g gates)
    supported b here = elim (Bool-cases (f == g)) [
      | inl same ↦ rw (same, subst (λ x. lookup x gates ≡ some b) ((eq_iff f g).0 same) here) refl
      | inr other ↦ rw other refl
    ]
