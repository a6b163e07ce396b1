-- ===== src/Controller/Finalizing/Deletion.antt =====
-- What `finalize` leaves of the finalizers, and what it does to the cluster.
use fork_kustomize_controlle.Prelude.{
  String, Bool, true, false, not, ◌&&◌, ◌||◌, ◌==◌, Option, none, some, List, is_empty, ◌≡◌, refl,
  any, arith, Bool-cases, inl, inr, eq_iff, if◌then◌else◌,
}
use fork_kustomize_controlle.Errors.{ok}
use fork_kustomize_controlle.Api.{
  kustomization_finalizer, Kustomization, ResourceInventory, deletion_policy_mirror_prune,
  deletion_policy_delete, deletion_policy_wait_for_termination,
}
use fork_kustomize_controlle.Api.Defaults.{get_deletion_policy}
use fork_kustomize_controlle.Controller.{
  Reconciler, Requeue, no_requeue, Env, ConditionLaws, FinalizerLaws, State, Exec, pure, get_obj,
  emit, call, modify, when, ◌>>=◌, ◌>>◌,
}
use fork_kustomize_controlle.Controller.Frames.{WideFrame, Keeps, keeps_rules, is_mutation}
use fork_kustomize_controlle.Controller.Frames.Chains.{then_cases, ByResult}
use fork_kustomize_controlle.Controller.Frames.Stages.{Keeps-finalize_resources}
use fork_kustomize_controlle.Controller.Pruning.{finalizer_should_delete_resources, no_entries}
use fork_kustomize_controlle.Controller.Finalizing.{
  all_metrics, finalize, finalize_resources, delete_cache_events,
}

module _ (r : Reconciler) (env : Env) (laws : ConditionLaws env.conditions)
    (flaws : FinalizerLaws env.finalizers) where
  -- The finalizers are these.
  abbrev Held : List String → State → Type 0
  Held fs s = s.obj.finalizers ≡ fs

  Held-wide : (fs : List String) → WideFrame env.conditions (Held fs)
  Held-wide fs = record {
    frame = record { quiet = λ s e q h. h; conditions = λ s f b h. h; others = λ s st k h. h };
    effect = λ s e h. h;
  }

  -- The controller's finalizer is gone.
  abbrev Released : State → Type 0
  Released s = env.finalizers.contains_finalizer s.obj.finalizers kustomization_finalizer ≡ false

  abbrev release : Exec (Unit {0})
  release = modify (λ o. record o {
    finalizers = env.finalizers.remove_finalizer o.finalizers kustomization_finalizer;
  })

  -- what follows the deletion
  abbrev rest : Exec Requeue
  rest = release >> (delete_cache_events r env all_metrics >> pure no_requeue)

  rest-ByResult : (fs : List String) (s : State) → ByResult (Held fs) Released (rest s)
  unfolding ◌>>◌ ◌>>=◌ modify delete_cache_events emit call pure
  rest-ByResult fs s = flaws.contains-remove _ kustomization_finalizer

  abbrev deletion : State → Exec (Unit {0})
  deletion s = when (finalizer_should_delete_resources s.obj) (finalize_resources r env s.obj)

  from_deletion : (s : State) → ByResult (Held s.obj.finalizers) Released ((deletion s >> rest) s)
  from_deletion s =
      let kept : Keeps (Held s.obj.finalizers) (deletion s) =
        search (keeps_rules, Keeps-finalize_resources r env laws (Held-wide s.obj.finalizers)) in
      let s₁ = kept.at s refl in
      then_cases (ByResult (Held s.obj.finalizers) Released) _ _ s (λ e q. s₁)
        λ u q. rest-ByResult _ _

-- `finalize` removes the controller's finalizer exactly if it returns no error: after an error
-- the finalizers are those of before, and the object stays for another attempt.
pub finalize_holds :
    (r : Reconciler) (env : Env)
    → ConditionLaws env.conditions
    → FinalizerLaws env.finalizers
    → (s : State)
    → ByResult
        (λ t. t.obj.finalizers ≡ s.obj.finalizers)
        (λ t. env.finalizers.contains_finalizer t.obj.finalizers kustomization_finalizer ≡ false)
        (finalize r env s)
unfolding finalize ◌>>=◌ get_obj
finalize_holds r env laws flaws s = from_deletion r env laws flaws s

-- the policies under which the objects of the inventory are kept
abbrev pub keeps_objects : String → Bool → Bool
keeps_objects policy prune =
    policy == "Orphan" || ((policy == "" || policy == "MirrorPrune") && not prune)

abbrev pub has_no_entries : Option ResourceInventory → Bool
has_no_entries none = true
has_no_entries (some inv) = is_empty inv.entries

-- What the owner of the Kustomization asked to be kept: it is suspended, it never applied anything,
-- its deletion policy is `Orphan`, or is `MirrorPrune`, also by default, and it does not prune.
abbrev pub is_spared : Kustomization → Bool
is_spared obj =
    obj.spec.suspend
    || (has_no_entries obj.status.inventory
        || keeps_objects obj.spec.deletion_policy obj.spec.prune)

-- the test of `finalizerShouldDeleteResources` on a policy
abbrev deletes_objects : String → Bool → Bool
deletes_objects policy prune =
    if policy == deletion_policy_mirror_prune
    then prune
    else policy == deletion_policy_delete || policy == deletion_policy_wait_for_termination

kept-not_deleted :
    (policy : String) (prune : Bool)
    → keeps_objects policy prune ≡ true
    → deletes_objects (if policy == "" then deletion_policy_mirror_prune else policy) prune ≡ false
kept-not_deleted policy true h = elim (Bool-cases (policy == "Orphan")) [
  | inl orphan ↦ rw ((eq_iff policy "Orphan").0 orphan) refl
  | inr other ↦ ground (arith, other, h)
]
kept-not_deleted policy false h = elim (Bool-cases (policy == "")) [
  | inl default ↦ rw default refl
  | inr given ↦ elim (Bool-cases (policy == "MirrorPrune")) [
    | inl mirror ↦ rw (given, mirror) refl
    | inr other ↦ elim (Bool-cases (policy == "Orphan")) [
      | inl orphan ↦ rw ((eq_iff policy "Orphan").0 orphan) refl
      | inr neither ↦ cc (rw (given, other, neither) at h)
    ]
  ]
]

no_entries_lem : (o : Option ResourceInventory) → no_entries o ≡ has_no_entries o
no_entries_lem none = refl
no_entries_lem (some inv) = refl

spared-not_deleted :
    (obj : Kustomization) → is_spared obj ≡ true → finalizer_should_delete_resources obj ≡ false
unfolding finalizer_should_delete_resources get_deletion_policy
spared-not_deleted obj h = elim (Bool-cases obj.spec.suspend) [
  | inl suspended ↦ rw suspended refl
  | inr active ↦ elim (Bool-cases (has_no_entries obj.status.inventory)) [
    | inl empty ↦ rw (active, no_entries_lem obj.status.inventory, empty) refl
    | inr filled ↦
        rw (active, no_entries_lem obj.status.inventory, filled)
          (kept-not_deleted obj.spec.deletion_policy obj.spec.prune (rw (active, filled) at h))
  ]
]

-- Where the Kustomization is suspended, has no inventory, or has the deletion policy `Orphan`, or
-- `MirrorPrune` (also by default) without pruning, `finalize` returns no error and asks for no
-- requeue, the controller's finalizer is removed, and no object of the cluster is applied or
-- deleted.
pub finalize_spares :
    (r : Reconciler) (env : Env)
    → FinalizerLaws env.finalizers
    → (s : State) → is_spared s.obj ≡ true
    → ((finalize r env s).0 ≡ ok no_requeue)
      × (env.finalizers.contains_finalizer
            (finalize r env s).1.obj.finalizers
            kustomization_finalizer
          ≡ false)
      × (any is_mutation (finalize r env s).1.history ≡ any is_mutation s.history)
unfolding finalize ◌>>◌ ◌>>=◌ get_obj when modify delete_cache_events emit call pure
finalize_spares r env flaws s h =
    rw (spared-not_deleted s.obj h) (refl, flaws.contains-remove _ kustomization_finalizer, refl)
