-- ===== src/Controller/Reconciliation/Orphans.antt =====
-- An object that the inventory tracked, through the whole of `reconcile`.
use fork_kustomize_controlle.Prelude.{
  String, Bool, true, Option, some, List, ◌≡◌, refl, sym, subst, ◌∙◌,
}
use fork_kustomize_controlle.Errors.{str, wrapf, Result}
use fork_kustomize_controlle.Api.{
  dir_creation_failed, reconciliation_failed, ResourceInventory, KustomizationSpec,
}
use fork_kustomize_controlle.Objects.{ObjMetadata, Unstructured, ObjectLaws, ChangeSetEntry}
use fork_kustomize_controlle.Inventory.Tracking.{tracks}
use fork_kustomize_controlle.Controller.{
  made_tmp_dir, removed_tmp_dir, call, lift, Reconciler, Env, ConditionLaws, State, Exec, Artifact,
  ◌>>=◌, ◌>>◌, get_obj, modify_status, modify_conditions, mark,
}
use fork_kustomize_controlle.Controller.Frames.{WideFrame, Keeps, keeps_rules}
use fork_kustomize_controlle.Controller.Frames.Chains.{
  bind_cases, then_cases, ByResult, at_err, at_ok,
}
use fork_kustomize_controlle.Controller.Frames.Calls.{Keeps-failing}
use fork_kustomize_controlle.Controller.Frames.Stages.{
  Keeps-start, Keeps-progress, Keeps-fetch, Keeps-prepare, Keeps-recording, Keeps-apply,
  Keeps-health_stage,
}
use fork_kustomize_controlle.Controller.Reconciliation.{
  snapshot_of, Build, apply_stage, health_stage, succeed, upsert, removing, in_tmp_dir,
  reconcile_in, reconcile, build_of, track_applied, prune_stage,
}
use fork_kustomize_controlle.Controller.Reconciliation.Garbage.{
  Accounted, tracked, collected, unreadable, Accounted-wide, moved,
}
use fork_kustomize_controlle.Controller.Reconciliation.Collection.{prune_stage-Accounted}

module _ (r : Reconciler) (env : Env) (laws : ObjectLaws env.objects)
    (claws : ConditionLaws env.conditions) (m : ObjMetadata) (inv : Option ResourceInventory)
    (spec : KustomizationSpec) where
  -- the state up to the apply
  record Before (s : State) : Type 0 where
    inventory : s.obj.status.inventory ≡ inv
    same_spec : s.obj.spec ≡ spec

  Before-wide : WideFrame env.conditions Before
  Before-wide = record {
    frame = record {
      quiet = λ s e q b. record { inventory = b.inventory; same_spec = b.same_spec };
      conditions = λ s f g b. record { inventory = b.inventory; same_spec = b.same_spec };
      others =
          λ s st k b. record { inventory = sym k.inventory ∙ b.inventory; same_spec = b.same_spec };
    };
    effect = λ s e b. record { inventory = b.inventory; same_spec = b.same_spec };
  }

  -- the state after it
  record Applied (s : State) : Type 0 where
    target : ResourceInventory
    inventory : s.obj.status.inventory ≡ some target
    same_spec : s.obj.spec ≡ spec

  track_applied-ByResult :
      (x : Bool × List ChangeSetEntry) (s : State)
      → Before s
      → ByResult Before Applied (track_applied r env x s)
  unfolding track_applied modify_status ◌>>◌
  track_applied-ByResult (drifted, entries) s h = record {
    target = _;
    inventory = refl;
    same_spec = h.same_spec;
  }

  apply_stage-ByResult :
      (b : Build) (us : List Unstructured) (s : State)
      → Before s
      → ByResult Before Applied (apply_stage r env b us s)
  unfolding apply_stage
  apply_stage-ByResult b us s h =
      let begun = (Keeps-progress r env claws Before-wide.frame _ b.revision).at s h in
      then_cases (ByResult Before Applied) _ _ s (λ e q. begun)
        λ u q.
          let done =
            (Keeps-recording r env claws Before-wide.frame b reconciliation_failed _
                (Keeps-apply r env claws Before-wide b.revision b.origin_revision us)).at
              _ begun in
          bind_cases (ByResult Before Applied) _ _ _ (λ e q. done)
            λ x q. track_applied-ByResult x _ done

  module _ (tracks_it : tracks env.objects (snapshot_of inv).entries m ≡ true)
      (prunes : spec.prune ≡ true) where
    abbrev Fine : State → Type 0
    Fine = Accounted env (snapshot_of inv) m

    abbrev AllFine : {A : Type 0} → Result A × State → Type 0
    AllFine p = Fine p.1

    untouched : (s : State) → Before s → Fine s
    untouched s h = tracked (rw h.inventory tracks_it)

    succeed-Fine : (b : Build) (s : State) → Fine s → Fine (succeed r env b s).1
    unfolding succeed upsert mark modify_conditions modify_status ◌>>◌ ◌>>=◌
    succeed-Fine b s (tracked h) = tracked h
    succeed-Fine b s (unreadable e h) = unreadable e h
    succeed-Fine b s (collected c) = collected (moved env s _ c c.later c.called)

    after_apply :
        (a : Artifact) (o resources : String) (us : List Unstructured) (s : State)
        → Before s
        → Fine
            ((apply_stage r env (build_of r env a o resources) us >>= λ x.
                prune_stage r env (build_of r env a o resources) (snapshot_of inv)
                >> (health_stage r env a (build_of r env a o resources) x.0 x.1 us
                    >> succeed r env (build_of r env a o resources)))
              s).1
    after_apply a o resources us s h =
        let b = build_of r env a o resources in
        let wide = Accounted-wide env (snapshot_of inv) m in
        let done = apply_stage-ByResult b us s h in
        bind_cases AllFine _ _ s (λ e q. untouched _ (at_err Before Applied _ e done q))
          λ x q.
            let s₃ = at_ok Before Applied _ x done q in
            let f₃ =
              prune_stage-Accounted r env laws claws m b (snapshot_of inv) s₃.target _ s₃.inventory
                (rw s₃.same_spec prunes) tracks_it in
            then_cases AllFine _ _ _ (λ e q. f₃)
              λ u q.
                let f₄ = (Keeps-health_stage r env claws wide.frame a b x.0 x.1 us).at _ f₃ in
                then_cases AllFine _ _ _ (λ e q. f₄) λ u q. succeed-Fine b _ f₄

    reconcile_in-Fine :
        (a : Artifact) (o tmp_dir : String) (s : State)
        → Before s
        → Fine (reconcile_in r env a o tmp_dir (snapshot_of inv) s).1
    unfolding reconcile_in
    reconcile_in-Fine a o tmp_dir s h =
        let s₁ = (Keeps-fetch r env claws Before-wide.frame a tmp_dir).at s h in
        bind_cases AllFine _ _ s (λ e q. untouched _ s₁)
          λ dir_path q.
            let s₂ =
              (Keeps-prepare r env claws Before-wide.frame a.revision tmp_dir dir_path).at _ s₁ in
            bind_cases AllFine _ _ _ (λ e q. untouched _ s₂) λ x q. after_apply a o x.0 x.1 _ s₂

    -- The deferred removal adds to the history alone.
    removing-Fine :
        (tmp_dir : String) (n : Exec (Unit {0})) (s : State)
        → Fine (n s).1
        → Fine (removing r env tmp_dir n s).1
    unfolding removing
    removing-Fine tmp_dir n s h =
        (Accounted-wide env (snapshot_of inv) m).effect (n s).1 (removed_tmp_dir tmp_dir) h

    in_tmp_dir-Fine :
        (a : Artifact) (o : String) (s : State)
        → Before s
        → Fine (in_tmp_dir r env a o (snapshot_of inv) s).1
    unfolding in_tmp_dir
    in_tmp_dir-Fine a o s h =
        let begun =
          (Keeps-failing r env claws Before-wide.frame dir_creation_failed
              (wrapf (str "tmp dir error: %w")) (call made_tmp_dir env.mkdir_temp >>= lift) made).at
            s h in
        bind_cases AllFine _ _ s (λ e q. untouched _ begun)
          λ tmp_dir q.
            removing-Fine tmp_dir (reconcile_in r env a o tmp_dir (snapshot_of inv)) _
              (reconcile_in-Fine a o tmp_dir _ begun)
      where
        made : Keeps Before (call made_tmp_dir env.mkdir_temp >>= lift)
        made = search (keeps_rules, Before-wide.frame)

    from_start :
        (a : Artifact) (o : String) (s : State)
        → Before s
        → Fine ((get_obj >>= λ obj. in_tmp_dir r env a o (snapshot_of obj.status.inventory)) s).1
    unfolding ◌>>=◌
    from_start a o s h =
        subst (λ i. Fine (in_tmp_dir r env a o (snapshot_of i) s).1) (sym h.inventory)
          (in_tmp_dir-Fine a o s h)

    pub reconcile-Accounted :
        (a : Artifact) (o : String) (s : State)
        → s.obj.status.inventory ≡ inv
        → s.obj.spec ≡ spec
        → Fine (reconcile r env a o s).1
    unfolding reconcile
    reconcile-Accounted a o s hi hs =
        let s₁ =
          (Keeps-start r env claws Before-wide.frame a.revision).at s
            (record { inventory = hi; same_spec = hs }) in
        then_cases AllFine _ _ s (λ e q. untouched _ s₁) λ u q. from_start a o _ s₁

-- Take an object that the inventory tracked when `reconcile` began, of a Kustomization that
-- prunes. Whatever the outcome, and at whatever call an error arose: the inventory in the status
-- tracks the object at the end, or the object was among those of a call of `DeleteAll` that
-- returned no error or reported it as deleted or skipped, or `Diff` of the old inventory and the
-- one in the status fails.
pub no_orphans :
    (r : Reconciler) (env : Env)
    → ObjectLaws env.objects
    → ConditionLaws env.conditions
    → (a : Artifact) (origin_revision : String) (s : State) (m : ObjMetadata)
    → s.obj.spec.prune ≡ true
    → tracks env.objects (snapshot_of s.obj.status.inventory).entries m ≡ true
    → Accounted env (snapshot_of s.obj.status.inventory) m (reconcile r env a origin_revision s).1
no_orphans r env laws claws a o s m p t =
    reconcile-Accounted r env laws claws m s.obj.status.inventory s.obj.spec t p a o s refl refl
