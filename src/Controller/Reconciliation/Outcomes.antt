-- ===== src/Controller/Reconciliation/Outcomes.antt =====
-- What `reconcile` leaves in the status, by its result.
use fork_kustomize_controlle.Prelude.{
  String, Bool, false, Option, some, List, ◌∷◌, ◌≡◌, refl, sym, ◌∙◌,
}
use fork_kustomize_controlle.Errors.{str, wrapf, Result, ok, err}
use fork_kustomize_controlle.Api.{
  dir_creation_failed, ready, status_true, status_unknown, reconciliation_succeeded, progressing,
  ResourceInventory,
}
use fork_kustomize_controlle.Objects.{Unstructured, ChangeSetEntry}
use fork_kustomize_controlle.Inventory.{merge}
use fork_kustomize_controlle.Controller.{
  made_tmp_dir, removed_tmp_dir, call, lift, Reconciler, Env, ConditionLaws, State, Artifact,
  status_of, modify_status, modify_conditions, mark, get_obj, ◌>>=◌, ◌>>◌,
}
use fork_kustomize_controlle.Controller.Frames.{
  WideFrame, Keeps, Keeps-then, ready_true, keeps_rules,
}
use fork_kustomize_controlle.Controller.Frames.Chains.{bind_cases, then_cases, ByResult}
use fork_kustomize_controlle.Controller.Frames.Calls.{Keeps-failing}
use fork_kustomize_controlle.Controller.Frames.Stages.{
  Keeps-progress, Keeps-fetch, Keeps-prepare, Keeps-recording, Keeps-apply, Keeps-health_stage,
  Keeps-prune,
}
use fork_kustomize_controlle.Controller.Pruning.{Pruned}
use fork_kustomize_controlle.Controller.Reconciliation.{
  snapshot_of, build_of, Build, apply_stage, track_applied, prune_stage, retrack, health_stage,
  succeed, upsert, removing, in_tmp_dir, reconcile_in, reconcile, start,
}

-- Ready is true because the reconciliation succeeded, and the revisions are the new ones.
pub record Finished (env : Env) (revision origin_revision : String) (s : State) : Type 0 where
  pub succeeded :
      status_of (env.conditions.get s.obj.status.conditions ready)
      ≡ some (status_true, reconciliation_succeeded)
  pub applied : s.obj.status.last_applied_revision ≡ revision
  pub applied_origin : s.obj.status.last_applied_origin_revision ≡ origin_revision

-- Ready is not true, and the revisions are those that were applied before.
pub record Unfinished (env : Env) (revision origin_revision : String) (s : State) : Type 0 where
  pub not_ready : ready_true env.conditions s.obj.status.conditions ≡ false
  pub applied : s.obj.status.last_applied_revision ≡ revision
  pub applied_origin : s.obj.status.last_applied_origin_revision ≡ origin_revision

module _ (r : Reconciler) (env : Env) (laws : ConditionLaws env.conditions)
    (revision origin_revision : String) where
  abbrev Old : State → Type 0
  Old = Unfinished env revision origin_revision

  Unfinished-wide : WideFrame env.conditions Old
  Unfinished-wide = record {
    frame = record {
      quiet = λ s e q u. record {
        not_ready = u.not_ready;
        applied = u.applied;
        applied_origin = u.applied_origin;
      };
      conditions = λ s f b u. record {
        not_ready = b.at _ u.not_ready;
        applied = u.applied;
        applied_origin = u.applied_origin;
      };
      others = λ s st k u. record {
        not_ready = rw (← k.conditions) u.not_ready;
        applied = sym k.revision ∙ u.applied;
        applied_origin = sym k.origin_revision ∙ u.applied_origin;
      };
    };
    effect = λ s e u. record {
      not_ready = u.not_ready;
      applied = u.applied;
      applied_origin = u.applied_origin;
    };
  }

  set_inventory :
      (f : Option ResourceInventory → Option ResourceInventory)
      → Keeps Old (modify_status (λ st. record st { inventory = f st.inventory }))
  unfolding modify_status
  set_inventory f = record {
    at = λ s u. record {
      not_ready = u.not_ready;
      applied = u.applied;
      applied_origin = u.applied_origin;
    };
  }

  Unfinished-retrack : (b : Build) (p : Pruned) → Keeps Old (retrack r env b p)
  unfolding retrack
  Unfinished-retrack b p =
      search (keeps_rules, remerged, Keeps-recording r env laws Unfinished-wide.frame)
    where
      remerged :
          (us : List Unstructured)
          → Keeps Old
              (modify_status (λ st. record st { inventory = merge env.objects st.inventory us }))
      remerged us = set_inventory (λ o. merge env.objects o us)

  Unfinished-prune_stage :
      (b : Build) (old : ResourceInventory) → Keeps Old (prune_stage r env b old)
  unfolding prune_stage
  Unfinished-prune_stage b old =
      search
        (
          keeps_rules,
          Unfinished-retrack,
          Keeps-recording r env laws Unfinished-wide.frame,
          Keeps-prune r env laws Unfinished-wide,
        )
        depth 12

  Unfinished-track_applied : (x : Bool × List ChangeSetEntry) → Keeps Old (track_applied r env x)
  unfolding track_applied
  Unfinished-track_applied (d, es) =
      Keeps-then _ _ (set_inventory (λ o. some _)) (search keeps_rules)

  Unfinished-apply_stage : (b : Build) (us : List Unstructured) → Keeps Old (apply_stage r env b us)
  unfolding apply_stage
  Unfinished-apply_stage b us =
      search
        (
          keeps_rules,
          Unfinished-track_applied,
          Keeps-progress r env laws Unfinished-wide.frame,
          Keeps-recording r env laws Unfinished-wide.frame,
          Keeps-apply r env laws Unfinished-wide,
        )
        depth 12

  abbrev Ended : String → String → {A : Type 0} → Result A × State → Type 0
  Ended v o = ByResult Old (Finished env v o)

  succeed-Ended : (b : Build) (s : State) → Ended b.revision b.origin_revision (succeed r env b s)
  unfolding succeed upsert mark modify_conditions modify_status ◌>>◌ ◌>>=◌
  succeed-Ended b s = record {
    succeeded = laws.get-mark _ ready ready _ _ _;
    applied = refl;
    applied_origin = refl;
  }

  after_apply :
      (a : Artifact) (o resources : String) (old : ResourceInventory) (us : List Unstructured)
      (x : Bool × List ChangeSetEntry) (s : State)
      → Old s
      → Ended a.revision o (
          (prune_stage r env (build_of r env a o resources) old
              >> (health_stage r env a (build_of r env a o resources) x.0 x.1 us
                  >> succeed r env (build_of r env a o resources)))
            s)
  after_apply a o resources old us x s h =
      let b = build_of r env a o resources in
      let s₁ = (Unfinished-prune_stage b old).at s h in
      then_cases (Ended a.revision o) _ _ s (λ e q. s₁)
        λ u q.
          let s₂ = (Keeps-health_stage r env laws Unfinished-wide.frame a b x.0 x.1 us).at _ s₁ in
          then_cases (Ended a.revision o) _ _ _ (λ e q. s₂) λ u q. succeed-Ended b _

  reconcile_in-Ended :
      (a : Artifact) (o tmp_dir : String) (old : ResourceInventory) (s : State)
      → Old s
      → Ended a.revision o (reconcile_in r env a o tmp_dir old s)
  unfolding reconcile_in
  reconcile_in-Ended a o tmp_dir old s h =
      let s₁ = (Keeps-fetch r env laws Unfinished-wide.frame a tmp_dir).at s h in
      bind_cases (Ended a.revision o) _ _ s (λ e q. s₁)
        λ dir_path q.
          let s₂ =
            (Keeps-prepare r env laws Unfinished-wide.frame a.revision tmp_dir dir_path).at _ s₁ in
          bind_cases (Ended a.revision o) _ _ _ (λ e q. s₂)
            λ x q.
              let s₃ = (Unfinished-apply_stage (build_of r env a o x.0) x.1).at _ s₂ in
              bind_cases (Ended a.revision o) _ _ _ (λ e q. s₃)
                λ y q. after_apply a o x.0 old x.1 y _ s₃

  removing-Ended :
      (v o tmp_dir : String) (p : Result (Unit {0}) × State)
      → Ended v o p
      → Ended v o (p.0, record (p.1) { history = removed_tmp_dir tmp_dir ∷ (p.1).history })
  removing-Ended v o d (ok x, s) h = record {
    succeeded = h.succeeded;
    applied = h.applied;
    applied_origin = h.applied_origin;
  }
  removing-Ended v o d (err e, s) h = record {
    not_ready = h.not_ready;
    applied = h.applied;
    applied_origin = h.applied_origin;
  }

  in_tmp_dir-Ended :
      (a : Artifact) (o : String) (old : ResourceInventory) (s : State)
      → Old s
      → Ended a.revision o (in_tmp_dir r env a o old s)
  unfolding in_tmp_dir removing
  in_tmp_dir-Ended a o old s h =
      let begun =
        (Keeps-failing r env laws Unfinished-wide.frame dir_creation_failed
            (wrapf (str "tmp dir error: %w")) (call made_tmp_dir env.mkdir_temp >>= lift) made).at
          s h in
      bind_cases (Ended a.revision o) _ _ s (λ e q. begun)
        λ tmp_dir q.
          removing-Ended a.revision o tmp_dir _ (reconcile_in-Ended a o tmp_dir old _ begun)
    where
      made : Keeps Old (call made_tmp_dir env.mkdir_temp >>= lift)
      made = search (keeps_rules, Unfinished-wide.frame)

  from_start :
      (a : Artifact) (o : String) (s : State)
      → Old s
      → Ended a.revision o
          ((get_obj >>= λ obj. in_tmp_dir r env a o (snapshot_of obj.status.inventory)) s)
  unfolding ◌>>=◌
  from_start a o s h = in_tmp_dir-Ended a o (snapshot_of s.obj.status.inventory) s h

  -- The first statement makes Ready unknown.
  marked :
      (s : State)
      → s.obj.status.last_applied_revision ≡ revision
      → s.obj.status.last_applied_origin_revision ≡ origin_revision
      → Old (mark env status_unknown ready progressing (str "Reconciliation in progress") s).1
  unfolding mark modify_conditions modify_status
  marked s hr ho = record { not_ready = rw laws.get-mark refl; applied = hr; applied_origin = ho }

  begins :
      (v : String) (s : State)
      → s.obj.status.last_applied_revision ≡ revision
      → s.obj.status.last_applied_origin_revision ≡ origin_revision
      → Old (start r env v s).1
  unfolding start
  begins v s hr ho =
      let s₁ = marked s hr ho in
      then_cases (λ p. Old p.1) _ _ s (λ e q. s₁)
        λ u q. (Keeps-progress r env laws Unfinished-wide.frame _ v).at _ s₁

  pub reconcile-Ended :
      (a : Artifact) (o : String) (s : State)
      → s.obj.status.last_applied_revision ≡ revision
      → s.obj.status.last_applied_origin_revision ≡ origin_revision
      → Ended a.revision o (reconcile r env a o s)
  unfolding reconcile
  reconcile-Ended a o s hr ho =
      let s₁ = begins a.revision s hr ho in
      then_cases (Ended a.revision o) _ _ s (λ e q. s₁) λ u q. from_start a o _ s₁

-- If `reconcile` returns no error, the Ready condition is true with the reason
-- ReconciliationSucceeded, and the last applied revisions are those of the artifact that was
-- asked for. If it returns an error, whatever call it arose at, the Ready condition is not true
-- and the last applied revisions are those of before.
pub reconcile_outcome :
    (r : Reconciler) (env : Env)
    → ConditionLaws env.conditions
    → (a : Artifact) (origin_revision : String) (s : State)
    → ByResult
        (Unfinished env s.obj.status.last_applied_revision
          s.obj.status.last_applied_origin_revision)
        (Finished env a.revision origin_revision)
        (reconcile r env a origin_revision s)
reconcile_outcome r env laws a o s = reconcile-Ended r env laws _ _ a o s refl refl
