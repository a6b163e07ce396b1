-- ===== src/Controller/Frames/Stages.antt =====
-- Frames and the stages of `reconcile` and of `finalize`; wide frames for the apply and the deletion.
use fork_kustomize_controlle.Prelude.{String, Bool, Option, none, some, List, [], ◌∷◌, refl}
use fork_kustomize_controlle.Errors.{Err, Arg}
use fork_kustomize_controlle.Api.{Kustomization, Reason}
use fork_kustomize_controlle.Objects.{Unstructured, ChangeSetEntry}
use fork_kustomize_controlle.Controller.{
  Reconciler, Artifact, Env, ConditionLaws, Severity, State, Exec, Outcome, Effect, History,
  modify_status, call,
}
use fork_kustomize_controlle.Controller.Frames.{
  Frame, WideFrame, Keeps, Keeps-then, Keeps-bind, Keeps-modify_status, keeps_rules,
}
use fork_kustomize_controlle.Controller.Frames.Calls.{
  Keeps-event, Keeps-patch, Keeps-failing, Keeps-mark_unknown, Keeps-build_client, Keeps-generate,
  Keeps-build, Keeps-check_health,
}
use fork_kustomize_controlle.Controller.Applying.{apply, apply_objects}
use fork_kustomize_controlle.Controller.Pruning.{delete_objects, prune, prune_report, prune_result}
use fork_kustomize_controlle.Controller.Reconciliation.{
  Build, upsert, recording, status_update, progress, start, fetch, prepare, health_failed,
  health_stage,
}
use fork_kustomize_controlle.Controller.Finalizing.{
  final_event, wait_terminated, report_deleted, delete_managed, finalize_resources,
  delete_cache_events,
}

module _ (r : Reconciler) (env : Env) (laws : ConditionLaws env.conditions) {P : State → Type 0}
    (frame : Frame env.conditions P) where
  Keeps-upsert : (b : Build) (x : Reason) → Keeps P (upsert r env b x)
  unfolding upsert
  Keeps-upsert b x = Keeps-modify_status frame _ (λ st. record {
    conditions = refl;
    inventory = refl;
    revision = refl;
    origin_revision = refl;
  })

  pub Keeps-recording :
      {A : Type 0} (b : Build) (x : Reason) (m : Exec A)
      → Keeps P m
      → Keeps P (recording r env b x m)
  unfolding recording
  Keeps-recording b x m km = search (keeps_rules, Keeps-upsert, Keeps-failing r env laws frame)

  Keeps-status_update : Keeps P (status_update r env)
  unfolding status_update
  Keeps-status_update = search (keeps_rules, Keeps-patch r env laws frame)

  pub Keeps-progress : (f v : String) → Keeps P (progress r env f v)
  unfolding progress
  Keeps-progress f v = search (keeps_rules, Keeps-status_update, frame, laws)

  pub Keeps-start : (v : String) → Keeps P (start r env v)
  unfolding start
  Keeps-start v = search (keeps_rules, Keeps-progress, Keeps-mark_unknown r env laws frame)

  pub Keeps-fetch : (a : Artifact) (d : String) → Keeps P (fetch r env a d)
  unfolding fetch
  Keeps-fetch a d = search (keeps_rules, frame, Keeps-failing r env laws frame) depth 20

  Keeps-attempted :
      (v : String) → Keeps P (modify_status (λ st. record st { last_attempted_revision = v }))
  Keeps-attempted v = Keeps-modify_status frame _ (λ st. record {
    conditions = refl;
    inventory = refl;
    revision = refl;
    origin_revision = refl;
  })

  pub Keeps-prepare : (v t d : String) → Keeps P (prepare r env v t d)
  unfolding prepare
  Keeps-prepare v t d =
      search
        (
          keeps_rules,
          Keeps-attempted,
          Keeps-progress,
          Keeps-failing r env laws frame,
          Keeps-build_client r env laws frame,
          Keeps-generate r env laws frame,
          Keeps-build r env laws frame,
        )
        depth 30

  Keeps-health_failed : (b : Build) (e : Err) → Keeps P (health_failed r env b e)
  unfolding health_failed
  Keeps-health_failed b e = search (keeps_rules, Keeps-recording)

  pub Keeps-health_stage :
      (a : Artifact) (b : Build) (d : Bool) (es : List ChangeSetEntry) (us : List Unstructured)
      → Keeps P (health_stage r env a b d es us)
  unfolding health_stage
  Keeps-health_stage a b d es us =
      search (keeps_rules, Keeps-health_failed, Keeps-check_health r env laws frame)

  Keeps-prune_report :
      (a b : String) (o : Option (List ChangeSetEntry)) → Keeps P (prune_report env a b o)
  unfolding prune_report
  Keeps-prune_report a b none = search keeps_rules
  Keeps-prune_report a b (some []) = search keeps_rules
  Keeps-prune_report a b (some (e ∷ es)) = search (keeps_rules, Keeps-event r env laws frame)

  pub Keeps-prune_result :
      (a b : String) (us : List Unstructured) (out : Outcome (List ChangeSetEntry))
      → Keeps P (prune_result env a b us out)
  unfolding prune_result
  Keeps-prune_result a b us out = search (keeps_rules, Keeps-prune_report)

  Keeps-final_event :
      (obj : Kustomization) (s : Severity) (m : Arg) → Keeps P (final_event r env obj s m)
  unfolding final_event
  Keeps-final_event obj s m = search (Keeps-event r env laws frame)

  Keeps-wait_terminated :
      (obj : Kustomization) (es : List ChangeSetEntry) → Keeps P (wait_terminated r env obj es)
  unfolding wait_terminated
  Keeps-wait_terminated obj es = search (keeps_rules, frame, Keeps-final_event) depth 12

  Keeps-report_deleted :
      (obj : Kustomization) (o : Option (List ChangeSetEntry))
      → Keeps P (report_deleted r env obj o)
  unfolding report_deleted
  Keeps-report_deleted obj none = search keeps_rules
  Keeps-report_deleted obj (some []) = search keeps_rules
  Keeps-report_deleted obj (some (e ∷ es)) =
      Keeps-then _ _ (Keeps-final_event obj _ _) (Keeps-wait_terminated obj _)

  pub Keeps-delete_cache_events : (ops : List String) → Keeps P (delete_cache_events r env ops)
  unfolding delete_cache_events
  Keeps-delete_cache_events [] = search keeps_rules
  Keeps-delete_cache_events (op ∷ ops) =
      Keeps-then _ _ (search (keeps_rules, frame)) (Keeps-delete_cache_events ops)

module _ (r : Reconciler) (env : Env) (laws : ConditionLaws env.conditions) {P : State → Type 0}
    (wide : WideFrame env.conditions P) where
  Keeps-effect : {A : Type 0} (e : Effect) (f : History → A) → Keeps P (call e f)
  unfolding call
  Keeps-effect e f = record { at = λ s p. wide.effect s e p }

  Keeps-apply_objects :
      (obj : Kustomization) (us : List Unstructured) → Keeps P (apply_objects r env obj us)
  unfolding apply_objects
  Keeps-apply_objects obj [] = search keeps_rules
  Keeps-apply_objects obj (u ∷ us) = Keeps-bind _ _ (Keeps-effect _ _) (search keeps_rules)

  pub Keeps-apply : (a b : String) (us : List Unstructured) → Keeps P (apply r env a b us)
  unfolding apply
  Keeps-apply a b us =
      search (keeps_rules, Keeps-apply_objects, Keeps-event r env laws wide.frame) depth 12

  pub Keeps-delete_objects :
      (obj : Kustomization) (us : List Unstructured) → Keeps P (delete_objects env obj us)
  unfolding delete_objects
  Keeps-delete_objects obj us = Keeps-effect _ _

  pub Keeps-prune :
      (obj : Kustomization) (a b : String) (us : List Unstructured) → Keeps P (prune env obj a b us)
  unfolding prune
  Keeps-prune obj a b us =
      search (keeps_rules, Keeps-delete_objects, Keeps-prune_result r env laws wide.frame)

  Keeps-delete_managed :
      (obj : Kustomization) (us : List Unstructured) → Keeps P (delete_managed r env obj us)
  unfolding delete_managed
  Keeps-delete_managed obj us =
      search
        (
          keeps_rules,
          Keeps-delete_objects,
          Keeps-build_client r env laws wide.frame,
          Keeps-report_deleted r env laws wide.frame,
          Keeps-final_event r env laws wide.frame,
        )
        depth 12

  pub Keeps-finalize_resources : (obj : Kustomization) → Keeps P (finalize_resources r env obj)
  unfolding finalize_resources
  Keeps-finalize_resources obj =
      search (keeps_rules, Keeps-delete_managed, Keeps-final_event r env laws wide.frame)
