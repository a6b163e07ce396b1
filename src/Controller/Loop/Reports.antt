-- ===== src/Controller/Loop/Reports.antt =====
-- What `Reconcile` leaves in the Kustomization when it returns.
use fork_kustomize_controlle.Prelude.{String, true, none, some, ◌≡◌, refl, sym, ◌∙◌, subst}
use fork_kustomize_controlle.Api.{Kustomization, ready, reconciling}
use fork_kustomize_controlle.Controller.{
  Reconciler, Env, ConditionLaws, Effect, History, State, status_of, call, emit, modify, ◌>>=◌,
  ◌>>◌,
}
use fork_kustomize_controlle.Controller.Frames.{Keeps, keeps_rules}
use fork_kustomize_controlle.Controller.Status.{event, patch, final_status, finalize_status}
use fork_kustomize_controlle.Controller.Status.Final.{
  final_status-ready, is_true-final_status, handled-final_status,
}
use fork_kustomize_controlle.Controller.Loop.{
  deferred, report_success, reconcile_from, reconcile_object,
}

module _ (r : Reconciler) (env : Env) where
  abbrev Same : Kustomization → State → Type 0
  Same o s = s.obj ≡ o

  module _ (o : Kustomization) where
    Same-call : {A : Type 0} (e : Effect) (f : History → A) → Keeps (Same o) (call e f)
    unfolding call
    Same-call e f = record { at = λ s h. h }

    Same-emit : (e : Effect) → Keeps (Same o) (emit e)
    unfolding emit
    Same-emit e = Same-call e _

    Same-patch : Keeps (Same o) (patch env)
    unfolding patch
    Same-patch = search (keeps_rules, Same-call)

    Same-report_success : Keeps (Same o) (report_success r env)
    unfolding report_success event
    Same-report_success = search (keeps_rules, Same-emit) depth 12

  obj-finalize_status : (s : State) → (finalize_status env s).1.obj ≡ final_status env s.obj
  unfolding finalize_status ◌>>◌ ◌>>=◌ modify
  obj-finalize_status s = (Same-patch (final_status env s.obj)).at _ refl

  -- The deferred function makes the last changes of the status; what follows leaves them.
  pub obj-reconcile_from :
      (s : State)
      → (reconcile_from r env s).final.obj ≡ final_status env (reconcile_object r env s).1.obj
  unfolding reconcile_from deferred
  obj-reconcile_from s =
      (Same-report_success _).at _ (obj-finalize_status (reconcile_object r env s).1)

-- Whatever way `Reconcile` took, if the Kustomization that it leaves is ready, then there is no
-- Reconciling condition, and the generation that is observed is that of the Kustomization.
pub ready_observed :
    (r : Reconciler) (env : Env)
    → ConditionLaws env.conditions
    → (s : State)
    → env.conditions.is_true (reconcile_from r env s).final.obj.status.conditions ready ≡ true
    → (status_of
          (env.conditions.get (reconcile_from r env s).final.obj.status.conditions reconciling)
        ≡ none)
      × ((reconcile_from r env s).final.obj.status.observed_generation
          ≡ (reconcile_from r env s).final.obj.generation)
ready_observed r env laws s = subst Observed (sym (obj-reconcile_from r env s)) observed
  where
    Observed : Kustomization → Type 0
    Observed o =
        env.conditions.is_true o.status.conditions ready ≡ true
        → (status_of (env.conditions.get o.status.conditions reconciling) ≡ none)
          × (o.status.observed_generation ≡ o.generation)

    observed : Observed (final_status env (reconcile_object r env s).1.obj)
    observed h =
        let (gone, seen, same) =
          final_status-ready env laws _ (sym (is_true-final_status env laws _) ∙ h) in
        (gone, unfold final_status in seen)

-- Whatever way `Reconcile` took, the request in the annotations of the Kustomization that it
-- leaves is recorded as handled.
pub request_handled :
    (r : Reconciler) (env : Env) (s : State) (v : String)
    → env.reconcile_annotation (reconcile_from r env s).final.obj.annotations ≡ some v
    → (reconcile_from r env s).final.obj.status.last_handled_reconcile_at ≡ v
request_handled r env s v = subst Handled (sym (obj-reconcile_from r env s)) handled
  where
    Handled : Kustomization → Type 0
    Handled o =
        env.reconcile_annotation o.annotations ≡ some v → o.status.last_handled_reconcile_at ≡ v

    handled : Handled (final_status env (reconcile_object r env s).1.obj)
    handled h = handled-final_status env _ v (unfold final_status in h)
