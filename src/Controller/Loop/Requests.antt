-- ===== src/Controller/Loop/Requests.antt =====
-- How `Reconcile` asks for the next attempt.
use fork_kustomize_controlle.Prelude.{
  on_option, if◌then◌else◌, String, Bool, [], true, false, not, ◌&&◌, Option, none, some, ◌≡◌, refl,
}
use fork_kustomize_controlle.Errors.{Err, Result, Arg, ok, err, terminal}
use fork_kustomize_controlle.Api.{Kustomization, access_denied}
use fork_kustomize_controlle.Api.Defaults.{get_retry_interval, get_requeue_after}
use fork_kustomize_controlle.Controller.{
  Reconciler, Artifact, Source, Requeue, error_severity, at_once, after, Env, State, Exec, pure,
  raise, get_obj, ◌>>=◌, ◌>>◌,
}
use fork_kustomize_controlle.Controller.Frames.Chains.{bind_cases, then_cases, if_cases}
use fork_kustomize_controlle.Controller.Status.{event}
use fork_kustomize_controlle.Controller.Loop.{
  stall, uses_account, add_finalizer, invalid_health_checks, source_failed, artifact_missing,
  dependencies_failed, health_canceled, broadcast, reconcile_failed, reconciled,
  dependencies_checked, reconcile_artifact, source_resolved, reconcile_active, reconcile_object,
}

-- The Kustomization is not forgotten: there is an error, or a requeue, which is at once or after one
-- of the intervals that are configured, for the controller or in the Kustomization that is left.
pub data Scheduled (r : Reconciler) (env : Env) (p : Result Requeue × State) : Type 0 where
  failed : (e : Err) → p.0 ≡ err e → Scheduled r env p
  again : p.0 ≡ ok at_once → Scheduled r env p
  at_dependency : p.0 ≡ ok (after r.dependency_requeue_interval) → Scheduled r env p
  at_retry : p.0 ≡ ok (after (get_retry_interval p.1.obj)) → Scheduled r env p
  at_interval : p.0 ≡ ok (after (env.jitter (get_requeue_after p.1.obj))) → Scheduled r env p

module _ (r : Reconciler) (env : Env) where
  record Retries (m : Exec Requeue) : Type 0 where
    at : (s : State) → Scheduled r env (m s)

  Retries-raise : (e : Err) → Retries (raise e)
  unfolding raise
  Retries-raise e = record { at = λ s. failed e refl }

  Retries-at_once : Retries (pure at_once)
  unfolding pure
  Retries-at_once = record { at = λ s. again refl }

  Retries-at_dependency : Retries (pure (after r.dependency_requeue_interval))
  unfolding pure
  Retries-at_dependency = record { at = λ s. at_dependency refl }

  Retries-get :
      (f : Kustomization → Exec Requeue)
      → ((s : State) → Scheduled r env (f s.obj s))
      → Retries (get_obj >>= f)
  unfolding get_obj ◌>>=◌
  Retries-get f h = record { at = h }

  Retries-at_retry : Retries (get_obj >>= λ obj. pure (after (get_retry_interval obj)))
  unfolding pure
  Retries-at_retry = Retries-get _ (λ s. at_retry refl)

  Retries-at_interval :
      Retries (get_obj >>= λ obj. pure (after (env.jitter (get_requeue_after obj))))
  unfolding pure
  Retries-at_interval = Retries-get _ (λ s. at_interval refl)

  Retries-if :
      (b : Bool) (m n : Exec Requeue) → Retries m → Retries n → Retries (if b then m else n)
  Retries-if true m n km kn = km
  Retries-if false m n km kn = kn

  Retries-unless :
      (b : Bool) (m n : Exec Requeue) → b ≡ false → Retries n → Retries (if b then m else n)
  Retries-unless true m n e kn = cc
  Retries-unless false m n e kn = kn

  Retries-on_option :
      {A : Type 0} (o : Option A) (m : Exec Requeue) (f : A → Exec Requeue)
      → Retries m
      → ((a : A) → Retries (f a))
      → Retries (on_option o m f)
  Retries-on_option none m f km kf = km
  Retries-on_option (some a) m f km kf = kf a

  Retries-bind :
      {A : Type 0} (m : Exec A) (f : A → Exec Requeue)
      → ((a : A) → Retries (f a))
      → Retries (m >>= f)
  Retries-bind m f kf = record {
    at = λ s. bind_cases (Scheduled r env) m f s (λ e q. failed e refl) (λ a q. (kf a).at _);
  }

  Retries-then : {A : Type 0} (m : Exec A) (k : Exec Requeue) → Retries k → Retries (m >> k)
  Retries-then m k kk = record {
    at = λ s. then_cases (Scheduled r env) m k s (λ e q. failed e refl) (λ a q. kk.at _);
  }

ruleset retries = (
  Retries-raise, Retries-at_once, Retries-at_dependency, Retries-at_retry, Retries-at_interval,
  Retries-if, Retries-on_option, Retries-bind, Retries-then,
)

module _ (r : Reconciler) (env : Env) where
  Retries-reconcile_failed : (v o : String) (e : Err) → Retries r env (reconcile_failed r env v o e)
  unfolding reconcile_failed artifact_missing health_canceled broadcast
  Retries-reconcile_failed v o e = search retries depth 12

  Retries-reconciled :
      (v o : String) (x : Result (Unit {0})) → Retries r env (reconciled r env v o x)
  unfolding reconciled
  Retries-reconciled v o (ok u) = Retries-at_interval r env
  Retries-reconciled v o (err e) = Retries-reconcile_failed v o e

  Retries-dependencies_checked :
      (a : Artifact) (o : String) (x : Result (Unit {0}))
      → Retries r env (dependencies_checked r env a o x)
  unfolding dependencies_checked dependencies_failed
  Retries-dependencies_checked a o (ok u) = search (retries, Retries-reconciled)
  Retries-dependencies_checked a o (err e) = search retries depth 12

  Retries-source_failed : (e : Err) → Retries r env (source_failed r env e)
  unfolding source_failed pure
  Retries-source_failed e = Retries-then r env _ _ (
      Retries-get r env _ (λ s.
        if_cases (Scheduled r env) (env.is_not_found e) _ _ s (λ q. at_retry refl)
          (λ q. (refused s).at s)))
    where
      refused :
          (s : State)
          → Retries r env (
              if env.is_access_denied e
              then (stall r env access_denied (Arg.error e)
                  >> (event env "" "" error_severity (Arg.error e) [] >> raise (terminal e)))
              else raise e)
      refused s = search retries depth 12

  Retries-source_resolved : (x : Result Source) → Retries r env (source_resolved r env x)
  unfolding source_resolved artifact_missing reconcile_artifact
  Retries-source_resolved (ok src) = search (retries, Retries-dependencies_checked) depth 12
  Retries-source_resolved (err e) = Retries-source_failed e

  Retries-reconcile_active :
      (obj : Kustomization)
      → (uses_account obj.spec.decryption && not env.workload_identity_enabled) ≡ false
      → Retries r env (reconcile_active r env obj)
  unfolding reconcile_active invalid_health_checks
  Retries-reconcile_active obj g = rw g (search (retries, Retries-source_resolved) depth 12)

  Retries-add_finalizer : Retries r env (add_finalizer r env)
  unfolding add_finalizer
  Retries-add_finalizer = search retries

  -- `Reconcile` of a Kustomization that is neither being deleted nor suspended, and whose
  -- decryption does not need a feature that is off, does not forget it, whatever fails on the way:
  -- it returns an error, or asks for a requeue at once, after the interval of the dependencies, after
  -- the Kustomization's retry interval, or after its interval with jitter. An error is retried
  -- unless it is terminal, and a requeue happens where its interval is positive.
  pub reconcile_object-Scheduled :
      (s : State)
      → s.obj.deleting ≡ false
      → s.obj.spec.suspend ≡ false
      → (uses_account s.obj.spec.decryption && not env.workload_identity_enabled) ≡ false
      → Scheduled r env (reconcile_object r env s)
  unfolding reconcile_object ◌>>=◌ get_obj
  reconcile_object-Scheduled s d p g =
      (Retries-unless r env s.obj.deleting _ _ d (
          Retries-if r env _ _ _ Retries-add_finalizer
            (Retries-unless r env s.obj.spec.suspend _ _ p (Retries-reconcile_active s.obj g)))).at
        s
