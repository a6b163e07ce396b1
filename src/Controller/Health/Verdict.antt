-- ===== src/Controller/Health/Verdict.antt =====
-- The Healthy condition after `checkHealth`.
use fork_kustomize_controlle.Prelude.{
  String, Bool, true, false, none, some, List, ◌≡◌, ◌⊎◌, inl, inr, if◌then◌else◌,
}
use fork_kustomize_controlle.Errors.{Err, Result, ok, err, Message}
use fork_kustomize_controlle.Api.{Kustomization, healthy, status_true, succeeded}
use fork_kustomize_controlle.Objects.{ObjMetadata, ChangeSetEntry}
use fork_kustomize_controlle.Controller.{
  Reconciler, Env, ConditionLaws, Effect, History, State, Exec, status_of, attempt, raise, call,
  mark, modify_conditions, modify_status, modify, ◌>>=◌, ◌>>◌,
}
use fork_kustomize_controlle.Controller.Frames.{Keeps, keeps_rules}
use fork_kustomize_controlle.Controller.Frames.Chains.{bind_cases, then_cases, ByResult}
use fork_kustomize_controlle.Controller.Status.{patch}
use fork_kustomize_controlle.Controller.Health.{check_health, delete_healthy, wait_healthy}

module _ (r : Reconciler) (env : Env) (laws : ConditionLaws env.conditions) where
  -- There is no Healthy condition, or it is true because the checks succeeded.
  abbrev pub Verdict : State → Type 0
  Verdict s =
      (status_of (env.conditions.get s.obj.status.conditions healthy) ≡ none)
      ⊎ (status_of (env.conditions.get s.obj.status.conditions healthy)
          ≡ some (status_true, succeeded))

  abbrev pub Anything : State → Type 0
  Anything s = Unit

  abbrev pub Judged : {A : Type 0} → Result A × State → Type 0
  Judged = ByResult Anything Verdict

  Verdict-delete_healthy : (s : State) → Judged (delete_healthy r env s)
  unfolding delete_healthy modify_conditions modify_status modify
  Verdict-delete_healthy s = inl (laws.get-delete healthy healthy _)

  Verdict-call : {A : Type 0} (e : Effect) (f : History → A) → Keeps Verdict (call e f)
  unfolding call
  Verdict-call e f = record { at = λ s h. h }

  Verdict-patch : Keeps Verdict (patch env)
  unfolding patch
  Verdict-patch = search (keeps_rules, Verdict-call)

  Judged-of : (p : Result (Unit {0}) × State) → Verdict p.1 → Judged p
  Judged-of (ok u, s) v = v
  Judged-of (err e, s) v = tt

  -- the last two statements
  Judged-last :
      (m : Message) (f : Err → Err) (s : State)
      → Judged
          ((mark env status_true healthy succeeded m >> attempt (patch env) (λ e. raise (f e))) s)
  unfolding mark modify_conditions modify_status modify
  Judged-last m f s =
      then_cases Judged _ _ s (λ e q. tt)
        λ u q.
          Judged-of _ (patched.at _ (inr (laws.get-mark status_true healthy healthy succeeded m _)))
    where
      patched : Keeps Verdict (attempt (patch env) (λ e. raise (f e)))
      patched = search (keeps_rules, Verdict-patch)

  Judged-wait_healthy :
      (obj : Kustomization) (a b : String) (n : Bool) (os js : List ObjMetadata) (s : State)
      → Judged (wait_healthy r env obj a b n os js s)
  unfolding wait_healthy
  Judged-wait_healthy obj a b n os js s =
      then_cases Judged _ _ s (λ e q. tt)
        λ u q.
          then_cases Judged _ _ _ (λ e q. tt)
            λ u q.
              then_cases Judged _ _ _ (λ e q. tt)
                λ u q.
                  bind_cases Judged _ _ _ (λ e q. tt)
                    λ failure q.
                      then_cases Judged _ _ _ (λ e q. tt)
                        λ u q. then_cases Judged _ _ _ (λ e q. tt) λ u q. Judged-last _ _ _

  record Judges (m : Exec (Unit {0})) : Type 0 where
    at : (s : State) → Judged (m s)

  Judges-if : (b : Bool) (m n : Exec (Unit {0})) → Judges m → Judges n → Judges (if b then m else n)
  Judges-if true m n jm jn = jm
  Judges-if false m n jm jn = jn

  Judges-bind :
      {A : Type 0} (m : Exec A) (f : A → Exec (Unit {0}))
      → ((a : A) → Judges (f a))
      → Judges (m >>= f)
  Judges-bind m f jf = record { at = λ s. bind_cases Judged m f s (λ e q. tt) (λ a q. (jf a).at _) }

  Judges-delete_healthy : Judges (delete_healthy r env)
  Judges-delete_healthy = record { at = Verdict-delete_healthy }

  Judges-wait_healthy :
      (obj : Kustomization) (a b : String) (n : Bool) (os js : List ObjMetadata)
      → Judges (wait_healthy r env obj a b n os js)
  Judges-wait_healthy obj a b n os js = record { at = Judged-wait_healthy obj a b n os js }

  Judges-check_health :
      (v o : String) (n d : Bool) (es : List ChangeSetEntry) (js : List ObjMetadata)
      → Judges (check_health r env v o n d es js)
  unfolding check_health
  Judges-check_health v o n d es js =
      search (Judges-if, Judges-bind, Judges-delete_healthy, Judges-wait_healthy) depth 12

  -- If `checkHealth` returns no error, the Healthy condition of the Kustomization is gone, or it is
  -- true because the checks succeeded, whatever it was before.
  pub check_health-Verdict :
      (revision origin_revision : String) (is_new_revision drifted : Bool)
      (entries : List ChangeSetEntry) (jobs : List ObjMetadata) (s : State)
      → Judged (check_health r env revision origin_revision is_new_revision drifted entries jobs s)
  check_health-Verdict v o n d es js s = (Judges-check_health v o n d es js).at s
