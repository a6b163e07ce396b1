-- ===== src/Controller/Dependencies/Readiness.antt =====
-- What it means that `checkDependencies` returns no error.
use fork_kustomize_controlle.Prelude.{
  if◌then◌else◌, Bool, true, false, not, ◌&&◌, ◌||◌, List, [], ◌∷◌, ◌≡◌, refl, arith, ◌==◌, eqb,
  inl, inr, ◌⊎◌,
}
use fork_kustomize_controlle.Errors.{Err, Result, ok, err}
use fork_kustomize_controlle.Api.{Kustomization, DependencyReference, ready}
use fork_kustomize_controlle.Controller.{
  Reconciler, direct, NamespacedName, Artifact, History, Env, State, raise, lift, call, attempt,
  ◌>>=◌,
}
use fork_kustomize_controlle.Controller.Frames.Chains.{then_cases}
use fork_kustomize_controlle.Controller.Dependencies.{
  ◌then_result◌, expression_result, dependency_name, same_source, check_read, built_in_check,
  eval_ready_expr, check_dependency, check_each, check_dependencies,
}

Result-cases : {A : Type 0} (x : Result A) → ((e : Err) × (x ≡ err e)) ⊎ ((v : A) × (x ≡ ok v))
Result-cases (ok v) = inr (v, refl)
Result-cases (err e) = inl (e, refl)

module _ (r : Reconciler) (env : Env) (obj : Kustomization) (a : Artifact) where
  -- What the object read for a dependency must satisfy.
  pub record Ready (dep : Kustomization) : Type 0 where
    pub observed : eqb dep.generation dep.status.observed_generation ≡ true
    pub is_ready : env.conditions.is_status_condition_true dep.status.conditions ready ≡ true
    pub up_to_date :
        same_source dep obj ≡ true → env.has_revision a dep.status.last_applied_revision ≡ true

  Ready-built_in_check :
      (name : NamespacedName) (dep : Kustomization)
      → built_in_check r env obj a name dep ≡ ok tt
      → Ready dep
  unfolding built_in_check
  Ready-built_in_check name dep h = record {
    observed = ground (arith, h);
    is_ready = ground (arith, h);
    up_to_date = λ s. ground (arith, h, s);
  }

  -- The built-in check is not left out for the dependency.
  abbrev pub is_checked : DependencyReference → Bool
  is_checked ref = ref.ready_expr == "" || r.additive_cel_dependency_check

  -- What holds of a dependency after the loop: an object was read under its name. Unless the
  -- built-in check is replaced it is ready, and an expression evaluated to true on it.
  pub record Satisfied (ref : DependencyReference) : Type 0 where
    pub history : History
    pub dep : Kustomization
    pub read : env.get_kustomization history direct (dependency_name obj ref) ≡ ok dep
    pub checked : is_checked ref ≡ true → Ready dep
    pub evaluated :
        (ref.ready_expr == "") ≡ false → eval_ready_expr r env ref.ready_expr obj dep ≡ ok true

  abbrev pub AllSatisfied : List DependencyReference → Type 0
  AllSatisfied [] = Unit
  AllSatisfied (ref ∷ refs) = Satisfied ref × AllSatisfied refs

  then_result-eq-ok :
      (m k : Result (Unit {0})) → (m then_result k) ≡ ok tt → (m ≡ ok tt) × (k ≡ ok tt)
  then_result-eq-ok (ok u) k h = (refl, h)
  then_result-eq-ok (err e) k h = cc

  eq-ok-true :
      (name : NamespacedName) (x : Result Bool) → expression_result name x ≡ ok tt → x ≡ ok true
  eq-ok-true name (ok true) h = refl
  eq-ok-true name (ok false) h = cc
  eq-ok-true name (err e) h = cc

  module _ (ref : DependencyReference) (h : History) (dep : Kustomization) where
    abbrev name : NamespacedName
    name = dependency_name obj ref

    Satisfied-check_read :
        env.get_kustomization h direct name ≡ ok dep
        → check_read r env obj a ref name dep ≡ ok tt
        → Satisfied ref
    unfolding check_read
    Satisfied-check_read read passed =
        let (expression, built_in) = then_result-eq-ok evaluation _ passed in
        record {
          history = h;
          dep = dep;
          read = read;
          checked = λ c. Ready-built_in_check name dep (made c built_in);
          evaluated = λ given. eq-ok-true name _ (rw given at expression);
        }
      where
        evaluation : Result (Unit {0})
        evaluation =
            if not (ref.ready_expr == "")
            then expression_result name (eval_ready_expr r env ref.ready_expr obj dep)
            else ok tt

        skipped :
            is_checked ref ≡ true
            → (not (ref.ready_expr == "") && not r.additive_cel_dependency_check) ≡ false
        skipped c = ground (arith, c)

        made :
            is_checked ref ≡ true
            → (if not (ref.ready_expr == "") && not r.additive_cel_dependency_check
                then ok tt
                else built_in_check r env obj a name dep)
              ≡ ok tt
            → built_in_check r env obj a name dep ≡ ok tt
        made c b = rw (skipped c) at b

  Satisfied-check_dependency :
      (ref : DependencyReference) (s : State)
      → (check_dependency r env obj a ref s).0 ≡ ok tt
      → Satisfied ref
  unfolding check_dependency attempt call lift raise ◌>>=◌
  Satisfied-check_dependency ref s passed =
      elim (Result-cases (env.get_kustomization s.history direct (dependency_name obj ref))) [
        | inl (e, failed) ↦ cc (rw failed at passed)
        | inr (dep, read) ↦ Satisfied-check_read ref s.history dep read (rw read at passed)
      ]

  AllSatisfied-check_each :
      (refs : List DependencyReference) (s : State)
      → (check_each r env obj a refs s).0 ≡ ok tt
      → AllSatisfied refs
  unfolding check_each
  AllSatisfied-check_each [] s passed = tt
  AllSatisfied-check_each (ref ∷ refs) s passed =
      then_cases (λ p. p.0 ≡ ok tt → AllSatisfied (ref ∷ refs)) _ _ s (λ e q. λ h. cc)
        (λ u q. λ h. (Satisfied-check_dependency ref s q, AllSatisfied-check_each refs _ h)) passed

  -- If `checkDependencies` returns no error, then for every dependency of the spec an object was
  -- read under its name. Unless a CEL expression stands in its place, the built-in check passed on
  -- that object: its generation is observed, its Ready condition is true and, if it is made from
  -- the same source, it was applied at the revision of the artifact. And the expression, if there
  -- is one, evaluated to true.
  pub check_dependencies-AllSatisfied :
      (s : State) → (check_dependencies r env obj a s).0 ≡ ok tt → AllSatisfied obj.spec.depends_on
  unfolding check_dependencies
  check_dependencies-AllSatisfied s =
      then_cases (λ p. p.0 ≡ ok tt → AllSatisfied obj.spec.depends_on) _ _ s (λ e q. λ h. cc)
        λ u q. AllSatisfied-check_each obj.spec.depends_on _
