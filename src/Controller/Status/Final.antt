-- ===== src/Controller/Status/Final.antt =====
-- What `finalizeStatus` makes of the status before it patches the object.
use fork_kustomize_controlle.Prelude.{
  ◌&&◌, Bool-cases, Option-cases, inl, inr, String, Option, none, some, true, false, ◌≡◌, refl, sym,
  ap, arith, ◌∙◌, ℕ, List,
}
use fork_kustomize_controlle.Api.{
  Kustomization, KustomizationStatus, Condition, ready, reconciling, status_true, status_false,
  ConditionStatus, Reason,
}
use fork_kustomize_controlle.Controller.{Env, ConditionLaws, status_of, has_status}
use fork_kustomize_controlle.Controller.Frames.{ready_true}
use fork_kustomize_controlle.Controller.Status.{
  retrying, final_status, with_request, when_ready, when_failed,
}

module _ (env : Env) (laws : ConditionLaws env.conditions) where
  true_not_false :
      (o : Option (ConditionStatus × Reason))
      → has_status status_true o ≡ true
      → has_status status_false o ≡ false
  true_not_false o h = ground arith

  conditions-with_request :
      (o : Option String) (st : KustomizationStatus)
      → (with_request env o st).conditions ≡ st.conditions
  conditions-with_request none st = refl
  conditions-with_request (some v) st = refl

  -- what `finalizeStatus` leaves of a status whose Ready condition is true
  abbrev when_true : ℕ → KustomizationStatus → KustomizationStatus
  when_true generation st = record st {
    conditions = env.conditions.delete reconciling st.conditions;
    observed_generation = generation;
  }

  steps-ready :
      (g : ℕ) (st : KustomizationStatus)
      → env.conditions.is_true st.conditions ready ≡ true
      → when_failed env (when_ready env g st) ≡ when_true g st
  steps-ready g st h =
      let not_false : env.conditions.is_false (env.conditions.delete reconciling st.conditions)
            ready
          ≡ false =
        laws.is_false-get _ ready
        ∙ rw laws.get-delete (true_not_false _ (sym (laws.is_true-get st.conditions ready) ∙ h)) in
      rw h (rw not_false refl)

  -- A ready object is no longer reconciling: the Reconciling condition is gone, the generation is
  -- observed, and the Ready condition keeps its status and reason.
  pub final_status-ready :
      (obj : Kustomization)
      → env.conditions.is_true obj.status.conditions ready ≡ true
      → let st = (final_status env obj).status in
        (status_of (env.conditions.get st.conditions reconciling) ≡ none)
        × (st.observed_generation ≡ obj.generation)
        × (status_of (env.conditions.get st.conditions ready)
            ≡ status_of (env.conditions.get obj.status.conditions ready))
  unfolding final_status
  final_status-ready obj h =
      let st = with_request env (env.reconcile_annotation obj.annotations) obj.status in
      let same = conditions-with_request (env.reconcile_annotation obj.annotations) obj.status in
      rw (steps-ready obj.generation st (rw same h))
        (rw laws.get-delete refl, refl, rw laws.get-delete (rw same refl))

  is_true-retrying :
      (cs : List Condition)
      → ready_true env.conditions (retrying env cs) ≡ ready_true env.conditions cs
  is_true-retrying cs = elim (Option-cases (env.conditions.get cs reconciling)) [
    | inl absent ↦ rw absent refl
    | inr (c, found) ↦ rw found (rw laws.get-set (rw (laws.type-get cs reconciling c found) refl))
  ]

  is_true-when_failed :
      (st : KustomizationStatus)
      → ready_true env.conditions (when_failed env st).conditions
        ≡ ready_true env.conditions st.conditions
  is_true-when_failed st =
      elim (Bool-cases (
        env.conditions.is_false st.conditions ready
        && env.conditions.has st.conditions reconciling)) [
          | inl both ↦ rw both (is_true-retrying st.conditions)
          | inr other ↦ rw other refl
        ]

  is_true-when_ready :
      (g : ℕ) (st : KustomizationStatus)
      → ready_true env.conditions (when_ready env g st).conditions
        ≡ ready_true env.conditions st.conditions
  is_true-when_ready g st = elim (Bool-cases (env.conditions.is_true st.conditions ready)) [
    | inl here ↦ rw here (rw laws.get-delete refl)
    | inr other ↦ rw other refl
  ]

  pub is_true-final_status :
      (obj : Kustomization)
      → env.conditions.is_true (final_status env obj).status.conditions ready
        ≡ env.conditions.is_true obj.status.conditions ready
  unfolding final_status
  is_true-final_status obj =
      let o = env.reconcile_annotation obj.annotations in
      laws.is_true-get _ ready
      ∙ is_true-when_failed _
      ∙ is_true-when_ready obj.generation _
      ∙ ap (ready_true env.conditions) (conditions-with_request o obj.status)
      ∙ sym (laws.is_true-get _ ready)

module _ (env : Env) where
  handled-when_ready :
      (g : ℕ) (st : KustomizationStatus)
      → (when_ready env g st).last_handled_reconcile_at ≡ st.last_handled_reconcile_at
  handled-when_ready g st = elim (Bool-cases (env.conditions.is_true st.conditions ready)) [
    | inl here ↦ rw here refl
    | inr other ↦ rw other refl
  ]

  handled-when_failed :
      (st : KustomizationStatus)
      → (when_failed env st).last_handled_reconcile_at ≡ st.last_handled_reconcile_at
  handled-when_failed st =
      elim (Bool-cases (
        env.conditions.is_false st.conditions ready
        && env.conditions.has st.conditions reconciling)) [
          | inl both ↦ rw both refl
          | inr other ↦ rw other refl
        ]

  pub handled-final_status :
      (obj : Kustomization) (v : String)
      → env.reconcile_annotation obj.annotations ≡ some v
      → (final_status env obj).status.last_handled_reconcile_at ≡ v
  unfolding final_status
  handled-final_status obj v h =
      handled-when_failed _ ∙ handled-when_ready obj.generation _ ∙ rw h refl
