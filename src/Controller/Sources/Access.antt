-- ===== src/Controller/Sources/Access.antt =====
-- What `getSource` reads, and what it does not.
use fork_kustomize_controlle.Prelude.{
  if◌then◌else◌, eq_iff, String, Bool, true, false, not, ◌&&◌, ◌≡◌, arith, ◌==◌,
}
use fork_kustomize_controlle.Errors.{Err, Result, ok, err}
use fork_kustomize_controlle.Api.{Kustomization}
use fork_kustomize_controlle.Controller.{
  NamespacedName, Reconciler, Source, Env, State, raise, lift, call, attempt, handle, ◌>>=◌,
}
use fork_kustomize_controlle.Controller.Frames.Chains.{if_cases}
use fork_kustomize_controlle.Controller.Sources.{
  get_source, source_namespace, source_name, source_reader, read_source, is_source_kind,
  external_artifact_kind,
}

-- What holds of a source that was returned.
pub record Allowed (r : Reconciler) (env : Env) (obj : Kustomization) (s : State) (src : Source)
    : Type 0 where
  pub namespace : r.no_cross_namespace_refs ≡ true → source_namespace obj ≡ obj.namespace
  pub external :
      obj.spec.source_ref.kind ≡ external_artifact_kind → r.allow_external_artifact ≡ true
  pub kind : is_source_kind obj.spec.source_ref.kind ≡ true
  pub answer :
      env.get_source s.history (source_reader r env) obj.spec.source_ref.kind (source_name obj)
      ≡ ok src

-- A handler that only raises makes no value.
handle-eq-ok :
    (x : Result Source) (b : Err → Bool) (f g : Err → Err) (s : State) (src : Source)
    → (handle x (λ e. if b e then raise (f e) else raise (g e)) s).0 ≡ ok src
    → x ≡ ok src
unfolding raise
handle-eq-ok (ok a) b f g s src h = h
handle-eq-ok (err e) b f g s src h = raised (b e) h
  where
    raised : (c : Bool) → ((if c then raise (f e) else raise (g e)) s).0 ≡ ok src → err e ≡ ok src
    raised true t = cc
    raised false t = cc

module _ (r : Reconciler) (env : Env) where
  read_source-eq-ok :
      (kind : String) (name : NamespacedName) (s : State) (src : Source)
      → (read_source r env kind name s).0 ≡ ok src
      → env.get_source s.history (source_reader r env) kind name ≡ ok src
  unfolding read_source attempt call lift ◌>>=◌
  read_source-eq-ok kind name s src h = handle-eq-ok _ env.is_not_found _ _ _ src h

  -- A source that `getSource` returns is in the namespace of the Kustomization, if references to
  -- others are blocked; is no ExternalArtifact, if the feature is off; is of a kind that is
  -- supported; and is what the API server answers, through the reader that is configured, when it
  -- is asked for the name in the spec.
  pub get_source-Allowed :
      (obj : Kustomization) (s : State) (src : Source)
      → (get_source r env obj s).0 ≡ ok src
      → Allowed r env obj s src
  unfolding get_source raise
  get_source-Allowed obj s src =
      let kind = obj.spec.source_ref.kind in
      if_cases Returned (r.no_cross_namespace_refs && not (source_namespace obj == obj.namespace))
        (raise _) _ s raised
        λ local.
          if_cases Returned (kind == external_artifact_kind && not r.allow_external_artifact)
            (raise _) _ s raised
            λ enabled.
              if_cases Returned (is_source_kind kind) (read_source r env kind (source_name obj))
                (raise _) s
                (λ known h. record {
                  namespace =
                      λ b. ground (arith, local, b, eq_iff (source_namespace obj) obj.namespace);
                  external = λ k. ground (arith, enabled, eq_iff kind external_artifact_kind, k);
                  kind = known;
                  answer = read_source-eq-ok kind (source_name obj) s src h;
                })
                raised
    where
      Returned : Result Source × State → Type 0
      Returned p = p.0 ≡ ok src → Allowed r env obj s src

      raised : {b c : Bool} {e : Err} → b ≡ c → err e ≡ ok src → Allowed r env obj s src
      raised t h = cc
