-- ===== src/Controller/Sources.antt =====
-- `getSource`, `getOriginRevision`, and the predicate on source updates.
pub mod Access
use fork_kustomize_controlle.Prelude.{
  String, Bool, true, false, not, ◌&&◌, ◌||◌, Option, none, some, ◌==◌, if◌then◌else◌, is_some,
}
use fork_kustomize_controlle.Errors.{
  Err, Arg, Args, Result, ok, err, wrapf, errorf, access_denied, sprintf₁, sprintf₂, sprintf₃, nil,
  arg,
}
use fork_kustomize_controlle.Api.{Kustomization}
use fork_kustomize_controlle.Controller.{
  Reconciler, Reader, cached, direct, NamespacedName, Source, Artifact, get_label, got_source, Env,
  Exec, pure, raise, lift, call, attempt, ◌>>=◌,
}

abbrev pub oci_repository_kind : String
oci_repository_kind = "OCIRepository"

abbrev pub git_repository_kind : String
git_repository_kind = "GitRepository"

abbrev pub bucket_kind : String
bucket_kind = "Bucket"

abbrev pub external_artifact_kind : String
external_artifact_kind = "ExternalArtifact"

unfoldable pub source_namespace : Kustomization → String
source_namespace obj =
    if not (obj.spec.source_ref.namespace == "")
    then obj.spec.source_ref.namespace
    else obj.namespace

unfoldable pub source_name : Kustomization → NamespacedName
source_name obj = record { namespace = source_namespace obj; name = obj.spec.source_ref.name }

-- the text of a `NamespacedName`
abbrev pub name_arg : NamespacedName → Arg
name_arg n = sprintf₂ "%s/%s" n.namespace n.name

-- The kinds of the cases of the `switch`.
abbrev pub is_source_kind : String → Bool
is_source_kind k =
    k == oci_repository_kind
    || (k == git_repository_kind || (k == bucket_kind || k == external_artifact_kind))

module _ (r : Reconciler) (env : Env) where
  abbrev pub source_reader : Reader
  source_reader = if r.direct_source_fetch then direct else cached

  -- One case of the `switch`; the four differ in the type of the object alone.
  unfoldable pub read_source : String → NamespacedName → Exec Source
  read_source kind name =
      attempt
        (call (got_source source_reader kind name) (λ h. env.get_source h source_reader kind name)
          >>= lift)
        λ e.
          if env.is_not_found e
          then raise e
          else raise (wrapf (printf₁ "unable to get source '%s'" name) e)
    where
      printf₁ : String → NamespacedName → Arg
      printf₁ f n = Arg.printf f (arg (name_arg n) nil)

  unfoldable pub get_source : Kustomization → Exec Source
  unfolding read_source source_namespace source_name
  get_source obj =
      let kind = obj.spec.source_ref.kind in
      if r.no_cross_namespace_refs && not (source_namespace obj == obj.namespace)
      then raise (
          access_denied (
            Arg.printf "can't access '%s/%s', cross-namespace references have been blocked"
              (arg (Arg.str kind) (arg (name_arg (source_name obj)) nil))))
      else if kind == external_artifact_kind && not r.allow_external_artifact
      then raise (
          access_denied (
            Arg.printf "can't access '%s/%s', ExternalArtifact feature gate is disabled"
              (arg (Arg.str kind) (arg (name_arg (source_name obj)) nil))))
      else if is_source_kind kind
      then read_source kind (source_name obj)
      else raise
          (errorf (sprintf₂ "source `%s` kind '%s' not supported" obj.spec.source_ref.name kind))

  -- `getOriginRevision`
  unfoldable pub get_origin_revision : Source → String
  get_origin_revision src = elim src.artifact [
    | none ↦ ""
    | some a ↦ get_label "org.opencontainers.image.revision" a.metadata
  ]

  -- `Update` of SourceRevisionChangePredicate (internal/controller/source_predicate.go). An object
  -- that is nil or no source is `none`.
  unfoldable pub update : Option Source → Option Source → Bool
  update none new = false
  update (some old) none = false
  update (some old) (some new) = artifacts old.artifact new.artifact
    where
      artifacts : Option Artifact → Option Artifact → Bool
      artifacts none none = false
      artifacts none (some b) = true
      artifacts (some a) none = false
      artifacts (some a) (some b) = not (env.has_revision a b.revision)
