-- ===== src/Controller/Applying.antt =====
-- `apply`, and `HasChanged` of internal/controller/utils.go.
pub mod Refusal
use fork_kustomize_controlle.Prelude.{
  on_option, String, Bool, true, false, not, ◌&&◌, ◌||◌, Option, none, some, List, [], ◌∷◌, ◌++◌,
  map, any, select, ◌==◌, is_empty, if◌then◌else◌,
}
use fork_kustomize_controlle.Errors.{
  Err, Arg, str, Message, Result, err, wrapf, errorf, sprintf₁, nil, arg, Args,
}
use fork_kustomize_controlle.Api.{
  Labels, Kustomization, CommonMetadata, IgnoreRule, disabled_value, enabled_value, merge_value,
  if_not_present_value, ignore_value,
}
use fork_kustomize_controlle.Objects.{Unstructured, ChangeSetEntry, Action, skipped, unchanged}
use fork_kustomize_controlle.Controller.{
  Reconciler, ApplyOptions, FieldManager, apply_operation, update_operation, applied, get_label,
  info_severity, Outcome, Env, Exec, pure, raise, lift, call, get_obj, when, ◌>>=◌, ◌>>◌,
}
use fork_kustomize_controlle.Controller.Status.{event}

-- `HasChanged`
unfoldable pub has_changed : Action → Bool
has_changed skipped = false
has_changed unchanged = false
has_changed _ = true

-- `IsEncryptedSecret` and `IsDecryptionDisabled` of internal/decryptor/decryptor.go
unfoldable pub is_encrypted_secret : Env → Unstructured → Bool
is_encrypted_secret env u = u.kind == "Secret" && (env.objects.api_version u == "v1" && u.has_sops)

-- a missing annotation, or a nil map, gives the empty text
unfoldable pub is_decryption_disabled : Env → Labels → Bool
is_decryption_disabled env annotations =
    not (is_empty annotations)
    && env.equal_fold (get_label "kustomize.toolkit.fluxcd.io/decrypt" annotations) disabled_value

-- The objects for which `apply` returns an error before it applies anything.
abbrev pub is_refused : Env → Unstructured → Bool
is_refused env u = is_encrypted_secret env u && not (is_decryption_disabled env u.annotations)

-- The fields managed by kubectl and by the managers that are disallowed are taken back.
unfoldable disallowed : List String → List FieldManager
disallowed [] = []
disallowed (m ∷ ms) =
    record { name = m; operation_type = apply_operation }
    ∷ record { name = m; operation_type = update_operation }
    ∷ disallowed ms

unfoldable pub field_managers : Reconciler → List FieldManager
unfolding disallowed
field_managers r =
    record { name = "kubectl"; operation_type = apply_operation }
    ∷ record { name = "kubectl"; operation_type = update_operation }
    ∷ record { name = "before-first-apply"; operation_type = update_operation }
    ∷ record { name = r.controller_name; operation_type = update_operation }
    ∷ disallowed r.disallowed_field_managers

module _ (r : Reconciler) (env : Env) where
  abbrev rules_or : List IgnoreRule → List IgnoreRule → List IgnoreRule
  rules_or [] default = default
  rules_or (i ∷ is) default = i ∷ is

  unfoldable pub apply_options : Kustomization → ApplyOptions
  unfolding field_managers
  apply_options obj = record {
    force = obj.spec.force;
    exclusion_selector =
        ("kustomize.toolkit.fluxcd.io/reconcile", disabled_value)
        ∷ ("kustomize.toolkit.fluxcd.io/ssa", ignore_value)
        ∷ [];
    if_not_present_selector = ("kustomize.toolkit.fluxcd.io/ssa", if_not_present_value) ∷ [];
    force_selector = ("kustomize.toolkit.fluxcd.io/force", enabled_value) ∷ [];
    custom_stage_kinds = r.custom_stage_kinds;
    migrate_api_version = r.migrate_api_version;
    drift_ignore_rules = rules_or obj.spec.ignore env.default_apply_options.drift_ignore_rules;
    cleanup_annotations =
        "kubectl.kubernetes.io/last-applied-configuration" ∷ "kustomize.toolkit.fluxcd.io/checksum"
        ∷ "fluxcd.io/sync-checksum" ∷ [];
    cleanup_labels = "fluxcd.io/sync-gc-mark" ∷ [];
    cleanup_field_managers = field_managers r;
    cleanup_exclusions = ("kustomize.toolkit.fluxcd.io/ssa", merge_value) ∷ [];
  }

  abbrev with_common_metadata : Option CommonMetadata → List Unstructured → List Unstructured
  with_common_metadata none us = us
  with_common_metadata (some m) us = env.set_common_metadata m.labels m.annotations us

  -- The loop that refuses encrypted secrets: the error is about the first one.
  unfoldable pub refuse_encrypted : List Unstructured → Result (Unit {0})
  refuse_encrypted [] = Result.ok tt
  refuse_encrypted (u ∷ us) =
      let rest = refuse_encrypted us in
      if is_refused env u
      then err (
          errorf (
            sprintf₁
              "%s is SOPS encrypted, configuring decryption is required for this secret to be reconciled"
              (env.format_unstructured u)))
      else rest

  -- The lines of the change log, one for each entry that changed something.
  unfoldable pub change_log : List ChangeSetEntry → List String
  unfolding has_changed
  change_log entries = map (λ e. env.format_entry e) (select (λ e. has_changed e.action) entries)

  abbrev pub log_args : List String → Args
  log_args [] = nil
  log_args (l ∷ ls) = arg (str l) (log_args ls)

  -- the lines, each but the last with a line break behind it
  abbrev pub log_message : List String → Message
  log_message ls = Arg.printf "%s" (log_args ls)

  -- `applyLog == ""`: there is no line, or one empty line, whose line break is trimmed
  abbrev pub is_blank : List String → Bool
  is_blank [] = true
  is_blank (l ∷ []) = l == ""
  is_blank (l ∷ m ∷ ls) = false

  abbrev pub entries_or_none : Option (List ChangeSetEntry) → List ChangeSetEntry
  entries_or_none none = []
  entries_or_none (some es) = es

  -- `ApplyAllStaged` is called if there are objects. With its error the log of what was changed
  -- so far is returned.
  unfoldable pub apply_objects : Kustomization → List Unstructured → Exec (List ChangeSetEntry)
  unfolding change_log
  apply_objects obj [] = pure []
  apply_objects obj (u ∷ us) = do
    out ←
        call (applied (u ∷ us) (apply_options obj))
          (λ h. env.apply_all_staged h (u ∷ us) (apply_options obj))
    let entries = entries_or_none out.value
    on_option out.error (pure entries) (λ e. raise (wrapf (log_message (change_log entries)) e))

  -- `apply`: whether something was logged, and the change set.
  unfoldable pub apply : String → String → List Unstructured → Exec (Bool × List ChangeSetEntry)
  unfolding refuse_encrypted apply_objects change_log
  apply revision origin_revision objects = do
    obj ← get_obj
    normal ← lift (env.normalize objects)
    let us = with_common_metadata obj.spec.common_metadata normal
    lift (refuse_encrypted us)
    entries ← apply_objects obj us
    let log = change_log entries
    when (not (is_blank log))
        (event env revision origin_revision info_severity (log_message log) [])
    pure (not (is_blank log), entries)
