-- ===== src/Controller/Reconciliation/Collection.antt =====
-- What `prune` makes of an object that the old inventory tracked, for each answer of `DeleteAll`.
use fork_kustomize_controlle.Prelude.{
  Bool, true, false, not, none, some, List, [], ◌∷◌, ◌≡◌, refl, sym, ◌∙◌, map, subst, ◌⊎◌, inl, inr,
  if◌then◌else◌, contains, string_eq, Bool-cases, Option-cases, any,
}
use fork_kustomize_controlle.Errors.{Err, Result, ok, err}
use fork_kustomize_controlle.Api.{ResourceInventory}
use fork_kustomize_controlle.Objects.{
  ObjMetadata, Unstructured, ObjectLaws, ChangeSetEntry, same_metadata,
}
use fork_kustomize_controlle.Inventory.{diff, merge, ids, object_ref}
use fork_kustomize_controlle.Inventory.Tracking.{tracks}
use fork_kustomize_controlle.Controller.{
  Reconciler, deleted_all, Env, Outcome, ConditionLaws, State, Exec, failing, attempt, mark, ◌>>=◌,
  ◌>>◌, modify_status, modify_conditions, pure,
}
use fork_kustomize_controlle.Controller.Frames.{WideFrame, Keeps, Keeps-bind, keeps_rules}
use fork_kustomize_controlle.Controller.Frames.Stages.{
  Keeps-recording, Keeps-prune, Keeps-prune_result,
}
use fork_kustomize_controlle.Controller.Pruning.{
  settled_ids, entries_of, prune, prune_result, delete_objects, delete_options, Pruned,
  nothing_pruned, prune_survivors,
}
use fork_kustomize_controlle.Controller.Pruning.Survivors.{is_settled, contains-settled_ids}
use fork_kustomize_controlle.Controller.Reconciliation.{
  snapshot_of, Build, prune_stage, retrack, recording, upsert,
}
use fork_kustomize_controlle.Controller.Reconciliation.Garbage.{
  Accounted, tracked, collected, unreadable, Collected, moved, Collected-wide, among_stale,
  merge_keeps, merge-tracks, contains-survivors, parse-to_string_of_tracks,
}

if-not-true {ℓ} : {A : Type ℓ} (b : Bool) (x y : A) → b ≡ true → (if not b then x else y) ≡ y
if-not-true true x y h = refl
if-not-true false x y h = cc

module _ (r : Reconciler) (env : Env) (laws : ObjectLaws env.objects)
    (claws : ConditionLaws env.conditions) (m : ObjMetadata) where
  abbrev Tracked : State → Type 0
  Tracked s = tracks env.objects (snapshot_of s.obj.status.inventory).entries m ≡ true

  Tracked-wide : WideFrame env.conditions Tracked
  Tracked-wide = record {
    frame = record {
      quiet = λ s e q t. t;
      conditions = λ s f b t. t;
      others = λ s st k t. rw (← k.inventory) t;
    };
    effect = λ s e t. t;
  }

  Tracked-retrack : (b : Build) (p : Pruned) → Keeps Tracked (retrack r env b p)
  unfolding retrack
  Tracked-retrack b p =
      search (keeps_rules, remerged, Keeps-recording r env claws Tracked-wide.frame)
    where
      remerged :
          (us : List Unstructured)
          → Keeps Tracked
              (modify_status (λ st. record st { inventory = merge env.objects st.inventory us }))
      remerged us = record {
        at = λ s t. unfold modify_status in merge_keeps env.objects s.obj.status.inventory us m t;
      }

  Collected-retrack : (b : Build) (p : Pruned) → Keeps (Collected env m) (retrack r env b p)
  unfolding retrack
  Collected-retrack b p =
      search (keeps_rules, remerged, Keeps-recording r env claws (Collected-wide env m).frame)
    where
      remerged :
          (us : List Unstructured)
          → Keeps
              (Collected env m)
              (modify_status (λ st. record st { inventory = merge env.objects st.inventory us }))
      remerged us = record { at = λ s t. unfold modify_status in moved env s _ t t.later t.called }

  -- An object that the new inventory tracks stays tracked.
  Tracked-prune_stage :
      (b : Build) (old : ResourceInventory) → Keeps Tracked (prune_stage r env b old)
  unfolding prune_stage
  Tracked-prune_stage b old =
      search
        (
          keeps_rules,
          Tracked-retrack,
          Keeps-recording r env claws Tracked-wide.frame,
          Keeps-prune r env claws Tracked-wide,
        )
        depth 12

  module _ (b : Build) (old target : ResourceInventory) (us : List Unstructured) (s : State) where
    abbrev out : Outcome (List ChangeSetEntry)
    out = env.delete_all s.history us (delete_options env s.obj)

    abbrev asked : State
    asked = record s { history = deleted_all us (delete_options env s.obj) ∷ s.history }

    abbrev pruned : Exec (Unit {0})
    pruned =
        (delete_objects env s.obj us >>= prune_result env b.revision b.origin_revision us)
        >>= retrack r env b

    -- Once the object is collected, what follows leaves that so.
    Collected-after : Collected env m asked → Accounted env old m (pruned s).1
    unfolding ◌>>=◌ delete_objects
    Collected-after c = collected (
        (Keeps-bind _ _
            (Keeps-prune_result r env claws (Collected-wide env m).frame b.revision
              b.origin_revision us out)
            (Collected-retrack b)).at
          asked c)

    -- With an error and without an entry that settles the object, it is tracked again.
    retracked :
        (e : Err)
        → out.error ≡ some e
        → s.obj.status.inventory ≡ some target
        → env.objects.parse (env.objects.to_string m) ≡ ok m
        → contains
            (env.objects.to_string m)
            (ids (map (object_ref env.objects) (prune_survivors env.objects us out.value)))
          ≡ true
        → Accounted env old m (pruned s).1
    unfolding ◌>>=◌ delete_objects prune_result retrack recording upsert failing attempt mark ◌>>◌
        modify_status modify_conditions
    retracked e failed i p survives = tracked (
        rw failed (
          simp i (
            merge-tracks env.objects target (prune_survivors env.objects us out.value) m p
              survives)))

    -- A stale object after the call of `DeleteAll`, for each answer.
    after_delete :
        s.obj.status.inventory ≡ some target
        → env.objects.parse (env.objects.to_string m) ≡ ok m
        → any (λ u. same_metadata (env.objects.metadata_of u) m) us ≡ true
        → Accounted env old m (pruned s).1
    unfolding prune_survivors
    after_delete i p among = elim (Option-cases out.error) [
      | inl none_failed ↦ Collected-after (settled_by (inl none_failed))
      | inr (e, failed) ↦
          elim (Bool-cases
            (contains (env.objects.to_string m) (settled_ids env.objects (entries_of out.value)))) [
              | inl done ↦ Collected-after (
                  settled_by
                    (inr (sym (contains-settled_ids env.objects (entries_of out.value) _) ∙ done)))
              | inr open_still ↦
                  retracked e failed i p (contains-survivors env.objects _ m us among open_still)
            ]
    ]
      where
        settled_by :
            (out.error ≡ none)
              ⊎ (is_settled env.objects (entries_of out.value) (env.objects.to_string m) ≡ true)
            → Collected env m asked
        settled_by how = record {
          before = s.history;
          objects = us;
          options = delete_options env s.obj;
          later = [];
          called = refl;
          among = among;
          settled = how;
        }

  module _ (b : Build) (old target : ResourceInventory) (s : State)
      (i : s.obj.status.inventory ≡ some target) (p : s.obj.spec.prune ≡ true)
      (o : tracks env.objects old.entries m ≡ true) where
    prune_stage_error :
        (e : Err)
        → diff env.objects old (snapshot_of s.obj.status.inventory) ≡ err e
        → Accounted env old m (prune_stage r env b old s).1
    unfolding prune_stage recording upsert failing attempt mark ◌>>=◌ ◌>>◌ modify_status
        modify_conditions
    prune_stage_error e d = rw d (unreadable e d)

    prune_stage_ok :
        (us : List Unstructured)
        → diff env.objects old (snapshot_of s.obj.status.inventory) ≡ ok us
        → Accounted env old m
            (((if not s.obj.spec.prune
                  then pure (nothing_pruned env)
                  else (delete_objects env s.obj us
                      >>= prune_result env b.revision b.origin_revision us))
                >>= retrack r env b)
              s).1
        → Accounted env old m (prune_stage r env b old s).1
    unfolding prune_stage prune recording attempt ◌>>=◌
    prune_stage_ok us d h = rw d h

    pub prune_stage-Accounted : Accounted env old m (prune_stage r env b old s).1
    prune_stage-Accounted = elim (Bool-cases (tracks env.objects target.entries m)) [
      | inl now ↦ tracked ((Tracked-prune_stage b old).at s (rw i now))
      | inr stale ↦ by_diff (diff env.objects old (snapshot_of s.obj.status.inventory)) refl stale
    ]
      where
        by_diff :
            (d : Result (List Unstructured))
            → diff env.objects old (snapshot_of s.obj.status.inventory) ≡ d
            → tracks env.objects target.entries m ≡ false
            → Accounted env old m (prune_stage r env b old s).1
        by_diff (err e) d stale = prune_stage_error e d
        by_diff (ok us) d stale = prune_stage_ok us d (
            subst (λ k. Accounted env old m ((k >>= retrack r env b) s).1)
              (sym (if-not-true s.obj.spec.prune _ _ p))
              (after_delete b old target us s i
                (parse-to_string_of_tracks env.objects laws old.entries m o)
                (among_stale env laws old (snapshot_of s.obj.status.inventory) us m d o
                  (rw i stale))))
