-- ===== src/Controller/Reconciliation/Garbage.antt =====
-- The way of an object that the inventory tracked through `reconcile`: what is meant by its being
-- accounted for, and the lemmas on the survivors and the stale objects.
use fork_kustomize_controlle.Prelude.{
  String, true, false, not, Option, none, some, List, [], ◌∷◌, ◌++◌, map, ◌≡◌, refl, sym, ap, ◌∙◌,
  arith, ◌⊎◌, inl, inr, any, select, subst, contains, string_eq, eq_iff, Bool-cases, ◌==◌,
}
use fork_kustomize_controlle.Errors.{Err, Result, ok, err}
use fork_kustomize_controlle.Api.{ResourceInventory, ResourceRef}
use fork_kustomize_controlle.Objects.{
  ObjMetadata, Unstructured, ObjectApi, ObjectLaws, same_metadata, same_metadata_iff,
}
use fork_kustomize_controlle.Inventory.{ids, version_of, diff, merge, object_ref}
use fork_kustomize_controlle.Inventory.Tracking.{tracks, is_parse_of}
use fork_kustomize_controlle.Inventory.Merging.{merge_adds}
use fork_kustomize_controlle.Inventory.Difference.{diff-eq-ok, is_object}
use fork_kustomize_controlle.Controller.{Effect, deleted_all, DeleteOptions, History, Env, State}
use fork_kustomize_controlle.Controller.Frames.{WideFrame}
use fork_kustomize_controlle.Controller.Pruning.{entries_of}
use fork_kustomize_controlle.Controller.Pruning.Survivors.{is_settled}
use fork_kustomize_controlle.Controller.Reconciliation.{snapshot_of}

-- the inventory tracks an object whose printed id it has
tracks_of_contains :
    (api : ObjectApi) (es : List ResourceRef) (m : ObjMetadata)
    → api.parse (api.to_string m) ≡ ok m
    → contains (api.to_string m) (ids es) ≡ true
    → tracks api es m ≡ true
tracks_of_contains api [] m p h = cc
tracks_of_contains api (e ∷ es) m p h = elim (Bool-cases (e.id == api.to_string m)) [
  | inl same ↦
      rw ((eq_iff e.id (api.to_string m)).0 same) (rw p (rw ((same_metadata_iff m m).1 refl) refl))
  | inr other ↦ ground (arith, tracks_of_contains api es m p (ground (arith, h, other)))
]

-- an object that is tracked has an id that its metadata print to
pub parse-to_string_of_tracks :
    (api : ObjectApi) (laws : ObjectLaws api) (es : List ResourceRef) (m : ObjMetadata)
    → tracks api es m ≡ true
    → api.parse (api.to_string m) ≡ ok m
parse-to_string_of_tracks api laws [] m h = cc
parse-to_string_of_tracks api laws (e ∷ es) m h =
    elim (Bool-cases (is_parse_of (api.parse e.id) m)) [
      | inl same ↦ laws.parse-to_string e.id m (parsed (api.parse e.id) same)
      | inr other ↦ parse-to_string_of_tracks api laws es m (ground (arith, other, h))
    ]
  where
    parsed : (r : Result ObjMetadata) → is_parse_of r m ≡ true → r ≡ ok m
    parsed (ok m') same = ap (λ x. ok x) ((same_metadata_iff m' m).0 same)
    parsed (err e) same = cc

module _ (env : Env) where
  -- The object was among those of a call of `DeleteAll`, which returned no error, or reported the
  -- object as deleted or skipped.
  pub record Collected (m : ObjMetadata) (s : State) : Type 0 where
    pub before : History
    pub objects : List Unstructured
    pub options : DeleteOptions
    pub later : History
    pub called : s.history ≡ later ++ (deleted_all objects options ∷ before)
    pub among : any (λ u. same_metadata (env.objects.metadata_of u) m) objects ≡ true
    pub settled :
        ((env.delete_all before objects options).error ≡ none)
        ⊎ (is_settled env.objects
              (entries_of (env.delete_all before objects options).value)
              (env.objects.to_string m)
            ≡ true)

  -- What becomes of an object that the old inventory tracked.
  pub data Accounted (old : ResourceInventory) (m : ObjMetadata) (s : State) : Type 0 where
    tracked :
        tracks env.objects (snapshot_of s.obj.status.inventory).entries m ≡ true → Accounted old m s
    collected : Collected m s → Accounted old m s
    -- an id of the old or of the new inventory could not be parsed
    unreadable :
        (e : Err)
        → diff env.objects old (snapshot_of s.obj.status.inventory) ≡ err e
        → Accounted old m s

  -- the same deletion, seen from another state
  pub moved :
      {m : ObjMetadata} (s t : State) (c : Collected m s) (later : History)
      → t.history ≡ later ++ (deleted_all c.objects c.options ∷ c.before)
      → Collected m t
  moved s t c later e = record {
    before = c.before;
    objects = c.objects;
    options = c.options;
    later = later;
    called = e;
    among = c.among;
    settled = c.settled;
  }

  -- Only the history matters to it.
  pub Collected-wide : (m : ObjMetadata) → WideFrame env.conditions (Collected m)
  Collected-wide m = record {
    frame = record {
      quiet = λ s e q c. moved s _ c (e ∷ c.later) (ap (λ h. e ∷ h) c.called);
      conditions = λ s f b c. moved s _ c c.later c.called;
      others = λ s st k c. moved s _ c c.later c.called;
    };
    effect = λ s e c. moved s _ c (e ∷ c.later) (ap (λ h. e ∷ h) c.called);
  }

  pub Accounted-wide :
      (old : ResourceInventory) (m : ObjMetadata) → WideFrame env.conditions (Accounted old m)
  Accounted-wide old m = record {
    frame = record {
      quiet = λ s e q a. added s e a;
      conditions = λ s f b a. same s _ a refl refl;
      others = λ s st k a. same s _ a refl k.inventory;
    };
    effect = added;
  }
    where
      added :
          (s : State) (e : Effect)
          → Accounted old m s
          → Accounted old m (record s { history = e ∷ s.history })
      added s e (tracked h) = tracked h
      added s e (unreadable x h) = unreadable x h
      added s e (collected c) = collected (moved s _ c (e ∷ c.later) (ap (λ h. e ∷ h) c.called))

      same :
          (s t : State)
          → Accounted old m s
          → t.history ≡ s.history
          → s.obj.status.inventory ≡ t.obj.status.inventory
          → Accounted old m t
      same s t (tracked h) eh ei = tracked (rw (← ei) h)
      same s t (unreadable x h) eh ei = unreadable x (rw (← ei) h)
      same s t (collected c) eh ei = collected (moved s t c c.later (eh ∙ c.called))

-- an object that is not settled is among those that are tracked again
pub contains-survivors :
    (api : ObjectApi) (settled : List String) (m : ObjMetadata) (us : List Unstructured)
    → any (λ u. same_metadata (api.metadata_of u) m) us ≡ true
    → contains (api.to_string m) settled ≡ false
    → contains (api.to_string m) (
        ids (
          map
            (object_ref api)
            (select (λ u. not (contains (api.to_string (api.metadata_of u)) settled)) us)))
      ≡ true
contains-survivors api settled m [] h new = cc
contains-survivors api settled m (u ∷ us) h new =
    elim (Bool-cases (same_metadata (api.metadata_of u) m)) [
      | inl same ↦
          let e = (same_metadata_iff (api.metadata_of u) m).0 same in
          rw e (rw new (ground (arith, eq_iff (api.to_string m) (api.to_string m), e)))
      | inr other ↦
          ground (arith, contains-survivors api settled m us (ground (arith, other, h)) new)
    ]

tracks-append :
    (api : ObjectApi) (xs ys : List ResourceRef) (m : ObjMetadata)
    → tracks api xs m ≡ true
    → tracks api (xs ++ ys) m ≡ true
tracks-append api [] ys m h = cc
tracks-append api (x ∷ xs) ys m h = elim (Bool-cases (is_parse_of (api.parse x.id) m)) [
  | inl same ↦ rw same refl
  | inr other ↦ rw other (tracks-append api xs ys m (ground (arith, other, h)))
]

-- What was tracked before a merge is tracked after it.
pub merge_keeps :
    (api : ObjectApi) (o : Option ResourceInventory) (us : List Unstructured) (m : ObjMetadata)
    → tracks api (snapshot_of o).entries m ≡ true
    → tracks api (snapshot_of (merge api o us)).entries m ≡ true
unfolding merge
merge_keeps api none us m h = h
merge_keeps api (some inv) us m h =
    let (more, e, _) = merge_adds api inv us in
    subst (λ o. tracks api (snapshot_of o).entries m ≡ true) (sym e)
      (tracks-append api inv.entries more m h)

-- The objects that are merged into an inventory are tracked.
pub merge-tracks :
    (api : ObjectApi) (inv : ResourceInventory) (us : List Unstructured) (m : ObjMetadata)
    → api.parse (api.to_string m) ≡ ok m
    → contains (api.to_string m) (ids (map (object_ref api) us)) ≡ true
    → tracks api (snapshot_of (merge api (some inv) us)).entries m ≡ true
merge-tracks api inv us m p h =
    let (more, e, members) = merge_adds api inv us in
    subst (λ o. tracks api (snapshot_of o).entries m ≡ true) (sym e)
      (tracks_of_contains api (inv.entries ++ more) m p
        (members (api.to_string m) ∙ ground (arith, h)))

module _ (env : Env) (laws : ObjectLaws env.objects) where
  any_weaken :
      (v : String) (m : ObjMetadata) (us : List Unstructured)
      → any (is_object env.objects laws m v) us ≡ true
      → any (λ u. same_metadata (env.objects.metadata_of u) m) us ≡ true
  any_weaken v m [] h = cc
  any_weaken v m (u ∷ us) h = elim (Bool-cases (same_metadata (env.objects.metadata_of u) m)) [
    | inl same ↦ rw same refl
    | inr other ↦ rw other (any_weaken v m us (rw other at h))
  ]

  -- A stale object is among those that `Diff` returns.
  pub among_stale :
      (old target : ResourceInventory) (us : List Unstructured) (m : ObjMetadata)
      → diff env.objects old target ≡ ok us
      → tracks env.objects old.entries m ≡ true
      → tracks env.objects target.entries m ≡ false
      → any (λ u. same_metadata (env.objects.metadata_of u) m) us ≡ true
  among_stale old target us m d o t =
      any_weaken (version_of env.objects old.entries m) m us
        (diff-eq-ok env.objects laws old target us m d ∙ ground (arith, o, t))
