-- ===== src/Examples/Laws.antt =====
-- The laws of the concrete libraries.
use fork_kustomize_controlle.Prelude.{
  String, Bool, true, false, not, ◌&&◌, Option, none, some, List, [], ◌∷◌, ◌≡◌, refl, sym, ap, ◌∙◌,
  arith, ◌==◌, any, any-select, contains, beq_refl, string_eq, if◌then◌else◌, Bool-cases, inl, inr,
}
use fork_kustomize_controlle.Api.{
  Condition, ConditionType, Reason, status_true, ready, healthy, reconciling, stalled,
}
use fork_kustomize_controlle.Errors.{ok, ok-injective}
use fork_kustomize_controlle.Objects.{
  ObjMetadata, ObjectLaws, same_metadata, same_metadata_iff, metadata_eq,
}
use fork_kustomize_controlle.Controller.{ConditionLaws, FinalizerLaws, same_type, status_of}
use fork_kustomize_controlle.Examples.{
  sample_objects, sample_conditions, sample_finalizers, find_condition, drop_condition,
  put_condition, condition, sample_metadata,
}

same_type-cong : (a b u : ConditionType) → same_type a b ≡ true → same_type a u ≡ same_type b u
same_type-cong ready ready u h = refl
same_type-cong healthy healthy u h = refl
same_type-cong reconciling reconciling u h = refl
same_type-cong stalled stalled u h = refl
same_type-cong _ _ u h = cc

same_type_sym : (a b : ConditionType) → same_type a b ≡ same_type b a
same_type_sym a b = ground arith

same_type-disjoint :
    (a b u : ConditionType) → same_type a b ≡ false → (same_type a u && same_type b u) ≡ false
same_type-disjoint a b u h = elim (Bool-cases (same_type a u)) [
  | inl here ↦ rw here (swapped b (sym (same_type-cong a u b here) ∙ h))
  | inr other ↦ rw other refl
]
  where
    swapped : (b : ConditionType) → same_type u b ≡ false → same_type b u ≡ false
    swapped b h = same_type_sym b u ∙ h

same_type_eq : (a b : ConditionType) → same_type a b ≡ true → a ≡ b
same_type_eq ready ready h = refl
same_type_eq healthy healthy h = refl
same_type_eq reconciling reconciling h = refl
same_type_eq stalled stalled h = refl
same_type_eq _ _ h = cc

find-drop :
    (t u : ConditionType) (cs : List Condition)
    → find_condition (drop_condition t cs) u ≡ (if same_type t u then none else find_condition cs u)
find-drop t u [] = ground arith
find-drop t u (c ∷ cs) = elim (Bool-cases (same_type c.type t)) [
  | inl same ↦ rw same (rw (same_type-cong c.type t u same) (ground (arith, find-drop t u cs)))
  | inr other ↦ rw other (ground (arith, find-drop t u cs, same_type-disjoint c.type t u other))
]

pub condition_laws : ConditionLaws sample_conditions
condition_laws = record {
  get-mark = λ s t u r m cs. put_lem (condition s t r m) u cs;
  get-mark_reconciling = λ u r m cs.
      put_lem (condition status_true reconciling r m) u (drop_condition stalled cs)
      ∙ dropped reconciling stalled u r cs;
  get-mark_stalled = λ u r m cs.
      put_lem (condition status_true stalled r m) u (drop_condition reconciling cs)
      ∙ dropped stalled reconciling u r cs;
  get-delete = λ t u cs. ap status_of (find-drop t u cs) ∙ status_of-if (same_type t u) _;
  get-set = put_lem;
  type-get = type-find;
  is_true-get = λ cs t. refl;
  is_false-get = λ cs t. refl;
  has-get = λ cs t. refl;
}
  where
    put_lem :
        (c : Condition) (u : ConditionType) (cs : List Condition)
        → status_of (find_condition (put_condition c cs) u) ≡ (
            if same_type c.type u
            then some (c.status, c.reason)
            else status_of (find_condition cs u))
    put_lem c u cs = ground (arith, find-drop c.type u cs)

    status_of-if :
        (b : Bool) (o : Option Condition)
        → status_of (if b then none else o) ≡ (if b then none else status_of o)
    status_of-if true o = refl
    status_of-if false o = refl

    dropped :
        (t d u : ConditionType) (r : Reason) (cs : List Condition)
        → (if same_type t u
            then some (status_true, r)
            else status_of (find_condition (drop_condition d cs) u))
          ≡ (if same_type t u
              then some (status_true, r)
              else if same_type d u
              then none
              else status_of (find_condition cs u))
    dropped t d u r cs = rw (find-drop d u cs) (
        ap (λ o. if same_type t u then some (status_true, r) else o)
          (status_of-if (same_type d u) _))

    type-find :
        (cs : List Condition) (t : ConditionType) (c : Condition)
        → find_condition cs t ≡ some c
        → c.type ≡ t
    type-find [] t c h = cc
    type-find (x ∷ cs) t c h = elim (Bool-cases (same_type x.type t)) [
      | inl same ↦ let e : x ≡ c = cc (rw same at h) in rw (← e) (same_type_eq x.type t same)
      | inr other ↦ type-find cs t c (rw other at h)
    ]

pub object_laws : ObjectLaws sample_objects
object_laws = record {
  parse-to_string =
      λ s m h. ap (λ n. ok (sample_metadata n)) (ap (λ x. x.name) (sym (ok-injective h))) ∙ h;
  metadata_of_lem = λ u. refl;
  contains-set_diff = λ m xs ys. any-select _ _ xs ∙ split_off m ys xs;
  any-sort = λ p us. refl;
}
  where
    split_off :
        (m : ObjMetadata) (ys xs : List ObjMetadata)
        → any (λ x. not (contains x ys) && same_metadata x m) xs
          ≡ (contains m xs && not (contains m ys))
    split_off m ys [] = refl
    split_off m ys (x ∷ xs) = elim (Bool-cases (same_metadata x m)) [
      | inl same ↦ rw ((same_metadata_iff x m).0 same) (ground (arith, split_off m ys xs))
      | inr other ↦ rw other (ground (arith, split_off m ys xs))
    ]

pub finalizer_laws : FinalizerLaws sample_finalizers
finalizer_laws = record {
  contains-add = λ fs f. rw (beq_refl f) refl;
  contains-remove = λ fs f. any-select _ _ fs ∙ none_left f fs;
}
  where
    none_left : (f : String) (fs : List String) → any (λ g. not (g == f) && g == f) fs ≡ false
    none_left f [] = refl
    none_left f (g ∷ fs) = ground (arith, none_left f fs)
