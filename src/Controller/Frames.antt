-- ===== src/Controller/Frames.antt =====
-- What the methods leave alone. A frame is a predicate on the state that does not depend on the
-- quiet effects, nor on changes of the status other than its inventory, its applied revisions and
-- a Ready condition that becomes true.
pub mod Calls
pub mod Stages
pub mod Chains
use fork_kustomize_controlle.Prelude.{
  on_option, Bool, true, false, if◌then◌else◌, Option, none, some, List, ◌∷◌, ◌≡◌, refl, arith,
}
use fork_kustomize_controlle.Errors.{Err, Arg, Message, Result, ok, err}
use fork_kustomize_controlle.Api.{
  Kustomization, KustomizationStatus, Condition, ConditionType, ConditionStatus, Reason, ready,
  status_true, status_false, status_unknown, healthy, reconciling, stalled,
}
use fork_kustomize_controlle.Controller.{
  Effect, Env, ConditionApi, ConditionLaws, History, status_of, has_status, applied, deleted_all,
  State, Exec, pure, raise, lift, call, emit, check, attempt, outcome, when, handle, continue,
  get_obj, get_state, modify, modify_status, modify_conditions, mark, failing, ◌>>=◌, ◌>>◌,
}

-- The effects that change objects in the cluster.
abbrev pub is_mutation : Effect → Bool
is_mutation (applied us opts) = true
is_mutation (deleted_all us opts) = true
is_mutation _ = false

abbrev pub ready_true : ConditionApi → List Condition → Bool
ready_true api cs = has_status status_true (status_of (api.get cs ready))

-- The change does not make Ready true.
pub record Benign (api : ConditionApi) (f : List Condition → List Condition) : Type 0 where
  pub at : (cs : List Condition) → ready_true api cs ≡ false → ready_true api (f cs) ≡ false

pub record SameCore (a b : KustomizationStatus) : Type 0 where
  pub conditions : a.conditions ≡ b.conditions
  pub inventory : a.inventory ≡ b.inventory
  pub revision : a.last_applied_revision ≡ b.last_applied_revision
  pub origin_revision : a.last_applied_origin_revision ≡ b.last_applied_origin_revision

abbrev pub with_status : KustomizationStatus → State → State
with_status st s = record s { obj = record s.obj { status = st } }

pub record Frame (api : ConditionApi) (P : State → Type 0) : Type 0 where
  pub quiet :
      (s : State) (e : Effect)
      → is_mutation e ≡ false
      → P s
      → P (record s { history = e ∷ s.history })
  pub conditions :
      (s : State) (f : List Condition → List Condition)
      → Benign api f
      → P s
      → P (with_status (record s.obj.status { conditions = f s.obj.status.conditions }) s)
  pub others :
      (s : State) (st : KustomizationStatus) → SameCore s.obj.status st → P s → P (with_status st s)

-- A frame that the applies and the deletions keep too.
pub record WideFrame (api : ConditionApi) (P : State → Type 0) : Type 0 where
  pub frame : Frame api P
  pub effect : (s : State) (e : Effect) → P s → P (record s { history = e ∷ s.history })

pub record Keeps (P : State → Type 0) {A : Type 0} (m : Exec A) : Type 0 where
  pub at : (s : State) → P s → P (m s).1

module _ {P : State → Type 0} {A : Type 0} where
  pub Keeps-pure : (a : A) → Keeps P (pure a)
  unfolding pure
  Keeps-pure a = record { at = λ s h. h }

  pub Keeps-raise : (e : Err) → Keeps P (raise {A = A} e)
  unfolding raise
  Keeps-raise e = record { at = λ s h. h }

  pub Keeps-lift : (r : Result A) → Keeps P (lift r)
  unfolding lift
  Keeps-lift r = record { at = λ s h. h }

  pub Keeps-if : (b : Bool) (m n : Exec A) → Keeps P m → Keeps P n → Keeps P (if b then m else n)
  Keeps-if true m n km kn = km
  Keeps-if false m n km kn = kn

  pub Keeps-on_option :
      {B : Type 0} (o : Option B) (m : Exec A) (f : B → Exec A)
      → Keeps P m
      → ((b : B) → Keeps P (f b))
      → Keeps P (on_option o m f)
  Keeps-on_option none m f km kf = km
  Keeps-on_option (some b) m f km kf = kf b

  Keeps-handle :
      (r : Result A) (h : Err → Exec A) → ((e : Err) → Keeps P (h e)) → Keeps P (handle r h)
  Keeps-handle (ok a) h kh = record { at = λ s p. p }
  Keeps-handle (err e) h kh = kh e

  pub Keeps-attempt :
      (m : Exec A) (h : Err → Exec A)
      → Keeps P m
      → ((e : Err) → Keeps P (h e))
      → Keeps P (attempt m h)
  unfolding attempt
  Keeps-attempt m h km kh = record {
    at = λ s p. let (r, s') = m s in (Keeps-handle r h kh).at s' (km.at s p);
  }

  pub Keeps-outcome : (m : Exec A) → Keeps P m → Keeps P (outcome m)
  unfolding outcome
  Keeps-outcome m km = record { at = λ s p. km.at s p }

module _ {P : State → Type 0} {A B : Type 0} where
  Keeps-continue :
      (r : Result A) (f : A → Exec B) → ((a : A) → Keeps P (f a)) → Keeps P (continue r f)
  Keeps-continue (ok a) f kf = kf a
  Keeps-continue (err e) f kf = record { at = λ s p. p }

  pub Keeps-bind :
      (m : Exec A) (f : A → Exec B) → Keeps P m → ((a : A) → Keeps P (f a)) → Keeps P (m >>= f)
  unfolding ◌>>=◌
  Keeps-bind m f km kf = record {
    at = λ s p. let (r, s') = m s in (Keeps-continue r f kf).at s' (km.at s p);
  }

  pub Keeps-then : (m : Exec A) (k : Exec B) → Keeps P m → Keeps P k → Keeps P (m >> k)
  unfolding ◌>>◌
  Keeps-then m k km kk = Keeps-bind m (λ a. k) km (λ a. kk)

module _ {P : State → Type 0} where
  pub Keeps-get_obj : Keeps P get_obj
  unfolding get_obj
  Keeps-get_obj = record { at = λ s h. h }

  pub Keeps-get_state : Keeps P get_state
  unfolding get_state
  Keeps-get_state = record { at = λ s h. h }

  pub Keeps-check : (e : Option Err) → Keeps P (check e)
  unfolding check
  Keeps-check none = Keeps-pure tt
  Keeps-check (some e) = Keeps-raise e

  pub Keeps-when : (b : Bool) (m : Exec (Unit {0})) → Keeps P m → Keeps P (when b m)
  unfolding when
  Keeps-when true m km = record { at = λ s p. km.at s p }
  Keeps-when false m km = record { at = λ s p. p }

module _ {api : ConditionApi} {P : State → Type 0} (frame : Frame api P) where
  pub Keeps-call :
      {A : Type 0} (e : Effect) (f : History → A) → is_mutation e ≡ false → Keeps P (call e f)
  unfolding call
  Keeps-call e f q = record { at = λ s p. frame.quiet s e q p }

  pub Keeps-emit : (e : Effect) → is_mutation e ≡ false → Keeps P (emit e)
  unfolding emit
  Keeps-emit e q = Keeps-call e _ q

  pub Keeps-modify_conditions :
      (f : List Condition → List Condition) → Benign api f → Keeps P (modify_conditions f)
  unfolding modify_conditions
  Keeps-modify_conditions f b = record { at = λ s p. frame.conditions s f b p }

  pub Keeps-modify_status :
      (f : KustomizationStatus → KustomizationStatus)
      → ((st : KustomizationStatus) → SameCore st (f st))
      → Keeps P (modify_status f)
  unfolding modify_status
  Keeps-modify_status f same = record {
    at = λ s p. frame.others s (f s.obj.status) (same s.obj.status) p;
  }

-- The changes of conditions that the laws of the environment make benign.
module _ (api : ConditionApi) (laws : ConditionLaws api) where
  pub Benign-mark_false :
      (t : ConditionType) (r : Reason) (m : Message) → Benign api (api.mark status_false t r m)
  Benign-mark_false t r m = record { at = λ cs h. rw laws.get-mark (ground (arith, h)) }

  pub Benign-mark_unknown :
      (t : ConditionType) (r : Reason) (m : Message) → Benign api (api.mark status_unknown t r m)
  Benign-mark_unknown t r m = record { at = λ cs h. rw laws.get-mark (ground (arith, h)) }

  pub Benign-mark_healthy :
      (st : ConditionStatus) (r : Reason) (m : Message) → Benign api (api.mark st healthy r m)
  Benign-mark_healthy st r m = record { at = λ cs h. rw laws.get-mark h }

  pub Benign-mark_reconciling : (r : Reason) (m : Message) → Benign api (api.mark_reconciling r m)
  Benign-mark_reconciling r m = record { at = λ cs h. rw laws.get-mark_reconciling h }

  pub Benign-mark_stalled : (r : Reason) (m : Message) → Benign api (api.mark_stalled r m)
  Benign-mark_stalled r m = record { at = λ cs h. rw laws.get-mark_stalled h }

  pub Benign-delete_healthy : Benign api (api.delete healthy)
  Benign-delete_healthy = record { at = λ cs h. rw laws.get-delete h }

pub ruleset keeps_rules = (
  Keeps-pure, Keeps-raise, Keeps-lift, Keeps-if, Keeps-on_option, Keeps-attempt, Keeps-outcome,
  Keeps-bind, Keeps-then, Keeps-get_obj, Keeps-get_state, Keeps-check, Keeps-when, Keeps-call,
  Keeps-emit, Keeps-modify_conditions, Keeps-modify_status, Benign-mark_false, Benign-mark_unknown,
  Benign-mark_healthy, Benign-mark_reconciling, Benign-mark_stalled, Benign-delete_healthy,
)
