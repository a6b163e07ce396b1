-- ===== src/Controller/Methods.antt =====
-- The methods of the reconciler mutate the Kustomization through its pointer, call out, and may
-- return an error. What was changed before an error stays changed.
use fork_kustomize_controlle.Prelude.{Bool, if◌then◌else◌, Option, none, some, List, ◌∷◌}
use fork_kustomize_controlle.Errors.{Err, Result, ok, err, Message, Arg}
use fork_kustomize_controlle.Api.{
  Kustomization, KustomizationStatus, Condition, ConditionType, ConditionStatus, Reason, ready,
  status_false,
}
use fork_kustomize_controlle.Controller.Types.{Effect}
use fork_kustomize_controlle.Controller.Environment.{Env, History}

pub record State : Type 0 where
  pub obj : Kustomization
  pub history : History

abbrev pub Exec {ℓ} : Type ℓ → Type ℓ
Exec A = State → Result A × State

module _ {ℓ} {A : Type ℓ} where
  unfoldable pub pure : A → Exec A
  pure a s = (ok a, s)

  unfoldable pub raise : Err → Exec A
  raise e s = (err e, s)

  unfoldable pub lift : Result A → Exec A
  lift r s = (r, s)

  abbrev pub handle : Result A → (Err → Exec A) → Exec A
  handle (ok a) h s = (ok a, s)
  handle (err e) h s = h e s

  -- `if err != nil { … }`
  unfoldable pub attempt : Exec A → (Err → Exec A) → Exec A
  attempt m h s = let (r, s') = m s in handle r h s'

  -- The result and the error of a method, for a caller that goes on with either.
  unfoldable pub outcome : Exec A → Exec (Result A)
  outcome m s = let (r, s') = m s in (ok r, s')

  -- A call whose answer is asked of the environment and that others can see.
  unfoldable pub call : Effect → (History → A) → Exec A
  call e f s = (ok (f s.history), record s { history = e ∷ s.history })

-- A call whose answer is not looked at.
unfoldable pub emit : Effect → Exec (Unit {0})
unfolding call
emit e = call e (λ h. tt)

-- a statement under an `if` with no `else`
unfoldable pub when : Bool → Exec (Unit {0}) → Exec (Unit {0})
when b m s = if b then m s else (ok tt, s)

unfoldable pub get_state : Exec State
get_state s = (ok s, s)

unfoldable pub get_obj : Exec Kustomization
get_obj s = (ok s.obj, s)

-- an error that may be nil
unfoldable pub check : Option Err → Exec (Unit {0})
unfolding pure raise
check none = pure tt
check (some e) = raise e

unfoldable pub modify : (Kustomization → Kustomization) → Exec (Unit {0})
modify f s = (ok tt, record s { obj = f s.obj })

module _ {ℓ κ} {A : Type ℓ} {B : Type κ} where
  abbrev pub continue : Result A → (A → Exec B) → Exec B
  continue (ok a) f s = f a s
  continue (err e) f s = (err e, s)

  infixl 5 ◌>>=◌ ◌>>◌
  unfoldable pub ◌>>=◌ : Exec A → (A → Exec B) → Exec B
  unfolding pure raise lift get_state get_obj check call modify
  ◌>>=◌ m f s = let (r, s') = m s in continue r f s'

  unfoldable pub ◌>>◌ : Exec A → Exec B → Exec B
  unfolding ◌>>=◌
  m >> k = m >>= λ _. k

abbrev pub set_status : (KustomizationStatus → KustomizationStatus) → Kustomization → Kustomization
set_status f obj = record obj { status = f obj.status }

unfoldable pub modify_status : (KustomizationStatus → KustomizationStatus) → Exec (Unit {0})
unfolding modify
modify_status f = modify (set_status f)

unfoldable pub modify_conditions : (List Condition → List Condition) → Exec (Unit {0})
unfolding modify_status
modify_conditions f = modify_status (λ st. record st { conditions = f st.conditions })

module _ (env : Env) where
  -- conditions.MarkTrue, MarkFalse, MarkUnknown
  unfoldable pub mark : ConditionStatus → ConditionType → Reason → Message → Exec (Unit {0})
  unfolding modify_conditions
  mark s t r m = modify_conditions (env.conditions.mark s t r m)

  -- `err = f(err); conditions.MarkFalse(obj, meta.ReadyCondition, reason, "%s", err); return err`
  unfoldable pub failing {ℓ} : {A : Type ℓ} → Reason → (Err → Err) → Exec A → Exec A
  unfolding attempt mark ◌>>◌
  failing r f m = attempt m λ e. mark status_false ready r (Arg.error (f e)) >> raise (f e)
