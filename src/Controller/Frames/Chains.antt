-- ===== src/Controller/Frames/Chains.antt =====
-- A chain of two methods, by the cases of the result of the first.
use fork_kustomize_controlle.Prelude.{Bool, true, false, if◌then◌else◌, ◌≡◌, refl}
use fork_kustomize_controlle.Errors.{Err, Result, ok, err}
use fork_kustomize_controlle.Controller.{State, Exec, continue, ◌>>=◌, ◌>>◌}

module _ {A B : Type 0} (Q : Result B × State → Type 0) where
  continue_cases :
      (r : Result A) (f : A → Exec B) (s : State)
      → ((e : Err) → r ≡ err e → Q (err e, s))
      → ((a : A) → r ≡ ok a → Q (f a s))
      → Q (continue r f s)
  continue_cases (ok a) f s ke kf = kf a refl
  continue_cases (err e) f s ke kf = ke e refl

  pub bind_cases :
      (m : Exec A) (f : A → Exec B) (s : State)
      → ((e : Err) → (m s).0 ≡ err e → Q (err e, (m s).1))
      → ((a : A) → (m s).0 ≡ ok a → Q (f a (m s).1))
      → Q ((m >>= f) s)
  unfolding ◌>>=◌
  bind_cases m f s ke kf = continue_cases (m s).0 f (m s).1 ke kf

  pub then_cases :
      (m : Exec A) (k : Exec B) (s : State)
      → ((e : Err) → (m s).0 ≡ err e → Q (err e, (m s).1))
      → ((a : A) → (m s).0 ≡ ok a → Q (k (m s).1))
      → Q ((m >> k) s)
  unfolding ◌>>◌
  then_cases m k s ke kf = bind_cases m (λ a. k) s ke kf

pub if_cases :
    {B : Type 0} (Q : Result B × State → Type 0) (b : Bool) (m n : Exec B) (s : State)
    → (b ≡ true → Q (m s))
    → (b ≡ false → Q (n s))
    → Q ((if b then m else n) s)
if_cases Q true m n s km kn = km refl
if_cases Q false m n s km kn = kn refl

-- A predicate on the state that depends on whether the method returned an error.
abbrev pub ByResult : {A : Type 0} → (State → Type 0) → (State → Type 0) → Result A × State → Type 0
ByResult E S (err e, s) = E s
ByResult E S (ok a, s) = S s

pub at_err :
    {A : Type 0} (E S : State → Type 0) (p : Result A × State) (e : Err)
    → ByResult E S p
    → p.0 ≡ err e
    → E p.1
at_err E S (err x, s) e h q = h
at_err E S (ok a, s) e h q = cc

pub at_ok :
    {A : Type 0} (E S : State → Type 0) (p : Result A × State) (a : A)
    → ByResult E S p
    → p.0 ≡ ok a
    → S p.1
at_ok E S (err x, s) a h q = cc
at_ok E S (ok x, s) a h q = h
