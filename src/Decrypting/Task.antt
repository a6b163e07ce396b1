-- ===== src/Decrypting/Task.antt =====
-- Methods of the decryptor that change a state and may fail.
use fork_kustomize_controlle.Prelude.{◌≡◌, refl}
use fork_kustomize_controlle.Errors.{Err, Result, ok, err}

abbrev pub Task : Type 0 → Type 0 → Type 0
Task S A = S → Result A × S

-- The result, with its error replaced.
abbrev pub failed_with {ℓ} : {A : Type ℓ} → (Err → Err) → Result A → Result A
failed_with f (ok a) = ok a
failed_with f (err e) = err (f e)

module _ {S A B : Type 0} where
  abbrev pub run_on : Result A → (A → Task S B) → Task S B
  run_on (ok a) f s = f a s
  run_on (err e) f s = (err e, s)

  infixl 5 ◌>>=◌
  unfoldable pub ◌>>=◌ : Task S A → (A → Task S B) → Task S B
  ◌>>=◌ m f s = let (r, t) = m s in run_on r f t

  -- What a chain that succeeds went through.
  pub >>=-eq-ok :
      (m : Task S A) (f : A → Task S B) (s : S) {b : B} {t : S}
      → (m >>= f) s ≡ (ok b, t)
      → (a : A) × (u : S) × (m s ≡ (ok a, u)) × (f a u ≡ (ok b, t))
  unfolding ◌>>=◌
  >>=-eq-ok m f s {b = b} {t = t} h = through (m s) refl h
    where
      through :
          (q : Result A × S)
          → m s ≡ q
          → run_on q.0 f q.1 ≡ (ok b, t)
          → (a : A) × (u : S) × (m s ≡ (ok a, u)) × (f a u ≡ (ok b, t))
      through (ok a, u) first h = (a, u, first, h)
      through (err e, u) first h = cc

module _ {S A : Type 0} where
  unfoldable pub return : Result A → Task S A
  return r s = (r, s)

  unfoldable pub wrap : (Err → Err) → Task S A → Task S A
  wrap f m s = let (r, t) = m s in (failed_with f r, t)

module _ {S : Type 0} where
  unfoldable pub get : Task S S
  get s = (ok s, s)

  unfoldable pub modify : (S → S) → Task S Unit
  modify f s = (ok tt, f s)

  unfoldable pub skip : Task S Unit
  skip s = (ok tt, s)
