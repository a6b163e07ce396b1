-- ===== src/Prelude/Lists.antt =====
-- Lists with a Boolean membership test, which the sets of the program are read by.
use Prim.Native.Nat.{ℕ, suc}
use mathlib.Core.Path.{◌≡◌, refl}
use mathlib.Core.Bool.{Bool, true, false, ◌&&◌, ◌||◌}
use mathlib.Core.List.{List, [], ◌∷◌, ◌++◌}
use native.Mathlib.Omega.{arith}
use fork_kustomize_controlle.Prelude.Tests.{Eq, if◌then◌else◌}

module _ {ℓ} {A : Type ℓ} where
  abbrev pub length : List A → ℕ
  length [] = 0
  length (x ∷ xs) = suc (length xs)

  abbrev pub is_empty : List A → Bool
  is_empty [] = true
  is_empty (x ∷ xs) = false

  -- The library's `filter` and `any` take decisions; these take the program's Boolean tests.
  abbrev pub select : (A → Bool) → List A → List A
  select p [] = []
  select p (x ∷ xs) = let rest = select p xs in if p x then x ∷ rest else rest

  abbrev pub any : (A → Bool) → List A → Bool
  any p [] = false
  any p (x ∷ xs) = p x || any p xs

  abbrev pub all : (A → Bool) → List A → Bool
  all p [] = true
  all p (x ∷ xs) = p x && all p xs

  pub any-append : (p : A → Bool) (xs ys : List A) → any p (xs ++ ys) ≡ (any p xs || any p ys)
  any-append p [] ys = refl
  any-append p (x ∷ xs) ys = ground (arith, any-append p xs ys)

  pub any-select : (p q : A → Bool) (xs : List A) → any p (select q xs) ≡ any (λ x. q x && p x) xs
  any-select p q [] = refl
  any-select p q (x ∷ xs) = ground (arith, any-select p q xs)

module _ {ℓ} {A : Type ℓ} ⦃e : Eq A⦄ where
  abbrev pub contains : A → List A → Bool
  contains a = any (λ x. e.beq x a)

  pub beq_refl : (a : A) → e.beq a a ≡ true
  beq_refl a = (e.beq_iff a a).1 refl
