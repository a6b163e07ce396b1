-- ===== src/Decrypting/Keys/Fallback.antt =====
-- What the fallback Secret can change.
use fork_kustomize_controlle.Prelude.{
  String, Bool, true, false, not, Option, none, some, [], ◌∷◌, ◌==◌, if◌then◌else◌, on_option, ◌≡◌,
  refl, ◌∙◌, Bool-cases, inl, inr,
}
use fork_kustomize_controlle.Errors.{Err, Result, ok, err}
use fork_kustomize_controlle.Api.{Labels, Decryption}
use fork_kustomize_controlle.Controller.{NamespacedName}
use fork_kustomize_controlle.Decrypting.Task.{Task, ◌>>=◌, return, get, wrap, skip, run_on}
use fork_kustomize_controlle.Decrypting.Types.{Decryptor, State, KeyApi}
use fork_kustomize_controlle.Decrypting.Keys.{
  import_keys, import_each, import_fallback, import_age, outside, set, ext, import_fallback_secret,
}

-- The decryptor up to its age identities.
abbrev pub but_identities : {W : Type 0} → Decryptor W → Decryptor W
but_identities d = record d { age_identities = [] }

-- The call changes no more of the decryptor than its age identities.
record AgeOnly {W A : Type 0} (m : Task (State W) A) : Type 0 where
  at : (s : State W) → but_identities (m s).1.decryptor ≡ but_identities s.decryptor

module _ {W A B : Type 0} where
  AgeOnly-bind :
      (m : Task (State W) A) (f : A → Task (State W) B)
      → AgeOnly m
      → ((a : A) → AgeOnly (f a))
      → AgeOnly (m >>= f)
  unfolding ◌>>=◌
  AgeOnly-bind m f hm hf = record { at = λ s. next (m s) ∙ hm.at s }
    where
      next :
          (q : Result A × State W)
          → but_identities (run_on q.0 f q.1).1.decryptor ≡ but_identities q.1.decryptor
      next (ok a, t) = (hf a).at t
      next (err e, t) = refl

module _ {W A : Type 0} where
  AgeOnly-return : (r : Result A) → AgeOnly {W = W} (return r)
  unfolding return
  AgeOnly-return r = record { at = λ s. refl }

  AgeOnly-wrap : (f : Err → Err) (m : Task (State W) A) → AgeOnly m → AgeOnly (wrap f m)
  unfolding wrap
  AgeOnly-wrap f m h = record { at = λ s. h.at s }

  AgeOnly-outside : (f : W → Result A × W) → AgeOnly (outside f)
  unfolding outside
  AgeOnly-outside f = record { at = λ s. refl }

  AgeOnly-if :
      (b : Bool) (m n : Task (State W) A) → AgeOnly m → AgeOnly n → AgeOnly (if b then m else n)
  AgeOnly-if true m n hm hn = hm
  AgeOnly-if false m n hm hn = hn

  AgeOnly-on_option :
      {B : Type 0} (o : Option B) (m : Task (State W) A) (f : B → Task (State W) A)
      → AgeOnly m
      → ((b : B) → AgeOnly (f b))
      → AgeOnly (on_option o m f)
  AgeOnly-on_option none m f hm hf = hm
  AgeOnly-on_option (some b) m f hm hf = hf b

AgeOnly-skip : {W : Type 0} → AgeOnly {W = W} skip
unfolding skip
AgeOnly-skip = record { at = λ s. refl }

module _ {W : Type 0} (api : KeyApi W) where
  AgeOnly-import_age : (value : String) → AgeOnly (import_age api value)
  unfolding import_age set get
  AgeOnly-import_age value =
      AgeOnly-bind get _ (record { at = λ s. refl })
        (λ s.
          AgeOnly-bind (return (api.import_age s.decryptor.age_identities value)) _
            (AgeOnly-return _) (λ is. record { at = λ s. refl }))

  AgeOnly-fallback : (name value : String) → AgeOnly (import_fallback api name value)
  unfolding import_fallback skip
  AgeOnly-fallback name value = elim (Bool-cases (ext name == ".agekey")) [
    | inl age ↦ rw age (AgeOnly-import_age value)
    | inr other ↦ rw other (record { at = λ s. refl })
  ]

  AgeOnly-each :
      (failed : String → Err → Err) (entries : Labels)
      → AgeOnly (import_each api (import_fallback api) failed entries)
  unfolding import_each skip
  AgeOnly-each failed [] = record { at = λ s. refl }
  AgeOnly-each failed ((name, value) ∷ rest) =
      AgeOnly-bind (wrap (failed name) (import_fallback api name value)) _
        (AgeOnly-wrap _ _ (AgeOnly-fallback name value)) (λ done. AgeOnly-each failed rest)

  AgeOnly-secret : (name : NamespacedName) → AgeOnly (import_fallback_secret api name)
  AgeOnly-secret name =
      AgeOnly-bind (wrap _ (outside (api.get_secret name))) _ (AgeOnly-wrap _ _ (AgeOnly-outside _))
        (λ entries. AgeOnly-each _ entries)

  -- ImportKeys without a Secret of the Kustomization changes nothing of the decryptor but its age
  -- identities, whatever the fallback Secret holds and whether or not an import fails.
  pub import_keys-fallback :
      (s : State W) (dec : Decryption)
      → s.decryptor.kustomization.spec.decryption ≡ some dec
      → dec.secret_ref ≡ none
      → but_identities (import_keys api s).1.decryptor ≡ but_identities s.decryptor
  unfolding import_keys ◌>>=◌ get skip
  import_keys-fallback s dec here none_given =
      simp (here, none_given)
        ((AgeOnly-if (not (dec.provider == "sops")) skip _ AgeOnly-skip (
            AgeOnly-on_option s.decryptor.sops_age_secret skip (import_fallback_secret api)
              AgeOnly-skip AgeOnly-secret)).at
          s)
