-- ===== src/Decrypting/Resources/Entries.antt =====
-- What becomes of the data of a Secret.
use fork_kustomize_controlle.Prelude.{
  String, true, false, [], ◌∷◌, ◌≡◌, refl, sym, ap, subst, ◌⊎◌, inl, inr, Bool-cases,
}
use fork_kustomize_controlle.Errors.{Err, Result, ok, err}
use fork_kustomize_controlle.Api.{Labels}
use fork_kustomize_controlle.Controller.{Env}
use fork_kustomize_controlle.Decrypting.Task.{Task, return, wrap, failed_with, >>=-eq-ok}
use fork_kustomize_controlle.Decrypting.Formats.{format_for_path, detect_format_from_marker_bytes}
use fork_kustomize_controlle.Decrypting.Types.{State, KeyApi}
use fork_kustomize_controlle.Decrypting.Trees.{TreeApi, sops_decrypt_with_format}
use fork_kustomize_controlle.Decrypting.Resources.{
  ResourceApi, decrypt_data, decrypt_decoded, on_decoded, is_unsupported, failed_for,
}

module _ {W T R : Type 0} (env : Env) (api : KeyApi W) (trees : TreeApi W T)
    (rs : ResourceApi R) where
  -- The value is the encoding of what SopsDecryptWithFormat makes of the decoded one, from the
  -- format whose marker was detected to the format for the key.
  abbrev pub Replaced : String → String → String → Type 0
  Replaced key value value' =
      (bytes : String) × (out : String) × (s : State W) × (t : State W) × (rs.decode_base64 value
        ≡ ok bytes)
      × (is_unsupported env api trees rs (detect_format_from_marker_bytes rs.marker_order bytes)
          ≡ false)
      × (sops_decrypt_with_format api trees bytes
            (detect_format_from_marker_bytes rs.marker_order bytes)
            (format_for_path rs.known_format key) s
          ≡ (ok out, t))
      × (value' ≡ rs.encode_base64 out)

  -- The value is no base64, or nothing was detected in it.
  abbrev pub Plain : String → Type 0
  Plain value =
      ((e : Err) × (rs.decode_base64 value ≡ err e))
      ⊎ ((bytes : String) × (rs.decode_base64 value ≡ ok bytes)
          × (is_unsupported env api trees rs (detect_format_from_marker_bytes rs.marker_order bytes)
              ≡ true))

  -- The keys are the same, in the same order; each value is kept if it is plain, and replaced
  -- otherwise.
  abbrev pub Carried : Labels → Labels → Type 0
  Carried [] [] = Unit
  Carried [] (e ∷ es) = ⊥
  Carried (e ∷ es) [] = ⊥
  Carried ((key, value) ∷ rest) ((key', value') ∷ rest') =
      (key ≡ key')
      × ((Plain value × (value ≡ value')) ⊎ Replaced key value value')
      × Carried rest rest'

  return-ok : {A : Type 0} (a b : A) (s t : State W) → return (ok a) s ≡ (ok b, t) → a ≡ b
  unfolding return
  return-ok {A = A} a b s t h = injected (ap (λ q. q.0) h)
    where
      injected : {a b : A} → ok a ≡ ok b → a ≡ b
      injected h = cc

  wrap-ok :
      {A : Type 0} (f : Err → Err) (m : Task (State W) A) (s t : State W) (a : A)
      → wrap f m s ≡ (ok a, t)
      → m s ≡ (ok a, t)
  unfolding wrap
  wrap-ok {A = A} f m s t a h = go (m s) h
    where
      go :
          (q : Result A × State W)
          → ◌≡◌ {A = Result A × State W} (failed_with f q.0, q.1) (ok a, t)
          → q ≡ (ok a, t)
      go (ok b, u) h = h
      go (err e, u) h = cc

  decoded-Carried :
      (res : R) (key value bytes value' : String) (s t : State W)
      → rs.decode_base64 value ≡ ok bytes
      → decrypt_decoded env api trees rs res key value bytes s ≡ (ok value', t)
      → (Plain value × (value ≡ value')) ⊎ Replaced key value value'
  unfolding decrypt_decoded
  decoded-Carried res key value bytes value' s t decoded h =
      let in_f = detect_format_from_marker_bytes rs.marker_order bytes in
      elim (Bool-cases
        (is_unsupported env api trees rs (detect_format_from_marker_bytes rs.marker_order bytes))) [
          | inl unmarked ↦
              inl (inr (bytes, decoded, unmarked), return-ok value value' s t (rw unmarked at h))
          | inr marked ↦
              let (out, u, first, second) =
                >>=-eq-ok
                  (wrap
                    (failed_for env api trees rs
                      "failed to decrypt and format '%s/%s' Secret field '%s': %w" key res)
                    (sops_decrypt_with_format api trees bytes in_f
                      (format_for_path rs.known_format key)))
                  (λ out. return (ok (rs.encode_base64 out))) s (rw marked at h) in
              inr (
                bytes,
                out,
                s,
                u,
                decoded,
                marked,
                wrap-ok
                    (failed_for env api trees rs
                      "failed to decrypt and format '%s/%s' Secret field '%s': %w" key res)
                    (sops_decrypt_with_format api trees bytes in_f
                      (format_for_path rs.known_format key))
                    s u out first,
                sym (return-ok (rs.encode_base64 out) value' u t second),
              )
        ]

  value-Carried :
      (res : R) (key value value' : String) (s t : State W) (r : Result String)
      → rs.decode_base64 value ≡ r
      → on_decoded env api trees rs res key value r s ≡ (ok value', t)
      → (Plain value × (value ≡ value')) ⊎ Replaced key value value'
  value-Carried res key value value' s t (err e) decoded h =
      inl (inl (e, decoded), return-ok value value' s t h)
  value-Carried res key value value' s t (ok bytes) decoded h =
      decoded-Carried res key value bytes value' s t decoded h

  -- When the data of a Secret are decrypted without an error, the keys are kept in their order, a
  -- value that is no base64 or has no marker is kept, and every other value is replaced by the
  -- encoding of what SopsDecryptWithFormat makes of it.
  pub decrypt_data-Carried :
      (res : R) (entries entries' : Labels) (s t : State W)
      → decrypt_data env api trees rs res entries s ≡ (ok entries', t)
      → Carried entries entries'
  unfolding decrypt_data
  decrypt_data-Carried res [] entries' s t h = subst (Carried []) (return-ok [] entries' s t h) tt
  decrypt_data-Carried res ((key, value) ∷ rest) entries' s t h =
      let (value', s₁, first, h₁) =
        >>=-eq-ok (on_decoded env api trees rs res key value (rs.decode_base64 value)) _ s h in
      let (rest', s₂, second, h₂) = >>=-eq-ok (decrypt_data env api trees rs res rest) _ s₁ h₁ in
      subst (Carried ((key, value) ∷ rest)) (return-ok ((key, value') ∷ rest') entries' s₂ t h₂) (
        refl,
        value-Carried res key value value' s s₁ _ refl first,
        decrypt_data-Carried res rest rest' s₁ s₂ second,
      )
