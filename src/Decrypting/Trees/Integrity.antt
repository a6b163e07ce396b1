-- ===== src/Decrypting/Trees/Integrity.antt =====
-- What a decryption that succeeds went through.
use fork_kustomize_controlle.Prelude.{
  Bool, String, true, false, ◌==◌, ◌≡◌, ◌⊎◌, refl, sym, ap, ◌∙◌, Bool-cases, Option-cases, inl, inr,
  eq_iff,
}
use fork_kustomize_controlle.Errors.{Arg, Result, ok, sprintf₁}
use fork_kustomize_controlle.Sops.MasterKeys.{Reply, answer, failure, panicked}
use fork_kustomize_controlle.Sops.Keyservice.{Served, serve_on, give, ◌>>=◌}
use fork_kustomize_controlle.Decrypting.Formats.{Format, sops_format_to_string}
use fork_kustomize_controlle.Decrypting.Types.{State, Decryptor, KeyApi}
use fork_kustomize_controlle.Decrypting.Authentication.{key_service_server}
use fork_kustomize_controlle.Decrypting.Trees.{
  TreeApi, explained, explaining, safe_decrypt, get_data_key, check_mac, mac_if_checked,
  decrypt_with_format, sops_decrypt_with_format, recovered, with_key_service,
}

disabled_or : {P : Type 0} (b : Bool) → (b ≡ true → P) → (b ≡ false) ⊎ P
disabled_or true h = inr (h refl)
disabled_or false h = inl refl

module _ {S A B : Type 0} where
  >>=-eq-answer :
      (m : Served S A) (f : A → Served S B) (s : S) (b : B) (t : S)
      → (m >>= f) s ≡ (answer b, t)
      → (a : A) × (u : S) × (m s ≡ (answer a, u)) × (f a u ≡ (answer b, t))
  unfolding ◌>>=◌
  >>=-eq-answer m f s b t h = through (m s) refl h
    where
      through :
          (q : Reply A × S)
          → m s ≡ q
          → serve_on q.0 f q.1 ≡ (answer b, t)
          → (a : A) × (u : S) × (m s ≡ (answer a, u)) × (f a u ≡ (answer b, t))
      through (answer a, u) first h = (a, u, first, h)
      through (failure e, u) first h = cc
      through (panicked, u) first h = cc

module _ {W T : Type 0} (api : KeyApi W) (trees : TreeApi W T) where
  explained-answer :
      {A : Type 0} (msg : Arg) (r : Reply A) (s : State W) (a : A) (t : State W)
      → explained api trees msg r s ≡ (answer a, t)
      → (r ≡ answer a) × (s ≡ t)
  unfolding explained explaining give
  explained-answer msg (answer b) s a t h = (ap (λ q. q.0) h, ap (λ q. q.1) h)
  explained-answer msg (failure e) s a t h = cc
  explained-answer msg panicked s a t h = cc

  safe-answer :
      {A : Type 0} (r : Reply A) (a : A) → safe_decrypt api trees r ≡ answer a → r ≡ answer a
  unfolding safe_decrypt
  safe-answer (answer b) a h = h
  safe-answer (failure e) a h = cc
  safe-answer panicked a h = cc

  -- The hash that is stored is that of the tree.
  checked-mac :
      (tree : T) (key mac : String) (s t : State W) (u : Unit)
      → check_mac api trees tree key mac s ≡ (answer u, t)
      → trees.decrypt_mac tree key ≡ answer mac
  unfolding check_mac give
  checked-mac tree key mac s t u h =
      let (original, v, first, second) =
        >>=-eq-answer
          (explained api trees (Arg.str "failed to verify sops data integrity")
            (safe_decrypt api trees (trees.decrypt_mac tree key)))
          _ s u t h in
      let stored =
        safe-answer (trees.decrypt_mac tree key) original
          (explained-answer _ _ s original v first).0 in
      elim (Bool-cases (original == mac)) [
        | inl same ↦ stored ∙ ap answer ((eq_iff original mac).0 same)
        | inr differs ↦ cc (rw differs at second)
      ]

  server_keeps : (d : Decryptor W) → (key_service_server api d).1.check_sops_mac ≡ d.check_sops_mac
  unfolding key_service_server
  server_keeps d = elim (Option-cases d.key_services) [
    | inl absent ↦ simp absent refl
    | inr (server, here) ↦ simp here refl
  ]

  key_keeps :
      (msg : Arg) (tree : T) (s t : State W) (key : String)
      → explaining api trees msg (get_data_key api trees tree) s ≡ (answer key, t)
      → t.decryptor.check_sops_mac ≡ s.decryptor.check_sops_mac
  unfolding explaining with_key_service
  key_keeps msg tree s t key h =
      sym (ap (λ q. q.1.decryptor.check_sops_mac) h) ∙ server_keeps s.decryptor

  checked-if :
      (tree : T) (key mac : String) (s t : State W) (u : Unit)
      → mac_if_checked api trees tree key mac s ≡ (answer u, t)
      → s.decryptor.check_sops_mac ≡ true
      → trees.decrypt_mac tree key ≡ answer mac
  unfolding mac_if_checked
  checked-if tree key mac s t u h on = checked-mac tree key mac s t u (simp on at h)

  recovered-ok :
      (in_f out_f : Format) (r : Reply String) (out : String)
      → recovered api trees in_f out_f r ≡ ok out
      → r ≡ answer out
  recovered-ok in_f out_f (answer o) out h = cc
  recovered-ok in_f out_f (failure e) out h = cc
  recovered-ok in_f out_f panicked out h = cc

  recovered-pair :
      (in_f out_f : Format) (q : Reply String × State W) (out : String) (t : State W)
      → ◌≡◌ {A = Result String × State W} (recovered api trees in_f out_f q.0, q.1) (ok out, t)
      → q ≡ (answer out, t)
  recovered-pair in_f out_f (r, u) out t h =
      ap (λ r. (r, u)) (recovered-ok in_f out_f r out (ap (λ q. q.0) h))
      ∙ ap (λ u. (answer out, u)) (ap (λ q. q.1) h)

  -- What SopsDecryptWithFormat returns without an error is a plain tree in the output format, which
  -- some data key decrypts from the tree that the input holds; where the check of the MAC is
  -- enabled, the stored MAC of that tree is decrypted by the key to the hash of what was decrypted.
  pub sops_decrypt_with_format_sound :
      (bytes : String) (in_f out_f : Format) (s t : State W) (out : String)
      → sops_decrypt_with_format api trees bytes in_f out_f s ≡ (ok out, t)
      → (tree : T) × (key : String) × (plain : T) × (mac : String) × (trees.load_encrypted in_f
            bytes
          ≡ answer tree)
        × (trees.decrypt_tree tree key ≡ answer (plain, mac))
        × ((s.decryptor.check_sops_mac ≡ false) ⊎ (trees.decrypt_mac plain key ≡ answer mac))
        × (trees.emit_plain out_f plain ≡ answer out)
  unfolding sops_decrypt_with_format decrypt_with_format
  sops_decrypt_with_format_sound bytes in_f out_f s t out h =
      let run =
        recovered-pair in_f out_f (decrypt_with_format api trees bytes in_f out_f s) out t h in
      let (tree, s₁, first, h₁) =
        >>=-eq-answer
          (explained api trees
            (sprintf₁ "failed to load encrypted %s data" (sops_format_to_string in_f))
            (trees.load_encrypted in_f bytes))
          _ s out t run in
      let (loaded, same) = explained-answer _ _ s tree s₁ first in
      let (key, s₂, second, h₂) =
        >>=-eq-answer
          (explaining api trees (Arg.str "cannot get sops data key") (get_data_key api trees tree))
          _ s₁ out t h₁ in
      let ((plain, mac), s₃, third, h₃) =
        >>=-eq-answer
          (explained api trees (Arg.str "error decrypting sops tree")
            (safe_decrypt api trees (trees.decrypt_tree tree key)))
          _ s₂ out t h₂ in
      let (decrypted, same₃) = explained-answer _ _ s₂ (plain, mac) s₃ third in
      let (u, s₄, fourth, h₄) =
        >>=-eq-answer (mac_if_checked api trees plain key mac) _ s₃ out t h₃ in
      (
        tree,
        key,
        plain,
        mac,
        loaded,
        safe-answer _ _ decrypted,
        disabled_or s.decryptor.check_sops_mac λ on. checked-if plain key mac s₃ s₄ u fourth (
            ap (λ (x : State W). x.decryptor.check_sops_mac) (sym same₃)
            ∙ (key_keeps _ tree s₁ s₂ key second
                ∙ (ap (λ (x : State W). x.decryptor.check_sops_mac) (sym same) ∙ on))),
        (explained-answer _ _ s₄ out t h₄).0,
      )
