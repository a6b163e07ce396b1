-- ===== src/Decrypting/Trees.antt =====
-- `SopsDecryptWithFormat` and `sopsEncryptWithFormat`, around the trees of SOPS, and the errors
-- that they make.
pub mod Integrity
use Prim.Native.String.{◌++◌}
use fork_kustomize_controlle.Prelude.{
  String, Bool, true, false, not, Option, none, some, List, [], ◌∷◌, ◌==◌, if◌then◌else◌, on_option,
}
use fork_kustomize_controlle.Prelude.Texts.{before, occurs_in}
use fork_kustomize_controlle.Errors.{
  Err, Arg, Args, arg, nil, printf, Result, ok, err, wrapf, errorf, opaque, user_error, sprintf₁,
  sprintf₂,
}
use fork_kustomize_controlle.Sops.MasterKeys.{MasterKeyApi, Reply, answer, failure, panicked}
use fork_kustomize_controlle.Sops.Keyservice.{
  Server, Request, Served, give, decrypt, encrypt, ◌>>=◌,
}
use fork_kustomize_controlle.Decrypting.Task.{Task}
use fork_kustomize_controlle.Decrypting.Formats.{Format, sops_format_to_string}
use fork_kustomize_controlle.Decrypting.Types.{Decryptor, State, Session, KeyApi}
use fork_kustomize_controlle.Decrypting.Authentication.{key_service_server}

-- Trees `T` of SOPS: the branches and the metadata of a file. A text of bytes is in a format.
pub record TreeApi (W T : Type 0) : Type 0 where
  pub load_encrypted : Format → String → Reply T
  -- `GetDataKeyWithKeyServices`, which asks the key service, given as a function
  pub get_data_key : T → (Request → Served (Session W) String) → Served (Session W) String
  -- the tree with its values decrypted, and its hash
  pub decrypt_tree : T → String → Reply (T × String)
  -- the stored hash of the tree, decrypted
  pub decrypt_mac : T → String → Reply String
  pub emit_plain : Format → T → Reply String
  pub error_text : Err → String
  -- the branches of a plain file under the given metadata
  pub load_plain : T → Format → String → Reply T
  -- `GenerateDataKeyWithKeyServices`: its errors, or none with the data key
  pub generate_data_key :
      T → (Request → Served (Session W) String) → Served (Session W) (List Err × (T × String))
  pub encrypt_tree : T → String → Reply (T × String)
  -- the time is set, and the hash is encrypted with the data key
  pub set_mac : T → String → String → Reply T
  pub emit_encrypted : Format → T → Reply String

-- `sopsUserErr`
unfoldable pub sops_user_err : Arg → Err → Err
sops_user_err msg (user_error text e) = wrapf msg (opaque text)
sops_user_err msg e = wrapf msg e

module _ {W T : Type 0} (api : KeyApi W) (trees : TreeApi W T) where
  -- The error that `safeDecrypt` returns.
  unfoldable pub safe_error : Err → Err
  unfolding before occurs_in
  safe_error e =
      let text = trees.error_text e in
      on_option (before "Input string " text) e (λ start.
        if occurs_in " does not match sops' data format" text
        then opaque (start ++ "Input string <redacted> does not match sops' data format")
        else e)

  -- `safeDecrypt`
  unfoldable pub safe_decrypt : {A : Type 0} → Reply A → Reply A
  unfolding safe_error
  safe_decrypt (answer a) = answer a
  safe_decrypt (failure e) = failure (safe_error e)
  safe_decrypt panicked = panicked

  abbrev explained_reply : {A : Type 0} → Arg → Reply A → Reply A
  explained_reply msg (answer a) = answer a
  explained_reply msg (failure e) = failure (sops_user_err msg e)
  explained_reply msg panicked = panicked

  -- `if err != nil { return nil, sopsUserErr(msg, err) }`
  unfoldable pub explaining : {A : Type 0} → Arg → Served (State W) A → Served (State W) A
  unfolding sops_user_err
  explaining msg m s = let (r, t) = m s in (explained_reply msg r, t)

  unfoldable pub explained : {A : Type 0} → Arg → Reply A → Served (State W) A
  unfolding explaining give
  explained msg r = explaining msg (give r)

  -- A call with the server that `keyServiceServer` returns.
  unfoldable pub with_key_service :
      {A : Type 0} → (Server (Session W) → Served (Session W) A) → Served (State W) A
  unfolding key_service_server
  with_key_service use_server s =
      let (server, d) = key_service_server api s.decryptor in
      let (r, session) = use_server server s.session in
      (r, record { decryptor = d; session = session })

  abbrev get_data_key : T → Served (State W) String
  get_data_key tree =
      with_key_service (λ server. trees.get_data_key tree (decrypt api.master_keys server))

  abbrev mac_differs : String → String → Err
  mac_differs original mac = errorf (
      sprintf₂ "failed to verify sops data integrity: expected mac '%s', got '%s'"
        (if original == "" then "no MAC" else original) mac)

  -- The comparison of the stored hash with that of the tree.
  unfoldable pub check_mac : T → String → String → Served (State W) Unit
  unfolding explained safe_decrypt give ◌>>=◌
  check_mac tree key mac = do
    original ←
        explained (Arg.str "failed to verify sops data integrity")
          (safe_decrypt (trees.decrypt_mac tree key))
    if original == mac then give (answer tt) else give (failure (mac_differs original mac))

  unfoldable pub mac_if_checked : T → String → String → Served (State W) Unit
  unfolding check_mac give
  mac_if_checked tree key mac s =
      if s.decryptor.check_sops_mac then check_mac tree key mac s else (answer tt, s)

  abbrev emit_message : Format → Format → Arg
  emit_message in_f out_f =
      sprintf₂ "failed to emit encrypted %s file as decrypted %s" (sops_format_to_string in_f)
        (sops_format_to_string out_f)

  -- `SopsDecryptWithFormat`, up to a panic. The tree that is decrypted keeps the metadata of the
  -- tree that was loaded.
  unfoldable pub decrypt_with_format : String → Format → Format → Served (State W) String
  unfolding ◌>>=◌ explained explaining with_key_service safe_decrypt mac_if_checked
  decrypt_with_format bytes in_f out_f = do
    tree ←
        explained (sprintf₁ "failed to load encrypted %s data" (sops_format_to_string in_f))
          (trees.load_encrypted in_f bytes)
    key ← explaining (Arg.str "cannot get sops data key") (get_data_key tree)
    plain ←
        explained (Arg.str "error decrypting sops tree")
          (safe_decrypt (trees.decrypt_tree tree key))
    checked ← mac_if_checked plain.0 key plain.1
    explained (emit_message in_f out_f) (trees.emit_plain out_f plain.0)

  abbrev recovered : Format → Format → Reply String → Result String
  recovered in_f out_f (answer out) = ok out
  recovered in_f out_f (failure e) = err e
  recovered in_f out_f panicked = err (errorf (emit_message in_f out_f))

  -- `SopsDecryptWithFormat`; its deferred function recovers from a panic.
  unfoldable pub sops_decrypt_with_format : String → Format → Format → Task (State W) String
  unfolding decrypt_with_format
  sops_decrypt_with_format bytes in_f out_f s =
      let (r, t) = decrypt_with_format bytes in_f out_f s in (recovered in_f out_f r, t)

  abbrev texts_of : List Err → Args
  texts_of [] = nil
  texts_of (e ∷ es) = arg (Arg.error e) (texts_of es)

  abbrev generated : List Err × (T × String) → Served (State W) (T × String)
  generated ([], p) = give (answer p)
  generated (e ∷ es, p) = give (
      failure (
        sops_user_err (Arg.str "could not generate data key")
          (errorf (printf "%s" (texts_of (e ∷ es))))))

  -- `sopsEncryptWithFormat`; the metadata is that of a tree.
  unfoldable pub sops_encrypt_with_format : T → String → Format → Format → Served (State W) String
  unfolding ◌>>=◌ give explained with_key_service sops_user_err
  sops_encrypt_with_format metadata bytes in_f out_f = do
    tree ← give (trees.load_plain metadata in_f bytes)
    made ←
        with_key_service (λ server. trees.generate_data_key tree (encrypt api.master_keys server))
    keyed ← generated made
    encrypted ←
        explained (Arg.str "error encrypting sops tree") (trees.encrypt_tree keyed.0 keyed.1)
    sealed ←
        explained (Arg.str "cannot encrypt sops data tree")
          (trees.set_mac encrypted.0 keyed.1 encrypted.1)
    explained (Arg.str "failed to emit sops encrypted file") (trees.emit_encrypted out_f sealed)
