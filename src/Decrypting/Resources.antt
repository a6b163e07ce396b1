-- ===== src/Decrypting/Resources.antt =====
-- `DecryptResource`: a resource that is encrypted, or a Secret with encrypted data.
pub mod Entries
use fork_kustomize_controlle.Prelude.{
  String, Bool, true, false, not, ◌||◌, ◌&&◌, Option, none, some, List, [], ◌∷◌, ◌==◌,
  if◌then◌else◌, on_option,
}
use fork_kustomize_controlle.Errors.{Err, Arg, Result, ok, err, wrapf, sprintf₃}
use fork_kustomize_controlle.Api.{Labels, Kustomization, Decryption}
use fork_kustomize_controlle.Controller.{Env}
use fork_kustomize_controlle.Controller.Applying.{is_decryption_disabled}
use fork_kustomize_controlle.Decrypting.Task.{Task, ◌>>=◌, return, get, wrap}
use fork_kustomize_controlle.Decrypting.Formats.{
  Format, format_for_path, detect_format_from_marker_bytes,
}
use fork_kustomize_controlle.Decrypting.Types.{State, KeyApi}
use fork_kustomize_controlle.Decrypting.Keys.{sops_provider}
use fork_kustomize_controlle.Decrypting.Trees.{TreeApi, sops_decrypt_with_format}

-- `resource.Resource` of kustomize, and base64. `sops_is_empty` and `mac_is_empty` are the
-- `IsNilOrEmpty` of the fields `.sops` and `.sops.mac`.
pub record ResourceApi (R : Type 0) : Type 0 where
  pub annotations : R → Labels
  pub namespace : R → String
  pub name : R → String
  pub kind : R → String
  pub sops_is_empty : R → Bool
  pub mac_is_empty : R → Bool
  pub marshal_json : R → Result String
  pub unmarshal_json : String → R → Result R
  pub data_map : R → Labels
  pub set_data_map : Labels → R → R
  pub decode_base64 : String → Result String
  pub encode_base64 : String → String
  pub known_format : String → Format
  -- the order in which the markers are visited
  pub marker_order : List Format

module _ {W T R : Type 0} (env : Env) (api : KeyApi W) (trees : TreeApi W T)
    (rs : ResourceApi R) where
  -- `isSOPSEncryptedResource`, of a resource that is not nil
  abbrev pub is_sops_encrypted_resource : R → Bool
  is_sops_encrypted_resource res = not (rs.sops_is_empty res) && not (rs.mac_is_empty res)

  abbrev pub failed_for : String → String → R → Err → Err
  failed_for format last res e = wrapf (sprintf₃ format (rs.namespace res) (rs.name res) last) e

  unfoldable pub decrypt_encrypted : R → Task (State W) (Option R)
  unfolding ◌>>=◌ return wrap sops_decrypt_with_format
  decrypt_encrypted res = do
    out ← return (rs.marshal_json res)
    plain ←
        wrap (failed_for "failed to decrypt and format '%s/%s' %s data: %w" (rs.kind res) res)
          (sops_decrypt_with_format api trees out Format.json Format.json)
    res' ←
        wrap (failed_for "failed to unmarshal decrypted '%s/%s' %s to JSON: %w" (rs.kind res) res)
          (return (rs.unmarshal_json plain res))
    return (ok (some res'))

  abbrev pub is_unsupported : Format → Bool
  is_unsupported Format.unsupported = true
  is_unsupported _ = false

  -- An entry of the data whose base64 was decoded.
  unfoldable pub decrypt_decoded : R → String → String → String → Task (State W) String
  unfolding ◌>>=◌ return wrap sops_decrypt_with_format detect_format_from_marker_bytes
      format_for_path
  decrypt_decoded res key value bytes =
      let in_f = detect_format_from_marker_bytes rs.marker_order bytes in
      if is_unsupported in_f then return (ok value) else (do
        out ←
            wrap (failed_for "failed to decrypt and format '%s/%s' Secret field '%s': %w" key res)
              (sops_decrypt_with_format api trees bytes in_f (format_for_path rs.known_format key))
        return (ok (rs.encode_base64 out)))

  abbrev pub on_decoded : R → String → String → Result String → Task (State W) String
  on_decoded res key value (ok bytes) = decrypt_decoded res key value bytes
  on_decoded res key value (err e) = return (ok value)

  -- The loop over the data of a Secret, in the order in which the map is visited.
  unfoldable pub decrypt_data : R → Labels → Task (State W) Labels
  unfolding ◌>>=◌ return decrypt_decoded
  decrypt_data res [] = return (ok [])
  decrypt_data res ((key, value) ∷ rest) = do
    value' ← on_decoded res key value (rs.decode_base64 value)
    rest' ← decrypt_data res rest
    return (ok ((key, value') ∷ rest'))

  unfoldable pub decrypt_secret : R → Task (State W) (Option R)
  unfolding ◌>>=◌ return decrypt_data
  decrypt_secret res = do
    entries ← decrypt_data res (rs.data_map res)
    return (ok (some (rs.set_data_map entries res)))

  -- `DecryptResource`; none is the nil that it returns for a resource that it leaves alone.
  unfoldable pub decrypt_resource : Option R → Task (State W) (Option R)
  unfolding ◌>>=◌ return get is_decryption_disabled decrypt_encrypted decrypt_secret
  decrypt_resource res = do
    s ← get
    on_option res (return (ok none)) (λ res.
        on_option s.decryptor.kustomization.spec.decryption (return (ok none)) (λ decryption.
          if decryption.provider == "" || is_decryption_disabled env (rs.annotations res)
          then return (ok none)
          else if not (decryption.provider == sops_provider)
          then return (ok none)
          else if is_sops_encrypted_resource res
          then decrypt_encrypted res
          else if rs.kind res == "Secret"
          then decrypt_secret res
          else return (ok none)))
