-- ===== src/Decrypting/Vault/Account.antt =====
-- `serviceAccountFromToken`: the service account that a token was issued to.
use fork_kustomize_controlle.Prelude.{
  String, ◌&&◌, not, List, [], ◌∷◌, ◌==◌, if◌then◌else◌, on_option,
}
use fork_kustomize_controlle.Prelude.Texts.{split_at, cut_prefix, cut_at}
use fork_kustomize_controlle.Errors.{Err, Arg, Result, ok, err, wrapf, errorf, sprintf₁, ◌>>=◌}
use fork_kustomize_controlle.Decrypting.Task.{failed_with}
use fork_kustomize_controlle.Decrypting.Types.{KeyApi}

abbrev unexpected_subject : String → Err
unexpected_subject subject = errorf (sprintf₁ "unexpected token subject '%s'" subject)

-- The namespace and the name behind the prefix of a subject.
unfoldable pub account_of_subject : String → Result (String × String)
unfolding cut_prefix cut_at
account_of_subject subject =
    on_option (cut_prefix "system:serviceaccount:" subject) (err (unexpected_subject subject))
      (λ rest. on_option (cut_at 58 rest) (err (unexpected_subject subject)) (λ p.
        if not (p.0 == "") && not (p.1 == "") then ok p else err (unexpected_subject subject)))

module _ {W : Type 0} (api : KeyApi W) where
  abbrev payload_account : String → Result (String × String)
  payload_account payload = do
    bytes ←
        failed_with (wrapf (Arg.str "failed to decode token payload: %w"))
          (api.decode_raw_url payload)
    subject ←
        failed_with (wrapf (Arg.str "failed to unmarshal token payload: %w"))
          (api.unmarshal_subject bytes)
    account_of_subject subject

  abbrev of_parts : List String → Result (String × String)
  of_parts (header ∷ (payload ∷ (signature ∷ []))) = payload_account payload
  of_parts _ = err (errorf (Arg.str "not a JWT"))

  -- `serviceAccountFromToken`
  unfoldable pub service_account_from_token : String → Result (String × String)
  unfolding split_at account_of_subject
  service_account_from_token token = of_parts (split_at 46 token)
