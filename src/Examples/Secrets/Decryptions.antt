-- ===== src/Examples/Secrets/Decryptions.antt =====
-- Runs of the decryptor.
use mathlib.Core.List.{Memᴰ}
use fork_kustomize_controlle.Prelude.{
  String, Bool, true, false, none, some, [], ◌∷◌, ◌==◌, if◌then◌else◌, is_some, ◌≡◌, refl, sym,
  subst, eq_iff, all, arith, contains, string_eq, Bool-cases, inl, inr, any, ◌⊎◌,
}
use fork_kustomize_controlle.Prelude.Texts.{occurs_in, cut_prefix}
use fork_kustomize_controlle.Errors.{Err, ok, err}
use fork_kustomize_controlle.Api.{Labels}
use fork_kustomize_controlle.Sops.MasterKeys.{answer}
use fork_kustomize_controlle.Decrypting.Formats.{Format, detect_format_from_marker_bytes}
use fork_kustomize_controlle.Decrypting.Formats.Detection.{
  is_marked, detect_format_from_marker_bytes_lem,
}
use fork_kustomize_controlle.Decrypting.Paths.{clean, strip_root, join}
use fork_kustomize_controlle.Decrypting.Types.{State}
use fork_kustomize_controlle.Decrypting.Authentication.{key_service_server}
use fork_kustomize_controlle.Decrypting.Trees.{
  sops_decrypt_with_format, decrypt_with_format, mac_if_checked,
}
use fork_kustomize_controlle.Decrypting.Trees.Integrity.{sops_decrypt_with_format_sound}
use fork_kustomize_controlle.Decrypting.Files.Untouched.{is_unfit, sops_decrypt_file-untouched}
use fork_kustomize_controlle.Decrypting.Files.{sops_decrypt_file, FileInfo, Walked}
use fork_kustomize_controlle.Decrypting.Files.Boundary.{Secured}
use fork_kustomize_controlle.Decrypting.Walking.{
  recurse_kustomization_files, decrypt_sources, begin,
}
use fork_kustomize_controlle.Decrypting.Walking.Termination.{recurse-returns, Contained}
use fork_kustomize_controlle.Decrypting.Walking.Boundary.{decrypt_sources-boundary}
use fork_kustomize_controlle.Decrypting.Walking.Once.{Once}
use fork_kustomize_controlle.Decrypting.Resources.{decrypt_data}
use fork_kustomize_controlle.Decrypting.Resources.Entries.{Carried, decrypt_data-Carried}
use fork_kustomize_controlle.Examples.{sample_env}
use fork_kustomize_controlle.Examples.Secrets.{
  World, sample_keys, sample_trees, sample_files, sample_secrets, sample_resources, sample_session,
  file_info,
}

-- The state that a decryption leaves.
abbrev decrypted_secrets : State World
decrypted_secrets =
    (sops_decrypt_with_format sample_keys sample_trees "mac: ENC[AES" Format.yaml Format.yaml
      sample_secrets).1

sample_decrypted :
    sops_decrypt_with_format sample_keys sample_trees "mac: ENC[AES" Format.yaml Format.yaml
      sample_secrets
    ≡ (ok "plain", decrypted_secrets)
unfolding sops_decrypt_with_format
sample_decrypted = refl

sops_decrypt_with_format_sound_example :
    (tree : String) × (key : String) × (plain : String) × (mac : String)
    × (sample_trees.load_encrypted Format.yaml "mac: ENC[AES" ≡ answer tree)
    × (sample_trees.decrypt_tree tree key ≡ answer (plain, mac))
    × ((sample_secrets.decryptor.check_sops_mac ≡ false)
        ⊎ (sample_trees.decrypt_mac plain key ≡ answer mac))
    × (sample_trees.emit_plain Format.yaml plain ≡ answer "plain")
sops_decrypt_with_format_sound_example =
    sops_decrypt_with_format_sound sample_keys sample_trees "mac: ENC[AES" Format.yaml Format.yaml
      sample_secrets decrypted_secrets "plain" sample_decrypted

detect_format_from_marker_bytes_example :
    ((any (is_marked "sops_mac=ENC[x") (Format.yaml ∷ (Format.dotenv ∷ [])) ≡ true)
      × Memᴰ
          (detect_format_from_marker_bytes (Format.yaml ∷ (Format.dotenv ∷ [])) "sops_mac=ENC[x")
          (Format.yaml ∷ (Format.dotenv ∷ []))
      × (is_marked "sops_mac=ENC[x"
            (detect_format_from_marker_bytes (Format.yaml ∷ (Format.dotenv ∷ [])) "sops_mac=ENC[x")
          ≡ true))
    ⊎ ((any (is_marked "sops_mac=ENC[x") (Format.yaml ∷ (Format.dotenv ∷ [])) ≡ false)
        × (detect_format_from_marker_bytes (Format.yaml ∷ (Format.dotenv ∷ [])) "sops_mac=ENC[x"
            ≡ Format.unsupported))
detect_format_from_marker_bytes_example =
    detect_format_from_marker_bytes_lem (Format.yaml ∷ (Format.dotenv ∷ [])) "sops_mac=ENC[x"

abbrev secret_data : Labels
secret_data = ("plain", "text") ∷ (("encrypted", "mac: ENC[AES") ∷ [])

abbrev decrypted_data : Labels
decrypted_data = ("plain", "text") ∷ (("encrypted", "plain") ∷ [])

abbrev data_decrypted : State World
data_decrypted =
    (decrypt_data (sample_env none) sample_keys sample_trees sample_resources [] secret_data
      sample_secrets).1

sample_data :
    decrypt_data
      (sample_env none)
      sample_keys
      sample_trees
      sample_resources
      []
      secret_data
      sample_secrets
    ≡ (ok decrypted_data, data_decrypted)
unfolding decrypt_data
sample_data = refl

decrypt_data-Carried_example :
    Carried (sample_env none) sample_keys sample_trees sample_resources secret_data decrypted_data
decrypt_data-Carried_example =
    decrypt_data-Carried (sample_env none) sample_keys sample_trees sample_resources [] secret_data
      decrypted_data sample_secrets data_decrypted sample_data

regular :
    (b c : Bool) (e : Err) (fi : FileInfo)
    → (if b then ok (file_info false) else if c then ok (file_info false) else err e) ≡ ok fi
    → fi.is_dir ≡ true
    → ⊥
regular true c e fi stat is_dir = cc
regular false true e fi stat is_dir = cc
regular false false e fi stat is_dir = cc

-- The only directory of the sample is its root.
sample-Contained : Contained sample_keys sample_trees sample_files "/r" ("/r" ∷ [])
sample-Contained w path fi joined stat is_dir = elim (Bool-cases (path == "/r")) [
  | inl here ↦ subst (λ x. contains x ("/r" ∷ []) ≡ true) (sym ((eq_iff path "/r").0 here)) refl
  | inr other ↦ absurd (regular _ _ _ fi (rw other at stat) is_dir)
]

recurse-returns_example :
    is_some (
      recurse_kustomization_files sample_keys sample_trees sample_files "/r" 2 "/r"
        (begin sample_keys sample_trees sample_files sample_secrets))
    ≡ true
recurse-returns_example =
    recurse-returns sample_keys sample_trees sample_files "/r" ("/r" ∷ []) sample-Contained 2 "/r"
      (begin sample_keys sample_trees sample_files sample_secrets) (omega arith)

-- Every file that was written is under the root.
abbrev Inside : World → Type 0
Inside w = all (λ file. is_some (cut_prefix "/r" file)) w ≡ true

Secured-inside :
    (file : String)
    → Secured sample_keys sample_trees sample_files "/r" file
    → is_some (cut_prefix "/r" file) ≡ true
Secured-inside file (path, w, joined) =
    elim (Bool-cases (is_some (cut_prefix "/r" (join "/r" path)))) [
      | inl here ↦ cc (rw here at joined)
      | inr other ↦ cc (rw other at joined)
    ]

written-Inside :
    (w : World) (file out : String)
    → Secured sample_keys sample_trees sample_files sample_secrets.decryptor.root file
    → Inside w
    → Inside (sample_files.write_file file out w).1
written-Inside w file out inside before = rw (Secured-inside file inside) before

decryption-Inside :
    (s : State World) (bytes : String) (in_f out_f : Format)
    → Inside s.session.world
    → Inside (sops_decrypt_with_format sample_keys sample_trees bytes in_f out_f s).1.session.world
unfolding sops_decrypt_with_format decrypt_with_format mac_if_checked
decryption-Inside s bytes in_f out_f before =
    elim (Bool-cases (key_service_server sample_keys s.decryptor).1.check_sops_mac) [
      | inl on ↦ rw on before
      | inr off ↦ rw off before
    ]

abbrev walked : Walked World
walked = record {
  state = record {
    decryptor = decrypted_secrets.decryptor;
    session = record sample_session { world = "/r/secret.yaml" ∷ [] };
  };
  decrypted = "/r/secret.yaml" ∷ [];
  visited = "/r/missing" ∷ ("/r" ∷ []);
}

sample_walk :
    decrypt_sources sample_keys sample_trees sample_files 3 "/r" sample_secrets
    ≡ some (ok tt, walked)
unfolding decrypt_sources
sample_walk = refl

decrypt_sources-boundary_example : Inside walked.state.session.world
decrypt_sources-boundary_example =
    decrypt_sources-boundary sample_keys sample_trees sample_files Inside 3 "/r" sample_secrets
      (ok tt) walked decryption-Inside written-Inside refl sample_walk

abbrev sample_walked : Walked World
sample_walked = begin sample_keys sample_trees sample_files sample_secrets

sops_decrypt_file-untouched_example :
    ((is_unfit sample_walked.state.decryptor (file_info false) ≡ true)
      × (e : Err) × (sops_decrypt_file sample_keys sample_trees sample_files "/r/kustomization.yaml"
            Format.yaml Format.yaml sample_walked
          ≡ (err e, sample_walked)))
    ⊎ ((is_unfit sample_walked.state.decryptor (file_info false) ≡ false)
        × (sops_decrypt_file sample_keys sample_trees sample_files "/r/kustomization.yaml"
              Format.yaml Format.yaml sample_walked
            ≡ (ok tt, sample_walked)))
sops_decrypt_file-untouched_example =
    sops_decrypt_file-untouched sample_keys sample_trees sample_files "/r/kustomization.yaml"
      "resources" Format.yaml Format.yaml sample_walked (file_info false) refl refl
      (unfold occurs_in in refl)

stripped :
    (clean "/tmp/../a//./b/" ≡ "/a/b") × (strip_root "/tmp/root" "/tmp/root/x/../../root/y" ≡ "y")
unfolding clean strip_root
stripped = (refl, refl)
