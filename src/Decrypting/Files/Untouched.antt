-- ===== src/Decrypting/Files/Untouched.antt =====
-- The files that are left alone.
use fork_kustomize_controlle.Prelude.{
  String, Bool, true, false, not, ◌||◌, ◌⊎◌, ◌&&◌, ltb, if◌then◌else◌, ◌≡◌, refl, Bool-cases, inl,
  inr, arith,
}
use fork_kustomize_controlle.Prelude.Texts.{occurs_in}
use fork_kustomize_controlle.Errors.{Err, Arg, errorf, Result, ok, err}
use fork_kustomize_controlle.Decrypting.Task.{◌>>=◌, return, get, skip}
use fork_kustomize_controlle.Decrypting.Formats.{Format, sops_format_to_marker_bytes}
use fork_kustomize_controlle.Decrypting.Types.{Decryptor, KeyApi}
use fork_kustomize_controlle.Decrypting.Trees.{TreeApi}
use fork_kustomize_controlle.Decrypting.Files.{
  Walked, FileApi, FileInfo, reading, check_file, decrypt_content, sops_decrypt_file,
}

-- The file is not regular, or larger than a limit that is set.
abbrev pub is_unfit : {W : Type 0} → Decryptor W → FileInfo → Bool
is_unfit d fi = not fi.is_regular || (ltb 0 d.max_file_size && ltb d.max_file_size fi.size)

either_refuses :
    (b c : Bool) (e e' : Err)
    → (b || c) ≡ true
    → (f : Err) × (◌≡◌ {A = Result {0} Unit}
        (if b then err e else if c then err e' else ok tt)
        (err f))
either_refuses true c e e' h = (e, refl)
either_refuses false true e e' h = (e', refl)
either_refuses false false e e' h = cc

check_file-is_unfit :
    {W : Type 0} (d : Decryptor W) (fi : FileInfo)
    → is_unfit d fi ≡ true
    → (e : Err) × (check_file d fi ≡ err e)
check_file-is_unfit d fi h =
    either_refuses (not fi.is_regular) (ltb 0 d.max_file_size && ltb d.max_file_size fi.size)
      (errorf (Arg.str "cannot decrypt irregular file as it has file mode type bits set"))
      (errorf (Arg.str "cannot decrypt file with size (%d bytes) exceeding limit (%d)")) h

check_file-fit :
    {W : Type 0} (d : Decryptor W) (fi : FileInfo) → is_unfit d fi ≡ false → check_file d fi ≡ ok tt
check_file-fit d fi h = ground (arith, h)

module _ {W T : Type 0} (api : KeyApi W) (trees : TreeApi W T) (files : FileApi W) where
  -- A file that is irregular, or larger than the limit if one is set, or that can be read and has
  -- no marker of the format, is left as it is, with an error in the first two cases and without one
  -- in the last.
  pub sops_decrypt_file-untouched :
      (path bytes : String) (in_f out_f : Format) (s : Walked W) (fi : FileInfo)
      → files.lstat path s.state.session.world ≡ ok fi
      → files.read_file path s.state.session.world ≡ ok bytes
      → (is_unfit s.state.decryptor fi || not (occurs_in (sops_format_to_marker_bytes in_f) bytes))
        ≡ true
      → ((is_unfit s.state.decryptor fi ≡ true)
          × (e : Err) × (sops_decrypt_file api trees files path in_f out_f s ≡ (err e, s)))
        ⊎ ((is_unfit s.state.decryptor fi ≡ false)
            × (sops_decrypt_file api trees files path in_f out_f s ≡ (ok tt, s)))
  unfolding sops_decrypt_file decrypt_content ◌>>=◌ return get reading skip
  sops_decrypt_file-untouched path bytes in_f out_f s fi stat read h =
      elim (Bool-cases (is_unfit s.state.decryptor fi)) [
        | inl unfit ↦
            let (e, refused) = check_file-is_unfit s.state.decryptor fi unfit in
            inl (unfit, e, simp (stat, refused) refl)
        | inr fit ↦
            let unmarked : occurs_in (sops_format_to_marker_bytes in_f) bytes ≡ false =
              ground (arith, h, fit) in
            inr (fit, simp (stat, check_file-fit s.state.decryptor fi fit, read, unmarked) refl)
      ]
