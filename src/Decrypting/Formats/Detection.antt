-- ===== src/Decrypting/Formats/Detection.antt =====
-- The detection of a format by its marker.
use fork_kustomize_controlle.Prelude.{
  String, Bool, true, false, List, [], ◌∷◌, ◌≡◌, ◌⊎◌, inl, inr, refl, Bool-cases, any,
}
use mathlib.Core.List.{Memᴰ}
use fork_kustomize_controlle.Prelude.Texts.{occurs_in}
use fork_kustomize_controlle.Decrypting.Formats.{
  Format, detect_format_from_marker_bytes, sops_format_to_marker_bytes,
}

abbrev pub is_marked : String → Format → Bool
is_marked b k = occurs_in (sops_format_to_marker_bytes k) b

-- Whatever the list of formats and its order: some format's marker occurs in the bytes, and the
-- format that is detected is one of the list and has a marker that occurs; or no marker occurs, and
-- no format is detected.
pub detect_format_from_marker_bytes_lem :
    (ks : List Format) (b : String)
    → ((any (is_marked b) ks ≡ true)
        × Memᴰ (detect_format_from_marker_bytes ks b) ks
        × (is_marked b (detect_format_from_marker_bytes ks b) ≡ true))
      ⊎ ((any (is_marked b) ks ≡ false)
          × (detect_format_from_marker_bytes ks b ≡ Format.unsupported))
unfolding detect_format_from_marker_bytes
detect_format_from_marker_bytes_lem [] b = inr (refl, refl)
detect_format_from_marker_bytes_lem (k ∷ ks) b = elim (Bool-cases (is_marked b k)) [
  | inl here ↦ inl (simp here refl, rw here (Memᴰ.head refl), rw here here)
  | inr other ↦ rw other (later (detect_format_from_marker_bytes_lem ks b))
]
  where
    later :
        {f : Format}
        → ((any (is_marked b) ks ≡ true) × Memᴰ f ks × (is_marked b f ≡ true))
          ⊎ ((any (is_marked b) ks ≡ false) × (f ≡ Format.unsupported))
        → ((any (is_marked b) ks ≡ true) × Memᴰ f (k ∷ ks) × (is_marked b f ≡ true))
          ⊎ ((any (is_marked b) ks ≡ false) × (f ≡ Format.unsupported))
    later (inl (found, among, marked)) = inl (found, Memᴰ.tail among, marked)
    later (inr absent) = inr absent
