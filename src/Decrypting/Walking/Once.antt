-- ===== src/Decrypting/Walking/Once.antt =====
-- The paths that the walk records.
use fork_kustomize_controlle.Prelude.{string_eq}
use fork_kustomize_controlle.Inventory.Tracking.{Distinct}
use fork_kustomize_controlle.Decrypting.Files.{Walked}

-- No file is recorded twice as decrypted, and no directory as visited.
abbrev pub Once : {W : Type 0} → Walked W → Type 0
Once s = Distinct s.decrypted × Distinct s.visited
