-- ===== src/Decrypting/Authentication/DataKeys.antt =====
-- The data keys that the decryptor's key service encrypts.
use fork_kustomize_controlle.Prelude.{String, Option, some, ◌≡◌}
use fork_kustomize_controlle.Errors.{Result, ok}
use fork_kustomize_controlle.Decrypting.Types.{Session, KeyApi}

module _ {W : Type 0} (api : KeyApi W) where
  abbrev TokenFunction : Type 0
  TokenFunction = String → Session W → Result String × Session W

  -- A token that the function returned, it returns again.
  record Repeats (a : Option TokenFunction) : Type 0 where
    at :
        (f : TokenFunction) (address t : String) (s s' : Session W)
        → a ≡ some f
        → f address s ≡ (ok t, s')
        → f address s' ≡ (ok t, s')
