-- ===== src/Sops.antt =====
-- internal/sops: the key service that decrypts data keys, and the credentials that it uses.
pub mod MasterKeys
pub mod Keyservice
pub mod Azure
pub mod Aws
