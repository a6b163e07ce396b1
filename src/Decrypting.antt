-- ===== src/Decrypting.antt =====
-- internal/decryptor: the decryption of sources and resources for a Kustomization.
pub mod Task
pub mod Paths
pub mod Formats
pub mod Types
pub mod Keys
pub mod Vault
pub mod Authentication
pub mod Trees
pub mod Resources
pub mod Files
pub mod Walking
