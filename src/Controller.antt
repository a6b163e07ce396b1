-- ===== src/Controller.antt =====
-- internal/controller: the reconciler of Kustomizations.
mod Types
mod Environment
mod Methods
pub mod Frames
pub mod Sources
pub mod Status
pub mod Dependencies
pub mod Pruning
pub mod Health
pub mod Applying
pub mod Building
pub mod Builder
pub mod Finalizing
pub mod Reconciliation
pub mod Loop
pub use Types.*
pub use Environment.*
unfoldable pub use Methods.*
