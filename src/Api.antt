-- ===== src/Api.antt =====
-- The API types that the components share (api/v1): phases, conditions, annotations, identities.
mod Phases
mod Conditions
mod Annotations
unfoldable pub use Phases.*
pub use Conditions.*
unfoldable pub use Annotations.*
