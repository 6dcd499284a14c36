-- ===== src/Business/Slots.antt =====
-- internal/application/business/slots.go
pub mod Clock
pub mod Intervals
pub mod Hours
pub mod Compute
unfoldable pub use Clock.*
unfoldable pub use Intervals.*
unfoldable pub use Hours.*
unfoldable pub use Compute.*
