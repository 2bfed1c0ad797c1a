-- ===== src/Models.antt =====
-- internal/models/event.go: the event, its validation, its defaults and its price.
pub mod Event
pub mod Pricing
pub mod Validate
pub mod Normalize
pub mod Views
unfoldable pub use Event.*
unfoldable pub use Pricing.{calculate_cost}
unfoldable pub use Validate.{validate}
pub use Validate.{IsValid}
unfoldable pub use Normalize.{normalize}
