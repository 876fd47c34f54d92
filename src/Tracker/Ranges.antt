-- ===== src/Tracker/Ranges.antt =====
-- What the manipulators of src/superpage_tracker.h do to a table, superpage by superpage: a span
-- of cells is a range of superpage numbers, and nothing outside it changes.
mod Cells
mod Clear
mod Middle
mod Claim
mod Wins
pub use Cells.*
pub use Clear.*
pub use Middle.*
pub use Claim.*
pub use Wins.*
