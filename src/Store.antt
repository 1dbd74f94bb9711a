-- ===== src/Store.antt =====
-- internal/store: the control plane's fetch queue. The SQL statements of the package are modelled as
-- functions on the rows of the table.
pub mod Row
pub mod Enqueue
pub mod Claim
pub mod Close
pub mod Touched
pub mod Lifecycle
pub mod Frontier
mod Examples
