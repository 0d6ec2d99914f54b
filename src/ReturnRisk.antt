-- ===== src/ReturnRisk.antt =====
-- return_risk: scoring an order for the risk that it is returned.
pub mod Rules
pub mod Store
pub mod Extract
pub mod Context
pub mod Profile
pub mod Route
pub mod Available
pub mod Served
pub mod Counts
pub mod Serial
pub mod Reported
pub mod Ranges
pub mod Values
pub mod Scorer
pub mod Recommend
pub mod Sorted
pub mod Bounds
pub mod Tiers
pub mod Advice
mod Tests
mod RouteTests
