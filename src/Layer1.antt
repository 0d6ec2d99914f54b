-- ===== src/Layer1.antt =====
-- engine/statistical_filter.py: the first layer. A velocity, a geographic and a Benford filter, and
-- the gate that composes their results. `F` is the type of floats. The great-circle distance, the
-- chi-square statistic and the first digit of an amount are arguments, as is what Redis holds.
-- A feature dict is a record with an option for each key that the code reads.
pub mod Rules
pub mod Geo
pub mod Benford
pub mod Gate
pub mod Order
pub mod Compose
pub mod Slots
pub mod Samples
mod Tests
