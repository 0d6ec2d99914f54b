-- ===== src/Baselines.antt =====
-- store/baselines.py: the running statistics of a user, their form in Redis, and the deviation of a
-- payment from them. Times are floats. Parameters stand for the square root and for the estimate that
-- Redis gives of how many different elements were added to a HyperLogLog; the JSON of a baseline is
-- the record of its fields, which Python reads back as it wrote them.
pub mod Welford
pub mod Store
pub mod Steady
pub mod Counted
mod Tests
