-- ===== src/Score.antt =====
-- api/routes/score.py: the scoring routes. History keeps what Redis holds of past payments and builds
-- the features, Layers runs the two layers and the fusion, World holds what the routes change beside
-- the history, Route is `score_transaction` and Batch is `batch_score`. Latencies, metrics, the drift
-- samples and the copy in the graph store are left out, and no key of Redis runs out of its time to
-- live.
pub mod History
pub mod Layers
pub mod World
pub mod Route
pub mod Batch
pub mod Answers
pub mod Whole
pub mod Record
pub mod Alerts
pub mod Live
pub mod Rules
pub mod Once
pub mod Replay
mod Tests
