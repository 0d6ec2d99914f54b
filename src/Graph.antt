-- ===== src/Graph.antt =====
-- engine/graph_builder.py: the graph of payments that grows by live transactions, and the features of
-- fraud that are read off it.
pub mod Nx
pub mod Live
pub mod Kinds
pub mod Patterns
pub mod Sharing
pub mod Visits
pub mod Walks
pub mod Blind
pub mod Listed
mod Tests
