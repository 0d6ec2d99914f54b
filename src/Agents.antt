-- ===== src/Agents.antt =====
-- agents/: the message router, the base of the agents, the worker that feeds them, and the agents that
-- keep profiles and reviews. Message ids, timestamps of messages and priorities are left out, since
-- nothing here reads them.
pub mod Router
pub mod Worker
pub mod Feed
pub mod Delivered
pub mod Twice
pub mod Loop
pub mod Profile
pub mod History
pub mod Drift
pub mod Review
pub mod Kept
mod Tests
