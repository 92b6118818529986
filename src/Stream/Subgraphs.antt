-- ===== src/Stream/Subgraphs.antt =====
-- `usecase/streaming/v2/session.py`: the subgraphs that a client holds open, by the lifecycle events
-- that it gets.
mod Closing
mod Steps
mod Runs
pub use Closing.*
pub use Steps.*
pub use Runs.*
