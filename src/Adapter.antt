-- ===== src/Adapter.antt =====
-- pkg/adapter: the side of the node that executes blocks.
pub mod Types
pub mod MempoolIds
pub mod Filter
pub mod Events
pub mod Convert
pub mod Commits
pub mod Transition
pub mod Execute
pub mod Votes
pub mod Hashers
pub mod Queue
pub mod InitChain
mod Tables
mod Codings
pub mod Fixture
mod Tests
