-- ===== src/Network.antt =====
-- The network module: modules/network.
pub mod Types
pub mod Bitmap
pub mod Keeper
pub mod Vote
pub mod Params
pub mod Invariant
pub mod MsgServer
pub mod EndBlocker
pub mod Query
pub mod Genesis
pub mod Export
pub mod Run
mod Fixture
mod Tests
mod BitmapTests
