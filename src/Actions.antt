-- ===== src/Actions.antt =====
-- Package actions: one child for each action, and the helpers they share.
pub mod Utils
pub mod Transfer
pub mod EpochExit
pub mod RollupRegistration
pub mod Auction
pub mod SequencerMsg
pub mod Wire
