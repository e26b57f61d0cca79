-- ===== src/Controller.antt =====
-- Package controller: what hypersdk's chain asks of the state, and what the node does with an
-- accepted block.
pub mod StateManager
pub mod Acceptance
pub mod Resolutions
pub mod Start
pub mod WhiteList
