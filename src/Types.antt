-- ===== src/Types.antt =====
-- Package types: the commitments and headers that the RPC of the sequencer answers with.
pub mod Commitments
pub mod Headers
pub mod Integers
pub mod Binding
mod Tests
