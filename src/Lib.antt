-- ===== src/Lib.antt =====
-- A verification library for nodekit-seq, the SeqVM shared sequencer (a Go virtual machine on
-- hypersdk).
--
-- The program. A block carries transactions, a transaction carries actions, and an action is
-- executed against the chain state, a map from keys to byte strings. Package actions has the five
-- actions; each reads and writes through package storage, which lays balances, rollup records,
-- epoch exits and Arcadia bids out as keys and values. The fee logic of hypersdk deducts through
-- controller/state_manager.go. The controller is told of each accepted block.
--
-- Which file models what (paths from the repository's root).
--   Prelude        shared names; Prelude/ByteStrings is bytes.Equal and encoding/binary's order.
--   Outcome        errors, panics, and calls on a state; actions/errors.go, storage/errors.go.
--   Encoding       copy, and the readers and writers of encoding/binary on short slices.
--   Vm             what is taken from hypersdk and avalanchego, as parameters with their laws;
--                  Vm/Example is a concrete instance, for the witnesses.
--   Storage        storage/*.go, a child for each file.
--   Genesis        genesis/genesis.go, genesis/rules.go.
--   Actions        actions/*.go, a child for each action, and Actions/Wire for their wire form.
--   Registry       registry/registry.go and the type IDs: which function reads which action.
--   Controller     controller/state_manager.go, and Initialize, Rules and Accepted of
--                  controller/controller.go.
--   Types          types/commit.go and types/types.go: commitments, headers and their JSON.
--   Archiver       archiver/orm_archiver.go: the archive of accepted blocks and its queries;
--                  Archiver/Example is a concrete database, for the witnesses.
--   Rpc            rpc/*.go: Rpc/Server the handlers, Rpc/Fees and Rpc/Submission the making of a
--                  transaction, Rpc/Client the client, and Rpc/Node the server's interface on a node,
--                  which joins the controller, the storage, the archive and the cache.
--   RollupRegistry rollup_registry/registry.go, the node's cache of rollups.
--   Auth           auth/ed25519.go: its batch collector, and the authentication itself; auth/bls.go.
--   Config         config/config.go: the configuration, which Controller/Start joins
--                  with the rules.
--   Cmd            cmd/seq-cli/cmd/resolutions.go: the wait for a transaction that was sent.
--   Chain          the step relation that the executions make, and what holds all along it.
--   Ledger         the accounts as one ledger, for statements about totals.
--   Samples        concrete accounts and states, for the witnesses.
--
-- How the code is represented. A word is a natural number, with its bound written where it
-- matters; a byte counts modulo 256. A Go call that can fail gives an `Outcome`: a value, an
-- error value, or a run-time panic (a nil pointer, an index out of range, a division by zero). A
-- call that writes is a function from the state to an outcome and the state it leaves, which is
-- kept after an error too, as the program does: undoing a failed action is left to hypersdk. The
-- context and tracing arguments are dropped, since nothing reads them.
--
-- A packer works under a limit in bytes: a write over it is an error of the packer. What is packed is
-- stated over fields with their sizes (Actions/Wire/Fields).
--
-- Fuel: every loop is over a list and recurs on it, but for the bytes of a big integer, which are
-- taken with the number itself as fuel: each round divides by 256.
--
-- What is not modelled: the services that a node opens, the command line programs but for
-- that wait, generated bindings and key files, which are input and output around other systems. The
-- encodings of hypersdk, BLS, SHA-256, Keccak, gorm, JSON, the requester and the state view are
-- parameters with laws, since their code is not in the repository.
pub mod Prelude
pub mod Outcome
pub mod Vm
pub mod Encoding
pub mod Storage
pub mod Genesis
pub mod Actions
pub mod Ledger
pub mod Chain
pub mod Controller
pub mod RollupRegistry
pub mod Auth
pub mod Samples
pub mod Types
pub mod Archiver
pub mod Rpc
pub mod Config
pub mod Registry
pub mod Cmd
