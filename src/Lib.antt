-- ===== src/Lib.antt =====
-- The verification library of ev-abci: the consensus modules that an Evolve chain runs inside its
-- Cosmos SDK application.
--
-- The network module (modules/network) keeps a fixed set of attesters, takes their signed votes on
-- blocks, decides by a two-thirds quorum which heights are soft-confirmed, and prunes old votes. The
-- migration manager (modules/migrationmngr) moves a proof-of-stake chain to a single sequencer or to
-- attesters at a scheduled height and halts the chain after it. The two share no state; both read
-- the validators of the SDK's staking module. Below them, the adapter (pkg/adapter) executes ev-node's
-- blocks on the application through ABCI and keeps what it needs in its own store (pkg/store); the
-- handlers of pkg/rpc/core answer from both and from queries to the network module.
--
-- Files and the code that they model:
--   Prelude: lists, native integers with Go's wrap-around, keys, persisted maps, and outcomes.
--     A map is a list of entries, each a value or undecodable bytes; a read answers `found`,
--     `missing` (collections.ErrNotFound) or `failed`.
--   Network/Types: modules/network/types (messages, parameters, state), the collections of
--     modules/network/keeper/keeper.go as the record `State`, and the record `Env` of what other
--     packages provide: signatures, decimals, hashes, the block id provider, the staking module.
--     A handler is a function from a store to an outcome and the store that it leaves.
--   Network/Bitmap: modules/network/keeper/bitmap.go, with Bytes (reads after writes) and Count
--     (population counts).
--   Network/Keeper: modules/network/keeper/keeper.go, with Quorum and Retention.
--   Network/Vote: assertValidValidatorAuthority, verifyVote and the checks of Attest in
--     modules/network/keeper/msg_server.go, with Window and Admit.
--   Network/MsgServer: the handlers of msg_server.go, with Attest, Effects, Progress and Govern.
--   Network/EndBlocker: modules/network/keeper/abci.go, with Blocks and Total.
--   Network/Params: modules/network/types/params.go and the validation in types/genesis.go.
--   Network/Genesis: modules/network/genesis.go, with Attesters, Setup and Start; Network/Export: its
--     ExportGenesis, with Walk, Ready and Restored.
--   Network/Invariant: the well-formed stores, with Confirmed and Shrinks; Network/Run: runs of
--     messages and block ends in any order.
--   Migration: modules/migrationmngr/keeper and types/sequencer.go, with Schedule, Updates, Powers
--     and Attesters.
--   Network/Query: modules/network/keeper/grpc_query.go and GetAllSignaturesForHeight, with Answers.
--   Store: pkg/store/store.go, on a datastore of entries by key, with Prune, Effect (what a call
--     leaves of each entry), View (the store as partial functions; its calls in Saves and Drops), Runs
--     (runs of calls) and Record (the saves of a block).
--   Adapter/Types: what pkg/adapter reads of ev-node's and CometBFT's types. Adapter/MempoolIds:
--     pkg/adapter/mempool_ids.go, with Search, Sound and Release. Adapter/Filter: FilterTxs, with
--     Split and Loop. Adapter/Convert: convert.go. Adapter/Commits: GetLastCommit and its like.
--     Adapter/Events: fireEvents, with Order. Adapter/Transition: the next state of the chain.
--     Adapter/Execute: ExecuteTxs, GetTxs and GetExecutionInfo of adapter.go, with Quiet, Stages, Made
--     and Success. Adapter/InitChain: InitChain, with Founded. Adapter/Queue: SetFinal, with Releasable
--     and Order. Adapter/Votes and Adapter/Hashers: providers.go, with Agree and Unified.
--     A step on a node is a function from it to an outcome and the node after it (Prelude/Act).
--   Rpc: the height and page arithmetic of pkg/rpc/core/utils.go and env.go, with Range and Pages.
--     Rpc/Commits: commits and validator sets in blocks.go and consensus.go, with Aligned.
--     Rpc/Blocks: the block handlers of blocks.go, with Ranges. Rpc/Search: BlockSearch, and tx.go,
--     with Sorting, Window and Answers. Rpc/Mempool: mempool.go, with Sent and Handed. Rpc/Chunks:
--     GenesisChunked of net.go, with Whole.
--   Fixture and its tables, Tests, NodeTests and BitmapTests: concrete inputs.
--
-- Bounds. Heights are int64 and converted to uint64 as in Go; powers and epochs wrap at 2^64, and
-- the index of an attester at 2^16. A well-formed store has fewer than 2^16 attesters, which the
-- code does not check of a genesis. Each loop runs over a list or a counted range, but for four: the
-- search for a free peer id gets one try more than there are active ids, the loop of Prune one round
-- more than there are heights to prune, the loop of BlockchainInfo 21 rounds for its limit of 20, and
-- the chunks of a genesis one round for each byte. That is enough, for Prune up to the height
-- 2^64 - 2: at 2^64 - 1 the loop of the source wraps around and does not end.
--
-- ev-node's store, CometBFT (hashes, block parts, validator sets, parameters), the application behind
-- ABCI, the mempool, the event bus, the datastore's answers and all encodings are parameters; an
-- encoding that is read back after it was written is asked of them. It is asked of every value,
-- which is more than CometBFT's codec of a state gives below height 1: it leaves out the last
-- validators there. Of the mempool and the gossip, each call is asked which transactions are held
-- and which were sent after it (IsMempool).
--
-- Not modelled: logs, metrics and traces; writes to the modules' collections that fail; gas;
-- transaction rollback, which the SDK does on an error; the start of an adapter and its gossip; the
-- event, status and net handlers of pkg/rpc/core and ConsensusParams; the server of pkg/rpc; gossip
-- (pkg/p2p), signer, module wiring and commands (server).
pub mod Prelude
pub mod Network
pub mod Migration
pub mod Rpc
pub mod Store
pub mod Adapter
