-- ===== src/Adapter/Votes.antt =====
-- The bytes that are signed for a block, in pkg/adapter/providers.go: as the sequencer takes them
-- from its store, and as another node computes them from the block.
pub mod Agree
use ev_abci.Prelude.{List, Result, String, if◌then◌else◌, ok, to_int64, ℕ, ℤ, ◌==◌}
use ev_abci.Prelude.Outcome.{◌>>=◌, ◌>>◌}
use ev_abci.Network.Types.{BlockId}
use ev_abci.Store.{Datastore, get_block_id, load_state}
use ev_abci.Adapter.Types.{EvHeader, Opaque, no_block_id}
use ev_abci.Adapter.Convert.{Comet, make_abci_block, to_abci_header}
use ev_abci.Adapter.Commits.{Sources, get_last_commit}

-- A precommit of round 0 by the validator with index 0.
pub record Precommit : Type 0 where
  pub height : ℤ
  pub block_id : BlockId
  pub timestamp : Opaque
  pub validator_address : List ℕ

-- CometBFT's bytes to sign for a vote on a chain.
abbrev pub SignBytes : Type 0
SignBytes = String → Precommit → List ℕ

-- `createVote`.
unfoldable pub create_vote : SignBytes → EvHeader → BlockId → List ℕ
create_vote sign_bytes header block_id = sign_bytes header.chain_id (record {
  height = to_int64 header.height;
  block_id = block_id;
  timestamp = header.time;
  validator_address = header.proposer_address;
})

module _ (comet : Comet) (src : Sources) where
  -- The block id that a node computes from a header and the transactions of its block.
  unfoldable pub computed_block_id : EvHeader → List (List ℕ) → Datastore → Result BlockId
  computed_block_id header txs ds = do
    last_commit ← get_last_commit src header.height ds
    abci_header ← to_abci_header comet header last_commit
    s ← load_state src.codecs.is_nil src.codecs.states src.codecs.empty ds
    made ← make_abci_block comet header.height txs s abci_header last_commit
    ok made.1

module _ (comet : Comet) (src : Sources) (sign_bytes : SignBytes) where
  -- The function of `SequencerNodeSignatureBytesProvider`.
  unfoldable pub sequencer_signature_bytes : EvHeader → Datastore → Result (List ℕ)
  sequencer_signature_bytes header ds =
      if header.height == 1
      then ok (create_vote sign_bytes header no_block_id)
      else (get_block_id src.codecs.is_nil src.codecs.ids header.height ds >>= λ block_id.
          ok (create_vote sign_bytes header block_id))

  -- The function of `SyncNodeSignatureBytesProvider`.
  unfoldable pub sync_signature_bytes : EvHeader → List (List ℕ) → Datastore → Result (List ℕ)
  unfolding computed_block_id
  sync_signature_bytes header txs ds =
      if header.height == 1
      then ok (create_vote sign_bytes header no_block_id)
      else (computed_block_id comet src header txs ds >>= λ block_id.
          ok (create_vote sign_bytes header block_id))
