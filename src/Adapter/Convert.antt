-- ===== src/Adapter/Convert.antt =====
-- pkg/adapter/convert.go: ev-node's headers and blocks as CometBFT's. The functions of CometBFT that
-- the package calls are a parameter.
use ev_abci.Prelude.{
  List, Result, [], err, if◌then◌else◌, length, ok, or_fail, panic, plain, pos, replicate, to_int64,
  ℕ, ℤ, ◌==◌,
}
use ev_abci.Prelude.Outcome.{◌>>=◌}
use ev_abci.Network.Types.{BlockId}
use ev_abci.Adapter.Types.{
  AbciHeader, Block, ChainState, Commit, EvHeader, Opaque, Validator, ValidatorSet,
}

-- CometBFT, as far as the package calls it.
pub record Comet : Type 0 where
  pub header_hash : AbciHeader → List ℕ
  pub commit_hash : Commit → List ℕ
  pub evidence_hash : List ℕ
  pub make_block : ChainState → ℤ → List (List ℕ) → Commit → List ℕ → Result Block
  pub part_set : Block → Result (ℕ × List ℕ)
  pub block_size : Block → ℤ
  pub new_validator : Opaque → ℤ → Validator
  pub new_validator_set : List Validator → ValidatorSet
  pub validators_hash : ValidatorSet → List ℕ
  pub validator_updates : List Opaque → Result (List Validator)
  pub update_with_change_set : List Validator → ValidatorSet → Result ValidatorSet
  pub increment : ValidatorSet → ValidatorSet
  pub update_params : Opaque → Opaque → Opaque
  pub validate_params : Opaque → Result (Unit {0})
  pub validate_params_update : Opaque → Opaque → ℤ → Result (Unit {0})
  pub max_bytes : Opaque → ℤ
  pub max_gas : Opaque → ℤ

pub record BlockMeta : Type 0 where
  pub block_id : BlockId
  pub block_size : ℤ
  pub header : AbciHeader
  pub num_txs : ℤ

module _ (comet : Comet) where
  -- `ToABCIHeader`.
  unfoldable pub to_abci_header : EvHeader → Commit → Result AbciHeader
  to_abci_header header last_commit =
      if length header.proposer_address == 0
      then err plain
      else ok (record {
        app_version = header.app_version;
        height = to_int64 header.height;
        time = header.time;
        last_block_id = last_commit.block_id;
        last_commit_hash = comet.commit_hash last_commit;
        data_hash = header.data_hash;
        consensus_hash = replicate 32 0;
        app_hash = header.app_hash;
        evidence_hash = comet.evidence_hash;
        proposer_address = header.proposer_address;
        chain_id = header.chain_id;
        validators_hash = header.validator_hash;
        next_validators_hash = header.validator_hash;
      })

  -- `ToABCIBlock`.
  unfoldable pub to_abci_block : AbciHeader → Commit → List (List ℕ) → Result Block
  to_abci_block header last_commit txs =
      ok (record { header = header; txs = txs; evidence = []; last_commit = last_commit })

  -- The block id of a header and the parts of a block.
  abbrev pub block_id_of : AbciHeader → ℕ × List ℕ → BlockId
  block_id_of header (total, hash) = record {
    hash = comet.header_hash header;
    parts_total = total;
    parts_hash = hash;
  }

  -- `ToABCIBlockMeta`.
  unfoldable pub to_abci_block_meta : Block → Result BlockMeta
  to_abci_block_meta block = do
    parts ← comet.part_set block
    ok (record {
      block_id = block_id_of block.header parts;
      block_size = comet.block_size block;
      header = block.header;
      num_txs = pos (length block.txs);
    })

  -- `MakeABCIBlock`.
  unfoldable pub make_abci_block :
      ℕ → List (List ℕ) → ChainState → AbciHeader → Commit → Result (Block × BlockId)
  make_abci_block height txs state header last_commit = do
    proposer ← or_fail state.validators.proposer panic
    block ← comet.make_block state (to_int64 height) txs last_commit proposer
    parts ← comet.part_set block
    ok (block, block_id_of header parts)
