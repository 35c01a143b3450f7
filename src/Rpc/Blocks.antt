-- ===== src/Rpc/Blocks.antt =====
-- The block handlers of pkg/rpc/core/blocks.go, and `getBlockMeta` of utils.go.
pub mod Ranges
use ev_abci.Prelude.{
  List, Option, Result, [], eq_ℤ, err, fail_as, if◌then◌else◌, leb, leb_ℤ, length, negsuc, none, ok,
  or_fail, plain, pos, require, some, suc, to_int64, to_uint64, zero, ℕ, ℤ, ◌*◌, ◌+◌, ◌-ℤ◌, ◌==◌,
  ◌∷◌,
}
use ev_abci.Prelude.Outcome.{◌>>=◌, ◌>>◌}
use ev_abci.Network.Types.{BlockId}
use ev_abci.Store.{get_block_id, get_block_response}
use ev_abci.Adapter.Types.{AbciHeader, Block, Commit, EvHeader, Response, SignedHeader, no_block_id}
use ev_abci.Adapter.Convert.{
  BlockMeta, Comet, block_id_of, to_abci_block, to_abci_block_meta, to_abci_header,
}
use ev_abci.Adapter.Commits.{get_last_commit}
use ev_abci.Rpc.{filter_min_max, normalize_height, wrap_int64}
use ev_abci.Rpc.Commits.{RpcEnv, get_commit_for_height}

-- ev-node's block: its header and its transactions.
pub record EvBlock : Type 0 where
  pub signed : SignedHeader
  pub txs : List (List ℕ)

-- ev-node's store: blocks by height, `none` where the header or the data is nil, and by hash; and the
-- bytes of the height that is included in the data availability layer.
pub record BlockSource : Type 0 where
  pub block_data : ℕ → Result (Option EvBlock)
  pub block_by_hash : List ℕ → Result EvBlock
  pub da_included_height : Result (List ℕ)

pub record ResultBlock : Type 0 where
  pub block_id : BlockId
  pub block : Option Block

pub record ResultBlockResults : Type 0 where
  pub height : ℤ
  pub response : Response

-- `binary.LittleEndian.Uint64`.
abbrev pub little_endian : List ℕ → ℕ
little_endian [] = 0
little_endian (b ∷ bytes) = b + 256 * little_endian bytes

module _ (comet : Comet) (env : RpcEnv) (blocks : BlockSource) where
  -- The CometBFT block of ev-node's header and transactions at a height.
  unfoldable pub comet_block : ℕ → EvHeader → List (List ℕ) → Result Block
  comet_block height header txs = do
    last_commit ← get_last_commit env.sources height env.ds
    abci_header ← to_abci_header comet header last_commit
    to_abci_block comet abci_header last_commit txs

  abbrev pub meta_and_block : Result Block → Option (BlockMeta × Block)
  meta_and_block (err e) = none
  meta_and_block (ok block) = elim (to_abci_block_meta comet block) [
    | ok meta ↦ some (meta, block)
    | err e ↦ none
  ]

  abbrev pub found_meta : ℕ → Result (Option EvBlock) → Option (BlockMeta × Block)
  found_meta n (err e) = none
  found_meta n (ok none) = none
  found_meta n (ok (some b)) = meta_and_block (comet_block n b.signed.header b.txs)

  -- `getBlockMeta`; every failure is logged and answered with nil.
  unfoldable pub get_block_meta : ℕ → Option (BlockMeta × Block)
  unfolding comet_block
  get_block_meta n = found_meta n (blocks.block_data n)

  -- The height that a request for a block means; -1 is the last included one.
  unfoldable pub requested_height : Option ℤ → Result ℕ
  requested_height none = normalize_height env.height none
  requested_height (some height) =
      if eq_ℤ height (negsuc 0)
      then (fail_as plain blocks.da_included_height >>= λ raw.
          require (length raw == 8) plain >> ok (little_endian raw))
      else normalize_height env.height (some height)

  -- The block id that the store has for a height above 1, or else an empty one.
  abbrev pub stored_or_empty : ℕ → Result BlockId → BlockId
  stored_or_empty height (err e) = no_block_id
  stored_or_empty height (ok id) = if leb height 1 then no_block_id else id

  abbrev pub result_block : ℕ → Option (BlockMeta × Block) → ResultBlock
  result_block height none = record { block_id = no_block_id; block = none }
  result_block height (some (meta, block)) = record {
    block_id =
        stored_or_empty height
          (get_block_id env.sources.codecs.is_nil env.sources.codecs.ids height env.ds);
    block = some block;
  }

  -- `Block`.
  unfoldable pub block : Option ℤ → Result ResultBlock
  unfolding requested_height get_block_meta
  block asked = do height ← requested_height asked; ok (result_block height (get_block_meta height))

  -- The end of `BlockByHash`, and of a round of `BlockSearch`.
  unfoldable pub parted_block : Block → Result ResultBlock
  parted_block made = do
    parts ← comet.part_set made
    ok (record { block_id = block_id_of comet made.header parts; block = some made })

  -- `BlockByHash`.
  unfoldable pub block_by_hash : List ℕ → Result ResultBlock
  unfolding comet_block parted_block
  block_by_hash hash = do
    b ← blocks.block_by_hash hash
    made ← comet_block b.signed.header.height b.signed.header b.txs
    parted_block made

  abbrev pub meta_header : Option (BlockMeta × Block) → Option AbciHeader
  meta_header none = none
  meta_header (some (meta, made)) = some meta.header

  abbrev pub with_commit : ℕ → Option AbciHeader → Result (Option (AbciHeader × Commit))
  with_commit height none = ok none
  with_commit height (some header) =
      fail_as plain (get_commit_for_height env height) >>= λ commit. ok (some (header, commit))

  -- `Commit`; without a block it answers nil.
  unfoldable pub commit : Option ℤ → Result (Option (AbciHeader × Commit))
  unfolding get_block_meta
  commit asked = do
    height ← normalize_height env.height asked
    with_commit height (meta_header (get_block_meta height))

  -- `BlockResults`.
  unfoldable pub block_results : Option ℤ → Result ResultBlockResults
  block_results asked = do
    height ← normalize_height env.height asked
    response ←
        get_block_response env.sources.codecs.is_nil env.sources.codecs.responses height env.ds
    ok (record { height = to_int64 height; response = response })

  -- `Header`.
  unfoldable pub header : Option ℤ → Result AbciHeader
  unfolding get_block_meta
  header asked = do
    height ← normalize_height env.height asked
    or_fail (meta_header (get_block_meta height)) plain

  -- `HeaderByHash`.
  unfoldable pub header_by_hash : List ℕ → Result AbciHeader
  header_by_hash hash = do
    b ← blocks.block_by_hash hash
    last_commit ← get_last_commit env.sources b.signed.header.height env.ds
    to_abci_header comet b.signed.header last_commit

  abbrev pub meta_only : Option (BlockMeta × Block) → Option BlockMeta
  meta_only none = none
  meta_only (some (meta, made)) = some meta

  -- The loop of `BlockchainInfo`: `fuel` heights at most, from `height` down to `min_height`.
  unfoldable pub info_loop : ℕ → ℤ → ℤ → List (Option BlockMeta)
  info_loop zero height min_height = []
  info_loop (suc fuel) height min_height =
      let rest = info_loop fuel (wrap_int64 (height -ℤ pos 1)) min_height in
      if leb_ℤ min_height height then meta_only (get_block_meta (to_uint64 height)) ∷ rest else []

  -- `BlockchainInfo`: the last height, and the blocks of at most twenty heights.
  unfoldable pub blockchain_info : ℤ → ℤ → Result (ℤ × List (Option BlockMeta))
  unfolding info_loop
  blockchain_info min_height max_height = do
    height ← env.height
    range ← filter_min_max (pos 0) (to_int64 height) min_height max_height (pos 20)
    ok (to_int64 height, info_loop 21 range.1 range.0)
