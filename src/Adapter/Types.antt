-- ===== src/Adapter/Types.antt =====
-- What pkg/adapter works on: blocks, headers, commits and validators as far as the code looks into
-- them, the answers of the libraries that it calls, and the state of a node.
use ev_abci.Prelude.{List, Option, String, [], ℕ, ℤ}
use ev_abci.Network.Types.{BlockId}
use ev_abci.Store.{Datastore}

-- A value that the code passes on and does not look into.
abbrev pub Opaque : Type 0
Opaque = List ℕ

-- `BlockID{}`.
abbrev pub no_block_id : BlockId
no_block_id = record { hash = []; parts_total = 0; parts_hash = [] }

-- The header of an ev-node block.
pub record EvHeader : Type 0 where
  pub height : ℕ
  pub time : Opaque
  pub app_version : ℕ
  pub data_hash : List ℕ
  pub app_hash : List ℕ
  pub chain_id : String
  pub proposer_address : List ℕ
  pub validator_hash : List ℕ

pub record SignedHeader : Type 0 where
  pub header : EvHeader
  pub signature : List ℕ

pub data BlockIdFlag : Type 0 where
  flag_absent flag_commit flag_nil : BlockIdFlag

pub record CommitSig : Type 0 where
  pub block_id_flag : BlockIdFlag
  pub validator_address : List ℕ
  pub timestamp : Opaque
  pub signature : List ℕ

pub record Commit : Type 0 where
  pub height : ℤ
  pub round : ℕ
  pub block_id : BlockId
  pub signatures : List CommitSig

-- CometBFT's header; `LastResultsHash` is never set.
pub record AbciHeader : Type 0 where
  pub app_version : ℕ
  pub height : ℤ
  pub time : Opaque
  pub last_block_id : BlockId
  pub last_commit_hash : List ℕ
  pub data_hash : List ℕ
  pub consensus_hash : List ℕ
  pub app_hash : List ℕ
  pub evidence_hash : List ℕ
  pub proposer_address : List ℕ
  pub chain_id : String
  pub validators_hash : List ℕ
  pub next_validators_hash : List ℕ

pub record Block : Type 0 where
  pub header : AbciHeader
  pub txs : List (List ℕ)
  pub evidence : List Opaque
  pub last_commit : Commit

pub record Validator : Type 0 where
  pub address : List ℕ
  pub pub_key : Opaque
  pub power : ℤ

-- `proposer` is the address of the proposer, `none` where that pointer is nil.
pub record ValidatorSet : Type 0 where
  pub validators : List Validator
  pub proposer : Option (List ℕ)

-- CometBFT's state, by the fields that the code reads or writes.
pub record ChainState : Type 0 where
  pub chain_id : String
  pub consensus_params : Opaque
  pub app_hash : List ℕ
  pub last_block_height : ℤ
  pub validators : ValidatorSet
  pub next_validators : ValidatorSet
  pub last_validators : ValidatorSet
  pub last_height_validators_changed : ℤ
  pub last_height_consensus_params_changed : ℤ

-- `ResponseFinalizeBlock`.
pub record Response : Type 0 where
  pub events : List Opaque
  pub tx_results : List Opaque
  pub validator_updates : List Opaque
  pub consensus_param_updates : Option Opaque
  pub app_hash : List ℕ

-- What the event bus publishes.
pub data BusEvent : Type 0 where
  new_block : Block → BlockId → Response → BusEvent
  new_block_header : AbciHeader → BusEvent
  new_block_events : ℤ → List Opaque → ℤ → BusEvent
  new_evidence : Opaque → ℤ → BusEvent
  tx : ℤ → ℕ → List ℕ → Opaque → BusEvent
  validator_set_updates : List Validator → BusEvent

-- The node: its datastore, the application with its mempool, and the events that were published.
pub record Node (App : Type 0) : Type 0 where
  pub ds : Datastore
  pub app : App
  pub published : List BusEvent
