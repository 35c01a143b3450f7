-- ===== src/Adapter/Execute.antt =====
-- ExecuteTxs, GetTxs and GetExecutionInfo of pkg/adapter/adapter.go. The application and
-- the mempool behind it answer each call and may change with it.
pub mod Quiet
pub mod Stages
pub mod Made
pub mod Success
use ev_abci.Prelude.{
  Bool, List, Option, Result, String, err, leb, length, negsuc, ok, or_fail, panic, plain, require,
  to_int64, to_uint64, wrap64, ℕ, ℤ, ◌+◌,
}
use ev_abci.Prelude.Act.{Act, lift, pure, reads, ◌>>=◌, ◌>>◌}
use ev_abci.Network.Types.{BlockId}
use ev_abci.Store.{Datastore, Disk, load_state, save_block_id, save_block_response, save_state}
use ev_abci.Adapter.Types.{
  AbciHeader, Block, ChainState, Commit, EvHeader, Node, Opaque, Response, Validator,
}
use ev_abci.Adapter.Events.{Bus, fire_events}
use ev_abci.Adapter.Convert.{Comet, make_abci_block, to_abci_header}
use ev_abci.Adapter.Commits.{CommitInfo, Sources, get_last_commit, to_commit_info}
use ev_abci.Adapter.Transition.{next_state}

-- What `ProcessProposal` and `FinalizeBlock` are given.
pub record BlockRequest : Type 0 where
  pub hash : List ℕ
  pub height : ℤ
  pub time : Opaque
  pub txs : List (List ℕ)
  pub last_commit : CommitInfo
  pub proposer_address : List ℕ
  pub next_validators_hash : List ℕ

pub record InitRequest : Type 0 where
  pub time : Opaque
  pub chain_id : String
  pub consensus_params : Opaque
  pub validators : List Validator
  pub app_state : List ℕ
  pub initial_height : ℤ

pub record InitResponse : Type 0 where
  pub consensus_params : Option Opaque
  pub validators : List Opaque
  pub app_hash : List ℕ

pub record PrepareRequest : Type 0 where
  pub txs : List (List ℕ)
  pub max_tx_bytes : ℤ
  pub height : ℤ
  pub next_validators_hash : List ℕ
  pub proposer_address : List ℕ

-- The calls of the application and of the mempool.
pub record AppCalls (App : Type 0) : Type 0 where
  pub init_chain : InitRequest → Act App InitResponse
  pub process_proposal : BlockRequest → Act App Bool
  pub finalize_block : BlockRequest → Act App Response
  pub commit : Act App (Unit {0})
  pub prepare_proposal : PrepareRequest → Act App (List (List ℕ))
  pub flush_app_conn : Act App (Unit {0})
  pub update_mempool : ℤ → List (List ℕ) → List Opaque → ChainState → Act App (Unit {0})
  pub reap_max_bytes_max_gas : ℤ → ℤ → App → List (List ℕ)

-- What an adapter is wired with.
pub record Adapter (App : Type 0) : Type 0 where
  pub comet : Comet
  pub sources : Sources
  pub disk : Disk
  pub calls : AppCalls App
  pub bus : Bus
  pub ev_height : Result ℕ
  pub has_mempool : Bool

module _ {App : Type 0} where
  abbrev pub after_call : {A : Type 0} → Node App → Result A × App → Result A × Node App
  after_call node (r, app) = (r, record node { app = app })

  -- A call of the application.
  abbrev pub on_app : {A : Type 0} → Act App A → Act (Node App) A
  on_app call node = after_call node (call node.app)

  abbrev pub after_save : Node App → Result Datastore → Result (Unit {0}) × Node App
  after_save node (ok ds) = (ok tt, record node { ds = ds })
  after_save node (err e) = (err e, node)

  -- A write to the store.
  abbrev pub save : (Datastore → Result Datastore) → Act (Node App) (Unit {0})
  save put_to node = after_save node (put_to node.ds)

-- A block that the application has executed.
pub record Executed : Type 0 where
  pub state : ChainState
  pub block : Block
  pub block_id : BlockId
  pub response : Response

module _ {App : Type 0} (a : Adapter App) where
  -- `LoadState`, on the node.
  abbrev pub load : Act (Node App) ChainState
  load = reads (λ node.
      load_state a.sources.codecs.is_nil a.sources.codecs.states a.sources.codecs.empty node.ds)

  -- What the application is asked to judge and to execute.
  abbrev pub block_request :
      ℕ → List (List ℕ) → Opaque → ChainState → AbciHeader → Commit → List ℕ → BlockRequest
  block_request height txs time s header last_commit proposer = record {
    hash = a.comet.header_hash header;
    height = to_int64 height;
    time = time;
    txs = txs;
    last_commit = to_commit_info last_commit;
    proposer_address = proposer;
    next_validators_hash = a.comet.validators_hash s.next_validators;
  }

  -- `ExecuteTxs` up to `FinalizeBlock`; `ev_header` is the header that the context holds, if any. The
  -- log after it reads a result for each transaction.
  unfoldable pub run_block : List (List ℕ) → ℕ → Opaque → Option EvHeader → Act (Node App) Executed
  unfolding to_commit_info
  run_block txs height time ev_header = do
    s ← load
    header ← lift (or_fail ev_header plain)
    last_commit ← reads (λ node. get_last_commit a.sources height node.ds)
    abci_header ← lift (to_abci_header a.comet header last_commit)
    made ← lift (make_abci_block a.comet height txs s abci_header last_commit)
    proposer ← lift (or_fail s.validators.proposer panic)
    let request = block_request height txs time s abci_header last_commit proposer
    accepted ← on_app (a.calls.process_proposal request)
    lift (require accepted plain)
    response ← on_app (a.calls.finalize_block request)
    lift (require (leb (length txs) (length response.tx_results)) panic)
    pure (record { state = s; block = made.0; block_id = made.1; response = response })

  -- The locked part of `ExecuteTxs`.
  unfoldable pub commit_app : ℕ → List (List ℕ) → Response → ChainState → Act (Node App) (Unit {0})
  commit_app height txs response s = do
    on_app a.calls.flush_app_conn
    on_app a.calls.commit
    on_app (a.calls.update_mempool (to_int64 height) txs response.tx_results s)

  -- `ExecuteTxs`.
  unfoldable pub execute_txs :
      List (List ℕ) → ℕ → Opaque → Option EvHeader → Act (Node App) (List ℕ)
  unfolding run_block commit_app
  execute_txs txs height time ev_header = do
    done ← run_block txs height time ev_header
    next ← lift (next_state a.comet height done.response done.state)
    save (save_state a.disk a.sources.codecs.states next.0)
    commit_app height txs done.response next.0
    save (save_block_id a.disk a.sources.codecs.ids height done.block_id)
    save (save_block_response a.disk a.sources.codecs.responses height done.response)
    fire_events a.bus done.block done.block_id done.response next.1
    pure done.response.app_hash

  -- `GetExecutionInfo`: the gas limit of a block.
  unfoldable pub get_execution_info : Act (Node App) ℕ
  get_execution_info = do s ← load; pure (to_uint64 (a.comet.max_gas s.consensus_params))

  -- `GetTxs`.
  unfoldable pub get_txs : Act (Node App) (List (List ℕ))
  get_txs = do
    s ← load
    lift (require a.has_mempool plain)
    reaped ← reads (λ node.
        ok (
          a.calls.reap_max_bytes_max_gas (a.comet.max_bytes s.consensus_params) (negsuc 0)
            node.app))
    height ← lift a.ev_height
    proposer ← lift (or_fail s.validators.proposer panic)
    on_app (
        a.calls.prepare_proposal (record {
          txs = reaped;
          max_tx_bytes = a.comet.max_bytes s.consensus_params;
          height = to_int64 (wrap64 (height + 1));
          next_validators_hash = a.comet.validators_hash s.next_validators;
          proposer_address = proposer;
        }))
