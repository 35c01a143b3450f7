-- ===== src/Adapter/Commits.antt =====
-- The commits of pkg/adapter/adapter.go: `GetLastCommit` and `cometCommitToABCICommitInfo`.
use ev_abci.Prelude.{
  List, Option, Result, String, [], if◌then◌else◌, ltb, map, none, ok, pos, some, to_int64, ℕ, ℤ,
  ◌-◌, ◌∷◌,
}
use ev_abci.Prelude.Outcome.{◌>>=◌}
use ev_abci.Network.Types.{BlockId}
use ev_abci.Store.{Codecs, Datastore, get_block_id}
use ev_abci.Adapter.Types.{
  BlockIdFlag, ChainState, Commit, CommitSig, Opaque, Response, SignedHeader, Validator,
  flag_commit, no_block_id,
}

-- The genesis of the application.
pub record AppGenesis : Type 0 where
  pub genesis_time : Opaque
  pub chain_id : String
  pub initial_height : ℤ
  pub validators : List Validator
  pub consensus_params : Opaque
  pub app_state : List ℕ

-- What the commits are made from: the encodings of the store, ev-node's headers by height, and the
-- genesis, if it is loaded.
pub record Sources : Type 0 where
  pub codecs : Codecs ChainState BlockId Response
  pub ev_header : ℕ → Result SignedHeader
  pub genesis : Option AppGenesis

-- The first genesis validator, or else the proposer of the header.
abbrev pub committer : Option AppGenesis → SignedHeader → List ℕ
committer none signed = signed.header.proposer_address
committer (some g) signed = elim g.validators [
  | [] ↦ signed.header.proposer_address
  | v ∷ vs ↦ v.address
]

-- The commit of a block by its only signature.
abbrev pub commit_of : Option AppGenesis → SignedHeader → BlockId → Commit
commit_of genesis signed block_id = record {
  height = to_int64 signed.header.height;
  round = 0;
  block_id = block_id;
  signatures =
      record {
        block_id_flag = flag_commit;
        validator_address = committer genesis signed;
        timestamp = signed.header.time;
        signature = signed.signature;
      }
      ∷ [];
}

-- `Commit{}`, before the first block.
abbrev pub no_commit : Commit
no_commit = record { height = pos 0; round = 0; block_id = no_block_id; signatures = [] }

-- The commit of a block, by its header and its saved block id.
unfoldable pub stored_commit : Sources → ℕ → Datastore → Result Commit
stored_commit src height ds = do
  signed ← src.ev_header height
  block_id ← get_block_id src.codecs.is_nil src.codecs.ids height ds
  ok (commit_of src.genesis signed block_id)

-- `GetLastCommit`.
unfoldable pub get_last_commit : Sources → ℕ → Datastore → Result Commit
unfolding stored_commit
get_last_commit src block_height ds =
    if ltb 1 block_height then stored_commit src (block_height - 1) ds else ok no_commit

pub record VoteInfo : Type 0 where
  pub address : List ℕ
  pub power : ℤ
  pub block_id_flag : BlockIdFlag

pub record CommitInfo : Type 0 where
  pub round : ℕ
  pub votes : List VoteInfo

abbrev pub vote_info : CommitSig → VoteInfo
vote_info sig = record {
  address = sig.validator_address;
  power = pos 1;
  block_id_flag = sig.block_id_flag;
}

-- `cometCommitToABCICommitInfo`.
unfoldable pub to_commit_info : Commit → CommitInfo
to_commit_info commit = record { round = commit.round; votes = map vote_info commit.signatures }
