-- ===== src/Adapter/Fixture.antt =====
-- A node to test pkg/adapter with: a small application and stand-ins for CometBFT.
use ev_abci.Prelude.{
  List, Option, [], found, map, negsuc, none, ok, pos, some, true, ℕ, ℤ, ◌+◌, ◌∷◌,
}
use ev_abci.Network.Types.{BlockId}
use ev_abci.Store.{Codecs, Disk, state_key}
use ev_abci.Store.View.{LawfulCodecs}
use ev_abci.Adapter.Types.{
  AbciHeader, ChainState, EvHeader, Node, Response, SignedHeader, Validator, ValidatorSet,
  no_block_id,
}
use ev_abci.Adapter.Convert.{Comet}
use ev_abci.Adapter.Commits.{AppGenesis, Sources}
use ev_abci.Adapter.Execute.{Adapter, AppCalls}
use ev_abci.Adapter.Tables.{is_empty}
use ev_abci.Adapter.Codings.{
  ids_codec, ids_codec-Lawful, responses_codec, responses_codec-Lawful, states_codec,
  states_codec-Lawful,
}

abbrev pub validator : Validator
validator = record { address = 9 ∷ []; pub_key = 9 ∷ []; power = pos 1 }

abbrev pub one_validator : ValidatorSet
one_validator = record { validators = validator ∷ []; proposer = some (9 ∷ []) }

abbrev pub no_validators : ValidatorSet
no_validators = record { validators = []; proposer = none }

abbrev pub state_at : List ℕ → ℤ → ChainState
state_at hash height = record {
  chain_id = "test";
  consensus_params = [];
  app_hash = hash;
  last_block_height = height;
  validators = one_validator;
  next_validators = one_validator;
  last_validators = one_validator;
  last_height_validators_changed = pos 1;
  last_height_consensus_params_changed = pos 1;
}

abbrev pub empty_state : ChainState
empty_state = record {
  chain_id = "";
  consensus_params = [];
  app_hash = [];
  last_block_height = pos 0;
  validators = no_validators;
  next_validators = no_validators;
  last_validators = no_validators;
  last_height_validators_changed = pos 0;
  last_height_consensus_params_changed = pos 0;
}

-- The header of a block, which hashes to its data hash.
abbrev pub header_at : ℤ → List ℕ → AbciHeader
header_at height hash = record {
  app_version = 0;
  height = height;
  time = [];
  last_block_id = no_block_id;
  last_commit_hash = [];
  data_hash = hash;
  consensus_hash = [];
  app_hash = [];
  evidence_hash = [];
  proposer_address = 9 ∷ [];
  chain_id = "test";
  validators_hash = [];
  next_validators_hash = [];
}

abbrev pub first_address : List Validator → Option (List ℕ)
first_address [] = none
first_address (v ∷ vs) = some v.address

abbrev pub set_with : List Validator → ValidatorSet
set_with vs = record { validators = vs; proposer = first_address vs }

abbrev pub comet : Comet
comet = record {
  header_hash = λ h. h.data_hash;
  commit_hash = λ c. [];
  evidence_hash = [];
  make_block = λ s height txs commit proposer.
      ok (record { header = header_at height []; txs = txs; evidence = []; last_commit = commit });
  part_set = λ block. ok (1, 7 ∷ []);
  block_size = λ block. pos 0;
  new_validator = λ key power. record { address = key; pub_key = key; power = power };
  new_validator_set = set_with;
  validators_hash = λ s. [];
  validator_updates =
      λ us. ok (map (λ (u : List ℕ). record { address = u; pub_key = u; power = pos 1 }) us);
  update_with_change_set = λ vs s. ok (set_with vs);
  increment = λ s. s;
  update_params = λ p u. u;
  validate_params = λ p. ok tt;
  validate_params_update = λ p u height. ok tt;
  max_bytes = λ p. pos 100;
  max_gas = λ p. negsuc 0;
}

abbrev pub response : Response
response = record {
  events = (5 ∷ []) ∷ [];
  tx_results = (0 ∷ []) ∷ [];
  validator_updates = [];
  consensus_param_updates = none;
  app_hash = 42 ∷ [];
}

abbrev pub block_id : BlockId
block_id = record { hash = 3 ∷ []; parts_total = 1; parts_hash = 7 ∷ [] }

abbrev pub codecs : Codecs ChainState BlockId Response
codecs = record {
  is_nil = is_empty;
  empty = empty_state;
  states =
      states_codec (state_at [] (pos 1) ∷ state_at (42 ∷ []) (pos 2) ∷ state_at [] (pos 0) ∷ []);
  ids = ids_codec (block_id ∷ []);
  responses = responses_codec (response ∷ []);
}

pub codecs_lawful : LawfulCodecs codecs
codecs_lawful = record {
  states =
      states_codec-Lawful
        (state_at [] (pos 1) ∷ state_at (42 ∷ []) (pos 2) ∷ state_at [] (pos 0) ∷ []);
  ids = ids_codec-Lawful (block_id ∷ []);
  responses = responses_codec-Lawful (response ∷ []);
}

-- The header of block 2, with hash 3.
abbrev pub ev_header : EvHeader
ev_header = record {
  height = 2;
  time = [];
  app_version = 0;
  data_hash = 3 ∷ [];
  app_hash = [];
  chain_id = "test";
  proposer_address = 9 ∷ [];
  validator_hash = [];
}

abbrev pub signed_header : SignedHeader
signed_header = record { header = ev_header; signature = 77 ∷ [] }

abbrev pub genesis : AppGenesis
genesis = record {
  genesis_time = [];
  chain_id = "test";
  initial_height = pos 1;
  validators = validator ∷ [];
  consensus_params = [];
  app_state = [];
}

abbrev pub sources : Sources
sources = record { codecs = codecs; ev_header = λ h. ok signed_header; genesis = some genesis }

-- An application that counts the calls that change it.
abbrev pub calls : AppCalls ℕ
calls = record {
  init_chain = λ request n.
      (ok (record { consensus_params = none; validators = (9 ∷ []) ∷ []; app_hash = [] }), n + 1);
  process_proposal = λ request n. (ok true, n + 1);
  finalize_block = λ request n. (ok response, n + 1);
  commit = λ n. (ok tt, n + 1);
  prepare_proposal = λ request n. (ok [], n + 1);
  flush_app_conn = λ n. (ok tt, n + 1);
  update_mempool = λ height txs results s n. (ok tt, n + 1);
  reap_max_bytes_max_gas = λ bytes gas n. [];
}

abbrev pub healthy : Disk
healthy = record {
  put = λ key. ok tt;
  batch = ok tt;
  batch_delete = λ key. ok tt;
  batch_put = λ key. ok tt;
  commit = ok tt;
}

abbrev pub adapter : Adapter ℕ
adapter = record {
  comet = comet;
  sources = sources;
  disk = healthy;
  calls = calls;
  bus = λ event. ok tt;
  ev_height = ok 1;
  has_mempool = true;
}

-- A node after block 1.
abbrev pub node : Node ℕ
node = record {
  ds = (state_key, found (0 ∷ [])) ∷ (("bid", b'1' ∷ []), found (0 ∷ [])) ∷ [];
  app = 0;
  published = [];
}
