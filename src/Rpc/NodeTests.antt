-- ===== src/Rpc/NodeTests.antt =====
-- The handlers of pkg/rpc/core on a node in attester mode with two attesters.
use ev_abci.Prelude.{
  List, String, [], arith, bytes_eq, err, false, format_uint, get, get_elem?, int_eq, length,
  nat_eq, none, ok, pair_eq, plain, pos, refl, set, some, string_eq, to_int64, to_uint64, true, ℕ,
  ℤ, ◌*◌, ◌+ℤ◌, ◌+◌, ◌-ℤ◌, ◌-◌, ◌<◌, ◌^◌, ◌∷◌, ◌≡◌,
}
use ev_abci.Store.{get_block_id}
use ev_abci.Adapter.Types.{Commit, CommitSig, Validator, flag_commit}
use ev_abci.Adapter.Fixture.{block_id, comet, node, sources}
use ev_abci.Rpc.{
  filter_min_max, normalize_height, or_default, page_within, quotient, scale, validate_page,
  validate_per_page, validate_skip_count, wrap_int64,
}
use ev_abci.Rpc.Range.{IsRange}
use ev_abci.Rpc.Commits.{
  QueryAnswer, RpcEnv, SetEntry, attested_commit, build_validator_set, build_validators,
  commit_sigs, get_attester_set, get_attester_signatures, get_commit_for_height, insert_entry,
  mode_validators, signature_map, sort_entries, unpack_entries, validators,
}
use ev_abci.Rpc.Commits.Aligned.{Aligned, get_commit_for_height-Aligned}
use ev_abci.Rpc.Blocks.{BlockSource, blockchain_info, get_block_meta, info_loop}
use ev_abci.Rpc.Chunks.{GenesisSource, genesis_chunk_size, genesis_chunked}
use ev_abci.Rpc.Chunks.Whole.{AreSmall, genesis_chunked-joined, joined, served}
use ev_abci.Rpc.Search.{
  IndexedTx, Indexers, ResultTx, api_results, insert_by, order_results, page_of, sort_by, tx_less,
  tx_search,
}
use ev_abci.Rpc.Search.Answers.{IsAnswer, tx_search-IsAnswer}
use ev_abci.Rpc.Blocks.Ranges.{blockchain_info-IsRange, down_from}

abbrev answer : QueryAnswer
answer = record { code = 0; value = [] }

abbrev entry : ℕ → String → SetEntry
entry index address = record { index = index; consensus_address = address; pubkey = index ∷ [] }

-- The node after block 1; its attesters come out of order.
abbrev env : RpcEnv
env = record {
  attester_mode = true;
  sources = sources;
  ds = node.ds;
  height = ok 3;
  attester_set = ok answer;
  signatures = λ height. ok answer;
  decode_set = λ bytes. ok (entry 1 "bob" ∷ entry 0 "alice" ∷ []);
  decode_signatures = λ bytes. ok (
      record { validator_address = "alice"; signature = 1 ∷ [] }
      ∷ record { validator_address = "bob"; signature = 2 ∷ [] }
      ∷ []);
  decode_vote = λ bytes. ok (record { timestamp = []; signature = bytes });
  unpack_key = λ key. ok key;
  key_address = λ key. key;
  comet_key = λ key. ok key;
}

abbrev signed_by : ℕ → CommitSig
signed_by n = record {
  block_id_flag = flag_commit;
  validator_address = n ∷ [];
  timestamp = [];
  signature = (n + 1) ∷ [];
}

abbrev commit_1 : Commit
commit_1 = record {
  height = pos 1;
  round = 0;
  block_id = block_id;
  signatures = signed_by 0 ∷ signed_by 1 ∷ [];
}

abbrev two_validators : List Validator
two_validators =
    record { address = 0 ∷ []; pub_key = 0 ∷ []; power = pos 1 }
    ∷ record { address = 1 ∷ []; pub_key = 1 ∷ []; power = pos 1 }
    ∷ []

given : get_commit_for_height env 1 ≡ ok commit_1
unfolding get_commit_for_height attested_commit get_block_id get format_uint get_attester_set
    get_attester_signatures sort_entries insert_entry unpack_entries signature_map set commit_sigs
    to_int64
given = refl

shown : validators env none ≡ ok (pos 3, two_validators)
unfolding validators mode_validators build_validator_set build_validators get_attester_set
    sort_entries insert_entry unpack_entries normalize_height to_int64
shown = refl

get_commit_for_height-Aligned_example :
    Aligned (signed_by 0 ∷ signed_by 1 ∷ []) two_validators
    × (2 * 2 < 3 * 2)
    × (get_block_id sources.codecs.is_nil sources.codecs.ids 1 node.ds ≡ ok block_id)
    × (pos 1 ≡ to_int64 1)
get_commit_for_height-Aligned_example =
    get_commit_for_height-Aligned env 1 none commit_1 (pos 3) two_validators refl given shown

-- No block can be found.
abbrev no_blocks : BlockSource
no_blocks = record {
  block_data = λ height. ok none;
  block_by_hash = λ hash. err plain;
  da_included_height = err plain;
}

all_heights :
    blockchain_info comet env no_blocks (pos 0) (pos 0) ≡ ok (pos 3, none ∷ none ∷ none ∷ [])
unfolding blockchain_info filter_min_max or_default wrap_int64 info_loop get_block_meta to_int64
    to_uint64 ◌-ℤ◌ ◌+ℤ◌
all_heights = refl

blockchain_info-IsRange_example :
    (lo : ℕ) × (hi : ℕ) × IsRange 0 3 0 0 20 lo hi
    × (0 < lo)
    × (pos 3 ≡ pos 3)
    × (none ∷ none ∷ none ∷ [] ≡ down_from comet env no_blocks (hi + 1 - lo) hi)
blockchain_info-IsRange_example =
    blockchain_info-IsRange comet env no_blocks 3 0 0 (pos 3) (none ∷ none ∷ none ∷ []) refl
      (omega arith) all_heights

abbrev tx_at : ℤ → ℕ → IndexedTx
tx_at height index = record { height = height; index = index; bytes = index ∷ []; result = [] }

abbrev indexed : List IndexedTx
indexed = tx_at (pos 1) 1 ∷ tx_at (pos 2) 0 ∷ tx_at (pos 1) 0 ∷ []

abbrev indexers : Indexers
indexers = record {
  parse_query = λ query. ok [];
  search_blocks = λ query. ok [];
  search_txs = λ query. ok indexed;
  tx_by_hash = λ hash. ok none;
  tx_hash = λ bytes. bytes;
  merkle = λ slices. ([], []);
}

-- The second page of two results is the oldest transaction.
abbrev oldest : List ResultTx
oldest = record { hash = 0 ∷ []; found_tx = tx_at (pos 1) 0; proof = none } ∷ []

second_page :
    tx_search comet env no_blocks indexers "" false (some (pos 2)) (some (pos 2)) "desc"
    ≡ ok (oldest, length indexed)
unfolding tx_search order_results sort_by insert_by page_of validate_page page_within
    validate_per_page validate_skip_count quotient scale wrap_int64 api_results to_int64 to_uint64
    ◌-ℤ◌ ◌+ℤ◌
second_page = refl

tx_search-IsAnswer_example :
    IsAnswer tx_less (some (pos 2)) (some (pos 2)) "desc" indexed (tx_at (pos 1) 0 ∷ [])
    × (length indexed ≡ length indexed)
tx_search-IsAnswer_example =
    tx_search-IsAnswer comet env no_blocks indexers "" false (some (pos 2)) (some (pos 2)) "desc" []
      indexed oldest (length indexed) refl refl (omega arith) second_page

abbrev json : List ℕ
json = b'{' ∷ b'}' ∷ []

abbrev small_genesis : GenesisSource
small_genesis = record { loaded = true; to_json = ok (some json); base64 = λ bytes. "e30=" }

genesis_chunked-joined_example :
    (pieces : List (List ℕ)) × (joined pieces ≡ json)
    × AreSmall genesis_chunk_size pieces
    × ((k : ℕ)
        → k < 2 ^ 63
        → genesis_chunked small_genesis k
          ≡ served small_genesis (length pieces) k (get_elem? pieces k))
genesis_chunked-joined_example = genesis_chunked-joined small_genesis json refl refl
