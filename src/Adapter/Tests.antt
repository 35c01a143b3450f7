-- ===== src/Adapter/Tests.antt =====
-- Tests of the model of pkg/adapter, and its theorems at concrete inputs.
use ev_abci.Prelude.{
  Bool, List, [], arith, bytes_eq, err, false, format_uint, found, get, inc64, int_eq, nat_eq, ok,
  pair_eq, plain, pos, refl, replicate, require, set, some, string_eq, to_int64, to_uint64, true, ℕ,
  ℤ, ◌++◌, ◌==◌, ◌∷◌, ◌≡◌,
}
use ev_abci.Prelude.Outcome.{◌>>=◌, ◌>>◌}
use ev_abci.Network.Types.{BlockId}
use ev_abci.Store.{
  get_block_id, get_block_response, load_state, save_block_id, save_block_response, save_state,
}
use ev_abci.Adapter.Types.{Block, ChainState, Node, new_evidence}
use ev_abci.Adapter.Events.{Bus, fire_events, fire_evidence, fire_txs, publish}
use ev_abci.Adapter.Convert.{make_abci_block, to_abci_header}
use ev_abci.Adapter.Commits.{commit_of, get_last_commit, no_commit}
use ev_abci.Adapter.Transition.{next_state}
use ev_abci.Adapter.Execute.{execute_txs}
use ev_abci.Adapter.Execute.Stages.{Stage, execute_txs-Stage}
use ev_abci.Adapter.Execute.Made.{IsMade}
use ev_abci.Adapter.Execute.Success.{Succeeded, execute_txs-Succeeded, get_last_commit-execute_txs}
use ev_abci.Adapter.Votes.{SignBytes, sequencer_signature_bytes, sync_signature_bytes}
use ev_abci.Adapter.Votes.Agree.{sequencer-sync}
use ev_abci.Adapter.Hashers.{Keys, LibKey, sequencer_hash, validators_hasher}
use ev_abci.Adapter.Hashers.Unified.{has_address, hash_of, raw_keys, validators_hasher_lem}
use ev_abci.Adapter.Queue.{
  StackedEvent, drop, is_released, release, release_event, released, set_final,
}
use ev_abci.Adapter.Queue.Releasable.{EndsReleased, IsHeld, take}
use ev_abci.Adapter.Queue.Order.{all_events, set_final-lost, set_final-order}
use ev_abci.Adapter.InitChain.{init_chain}
use ev_abci.Adapter.InitChain.Founded.{Ended, init_chain-Ended}
use ev_abci.Adapter.Fixture.{
  adapter, block_id, codecs_lawful, comet, ev_header, genesis, header_at, node, response,
  signed_header, sources,
}

abbrev txs : List (List ℕ)
txs = (8 ∷ []) ∷ []

-- The node after block 2.
abbrev after : Node ℕ
after = (execute_txs adapter txs 2 [] (some ev_header) node).1

executed : execute_txs adapter txs 2 [] (some ev_header) node ≡ (ok (42 ∷ []), after)
unfolding execute_txs get_last_commit to_abci_header make_abci_block next_state load_state
    get_block_id get format_uint save_state save_block_id save_block_response set fire_events
    fire_txs fire_evidence publish to_int64 to_uint64 inc64
executed = refl

execute_txs-Succeeded_example : Succeeded adapter txs 2 [] ev_header node (42 ∷ []) after
execute_txs-Succeeded_example =
    execute_txs-Succeeded adapter txs 2 [] ev_header node after (42 ∷ []) codecs_lawful
      (omega arith) executed

execute_txs-Stage_example :
    Stage adapter 2 node (execute_txs adapter txs 2 [] (some ev_header) node)
execute_txs-Stage_example = execute_txs-Stage adapter txs 2 [] (some ev_header) node

get_last_commit-execute_txs_example :
    (block : Block) × (id : BlockId) × (s : ChainState) × IsMade adapter txs 2 ev_header node.ds s
      block id
    × (get_last_commit sources 3 after.ds ≡ ok (commit_of (some genesis) signed_header id))
get_last_commit-execute_txs_example =
    get_last_commit-execute_txs adapter txs 2 [] ev_header node after (42 ∷ []) signed_header
      codecs_lawful (omega arith) (omega arith) refl executed

-- The bytes to sign are the hash of the block id and the height.
abbrev sign_bytes : SignBytes
sign_bytes chain vote = to_uint64 vote.height ∷ vote.block_id.hash

sequencer-sync_example :
    (bytes : List ℕ) × (sequencer_signature_bytes comet sources sign_bytes ev_header after.ds
      ≡ ok bytes)
    × (sync_signature_bytes comet sources sign_bytes ev_header txs node.ds ≡ ok bytes)
sequencer-sync_example =
    sequencer-sync adapter sign_bytes txs [] ev_header node after (42 ∷ []) codecs_lawful
      (omega arith) executed

abbrev block : Block
block = record {
  header = header_at (pos 2) [];
  txs = txs;
  evidence = (6 ∷ []) ∷ [];
  last_commit = no_commit;
}

-- A bus that refuses the evidence.
abbrev picky : Bus
picky (new_evidence e height) = err plain
picky event = ok tt

-- Addresses are the keys themselves.
abbrev keys : Keys
keys = record {
  address = λ raw. raw;
  ed25519_bytes = λ key. some key;
  unmarshal_ed25519 = λ raw. ok (record { is_ed25519 = true; raw = ok raw });
}

abbrev key : ℕ → LibKey
key n = record { is_ed25519 = true; raw = ok (replicate 32 n) }

validators_hasher_lem_example :
    (validators_hasher comet keys (key 1 ∷ key 2 ∷ []) (replicate 32 2) ≡ (
      raw_keys (key 1 ∷ key 2 ∷ []) >>= λ raws.
      require (has_address keys (replicate 32 2) raws) plain >> ok (hash_of comet keys raws)))
    × (validators_hasher comet keys (key 1 ∷ []) (replicate 32 2)
        ≡ sequencer_hash comet keys (replicate 32 2) (key 1))
validators_hasher_lem_example =
    validators_hasher_lem comet keys (key 1) (key 2 ∷ []) (replicate 32 2)

init_chain-Ended_example : Ended adapter [] 1 "test" node (init_chain adapter [] 1 "test" node)
init_chain-Ended_example = init_chain-Ended adapter [] 1 "test" node

founded : (init_chain adapter [] 1 "test" node).0 ≡ ok []
unfolding init_chain to_uint64 save_state set to_int64
founded = refl

-- A queue of two blocks, of heights 1 and 2, whose responses are saved.
abbrev stacked : ℤ → StackedEvent
stacked height = record {
  block_id = block_id;
  block = record {
    header = header_at height [];
    txs = txs;
    evidence = [];
    last_commit = no_commit;
  };
  abci_response = response;
  validator_updates = [];
}

abbrev queue : List StackedEvent
queue = stacked (pos 1) ∷ stacked (pos 2) ∷ stacked (pos 3) ∷ []

abbrev executed_node : Node ℕ
executed_node = record node {
  ds = (("br", b'1' ∷ []), found (0 ∷ [])) ∷ (("br", b'2' ∷ []), found (0 ∷ [])) ∷ [];
}

abbrev all_heights : ℤ → Bool
all_heights height = true

abbrev never : ℕ → Bool
never round = false

abbrev second_round : ℕ → Bool
second_round round = round == 1

abbrev final_node : Node ℕ
final_node = (set_final adapter all_heights never 2 queue executed_node).1

finalized :
    set_final adapter all_heights never 2 queue executed_node
    ≡ (ok (stacked (pos 3) ∷ []), final_node)
unfolding set_final release released release_event get_block_response get format_uint to_uint64
    to_int64 save_block_response set fire_events fire_txs fire_evidence publish
finalized = refl

set_final-order_example :
    (final_node.published ++ all_events (stacked (pos 3) ∷ []) ≡ [] ++ all_events queue)
    × IsHeld (is_released all_heights (to_int64 2)) (stacked (pos 3) ∷ [])
    × ((n : ℕ) × (stacked (pos 3) ∷ [] ≡ drop n queue)
        × EndsReleased (is_released all_heights (to_int64 2)) (take n queue))
set_final-order_example =
    set_final-order adapter all_heights never 2 queue (stacked (pos 3) ∷ []) executed_node
      final_node (λ j. refl) finalized

abbrev cancelled_node : Node ℕ
cancelled_node = (set_final adapter all_heights second_round 2 queue executed_node).1

cancelled :
    set_final adapter all_heights second_round 2 queue executed_node
    ≡ (ok (stacked (pos 3) ∷ []), cancelled_node)
unfolding set_final release released release_event get_block_response get format_uint to_uint64
    to_int64 save_block_response set fire_events fire_txs fire_evidence publish
cancelled = refl

two_released : released (is_released all_heights (to_int64 2)) queue ≡ 2
unfolding released to_int64
two_released = refl

set_final-lost_example :
    (cancelled_node.published ≡ [] ++ all_events (take 1 queue))
    × (stacked (pos 3) ∷ [] ≡ drop 2 queue)
set_final-lost_example =
    set_final-lost adapter all_heights second_round 2 1 queue (stacked (pos 3) ∷ []) executed_node
      cancelled_node (λ j below. ground arith) refl (omega (arith, two_released)) cancelled
