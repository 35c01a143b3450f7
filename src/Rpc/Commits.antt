-- ===== src/Rpc/Commits.antt =====
-- The commits and the validator sets of pkg/rpc/core (blocks.go and consensus.go), made in attester
-- mode from the attester set and the signatures that the network module answers with.
pub mod Aligned
use ev_abci.Prelude.{
  Bool, Get, List, Map, Option, Result, String, [], bytes_eq, err, fail_as, failed, false, found,
  get, if◌then◌else◌, int_eq, leb, length, ltb, missing, nat_eq, ok, or_fail, pair_eq, panic, plain,
  pos, require, set, string_eq, to_int64, true, wrap64, ℕ, ℤ, ◌*◌, ◌+◌, ◌==◌, ◌∷◌,
}
use ev_abci.Prelude.Outcome.{◌>>=◌, ◌>>◌}
use ev_abci.Rpc.{normalize_height}
use ev_abci.Store.{Datastore, get_block_id}
use ev_abci.Adapter.Types.{Commit, CommitSig, Opaque, Validator, flag_absent, flag_commit}
use ev_abci.Adapter.Commits.{Sources, get_last_commit}

-- An answer of the application to a query.
pub record QueryAnswer : Type 0 where
  pub code : ℕ
  pub value : List ℕ

-- An entry of `QueryAttesterSetResponse`.
pub record SetEntry : Type 0 where
  pub index : ℕ
  pub consensus_address : String
  pub pubkey : Opaque

-- An entry of `QueryAttesterSignaturesResponse`.
pub record SignatureEntry : Type 0 where
  pub validator_address : String
  pub signature : List ℕ

-- What is read of the vote that an attester signed.
pub record SignedVote : Type 0 where
  pub timestamp : Opaque
  pub signature : List ℕ

-- `attesterSetEntry`.
pub record AttesterSetEntry : Type 0 where
  pub consensus_address : String
  pub validator_address : List ℕ
  pub pubkey : Opaque

-- The environment of the handlers. `height` is ev-node's; `attester_set` and `signatures` are the
-- answers to the two queries, which are then decoded.
pub record RpcEnv : Type 0 where
  pub attester_mode : Bool
  pub sources : Sources
  pub ds : Datastore
  pub height : Result ℕ
  pub attester_set : Result QueryAnswer
  pub signatures : ℤ → Result QueryAnswer
  pub decode_set : List ℕ → Result (List SetEntry)
  pub decode_signatures : List ℕ → Result (List SignatureEntry)
  pub decode_vote : List ℕ → Result SignedVote
  pub unpack_key : Opaque → Result Opaque
  pub key_address : Opaque → List ℕ
  pub comet_key : Opaque → Result Opaque

-- `sort.Slice` by index.
unfoldable pub insert_entry : SetEntry → List SetEntry → List SetEntry
insert_entry e [] = e ∷ []
insert_entry e (x ∷ xs) = if leb e.index x.index then e ∷ (x ∷ xs) else x ∷ insert_entry e xs

unfoldable pub sort_entries : List SetEntry → List SetEntry
unfolding insert_entry
sort_entries [] = []
sort_entries (e ∷ es) = insert_entry e (sort_entries es)

-- The value of a query that succeeded.
abbrev pub answer_value : QueryAnswer → Result (List ℕ)
answer_value answer = require (answer.code == 0) plain >> ok answer.value

module _ (env : RpcEnv) where
  -- The loop of `getAttesterSet`.
  unfoldable pub unpack_entries : List SetEntry → Result (List AttesterSetEntry)
  unpack_entries [] = ok []
  unpack_entries (e ∷ es) = do
    key ← env.unpack_key e.pubkey
    rest ← unpack_entries es
    ok (
        record {
          consensus_address = e.consensus_address;
          validator_address = env.key_address key;
          pubkey = key;
        }
        ∷ rest)

  -- `getAttesterSet`.
  unfoldable pub get_attester_set : Result (List AttesterSetEntry)
  unfolding sort_entries unpack_entries
  get_attester_set = do
    answer ← env.attester_set
    value ← answer_value answer
    entries ← env.decode_set value
    unpack_entries (sort_entries entries)

  -- The signatures by address; a later one replaces an earlier one.
  unfoldable pub signature_map : List SignatureEntry → Map String (List ℕ) → Map String (List ℕ)
  signature_map [] m = m
  signature_map (s ∷ ss) m = signature_map ss (set s.validator_address s.signature m)

  -- `getAttesterSignatures`.
  unfoldable pub get_attester_signatures : ℤ → Result (Map String (List ℕ))
  unfolding signature_map
  get_attester_signatures height = do
    answer ← env.signatures height
    value ← answer_value answer
    entries ← env.decode_signatures value
    ok (signature_map entries [])

  abbrev pub absent_sig : CommitSig
  absent_sig = record {
    block_id_flag = flag_absent;
    validator_address = [];
    timestamp = [];
    signature = [];
  }

  -- The commit signature of an attester, by the bytes of its vote, if any; and whether it counts.
  abbrev pub voted_sig : AttesterSetEntry → Result SignedVote → CommitSig × ℕ
  voted_sig e (err c) = (absent_sig, 0)
  voted_sig e (ok vote) = (
    record {
      block_id_flag = flag_commit;
      validator_address = e.validator_address;
      timestamp = vote.timestamp;
      signature = vote.signature;
    },
    1,
  )

  abbrev pub found_sig : AttesterSetEntry → Get (List ℕ) → CommitSig × ℕ
  found_sig e (found bytes) = voted_sig e (env.decode_vote bytes)
  found_sig e missing = (absent_sig, 0)
  found_sig e failed = (absent_sig, 0)

  -- The loop of `getCommitForHeight`: the signatures, and how many count.
  unfoldable pub commit_sigs : Map String (List ℕ) → List AttesterSetEntry → List CommitSig × ℕ
  commit_sigs signatures [] = ([], 0)
  commit_sigs signatures (e ∷ es) =
      let (sig, counted) = found_sig e (get e.consensus_address signatures) in
      let (sigs, signed) = commit_sigs signatures es in (sig ∷ sigs, counted + signed)

  -- `getCommitForHeight` in attester mode.
  unfoldable pub attested_commit : ℕ → Result Commit
  unfolding commit_sigs
  attested_commit height = do
    block_id ← get_block_id env.sources.codecs.is_nil env.sources.codecs.ids height env.ds
    entries ← get_attester_set
    signatures ← get_attester_signatures (to_int64 height)
    let sigs = commit_sigs signatures entries
    require (ltb (length entries * 2) (sigs.1 * 3)) plain
    ok (record { height = to_int64 height; round = 0; block_id = block_id; signatures = sigs.0 })

  -- `getCommitForHeight`.
  unfoldable pub get_commit_for_height : ℕ → Result Commit
  unfolding attested_commit
  get_commit_for_height height =
      if env.attester_mode
      then attested_commit height
      else get_last_commit env.sources (wrap64 (height + 1)) env.ds

  -- `buildValidatorSetFromAttesterSet`, after its check for an empty set.
  unfoldable pub build_validators : List AttesterSetEntry → Result (List Validator)
  build_validators [] = ok []
  build_validators (e ∷ es) = do
    key ← env.comet_key e.pubkey
    rest ← build_validators es
    ok (record { address = e.validator_address; pub_key = key; power = pos 1 } ∷ rest)

  unfoldable pub build_validator_set : List AttesterSetEntry → Result (List Validator)
  unfolding build_validators
  build_validator_set entries = do require (ltb 0 (length entries)) plain; build_validators entries

  -- The validators of the genesis; there should be exactly one.
  abbrev pub only_validator : List Validator → Result (List Validator)
  only_validator [] = err plain
  only_validator (v ∷ []) = ok (v ∷ [])
  only_validator (v ∷ (w ∷ vs)) = err plain

  -- `getGenesisValidatorSet`; a genesis that is not loaded is a nil pointer.
  unfoldable pub get_genesis_validators : Result (List Validator)
  get_genesis_validators = do
    genesis ← or_fail env.sources.genesis panic
    only_validator genesis.validators

  -- The validators of the node's mode.
  unfoldable pub mode_validators : Bool → Result (List Validator)
  unfolding build_validator_set get_genesis_validators
  mode_validators true = get_attester_set >>= build_validator_set
  mode_validators false = get_genesis_validators

  -- `Validators`.
  unfoldable pub validators : Option ℤ → Result (ℤ × List Validator)
  unfolding mode_validators
  validators height = do
    normal ← fail_as plain (normalize_height env.height height)
    vs ← mode_validators env.attester_mode
    ok (to_int64 normal, vs)
