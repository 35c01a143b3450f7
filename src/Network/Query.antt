-- ===== src/Network/Query.antt =====
-- modules/network/keeper/grpc_query.go: the queries. A nil request is `none`.
pub mod Answers
mod Tests
use ev_abci.Prelude.{
  Bool, List, Map, Option, Result, String, [], bytes_eq, err, fetch, if◌then◌else◌, int_eq,
  invalid_argument, leb, length, ltb, nat_eq, none, not_found, ok, or_fail, pair_eq, pos, set, some,
  string_eq, to_int64, wrap64, ℕ, ℤ, ◌&&◌, ◌*◌, ◌+◌, ◌-◌, ◌^◌, ◌∷◌,
}
use ev_abci.Prelude.Outcome.{◌>>=◌, ◌>>◌}
use ev_abci.Network.Types.{
  AttestationBitmap, AttesterInfo, Env, Params, PubKey, State, ValidatorIndex,
}
use ev_abci.Network.Bitmap.{is_set, pop_count}
use ev_abci.Network.Keeper.{
  calculate_voted_power, get_attestation_bitmap, get_attester_info, get_epoch_bitmap,
  get_last_attested_height, get_params, get_signature, get_total_power, get_validator_index,
  get_validator_power, is_soft_confirmed,
}
use ev_abci.Network.EndBlocker.{count_bonded}

pub record EpochInfo : Type 0 where
  pub epoch : ℕ
  pub start_height : ℤ
  pub end_height : ℤ
  pub participation_bitmap : List ℕ
  pub active_validators : ℕ
  pub participating_validators : ℕ

pub record SoftConfirmation : Type 0 where
  pub soft_confirmed : Bool
  pub voted_power : ℕ
  pub total_power : ℕ
  pub quorum_fraction : String

-- The query `Params`.
unfoldable pub query_params : Option (Unit {0}) → State → Result Params
query_params req s = do or_fail req invalid_argument; get_params s

-- The query `AttestationBitmap`.
unfoldable pub query_attestation_bitmap : Env → Option ℤ → State → Result AttestationBitmap
query_attestation_bitmap env req s = do
  height ← or_fail req invalid_argument
  stored ← get_attestation_bitmap height s
  bitmap ← or_fail stored not_found
  voted_power ← calculate_voted_power bitmap s
  soft_confirmed ← is_soft_confirmed env height s
  ok (record {
    height = height;
    bitmap = bitmap;
    voted_power = voted_power;
    total_power = get_total_power s;
    soft_confirmed = soft_confirmed;
  })

-- `int64(epoch * length)` and `int64((epoch+1)*length - 1)`.
unfoldable pub epoch_start : ℕ → ℕ → ℤ
epoch_start epoch epoch_length = to_int64 (wrap64 (epoch * epoch_length))

unfoldable pub epoch_end : ℕ → ℕ → ℤ
epoch_end epoch epoch_length = to_int64 (wrap64 (wrap64 (epoch + 1) * epoch_length + (2 ^ 64 - 1)))

-- The answer of `EpochInfo` for an epoch's bitmap.
unfoldable pub epoch_info_of : Env → ℕ → Params → Option (List ℕ) → Result EpochInfo
epoch_info_of env epoch params none = ok (record {
  epoch = epoch;
  start_height = epoch_start epoch params.epoch_length;
  end_height = epoch_end epoch params.epoch_length;
  participation_bitmap = [];
  active_validators = 0;
  participating_validators = 0;
})
epoch_info_of env epoch params (some bitmap) = do
  bonded ← env.last_validators_bonded
  ok (record {
    epoch = epoch;
    start_height = epoch_start epoch params.epoch_length;
    end_height = epoch_end epoch params.epoch_length;
    participation_bitmap = bitmap;
    active_validators = count_bonded bonded;
    participating_validators = pop_count bitmap;
  })

-- The query `EpochInfo`.
unfoldable pub query_epoch_info : Env → Option ℕ → State → Result EpochInfo
query_epoch_info env req s = do
  epoch ← or_fail req invalid_argument
  params ← get_params s
  epoch_info_of env epoch params (get_epoch_bitmap epoch s)

-- The query `ValidatorIndex`.
unfoldable pub query_validator_index : Option String → State → Result ValidatorIndex
query_validator_index req s = do
  address ← or_fail req invalid_argument
  index ← or_fail (get_validator_index address s) not_found
  power ← get_validator_power index s
  ok (record { address = address; index = index; power = power })

-- The voted power of a height, zero without a bitmap.
unfoldable pub voted_power_of : Option (List ℕ) → State → Result ℕ
voted_power_of none s = ok 0
voted_power_of (some bitmap) s = calculate_voted_power bitmap s

-- The query `SoftConfirmationStatus`.
unfoldable pub query_soft_confirmation_status : Env → Option ℤ → State → Result SoftConfirmation
query_soft_confirmation_status env req s = do
  height ← or_fail req invalid_argument
  soft_confirmed ← is_soft_confirmed env height s
  bitmap ← get_attestation_bitmap height s
  voted_power ← voted_power_of bitmap s
  params ← get_params s
  ok (record {
    soft_confirmed = soft_confirmed;
    voted_power = voted_power;
    total_power = get_total_power s;
    quorum_fraction = params.quorum_fraction;
  })

-- The walk of `GetAllSignaturesForHeight` over the validator indices.
unfoldable pub indexed_attesters : Map String ℕ → Result (List (String × ℕ))
indexed_attesters [] = ok []
indexed_attesters ((addr, index) ∷ entries) =
    let others = indexed_attesters entries in
    do i ← fetch index; attesters ← others; ok ((addr, i) ∷ attesters)

-- The signatures of the attesters that a bitmap marks, as a Go map.
unfoldable pub marked_signatures : ℤ → List ℕ → List (String × ℕ) → State → Map String (List ℕ)
marked_signatures height bitmap [] s = []
marked_signatures height bitmap ((addr, index) ∷ attesters) s =
    let signatures = marked_signatures height bitmap attesters s in
    if ltb index (length bitmap * 8) && is_set bitmap (pos index)
    then elim (get_signature height addr s) [
      | ok signature ↦ set addr signature signatures
      | err e ↦ signatures
    ]
    else signatures

unfoldable pub signatures_of : ℤ → Option (List ℕ) → State → Result (Map String (List ℕ))
signatures_of height none s = ok []
signatures_of height (some bitmap) s = do
  attesters ← indexed_attesters s.validator_index
  ok (marked_signatures height bitmap attesters s)

-- `GetAllSignaturesForHeight`, up to the order of the keys.
unfoldable pub get_all_signatures_for_height : ℤ → State → Result (Map String (List ℕ))
get_all_signatures_for_height height s = do
  bitmap ← get_attestation_bitmap height s
  signatures_of height bitmap s

-- The query `AttesterSignatures`.
unfoldable pub query_attester_signatures : Option ℤ → State → Result (Map String (List ℕ))
query_attester_signatures req s = do
  height ← or_fail req invalid_argument
  get_all_signatures_for_height height s

-- The query `LastAttestedHeight`.
unfoldable pub query_last_attested_height : Option (Unit {0}) → State → Result ℤ
query_last_attested_height req s = do or_fail req invalid_argument; get_last_attested_height s

-- The query `AttesterInfo`.
unfoldable pub query_attester_info : Option String → State → Result AttesterInfo
query_attester_info req s = do address ← or_fail req invalid_argument; get_attester_info address s

-- An entry of the answer to `AttesterSet`.
pub record AttesterEntry : Type 0 where
  pub authority : String
  pub consensus_address : String
  pub index : ℕ
  pub pubkey : Option PubKey

-- The walk of `AttesterSet` over the validator indices.
unfoldable pub attester_entries : Map String ℕ → State → Result (List AttesterEntry)
attester_entries [] s = ok []
attester_entries ((addr, index) ∷ entries) s = do
  i ← fetch index
  info ← get_attester_info addr s
  others ← attester_entries entries s
  ok (
      record {
        authority = info.authority;
        consensus_address = addr;
        index = i;
        pubkey = info.pubkey;
      }
      ∷ others)

-- `sort.Slice` by index.
unfoldable pub insert_by_index : AttesterEntry → List AttesterEntry → List AttesterEntry
insert_by_index e [] = e ∷ []
insert_by_index e (x ∷ xs) = if leb e.index x.index then e ∷ (x ∷ xs) else x ∷ insert_by_index e xs

unfoldable pub order_by_index : List AttesterEntry → List AttesterEntry
unfolding insert_by_index
order_by_index [] = []
order_by_index (e ∷ es) = insert_by_index e (order_by_index es)

-- The query `AttesterSet`. Indices differ, so the order does not depend on that of the walk.
unfoldable pub query_attester_set : Option (Unit {0}) → State → Result (List AttesterEntry)
unfolding attester_entries order_by_index
query_attester_set req s = do
  or_fail req invalid_argument
  entries ← attester_entries s.validator_index s
  ok (order_by_index entries)
