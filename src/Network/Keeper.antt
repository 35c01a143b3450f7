-- ===== src/Network/Keeper.antt =====
-- modules/network/keeper/keeper.go: reads of the store, the quorum and the pruning.

pub mod Quorum
pub mod Retention
use ev_abci.Prelude.{
  Bool, List, Option, Result, String, bytes_eq, clear, contains, decoding, err, failed, false,
  fetch, fetch_opt, filter, found, get, if◌then◌else◌, int_eq, leb, leb_ℤ, length, ltb, ltb_ℤ,
  missing, nat_eq, none, not, ok, or_fail, pair_eq, panic, plain, pos, require, same, set, some,
  string_eq, suc, to_int64, to_uint64, true, value_of, wrap64, zero, ℕ, ℤ, ◌%◌, ◌&&◌, ◌*◌, ◌+◌, ◌-◌,
  ◌/◌, ◌==◌, ◌^◌, ◌||◌, ◌∷◌,
}
use ev_abci.Prelude.Outcome.{◌>>=◌, ◌>>◌}
use ev_abci.Network.Types.{AttesterInfo, BlockId, Ctx, Env, Params, State, zero_params}
use ev_abci.Network.Bitmap.{is_set}

-- `SetBlockIDProvider`.
unfoldable pub set_block_id_provider : (ℕ → Result (Option BlockId)) → Env → Env
set_block_id_provider p env = record env { block_id_provider = some p }

-- `GetParams`: absent parameters read as `Params{}`, and a failing read panics.
unfoldable pub get_params : State → Result Params
get_params s = elim s.params [ found p ↦ ok p | missing ↦ ok zero_params | failed ↦ err panic ]

-- `SetParams`.
unfoldable pub set_params : Params → State → State
set_params p s = record s { params = found p }

-- `SetValidatorIndex`.
unfoldable pub set_validator_index : String → ℕ → ℕ → State → State
set_validator_index addr index power s = record s {
  validator_index = set addr index s.validator_index;
  validator_power = set index power s.validator_power;
}

-- `GetValidatorIndex`: any failure counts as not found.
unfoldable pub get_validator_index : String → State → Option ℕ
get_validator_index addr s = value_of (get addr s.validator_index)

-- `GetValidatorPower`.
unfoldable pub get_validator_power : ℕ → State → Result ℕ
get_validator_power index s = fetch (get index s.validator_power)

-- `SetAttestationBitmap`.
unfoldable pub set_attestation_bitmap : ℤ → List ℕ → State → State
set_attestation_bitmap height bitmap s = record s {
  attestation_bitmap = set height bitmap s.attestation_bitmap;
}

-- `GetAttestationBitmap`, as its callers use it: `none` stands for a nil bitmap.
unfoldable pub get_attestation_bitmap : ℤ → State → Result (Option (List ℕ))
get_attestation_bitmap height s = fetch_opt (get height s.attestation_bitmap)

-- `SetEpochBitmap`.
unfoldable pub set_epoch_bitmap : ℕ → List ℕ → State → State
set_epoch_bitmap epoch bitmap s = record s { epoch_bitmap = set epoch bitmap s.epoch_bitmap }

-- `GetEpochBitmap`: any failure reads as nil.
unfoldable pub get_epoch_bitmap : ℕ → State → Option (List ℕ)
get_epoch_bitmap epoch s = value_of (get epoch s.epoch_bitmap)

-- `IsInAttesterSet`.
unfoldable pub is_in_attester_set : String → State → Bool
is_in_attester_set addr s = contains addr s.attester_set

-- `SetAttesterSetMember`.
unfoldable pub set_attester_set_member : String → State → State
set_attester_set_member addr s = record s {
  attester_set = if contains addr s.attester_set then s.attester_set else addr ∷ s.attester_set;
}

-- `RemoveAttesterSetMember`.
unfoldable pub remove_attester_set_member : String → State → State
remove_attester_set_member addr s = record s {
  attester_set = filter (λ a. not (same a addr)) s.attester_set;
}

-- `GetAllAttesters`, up to the order of the keys.
unfoldable pub get_all_attesters : State → List String
get_all_attesters s = s.attester_set

-- `GetCurrentEpoch`: an epoch length of zero panics.
unfoldable pub get_current_epoch : Ctx → State → Result ℕ
unfolding get_params
get_current_epoch ctx s = do
  params ← get_params s
  require (ltb 0 params.epoch_length) panic
  ok (to_uint64 ctx.block_height / params.epoch_length)

-- `IsCheckpointHeight`.
unfoldable pub is_checkpoint_height : ℤ → State → Result Bool
is_checkpoint_height height s = elim s.params [
  | found params ↦
      require (ltb 0 params.epoch_length) panic >> ok (to_uint64 height % params.epoch_length == 0)
  | missing ↦ ok false
  | failed ↦ ok false
]

-- The loop of `CalculateVotedPower`, from index `i` on with `rounds` to go.
unfoldable pub voted_power_from : ℕ → ℕ → List ℕ → ℕ → State → Result ℕ
voted_power_from zero i bitmap voted_power s = ok voted_power
voted_power_from (suc rounds) i bitmap voted_power s = elim (is_set bitmap (pos i)) [
  | true ↦ do
    power ← get_validator_power (i % 2 ^ 16) s
    voted_power_from rounds (suc i) bitmap (wrap64 (voted_power + power)) s
  | false ↦ voted_power_from rounds (suc i) bitmap voted_power s
]

-- `CalculateVotedPower`.
unfoldable pub calculate_voted_power : List ℕ → State → Result ℕ
unfolding voted_power_from
calculate_voted_power bitmap s = voted_power_from (length bitmap * 8) 0 bitmap 0 s

-- `GetTotalPower`.
unfoldable pub get_total_power : State → ℕ
unfolding get_all_attesters
get_total_power s = wrap64 (length (get_all_attesters s))

-- `CheckQuorum`: the products are uint64 and wrap.
unfoldable pub check_quorum : Env → ℕ → ℕ → State → Result Bool
unfolding get_params
check_quorum env voted_power total_power s = do
  params ← get_params s
  fraction ← or_fail (env.dec_from_str params.quorum_fraction) plain
  ok (ltb (wrap64 (total_power * 2)) (wrap64 (voted_power * 3)))

-- `IsSoftConfirmed`.
unfoldable pub is_soft_confirmed : Env → ℤ → State → Result Bool
is_soft_confirmed env height s = do
  found_bitmap ← get_attestation_bitmap height s
  elim found_bitmap [
    | none ↦ ok false
    | some bitmap ↦ do
      voted_power ← calculate_voted_power bitmap s
      check_quorum env voted_power (get_total_power s) s
  ]

-- `attestationRetentionBoundary`.
pub record Boundary : Type 0 where
  pub first_retained_epoch : ℕ
  pub first_retained_height : ℤ

-- `prunesHeight`.
unfoldable pub prunes_height : Boundary → ℤ → Bool
prunes_height b height = ltb_ℤ height b.first_retained_height

-- The method `attestationRetentionBoundary`; the product is uint64, read as int64.
unfoldable pub attestation_retention_boundary : ℕ → State → Result (Option Boundary)
unfolding get_params
attestation_retention_boundary current_epoch s = do
  params ← get_params s
  ok (
      if params.prune_after == 0 || params.epoch_length == 0
      then none
      else if leb current_epoch params.prune_after
      then none
      else some (record {
        first_retained_epoch = current_epoch - params.prune_after;
        first_retained_height =
            to_int64 (wrap64 ((current_epoch - params.prune_after) * params.epoch_length));
      }))

-- Heights from zero up to the boundary, excluded.
abbrev pub height_range : ℤ → ℤ → Bool
height_range end height = leb_ℤ (pos 0) height && ltb_ℤ height end

-- The four `Clear` calls of `PruneOldBitmaps`. Signatures have no lower end, and every key below
-- `Join(height, "")` has a smaller height.
unfoldable pub prune_below : Boundary → State → State
prune_below b s = record s {
  attestation_bitmap = clear (height_range b.first_retained_height) s.attestation_bitmap;
  stored_attestation_info = clear (height_range b.first_retained_height) s.stored_attestation_info;
  epoch_bitmap = clear (λ epoch. ltb epoch b.first_retained_epoch) s.epoch_bitmap;
  signatures = clear (λ k. ltb_ℤ k.0 b.first_retained_height) s.signatures;
}

unfoldable pub prune_at : Result (Option Boundary) → State → Result (Unit {0}) × State
prune_at (ok none) s = (ok tt, s)
prune_at (ok (some boundary)) s = (ok tt, prune_below boundary s)
prune_at (err e) s = (err e, s)

-- `PruneOldBitmaps`.
unfoldable pub prune_old_bitmaps : ℕ → State → Result (Unit {0}) × State
unfolding prune_at
prune_old_bitmaps current_epoch s = prune_at (attestation_retention_boundary current_epoch s) s

-- `SetSignature`.
unfoldable pub set_signature : ℤ → String → List ℕ → State → State
set_signature height addr signature s = record s {
  signatures = set (height, addr) signature s.signatures;
}

-- `GetSignature`.
unfoldable pub get_signature : ℤ → String → State → Result (List ℕ)
get_signature height addr s = fetch (get (height, addr) s.signatures)

-- `HasSignature`: a key is there also where its value does not decode.
unfoldable pub has_signature : ℤ → String → State → Bool
has_signature height addr s = elim (get (height, addr) s.signatures) [
  | found _ ↦ true
  | missing ↦ false
  | failed ↦ true
]

-- `GetLastAttestedHeight`.
unfoldable pub get_last_attested_height : State → Result ℤ
get_last_attested_height s = elim s.last_attested_height [
  | found height ↦ ok height
  | missing ↦ ok (pos 0)
  | failed ↦ err decoding
]

-- `SetLastAttestedHeight`.
unfoldable pub set_last_attested_height : ℤ → State → State
set_last_attested_height height s = record s { last_attested_height = found height }

-- `UpdateLastAttestedHeight`.
unfoldable pub update_last_attested_height : ℤ → State → Result (Unit {0}) × State
update_last_attested_height height s = elim (get_last_attested_height s) [
  | ok current ↦ (ok tt, if ltb_ℤ current height then set_last_attested_height height s else s)
  | err e ↦ (err e, s)
]

-- `SetAttesterInfo`.
unfoldable pub set_attester_info : String → AttesterInfo → State → State
set_attester_info addr info s = record s { attester_info = set addr info s.attester_info }

-- `GetAttesterInfo`.
unfoldable pub get_attester_info : String → State → Result AttesterInfo
get_attester_info addr s = fetch (get addr s.attester_info)
