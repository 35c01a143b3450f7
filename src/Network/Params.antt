-- ===== src/Network/Params.antt =====
-- modules/network/types/params.go and the stateless part of modules/network/types/genesis.go.
pub mod Valid
use ev_abci.Prelude.{
  List, Result, String, [], bytes_eq, contains, eq_ℤ, int_eq, leb, leb_ℤ, length, ltb_ℤ, nat_eq,
  not, ok, or_fail, pair_eq, plain, pos, require, string_eq, ℕ, ℤ, ◌==◌, ◌^◌, ◌||◌, ◌∷◌,
}
use ev_abci.Prelude.Outcome.{◌>>=◌, ◌>>◌}
use ev_abci.Network.Types.{AttestationBitmap, Env, GenesisState, Params, ValidatorIndex}

-- `SignMode_SIGN_MODE_UNSPECIFIED` and `SignMode_SIGN_MODE_CHECKPOINT`.
abbrev pub sign_mode_unspecified : ℤ
sign_mode_unspecified = pos 0

abbrev pub sign_mode_checkpoint : ℤ
sign_mode_checkpoint = pos 1

-- `LegacyOneDec()`.
abbrev pub one_dec : ℤ
one_dec = pos (10 ^ 18)

-- `DefaultParams`.
unfoldable pub default_params : Params
default_params = record {
  epoch_length = 1;
  quorum_fraction = "0.667000000000000000";
  min_participation = "0.500000000000000000";
  prune_after = 1000;
  sign_mode = sign_mode_checkpoint;
}

unfoldable pub validate_epoch_length : ℕ → Result (Unit {0})
validate_epoch_length v = require (not (v == 0)) plain

unfoldable pub validate_quorum_fraction : Env → String → Result (Unit {0})
validate_quorum_fraction env v = do
  dec ← or_fail (env.dec_from_str v) plain
  require (not (leb_ℤ dec (pos 0) || ltb_ℤ one_dec dec)) plain

unfoldable pub validate_min_participation : Env → String → Result (Unit {0})
validate_min_participation env v = do
  dec ← or_fail (env.dec_from_str v) plain
  require (not (leb_ℤ dec (pos 0) || ltb_ℤ one_dec dec)) plain

unfoldable pub validate_prune_after : ℕ → Result (Unit {0})
validate_prune_after v = require (not (v == 0)) plain

unfoldable pub validate_sign_mode : ℤ → Result (Unit {0})
validate_sign_mode v = do
  require (not (eq_ℤ v sign_mode_unspecified)) plain
  require (eq_ℤ v sign_mode_checkpoint) plain

-- `Params.Validate`.
unfoldable pub validate : Env → Params → Result (Unit {0})
validate env p = do
  validate_epoch_length p.epoch_length
  validate_quorum_fraction env p.quorum_fraction
  validate_min_participation env p.min_participation
  validate_prune_after p.prune_after
  validate_sign_mode p.sign_mode

-- The loop of `GenesisState.Validate` over the validator indices.
unfoldable pub validate_indices : List String → List ℕ → List ValidatorIndex → Result (Unit {0})
validate_indices addresses used [] = ok tt
validate_indices addresses used (vi ∷ vis) =
    let rest = validate_indices (vi.address ∷ addresses) (vi.index ∷ used) vis in
    do
      require (not (contains vi.address addresses)) plain
      require (not (contains vi.index used)) plain
      rest

-- The loop over the attestation bitmaps.
unfoldable pub validate_bitmaps : List AttestationBitmap → Result (Unit {0})
validate_bitmaps [] = ok tt
validate_bitmaps (ab ∷ abs) =
    let rest = validate_bitmaps abs in
    do
      require (ltb_ℤ (pos 0) ab.height) plain
      require (leb ab.voted_power ab.total_power) plain
      rest

-- `GenesisState.Validate`.
unfoldable pub validate_genesis : Env → GenesisState → Result (Unit {0})
validate_genesis env gs = do
  validate env gs.params
  require (leb (length gs.validator_indices) 65535) plain
  validate_indices [] [] gs.validator_indices
  validate_bitmaps gs.attestation_bitmaps
