-- ===== src/Network/Genesis/Tests.antt =====
-- A genesis with two attesters, the later address first (modules/network/genesis.go).
use mathlib.Core.List.{Perm}
use ev_abci.Prelude.{
  List, String, [], arith, bytes_eq, found, get, int_eq, map, nat_eq, ok, pair_eq, refl, set,
  string_eq, ◌∷◌, ◌≡◌,
}
use ev_abci.Network.Types.{AttesterInfo, GenesisState, State, get_pub_key}
use ev_abci.Network.Keeper.{
  set_attester_info, set_attester_set_member, set_params, set_validator_index,
}
use ev_abci.Network.Params.{
  validate, validate_epoch_length, validate_min_participation, validate_prune_after,
  validate_quorum_fraction, validate_sign_mode,
}
use ev_abci.Network.Fixture.{params_two, sender, wiring}
use ev_abci.Network.Genesis.{
  bytes_ltb, empty_store, has_pub_key, init_genesis, insert_attester, load_bitmaps,
  normalize_attester, normalize_attesters, order_attesters, prepare_attesters, register_attester,
  register_attesters, sort_attesters, sort_key,
}
use ev_abci.Network.Export.{export_genesis}
use ev_abci.Network.Export.Ready.{canonical}
use ev_abci.Network.Export.Restored.{export_genesis-init_genesis, exported}
use ev_abci.Network.Genesis.Start.{Founded, Sorted, init_genesis-Founded}

abbrev named : String → AttesterInfo → AttesterInfo
named address info = record info { consensus_address = address }

abbrev two_attesters : GenesisState
two_attesters = record {
  params = params_two;
  validator_indices = [];
  attestation_bitmaps = [];
  attester_infos = named "old_b" (sender "b" 2) ∷ named "old_a" (sender "a" 1) ∷ [];
}

abbrev started : State
started = (init_genesis wiring two_attesters empty_store).1

starts : init_genesis wiring two_attesters empty_store ≡ (ok tt, started)
unfolding init_genesis prepare_attesters normalize_attesters get_pub_key sort_attesters has_pub_key
    load_bitmaps
starts = refl

first_is_a : get "a" started.validator_index ≡ found 0
unfolding init_genesis prepare_attesters get normalize_attesters normalize_attester get_pub_key
    sort_attesters has_pub_key load_bitmaps register_attesters order_attesters insert_attester
    bytes_ltb sort_key register_attester set_validator_index set set_attester_set_member
    set_attester_info set_params
first_is_a = refl

params_valid : validate wiring params_two ≡ ok tt
unfolding validate validate_epoch_length validate_quorum_fraction validate_min_participation
    validate_prune_after validate_sign_mode
params_valid = refl

init_genesis-Founded_example : Founded wiring two_attesters started
init_genesis-Founded_example =
    init_genesis-Founded wiring two_attesters params_valid (omega arith) refl starts

export_genesis-init_genesis_example :
    (attesters : List AttesterInfo) × Perm
      (map (canonical wiring) two_attesters.attester_infos)
      attesters
    × Sorted wiring attesters
    × (export_genesis wiring started ≡ ok (exported two_attesters attesters))
export_genesis-init_genesis_example = export_genesis-init_genesis wiring two_attesters refl starts
