-- ===== src/Network/Tests.antt =====
-- Runs of the network module on a network with three attesters (modules/network).
use ev_abci.Prelude.{
  [], arith, bytes_eq, false, found, get, inc64, int_eq, ltb, nat_eq, ok, pair_eq, pos, refl, set,
  string_eq, to_int64, to_uint64, true, ◌*◌, ◌↔◌, ◌∷◌, ◌≡◌,
}
use ev_abci.Network.Types.{MsgAttest, MsgUpdateParams, State, get_pub_key}
use ev_abci.Network.Bitmap.{is_set, new_bitmap, set_bit}
use ev_abci.Network.Keeper.{
  attestation_retention_boundary, calculate_voted_power, check_quorum, get_all_attesters,
  get_attestation_bitmap, get_current_epoch, get_epoch_bitmap, get_last_attested_height, get_params,
  get_total_power, get_validator_index, get_validator_power, is_soft_confirmed, prune_old_bitmaps,
  prunes_height, set_attestation_bitmap, set_epoch_bitmap, set_last_attested_height, set_signature,
  update_last_attested_height, voted_power_from,
}
use ev_abci.Network.Keeper.Retention.{Prunes, prune_old_bitmaps-PrunedAt}
use ev_abci.Network.Params.{validate}
use ev_abci.Network.Params.Valid.{Accepted, validate_iff}
use ev_abci.Network.Vote.{
  admit_attest, assert_retained, assert_valid_validator_authority, not_pruned, verify_vote,
}
use ev_abci.Network.Vote.Window.{Agrees, assert_retained-pruned, pruned}
use ev_abci.Network.Vote.Admit.{Admitted, admit_attest-Admitted}
use ev_abci.Network.Invariant.{IsValid, size}
use ev_abci.Network.Invariant.Confirmed.{is_soft_confirmed-votes, votes}
use ev_abci.Network.MsgServer.{attest, count_votes, mark_epoch, record_attest, update_params}
use ev_abci.Network.MsgServer.Effects.{Decided, Records, Refused, attest-Records, attest-cases}
use ev_abci.Network.MsgServer.Progress.{Moves, attest-IsValid, attest-Moves, attest_twice}
use ev_abci.Network.MsgServer.Govern.{Governs, update_params-IsValid, update_params-cases}
use ev_abci.Network.EndBlocker.{end_blocker}
use ev_abci.Network.EndBlocker.Blocks.{ended}
use ev_abci.Network.EndBlocker.Total.{end_blocker_lem}
use ev_abci.Network.Run.{
  Extends, Run, Run-Extends, Run-IsValid, by_attest, by_block_end, next, stop,
}
use ev_abci.Network.Fixture.{
  at_block, params_two, signed_vote, three, three-IsValid, vote_of, wiring,
}

-- The first of three votes, at block 4 for height 4.
abbrev first_vote : MsgAttest
first_vote = vote_of "a" 1 4

abbrev after_one : State
after_one = (attest wiring (at_block 4) first_vote three).1

attest_first : attest wiring (at_block 4) first_vote three ≡ (ok tt, after_one)
unfolding attest admit_attest get set assert_valid_validator_authority verify_vote
    get_validator_index inc64 get_current_epoch assert_retained attestation_retention_boundary
    get_attestation_bitmap is_set new_bitmap get_all_attesters record_attest count_votes
    calculate_voted_power set_bit get_validator_power set_signature check_quorum get_epoch_bitmap
    get_last_attested_height get_params get_total_power prunes_height set_attestation_bitmap
    set_epoch_bitmap set_last_attested_height update_last_attested_height voted_power_from
    mark_epoch get_pub_key not_pruned to_int64 to_uint64 is_soft_confirmed
attest_first = refl

abbrev after_two : State
after_two = (attest wiring (at_block 4) (vote_of "b" 2 4) after_one).1

abbrev after_three : State
after_three = (attest wiring (at_block 5) (vote_of "c" 3 4) after_two).1

two_are_few : is_soft_confirmed wiring (pos 4) after_two ≡ ok false
unfolding attest admit_attest get set assert_valid_validator_authority verify_vote
    get_validator_index inc64 get_current_epoch assert_retained attestation_retention_boundary
    get_attestation_bitmap is_set new_bitmap get_all_attesters record_attest count_votes
    calculate_voted_power set_bit get_validator_power set_signature check_quorum get_epoch_bitmap
    get_last_attested_height get_params get_total_power prunes_height set_attestation_bitmap
    set_epoch_bitmap set_last_attested_height update_last_attested_height voted_power_from
    mark_epoch get_pub_key not_pruned to_int64 to_uint64 is_soft_confirmed
two_are_few = refl

three_confirm : is_soft_confirmed wiring (pos 4) after_three ≡ ok true
unfolding attest admit_attest get set assert_valid_validator_authority verify_vote
    get_validator_index inc64 get_current_epoch assert_retained attestation_retention_boundary
    get_attestation_bitmap is_set new_bitmap get_all_attesters record_attest count_votes
    calculate_voted_power set_bit get_validator_power set_signature check_quorum get_epoch_bitmap
    get_last_attested_height get_params get_total_power prunes_height set_attestation_bitmap
    set_epoch_bitmap set_last_attested_height update_last_attested_height voted_power_from
    mark_epoch get_pub_key not_pruned to_int64 to_uint64 is_soft_confirmed
three_confirm = refl

after_one-IsValid : IsValid wiring after_one
after_one-IsValid = attest-IsValid wiring (at_block 4) first_vote three three-IsValid

is_soft_confirmed-votes_example :
    is_soft_confirmed wiring (pos 4) after_one
    ≡ ok (ltb (2 * size after_one) (3 * votes (pos 4) after_one))
is_soft_confirmed-votes_example = is_soft_confirmed-votes wiring after_one (pos 4) after_one-IsValid

attest_twice_example : Refused (attest wiring (at_block 5) first_vote after_one) after_one
attest_twice_example =
    attest_twice wiring (at_block 4) (at_block 5) first_vote first_vote three three-IsValid
      attest_first refl refl

-- The third vote.
abbrev third_vote : MsgAttest
third_vote = vote_of "c" 3 4

attest_third : attest wiring (at_block 5) third_vote after_two ≡ (ok tt, after_three)
unfolding attest admit_attest get set assert_valid_validator_authority verify_vote
    get_validator_index inc64 get_current_epoch assert_retained attestation_retention_boundary
    get_attestation_bitmap is_set new_bitmap get_all_attesters record_attest count_votes
    calculate_voted_power set_bit get_validator_power set_signature check_quorum get_epoch_bitmap
    get_last_attested_height get_params get_total_power prunes_height set_attestation_bitmap
    set_epoch_bitmap set_last_attested_height update_last_attested_height voted_power_from
    mark_epoch get_pub_key not_pruned to_int64 to_uint64 is_soft_confirmed
attest_third = refl

after_two-IsValid : IsValid wiring after_two
after_two-IsValid = attest-IsValid wiring (at_block 4) (vote_of "b" 2 4) after_one after_one-IsValid

third_index : get "c" after_two.validator_index ≡ found 2
unfolding attest admit_attest get set assert_valid_validator_authority verify_vote
    get_validator_index inc64 get_current_epoch assert_retained attestation_retention_boundary
    get_attestation_bitmap is_set new_bitmap get_all_attesters record_attest count_votes
    calculate_voted_power set_bit get_validator_power set_signature check_quorum get_epoch_bitmap
    get_last_attested_height get_params get_total_power prunes_height set_attestation_bitmap
    set_epoch_bitmap set_last_attested_height update_last_attested_height voted_power_from
    mark_epoch get_pub_key not_pruned to_int64 to_uint64 is_soft_confirmed
third_index = refl

attest-Records_example : Records third_vote 2 after_two after_three
attest-Records_example =
    attest-Records wiring (at_block 5) third_vote after_two after_two-IsValid third_index
      attest_third

attest-Moves_example : Moves wiring (pos 4) after_two after_three
attest-Moves_example =
    attest-Moves wiring (at_block 5) third_vote after_two after_two-IsValid attest_third

attest-cases_example : Decided wiring (at_block 4) first_vote params_two three
unfolding three-IsValid
attest-cases_example = attest-cases wiring (at_block 4) first_vote three three-IsValid

verify_first : verify_vote wiring (at_block 4) "a" (4 ∷ 1 ∷ []) (pos 4) three ≡ ok (signed_vote 4 1)
unfolding attest admit_attest get set assert_valid_validator_authority verify_vote
    get_validator_index inc64 get_current_epoch assert_retained attestation_retention_boundary
    get_attestation_bitmap is_set new_bitmap get_all_attesters record_attest count_votes
    calculate_voted_power set_bit get_validator_power set_signature check_quorum get_epoch_bitmap
    get_last_attested_height get_params get_total_power prunes_height set_attestation_bitmap
    set_epoch_bitmap set_last_attested_height update_last_attested_height voted_power_from
    mark_epoch get_pub_key not_pruned to_int64 to_uint64 is_soft_confirmed
verify_first = refl

admit_first : admit_attest wiring (at_block 4) first_vote three ≡ ok (0, 0 ∷ [])
unfolding attest admit_attest get set assert_valid_validator_authority verify_vote
    get_validator_index inc64 get_current_epoch assert_retained attestation_retention_boundary
    get_attestation_bitmap is_set new_bitmap get_all_attesters record_attest count_votes
    calculate_voted_power set_bit get_validator_power set_signature check_quorum get_epoch_bitmap
    get_last_attested_height get_params get_total_power prunes_height set_attestation_bitmap
    set_epoch_bitmap set_last_attested_height update_last_attested_height voted_power_from
    mark_epoch get_pub_key not_pruned to_int64 to_uint64 is_soft_confirmed
admit_first = refl

admit_attest-Admitted_example : Admitted wiring (at_block 4) first_vote three 0 (0 ∷ [])
admit_attest-Admitted_example =
    admit_attest-Admitted wiring (at_block 4) first_vote three admit_first

assert_retained-pruned_example :
    Agrees (assert_retained 5 (pos 3) three) (pos 3) three (pruned 4 three)
assert_retained-pruned_example = assert_retained-pruned 5 (pos 3) three (omega arith)

prune_old_bitmaps-PrunedAt_example : Prunes 4 (pos 8) after_three (prune_old_bitmaps 5 after_three)
unfolding attest admit_attest get set assert_valid_validator_authority verify_vote
    get_validator_index inc64 get_current_epoch assert_retained attestation_retention_boundary
    get_attestation_bitmap is_set new_bitmap get_all_attesters record_attest count_votes
    calculate_voted_power set_bit get_validator_power set_signature check_quorum get_epoch_bitmap
    get_last_attested_height get_params get_total_power prunes_height set_attestation_bitmap
    set_epoch_bitmap set_last_attested_height update_last_attested_height voted_power_from
    mark_epoch get_pub_key not_pruned to_int64 to_uint64 is_soft_confirmed
prune_old_bitmaps-PrunedAt_example =
    prune_old_bitmaps-PrunedAt 5 after_three refl (omega arith) (omega arith) (omega arith)
      (omega arith)

-- A change of the epoch length by the authority of the module.
abbrev new_params : MsgUpdateParams
new_params = record { authority = "gov"; params = record params_two { epoch_length = 7 } }

update_params-cases_example : Governs wiring new_params three
update_params-cases_example = update_params-cases wiring new_params three

update_params-IsValid_example : IsValid wiring (update_params wiring new_params three).1
update_params-IsValid_example = update_params-IsValid wiring new_params three three-IsValid

validate_iff_example : (validate wiring params_two ≡ ok tt) ↔ Accepted wiring params_two
validate_iff_example = validate_iff wiring params_two

end_blocker_lem_example :
    end_blocker wiring (at_block 3) three ≡ (ok tt, ended wiring (at_block 3) params_two three)
unfolding three-IsValid
end_blocker_lem_example =
    end_blocker_lem wiring (at_block 3) three three-IsValid (true ∷ false ∷ []) refl

-- A vote, the end of its block, and a vote in the next one.
abbrev block_ended : State
block_ended = (end_blocker wiring (at_block 4) after_one).1

abbrev voted_again : State
voted_again = (attest wiring (at_block 5) (vote_of "b" 2 4) block_ended).1

two_blocks : Run wiring three voted_again
two_blocks = next (by_attest (at_block 4) first_vote three) (
    next (by_block_end (at_block 4) (true ∷ false ∷ []) after_one refl)
      (next (by_attest (at_block 5) (vote_of "b" 2 4) block_ended) (stop voted_again)))

Run-IsValid_example : IsValid wiring voted_again
Run-IsValid_example = Run-IsValid wiring two_blocks three-IsValid

Run-Extends_example : Extends three voted_again
Run-Extends_example = Run-Extends wiring two_blocks three-IsValid
