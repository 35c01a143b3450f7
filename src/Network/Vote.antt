-- ===== src/Network/Vote.antt =====
-- The checks of modules/network/keeper/msg_server.go: who may attest, and for what.
pub mod Window
pub mod Admit
use ev_abci.Prelude.{
  Error, Get, List, Option, Result, String, [], bytes_beq, bytes_eq, decoding, eq_ℤ, err, fail_as,
  failed, found, get, if◌then◌else◌, inc64, int_eq, invalid_request, leb_ℤ, length, logic, ltb,
  missing, nat_eq, none, not, ok, or_fail, pair_eq, pos, require, same, some, string_eq, to_uint64,
  unauthorized, unknown_key, ℕ, ℤ, ◌-◌,
}
use ev_abci.Prelude.Outcome.{◌>>=◌, ◌>>◌}
use ev_abci.Network.Types.{AttesterInfo, Ctx, Env, MsgAttest, State, Vote, get_pub_key}
use ev_abci.Network.Bitmap.{is_set, new_bitmap}
use ev_abci.Network.Keeper.{
  Boundary, attestation_retention_boundary, get_all_attesters, get_attestation_bitmap,
  get_current_epoch, get_validator_index, prunes_height,
}

-- A read of the attester registry, with the error that stands for an absent entry.
abbrev pub registered : Error → Get AttesterInfo → Result AttesterInfo
registered e (found info) = ok info
registered e missing = err e
registered e failed = err decoding

-- `assertValidValidatorAuthority`.
unfoldable pub assert_valid_validator_authority : String → String → State → Result (Unit {0})
assert_valid_validator_authority consensus_address authority s = do
  v ← registered unauthorized (get consensus_address s.attester_info)
  require (same v.authority authority) unauthorized

-- `cmtproto.PrecommitType`.
abbrev pub precommit_type : ℤ
precommit_type = pos 2

-- `verifyVote`.
unfoldable pub verify_vote : Env → Ctx → String → List ℕ → ℤ → State → Result Vote
unfolding get_pub_key
verify_vote env ctx consensus_address vote_bytes msg_height s = do
  v ← or_fail (env.unmarshal_vote vote_bytes) invalid_request
  require (eq_ℤ v.type precommit_type) invalid_request
  require (eq_ℤ v.height msg_height) invalid_request
  require (eq_ℤ v.round (pos 0)) invalid_request
  info ← registered unknown_key (get consensus_address s.attester_info)
  pk ← get_pub_key info
  require (bytes_beq v.validator_address (env.pub_key_address pk)) unauthorized
  vote_block_id ← or_fail (env.block_id_from_proto v.block_id) invalid_request
  require
      (env.verify_signature pk (env.vote_sign_bytes ctx.chain_id (record v { signature = [] }))
        v.signature)
      unauthorized
  provider ← or_fail env.block_id_provider logic
  stored ← fail_as invalid_request (provider (to_uint64 msg_height))
  stored_id ← or_fail stored invalid_request
  require (env.block_id_equals stored_id vote_block_id) invalid_request
  ok v

unfoldable pub not_pruned : ℤ → Option Boundary → Result (Unit {0})
unfolding prunes_height
not_pruned height none = ok tt
not_pruned height (some b) = require (not (prunes_height b height)) invalid_request

-- The retention check of `Attest`: the boundary of the epoch before the current one.
unfoldable pub assert_retained : ℕ → ℤ → State → Result (Unit {0})
unfolding not_pruned
assert_retained current_epoch height s =
    if ltb 0 current_epoch
    then attestation_retention_boundary (current_epoch - 1) s >>= not_pruned height
    else ok tt

-- The bitmap that `Attest` goes on with: the stored one, or a new one for the attester set.
abbrev pub or_new_bitmap : Option (List ℕ) → State → List ℕ
or_new_bitmap none s = new_bitmap (length (get_all_attesters s))
or_new_bitmap (some bitmap) s = bitmap

-- `Attest` up to its first write: the attester's index and the bitmap of the height.
unfoldable pub admit_attest : Env → Ctx → MsgAttest → State → Result (ℕ × List ℕ)
admit_attest env ctx msg s = do
  assert_valid_validator_authority msg.consensus_address msg.authority s
  vote ← verify_vote env ctx msg.consensus_address msg.vote msg.height s
  index ← or_fail (get_validator_index msg.consensus_address s) unknown_key
  require (leb_ℤ msg.height (inc64 ctx.block_height)) invalid_request
  current_epoch ← get_current_epoch ctx s
  assert_retained current_epoch msg.height s
  stored ← get_attestation_bitmap msg.height s
  let bitmap = or_new_bitmap stored s
  require (not (is_set bitmap (pos index))) invalid_request
  ok (index, bitmap)
