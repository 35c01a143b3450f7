-- ===== src/Network/MsgServer.antt =====
-- modules/network/keeper/msg_server.go: the message handlers.
pub mod Attest
pub mod Effects
pub mod Progress
pub mod Govern
use ev_abci.Prelude.{
  List, bytes_eq, if◌then◌else◌, int_eq, invalid_request, invalid_signer, nat_eq, ok, pair_eq, pos,
  same, string_eq, ℕ, ◌∷◌,
}
use ev_abci.Network.Types.{
  Ctx, Env, Event, M, MsgAttest, MsgUpdateParams, State, attested, lift, params_updated, pure, put,
  raise, ◌>>=◌, ◌>>◌,
}
use ev_abci.Network.Bitmap.{set_bit}
use ev_abci.Network.Keeper.{
  calculate_voted_power, check_quorum, get_current_epoch, get_epoch_bitmap, get_total_power,
  set_attestation_bitmap, set_epoch_bitmap, set_params, set_signature, update_last_attested_height,
}
use ev_abci.Network.Vote.{admit_attest, or_new_bitmap}
use ev_abci.Network.Params.{validate}

abbrev pub emit : Event → State → State
emit e s = record s { events = e ∷ s.events }

-- The quorum part of `Attest`.
unfoldable pub count_votes : Env → MsgAttest → List ℕ → M (Unit {0})
count_votes env msg bitmap = do
  voted_power ← lift (calculate_voted_power bitmap)
  total_power ← lift (λ s. ok (get_total_power s))
  quorum_reached ← lift (check_quorum env voted_power total_power)
  if quorum_reached then update_last_attested_height msg.height else pure tt

-- The epoch part of `Attest`.
unfoldable pub mark_epoch : Ctx → MsgAttest → ℕ → M (Unit {0})
mark_epoch ctx msg index = do
  epoch ← lift (get_current_epoch ctx)
  epoch_bitmap ← lift (λ s. ok (or_new_bitmap (get_epoch_bitmap epoch s) s))
  put (set_epoch_bitmap epoch (set_bit epoch_bitmap (pos index)))
  put (emit (attested msg.consensus_address msg.authority msg.height))

-- `Attest` from its first write on.
unfoldable pub record_attest : Env → Ctx → MsgAttest → ℕ → List ℕ → M (Unit {0})
record_attest env ctx msg index bitmap = do
  put (set_attestation_bitmap msg.height (set_bit bitmap (pos index)))
  put (set_signature msg.height msg.consensus_address msg.vote)
  count_votes env msg (set_bit bitmap (pos index))
  mark_epoch ctx msg index

-- `Attest`.
unfoldable pub attest : Env → Ctx → MsgAttest → M (Unit {0})
attest env ctx msg = do
  admitted ← lift (admit_attest env ctx msg)
  record_attest env ctx msg admitted.0 admitted.1

-- `JoinAttesterSet`: the set is fixed at genesis.
unfoldable pub join_attester_set : M (Unit {0})
join_attester_set = raise invalid_request

-- `LeaveAttesterSet`.
unfoldable pub leave_attester_set : M (Unit {0})
leave_attester_set = raise invalid_request

-- `UpdateParams`.
unfoldable pub update_params : Env → MsgUpdateParams → M (Unit {0})
update_params env msg = do
  if same env.authority msg.authority then pure tt else raise invalid_signer
  lift (λ s. validate env msg.params)
  put (set_params msg.params)
  put (emit (params_updated msg.authority))
