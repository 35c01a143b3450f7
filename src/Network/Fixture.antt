-- ===== src/Network/Fixture.antt =====
-- A network with three attesters, for the tests of the network module.
use ev_abci.Prelude.{
  List, Option, String, [], arith, bytes_beq, bytes_eq, false, found, get, if◌then◌else◌, int_eq,
  missing, nat_eq, none, ok, pair_eq, pos, refl, same, some, string_eq, true, ℕ, ◌<◌, ◌^◌, ◌∷◌, ◌≡◌,
}
use ev_abci.Network.Types.{AttesterInfo, BlockId, Ctx, Env, MsgAttest, Params, State, Vote}
use ev_abci.Network.Params.{
  validate, validate_epoch_length, validate_min_participation, validate_prune_after,
  validate_quorum_fraction, validate_sign_mode,
}
use ev_abci.Network.Invariant.{IsValid}

abbrev pub block_five : BlockId
block_five = record { hash = 5 ∷ []; parts_total = 1; parts_hash = 6 ∷ [] }

-- The vote of the attester with a key, for a height.
abbrev pub signed_vote : ℕ → ℕ → Vote
signed_vote height key = record {
  type = pos 2;
  height = pos height;
  round = pos 0;
  block_id = block_five;
  timestamp = pos 0;
  validator_address = key ∷ [];
  validator_index = pos 0;
  signature = key ∷ [];
}

-- A vote message of two bytes: the height and the key of the voter.
abbrev pub decoded : List ℕ → Option Vote
decoded (height ∷ key ∷ []) = some (signed_vote height key)
decoded _ = none

-- A wiring in which an attester signs by its key.
abbrev pub wiring : Env
wiring = record {
  authority = "gov";
  block_id_provider = some (λ h. ok (some block_five));
  last_validators_bonded = ok (true ∷ false ∷ []);
  unmarshal_vote = decoded;
  block_id_from_proto = some;
  block_id_equals = λ a b. bytes_beq a.hash b.hash;
  vote_sign_bytes = λ chain v. [];
  pub_key_address = λ k. k.key;
  verify_signature = λ k bytes signature. bytes_beq signature k.key;
  dec_from_str = λ text. some (pos (10 ^ 17));
  dec_quo_int64 = λ a b. a;
  bech32_decode = λ text. if same text "old_a" then some (1 ∷ []) else some (2 ∷ []);
  cons_address_string = λ bytes. if same bytes (1 ∷ []) then "a" else "b";
  sha256 = λ bytes. bytes;
  base64 = λ bytes. "hash";
}

abbrev pub sender : String → ℕ → AttesterInfo
sender name key = record {
  authority = name;
  pubkey = some (record { type_url = "key"; key = key ∷ [] });
  joined_height = pos 0;
  consensus_address = name;
}

abbrev pub params_two : Params
params_two = record {
  epoch_length = 2;
  quorum_fraction = "0.667";
  min_participation = "0.5";
  prune_after = 1;
  sign_mode = pos 1;
}

-- Three attesters and no votes.
abbrev pub three : State
three = record {
  validator_index = ("a", found 0) ∷ ("b", found 1) ∷ ("c", found 2) ∷ [];
  validator_power = (0, found 1) ∷ (1, found 1) ∷ (2, found 1) ∷ [];
  attestation_bitmap = [];
  epoch_bitmap = [];
  attester_set = "a" ∷ "b" ∷ "c" ∷ [];
  attester_info =
      ("a", found (sender "a" 1)) ∷ ("b", found (sender "b" 2)) ∷ ("c", found (sender "c" 3)) ∷ [];
  signatures = [];
  stored_attestation_info = [];
  last_attested_height = missing;
  params = found params_two;
  events = [];
}

abbrev pub at_block : ℕ → Ctx
at_block n = record { block_height = pos n; chain_id = "chain" }

abbrev pub vote_of : String → ℕ → ℕ → MsgAttest
vote_of name key height = record {
  authority = name;
  consensus_address = name;
  height = pos height;
  vote = height ∷ key ∷ [];
}

pub three_indexed : (a : String) (i : ℕ) → get a three.validator_index ≡ found i → i < 3
unfolding get
three_indexed a i h = ground arith

pub three_powered : (i : ℕ) → i < 3 → get i three.validator_power ≡ found 1
unfolding get
three_powered i below = ground arith

unfoldable pub three-IsValid : IsValid wiring three
unfolding get validate validate_epoch_length validate_quorum_fraction validate_min_participation
    validate_prune_after validate_sign_mode
three-IsValid = record {
  current = params_two;
  current_params = refl;
  valid_params = refl;
  small = omega arith;
  indexed = three_indexed;
  powered = three_powered;
  shaped = λ h b e. cc;
  readable = λ h e. cc;
  epochs_shaped = λ e b h. cc;
  last_readable = λ e. cc;
}
