-- ===== src/Adapter/Codings.antt =====
-- The tables of states, block ids and responses for tests of pkg/adapter.
use ev_abci.Prelude.{
  Eq, List, Option, String, bytes_eq, int_eq, nat_eq, pair_eq, refl, string_eq, ℕ, ℤ,
}
use ev_abci.Network.Types.{BlockId}
use ev_abci.Store.{Codec}
use ev_abci.Store.View.{Lawful}
use ev_abci.Adapter.Types.{ChainState, Response, Validator, ValidatorSet}
use ev_abci.Adapter.Tables.{
  by_fields, by_fields_iff, is_empty, list_eq, option_eq, table_codec, table_codec-Lawful,
}

instance abbrev pub texts_eq : Eq (List (List ℕ))
texts_eq = list_eq

instance abbrev pub text_option_eq : Eq (Option (List ℕ))
text_option_eq = option_eq

abbrev pub id_fields : BlockId → List ℕ × (ℕ × List ℕ)
id_fields id = (id.hash, (id.parts_total, id.parts_hash))

abbrev pub id_of : List ℕ × (ℕ × List ℕ) → BlockId
id_of (h, (n, p)) = record { hash = h; parts_total = n; parts_hash = p }

instance abbrev pub id_eq : Eq BlockId
id_eq = record {
  beq = by_fields id_fields pair_eq;
  beq_iff = by_fields_iff id_fields id_of pair_eq (λ id. refl);
}

abbrev pub validator_fields : Validator → List ℕ × (List ℕ × ℤ)
validator_fields v = (v.address, (v.pub_key, v.power))

abbrev pub validator_with : List ℕ × (List ℕ × ℤ) → Validator
validator_with (a, (k, p)) = record { address = a; pub_key = k; power = p }

instance abbrev pub validator_eq : Eq Validator
validator_eq = record {
  beq = by_fields validator_fields pair_eq;
  beq_iff = by_fields_iff validator_fields validator_with pair_eq (λ v. refl);
}

instance abbrev pub validators_eq : Eq (List Validator)
validators_eq = list_eq

abbrev pub set_fields : ValidatorSet → List Validator × Option (List ℕ)
set_fields s = (s.validators, s.proposer)

abbrev pub set_of : List Validator × Option (List ℕ) → ValidatorSet
set_of (vs, p) = record { validators = vs; proposer = p }

instance abbrev pub set_eq : Eq ValidatorSet
set_eq = record {
  beq = by_fields set_fields pair_eq;
  beq_iff = by_fields_iff set_fields set_of pair_eq (λ s. refl);
}

abbrev pub StateFields : Type 0
StateFields =
    String × (List ℕ × (List ℕ × (ℤ × (ValidatorSet × (ValidatorSet × (ValidatorSet × (ℤ × ℤ)))))))

abbrev pub state_fields : ChainState → StateFields
state_fields s = (
  s.chain_id,
  (
    s.consensus_params,
    (
      s.app_hash,
      (
        s.last_block_height,
        (
          s.validators,
          (
            s.next_validators,
            (
              s.last_validators,
              (s.last_height_validators_changed, s.last_height_consensus_params_changed),
            ),
          ),
        ),
      ),
    ),
  ),
)

abbrev pub state_of : StateFields → ChainState
state_of (c, (p, (h, (b, (v, (n, (l, (hv, hp)))))))) = record {
  chain_id = c;
  consensus_params = p;
  app_hash = h;
  last_block_height = b;
  validators = v;
  next_validators = n;
  last_validators = l;
  last_height_validators_changed = hv;
  last_height_consensus_params_changed = hp;
}

instance abbrev pub state_eq : Eq ChainState
state_eq = record {
  beq = by_fields state_fields pair_eq;
  beq_iff = by_fields_iff state_fields state_of pair_eq (λ s. refl);
}

abbrev pub response_fields :
    Response → List (List ℕ) × (List (List ℕ) × (List (List ℕ) × (Option (List ℕ) × List ℕ)))
response_fields r =
    (r.events, (r.tx_results, (r.validator_updates, (r.consensus_param_updates, r.app_hash))))

abbrev pub response_of :
    List (List ℕ) × (List (List ℕ) × (List (List ℕ) × (Option (List ℕ) × List ℕ))) → Response
response_of (e, (t, (v, (c, h)))) = record {
  events = e;
  tx_results = t;
  validator_updates = v;
  consensus_param_updates = c;
  app_hash = h;
}

instance abbrev pub response_eq : Eq Response
response_eq = record {
  beq = by_fields response_fields pair_eq;
  beq_iff = by_fields_iff response_fields response_of pair_eq (λ r. refl);
}

abbrev pub states_codec : List ChainState → Codec ChainState
states_codec = table_codec

abbrev pub ids_codec : List BlockId → Codec BlockId
ids_codec = table_codec

abbrev pub responses_codec : List Response → Codec Response
responses_codec = table_codec

pub states_codec-Lawful : (table : List ChainState) → Lawful is_empty (states_codec table)
states_codec-Lawful = table_codec-Lawful

pub ids_codec-Lawful : (table : List BlockId) → Lawful is_empty (ids_codec table)
ids_codec-Lawful = table_codec-Lawful

pub responses_codec-Lawful : (table : List Response) → Lawful is_empty (responses_codec table)
responses_codec-Lawful = table_codec-Lawful
