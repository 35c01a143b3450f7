-- ===== src/Adapter/InitChain.antt =====
-- `InitChain` of pkg/adapter/adapter.go.
pub mod Founded
use ev_abci.Prelude.{
  List, Option, String, bytes_beq, bytes_eq, int_eq, length, map, nat_eq, none, or_fail, pair_eq,
  plain, require, same, set, some, string_eq, to_int64, to_uint64, ℕ, ◌==◌,
}
use ev_abci.Prelude.Act.{Act, lift, pure, ◌>>=◌, ◌>>◌}
use ev_abci.Store.{save_state}
use ev_abci.Adapter.Types.{ChainState, Node, Opaque, Validator}
use ev_abci.Adapter.Commits.{AppGenesis}
use ev_abci.Adapter.Execute.{Adapter, InitRequest, InitResponse, on_app, save}

module _ {App : Type 0} (a : Adapter App) where
  -- The request to the application.
  abbrev pub init_request : AppGenesis → Opaque → ℕ → String → InitRequest
  init_request g time initial_height chain_id = record {
    time = time;
    chain_id = chain_id;
    consensus_params = g.consensus_params;
    validators =
        (a.comet.new_validator_set (
          map (λ (v : Validator). a.comet.new_validator v.pub_key v.power)
            g.validators)).validators;
    app_state = g.app_state;
    initial_height = to_int64 initial_height;
  }

  -- The application's consensus parameters, or else those of the genesis.
  abbrev pub chosen_params : Option Opaque → Opaque → Opaque
  chosen_params (some params) given = params
  chosen_params none given = given

  -- The first state.
  abbrev pub first_state : AppGenesis → ℕ → String → InitResponse → List Validator → ChainState
  first_state g initial_height chain_id response validators = record a.sources.codecs.empty {
    consensus_params = chosen_params response.consensus_params g.consensus_params;
    chain_id = chain_id;
    validators = a.comet.new_validator_set validators;
    next_validators = a.comet.increment (a.comet.new_validator_set validators);
    last_validators = a.comet.new_validator_set validators;
    last_height_consensus_params_changed = to_int64 initial_height;
    last_height_validators_changed = to_int64 initial_height;
    app_hash = response.app_hash;
  }

  -- `InitChain`.
  unfoldable pub init_chain : Opaque → ℕ → String → Act (Node App) (List ℕ)
  init_chain time initial_height chain_id = do
    g ← lift (or_fail a.sources.genesis plain)
    lift (require (bytes_beq g.genesis_time time) plain)
    lift (require (same g.chain_id chain_id) plain)
    lift (require (initial_height == to_uint64 g.initial_height) plain)
    response ← on_app (a.calls.init_chain (init_request g time initial_height chain_id))
    updates ← lift (a.comet.validator_updates response.validators)
    let set = a.comet.new_validator_set updates
    lift (require (length set.validators == 1) plain)
    save (
        save_state a.disk a.sources.codecs.states
          (first_state g initial_height chain_id response set.validators))
    pure response.app_hash
