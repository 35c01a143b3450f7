-- ===== src/Adapter/InitChain/Founded.antt =====
-- What `InitChain` of pkg/adapter/adapter.go leaves, whether it succeeds or fails.
use ev_abci.Prelude.{
  ==_iff, Error, List, Result, String, ap, bytes_beq, bytes_beq_iff, bytes_eq, err, int_eq, length,
  map, nat_eq, none, ok, or_fail, pair_eq, plain, refl, require, same, some, string_eq, sym,
  to_int64, to_uint64, ℕ, ◌==◌, ◌∙◌, ◌≡◌,
}
use ev_abci.Prelude.Outcome.{or_fail_ok, require_ok}
use ev_abci.Store.{save_state}
use ev_abci.Adapter.Types.{ChainState, Node, Opaque, Validator}
use ev_abci.Adapter.Commits.{AppGenesis}
use ev_abci.Adapter.Execute.Quiet.{Same, after_lift, after_quiet, after_write, on_app_ok}
use ev_abci.Adapter.Execute.{Adapter, InitRequest, InitResponse, on_app}
use ev_abci.Adapter.InitChain.{chosen_params, first_state, init_chain, init_request}

module _ {App : Type 0} (a : Adapter App) where
  -- The question that the application is asked: the genesis, for the given time, chain and height.
  pub record IsAsked (time : Opaque) (initial_height : ℕ) (chain_id : String) (genesis : AppGenesis)
      (request : InitRequest) : Type 0 where
    pub asked_time : request.time ≡ time
    pub asked_chain : request.chain_id ≡ chain_id
    pub asked_height : request.initial_height ≡ to_int64 initial_height
    pub asked_params : request.consensus_params ≡ genesis.consensus_params
    pub asked_validators :
        request.validators
        ≡ (a.comet.new_validator_set (
            map
              (λ (v : Validator). a.comet.new_validator v.pub_key v.power)
              genesis.validators)).validators
    pub asked_state : request.app_state ≡ genesis.app_state

  -- The state that follows from the application's answer; its height is that of the empty state.
  pub record IsFirst (initial_height : ℕ) (chain_id : String) (genesis : AppGenesis)
      (response : InitResponse) (validators : List Validator) (state : ChainState) : Type 0 where
    pub first_chain : state.chain_id ≡ chain_id
    pub first_hash : state.app_hash ≡ response.app_hash
    pub first_height : state.last_block_height ≡ a.sources.codecs.empty.last_block_height
    pub answered_params :
        (params : Opaque)
        → response.consensus_params ≡ some params
        → state.consensus_params ≡ params
    pub genesis_params :
        response.consensus_params ≡ none → state.consensus_params ≡ genesis.consensus_params
    pub current : state.validators ≡ a.comet.new_validator_set validators
    pub following : state.next_validators ≡ a.comet.increment (a.comet.new_validator_set validators)
    pub preceding : state.last_validators ≡ a.comet.new_validator_set validators
    pub validators_changed : state.last_height_validators_changed ≡ to_int64 initial_height
    pub params_changed : state.last_height_consensus_params_changed ≡ to_int64 initial_height

  -- A chain that was founded: the arguments are those of the genesis, the application was asked with
  -- it and answered with exactly one validator, and the state that follows from its answer is saved.
  pub record IsFounded (time : Opaque) (initial_height : ℕ) (chain_id : String) (before : Node App)
      (hash : List ℕ) (after : Node App) : Type 0 where
    pub genesis : AppGenesis
    pub request : InitRequest
    pub response : InitResponse
    pub updates : List Validator
    pub state : ChainState
    pub loaded : a.sources.genesis ≡ some genesis
    pub same_time : genesis.genesis_time ≡ time
    pub same_chain : genesis.chain_id ≡ chain_id
    pub same_height : to_uint64 genesis.initial_height ≡ initial_height
    pub asked : IsAsked time initial_height chain_id genesis request
    pub answered : a.calls.init_chain request before.app ≡ (ok response, after.app)
    pub listed : a.comet.validator_updates response.validators ≡ ok updates
    pub single : length (a.comet.new_validator_set updates).validators ≡ 1
    pub first :
        IsFirst initial_height chain_id genesis response
          (a.comet.new_validator_set updates).validators
          state
    pub saved : save_state a.disk a.sources.codecs.states state before.ds ≡ ok after.ds
    pub hashed : hash ≡ response.app_hash
    pub silent : after.published ≡ before.published

  -- Either failed with the store and the events as before, or founded.
  abbrev pub Ended : Opaque → ℕ → String → Node App → Result (List ℕ) × Node App → Type 0
  Ended time initial_height chain_id before (ok hash, after) =
      IsFounded time initial_height chain_id before hash after
  Ended time initial_height chain_id before (err e, after) = Same before after

  first_state-IsFirst :
      (g : AppGenesis) (initial_height : ℕ) (chain_id : String) (response : InitResponse)
      (validators : List Validator)
      → IsFirst initial_height chain_id g response validators
          (first_state a g initial_height chain_id response validators)
  first_state-IsFirst g initial_height chain_id response validators = record {
    first_chain = refl;
    first_hash = refl;
    first_height = refl;
    answered_params = λ params e. ap (λ o. chosen_params a o g.consensus_params) e;
    genesis_params = λ e. ap (λ o. chosen_params a o g.consensus_params) e;
    current = refl;
    following = refl;
    preceding = refl;
    validators_changed = refl;
    params_changed = refl;
  }

  -- `InitChain` succeeds only if the genesis is loaded and has the given time, chain id and initial
  -- height, and if the application, asked with the genesis, answers with validator updates that make
  -- a set of exactly one validator. Then the state is saved that has this validator, the
  -- application's hash, its consensus parameters or else those of the genesis, and the given chain id
  -- and height, and the result is the application's hash. Where it fails, the store is as before, and
  -- it never publishes an event.
  pub init_chain-Ended :
      (time : Opaque) (initial_height : ℕ) (chain_id : String) (node : Node App)
      → Ended time initial_height chain_id node (init_chain a time initial_height chain_id node)
  unfolding init_chain
  init_chain-Ended time initial_height chain_id node =
      after_lift P (or_fail a.sources.genesis plain) _ node failed λ g loaded.
        after_lift P (require (bytes_beq g.genesis_time time) plain) _ node failed λ u1 time_ok.
          after_lift P (require (same g.chain_id chain_id) plain) _ node failed λ u2 chain_ok.
            after_lift P (require (initial_height == to_uint64 g.initial_height) plain) _ node
              failed
              λ u3 height_ok.
                after_quiet P
                  (on_app (a.calls.init_chain (init_request a g time initial_height chain_id))) _
                  node (λ n. (refl, refl)) (λ e n kept. kept)
                  λ response n answered kept.
                    after_lift P (a.comet.validator_updates response.validators) _ n (λ e. kept)
                      λ updates listed.
                        after_lift P
                          (require (length (a.comet.new_validator_set updates).validators == 1)
                            plain)
                          _ n (λ e. kept)
                          λ u4 one.
                            after_write P
                              (save_state a.disk a.sources.codecs.states (
                                first_state a g initial_height chain_id response
                                  (a.comet.new_validator_set updates).validators))
                              _ n (λ e. kept)
                              λ d saved. record {
                                genesis = g;
                                response = response;
                                request = init_request a g time initial_height chain_id;
                                updates = updates;
                                state =
                                    first_state a g initial_height chain_id response
                                      (a.comet.new_validator_set updates).validators;
                                asked = record {
                                  asked_time = refl;
                                  asked_chain = refl;
                                  asked_height = refl;
                                  asked_params = refl;
                                  asked_validators = refl;
                                  asked_state = refl;
                                };
                                answered =
                                    on_app_ok
                                      (a.calls.init_chain
                                        (init_request a g time initial_height chain_id))
                                      node answered;
                                listed = listed;
                                first =
                                    first_state-IsFirst g initial_height chain_id response
                                      (a.comet.new_validator_set updates).validators;
                                loaded = or_fail_ok a.sources.genesis plain loaded;
                                same_time =
                                    (bytes_beq_iff g.genesis_time time).0
                                      (require_ok (bytes_beq g.genesis_time time) plain time_ok);
                                same_chain =
                                    (string_eq.beq_iff g.chain_id chain_id).0
                                      (require_ok (same g.chain_id chain_id) plain chain_ok);
                                same_height = sym (
                                    (==_iff initial_height (to_uint64 g.initial_height)).0 (
                                      require_ok (initial_height == to_uint64 g.initial_height)
                                        plain height_ok));
                                single = (==_iff _ 1).0 (
                                    require_ok
                                      (length (a.comet.new_validator_set updates).validators == 1)
                                      plain one);
                                hashed = refl;
                                saved =
                                    ap
                                      (save_state a.disk a.sources.codecs.states (
                                        first_state a g initial_height chain_id response
                                          (a.comet.new_validator_set updates).validators))
                                      (sym kept.0)
                                    ∙ saved;
                                silent = kept.1;
                              }
    where
      P : Result (List ℕ) × Node App → Type 0
      P out = Ended time initial_height chain_id node out

      failed : (e : Error) → P (err e, node)
      failed e = (refl, refl)
