-- ===== src/Adapter/Transition.antt =====
-- The state after a block, in `ExecuteTxs` of pkg/adapter/adapter.go.
use ev_abci.Prelude.{
  List, Option, Result, [], bytes_eq, inc64, int_eq, nat_eq, none, ok, pair_eq, set, some,
  string_eq, to_int64, ℕ, ℤ, ◌∷◌,
}
use ev_abci.Prelude.Outcome.{◌>>=◌, ◌>>◌}
use ev_abci.Adapter.Types.{ChainState, Opaque, Response, Validator, ValidatorSet}
use ev_abci.Adapter.Convert.{Comet}

-- The validators after a block: `none` where nothing changed.
abbrev pub changed_validators : Comet → List Validator → ValidatorSet → Result ValidatorSet
changed_validators comet [] set = ok set
changed_validators comet (v ∷ vs) set = comet.update_with_change_set (v ∷ vs) set

abbrev pub changed_height : List Validator → ℕ → ℤ → ℤ
changed_height [] height last = last
changed_height (v ∷ vs) height last = inc64 (inc64 (to_int64 height))

-- The consensus parameters after a block, and the height of their last change.
abbrev pub changed_params : Comet → Option Opaque → ℕ → ChainState → Result (Opaque × ℤ)
changed_params comet none height s = ok (s.consensus_params, s.last_height_consensus_params_changed)
changed_params comet (some updates) height s = do
  let next = comet.update_params s.consensus_params updates
  comet.validate_params next
  comet.validate_params_update s.consensus_params updates (to_int64 height)
  ok (next, inc64 (to_int64 height))

-- The state after a block, and the changed validators.
unfoldable pub next_state : Comet → ℕ → Response → ChainState → Result (ChainState × List Validator)
next_state comet height response s = do
  updates ← comet.validator_updates response.validator_updates
  changed ← changed_validators comet updates s.next_validators
  params ← changed_params comet response.consensus_param_updates height s
  let new_set = comet.increment changed
  ok (
    record s {
      app_hash = response.app_hash;
      last_block_height = to_int64 height;
      last_validators = s.validators;
      validators = new_set;
      next_validators = comet.increment new_set;
      last_height_validators_changed =
          changed_height updates height s.last_height_validators_changed;
      consensus_params = params.0;
      last_height_consensus_params_changed = params.1;
    },
    updates,
  )
