-- ===== src/Network/MsgServer/Govern.antt =====
-- Changing the parameters (modules/network/keeper/msg_server.go).
use ev_abci.Prelude.{
  Bool-cases, Result, bytes_eq, err, found, inl, inr, int_eq, invalid_signer, nat_eq, ok, pair_eq,
  refl, same, string_eq, sym, true_ne, ◌∙◌, ◌∷◌, ◌≡◌, ◌⊎◌,
}
use ev_abci.Prelude.Outcome.{ok_ne_err}
use ev_abci.Network.Types.{Env, MsgUpdateParams, State, params_updated}
use ev_abci.Network.Keeper.{set_params}
use ev_abci.Network.Params.{validate}
use ev_abci.Network.Invariant.{IsValid}
use ev_abci.Network.MsgServer.{update_params}
use ev_abci.Network.MsgServer.Effects.{Refused}

-- The store with the new parameters.
abbrev pub governed : MsgUpdateParams → State → State
governed msg s = record s {
  params = found msg.params;
  events = params_updated msg.authority ∷ s.events;
}

-- Who may change the parameters, and to what.
abbrev pub Permitted : Env → MsgUpdateParams → Type 0
Permitted env msg = (env.authority ≡ msg.authority) × (validate env msg.params ≡ ok tt)

-- The two ways that a change of the parameters ends.
abbrev pub Governs : Env → MsgUpdateParams → State → Type 0
Governs env msg s =
    (Permitted env msg × (update_params env msg s ≡ (ok tt, governed msg s)))
    ⊎ ((¬ Permitted env msg) × Refused (update_params env msg s) s)

permitted_step :
    (env : Env) (msg : MsgUpdateParams) (s : State)
    → env.authority ≡ msg.authority
    → (r : Result (Unit {0})) → validate env msg.params ≡ r
    → Governs env msg s
unfolding update_params set_params
permitted_step env msg s mine (ok _) valid =
    inl ((mine, valid), rw ((string_eq.beq_iff env.authority msg.authority).1 mine, valid))
permitted_step env msg s mine (err e) bad = inr (
  λ p. ok_ne_err (sym p.1 ∙ bad),
  (e, rw ((string_eq.beq_iff env.authority msg.authority).1 mine, bad)),
)

-- `UpdateParams` either comes from the module's authority with parameters that validate, and then
-- stores them and emits its event, or it is refused and changes nothing.
pub update_params-cases : (env : Env) (msg : MsgUpdateParams) (s : State) → Governs env msg s
unfolding update_params set_params
update_params-cases env msg s = elim (Bool-cases (same env.authority msg.authority)) [
  | inl mine ↦
      permitted_step env msg s ((string_eq.beq_iff env.authority msg.authority).0 mine)
        (validate env msg.params) refl
  | inr other ↦ inr (
    λ p. true_ne (sym ((string_eq.beq_iff env.authority msg.authority).1 p.0) ∙ other),
    (invalid_signer, rw other),
  )
]

-- A change of the parameters keeps a well-formed store well-formed, permitted or not.
pub update_params-IsValid :
    (env : Env) (msg : MsgUpdateParams) (s : State)
    → IsValid env s
    → IsValid env (update_params env msg s).1
update_params-IsValid env msg s valid = elim (update_params-cases env msg s) [
  | inl (permitted, done) ↦ rw done (record {
    current = msg.params;
    current_params = refl;
    valid_params = permitted.1;
    small = valid.small;
    indexed = valid.indexed;
    powered = valid.powered;
    shaped = valid.shaped;
    readable = valid.readable;
    epochs_shaped = valid.epochs_shaped;
    last_readable = valid.last_readable;
  })
  | inr (_, (e, refused)) ↦ rw refused valid
]
