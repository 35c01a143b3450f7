-- ===== src/Network/EndBlocker/Total.antt =====
-- The end of a block never fails, and keeps the store well-formed (modules/network/keeper/abci.go).
use mathlib.Core.Path.{subst}
use ev_abci.Prelude.{
  Bool, Bool-cases, List, ap, bytes_eq, false, get, if◌then◌else◌, inc64, inl, inr, int_eq, nat_eq,
  ok, pair_eq, refl, string_eq, to_uint64, true, ◌%◌, ◌/◌, ◌==◌, ◌∙◌, ◌≡◌,
}
use ev_abci.Network.Types.{>>=-step, Ctx, Env, M, Params, State, lift, pure, ◌>>=◌, ◌>>◌}
use ev_abci.Network.Keeper.{get_params, is_checkpoint_height}
use ev_abci.Network.Invariant.{IsValid}
use ev_abci.Network.Invariant.Shrinks.{
  Shrinks, Shrinks-IsValid, Shrinks-current, Shrinks-refl, Shrinks-trans, prune_old_bitmaps-Shrinks,
}
use ev_abci.Network.EndBlocker.{end_blocker, finish_epoch, process_checkpoint}
use ev_abci.Network.EndBlocker.Blocks.{
  after_checkpoint, after_epoch, at_checkpoint_lem, checkpointed, checkpointed-Shrinks, ended,
  finish_epoch_lem, get_params_lem, process_checkpoint_lem,
}

after_checkpoint-Shrinks :
    (env : Env) (ctx : Ctx) (p : Params) (s : State) → Shrinks s (after_checkpoint env ctx p s)
after_checkpoint-Shrinks env ctx p s =
    elim (Bool-cases (to_uint64 ctx.block_height % p.epoch_length == 0)) [
      | inl h ↦
          rw h (
            checkpointed-Shrinks env ctx.block_height (get ctx.block_height s.attestation_bitmap) s)
      | inr h ↦ rw h (Shrinks-refl s)
    ]

pub ended-Shrinks : (env : Env) (ctx : Ctx) (p : Params) (s : State) → Shrinks s (ended env ctx p s)
ended-Shrinks env ctx p s =
    let t : State = after_checkpoint env ctx p s in
    elim (Bool-cases (
      to_uint64 ctx.block_height / p.epoch_length
      == to_uint64 (inc64 ctx.block_height) / p.epoch_length)) [
        | inl h ↦ rw h (after_checkpoint-Shrinks env ctx p s)
        | inr h ↦ rw h (
            Shrinks-trans (after_checkpoint-Shrinks env ctx p s)
              (prune_old_bitmaps-Shrinks (to_uint64 ctx.block_height / p.epoch_length) t))
      ]

module _ (env : Env) (ctx : Ctx) (s : State) (valid : IsValid env s) where
  at_checkpoint_ok :
      (b : Bool)
      → (if b then process_checkpoint env ctx.block_height else pure tt) s ≡ (
        ok tt,
        if b
            then checkpointed env ctx.block_height (get ctx.block_height s.attestation_bitmap) s
            else s,
      )
  at_checkpoint_ok true = process_checkpoint_lem env s valid ctx.block_height
  at_checkpoint_ok false = refl

  -- On a well-formed store the end of a block succeeds whenever the staking module can list the last
  -- validators: at a checkpoint height with votes it stores the votes of the height with the verdict
  -- of the quorum and emits them, and at the last block of an epoch it then prunes the old bitmaps.
  pub end_blocker_lem :
      (bonded : List Bool)
      → env.last_validators_bonded ≡ ok bonded
      → end_blocker env ctx s ≡ (ok tt, ended env ctx valid.current s)
  unfolding end_blocker
  end_blocker_lem bonded h =
      >>=-step (lift get_params) with_params s (ap (λ r. (r, s)) (get_params_lem env s valid))
      ∙ >>=-step (lift (is_checkpoint_height ctx.block_height)) (at_height valid.current) s
          (ap (λ r. (r, s)) (at_checkpoint_lem env ctx s valid))
      ∙ >>=-step (if at then process_checkpoint env ctx.block_height else pure tt)
          (λ _. finish_epoch env ctx valid.current) s (at_checkpoint_ok at)
      ∙ subst (λ p. finish_epoch env ctx p t ≡ (ok tt, after_epoch ctx p t))
          (Shrinks-current env valid kept)
          (finish_epoch_lem env ctx t (Shrinks-IsValid env valid kept) bonded h)
    where
      at_height : Params → Bool → M (Unit {0})
      at_height p b =
          (if b then process_checkpoint env ctx.block_height else pure tt) >> finish_epoch env ctx p

      with_params : Params → M (Unit {0})
      with_params p = lift (is_checkpoint_height ctx.block_height) >>= at_height p

      at : Bool
      at = to_uint64 ctx.block_height % valid.current.epoch_length == 0

      t : State
      t = after_checkpoint env ctx valid.current s

      kept : Shrinks s t
      kept = after_checkpoint-Shrinks env ctx valid.current s

-- The end of a block keeps a well-formed store well-formed, where the staking module can list the
-- last validators.
pub end_blocker-IsValid :
    (env : Env) (ctx : Ctx) (s : State) (bonded : List Bool)
    → IsValid env s
    → env.last_validators_bonded ≡ ok bonded
    → IsValid env (end_blocker env ctx s).1
end_blocker-IsValid env ctx s bonded valid h =
    rw (end_blocker_lem env ctx s valid bonded h)
      (Shrinks-IsValid env valid (ended-Shrinks env ctx valid.current s))
