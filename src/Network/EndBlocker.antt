-- ===== src/Network/EndBlocker.antt =====
-- modules/network/keeper/abci.go: what the module does at the end of a block.
pub mod Blocks
pub mod Total
use ev_abci.Prelude.{
  Bool, List, Option, [], bytes_eq, err, false, if◌then◌else◌, inc64, int_eq, ltb, ltb_ℤ, nat_eq,
  none, ok, or_fail, pair_eq, panic, plain, pos, set, some, string_eq, suc, to_uint64, true, ℕ, ℤ,
  ◌*◌, ◌/◌, ◌==◌, ◌^◌, ◌∷◌,
}
use ev_abci.Network.Types.{Ctx, Env, M, Params, checkpoint, lift, pure, put, ◌>>=◌, ◌>>◌}
use ev_abci.Network.Bitmap.{pop_count}
use ev_abci.Network.Keeper.{
  calculate_voted_power, check_quorum, get_attestation_bitmap, get_current_epoch, get_epoch_bitmap,
  get_params, get_total_power, is_checkpoint_height, prune_old_bitmaps,
}
use ev_abci.Network.MsgServer.{emit}

-- `emitCheckpointHashes`.
unfoldable pub emit_checkpoint_hashes : Env → ℤ → List ℕ → List ℕ → Bool → M (Unit {0})
emit_checkpoint_hashes env height validator_hash commit_hash soft_confirmed =
    put
      (emit (checkpoint height (env.base64 validator_hash) (env.base64 commit_hash) soft_confirmed))

-- The bytes of `placeholder`.
abbrev pub placeholder : List ℕ
placeholder = b'p' ∷ b'l' ∷ b'a' ∷ b'c' ∷ b'e' ∷ b'h' ∷ b'o' ∷ b'l' ∷ b'd' ∷ b'e' ∷ b'r' ∷ []

-- `processCheckpoint` where the height has a bitmap.
unfoldable pub store_checkpoint : Env → ℤ → List ℕ → M (Unit {0})
unfolding emit_checkpoint_hashes
store_checkpoint env height bitmap = do
  voted_power ← lift (calculate_voted_power bitmap)
  total_power ← lift (λ s. ok (get_total_power s))
  soft_confirmed ← lift (check_quorum env voted_power total_power)
  put (λ s. record s {
    stored_attestation_info =
        set height
          (record {
            height = height;
            bitmap = bitmap;
            voted_power = voted_power;
            total_power = total_power;
            soft_confirmed = soft_confirmed;
          })
          s.stored_attestation_info;
  })
  emit_checkpoint_hashes env height (env.sha256 bitmap) (env.sha256 placeholder) soft_confirmed

unfoldable pub checkpoint_at : Env → ℤ → Option (List ℕ) → M (Unit {0})
checkpoint_at env height none = pure tt
checkpoint_at env height (some bitmap) = store_checkpoint env height bitmap

-- `processCheckpoint`.
unfoldable pub process_checkpoint : Env → ℤ → M (Unit {0})
process_checkpoint env height = do
  stored ← lift (get_attestation_bitmap height)
  checkpoint_at env height stored

-- `ejectLowParticipants` only logs.
unfoldable pub eject_low_participants : List ℕ → M (Unit {0})
eject_low_participants epoch_bitmap = pure tt

unfoldable pub count_bonded : List Bool → ℕ
count_bonded [] = 0
count_bonded (true ∷ bonded) = suc (count_bonded bonded)
count_bonded (false ∷ bonded) = count_bonded bonded

-- The participation rate against its minimum, with at least one bonded validator.
unfoldable pub check_rate : Env → Params → List ℕ → ℕ → M (Unit {0})
unfolding eject_low_participants
check_rate env params epoch_bitmap total = do
  min_participation ← lift (λ s. or_fail (env.dec_from_str params.min_participation) plain)
  let rate = env.dec_quo_int64 (pos (pop_count epoch_bitmap * 10 ^ 18)) (pos total)
  if ltb_ℤ rate min_participation then eject_low_participants epoch_bitmap else pure tt

-- The participation check of `processEpochEnd`, for an epoch that has a bitmap.
unfoldable pub check_participation : Env → Params → List ℕ → M (Unit {0})
unfolding count_bonded check_rate
check_participation env params epoch_bitmap = do
  bonded ← lift (λ s. env.last_validators_bonded)
  if ltb 0 (count_bonded bonded)
      then check_rate env params epoch_bitmap (count_bonded bonded)
      else pure tt

unfoldable pub participation_at : Env → Params → Option (List ℕ) → M (Unit {0})
participation_at env params none = pure tt
participation_at env params (some bitmap) = check_participation env params bitmap

-- `processEpochEnd`.
unfoldable pub process_epoch_end : Env → ℕ → M (Unit {0})
process_epoch_end env epoch = do
  params ← lift get_params
  epoch_bitmap ← lift (λ s. ok (get_epoch_bitmap epoch s))
  participation_at env params epoch_bitmap
  prune_old_bitmaps epoch

-- The epoch part of `EndBlocker`.
unfoldable pub finish_epoch : Env → Ctx → Params → M (Unit {0})
finish_epoch env ctx params = do
  epoch ← lift (get_current_epoch ctx)
  next_epoch ← lift (λ s.
      if params.epoch_length == 0
      then err panic
      else ok (to_uint64 (inc64 ctx.block_height) / params.epoch_length))
  if epoch == next_epoch then pure tt else process_epoch_end env epoch

-- `EndBlocker`.
unfoldable pub end_blocker : Env → Ctx → M (Unit {0})
end_blocker env ctx = do
  params ← lift get_params
  at_checkpoint ← lift (is_checkpoint_height ctx.block_height)
  if at_checkpoint then process_checkpoint env ctx.block_height else pure tt
  finish_epoch env ctx params
