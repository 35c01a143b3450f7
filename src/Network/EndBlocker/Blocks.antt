-- ===== src/Network/EndBlocker/Blocks.antt =====
-- The end of a block on a well-formed store (modules/network/keeper/abci.go).
use ev_abci.Prelude.{
  Bool, Get, List, Option, ap, arith, bytes_eq, failed, fetch_opt, found, get, if◌then◌else◌, inc64,
  int_eq, ltb, lt→ltb, missing, nat_eq, none, ok, pair_eq, refl, set, some, string_eq, to_uint64, ℕ,
  ℤ, ◌%◌, ◌*◌, ◌/◌, ◌<◌, ◌==◌, ◌∙◌, ◌∷◌, ◌≡◌,
}
use ev_abci.Prelude.Outcome.{map_ok}
use ev_abci.Network.Bitmap.{pop_count}
use ev_abci.Network.Types.{>>=-step, AttestationBitmap, Ctx, Env, Params, State, checkpoint, lift}
use ev_abci.Network.Keeper.{
  Boundary, attestation_retention_boundary, get_attestation_bitmap, get_epoch_bitmap, get_params,
  is_checkpoint_height, prune_at, prune_old_bitmaps,
}
use ev_abci.Network.Params.Valid.{validate-Accepted}
use ev_abci.Network.Invariant.{IsShaped, IsValid, size}
use ev_abci.Network.Invariant.Confirmed.{quorum-shaped, total_power-size, voted_power-shaped}
use ev_abci.Network.Invariant.Shrinks.{Shrinks, Shrinks-refl}
use ev_abci.Network.MsgServer.Attest.{epoch_lem}
use ev_abci.Network.EndBlocker.{
  check_participation, checkpoint_at, finish_epoch, participation_at, placeholder,
  process_checkpoint, process_epoch_end, store_checkpoint,
}

-- What a checkpoint stores of a height.
abbrev pub checkpoint_info : ℤ → List ℕ → State → AttestationBitmap
checkpoint_info height bitmap s = record {
  height = height;
  bitmap = bitmap;
  voted_power = pop_count bitmap;
  total_power = size s;
  soft_confirmed = ltb (2 * size s) (3 * pop_count bitmap);
}

-- The store after a checkpoint, by the bitmap of its height.
abbrev pub checkpointed : Env → ℤ → Get (List ℕ) → State → State
checkpointed env height (found bitmap) s = record s {
  stored_attestation_info = set height (checkpoint_info height bitmap s) s.stored_attestation_info;
  events =
      checkpoint height (env.base64 (env.sha256 bitmap)) (env.base64 (env.sha256 placeholder))
        (ltb (2 * size s) (3 * pop_count bitmap))
      ∷ s.events;
}
checkpointed env height missing s = s
checkpointed env height failed s = s

pub checkpointed-Shrinks :
    (env : Env) (height : ℤ) (g : Get (List ℕ)) (s : State)
    → Shrinks s (checkpointed env height g s)
checkpointed-Shrinks env height (found b) s = record {
  params = refl;
  attester_set = refl;
  attester_info = refl;
  validator_index = refl;
  validator_power = refl;
  last_attested_height = refl;
  bitmaps = λ h b e. e;
  unreadable = λ h e. e;
  epochs = λ e b p. p;
}
checkpointed-Shrinks env height missing s = Shrinks-refl s
checkpointed-Shrinks env height failed s = Shrinks-refl s

module _ (env : Env) (s : State) (valid : IsValid env s) where
  store_checkpoint_lem :
      (height : ℤ) (bitmap : List ℕ)
      → IsShaped (size s) bitmap
      → store_checkpoint env height bitmap s ≡ (ok tt, checkpointed env height (found bitmap) s)
  unfolding store_checkpoint
  store_checkpoint_lem height bitmap shaped = ground (
    arith,
    voted_power-shaped env s valid bitmap shaped,
    total_power-size s valid.small,
    quorum-shaped env s valid bitmap shaped,
  )

  -- On a well-formed store a checkpoint cannot fail; it stores the votes of the height, if there
  -- are any, with the verdict of the quorum.
  pub process_checkpoint_lem :
      (height : ℤ)
      → process_checkpoint env height s
        ≡ (ok tt, checkpointed env height (get height s.attestation_bitmap) s)
  unfolding process_checkpoint get_attestation_bitmap checkpoint_at
  process_checkpoint_lem height = from_read (get height s.attestation_bitmap) refl
    where
      from_read :
          (g : Get (List ℕ))
          → get height s.attestation_bitmap ≡ g
          → process_checkpoint env height s ≡ (ok tt, checkpointed env height g s)
      from_read (found b) h =
          >>=-step (lift (get_attestation_bitmap height)) (checkpoint_at env height) s
            (ap (λ g. (fetch_opt g, s)) h)
          ∙ store_checkpoint_lem height b (valid.shaped height b h)
      from_read missing h =
          >>=-step (lift (get_attestation_bitmap height)) (checkpoint_at env height) s
            (ap (λ g. (fetch_opt g, s)) h)
      from_read failed h = absurd (valid.readable height h)

  pub get_params_lem : get_params s ≡ ok valid.current
  unfolding get_params
  get_params_lem = rw (valid.current_params, get_params)

  boundary_ok :
      (epoch : ℕ) → (o : Option Boundary) × (attestation_retention_boundary epoch s ≡ ok o)
  unfolding attestation_retention_boundary
  boundary_ok epoch = map_ok (get_params s) _ get_params_lem

  pub prune_ok : (epoch : ℕ) → prune_old_bitmaps epoch s ≡ (ok tt, (prune_old_bitmaps epoch s).1)
  unfolding prune_old_bitmaps
  prune_ok epoch = let (o, h) = boundary_ok epoch in rw h (at_boundary o)
    where
      at_boundary : (o : Option Boundary) → prune_at (ok o) s ≡ (ok tt, (prune_at (ok o) s).1)
      at_boundary none = refl
      at_boundary (some b) = refl

  check_participation_lem :
      (bonded : List Bool) (bitmap : List ℕ)
      → env.last_validators_bonded ≡ ok bonded
      → check_participation env valid.current bitmap s ≡ (ok tt, s)
  unfolding check_participation
  check_participation_lem bonded bitmap h =
      let accepted = validate-Accepted env valid.current valid.valid_params in
      ground (arith, h, accepted.participation.parsed)

  participation_lem :
      (bonded : List Bool) (o : Option (List ℕ))
      → env.last_validators_bonded ≡ ok bonded
      → participation_at env valid.current o s ≡ (ok tt, s)
  unfolding participation_at
  participation_lem bonded none h = refl
  participation_lem bonded (some b) h = check_participation_lem bonded b h

  process_epoch_end_lem :
      (bonded : List Bool) (epoch : ℕ)
      → env.last_validators_bonded ≡ ok bonded
      → process_epoch_end env epoch s ≡ (ok tt, (prune_old_bitmaps epoch s).1)
  unfolding process_epoch_end
  process_epoch_end_lem bonded epoch h =
      ground (
        arith,
        get_params_lem,
        participation_lem bonded (get_epoch_bitmap epoch s) h,
        prune_ok epoch,
      )

-- The store after the checkpoint part of the end of a block.
abbrev pub after_checkpoint : Env → Ctx → Params → State → State
after_checkpoint env ctx p s =
    if to_uint64 ctx.block_height % p.epoch_length == 0
    then checkpointed env ctx.block_height (get ctx.block_height s.attestation_bitmap) s
    else s

-- The store after the epoch part of the end of a block.
abbrev pub after_epoch : Ctx → Params → State → State
after_epoch ctx p s =
    if to_uint64 ctx.block_height / p.epoch_length
      == to_uint64 (inc64 ctx.block_height) / p.epoch_length
    then s
    else (prune_old_bitmaps (to_uint64 ctx.block_height / p.epoch_length) s).1

-- The store after the end of a block.
abbrev pub ended : Env → Ctx → Params → State → State
ended env ctx p s = after_epoch ctx p (after_checkpoint env ctx p s)

module _ (env : Env) (ctx : Ctx) (s : State) (valid : IsValid env s) where
  positive_length : 0 < valid.current.epoch_length
  positive_length = (validate-Accepted env valid.current valid.valid_params).epoch_positive

  pub finish_epoch_lem :
      (bonded : List Bool)
      → env.last_validators_bonded ≡ ok bonded
      → finish_epoch env ctx valid.current s ≡ (ok tt, after_epoch ctx valid.current s)
  unfolding finish_epoch
  finish_epoch_lem bonded h = ground (
    arith,
    positive_length,
    epoch_lem ctx s valid.current valid.current_params positive_length,
    process_epoch_end_lem env s valid bonded
        (to_uint64 ctx.block_height / valid.current.epoch_length) h,
  )

  pub at_checkpoint_lem :
      is_checkpoint_height ctx.block_height s
      ≡ ok (to_uint64 ctx.block_height % valid.current.epoch_length == 0)
  unfolding is_checkpoint_height
  at_checkpoint_lem = rw (valid.current_params, is_checkpoint_height, lt→ltb 0 _ positive_length)
