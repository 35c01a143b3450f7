-- ===== src/Network/Query/Answers.antt =====
-- What the queries answer on a well-formed store (modules/network/keeper/grpc_query.go).
use native.Mathlib.Nat.{add-mul, le-mul_of_pos_right, le-div_iff_mul-le, div-lt_iff_lt-mul}
use ev_abci.Prelude.{
  Get, List, ap, arith, bytes_eq, failed, found, get, int_eq, leb, leb_ℤ, ltb, missing, mod_small,
  nat_eq, ok, pair_eq, pos, refl, some, string_eq, to_int64, to_int64-lt, to_uint64, wrap64, ℕ, ℤ,
  ◌%◌, ◌&&◌, ◌*◌, ◌+◌, ◌-◌, ◌/◌, ◌<◌, ◌==◌, ◌^◌, ◌↔◌, ◌∙◌, ◌≡◌, ◌≤◌,
}
use ev_abci.Network.Types.{Env, State}
use ev_abci.Network.Bitmap.Count.{tally}
use ev_abci.Network.Keeper.{get_attestation_bitmap}
use ev_abci.Network.Query.{epoch_end, epoch_start, query_soft_confirmation_status, voted_power_of}
use ev_abci.Network.Invariant.{IsValid, size}
use ev_abci.Network.Invariant.Confirmed.{
  confirmed_by, pop_count-votes, tally_no_votes, total_power-size, vote_in, voted_power-shaped,
  votes,
}
use ev_abci.Network.EndBlocker.Blocks.{get_params_lem}

-- On a well-formed store `SoftConfirmationStatus` answers every request: the votes of the height,
-- the number of attesters, and whether the votes exceed two thirds of them.
pub query_soft_confirmation_status-votes :
    (env : Env) (s : State) (height : ℤ)
    → (valid : IsValid env s)
    → query_soft_confirmation_status env (some height) s
      ≡ ok (record {
        soft_confirmed = ltb (2 * size s) (3 * votes height s);
        voted_power = votes height s;
        total_power = size s;
        quorum_fraction = valid.current.quorum_fraction;
      })
unfolding query_soft_confirmation_status get_attestation_bitmap voted_power_of
query_soft_confirmation_status-votes env s height valid =
    from_read (get height s.attestation_bitmap) refl
  where
    from_read :
        (g : Get (List ℕ))
        → get height s.attestation_bitmap ≡ g
        → query_soft_confirmation_status env (some height) s
          ≡ ok (record {
            soft_confirmed = ltb (2 * size s) (3 * tally (vote_in g) 0 (size s));
            voted_power = tally (vote_in g) 0 (size s);
            total_power = size s;
            quorum_fraction = valid.current.quorum_fraction;
          })
    from_read (found b) h =
        let shaped = valid.shaped height b h in
        rw (
          confirmed_by env s valid height (found b) h,
          h,
          voted_power-shaped env s valid b shaped,
          total_power-size s valid.small,
          get_params_lem env s valid,
          pop_count-votes (size s) b shaped,
        )
    from_read missing h = rw (
      confirmed_by env s valid height missing h,
      h,
      total_power-size s valid.small,
      get_params_lem env s valid,
      tally_no_votes 0 (size s),
    )
    from_read failed h = absurd (valid.readable height h)

-- A quotient by its two bounds.
quotient_bounds :
    (h epoch_length epoch : ℕ)
    → 0 < epoch_length
    → (leb (epoch * epoch_length) h && ltb h ((epoch + 1) * epoch_length))
      ≡ (h / epoch_length == epoch)
quotient_bounds h epoch_length epoch positive =
    let above : (epoch ≤ h / epoch_length) ↔ (epoch * epoch_length ≤ h) =
      le-div_iff_mul-le positive in
    let below : (h / epoch_length < epoch + 1) ↔ (h < (epoch + 1) * epoch_length) =
      div-lt_iff_lt-mul positive in
    ground (arith, above, below)

epoch_start_lem :
    (epoch epoch_length : ℕ)
    → epoch * epoch_length < 2 ^ 63
    → epoch_start epoch epoch_length ≡ pos (epoch * epoch_length)
unfolding epoch_start
epoch_start_lem epoch epoch_length small =
    ap to_int64 (mod_small (epoch * epoch_length) small) ∙ to_int64-lt (epoch * epoch_length) small

epoch_end_lem :
    (epoch epoch_length : ℕ)
    → 0 < epoch_length
    → (epoch + 1) * epoch_length < 2 ^ 63
    → epoch_end epoch epoch_length ≡ pos ((epoch + 1) * epoch_length - 1)
unfolding epoch_end
epoch_end_lem epoch epoch_length positive small =
    let factor : epoch + 1 ≤ (epoch + 1) * epoch_length =
      le-mul_of_pos_right (epoch + 1) positive in
    let no_wrap : wrap64 (epoch + 1) ≡ epoch + 1 = omega arith in
    let some_height : 0 < (epoch + 1) * epoch_length = omega arith in
    let back : wrap64 ((epoch + 1) * epoch_length + (2 ^ 64 - 1)) ≡ (epoch + 1) * epoch_length - 1 =
      omega arith in
    rw no_wrap (rw back (to_int64-lt ((epoch + 1) * epoch_length - 1) (omega arith)))

-- For a positive epoch length the heights that `EpochInfo` gives for an epoch are exactly those
-- below 2^63 that `GetCurrentEpoch` puts into it, while the next epoch starts below 2^63.
pub epoch_heights :
    (epoch epoch_length h : ℕ)
    → 0 < epoch_length
    → (epoch + 1) * epoch_length < 2 ^ 63
    → h < 2 ^ 63
    → (leb_ℤ (epoch_start epoch epoch_length) (pos h)
        && leb_ℤ (pos h) (epoch_end epoch epoch_length))
      ≡ (to_uint64 (pos h) / epoch_length == epoch)
unfolding to_uint64
epoch_heights epoch epoch_length h positive small below =
    let more : (epoch + 1) * epoch_length ≡ epoch * epoch_length + epoch_length =
      omega (arith, add-mul epoch 1 epoch_length) in
    let no_wrap : h % 2 ^ 64 ≡ h = omega arith in
    rw
      (
        epoch_start_lem epoch epoch_length (omega arith),
        epoch_end_lem epoch epoch_length positive small,
        no_wrap,
      )
      (ground (arith, quotient_bounds h epoch_length epoch positive, more, positive))
