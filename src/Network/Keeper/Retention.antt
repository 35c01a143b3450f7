-- ===== src/Network/Keeper/Retention.antt =====
-- What the pruning of modules/network/keeper/keeper.go removes, and what it keeps.
use ev_abci.Prelude.{
  Result, String, arith, bytes_eq, found, get, get-clear, if◌then◌else◌, int_eq, ltb, ltb_ℤ,
  missing, mod_small, nat_eq, ok, pair_eq, pos, refl, some, string_eq, to_int64-lt, ℕ, ℤ, ◌*◌, ◌-◌,
  ◌<◌, ◌^◌, ◌≡◌, ◌≤◌,
}
use ev_abci.Network.Types.{Params, State}
use ev_abci.Network.Keeper.{
  Boundary, attestation_retention_boundary, get_params, height_range, prune_below,
  prune_old_bitmaps,
}

-- What each store reads after a prune at a boundary.
abbrev pub PrunedAt : ℕ → ℤ → State → State → Type 0
PrunedAt epoch height s t =
    ((h : ℤ)
      → get h t.attestation_bitmap
        ≡ (if height_range height h then missing else get h s.attestation_bitmap))
    × ((h : ℤ)
        → get h t.stored_attestation_info
          ≡ (if height_range height h then missing else get h s.stored_attestation_info))
    × ((e : ℕ) → get e t.epoch_bitmap ≡ (if ltb e epoch then missing else get e s.epoch_bitmap))
    × ((h : ℤ) (a : String)
        → get (h, a) t.signatures ≡ (if ltb_ℤ h height then missing else get (h, a) s.signatures))

-- A prune that succeeds at a boundary, and keeps the parameters and the attesters.
abbrev pub Prunes : ℕ → ℤ → State → Result (Unit {0}) × State → Type 0
Prunes epoch height s (r, t) =
    (r ≡ ok tt)
    × PrunedAt epoch height s t
    × (t.params ≡ s.params)
    × (t.validator_index ≡ s.validator_index)
    × (t.validator_power ≡ s.validator_power)
    × (t.attester_set ≡ s.attester_set)
    × (t.attester_info ≡ s.attester_info)
    × (t.last_attested_height ≡ s.last_attested_height)

prune_below-PrunedAt :
    (b : Boundary) (s : State)
    → PrunedAt b.first_retained_epoch b.first_retained_height s (prune_below b s)
unfolding prune_below
prune_below-PrunedAt b s = (
  λ h. get-clear _ h s.attestation_bitmap,
  λ h. get-clear _ h s.stored_attestation_info,
  λ e. get-clear _ e s.epoch_bitmap,
  λ h a. get-clear _ (h, a) s.signatures,
)

boundary_of :
    (epoch : ℕ) (s : State) {p : Params}
    → s.params ≡ found p
    → 0 < p.epoch_length
    → 0 < p.prune_after
    → p.prune_after < epoch
    → (epoch - p.prune_after) * p.epoch_length < 2 ^ 63
    → attestation_retention_boundary epoch s
      ≡ ok (
          some (record {
            first_retained_epoch = epoch - p.prune_after;
            first_retained_height = pos ((epoch - p.prune_after) * p.epoch_length);
          }))
unfolding attestation_retention_boundary get_params
boundary_of epoch s {p} hp len keep late small = ground (
  arith,
  mod_small ((epoch - p.prune_after) * p.epoch_length) small,
  to_int64-lt ((epoch - p.prune_after) * p.epoch_length) small,
)

-- With readable parameters, a positive epoch length and window, an epoch past the window and a
-- first retained height below 2^63, the prune succeeds: the attestation bitmaps and the stored
-- attestations lose exactly the heights from zero up to the first retained one, the epoch bitmaps
-- the epochs before the first retained one and the signatures every height below; the parameters,
-- the attesters and the last attested height stay.
pub prune_old_bitmaps-PrunedAt :
    (epoch : ℕ) (s : State) {p : Params}
    → s.params ≡ found p
    → 0 < p.epoch_length
    → 0 < p.prune_after
    → p.prune_after < epoch
    → (epoch - p.prune_after) * p.epoch_length < 2 ^ 63
    → Prunes
        (epoch - p.prune_after)
        (pos ((epoch - p.prune_after) * p.epoch_length))
        s
        (prune_old_bitmaps epoch s)
unfolding prune_old_bitmaps prune_below
prune_old_bitmaps-PrunedAt epoch s {p} hp len keep late small =
    rw (boundary_of epoch s hp len keep late small, prune_old_bitmaps)
      (
        refl,
        prune_below-PrunedAt
            (record {
              first_retained_epoch = epoch - p.prune_after;
              first_retained_height = pos ((epoch - p.prune_after) * p.epoch_length);
            })
            s,
        refl,
        refl,
        refl,
        refl,
        refl,
        refl,
      )

-- Up to the end of the window nothing is pruned.
pub prune_old_bitmaps_early :
    (epoch : ℕ) (s : State) {p : Params}
    → s.params ≡ found p
    → epoch ≤ p.prune_after
    → prune_old_bitmaps epoch s ≡ (ok tt, s)
unfolding prune_old_bitmaps attestation_retention_boundary get_params
prune_old_bitmaps_early epoch s hp early = ground arith
