-- ===== src/Network/Vote/Window.antt =====
-- The heights that `Attest` of modules/network/keeper/msg_server.go accepts.
use ev_abci.Prelude.{
  Error, Option, Result, arith, bytes_eq, err, get, get-clear, int_eq, invalid_request, lt→ltb,
  missing, nat_eq, none, ok, pair_eq, pos, refl, some, string_eq, ℕ, ℤ, ◌-◌, ◌<◌, ◌≡◌, ◌≢◌, ◌≤ℤ◌,
}
use ev_abci.Prelude.Outcome.{◌>>=◌}
use ev_abci.Network.Types.{State}
use ev_abci.Network.Keeper.{
  Boundary, attestation_retention_boundary, get_params, height_range, prune_at, prune_below,
  prune_old_bitmaps, prunes_height,
}
use ev_abci.Network.Vote.{assert_retained, not_pruned}

-- The prune of an epoch, as a function on the store.
abbrev pub pruned : ℕ → State → State
pruned epoch s = (prune_old_bitmaps epoch s).1

-- What acceptance and rejection of a height say of a later store.
abbrev pub Agrees : Result (Unit {0}) → ℤ → State → State → Type 0
Agrees r height s t =
    ((r ≡ ok tt) → get height t.attestation_bitmap ≡ get height s.attestation_bitmap)
    × ((r ≡ err invalid_request) → pos 0 ≤ℤ height → get height t.attestation_bitmap ≡ missing)

not_pruned-Agrees :
    (height : ℤ) (b : Boundary) (s : State)
    → Agrees (not_pruned height (some b)) height s (prune_below b s)
unfolding not_pruned prunes_height prune_below
not_pruned-Agrees height b s = (
  λ kept.
      ground (arith, get-clear (height_range b.first_retained_height) height s.attestation_bitmap),
  λ rejected from_zero.
      ground (arith, get-clear (height_range b.first_retained_height) height s.attestation_bitmap),
)

same_error :
    {A B : Type 0} {e f : Error}
    → ◌≡◌ {A = Result A} (err e) (err f)
    → ◌≡◌ {A = Result B} (err e) (err f)
same_error h = cc

prune_at-Agrees :
    (height : ℤ) (r : Result (Option Boundary)) (s : State)
    → r ≢ err invalid_request
    → Agrees (r >>= not_pruned height) height s (prune_at r s).1
unfolding prune_at not_pruned
prune_at-Agrees height (err e) s other =
    (λ kept. refl, λ rejected _. absurd (other (same_error rejected)))
prune_at-Agrees height (ok none) s other = (λ kept. refl, λ rejected _. cc)
prune_at-Agrees height (ok (some b)) s other = not_pruned-Agrees height b s

boundary_error :
    (epoch : ℕ) (s : State) → attestation_retention_boundary epoch s ≢ err invalid_request
unfolding attestation_retention_boundary get_params
boundary_error epoch s h = ground arith

-- In an epoch after the first, a height that the retention check accepts keeps its bitmap under
-- the prune of the epoch before, and a height from zero on that it rejects loses its bitmap there.
pub assert_retained-pruned :
    (epoch : ℕ) (height : ℤ) (s : State)
    → 0 < epoch
    → Agrees (assert_retained epoch height s) height s (pruned (epoch - 1) s)
unfolding assert_retained prune_old_bitmaps
assert_retained-pruned epoch height s later = rw (lt→ltb 0 epoch later) (
    prune_at-Agrees height (attestation_retention_boundary (epoch - 1) s) s
      (boundary_error (epoch - 1) s))
