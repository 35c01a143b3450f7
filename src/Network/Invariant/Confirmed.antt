-- ===== src/Network/Invariant/Confirmed.antt =====
-- Votes and soft confirmation on a well-formed store (modules/network/keeper/keeper.go).
use ev_abci.Prelude.{
  Bool, Get, List, arith, bytes_eq, failed, false, found, get, int_eq, length, ltb, missing, nat_eq,
  ok, pair_eq, pos, refl, string_eq, suc, zero, ℕ, ℤ, ◌*◌, ◌<◌, ◌^◌, ◌∙◌, ◌≡◌, ◌≤◌,
}
use ev_abci.Network.Bitmap.{is_set, pop_count}
use ev_abci.Network.Bitmap.Count.{bit, pop_count-tally, tally, tally-le}
use ev_abci.Network.Types.{Env, State}
use ev_abci.Network.Keeper.{
  calculate_voted_power, check_quorum, get_all_attesters, get_attestation_bitmap, get_total_power,
  is_soft_confirmed,
}
use ev_abci.Network.Keeper.Quorum.{
  calculate_voted_power-pop_count, check_quorum-two_thirds, tally_clip,
}
use ev_abci.Network.Params.Valid.{validate-Accepted}
use ev_abci.Network.Invariant.{IsShaped, IsValid, size}

-- Whether attester `j` has voted for a height.
abbrev pub vote_in : Get (List ℕ) → ℕ → Bool
vote_in (found b) j = is_set b (pos j)
vote_in missing j = false
vote_in failed j = false

abbrev pub voted_at : ℤ → ℕ → State → Bool
voted_at height j s = vote_in (get height s.attestation_bitmap) j

-- How many of the attesters have voted for a height.
abbrev pub votes : ℤ → State → ℕ
votes height s = tally (λ j. voted_at height j s) 0 (size s)

pub pop_count-votes :
    (n : ℕ) (bitmap : List ℕ) → IsShaped n bitmap → pop_count bitmap ≡ tally (bit bitmap) 0 n
pop_count-votes n bitmap shaped =
    pop_count-tally bitmap shaped.bytes
    ∙ tally_clip (bit bitmap) n (length bitmap * 8) shaped.inside shaped.long

pub pop_count-le : (n : ℕ) (bitmap : List ℕ) → IsShaped n bitmap → pop_count bitmap ≤ n
pop_count-le n bitmap shaped =
    omega (arith, pop_count-votes n bitmap shaped, tally-le (bit bitmap) 0 n)

pub total_power-size : (s : State) → size s < 2 ^ 16 → get_total_power s ≡ size s
unfolding get_total_power get_all_attesters
total_power-size s small = omega arith

pub tally_no_votes : (i n : ℕ) → tally (λ j. false) i n ≡ 0
tally_no_votes i zero = refl
tally_no_votes i (suc n) = omega (arith, tally_no_votes (suc i) n)

module _ (env : Env) (s : State) (valid : IsValid env s) where
  pub voted_power-shaped :
      (bitmap : List ℕ)
      → IsShaped (size s) bitmap
      → calculate_voted_power bitmap s ≡ ok (pop_count bitmap)
  voted_power-shaped bitmap shaped =
      calculate_voted_power-pop_count bitmap s shaped.bytes shaped.short
        (λ k e. valid.powered k (shaped.inside k e))

  pub quorum-shaped :
      (bitmap : List ℕ)
      → IsShaped (size s) bitmap
      → check_quorum env (pop_count bitmap) (size s) s
        ≡ ok (ltb (2 * size s) (3 * pop_count bitmap))
  quorum-shaped bitmap shaped =
      let accepted = validate-Accepted env valid.current valid.valid_params in
      check_quorum-two_thirds env (pop_count bitmap) (size s) s valid.current_params
        accepted.quorum.parsed (omega (arith, pop_count-le (size s) bitmap shaped, valid.small))
        (omega (arith, valid.small))

  pub confirmed_by :
      (height : ℤ) (g : Get (List ℕ))
      → get height s.attestation_bitmap ≡ g
      → is_soft_confirmed env height s ≡ ok (ltb (2 * size s) (3 * tally (vote_in g) 0 (size s)))
  unfolding is_soft_confirmed get_attestation_bitmap
  confirmed_by height (found b) h =
      let shaped = valid.shaped height b h in
      rw (
        h,
        voted_power-shaped b shaped,
        total_power-size s valid.small,
        quorum-shaped b shaped,
        pop_count-votes (size s) b shaped,
      )
  confirmed_by height missing h = rw (h, tally_no_votes 0 (size s)) (ground arith)
  confirmed_by height failed h = absurd (valid.readable height h)

-- On a well-formed store a height is soft-confirmed exactly when more than two thirds of the
-- attesters have voted for it, whatever the quorum fraction among the parameters.
pub is_soft_confirmed-votes :
    (env : Env) (s : State) (height : ℤ)
    → IsValid env s
    → is_soft_confirmed env height s ≡ ok (ltb (2 * size s) (3 * votes height s))
is_soft_confirmed-votes env s height valid = confirmed_by env s valid height _ refl
