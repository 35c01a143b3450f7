-- ===== src/Rpc/Blocks/Ranges.antt =====
-- Which blocks `BlockchainInfo` of pkg/rpc/core/blocks.go answers with.
use ev_abci.Prelude.{
  List, Option, [], ap, arith, false, leb, leb_ℤ, ok, pos, refl, suc, sym, to_int64, to_int64-lt,
  to_uint64-pos, true, zero, ℕ, ℤ, ◌+◌, ◌-ℤ◌, ◌-◌, ◌<◌, ◌^◌, ◌∙◌, ◌∷◌, ◌≡◌, ◌≤◌,
}
use ev_abci.Prelude.Outcome.{>>=-eq-ok, ok_injective}
use ev_abci.Adapter.Convert.{BlockMeta, Comet}
use ev_abci.Rpc.{filter_min_max, wrap_int64}
use ev_abci.Rpc.Range.{IsRange, filter_min_max-IsRange, filter_min_max_nat, wrap_int64-pos}
use ev_abci.Rpc.Commits.{RpcEnv}
use ev_abci.Rpc.Blocks.{BlockSource, blockchain_info, get_block_meta, info_loop, meta_only}

module _ (comet : Comet) (env : RpcEnv) (blocks : BlockSource) where
  -- The blocks of `n` heights, from the first down.
  abbrev pub down_from : ℕ → ℕ → List (Option BlockMeta)
  down_from zero height = []
  down_from (suc n) height =
      meta_only comet env blocks (get_block_meta comet env blocks height) ∷ down_from n (height - 1)

  before :
      (height : ℕ)
      → height < 2 ^ 63
      → 0 < height
      → wrap_int64 (pos height -ℤ pos 1) ≡ pos (height - 1)
  unfolding ◌-ℤ◌
  before height small positive =
      let test : leb 1 height ≡ true = ground arith in
      ap wrap_int64 (ground arith) ∙ wrap_int64-pos (height - 1) (omega arith)

  info_step :
      (fuel lo height : ℕ)
      → height < 2 ^ 63
      → lo ≤ height
      → 0 < lo
      → info_loop comet env blocks (suc fuel) (pos height) (pos lo)
        ≡ meta_only comet env blocks (get_block_meta comet env blocks height)
          ∷ info_loop comet env blocks fuel (pos (height - 1)) (pos lo)
  unfolding info_loop
  info_step fuel lo height small above positive =
      let test : leb_ℤ (pos lo) (pos height) ≡ true = ground arith in
      rw (test, to_uint64-pos height (omega arith), before height small (omega arith)) refl

  info_end :
      (fuel lo height : ℕ)
      → height < lo
      → info_loop comet env blocks fuel (pos height) (pos lo) ≡ []
  unfolding info_loop
  info_end zero lo height below = refl
  info_end (suc fuel) lo height below =
      let test : leb_ℤ (pos lo) (pos height) ≡ false = ground arith in rw test refl

  info_loop_lem :
      (fuel n lo : ℕ)
      → n < fuel
      → 0 < lo
      → lo + n < 2 ^ 63
      → info_loop comet env blocks fuel (pos (lo + n)) (pos lo) ≡ down_from (suc n) (lo + n)
  info_loop_lem zero n lo enough positive small = absurd (omega arith)
  info_loop_lem (suc fuel) zero lo enough positive small =
      info_step fuel lo (lo + 0) small (omega arith) positive
      ∙ ap (λ rest. meta_only comet env blocks (get_block_meta comet env blocks (lo + 0)) ∷ rest)
          (info_end fuel lo (lo + 0 - 1) (omega arith))
  info_loop_lem (suc fuel) (suc n) lo enough positive small =
      let height : ℕ = lo + suc n in
      let lower : height - 1 ≡ lo + n = omega arith in
      info_step fuel lo height small (omega arith) positive
      ∙ ap (λ rest. meta_only comet env blocks (get_block_meta comet env blocks height) ∷ rest)
          (ap (λ h. info_loop comet env blocks fuel (pos h) (pos lo)) lower
            ∙ info_loop_lem fuel n lo (omega arith) positive (omega arith)
            ∙ ap (down_from (suc n)) (sym lower))

  whole :
      (lo hi : ℕ)
      → 0 < lo
      → lo ≤ hi
      → hi < lo + 20
      → hi < 2 ^ 63
      → info_loop comet env blocks 21 (pos hi) (pos lo) ≡ down_from (hi + 1 - lo) hi
  whole lo hi positive ordered few small =
      let n : ℕ = hi - lo in
      let top : lo + n ≡ hi = omega arith in
      let count : suc n ≡ hi + 1 - lo = omega arith in
      ap (λ h. info_loop comet env blocks 21 (pos h) (pos lo)) (sym top)
      ∙ info_loop_lem 21 n lo (omega arith) positive (omega arith)
      ∙ ap (down_from (suc n)) top
      ∙ ap (λ k. down_from k hi) count

  -- For bounds from zero on and a store height below 2^63 - 1, `BlockchainInfo` that answers gives the
  -- blocks of all heights of a range in descending order: at most twenty heights, above zero, in the
  -- store and in the request, with nil for a height whose block cannot be made.
  pub blockchain_info-IsRange :
      (height mini maxi : ℕ) (last : ℤ) (metas : List (Option BlockMeta))
      → env.height ≡ ok height
      → height < 2 ^ 63 - 1
      → blockchain_info comet env blocks (pos mini) (pos maxi) ≡ ok (last, metas)
      → (lo : ℕ) × (hi : ℕ) × IsRange 0 height mini maxi 20 lo hi
        × (0 < lo)
        × (last ≡ pos height)
        × (metas ≡ down_from (hi + 1 - lo) hi)
  unfolding blockchain_info
  blockchain_info-IsRange height mini maxi last metas known small answered =
      let (h, given, e1) = >>=-eq-ok env.height _ answered in
      let (range, filtered, e2) =
        >>=-eq-ok (filter_min_max (pos 0) (to_int64 h) (pos mini) (pos maxi) (pos 20)) _ e1 in
      let plain_height : to_int64 h ≡ pos height =
        ap to_int64 (ok_injective (sym given ∙ known)) ∙ to_int64-lt height (omega arith) in
      let kept : filter_min_max (pos 0) (pos height) (pos mini) (pos maxi) (pos 20) ≡ ok range =
        ap (λ x. filter_min_max (pos 0) x (pos mini) (pos maxi) (pos 20)) (sym plain_height)
        ∙ filtered in
      let (lo, hi, pair, positive) =
        filter_min_max_nat 0 height mini maxi 20 small (omega arith) kept in
      let bounds : IsRange 0 height mini maxi 20 lo hi =
        filter_min_max-IsRange 0 height mini maxi 20 lo hi (omega arith) small (omega arith)
          (kept ∙ ap ok pair) in
      (
        lo,
        hi,
        bounds,
        positive,
        sym (ap (λ a. a.0) (ok_injective e2)) ∙ plain_height,
        sym (ap (λ a. a.1) (ok_injective e2))
            ∙ ap (λ r. info_loop comet env blocks 21 r.1 r.0) pair
            ∙ whole lo hi positive bounds.ordered bounds.few
                (omega (arith, bounds.to_height, small)),
      )
