-- ===== src/Rpc/Range.antt =====
-- The range of blocks that a request gets (pkg/rpc/core/utils.go).
use ev_abci.Prelude.{
  arith, err, if◌then◌else◌, leb, ltb, negsuc, ok, plain, pos, sym, to_int64, to_uint64, ℕ, ℤ, ◌+ℤ◌,
  ◌+◌, ◌-ℤ◌, ◌-◌, ◌<◌, ◌==◌, ◌^◌, ◌∙◌, ◌≡◌, ◌≤◌,
}
use ev_abci.Rpc.{filter_min_max, max_ℤ, min_ℤ, or_default, wrap_int64}

-- The bounds of a range of blocks, in the store's range, in the request and of at most `limit` blocks.
pub record IsRange (base height mini maxi limit lo hi : ℕ) : Type 0 where
  pub ordered : lo ≤ hi
  pub from_base : base ≤ lo
  pub to_height : hi ≤ height
  pub from_mini : mini ≤ lo
  pub to_maxi : 0 < maxi → hi ≤ maxi
  pub few : hi < lo + limit

pub wrap_int64-pos : (n : ℕ) → n < 2 ^ 63 → wrap_int64 (pos n) ≡ pos n
unfolding wrap_int64 to_uint64 to_int64
wrap_int64-pos n small = ground arith

pub wrap_int64-negsuc : (n : ℕ) → n < 2 ^ 63 → wrap_int64 (negsuc n) ≡ negsuc n
unfolding wrap_int64 to_uint64 to_int64
wrap_int64-negsuc n small = ground arith

-- The lower bound that keeps `limit` heights up to `hi`.
window_start :
    (hi limit : ℕ)
    → hi < 2 ^ 63 - 1
    → limit < 2 ^ 63
    → wrap_int64 ((pos hi -ℤ pos limit) +ℤ pos 1) ≡ (pos hi -ℤ pos limit) +ℤ pos 1
unfolding ◌-ℤ◌ ◌+ℤ◌
window_start hi limit small few = ground (
  arith,
  wrap_int64-pos (hi + 1 - limit) (omega arith),
  wrap_int64-negsuc (limit - hi - 1 - 1) (omega arith),
)

-- The upper bound, and the lower one for it.
abbrev hi_of : ℕ → ℕ → ℕ
hi_of height maxi = if maxi == 0 then height else if leb height maxi then height else maxi

abbrev larger_of : ℕ → ℕ → ℕ
larger_of a b = if leb a b then b else a

abbrev lo_of : ℕ → ℕ → ℕ → ℕ → ℕ
lo_of base mini limit hi =
    larger_of (larger_of base (if mini == 0 then 1 else mini)) (hi + 1 - limit)

hi_lem :
    (height maxi : ℕ)
    → min_ℤ (pos height) (or_default (pos maxi) (pos height)) ≡ pos (hi_of height maxi)
unfolding or_default
hi_lem height maxi = ground arith

lo_lem :
    (base mini limit hi : ℕ)
    → hi < 2 ^ 63 - 1
    → limit < 2 ^ 63
    → max_ℤ
        (max_ℤ (pos base) (or_default (pos mini) (pos 1)))
        (wrap_int64 ((pos hi -ℤ pos limit) +ℤ pos 1))
      ≡ pos (lo_of base mini limit hi)
unfolding or_default ◌-ℤ◌ ◌+ℤ◌
lo_lem base mini limit hi small few = rw (window_start hi limit small few) (ground arith)

hi_of-le : (height maxi : ℕ) → hi_of height maxi ≤ height
hi_of-le height maxi = ground arith

filter_min_max_lem :
    (base height mini maxi limit : ℕ)
    → height < 2 ^ 63 - 1
    → limit < 2 ^ 63
    → filter_min_max (pos base) (pos height) (pos mini) (pos maxi) (pos limit) ≡ (
        let hi = hi_of height maxi in
        let lo = lo_of base mini limit hi in if ltb hi lo then err plain else ok (pos lo, pos hi))
unfolding filter_min_max
filter_min_max_lem base height mini maxi limit small few =
    rw
      (
        hi_lem height maxi,
        lo_lem base mini limit (hi_of height maxi) (omega (arith, hi_of-le height maxi)) few,
      )
      (ground arith)

-- For bounds from zero on, a height below 2^63 - 1 and a positive limit, the blocks that
-- `filterMinMax` lets through lie in the store's range and in the request and are at most `limit`.
pub filter_min_max-IsRange :
    (base height mini maxi limit lo hi : ℕ)
    → 0 < limit
    → height < 2 ^ 63 - 1
    → limit < 2 ^ 63
    → filter_min_max (pos base) (pos height) (pos mini) (pos maxi) (pos limit) ≡ ok (pos lo, pos hi)
    → IsRange base height mini maxi limit lo hi
filter_min_max-IsRange base height mini maxi limit lo hi positive small few h =
    let e = sym (filter_min_max_lem base height mini maxi limit small few) ∙ h in
    record {
      ordered = ground (arith, e);
      from_base = ground (arith, e);
      to_height = ground (arith, e);
      from_mini = ground (arith, e);
      to_maxi = λ p. ground (arith, e);
      few = ground (arith, e);
    }

-- The bounds that are let through are numbers, and the lower one is above zero.
pub filter_min_max_nat :
    (base height mini maxi limit : ℕ) {range : ℤ × ℤ}
    → height < 2 ^ 63 - 1
    → limit < 2 ^ 63
    → filter_min_max (pos base) (pos height) (pos mini) (pos maxi) (pos limit) ≡ ok range
    → (lo : ℕ) × (hi : ℕ) × (range ≡ (pos lo, pos hi)) × (0 < lo)
filter_min_max_nat base height mini maxi limit {range} small few h =
    let hi : ℕ = hi_of height maxi in
    let lo : ℕ = lo_of base mini limit hi in
    let e : (if ltb hi lo then err plain else ok (pos lo, pos hi)) ≡ ok range =
      sym (filter_min_max_lem base height mini maxi limit small few) ∙ h in
    (lo, hi, ground (arith, e), ground arith)
