-- ===== src/Rpc/Pages.antt =====
-- Pages of results (pkg/rpc/core/env.go).
use native.Mathlib.Nat.{le-div_iff_mul-le}
use ev_abci.Prelude.{
  Option, arith, none, ok, pos, refl, some, suc, zero, ℕ, ℤ, ◌*◌, ◌+ℤ◌, ◌-ℤ◌, ◌/◌, ◌<ℤ◌, ◌<◌, ◌^◌,
  ◌≡◌, ◌≤ℤ◌, ◌≤◌,
}
use ev_abci.Rpc.Range.{wrap_int64-pos}
use ev_abci.Rpc.{
  page_within, quotient, scale, validate_page, validate_per_page, validate_skip_count,
}

pub page_fits : (n d t : ℕ) → n ≤ t / suc d → n * suc d ≤ t
page_fits n d t h = (le-div_iff_mul-le {x = n} (omega arith)).0 h

pred_lem : (n : ℕ) → (pos (suc n) -ℤ pos 1) ≡ pos n
unfolding ◌-ℤ◌
pred_lem n = ground arith

pub skip_lem :
    (n d : ℕ) → n * suc d < 2 ^ 63 → validate_skip_count (pos (suc n)) (suc d) ≡ pos (n * suc d)
unfolding validate_skip_count scale
skip_lem n d small = rw (pred_lem n, wrap_int64-pos (n * suc d) small) (ground arith)

pub accepted_page :
    (page d t : ℕ) {q : ℤ}
    → page_within (some (pos page)) (suc d) (pos (suc t)) ≡ ok q
    → (n : ℕ) × (page ≡ suc n) × (q ≡ pos page) × (n ≤ t / suc d)
unfolding page_within quotient ◌-ℤ◌ ◌+ℤ◌
accepted_page zero d t h = ground (arith, h)
accepted_page (suc n) d t {q} h = (n, refl, ground (arith, h), ground (arith, h))

-- A page from zero on that is accepted for a positive page size and a positive number of results
-- below 2^63 is the requested one, is at least one and starts before the last result.
pub validate_page-starts :
    (page d t : ℕ) {q : ℤ}
    → suc t < 2 ^ 63
    → validate_page (some (pos page)) (pos (suc d)) (pos (suc t)) ≡ ok q
    → (q ≡ pos page) × (1 ≤ page) × (validate_skip_count q (suc d) <ℤ pos (suc t))
unfolding validate_page
validate_page-starts page d t {q} small h =
    let (n, e, same_page, fits) = accepted_page page d t h in
    let inside : n * suc d ≤ t = page_fits n d t fits in
    (same_page, omega arith, rw (same_page, e) (rw (skip_lem n d (omega arith)) (omega arith)))

-- The page size is always between one and a hundred, and a request in that range is kept.
pub validate_per_page-bounds :
    (per_page : Option ℤ)
    → (pos 1 ≤ℤ validate_per_page per_page)
      × (validate_per_page per_page ≤ℤ pos 100)
      × ((n : ℤ) → per_page ≡ some n → pos 1 ≤ℤ n → n ≤ℤ pos 100 → validate_per_page per_page ≡ n)
unfolding validate_per_page
validate_per_page-bounds none = (omega arith, omega arith, λ n e. cc)
validate_per_page-bounds (some n) =
    (ground arith, ground arith, λ m e low high. ground (arith, e, low, high))
