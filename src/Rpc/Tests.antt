-- ===== src/Rpc/Tests.antt =====
-- Requests for blocks and pages (pkg/rpc/core).
use ev_abci.Prelude.{ok, pos, refl, some, to_int64, to_uint64, ◌+ℤ◌, ◌-ℤ◌, ◌≡◌}
use ev_abci.Rpc.{filter_min_max, or_default, page_within, quotient, validate_page, wrap_int64}

-- The last twenty of the heights 1 to 100.
last_twenty : filter_min_max (pos 1) (pos 100) (pos 0) (pos 0) (pos 20) ≡ ok (pos 81, pos 100)
unfolding filter_min_max or_default wrap_int64 to_int64 to_uint64 ◌-ℤ◌ ◌+ℤ◌
last_twenty = refl

second_page : validate_page (some (pos 2)) (pos 30) (pos 31) ≡ ok (pos 2)
unfolding validate_page page_within quotient ◌-ℤ◌ ◌+ℤ◌
second_page = refl
