-- ===== src/Rpc.antt =====
-- pkg/rpc/core: the heights and pages of requests (utils.go and env.go), and the handlers below.
pub mod Pages
pub mod Range
pub mod Commits
pub mod Blocks
pub mod Search
pub mod Chunks
pub mod Mempool
mod NodeTests
mod Tests
use ev_abci.Prelude.{
  Option, Result, eq_ℤ, err, fail_as, if◌then◌else◌, leb_ℤ, ltb_ℤ, negsuc, none, ok, panic, plain,
  pos, some, suc, to_int64, to_uint64, zero, ℕ, ℤ, ◌*◌, ◌+ℤ◌, ◌-ℤ◌, ◌/◌, ◌||◌,
}

-- The result of an int64 operation.
unfoldable pub wrap_int64 : ℤ → ℤ
unfolding to_int64 to_uint64
wrap_int64 z = to_int64 (to_uint64 z)

-- Go's built-in `min` and `max`.
abbrev pub min_ℤ : ℤ → ℤ → ℤ
min_ℤ a b = if leb_ℤ a b then a else b

abbrev pub max_ℤ : ℤ → ℤ → ℤ
max_ℤ a b = if leb_ℤ a b then b else a

-- The default values of `filterMinMax`: a zero stands for no bound.
unfoldable pub or_default : ℤ → ℤ → ℤ
or_default bound default = if eq_ℤ bound (pos 0) then default else bound

-- `filterMinMax`.
unfoldable pub filter_min_max : ℤ → ℤ → ℤ → ℤ → ℤ → Result (ℤ × ℤ)
unfolding or_default wrap_int64
filter_min_max base height mini maxi limit =
    if ltb_ℤ mini (pos 0) || ltb_ℤ maxi (pos 0)
    then err plain
    else let hi = min_ℤ height (or_default maxi height) in
      let lo = max_ℤ (max_ℤ base (or_default mini (pos 1))) (wrap_int64 ((hi -ℤ limit) +ℤ pos 1)) in
      if ltb_ℤ hi lo then err plain else ok (lo, hi)

-- `normalizeHeight`: no height, or a negative one, stands for the store's.
unfoldable pub normalize_height : Result ℕ → Option ℤ → Result ℕ
unfolding to_uint64
normalize_height current none = fail_as plain current
normalize_height current (some height) =
    if ltb_ℤ height (pos 0) then fail_as plain current else ok (to_uint64 height)

-- `defaultPerPage` and `maxPerPage`.
abbrev pub default_per_page : ℤ
default_per_page = pos 30

abbrev pub max_per_page : ℤ
max_per_page = pos 100

-- `validatePerPage`.
unfoldable pub validate_per_page : Option ℤ → ℤ
validate_per_page none = default_per_page
validate_per_page (some per_page) =
    if ltb_ℤ per_page (pos 1)
    then default_per_page
    else if ltb_ℤ max_per_page per_page
    then max_per_page
    else per_page

-- Go's division by a positive number, towards zero.
unfoldable pub quotient : ℤ → ℕ → ℤ
quotient (pos n) d = pos (n / d)
quotient (negsuc n) d = pos 0 -ℤ pos (suc n / d)

-- `validatePage` once the page size is known to be positive.
unfoldable pub page_within : Option ℤ → ℕ → ℤ → Result ℤ
page_within none per_page total_count = ok (pos 1)
page_within (some page) per_page total_count =
    let pages = quotient (total_count -ℤ pos 1) per_page +ℤ pos 1 in
    if leb_ℤ page (pos 0) || ltb_ℤ (if eq_ℤ pages (pos 0) then pos 1 else pages) page
    then err plain
    else ok page

-- `validatePage`.
unfoldable pub validate_page : Option ℤ → ℤ → ℤ → Result ℤ
validate_page page (pos (suc n)) total_count = page_within page (suc n) total_count
validate_page page (pos zero) total_count = err panic
validate_page page (negsuc n) total_count = err panic

-- A product with a page size, before it wraps.
unfoldable pub scale : ℤ → ℕ → ℤ
scale (pos n) d = pos (n * d)
scale (negsuc n) d = pos 0 -ℤ pos (suc n * d)

-- `validateSkipCount`, for the page sizes from zero on that `validatePage` lets through.
unfoldable pub validate_skip_count : ℤ → ℕ → ℤ
validate_skip_count page per_page =
    let skip_count = wrap_int64 (scale (page -ℤ pos 1) per_page) in
    if ltb_ℤ skip_count (pos 0) then pos 0 else skip_count
