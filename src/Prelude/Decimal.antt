-- ===== src/Prelude/Decimal.antt =====
-- Decimal numerals as Go's strconv prints and reads them: `FormatUint(n, 10)` and
-- `ParseUint(s, 10, 64)`.
use Prim.Native.Nat.{ℕ, suc, zero, ◌%◌, ◌*◌, ◌+◌, ◌-◌, ◌/◌, ◌<◌, ◌^◌}
use mathlib.Core.Path.{ap, refl, sym, ◌∙◌, ◌≡◌}
use mathlib.Core.Logic.{inl, inr}
use mathlib.Core.Bool.{false, ◌&&◌}
use mathlib.Core.List.{List, [], ◌∷◌}
use mathlib.Core.Option.{Option, none, some}
use native.Mathlib.Omega.{arith}
use ev_abci.Prelude.Tests.{Bool-cases, if◌then◌else◌, leb, le→leb, ltb, ltb→lt, lt→ltb}

-- The digits of `n` before `rest`; twenty rounds print every 64-bit number.
unfoldable pub digits : ℕ → ℕ → List ℕ → List ℕ
digits zero n rest = rest
digits (suc rounds) n rest =
    let more = digits rounds (n / 10) ((b'0' + n % 10) ∷ rest) in
    if ltb n 10 then (b'0' + n) ∷ rest else more

unfoldable pub format_uint : ℕ → List ℕ
unfolding digits
format_uint n = digits 20 n []

-- The digits of a text after those that make `n`; `none` is a syntax or a range error.
unfoldable pub parse_digits : ℕ → List ℕ → Option ℕ
parse_digits n [] = some n
parse_digits n (c ∷ cs) =
    let rest = parse_digits (n * 10 + (c - b'0')) cs in
    if leb b'0' c && leb c b'9' && ltb (n * 10 + (c - b'0')) (2 ^ 64) then rest else none

unfoldable pub parse_uint : List ℕ → Option ℕ
unfolding parse_digits
parse_uint [] = none
parse_uint (c ∷ cs) = parse_digits 0 (c ∷ cs)

-- Ten to the power of the rounds.
abbrev bound : ℕ → ℕ
bound zero = 1
bound (suc rounds) = 10 * bound rounds

parse_digits-cons :
    (n d : ℕ) (rest : List ℕ)
    → d < 10
    → n * 10 + d < 2 ^ 64
    → parse_digits n ((b'0' + d) ∷ rest) ≡ parse_digits (n * 10 + d) rest
unfolding parse_digits
parse_digits-cons n d rest digit word =
    let value : b'0' + d - b'0' ≡ d = omega arith in
    rw (
      value,
      le→leb b'0' (b'0' + d) (omega arith),
      le→leb (b'0' + d) b'9' (omega arith),
      lt→ltb (n * 10 + d) (2 ^ 64) word,
    )

digits_none : (n : ℕ) (rest : List ℕ) → digits zero n rest ≡ rest
unfolding digits
digits_none n rest = refl

digits_last :
    (rounds n : ℕ) (rest : List ℕ) → n < 10 → digits (suc rounds) n rest ≡ (b'0' + n) ∷ rest
unfolding digits
digits_last rounds n rest h = rw (lt→ltb n 10 h)

digits_more :
    (rounds n : ℕ) (rest : List ℕ)
    → ltb n 10 ≡ false
    → digits (suc rounds) n rest ≡ digits rounds (n / 10) ((b'0' + n % 10) ∷ rest)
unfolding digits
digits_more rounds n rest h = rw h

parse_digits-digits :
    (rounds n : ℕ) (rest : List ℕ)
    → n < bound rounds
    → n < 2 ^ 64
    → parse_digits 0 (digits rounds n rest) ≡ parse_digits n rest
unfolding digits
parse_digits-digits zero n rest small word = ap (λ m. parse_digits m rest) (omega arith)
parse_digits-digits (suc rounds) n rest small word = elim (Bool-cases (ltb n 10)) [
  | inl one ↦
      ap (parse_digits 0) (digits_last rounds n rest (ltb→lt n 10 one))
      ∙ parse_digits-cons 0 n rest (ltb→lt n 10 one) (omega arith)
      ∙ ap (λ m. parse_digits m rest) (omega arith)
  | inr more ↦
      let value : n / 10 * 10 + n % 10 ≡ n = omega arith in
      ap (parse_digits 0) (digits_more rounds n rest more)
      ∙ parse_digits-digits rounds (n / 10) ((b'0' + n % 10) ∷ rest) (omega arith) (omega arith)
      ∙ parse_digits-cons (n / 10) (n % 10) rest (omega arith) (omega arith)
      ∙ ap (λ m. parse_digits m rest) value
]

digits_cons :
    (rounds n : ℕ) (rest : List ℕ) → (c : ℕ) × (cs : List ℕ) × (digits (suc rounds) n rest ≡ c ∷ cs)
digits_cons zero n rest = elim (Bool-cases (ltb n 10)) [
  | inl one ↦ (b'0' + n, rest, digits_last zero n rest (ltb→lt n 10 one))
  | inr more ↦ ((b'0' + n % 10), rest, digits_more zero n rest more ∙ digits_none (n / 10) _)
]
digits_cons (suc rounds) n rest = elim (Bool-cases (ltb n 10)) [
  | inl one ↦ (b'0' + n, rest, digits_last (suc rounds) n rest (ltb→lt n 10 one))
  | inr more ↦
      let (c, cs, e) = digits_cons rounds (n / 10) ((b'0' + n % 10) ∷ rest) in
      (c, cs, digits_more (suc rounds) n rest more ∙ e)
]

parse_cons : (xs : List ℕ) {c : ℕ} {cs : List ℕ} → xs ≡ c ∷ cs → parse_uint xs ≡ parse_digits 0 xs
unfolding parse_uint
parse_cons [] h = cc
parse_cons (x ∷ xs) h = refl

-- What is printed is read back.
pub parse_uint-format_uint : (n : ℕ) → n < 2 ^ 64 → parse_uint (format_uint n) ≡ some n
unfolding format_uint parse_digits
parse_uint-format_uint n word =
    let (c, cs, e) = digits_cons 19 n [] in
    parse_cons (digits 20 n []) e ∙ parse_digits-digits 20 n [] (omega arith) word

pub format_uint_injective :
    (m n : ℕ) → m < 2 ^ 64 → n < 2 ^ 64 → format_uint m ≡ format_uint n → m ≡ n
format_uint_injective m n a b h =
    some_injective (sym (parse_uint-format_uint m a) ∙ ap parse_uint h ∙ parse_uint-format_uint n b)
  where
    some_injective : {x y : ℕ} → some x ≡ some y → x ≡ y
    some_injective e = cc

pub format_uint_ne_nil : (n : ℕ) → (c : ℕ) × (cs : List ℕ) × (format_uint n ≡ c ∷ cs)
unfolding format_uint
format_uint_ne_nil n = digits_cons 19 n []
