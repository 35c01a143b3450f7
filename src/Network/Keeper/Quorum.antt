-- ===== src/Network/Keeper/Quorum.antt =====
-- Voted power and the quorum test of modules/network/keeper/keeper.go.
use ev_abci.Prelude.{
  Bool, Bool-cases, List, ap, arith, bytes_eq, false, found, get, inl, inr, int_eq, length, ltb,
  nat_eq, ok, pair_eq, pos, refl, some, string_eq, suc, true, wrap64, zero, ℕ, ℤ, ◌%◌, ◌&&◌, ◌*◌,
  ◌+◌, ◌-◌, ◌<◌, ◌^◌, ◌∙◌, ◌≡◌, ◌≤◌,
}
use ev_abci.Network.Bitmap.{is_set, pop_count}
use ev_abci.Network.Bitmap.Bytes.{IsBitmap}
use ev_abci.Network.Bitmap.Count.{bit, one, pop_count-tally, tally, tally-add}
use ev_abci.Network.Types.{Env, Params, State}
use ev_abci.Network.Keeper.{
  calculate_voted_power, check_quorum, get_params, get_validator_power, voted_power_from,
}

-- Every validator that the bitmap marks has the power 1 that the genesis gives it.
abbrev pub HasUnitPower : List ℕ → State → Type 0
HasUnitPower bitmap s = (k : ℕ) → is_set bitmap (pos k) ≡ true → get k s.validator_power ≡ found 1

voted_power_from-tally :
    (rounds i : ℕ) (bitmap : List ℕ) (voted_power : ℕ) (s : State)
    → HasUnitPower bitmap s
    → i + rounds ≤ 2 ^ 16
    → voted_power + rounds < 2 ^ 64
    → voted_power_from rounds i bitmap voted_power s
      ≡ ok (voted_power + tally (bit bitmap) i rounds)
unfolding voted_power_from get_validator_power
voted_power_from-tally zero i bitmap voted_power s unit hi hv = ap ok (omega arith)
voted_power_from-tally (suc rounds) i bitmap voted_power s unit hi hv =
    let small : i % 2 ^ 16 ≡ i = omega arith in
    let no_wrap : wrap64 (voted_power + 1) ≡ voted_power + 1 = omega arith in
    elim (Bool-cases (is_set bitmap (pos i))) [
      | inl voted ↦ ground (
        arith,
        small,
        no_wrap,
        voted,
        unit i voted,
        voted_power_from-tally rounds (suc i) bitmap (voted_power + 1) s unit (omega arith)
            (omega arith),
      )
      | inr absent ↦ ground (
        arith,
        absent,
        voted_power_from-tally rounds (suc i) bitmap voted_power s unit (omega arith) (omega arith),
      )
    ]

-- Where every validator that a bitmap of bytes marks has the power one and the bitmap has at most
-- 2^16 bits, the voted power is the number of votes in the bitmap.
pub calculate_voted_power-pop_count :
    (bitmap : List ℕ) (s : State)
    → IsBitmap bitmap
    → length bitmap * 8 ≤ 2 ^ 16
    → HasUnitPower bitmap s
    → calculate_voted_power bitmap s ≡ ok (pop_count bitmap)
unfolding calculate_voted_power
calculate_voted_power-pop_count bitmap s bytes short unit =
    voted_power_from-tally (length bitmap * 8) 0 bitmap 0 s unit (omega arith) (omega arith)
    ∙ ap ok (omega (arith, pop_count-tally bitmap bytes))

-- With readable parameters and powers below 2^62 the test decides whether the voted power exceeds
-- two thirds of the total, whatever the quorum fraction says.
pub check_quorum-two_thirds :
    (env : Env) (voted total : ℕ) (s : State) {p : Params} {q : ℤ}
    → s.params ≡ found p
    → env.dec_from_str p.quorum_fraction ≡ some q
    → voted < 2 ^ 62
    → total < 2 ^ 62
    → check_quorum env voted total s ≡ ok (ltb (2 * total) (3 * voted))
unfolding check_quorum get_params
check_quorum-two_thirds env voted total s hp hq hv ht =
    let no_wrap : wrap64 (voted * 3) ≡ 3 * voted = omega arith in
    let no_wrap' : wrap64 (total * 2) ≡ 2 * total = omega arith in ground (arith, no_wrap, no_wrap')

-- Votes of two bitmaps.
abbrev both : List ℕ → List ℕ → ℕ → Bool
both a b k = bit a k && bit b k

tally_overlap :
    (p q : ℕ → Bool) (i n : ℕ) → tally p i n + tally q i n ≤ n + tally (λ k. p k && q k) i n
tally_overlap p q i zero = omega arith
tally_overlap p q i (suc n) = ground (arith, tally_overlap p q (suc i) n)

tally_witness :
    (p : ℕ → Bool) (i n : ℕ) → 0 < tally p i n → (k : ℕ) × (i ≤ k) × (k < i + n) × (p k ≡ true)
tally_witness p i zero h = absurd (omega arith)
tally_witness p i (suc n) h = elim (Bool-cases (p i)) [
  | inl here ↦ (i, omega arith, omega arith, here)
  | inr later ↦
      let (k, above, below, e) = tally_witness p (suc i) n (omega (arith, ap one later)) in
      (k, omega arith, omega arith, e)
]

tally_none : (p : ℕ → Bool) (i n : ℕ) → ((k : ℕ) → i ≤ k → p k ≡ false) → tally p i n ≡ 0
tally_none p i zero h = refl
tally_none p i (suc n) h =
    omega (arith, ap one (h i (omega arith)), tally_none p (suc i) n (λ k above. h k (omega arith)))

none_above : (p : ℕ → Bool) (n k : ℕ) → ((k : ℕ) → p k ≡ true → k < n) → n ≤ k → p k ≡ false
none_above p n k below h = elim (Bool-cases (p k)) [
  | inl e ↦ absurd (omega (arith, below k e))
  | inr e ↦ e
]

pub tally_clip :
    (p : ℕ → Bool) (n m : ℕ) → ((k : ℕ) → p k ≡ true → k < n) → n ≤ m → tally p 0 m ≡ tally p 0 n
tally_clip p n m below h =
    let e : m ≡ n + (m - n) = omega arith in
    rw e (
      omega (
        arith,
        tally-add p 0 n (m - n),
        tally_none p (0 + n) (m - n) (λ k above. none_above p n k below (omega arith)),
      ))

both_left : (x y : Bool) → (x && y) ≡ true → x ≡ true
both_left x y h = ground arith

both_right : (x y : Bool) → (x && y) ≡ true → y ≡ true
both_right x y h = ground arith

-- Two bitmaps of bytes that cover `n` attesters, mark nobody else and both hold more than two
-- thirds of `n` votes share a voter.
pub quorum_intersection :
    (a b : List ℕ) (n : ℕ)
    → IsBitmap a
    → IsBitmap b
    → ((k : ℕ) → is_set a (pos k) ≡ true → k < n)
    → ((k : ℕ) → is_set b (pos k) ≡ true → k < n)
    → n ≤ length a * 8
    → n ≤ length b * 8
    → 2 * n < 3 * pop_count a
    → 2 * n < 3 * pop_count b
    → (k : ℕ) × (k < n) × (is_set a (pos k) ≡ true) × (is_set b (pos k) ≡ true)
quorum_intersection a b n ha hb inside_a inside_b la lb qa qb =
    let (k, _, below, e) = tally_witness (both a b) 0 n (
      omega (
        arith,
        tally_overlap (bit a) (bit b) 0 n,
        pop_count-tally a ha,
        pop_count-tally b hb,
        tally_clip (bit a) n (length a * 8) inside_a la,
        tally_clip (bit b) n (length b * 8) inside_b lb,
      )) in
    (k, omega arith, both_left (bit a k) (bit b k) e, both_right (bit a k) (bit b k) e)
