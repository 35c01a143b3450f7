-- ===== src/Network/Bitmap/Count.antt =====
-- Counting the set bits of a bitmap (modules/network/keeper/bitmap.go).
use native.Mathlib.Nat.{add-zero}
use ev_abci.Prelude.{
  ==_iff, Bool, Bool-cases, List, [], ap, arith, false, if◌then◌else◌, inl, inr, leb, length, ltb,
  pos, pos_part, refl, suc, sym, true, zero, ℕ, ◌%◌, ◌&&◌, ◌*◌, ◌+ℤ◌, ◌+◌, ◌-ℤ◌, ◌-◌, ◌/◌, ◌<◌,
  ◌==◌, ◌∙◌, ◌∷◌, ◌≡◌, ◌≤◌,
}
use ev_abci.Network.Bitmap.{
  count_from, count_in_range, is_set, ones_count8, pop_count, pop_count_from, set_bit,
}
use ev_abci.Network.Bitmap.Bytes.{
  IsBitmap, holds_below, holds_below_sound, is_set-set_bit, length-set_bit, set_bit-IsBitmap, test,
}

abbrev pub one : Bool → ℕ
one true = 1
one false = 0

-- How many of the `n` indices from `i` on satisfy the test.
abbrev pub tally : (ℕ → Bool) → ℕ → ℕ → ℕ
tally p i zero = 0
tally p i (suc n) = one (p i) + tally p (suc i) n

pub tally-add : (p : ℕ → Bool) (i m n : ℕ) → tally p i (m + n) ≡ tally p i m + tally p (i + m) n
tally-add p i zero n = ground arith
tally-add p i (suc m) n =
    let e : i + suc m ≡ suc i + m = omega arith in
    let e' : suc m + n ≡ suc (m + n) = omega arith in
    rw (e, e') (omega (arith, tally-add p (suc i) m n))

suc_shift : (i k : ℕ) → i + suc k ≡ suc i + k
suc_shift i k = omega arith

tally-shift :
    (p q : ℕ → Bool) (i j n : ℕ) → ((k : ℕ) → p (i + k) ≡ q (j + k)) → tally p i n ≡ tally q j n
tally-shift p q i j zero h = refl
tally-shift p q i j (suc n) h = omega (
  arith,
  ap one (rw (add-zero, add-zero) at (h 0)),
  tally-shift p q (suc i) (suc j) n (λ k. rw (suc_shift i k, suc_shift j k) at (h (suc k))),
)

tally_congr :
    (p q : ℕ → Bool) (i n : ℕ) → ((k : ℕ) → k < i + n → p k ≡ q k) → tally p i n ≡ tally q i n
tally_congr p q i zero h = refl
tally_congr p q i (suc n) h =
    omega
      (arith, ap one (h i (omega arith)), tally_congr p q (suc i) n (λ k below. h k (omega arith)))

abbrev ones_row : ℕ → Bool
ones_row b = tally (test b) 0 8 == ones_count8 b

ones_table : holds_below 256 ones_row ≡ true
unfolding holds_below
ones_table = refl

-- `OnesCount8` counts the bits that `IsSet` tests.
tally-test : (b : ℕ) → b < 256 → tally (test b) 0 8 ≡ ones_count8 b
tally-test b h = (==_iff _ _).0 (holds_below_sound 256 ones_row b ones_table h)

pop_count_from-add :
    (count : ℕ) (bitmap : List ℕ) → pop_count_from count bitmap ≡ count + pop_count_from 0 bitmap
unfolding pop_count_from
pop_count_from-add count [] = omega arith
pop_count_from-add count (b ∷ bitmap) = omega (
  arith,
  pop_count_from-add (count + ones_count8 b) bitmap,
  pop_count_from-add (0 + ones_count8 b) bitmap,
)

abbrev pub bit : List ℕ → ℕ → Bool
bit bitmap i = is_set bitmap (pos i)

bit_head : (b : ℕ) (bitmap : List ℕ) (k : ℕ) → k < 8 → bit (b ∷ bitmap) k ≡ test b k
unfolding is_set
bit_head b bitmap k h =
    let byte : k / 8 ≡ 0 = omega arith in
    let offset : k % 8 ≡ k = omega arith in rw (byte, offset) (ground arith)

bit_tail : (b : ℕ) (bitmap : List ℕ) (k : ℕ) → bit (b ∷ bitmap) (8 + k) ≡ bit bitmap (0 + k)
unfolding is_set
bit_tail b bitmap k =
    let byte : (8 + k) / 8 ≡ suc (k / 8) = omega arith in
    let offset : (8 + k) % 8 ≡ k % 8 = omega arith in
    let start : 0 + k ≡ k = omega arith in rw (byte, offset, start) (ground arith)

-- `PopCount` of a bitmap of bytes counts the indices below its length in bits that `IsSet` accepts.
pub pop_count-tally :
    (bitmap : List ℕ)
    → IsBitmap bitmap
    → pop_count bitmap ≡ tally (bit bitmap) 0 (length bitmap * 8)
unfolding pop_count
pop_count-tally [] h = refl
pop_count-tally (b ∷ bitmap) h =
    let e : length (b ∷ bitmap) * 8 ≡ 8 + length bitmap * 8 = omega arith in
    rw e (
      omega (
        arith,
        pop_count_from-add (0 + ones_count8 b) bitmap,
        pop_count-tally bitmap h.1,
        tally-add (bit (b ∷ bitmap)) 0 8 (length bitmap * 8),
        tally_congr (bit (b ∷ bitmap)) (test b) 0 8 (λ k below. bit_head b bitmap k below),
        tally-test b h.0,
        tally-shift (bit (b ∷ bitmap)) (bit bitmap) 8 0 (length bitmap * 8) (bit_tail b bitmap),
      ))

bit_beyond : (bitmap : List ℕ) (i : ℕ) → length bitmap * 8 ≤ i → bit bitmap i ≡ false
unfolding is_set
bit_beyond bitmap i h = ground arith

tally_beyond : (bitmap : List ℕ) (i n : ℕ) → length bitmap * 8 ≤ i → tally (bit bitmap) i n ≡ 0
tally_beyond bitmap i zero h = refl
tally_beyond bitmap i (suc n) h =
    omega (arith, ap one (bit_beyond bitmap i h), tally_beyond bitmap (suc i) n (omega arith))

inc_pos : (i : ℕ) → pos i +ℤ pos 1 ≡ pos (suc i)
unfolding ◌+ℤ◌
inc_pos i = ground arith

count_from-tally :
    (rounds : ℕ) (bitmap : List ℕ) (i end count : ℕ)
    → i + rounds ≤ end
    → count_from rounds bitmap (pos i) (pos end) count ≡ count + tally (bit bitmap) i rounds
unfolding count_from
count_from-tally zero bitmap i end count h = omega arith
count_from-tally (suc rounds) bitmap i end count h = elim (Bool-cases (ltb i (length bitmap * 8))) [
  | inl inside ↦ rw inc_pos (
      ground (
        arith,
        count_from-tally rounds bitmap (suc i) end (if bit bitmap i then count + 1 else count)
            (omega arith),
      ))
  | inr outside ↦ ground (arith, tally_beyond bitmap i (suc rounds))
]

rounds_pos : (start end : ℕ) → pos_part (pos end -ℤ pos start) ≡ end - start
unfolding ◌-ℤ◌
rounds_pos start end = ground arith

-- `CountInRange` over [start, end) counts the indices of the range that `IsSet` accepts, also past
-- the end of the bitmap.
pub count_in_range-tally :
    (bitmap : List ℕ) (start end : ℕ)
    → count_in_range bitmap (pos start) (pos end) ≡ tally (bit bitmap) start (end - start)
unfolding count_in_range
count_in_range-tally bitmap start end =
    ap (λ n. count_from n bitmap (pos start) (pos end) 0) (rounds_pos start end)
    ∙ elim (Bool-cases (leb start end)) [
      | inl ordered ↦
          omega (arith, count_from-tally (end - start) bitmap start end 0 (ground arith))
      | inr empty ↦ let none_left : end - start ≡ 0 = ground arith in rw none_left
    ]

-- Over the whole bitmap the two ways to count agree.
pub count_in_range-pop_count :
    (bitmap : List ℕ)
    → IsBitmap bitmap
    → count_in_range bitmap (pos 0) (pos (length bitmap * 8)) ≡ pop_count bitmap
count_in_range-pop_count bitmap h =
    let e : length bitmap * 8 - 0 ≡ length bitmap * 8 = omega arith in
    count_in_range-tally bitmap 0 (length bitmap * 8) ∙ rw e (sym (pop_count-tally bitmap h))

-- What one more index adds to a count.
tally_extend :
    (p q : ℕ → Bool) (x i n : ℕ)
    → ((k : ℕ) → q k ≡ (if x == k then true else p k))
    → p x ≡ false
    → tally q i n ≡ tally p i n + (if leb i x && ltb x (i + n) then 1 else 0)
tally_extend p q x i zero h new = ground arith
tally_extend p q x i (suc n) h new = ground (arith, h i, tally_extend p q x (suc i) n h new)

pub bit-set_bit :
    (bitmap : List ℕ) (i k : ℕ)
    → IsBitmap bitmap
    → i < length bitmap * 8
    → bit (set_bit bitmap (pos i)) k ≡ (if i == k then true else bit bitmap k)
bit-set_bit bitmap i k h inside = is_set-set_bit bitmap (pos i) (pos k) h ∙ ground arith

-- On a bitmap of bytes, setting a bit of the bitmap that was clear adds one to the population
-- count.
pub pop_count-set_bit :
    (bitmap : List ℕ) (i : ℕ)
    → IsBitmap bitmap
    → i < length bitmap * 8
    → is_set bitmap (pos i) ≡ false
    → pop_count (set_bit bitmap (pos i)) ≡ pop_count bitmap + 1
pop_count-set_bit bitmap i h inside new =
    pop_count-tally (set_bit bitmap (pos i)) (set_bit-IsBitmap bitmap (pos i) h)
    ∙ rw (length-set_bit bitmap (pos i), pop_count-tally bitmap h)
        (ground (
          arith,
          tally_extend (bit bitmap) (bit (set_bit bitmap (pos i))) i 0 (length bitmap * 8)
              (λ k. bit-set_bit bitmap i k h inside) new,
        ))

pub tally-le : (p : ℕ → Bool) (i n : ℕ) → tally p i n ≤ n
tally-le p i zero = omega arith
tally-le p i (suc n) = ground (arith, tally-le p (suc i) n)
