-- ===== src/Network/Bitmap/Bytes.antt =====
-- Single bits of a bitmap after a write (modules/network/keeper/bitmap.go).
use Prim.Native.Nat.{bit_and, bit_or}
use ev_abci.Prelude.{
  ==_iff, Bool, Bool-cases, List, [], arith, eq_ℤ, false, get_or, get_or-modify_ne,
  get_or-modify_self, if◌then◌else◌, inl, inr, leb_ℤ, length, length-modify, length-replicate, ltb,
  ltb_ℤ, ltb→lt, modify, negsuc, not, pos, refl, replicate, suc, sym, true, zero, ℕ, ℤ, ◌%◌, ◌&&◌,
  ◌*◌, ◌+◌, ◌/◌, ◌<◌, ◌==◌, ◌^◌, ◌∷◌, ◌≡◌, ◌≢◌, ◌≤◌,
}
use ev_abci.Network.Bitmap.{is_set, new_bitmap, set_bit}

-- Over a small range, every value is checked by evaluation.
unfoldable pub holds_below : ℕ → (ℕ → Bool) → Bool
holds_below zero row = true
holds_below (suc limit) row = holds_below limit row && row limit

pub holds_below_sound :
    (limit : ℕ) (row : ℕ → Bool) (k : ℕ) → holds_below limit row ≡ true → k < limit → row k ≡ true
unfolding holds_below
holds_below_sound zero row k h below = absurd (omega arith)
holds_below_sound (suc limit) row k h below = ground (arith, holds_below_sound limit row k)

abbrev agree : Bool → Bool → Bool
agree true b = b
agree false b = not b

agree_sound : (a b : Bool) → agree a b ≡ true → a ≡ b
agree_sound true b h = sym h
agree_sound false b h = ground arith

-- Bit `k` of a byte, as `IsSet` tests it.
abbrev pub test : ℕ → ℕ → Bool
test b k = not (bit_and b (2 ^ k) == 0)

abbrev or_row : ℕ → ℕ → ℕ → Bool
or_row b k j = agree (test (bit_or b (2 ^ k)) j) (if k == j then true else test b j)

or_table : holds_below 256 (λ b. holds_below 8 (λ k. holds_below 8 (or_row b k))) ≡ true
unfolding holds_below
or_table = refl

pub test-bit_or :
    (b k j : ℕ)
    → b < 256
    → k < 8
    → j < 8
    → test (bit_or b (2 ^ k)) j ≡ (if k == j then true else test b j)
test-bit_or b k j hb hk hj = agree_sound _ _ (
    holds_below_sound 8 (or_row b k) j
      (holds_below_sound 8 (λ k. holds_below 8 (or_row b k)) k
        (holds_below_sound 256 (λ b. holds_below 8 (λ k. holds_below 8 (or_row b k))) b or_table hb)
        hk)
      hj)

abbrev lt_row : ℕ → ℕ → Bool
lt_row b k = ltb (bit_or b (2 ^ k)) 256

lt_table : holds_below 256 (λ b. holds_below 8 (lt_row b)) ≡ true
unfolding holds_below
lt_table = refl

bit_or-lt : (b k : ℕ) → b < 256 → k < 8 → bit_or b (2 ^ k) < 256
bit_or-lt b k hb hk = ltb→lt _ _ (
    holds_below_sound 8 (lt_row b) k
      (holds_below_sound 256 (λ b. holds_below 8 (lt_row b)) b lt_table hb) hk)

-- Every element is a byte.
abbrev pub IsBitmap : List ℕ → Type 0
IsBitmap [] = Unit
IsBitmap (b ∷ bitmap) = (b < 256) × IsBitmap bitmap

get_or-lt : (bitmap : List ℕ) (i : ℕ) → IsBitmap bitmap → get_or bitmap i 0 < 256
get_or-lt [] i h = omega arith
get_or-lt (b ∷ bitmap) zero h = h.0
get_or-lt (b ∷ bitmap) (suc i) h = get_or-lt bitmap i h.1

modify-IsBitmap :
    (bitmap : List ℕ) (i k : ℕ)
    → k < 8
    → IsBitmap bitmap
    → IsBitmap (modify bitmap i (λ b. bit_or b (2 ^ k)))
modify-IsBitmap [] i k hk h = tt
modify-IsBitmap (b ∷ bitmap) zero k hk h = (bit_or-lt b k h.0 hk, h.1)
modify-IsBitmap (b ∷ bitmap) (suc i) k hk h = (h.0, modify-IsBitmap bitmap i k hk h.1)

pub set_bit-IsBitmap : (bitmap : List ℕ) (i : ℤ) → IsBitmap bitmap → IsBitmap (set_bit bitmap i)
unfolding set_bit
set_bit-IsBitmap bitmap (negsuc i) h = h
set_bit-IsBitmap bitmap (pos i) h =
    ground (arith, modify-IsBitmap bitmap (i / 8) (i % 8) (omega arith) h)

pub length-set_bit : (bitmap : List ℕ) (i : ℤ) → length (set_bit bitmap i) ≡ length bitmap
unfolding set_bit
length-set_bit bitmap (negsuc i) = refl
length-set_bit bitmap (pos i) =
    ground (arith, length-modify bitmap (i / 8) (λ (b : ℕ). bit_or b (2 ^ (i % 8))))

is_set-modify :
    (bitmap : List ℕ) (i j : ℕ)
    → IsBitmap bitmap
    → i < length bitmap * 8
    → test (get_or (modify bitmap (i / 8) (λ b. bit_or b (2 ^ (i % 8)))) (j / 8) 0) (j % 8)
      ≡ (if i == j then true else test (get_or bitmap (j / 8) 0) (j % 8))
is_set-modify bitmap i j h hi = elim (Bool-cases (i / 8 == j / 8)) [
  | inl same_byte ↦
      let e : i / 8 ≡ j / 8 = (==_iff _ _).0 same_byte in
      rw
        (
          ← e,
          get_or-modify_self bitmap (i / 8) (λ b. bit_or b (2 ^ (i % 8))) 0 (omega arith),
          test-bit_or (get_or bitmap (i / 8) 0) (i % 8) (j % 8) (get_or-lt bitmap (i / 8) h)
              (omega arith) (omega arith),
        )
        (ground arith)
  | inr other ↦
      let ne : i / 8 ≢ j / 8 = ground arith in
      rw (get_or-modify_ne bitmap (i / 8) (j / 8) (λ b. bit_or b (2 ^ (i % 8))) 0 ne) (ground arith)
]

-- Whether an index addresses a bit of the bitmap.
abbrev pub in_range : List ℕ → ℤ → Bool
in_range bitmap i = leb_ℤ (pos 0) i && ltb_ℤ i (pos (length bitmap * 8))

-- On a bitmap of bytes, after `SetBit` the index tests true if it addresses a bit, and every other
-- index tests as before.
pub is_set-set_bit :
    (bitmap : List ℕ) (i j : ℤ)
    → IsBitmap bitmap
    → is_set (set_bit bitmap i) j
      ≡ (if eq_ℤ i j && in_range bitmap i then true else is_set bitmap j)
unfolding set_bit is_set
is_set-set_bit bitmap (negsuc i) (pos j) h = refl
is_set-set_bit bitmap (negsuc i) (negsuc j) h = ground arith
is_set-set_bit bitmap (pos i) (negsuc j) h = refl
is_set-set_bit bitmap (pos i) (pos j) h = ground (
  arith,
  is_set-modify bitmap i j h,
  length-modify bitmap (i / 8) (λ (b : ℕ). bit_or b (2 ^ (i % 8))),
)

replicate-IsBitmap : (n : ℕ) → IsBitmap (replicate n 0)
replicate-IsBitmap zero = tt
replicate-IsBitmap (suc n) = (omega arith, replicate-IsBitmap n)

pub new_bitmap-IsBitmap : (n : ℕ) → IsBitmap (new_bitmap n)
unfolding new_bitmap
new_bitmap-IsBitmap n = replicate-IsBitmap ((n + 7) / 8)

get_or-replicate : (n i : ℕ) → get_or {A = ℕ} (replicate n 0) i 0 ≡ 0
get_or-replicate zero i = refl
get_or-replicate (suc n) zero = refl
get_or-replicate (suc n) (suc i) = get_or-replicate n i

zero_table : holds_below 8 (λ k. not (test 0 k)) ≡ true
unfolding holds_below
zero_table = refl

test-zero : (k : ℕ) → k < 8 → test 0 k ≡ false
test-zero k h = ground (arith, holds_below_sound 8 (λ (k : ℕ). not (test 0 k)) k zero_table h)

-- A new bitmap has a bit for each of its validators, and none is set.
pub is_set-new_bitmap : (n : ℕ) (i : ℤ) → is_set (new_bitmap n) i ≡ false
unfolding new_bitmap is_set
is_set-new_bitmap n (negsuc i) = refl
is_set-new_bitmap n (pos i) =
    rw (get_or-replicate ((n + 7) / 8) (i / 8), test-zero (i % 8) (omega arith)) (ground arith)

pub length-new_bitmap : (n : ℕ) → n ≤ length (new_bitmap n) * 8
unfolding new_bitmap
length-new_bitmap n = omega (arith, length-replicate {A = ℕ} ((n + 7) / 8) 0)

pub length-new_bitmap-le : (n : ℕ) → n < 2 ^ 16 → length (new_bitmap n) * 8 ≤ 2 ^ 16
unfolding new_bitmap
length-new_bitmap-le n h = omega (arith, length-replicate {A = ℕ} ((n + 7) / 8) 0)
