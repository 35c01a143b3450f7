-- ===== src/Network/Bitmap.antt =====
-- modules/network/keeper/bitmap.go: bitmaps as byte slices. A byte is a number below 256. The
-- methods that write through their slice return the slice as they leave it.
pub mod Bytes
pub mod Count
use Prim.Native.Nat.{bit_and, bit_or}
use ev_abci.Prelude.{
  Bool, List, Option, [], false, get_or, if◌then◌else◌, leb, length, ltb_ℤ, map, modify, negsuc,
  none, not, pos, pos_part, replicate, some, suc, zero, ℕ, ℤ, ◌%◌, ◌&&◌, ◌*◌, ◌+ℤ◌, ◌+◌, ◌-ℤ◌, ◌/◌,
  ◌==◌, ◌^◌, ◌∷◌,
}

-- `NewBitmap`, for a count that is not negative.
unfoldable pub new_bitmap : ℕ → List ℕ
new_bitmap n = replicate ((n + 7) / 8) 0

-- `SetBit`.
unfoldable pub set_bit : List ℕ → ℤ → List ℕ
set_bit bitmap (negsuc index) = bitmap
set_bit bitmap (pos index) =
    if leb (length bitmap * 8) index
    then bitmap
    else modify bitmap (index / 8) (λ b. bit_or b (2 ^ (index % 8)))

-- `IsSet`.
unfoldable pub is_set : List ℕ → ℤ → Bool
is_set bitmap (negsuc index) = false
is_set bitmap (pos index) =
    if leb (length bitmap * 8) index
    then false
    else not (bit_and (get_or bitmap (index / 8) 0) (2 ^ (index % 8)) == 0)

-- `bits.OnesCount8`.
abbrev pub ones_count8 : ℕ → ℕ
ones_count8 b =
    b % 2 + b / 2 % 2 + b / 4 % 2 + b / 8 % 2 + b / 16 % 2 + b / 32 % 2 + b / 64 % 2 + b / 128 % 2

-- The loop of `PopCount`.
unfoldable pub pop_count_from : ℕ → List ℕ → ℕ
pop_count_from count [] = count
pop_count_from count (b ∷ bitmap) = pop_count_from (count + ones_count8 b) bitmap

unfoldable pub pop_count : List ℕ → ℕ
unfolding pop_count_from
pop_count bitmap = pop_count_from 0 bitmap

-- The loop of `OR`, over the shorter length.
unfoldable pub or_bytes : List ℕ → List ℕ → List ℕ
or_bytes [] src = []
or_bytes (d ∷ dst) [] = d ∷ dst
or_bytes (d ∷ dst) (s ∷ src) = bit_or d s ∷ or_bytes dst src

-- The loop of `AND`.
unfoldable pub and_bytes : List ℕ → List ℕ → List ℕ
and_bytes [] src = []
and_bytes (d ∷ dst) [] = d ∷ dst
and_bytes (d ∷ dst) (s ∷ src) = bit_and d s ∷ and_bytes dst src

-- `Copy`: a nil bitmap stays nil.
unfoldable pub copy : Option (List ℕ) → Option (List ℕ)
copy none = none
copy (some bitmap) = some (map (λ b. b) bitmap)

-- `Clear`.
unfoldable pub clear_bits : List ℕ → List ℕ
clear_bits = map (λ b. 0)

-- The loop of `CountInRange`; the rounds left bound it.
unfoldable pub count_from : ℕ → List ℕ → ℤ → ℤ → ℕ → ℕ
count_from zero bitmap i end count = count
count_from (suc rounds) bitmap i end count =
    let rest =
      count_from rounds bitmap (i +ℤ pos 1) end (if is_set bitmap i then count + 1 else count) in
    if ltb_ℤ i end && ltb_ℤ i (pos (length bitmap * 8)) then rest else count

-- `CountInRange`: at most `end - start` rounds.
unfoldable pub count_in_range : List ℕ → ℤ → ℤ → ℕ
unfolding count_from
count_in_range bitmap start end = count_from (pos_part (end -ℤ start)) bitmap start end 0
