-- ===== src/Network/BitmapTests.antt =====
-- Runs of the bitmap helper, and quorums, on small bitmaps (modules/network/keeper/bitmap.go).
use ev_abci.Prelude.{List, [], arith, pos, refl, true, ℕ, ◌<◌, ◌∷◌, ◌≡◌}
use ev_abci.Network.Bitmap.{is_set, new_bitmap, pop_count, set_bit}
use ev_abci.Network.Bitmap.Bytes.{IsBitmap}
use ev_abci.Network.Keeper.Quorum.{quorum_intersection}
use ev_abci.Network.Invariant.{IsShaped, new_bitmap-IsShaped, set_bit-IsShaped}

-- Ten attesters, of which the first has voted.
abbrev ten : List ℕ
ten = 1 ∷ 0 ∷ []

ten-IsBitmap : IsBitmap ten
ten-IsBitmap = (omega arith, (omega arith, tt))

-- Five attesters, and two of their quorums.
abbrev vote_by : ℕ → List ℕ → List ℕ
vote_by i bitmap = set_bit bitmap (pos i)

abbrev early : List ℕ
early = vote_by 0 (vote_by 1 (vote_by 2 (vote_by 3 (new_bitmap 5))))

abbrev late : List ℕ
late = vote_by 1 (vote_by 2 (vote_by 3 (vote_by 4 (new_bitmap 5))))

voted-IsShaped :
    (i : ℕ) (bitmap : List ℕ) → i < 5 → IsShaped 5 bitmap → IsShaped 5 (vote_by i bitmap)
voted-IsShaped i bitmap below shaped = set_bit-IsShaped 5 i bitmap below shaped

none_yet : IsShaped 5 (new_bitmap 5)
none_yet = new_bitmap-IsShaped 5 (omega arith)

early-IsShaped : IsShaped 5 early
early-IsShaped = voted-IsShaped 0 _ (omega arith) (
    voted-IsShaped 1 _ (omega arith)
      (voted-IsShaped 2 _ (omega arith) (voted-IsShaped 3 _ (omega arith) none_yet)))

late-IsShaped : IsShaped 5 late
late-IsShaped = voted-IsShaped 1 _ (omega arith) (
    voted-IsShaped 2 _ (omega arith)
      (voted-IsShaped 3 _ (omega arith) (voted-IsShaped 4 _ (omega arith) none_yet)))

early_quorum : pop_count early ≡ 4
unfolding pop_count new_bitmap set_bit
early_quorum = refl

late_quorum : pop_count late ≡ 4
unfolding pop_count new_bitmap set_bit
late_quorum = refl

quorum_intersection_example :
    (k : ℕ) × (k < 5) × (is_set early (pos k) ≡ true) × (is_set late (pos k) ≡ true)
quorum_intersection_example =
    quorum_intersection early late 5 early-IsShaped.bytes late-IsShaped.bytes early-IsShaped.inside
      late-IsShaped.inside early-IsShaped.long late-IsShaped.long (omega (arith, early_quorum))
      (omega (arith, late_quorum))
