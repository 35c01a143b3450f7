-- ===== src/Network/Invariant.antt =====
-- The well-formed stores of the network module: what the genesis sets up and every handler keeps.
pub mod Confirmed
pub mod Shrinks
use ev_abci.Prelude.{
  List, String, arith, bytes_eq, failed, found, get, int_eq, length, nat_eq, ok, pair_eq, pos,
  string_eq, sym, true, true_ne, ℕ, ℤ, ◌*◌, ◌<◌, ◌^◌, ◌∙◌, ◌≡◌, ◌≢◌, ◌≤◌,
}
use ev_abci.Network.Bitmap.{is_set, new_bitmap, set_bit}
use ev_abci.Network.Bitmap.Bytes.{
  IsBitmap, is_set-new_bitmap, length-new_bitmap, length-new_bitmap-le, length-set_bit,
  new_bitmap-IsBitmap, set_bit-IsBitmap,
}
use ev_abci.Network.Bitmap.Count.{bit-set_bit}
use ev_abci.Network.Types.{Env, Params, State}
use ev_abci.Network.Params.{validate}

-- A bitmap for `n` attesters: bytes, long enough for each, within the uint16 indices, and with no
-- bit set past the last attester.
pub record IsShaped (n : ℕ) (bitmap : List ℕ) : Type 0 where
  pub bytes : IsBitmap bitmap
  pub long : n ≤ length bitmap * 8
  pub short : length bitmap * 8 ≤ 2 ^ 16
  pub inside : (k : ℕ) → is_set bitmap (pos k) ≡ true → k < n

pub new_bitmap-IsShaped : (n : ℕ) → n < 2 ^ 16 → IsShaped n (new_bitmap n)
new_bitmap-IsShaped n small = record {
  bytes = new_bitmap-IsBitmap n;
  long = length-new_bitmap n;
  short = length-new_bitmap-le n small;
  inside = λ k e. absurd (true_ne (sym e ∙ is_set-new_bitmap n (pos k)));
}

pub set_bit-IsShaped :
    (n i : ℕ) (bitmap : List ℕ) → i < n → IsShaped n bitmap → IsShaped n (set_bit bitmap (pos i))
set_bit-IsShaped n i bitmap below shaped = record {
  bytes = set_bit-IsBitmap bitmap (pos i) shaped.bytes;
  long = rw (length-set_bit bitmap (pos i)) shaped.long;
  short = rw (length-set_bit bitmap (pos i)) shaped.short;
  inside = λ k e.
      ground
        (arith, bit-set_bit bitmap i k shaped.bytes (omega (arith, shaped.long)), shaped.inside k);
}

-- The number of attesters.
abbrev pub size : State → ℕ
size s = length s.attester_set

pub record IsValid (env : Env) (s : State) : Type 0 where
  pub current : Params
  pub current_params : s.params ≡ found current
  pub valid_params : validate env current ≡ ok tt
  pub small : size s < 2 ^ 16
  pub indexed : (a : String) (i : ℕ) → get a s.validator_index ≡ found i → i < size s
  pub powered : (i : ℕ) → i < size s → get i s.validator_power ≡ found 1
  pub shaped : (h : ℤ) (b : List ℕ) → get h s.attestation_bitmap ≡ found b → IsShaped (size s) b
  pub readable : (h : ℤ) → get h s.attestation_bitmap ≢ failed
  pub epochs_shaped : (e : ℕ) (b : List ℕ) → get e s.epoch_bitmap ≡ found b → IsShaped (size s) b
  pub last_readable : s.last_attested_height ≢ failed
