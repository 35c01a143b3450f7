-- ===== src/Prelude/Maps.antt =====
-- The persisted collections: what a read of a key answers, and the entries that a walk visits.
use mathlib.Core.Path.{◌≡◌, refl}
use mathlib.Core.Logic.{◌≢◌}
use mathlib.Core.Bool.{Bool}
use mathlib.Core.List.{List, [], ◌∷◌}
use mathlib.Core.Option.{Option, none, some}
use native.Mathlib.Omega.{arith}
use ev_abci.Prelude.Tests.{if◌then◌else◌}
use ev_abci.Prelude.Keys.{Eq, bytes_eq, int_eq, nat_eq, pair_eq, same, same_refl, string_eq}

-- A read finds a value, finds none (`collections.ErrNotFound`), or fails: the stored bytes do not
-- decode.
pub data Get {ℓ} (V : Type ℓ) : Type ℓ where
  found : V → Get V
  missing : Get V
  failed : Get V

-- A read whose failure counts as absence.
abbrev pub value_of {ℓ} : {V : Type ℓ} → Get V → Option V
value_of (found v) = some v
value_of missing = none
value_of failed = none

pub found_injective {ℓ} : {V : Type ℓ} {a b : V} → found a ≡ found b → a ≡ b
found_injective h = cc

-- An entry holds the value that its bytes decode to, or `failed`.
abbrev pub Map : Type 0 → Type 0 → Type 0
Map K V = List (K × Get V)

module _ {K V : Type 0} ⦃e : Eq K⦄ where
  unfoldable pub get : K → Map K V → Get V
  get k [] = missing
  get k ((j, v) ∷ m) = if same j k then v else get k m

  unfoldable pub set : K → V → Map K V → Map K V
  set k v [] = (k, found v) ∷ []
  set k v ((j, w) ∷ m) = if same j k then (k, found v) ∷ m else (j, w) ∷ set k v m

  pub get-set :
      (k j : K) (v : V) (m : Map K V) → get j (set k v m) ≡ (if same k j then found v else get j m)
  unfolding get set
  get-set k j v [] = refl
  get-set k j v ((i, w) ∷ m) =
      ground (arith, e.beq_iff k j, e.beq_iff i k, e.beq_iff i j, get-set k j v m)

  pub get-set_self : (k : K) (v : V) (m : Map K V) → get k (set k v m) ≡ found v
  get-set_self k v m = rw (get-set, same_refl k)

  pub get-set_ne : (k j : K) (v : V) (m : Map K V) → k ≢ j → get j (set k v m) ≡ get j m
  get-set_ne k j v m h = ground (arith, get-set k j v m, e.beq_iff k j)

-- `Clear` over a range removes every key of it.
module _ {K V : Type 0} where
  unfoldable pub clear : (K → Bool) → Map K V → Map K V
  clear p [] = []
  clear p ((j, v) ∷ m) = if p j then clear p m else (j, v) ∷ clear p m

module _ {K V : Type 0} ⦃e : Eq K⦄ where
  pub get-clear :
      (p : K → Bool) (j : K) (m : Map K V) → get j (clear p m) ≡ (if p j then missing else get j m)
  unfolding get clear
  get-clear p j [] = ground arith
  get-clear p j ((i, w) ∷ m) = ground (arith, e.beq_iff i j, get-clear p j m)
