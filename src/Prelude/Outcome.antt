-- ===== src/Prelude/Outcome.antt =====
-- How a handler ends: with a value, an error of some kind, or a Go run-time panic.
use mathlib.Core.Path.{◌≡◌, refl}
use mathlib.Core.Logic.{◌≢◌}
use mathlib.Core.Bool.{Bool, true, false}
use mathlib.Core.Option.{Option, none, some}
use ev_abci.Prelude.Maps.{Get, failed, found, missing}

-- The kinds that the code tells apart: `not_found` is `collections.ErrNotFound`, `decoding` any
-- other failure of a read, the others the SDK's registered errors and plain ones.
pub data Error : Type 0 where
  not_found decoding unauthorized invalid_request unknown_key logic invalid_signer : Error
  invalid_argument invalid plain panic : Error

pub data Result {ℓ} (A : Type ℓ) : Type ℓ where
  ok : A → Result A
  err : Error → Result A

-- `if !test { return err }`.
abbrev pub require : Bool → Error → Result (Unit {0})
require true e = ok tt
require false e = err e

-- The chain of fallible reads: the first error is the result.
infixl 5 ◌>>=◌
abbrev pub ◌>>=◌ {ℓ κ} : {A : Type ℓ} → {B : Type κ} → Result A → (A → Result B) → Result B
ok value >>= next = next value
err kind >>= next = err kind

infixl 5 ◌>>◌
abbrev pub ◌>>◌ {ℓ} : {B : Type ℓ} → Result (Unit {0}) → Result B → Result B
check >> rest = check >>= λ _. rest

abbrev pub or_fail {ℓ} : {A : Type ℓ} → Option A → Error → Result A
or_fail none e = err e
or_fail (some a) e = ok a

-- A read whose error is returned.
abbrev pub fetch {ℓ} : {A : Type ℓ} → Get A → Result A
fetch (found a) = ok a
fetch missing = err not_found
fetch failed = err decoding

-- A read that takes `collections.ErrNotFound` for an absent value and returns any other error.
abbrev pub fetch_opt {ℓ} : {A : Type ℓ} → Get A → Result (Option A)
fetch_opt (found a) = ok (some a)
fetch_opt missing = ok none
fetch_opt failed = err decoding

pub >>=-eq-ok {ℓ κ} :
    {A : Type ℓ} {B : Type κ} (first : Result A) (next : A → Result B) {out : B}
    → (first >>= next) ≡ ok out
    → (value : A) × (first ≡ ok value) × (next value ≡ ok out)
>>=-eq-ok (ok value) next h = (value, refl, h)
>>=-eq-ok (err kind) next h = cc

-- `if err != nil { return kind }`.
abbrev pub fail_as {ℓ} : {A : Type ℓ} → Error → Result A → Result A
fail_as e (ok a) = ok a
fail_as e (err cause) = err e

pub >>-eq-ok {ℓ} :
    {B : Type ℓ} (m : Result (Unit {0})) (k : Result B) {b : B}
    → (m >> k) ≡ ok b
    → (m ≡ ok tt) × (k ≡ ok b)
>>-eq-ok (ok tt) k h = (refl, h)
>>-eq-ok (err e) k h = cc

pub ok_injective {ℓ} : {A : Type ℓ} {a b : A} → ok a ≡ ok b → a ≡ b
ok_injective h = cc

pub ok_ne_err {ℓ} : {A : Type ℓ} {a : A} {e : Error} → ok a ≢ err e
ok_ne_err h = cc

-- A chain that can fail only at its first step.
pub map_ok {ℓ κ} :
    {A : Type ℓ} {B : Type κ} (m : Result A) (f : A → B) {a : A}
    → m ≡ ok a
    → (b : B) × ((m >>= λ x. ok (f x)) ≡ ok b)
map_ok (ok x) f h = (f x, refl)
map_ok (err e) f h = cc

pub require_ok : (b : Bool) (e : Error) → require b e ≡ ok tt → b ≡ true
require_ok true e h = refl
require_ok false e h = cc

pub or_fail_ok {ℓ} :
    {A : Type ℓ} (o : Option A) (e : Error) {a : A} → or_fail o e ≡ ok a → o ≡ some a
or_fail_ok none e h = cc
or_fail_ok (some a) e h = cc

pub fail_as_ok {ℓ} : {A : Type ℓ} (e : Error) (r : Result A) {a : A} → fail_as e r ≡ ok a → r ≡ ok a
fail_as_ok e (ok a) h = h
fail_as_ok e (err c) h = cc
