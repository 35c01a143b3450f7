-- ===== src/Network/Genesis/Attesters.antt =====
-- The attesters that the genesis registers (modules/network/genesis.go).
use mathlib.Core.Path.{subst}
use ev_abci.Prelude.{
  Bool, Bool-cases, List, Result, String, [], ap, arith, bytes_eq, contains, false, inl, inr,
  int_eq, length, nat_eq, not, ok, or_fail, pair_eq, plain, refl, require, same, same_refl,
  string_eq, suc, sym, true, true_ne, ◌||◌, ◌∙◌, ◌∷◌, ◌≡◌,
}
use ev_abci.Prelude.Outcome.{>>-eq-ok, >>=-eq-ok, ok_injective, ◌>>◌}
use ev_abci.Network.Types.{AttesterInfo, Env, get_pub_key}
use ev_abci.Network.Genesis.{
  bytes_ltb, insert_attester, normalize_attester, normalize_attesters, order_attesters,
  prepare_attesters, sort_attesters, sort_key,
}

abbrev pub addresses : List AttesterInfo → List String
addresses [] = []
addresses (info ∷ infos) = info.consensus_address ∷ addresses infos

abbrev pub Distinct : List String → Type 0
Distinct [] = Unit
Distinct (a ∷ others) = (contains a others ≡ false) × Distinct others

-- No address of the first list is in the second.
abbrev pub Apart : List String → List String → Type 0
Apart xs ys = (a : String) → contains a xs ≡ true → contains a ys ≡ false

pub or_left : (x y : Bool) → (x || y) ≡ false → x ≡ false
or_left x y h = ground arith

pub or_right : (x y : Bool) → (x || y) ≡ false → y ≡ false
or_right x y h = ground arith

or_other : {x y : Bool} → x ≡ false → (x || y) ≡ true → y ≡ true
or_other {x} {y} h e = ground arith

pub unseen :
    {A : Type 0} (b : Bool) {x y : A}
    → ◌≡◌ {A = Result A} (require (not b) plain >> ok x) (ok y)
    → (b ≡ false) × (x ≡ y)
unseen false h = (refl, ok_injective h)
unseen true h = cc

normalize_fresh :
    (env : Env) (seen : List String) (info : AttesterInfo) {out : AttesterInfo}
    → normalize_attester env seen info ≡ ok out
    → contains out.consensus_address seen ≡ false
unfolding normalize_attester get_pub_key
normalize_fresh env seen info {out} h =
    let (pk, known, h₁) = >>=-eq-ok (or_fail info.pubkey plain) _ h in
    let (raw, decoded, h₂) =
      >>=-eq-ok (or_fail (env.bech32_decode info.consensus_address) plain) _ h₁ in
    let (same_address, h₃) = >>-eq-ok (require (same raw (env.pub_key_address pk)) plain) _ h₂ in
    let (fresh, e) = unseen (contains (env.cons_address_string (env.pub_key_address pk)) seen) h₃ in
    subst (λ (x : AttesterInfo). contains x.consensus_address seen ≡ false) e fresh

cons-Distinct :
    (x : String) (xs seen : List String) → Distinct xs → Apart xs (x ∷ seen) → Distinct (x ∷ xs)
cons-Distinct x xs seen distinct apart = (
  elim (Bool-cases (contains x xs)) [
    | inl here ↦ absurd (true_ne (sym (same_refl x) ∙ or_left _ _ (apart x here)))
    | inr absent ↦ absent
  ],
  distinct,
)

cons-Apart :
    (x : String) (xs seen : List String)
    → contains x seen ≡ false
    → Apart xs (x ∷ seen)
    → Apart (x ∷ xs) seen
cons-Apart x xs seen fresh apart a here = elim (Bool-cases (same x a)) [
  | inl e ↦ subst (λ k. contains k seen ≡ false) ((string_eq.beq_iff x a).0 e) fresh
  | inr other ↦ or_right _ _ (apart a (or_other other here))
]

pub normalize-Distinct :
    (env : Env) (seen : List String) (infos : List AttesterInfo) {out : List AttesterInfo}
    → normalize_attesters env seen infos ≡ ok out
    → Distinct (addresses out) × Apart (addresses out) seen × (length out ≡ length infos)
unfolding normalize_attesters
normalize-Distinct env seen [] {out} h =
    subst (λ l. Distinct (addresses l) × Apart (addresses l) seen × (length l ≡ 0)) (ok_injective h)
      (tt, λ a bad. absurd (true_ne (sym bad)), refl)
normalize-Distinct env seen (info ∷ infos) {out} h =
    let (first, h₁, h₂) = >>=-eq-ok (normalize_attester env seen info) _ h in
    let (rest, h₃, h₄) =
      >>=-eq-ok (normalize_attesters env (first.consensus_address ∷ seen) infos) _ h₂ in
    let (distinct, apart, same_length) =
      normalize-Distinct env (first.consensus_address ∷ seen) infos h₃ in
    subst (λ l. Distinct (addresses l) × Apart (addresses l) seen × (length l ≡ suc (length infos)))
      (ok_injective h₄)
      (
        cons-Distinct _ _ seen distinct apart,
        cons-Apart _ _ seen (normalize_fresh env seen info h₁) apart,
        ap suc same_length,
      )

contains-insert :
    (env : Env) (x : AttesterInfo) (xs : List AttesterInfo) (a : String)
    → contains a (addresses (insert_attester env x xs)) ≡ contains a (addresses (x ∷ xs))
unfolding insert_attester
contains-insert env x [] a = refl
contains-insert env x (y ∷ ys) a = ground (arith, contains-insert env x ys a)

pub other_way : (x y : String) → same x y ≡ false → same y x ≡ false
other_way x y h = elim (Bool-cases (same y x)) [
  | inl e ↦
      absurd (true_ne (sym ((string_eq.beq_iff x y).1 (sym ((string_eq.beq_iff y x).0 e))) ∙ h))
  | inr absent ↦ absent
]

insert-Distinct :
    (env : Env) (x : AttesterInfo) (xs : List AttesterInfo)
    → Distinct (addresses (x ∷ xs))
    → Distinct (addresses (insert_attester env x xs))
unfolding insert_attester
insert-Distinct env x [] h = h
insert-Distinct env x (y ∷ ys) (fresh, (absent, distinct)) =
    elim (Bool-cases (bytes_ltb (sort_key env y) (sort_key env x))) [
      | inl later ↦ rw later (
        contains-insert env x ys y.consensus_address
            ∙ rw (other_way _ _ (or_left _ _ fresh), absent),
        insert-Distinct env x ys (or_right _ _ fresh, distinct),
      )
      | inr first ↦ rw first (fresh, (absent, distinct))
    ]

length-insert :
    (env : Env) (x : AttesterInfo) (xs : List AttesterInfo)
    → length (insert_attester env x xs) ≡ suc (length xs)
unfolding insert_attester
length-insert env x [] = refl
length-insert env x (y ∷ ys) = ground (arith, length-insert env x ys)

pub contains-order :
    (env : Env) (infos : List AttesterInfo) (a : String)
    → contains a (addresses (order_attesters env infos)) ≡ contains a (addresses infos)
unfolding order_attesters
contains-order env [] a = refl
contains-order env (x ∷ xs) a =
    contains-insert env x (order_attesters env xs) a ∙ rw (contains-order env xs a)

pub order-Distinct :
    (env : Env) (infos : List AttesterInfo)
    → Distinct (addresses infos)
    → Distinct (addresses (order_attesters env infos))
unfolding order_attesters
order-Distinct env [] h = tt
order-Distinct env (x ∷ xs) (fresh, distinct) =
    insert-Distinct env x (order_attesters env xs)
      (contains-order env xs x.consensus_address ∙ fresh, order-Distinct env xs distinct)

pub length-order :
    (env : Env) (infos : List AttesterInfo) → length (order_attesters env infos) ≡ length infos
unfolding order_attesters
length-order env [] = refl
length-order env (x ∷ xs) =
    length-insert env x (order_attesters env xs) ∙ ap suc (length-order env xs)

-- What the first loop and the sort make of the attesters of the genesis.
pub prepare-Distinct :
    (env : Env) (infos : List AttesterInfo) {out : List AttesterInfo}
    → prepare_attesters env infos ≡ ok out
    → Distinct (addresses out) × (length out ≡ length infos)
unfolding prepare_attesters sort_attesters
prepare-Distinct env infos {out} h =
    let (normal, h₁, h₂) = >>=-eq-ok (normalize_attesters env [] infos) _ h in
    let (distinct, _, same_length) = normalize-Distinct env [] infos h₁ in
    let e : out ≡ order_attesters env normal = ground arith in
    rw e (order-Distinct env normal distinct, length-order env normal ∙ same_length)
