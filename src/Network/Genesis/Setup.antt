-- ===== src/Network/Genesis/Setup.antt =====
-- The store after the genesis (modules/network/genesis.go).
use mathlib.Core.Path.{subst}
use ev_abci.Prelude.{
  Bool-cases, List, String, [], ap, arith, bytes_eq, contains, false, found, get, get-set,
  get-set_self, get_elem?, inl, inr, int_eq, length, nat_eq, pair_eq, refl, same, same_refl, some,
  string_eq, suc, sym, true, true_ne, zero, ℕ, ◌%◌, ◌+◌, ◌<◌, ◌^◌, ◌∙◌, ◌∷◌, ◌≡◌,
}
use ev_abci.Network.Types.{AttesterInfo, State}
use ev_abci.Network.Keeper.{set_attester_info, set_attester_set_member, set_validator_index}
use ev_abci.Network.Invariant.{size}
use ev_abci.Network.Genesis.{register_attester, register_attesters}
use ev_abci.Network.Genesis.Attesters.{Apart, Distinct, addresses, or_left, or_right}

-- A store in which the attesters have the first `n` indices, each with power one.
pub record IsRegistered (n : ℕ) (s : State) : Type 0 where
  pub counted : size s ≡ n
  pub indexed : (a : String) (i : ℕ) → get a s.validator_index ≡ found i → i < n
  pub powered : (i : ℕ) → i < n → get i s.validator_power ≡ found 1

-- The collections that the registration does not touch.
pub record IsUntouched (s t : State) : Type 0 where
  pub bitmaps : t.attestation_bitmap ≡ s.attestation_bitmap
  pub epochs : t.epoch_bitmap ≡ s.epoch_bitmap
  pub last_height : t.last_attested_height ≡ s.last_attested_height
  pub same_params : t.params ≡ s.params

pub register_attesters-IsUntouched :
    (idx : ℕ) (infos : List AttesterInfo) (s : State)
    → IsUntouched s (register_attesters idx infos s)
unfolding register_attesters register_attester set_validator_index set_attester_set_member
    set_attester_info
register_attesters-IsUntouched idx [] s = record {
  bitmaps = refl;
  epochs = refl;
  last_height = refl;
  same_params = refl;
}
register_attesters-IsUntouched idx (info ∷ infos) s =
    let u = register_attesters-IsUntouched (suc idx) infos (register_attester idx info s) in
    record {
      bitmaps = u.bitmaps;
      epochs = u.epochs;
      last_height = u.last_height;
      same_params = u.same_params;
    }

register_attester-IsRegistered :
    (idx : ℕ) (info : AttesterInfo) (s : State)
    → idx < 2 ^ 16
    → contains info.consensus_address s.attester_set ≡ false
    → IsRegistered idx s
    → IsRegistered (suc idx) (register_attester idx info s)
unfolding register_attester set_validator_index set_attester_set_member set_attester_info
register_attester-IsRegistered idx info s small fresh r =
    let narrow : idx % 2 ^ 16 ≡ idx = omega arith in
    record {
      counted = rw fresh (ap suc r.counted);
      indexed = λ a i h. ground (
        arith,
        narrow,
        get-set info.consensus_address a (idx % 2 ^ 16) s.validator_index,
        r.indexed a i,
      );
      powered = λ i below.
          get-set (idx % 2 ^ 16) i 1 s.validator_power ∙ ground (arith, narrow, r.powered i);
    }

first_here : (x : String) (xs : List String) → contains x (x ∷ xs) ≡ true
first_here x xs = rw (same_refl x) refl

later_here : (a x : String) (xs : List String) → contains a xs ≡ true → contains a (x ∷ xs) ≡ true
later_here a x xs h = ground (arith, h)

-- Two keys of which one is in a list and the other is not.
apart_keys :
    (a x : String) (xs : List String)
    → contains a xs ≡ true
    → contains x xs ≡ false
    → same x a ≡ false
apart_keys a x xs here absent = elim (Bool-cases (same x a)) [
  | inl e ↦
      absurd
        (true_ne (sym here ∙ ap (λ k. contains k xs) (sym ((string_eq.beq_iff x a).0 e)) ∙ absent))
  | inr other ↦ other
]

register_attester-Apart :
    (idx : ℕ) (info : AttesterInfo) (infos : List AttesterInfo) (s : State)
    → Distinct (addresses (info ∷ infos))
    → Apart (addresses (info ∷ infos)) s.attester_set
    → Apart (addresses infos) (register_attester idx info s).attester_set
unfolding register_attester set_validator_index set_attester_set_member set_attester_info
register_attester-Apart idx info infos s distinct apart a here =
    rw (apart info.consensus_address (first_here info.consensus_address (addresses infos))) (
      rw (apart_keys a info.consensus_address (addresses infos) here distinct.0)
        (apart a (later_here a info.consensus_address (addresses infos) here)))

pub register_attesters-IsRegistered :
    (idx : ℕ) (infos : List AttesterInfo) (s : State)
    → idx + length infos < 2 ^ 16
    → Distinct (addresses infos)
    → Apart (addresses infos) s.attester_set
    → IsRegistered idx s
    → IsRegistered (idx + length infos) (register_attesters idx infos s)
unfolding register_attesters
register_attesters-IsRegistered idx [] s small distinct apart r =
    subst (λ n. IsRegistered n s) (omega arith) r
register_attesters-IsRegistered idx (info ∷ infos) s small distinct apart r =
    subst (λ n. IsRegistered n (register_attesters (suc idx) infos (register_attester idx info s)))
      (omega arith)
      (register_attesters-IsRegistered (suc idx) infos (register_attester idx info s) (omega arith)
        distinct.1 (register_attester-Apart idx info infos s distinct apart)
        (register_attester-IsRegistered idx info s (omega arith)
          (apart info.consensus_address (first_here info.consensus_address (addresses infos))) r))

other_index :
    (idx : ℕ) (infos : List AttesterInfo) (s : State) (a : String)
    → contains a (addresses infos) ≡ false
    → get a (register_attesters idx infos s).validator_index ≡ get a s.validator_index
unfolding register_attesters register_attester set_validator_index set_attester_set_member
    set_attester_info
other_index idx [] s a absent = refl
other_index idx (info ∷ infos) s a absent =
    other_index (suc idx) infos (register_attester idx info s) a (or_right _ _ absent)
    ∙ get-set info.consensus_address a (idx % 2 ^ 16) s.validator_index
    ∙ rw (or_left (same info.consensus_address a) (contains a (addresses infos)) absent) refl

some_injective : {A : Type 0} {a b : A} → some a ≡ some b → a ≡ b
some_injective h = cc

-- Each attester has its position in the list as its index.
pub ranked :
    (idx k : ℕ) (infos : List AttesterInfo) (s : State) {info : AttesterInfo}
    → idx + length infos < 2 ^ 16
    → Distinct (addresses infos)
    → get_elem? infos k ≡ some info
    → get info.consensus_address (register_attesters idx infos s).validator_index ≡ found (idx + k)
unfolding register_attesters register_attester set_validator_index set_attester_set_member
    set_attester_info
ranked idx k [] s small distinct h = cc
ranked idx zero (x ∷ xs) s {info} small distinct h =
    let e : x ≡ info = some_injective h in
    let narrow : idx % 2 ^ 16 ≡ idx + 0 = omega arith in
    subst
      (λ (y : AttesterInfo).
        get y.consensus_address
          (register_attesters (suc idx) xs (register_attester idx x s)).validator_index
        ≡ found (idx + 0))
      e
      (other_index (suc idx) xs (register_attester idx x s) x.consensus_address distinct.0
        ∙ get-set_self x.consensus_address (idx % 2 ^ 16) s.validator_index
        ∙ ap found narrow)
ranked idx (suc k) (x ∷ xs) s {info} small distinct h =
    ranked (suc idx) k xs (register_attester idx x s) (omega arith) distinct.1 h
    ∙ ap found (omega arith)
