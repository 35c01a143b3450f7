-- ===== src/Network/Genesis/Start.antt =====
-- What the genesis sets up (modules/network/genesis.go).
use mathlib.Core.Path.{subst}
use ev_abci.Prelude.{
  Bool-cases, Eq, Error, Get, List, Map, Result, [], ap, arith, bytes_eq, err, failed, false, found,
  get, get_elem?, inl, inr, int_eq, length, missing, nat_eq, ok, pair_eq, refl, some, string_eq,
  sym, true, ℕ, ◌<◌, ◌^◌, ◌∙◌, ◌∷◌, ◌≡◌, ◌≢◌,
}
use ev_abci.Prelude.Outcome.{>>=-eq-ok, ok_ne_err}
use ev_abci.Network.Types.{AttesterInfo, Env, GenesisState, Params, State}
use ev_abci.Network.Keeper.{set_params}
use ev_abci.Network.Params.{validate}
use ev_abci.Network.Invariant.{IsValid, size}
use ev_abci.Network.Genesis.{
  bytes_ltb, empty_store, init_genesis, insert_attester, load_bitmaps, normalize_attesters,
  order_attesters, prepare_attesters, register_attesters, sort_attesters, sort_key,
}
use ev_abci.Network.Genesis.Attesters.{Distinct, addresses, prepare-Distinct}
use ev_abci.Network.Genesis.Setup.{
  IsRegistered, ranked, register_attesters-IsRegistered, register_attesters-IsUntouched,
}

-- No attester comes before one with a smaller address.
abbrev pub Sorted : Env → List AttesterInfo → Type 0
Sorted env [] = Unit
Sorted env (x ∷ []) = Unit
Sorted env (x ∷ y ∷ ys) =
    (bytes_ltb (sort_key env y) (sort_key env x) ≡ false) × Sorted env (y ∷ ys)

pub bytes_ltb_asym : (a b : List ℕ) → bytes_ltb a b ≡ true → bytes_ltb b a ≡ false
unfolding bytes_ltb
bytes_ltb_asym [] [] h = refl
bytes_ltb_asym [] (y ∷ ys) h = refl
bytes_ltb_asym (x ∷ xs) [] h = cc
bytes_ltb_asym (x ∷ xs) (y ∷ ys) h = ground (arith, bytes_ltb_asym xs ys)

insert_after :
    (env : Env) (x y : AttesterInfo) (ys : List AttesterInfo)
    → bytes_ltb (sort_key env y) (sort_key env x) ≡ true
    → Sorted env (y ∷ ys)
    → Sorted env (y ∷ insert_attester env x ys)
unfolding insert_attester
insert_after env x y [] h sorted = (bytes_ltb_asym _ _ h, tt)
insert_after env x y (z ∷ zs) h (near, sorted) =
    elim (Bool-cases (bytes_ltb (sort_key env z) (sort_key env x))) [
      | inl later ↦ rw later (near, insert_after env x z zs later sorted)
      | inr first ↦ rw first (bytes_ltb_asym _ _ h, (first, sorted))
    ]

insert-Sorted :
    (env : Env) (x : AttesterInfo) (xs : List AttesterInfo)
    → Sorted env xs
    → Sorted env (insert_attester env x xs)
unfolding insert_attester
insert-Sorted env x [] sorted = tt
insert-Sorted env x (y ∷ ys) sorted =
    elim (Bool-cases (bytes_ltb (sort_key env y) (sort_key env x))) [
      | inl later ↦ rw later (insert_after env x y ys later sorted)
      | inr first ↦ rw first (first, sorted)
    ]

order-Sorted : (env : Env) (infos : List AttesterInfo) → Sorted env (order_attesters env infos)
unfolding order_attesters
order-Sorted env [] = tt
order-Sorted env (x ∷ xs) = insert-Sorted env x (order_attesters env xs) (order-Sorted env xs)

pub prepare-Sorted :
    (env : Env) (infos : List AttesterInfo) {out : List AttesterInfo}
    → prepare_attesters env infos ≡ ok out
    → Sorted env out
unfolding prepare_attesters sort_attesters
prepare-Sorted env infos {out} h =
    let (normal, h₁, h₂) = >>=-eq-ok (normalize_attesters env [] infos) _ h in
    let e : out ≡ order_attesters env normal = ground arith in rw e (order-Sorted env normal)

-- A first store: well-formed, without votes, and with each attester of the genesis under its
-- position in the order of the addresses.
pub record Founded (env : Env) (gs : GenesisState) (t : State) : Type 0 where
  pub valid : IsValid env t
  pub attesters : List AttesterInfo
  pub prepared : prepare_attesters env gs.attester_infos ≡ ok attesters
  pub sorted : Sorted env attesters
  pub complete : size t ≡ length gs.attester_infos
  pub params_stored : t.params ≡ found gs.params
  pub by_rank :
      (k : ℕ) {info : AttesterInfo}
      → get_elem? attesters k ≡ some info
      → get info.consensus_address t.validator_index ≡ found k
  pub no_votes : t.attestation_bitmap ≡ []

-- The store before the registration.
abbrev pub base : Params → State
base p = record empty_store { params = found p }

base-IsRegistered : (p : Params) → IsRegistered 0 (base p)
unfolding get
base-IsRegistered p = record {
  counted = refl;
  indexed = λ a i h. cc;
  powered = λ i below. absurd (omega arith);
}

empty_read :
    {K V : Type 0} ⦃e : Eq K⦄ (k : K) (m : Map K V) {g : Get V} → m ≡ [] → get k m ≡ g → missing ≡ g
unfolding get
empty_read k m {g} h e = ap (get k) (sym h) ∙ e

missing_ne_found : {V A : Type 0} {v : V} → missing ≡ found v → A
missing_ne_found h = absurd (bad h)
  where
    bad : {V : Type 0} {v : V} → missing ≢ found v
    bad h = cc

missing_ne_failed : {V : Type 0} → ◌≢◌ {A = Get V} missing failed
missing_ne_failed h = cc

started-IsValid :
    (env : Env) (p : Params) (attesters : List AttesterInfo)
    → validate env p ≡ ok tt
    → length attesters < 2 ^ 16
    → Distinct (addresses attesters)
    → IsValid env (register_attesters 0 attesters (base p))
started-IsValid env p attesters valid small distinct =
    let r =
      register_attesters-IsRegistered 0 attesters (base p) (omega arith) distinct (λ a here. refl)
        (base-IsRegistered p) in
    let u = register_attesters-IsUntouched 0 attesters (base p) in
    record {
      current = p;
      current_params = u.same_params;
      valid_params = valid;
      small = omega (arith, r.counted);
      indexed = λ a i h. omega (arith, r.counted, r.indexed a i h);
      powered = λ i below. r.powered i (omega (arith, r.counted));
      shaped = λ k b h. missing_ne_found (empty_read k _ u.bitmaps h);
      readable = λ k h. missing_ne_failed (empty_read k _ u.bitmaps h);
      epochs_shaped = λ k b h. missing_ne_found (empty_read k _ u.epochs h);
      last_readable = λ h. missing_ne_failed (sym u.last_height ∙ h);
    }

pub init_genesis_failed :
    (env : Env) (gs : GenesisState) (s : State) {e : Error}
    → prepare_attesters env gs.attester_infos ≡ err e
    → init_genesis env gs s ≡ (err e, set_params gs.params s)
unfolding init_genesis
init_genesis_failed env gs s p = rw (p, init_genesis) refl

pub init_genesis_done :
    (env : Env) (gs : GenesisState) {attesters : List AttesterInfo}
    → prepare_attesters env gs.attester_infos ≡ ok attesters
    → gs.attestation_bitmaps ≡ []
    → init_genesis env gs empty_store ≡ (ok tt, register_attesters 0 attesters (base gs.params))
unfolding init_genesis load_bitmaps set_params
init_genesis_done env gs p no_history = rw (p, no_history, init_genesis) refl

started-Founded :
    (env : Env) (gs : GenesisState) {attesters : List AttesterInfo}
    → validate env gs.params ≡ ok tt
    → length gs.attester_infos < 2 ^ 16
    → prepare_attesters env gs.attester_infos ≡ ok attesters
    → Founded env gs (register_attesters 0 attesters (base gs.params))
started-Founded env gs {attesters} valid small p =
    let (distinct, same_length) = prepare-Distinct env gs.attester_infos p in
    let few : length attesters < 2 ^ 16 = omega arith in
    let r =
      register_attesters-IsRegistered 0 attesters (base gs.params) (omega arith) distinct
        (λ a here. refl) (base-IsRegistered gs.params) in
    let u = register_attesters-IsUntouched 0 attesters (base gs.params) in
    record {
      valid = started-IsValid env gs.params attesters valid few distinct;
      attesters = attesters;
      prepared = p;
      sorted = prepare-Sorted env gs.attester_infos p;
      complete = omega (arith, r.counted);
      params_stored = u.same_params;
      by_rank = λ k h.
          ranked 0 k attesters (base gs.params) (omega arith) distinct h ∙ ap found (omega arith);
      no_votes = u.bitmaps;
    }

-- Without history, an `InitGenesis` that succeeds from the empty store, with valid parameters and
-- fewer than 2^16 attesters, leaves a well-formed store without votes, in which every attester of
-- the genesis has its position in the order of the addresses as its index.
pub init_genesis-Founded :
    (env : Env) (gs : GenesisState) {t : State}
    → validate env gs.params ≡ ok tt
    → length gs.attester_infos < 2 ^ 16
    → gs.attestation_bitmaps ≡ []
    → init_genesis env gs empty_store ≡ (ok tt, t)
    → Founded env gs t
init_genesis-Founded env gs {t} valid small no_history h =
    from_attesters (prepare_attesters env gs.attester_infos) refl
  where
    from_attesters :
        (r : Result (List AttesterInfo))
        → prepare_attesters env gs.attester_infos ≡ r
        → Founded env gs t
    from_attesters (err e) p = absurd (
        ok_ne_err (
          ap (λ (r : Result (Unit {0}) × State). r.0)
            (sym h ∙ init_genesis_failed env gs empty_store p)))
    from_attesters (ok attesters) p =
        subst (Founded env gs)
          (ap (λ (r : Result (Unit {0}) × State). r.1)
            (sym (init_genesis_done env gs p no_history) ∙ h))
          (started-Founded env gs valid small p)
