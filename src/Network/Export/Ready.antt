-- ===== src/Network/Export/Ready.antt =====
-- What `InitGenesis` of modules/network/genesis.go makes of the attesters of a genesis.
use mathlib.Core.Path.{subst}
use mathlib.Core.List.{Perm}
use mathlib.Core.List.Perm
use ev_abci.Prelude.{
  Bool-cases, List, Option, String, [], ap, arith, bytes_eq, contains, inl, inr, int_eq, leb,
  length, map, nat_eq, none, ok, or_fail, pair_eq, plain, refl, require, same, some, string_eq, sym,
  true, ◌&&◌, ◌||◌, ◌∙◌, ◌∷◌, ◌≡◌,
}
use ev_abci.Prelude.Outcome.{>>-eq-ok, >>=-eq-ok, ok_injective, or_fail_ok}
use ev_abci.Network.Types.{AttesterInfo, Env, PubKey, get_pub_key}
use ev_abci.Network.Genesis.{
  all_have_pub_key, bytes_ltb, has_pub_key, insert_attester, normalize_attester,
  normalize_attesters, order_attesters, prepare_attesters, sort_attesters, sort_key,
}
use ev_abci.Network.Genesis.Attesters.{Distinct, addresses, length-order, prepare-Distinct, unseen}
use ev_abci.Network.Genesis.Start.{Sorted, prepare-Sorted}
use ev_abci.Network.Export.Walk.{AllCanonical}

all-insert :
    (env : Env) (x : AttesterInfo) (xs : List AttesterInfo)
    → all_have_pub_key (insert_attester env x xs) ≡ (has_pub_key x && all_have_pub_key xs)
unfolding insert_attester
all-insert env x [] = refl
all-insert env x (y ∷ ys) = ground (arith, all-insert env x ys)

pub all-order :
    (env : Env) (xs : List AttesterInfo)
    → all_have_pub_key (order_attesters env xs) ≡ all_have_pub_key xs
unfolding order_attesters
all-order env [] = refl
all-order env (x ∷ xs) =
    all-insert env x (order_attesters env xs) ∙ ap (λ b. has_pub_key x && b) (all-order env xs)

abbrev pub address_of : Env → Option PubKey → String
address_of env none = env.cons_address_string []
address_of env (some pk) = env.cons_address_string (env.pub_key_address pk)

-- An attester with its address in the module's form, which is made of its public key.
abbrev pub canonical : Env → AttesterInfo → AttesterInfo
canonical env info = record info { consensus_address = address_of env info.pubkey }

normalize_attester-canonical :
    (env : Env) (seen : List String) (info : AttesterInfo) {out : AttesterInfo}
    → normalize_attester env seen info ≡ ok out
    → (out ≡ canonical env info)
      × (out.consensus_address ≡ env.cons_address_string (sort_key env out))
unfolding normalize_attester get_pub_key sort_key
normalize_attester-canonical env seen info {out} h =
    let (pk, known, h₁) = >>=-eq-ok (or_fail info.pubkey plain) _ h in
    let (raw, decoded, h₂) =
      >>=-eq-ok (or_fail (env.bech32_decode info.consensus_address) plain) _ h₁ in
    let (same_address, h₃) = >>-eq-ok (require (same raw (env.pub_key_address pk)) plain) _ h₂ in
    let (fresh, e) = unseen (contains (env.cons_address_string (env.pub_key_address pk)) seen) h₃ in
    let keyed : info.pubkey ≡ some pk = or_fail_ok info.pubkey plain known in
    subst
      (λ (x : AttesterInfo).
        (x ≡ canonical env info) × (x.consensus_address ≡ env.cons_address_string (sort_key env x)))
      e
      (
        ap (λ o. record info { consensus_address = address_of env o }) (sym keyed),
        ap (λ o. env.cons_address_string (elim o [ some k ↦ env.pub_key_address k | none ↦ [] ]))
            (sym keyed),
      )

normalize_attesters-canonical :
    (env : Env) (seen : List String) (infos : List AttesterInfo) {out : List AttesterInfo}
    → normalize_attesters env seen infos ≡ ok out
    → (out ≡ map (canonical env) infos) × AllCanonical env out
unfolding normalize_attesters
normalize_attesters-canonical env seen [] {out} h =
    subst (λ l. (l ≡ []) × AllCanonical env l) (ok_injective h) (refl, tt)
normalize_attesters-canonical env seen (info ∷ infos) {out} h =
    let (first, h1, h2) = >>=-eq-ok (normalize_attester env seen info) _ h in
    let (rest, h3, h4) =
      >>=-eq-ok (normalize_attesters env (first.consensus_address ∷ seen) infos) _ h2 in
    let (same_first, mine) = normalize_attester-canonical env seen info h1 in
    let (same_rest, theirs) =
      normalize_attesters-canonical env (first.consensus_address ∷ seen) infos h3 in
    subst (λ l. (l ≡ map (canonical env) (info ∷ infos)) × AllCanonical env l) (ok_injective h4)
      (ap (λ x. x ∷ rest) same_first ∙ ap (λ xs. canonical env info ∷ xs) same_rest, (mine, theirs))

insert_attester-Perm :
    (env : Env) (x : AttesterInfo) (xs : List AttesterInfo)
    → Perm (x ∷ xs) (insert_attester env x xs)
unfolding insert_attester
insert_attester-Perm env x [] = Perm.rfl
insert_attester-Perm env x (y ∷ ys) =
    elim (Bool-cases (bytes_ltb (sort_key env y) (sort_key env x))) [
      | inl later ↦
          rw later (Perm.trans (Perm.swap y x ys) (Perm.cons y (insert_attester-Perm env x ys)))
      | inr first ↦ rw first Perm.rfl
    ]

order_attesters-Perm : (env : Env) (xs : List AttesterInfo) → Perm xs (order_attesters env xs)
unfolding order_attesters
order_attesters-Perm env [] = Perm.rfl
order_attesters-Perm env (x ∷ xs) =
    Perm.trans (Perm.cons x (order_attesters-Perm env xs))
      (insert_attester-Perm env x (order_attesters env xs))

insert-AllCanonical :
    (env : Env) (x : AttesterInfo) (xs : List AttesterInfo)
    → AllCanonical env (x ∷ xs)
    → AllCanonical env (insert_attester env x xs)
unfolding insert_attester
insert-AllCanonical env x [] all = all
insert-AllCanonical env x (y ∷ ys) (mine, (its, theirs)) =
    elim (Bool-cases (bytes_ltb (sort_key env y) (sort_key env x))) [
      | inl later ↦ rw later (its, insert-AllCanonical env x ys (mine, theirs))
      | inr first ↦ rw first (mine, (its, theirs))
    ]

order-AllCanonical :
    (env : Env) (xs : List AttesterInfo)
    → AllCanonical env xs
    → AllCanonical env (order_attesters env xs)
unfolding order_attesters
order-AllCanonical env [] all = tt
order-AllCanonical env (x ∷ xs) (mine, theirs) =
    insert-AllCanonical env x (order_attesters env xs) (mine, order-AllCanonical env xs theirs)

-- What the attesters of the genesis become.
pub record Prepared (env : Env) (infos out : List AttesterInfo) : Type 0 where
  pub same_attesters : Perm (map (canonical env) infos) out
  pub sorted : Sorted env out
  pub canonical_addresses : AllCanonical env out
  pub different : Distinct (addresses out)
  pub comparable : (leb (length out) 1 || all_have_pub_key out) ≡ true

pub prepare-Prepared :
    (env : Env) (infos out : List AttesterInfo)
    → prepare_attesters env infos ≡ ok out
    → Prepared env infos out
unfolding prepare_attesters sort_attesters
prepare-Prepared env infos out h =
    let (normal, h1, h2) = >>=-eq-ok (normalize_attesters env [] infos) _ h in
    let (same_list, canonical_) = normalize_attesters-canonical env [] infos h1 in
    let e : order_attesters env normal ≡ out = ground arith in
    let test : (leb (length normal) 1 || all_have_pub_key normal) ≡ true = ground arith in
    record {
      same_attesters =
          subst (λ l. Perm l out) same_list
            (subst (Perm normal) e (order_attesters-Perm env normal));
      sorted = prepare-Sorted env infos h;
      canonical_addresses = subst (AllCanonical env) e (order-AllCanonical env normal canonical_);
      different = (prepare-Distinct env infos h).0;
      comparable = rw (sym e) (rw (length-order env normal, all-order env normal) test);
    }
