-- ===== src/Network/Export/Restored.antt =====
-- `ExportGenesis` after `InitGenesis` (modules/network/genesis.go).
use mathlib.Core.Path.{subst}
use mathlib.Core.List.{Perm, append-nil, append_assoc}
use ev_abci.Prelude.{
  Bool-cases, List, Map, Result, String, [], ap, bytes_eq, contains, err, false, found, inl, inr,
  int_eq, map, nat_eq, ok, pair_eq, refl, same, set, string_eq, suc, sym, ℕ, ◌++◌, ◌∙◌, ◌∷◌, ◌≡◌,
}
use ev_abci.Prelude.Outcome.{ok_ne_err, ◌>>=◌}
use ev_abci.Network.Types.{AttesterInfo, Env, GenesisState, State}
use ev_abci.Network.Keeper.{
  get_params, set_attester_info, set_attester_set_member, set_validator_index,
}
use ev_abci.Network.Genesis.{
  empty_store, init_genesis, insert_attester, order_attesters, prepare_attesters, register_attester,
  register_attesters, sort_attesters,
}
use ev_abci.Network.Genesis.Attesters.{Distinct, addresses, or_left, or_right, other_way}
use ev_abci.Network.Genesis.Setup.{register_attesters-IsUntouched}
use ev_abci.Network.Genesis.Start.{Sorted, base, init_genesis_done, init_genesis_failed}
use ev_abci.Network.Export.Ready.{Prepared, canonical, prepare-Prepared}
use ev_abci.Network.Export.Walk.{
  Distinct-Pairwise, all-walk_order, insert_walk, length-walk_order, order-walk_order, walk_order,
}
use ev_abci.Network.Export.{by_key, export_genesis, insert_key, string_ltb, walked}

-- The collection of some attesters by address.
abbrev entries : List AttesterInfo → Map String AttesterInfo
entries [] = []
entries (info ∷ infos) = (info.consensus_address, found info) ∷ entries infos

set_last :
    (done : List AttesterInfo) (info : AttesterInfo)
    → contains info.consensus_address (addresses done) ≡ false
    → set info.consensus_address info (entries done) ≡ entries (done ++ info ∷ [])
unfolding set
set_last [] info absent = refl
set_last (d ∷ ds) info absent =
    rw
      (or_left (same d.consensus_address info.consensus_address)
        (contains info.consensus_address (addresses ds)) absent)
      (ap (λ rest. (d.consensus_address, found d) ∷ rest) (set_last ds info (or_right _ _ absent)))

inner_differs :
    (a : String) (ds : List AttesterInfo) (info : AttesterInfo) (infos : List AttesterInfo)
    → contains a (addresses (ds ++ info ∷ infos)) ≡ false
    → same info.consensus_address a ≡ false
inner_differs a [] info infos h = or_left _ _ h
inner_differs a (d ∷ ds) info infos h = inner_differs a ds info infos (or_right _ _ h)

inner_absent :
    (done : List AttesterInfo) (info : AttesterInfo) (infos : List AttesterInfo)
    → Distinct (addresses (done ++ info ∷ infos))
    → contains info.consensus_address (addresses done) ≡ false
inner_absent [] info infos distinct = refl
inner_absent (d ∷ ds) info infos (fresh, distinct) =
    rw
      (
        other_way _ _ (inner_differs d.consensus_address ds info infos fresh),
        inner_absent ds info infos distinct,
      )
      refl

registered :
    (idx : ℕ) (done infos : List AttesterInfo) (s : State)
    → s.attester_info ≡ entries done
    → Distinct (addresses (done ++ infos))
    → (register_attesters idx infos s).attester_info ≡ entries (done ++ infos)
unfolding register_attesters register_attester set_validator_index set_attester_set_member
    set_attester_info
registered idx done [] s kept distinct = kept ∙ ap entries (sym (append-nil done))
registered idx done (info ∷ infos) s kept distinct =
    registered (suc idx) (done ++ info ∷ []) infos (register_attester idx info s)
      (ap (set info.consensus_address info) kept
        ∙ set_last done info (inner_absent done info infos distinct))
      (subst (λ l. Distinct (addresses l)) (sym (append_assoc done (info ∷ []) infos)) distinct)
    ∙ ap entries (append_assoc done (info ∷ []) infos)

no_history_kept :
    (idx : ℕ) (infos : List AttesterInfo) (s : State)
    → (register_attesters idx infos s).stored_attestation_info ≡ s.stored_attestation_info
unfolding register_attesters register_attester set_validator_index set_attester_set_member
    set_attester_info
no_history_kept idx [] s = refl
no_history_kept idx (info ∷ infos) s =
    no_history_kept (suc idx) infos (register_attester idx info s)

walked-entries : (infos : List AttesterInfo) → walked (entries infos) ≡ ok infos
unfolding walked
walked-entries [] = refl
walked-entries (info ∷ infos) = ap (λ r. r >>= λ vs. ok (info ∷ vs)) (walked-entries infos)

-- Sorting what is sorted changes nothing.
order-Sorted_lem :
    (env : Env) (infos : List AttesterInfo) → Sorted env infos → order_attesters env infos ≡ infos
unfolding order_attesters insert_attester
order-Sorted_lem env [] sorted = refl
order-Sorted_lem env (x ∷ []) sorted = refl
order-Sorted_lem env (x ∷ (y ∷ ys)) (near, sorted) =
    ap (insert_attester env x) (order-Sorted_lem env (y ∷ ys) sorted) ∙ rw near refl

-- A walk over the collection of some attesters.
insert_key-entries :
    (x : AttesterInfo) (xs : List AttesterInfo)
    → insert_key string_ltb (x.consensus_address, found x) (entries xs) ≡ entries (insert_walk x xs)
unfolding insert_key insert_walk
insert_key-entries x [] = refl
insert_key-entries x (y ∷ ys) =
    elim (Bool-cases (string_ltb y.consensus_address x.consensus_address)) [
      | inl later ↦
          rw later (ap (λ rest. (y.consensus_address, found y) ∷ rest) (insert_key-entries x ys))
      | inr first ↦ rw first refl
    ]

by_key-entries : (xs : List AttesterInfo) → by_key string_ltb (entries xs) ≡ entries (walk_order xs)
unfolding by_key walk_order
by_key-entries [] = refl
by_key-entries (x ∷ xs) =
    ap (insert_key string_ltb (x.consensus_address, found x)) (by_key-entries xs)
    ∙ insert_key-entries x (walk_order xs)

-- The sort brings a walk over sorted attesters back in order.
sort_again :
    (env : Env) (infos out : List AttesterInfo)
    → Prepared env infos out
    → sort_attesters env (walk_order out) ≡ ok out
unfolding sort_attesters
sort_again env infos out p =
    rw (length-walk_order out, all-walk_order out, p.comparable)
      (ap ok (
        order-walk_order env out (Distinct-Pairwise env out p.canonical_addresses p.different)
        ∙ order-Sorted_lem env out p.sorted))

-- A genesis with other attesters and without history.
abbrev pub exported : GenesisState → List AttesterInfo → GenesisState
exported gs attesters = record {
  params = gs.params;
  validator_indices = [];
  attestation_bitmaps = [];
  attester_infos = attesters;
}

export_started :
    (env : Env) (gs : GenesisState) (attesters : List AttesterInfo)
    → Prepared env gs.attester_infos attesters
    → export_genesis env (register_attesters 0 attesters (base gs.params))
      ≡ ok (exported gs attesters)
unfolding export_genesis get_params walked by_key
export_started env gs attesters p =
    rw
      (
        (register_attesters-IsUntouched 0 attesters (base gs.params)).same_params,
        registered 0 [] attesters (base gs.params) refl p.different,
        no_history_kept 0 attesters (base gs.params),
        by_key-entries attesters,
        walked-entries (walk_order attesters),
        sort_again env gs.attester_infos attesters p,
      )
      refl

-- A genesis without history that `InitGenesis` accepts from the empty store is what
-- `ExportGenesis` gives back: the same attesters, each with the address made of its public key, in
-- the order of their addresses, with the parameters and without the derived indices.
pub export_genesis-init_genesis :
    (env : Env) (gs : GenesisState) {t : State}
    → gs.attestation_bitmaps ≡ []
    → init_genesis env gs empty_store ≡ (ok tt, t)
    → (attesters : List AttesterInfo) × Perm (map (canonical env) gs.attester_infos) attesters
      × Sorted env attesters
      × (export_genesis env t ≡ ok (exported gs attesters))
export_genesis-init_genesis env gs {t} no_history h =
    from_attesters (prepare_attesters env gs.attester_infos) refl
  where
    from_attesters :
        (r : Result (List AttesterInfo))
        → prepare_attesters env gs.attester_infos ≡ r
        → (attesters : List AttesterInfo) × Perm (map (canonical env) gs.attester_infos) attesters
          × Sorted env attesters
          × (export_genesis env t ≡ ok (exported gs attesters))
    from_attesters (err e) p = absurd (
        ok_ne_err (
          ap (λ (r : Result (Unit {0}) × State). r.0)
            (sym h ∙ init_genesis_failed env gs empty_store p)))
    from_attesters (ok attesters) p =
        let prepared = prepare-Prepared env gs.attester_infos attesters p in
        (
          attesters,
          prepared.same_attesters,
          prepared.sorted,
          subst (λ t'. export_genesis env t' ≡ ok (exported gs attesters))
              (ap (λ (r : Result (Unit {0}) × State). r.1)
                (sym (init_genesis_done env gs p no_history) ∙ h))
              (export_started env gs attesters prepared),
        )
