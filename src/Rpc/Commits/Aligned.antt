-- ===== src/Rpc/Commits/Aligned.antt =====
-- The commits and the validator sets that pkg/rpc/core gives in attester mode, side by side.
use mathlib.Core.Path.{subst}
use ev_abci.Prelude.{
  Bool, Get, List, Map, Option, Result, String, [], ap, arith, bytes_eq, err, fail_as, failed,
  false, found, get, if◌then◌else◌, inl, inr, int_eq, length, ltb, ltb→lt, missing, nat_eq, ok,
  pair_eq, plain, pos, refl, require, string_eq, suc, sym, to_int64, true, true_ne, wrap64, ℕ, ℤ,
  ◌*◌, ◌+◌, ◌<◌, ◌∙◌, ◌∷◌, ◌≡◌, ◌⊎◌,
}
use ev_abci.Prelude.Outcome.{>>-eq-ok, >>=-eq-ok, ok_injective, require_ok}
use ev_abci.Store.{get_block_id}
use ev_abci.Adapter.Types.{
  BlockIdFlag, Commit, CommitSig, Validator, flag_absent, flag_commit, flag_nil,
}
use ev_abci.Adapter.Commits.{get_last_commit}
use ev_abci.Rpc.{normalize_height}
use ev_abci.Rpc.Commits.{
  AttesterSetEntry, RpcEnv, SignedVote, attested_commit, build_validator_set, build_validators,
  commit_sigs, found_sig, get_attester_set, get_attester_signatures, get_commit_for_height,
  mode_validators, validators, voted_sig,
}

-- The signatures of a commit, one for each validator in the same order: absent, or that validator's.
pub data Aligned : List CommitSig → List Validator → Type 0 where
  no_more : Aligned [] []
  absent :
      {sig : CommitSig} {v : Validator} {sigs : List CommitSig} {vs : List Validator}
      → sig.block_id_flag ≡ flag_absent
      → v.power ≡ pos 1
      → Aligned sigs vs
      → Aligned (sig ∷ sigs) (v ∷ vs)
  signed :
      {sig : CommitSig} {v : Validator} {sigs : List CommitSig} {vs : List Validator}
      → sig.block_id_flag ≡ flag_commit
      → sig.validator_address ≡ v.address
      → v.power ≡ pos 1
      → Aligned sigs vs
      → Aligned (sig ∷ sigs) (v ∷ vs)

abbrev pub is_commit : BlockIdFlag → ℕ
is_commit flag_absent = 0
is_commit flag_commit = 1
is_commit flag_nil = 0

-- The number of signatures for the block.
abbrev pub commits : List CommitSig → ℕ
commits [] = 0
commits (sig ∷ sigs) = is_commit sig.block_id_flag + commits sigs

taken : {A : Type 0} (b : Bool) (y : A) {x z : A} → b ≡ true → (if b then x else y) ≡ z → x ≡ z
taken true y yes_ h = h
taken false y yes_ h = absurd (true_ne (sym yes_))

module _ (env : RpcEnv) where
  -- The signature of one attester.
  sig_cases :
      (e : AttesterSetEntry) (g : Get (List ℕ))
      → (((found_sig env e g).0.block_id_flag ≡ flag_absent) × ((found_sig env e g).1 ≡ 0))
        ⊎ (((found_sig env e g).0.block_id_flag ≡ flag_commit)
            × ((found_sig env e g).1 ≡ 1)
            × ((found_sig env e g).0.validator_address ≡ e.validator_address))
  sig_cases e missing = inl (refl, refl)
  sig_cases e failed = inl (refl, refl)
  sig_cases e (found bytes) = by_vote (env.decode_vote bytes)
    where
      by_vote :
          (r : Result SignedVote)
          → (((voted_sig env e r).0.block_id_flag ≡ flag_absent) × ((voted_sig env e r).1 ≡ 0))
            ⊎ (((voted_sig env e r).0.block_id_flag ≡ flag_commit)
                × ((voted_sig env e r).1 ≡ 1)
                × ((voted_sig env e r).0.validator_address ≡ e.validator_address))
      by_vote (ok vote) = inr (refl, refl, refl)
      by_vote (err c) = inl (refl, refl)

  commits-commit_sigs :
      (m : Map String (List ℕ)) (es : List AttesterSetEntry)
      → (commit_sigs env m es).1 ≡ commits (commit_sigs env m es).0
  unfolding commit_sigs
  commits-commit_sigs m [] = refl
  commits-commit_sigs m (e ∷ es) = elim (sig_cases e (get e.consensus_address m)) [
    | inl (flag, counted) ↦ omega (arith, counted, ap is_commit flag, commits-commit_sigs m es)
    | inr (flag, counted, address) ↦
        omega (arith, counted, ap is_commit flag, commits-commit_sigs m es)
  ]

  commit_sigs-Aligned :
      (m : Map String (List ℕ)) (es : List AttesterSetEntry) (vs : List Validator)
      → build_validators env es ≡ ok vs
      → Aligned (commit_sigs env m es).0 vs
  unfolding commit_sigs build_validators
  commit_sigs-Aligned m [] vs h = subst (Aligned []) (ok_injective h) no_more
  commit_sigs-Aligned m (e ∷ es) vs h =
      let (key, converted, h1) = >>=-eq-ok (env.comet_key e.pubkey) _ h in
      let (rest, built, h2) = >>=-eq-ok (build_validators env es) _ h1 in
      subst (Aligned (commit_sigs env m (e ∷ es)).0) (ok_injective h2)
        (elim (sig_cases e (get e.consensus_address m)) [
          | inl (flag, counted) ↦ absent flag refl (commit_sigs-Aligned m es rest built)
          | inr (flag, counted, address) ↦
              signed flag address refl (commit_sigs-Aligned m es rest built)
        ])

  length-build_validators :
      (es : List AttesterSetEntry) (vs : List Validator)
      → build_validators env es ≡ ok vs
      → length vs ≡ length es
  unfolding build_validators
  length-build_validators [] vs h = ap length (sym (ok_injective h))
  length-build_validators (e ∷ es) vs h =
      let (key, converted, h1) = >>=-eq-ok (env.comet_key e.pubkey) _ h in
      let (rest, built, h2) = >>=-eq-ok (build_validators env es) _ h1 in
      ap length (sym (ok_injective h2)) ∙ ap suc (length-build_validators es rest built)

  -- In attester mode the commit of a height carries the block id that the store has for the height,
  -- and fits the validator set given by the same node: a signature for each validator in the same
  -- order, absent or with that validator's address, every validator with power 1, and more than two
  -- thirds of them signing.
  pub get_commit_for_height-Aligned :
      (height : ℕ) (asked : Option ℤ) (commit : Commit) (n : ℤ) (vs : List Validator)
      → env.attester_mode ≡ true
      → get_commit_for_height env height ≡ ok commit
      → validators env asked ≡ ok (n, vs)
      → Aligned commit.signatures vs
        × (2 * length vs < 3 * commits commit.signatures)
        × (get_block_id env.sources.codecs.is_nil env.sources.codecs.ids height env.ds
            ≡ ok commit.block_id)
        × (commit.height ≡ to_int64 height)
  unfolding get_commit_for_height attested_commit validators build_validator_set
  get_commit_for_height-Aligned height asked commit n vs mode given shown =
      let (block_id, stored, g1) =
        >>=-eq-ok (get_block_id env.sources.codecs.is_nil env.sources.codecs.ids height env.ds) _ (
          taken env.attester_mode (get_last_commit env.sources (wrap64 (height + 1)) env.ds) mode
            given) in
      let (entries, set_, g2) = >>=-eq-ok (get_attester_set env) _ g1 in
      let (signatures, signed_, g3) =
        >>=-eq-ok (get_attester_signatures env (to_int64 height)) _ g2 in
      let (quorum, g4) =
        >>-eq-ok
          (require (ltb (length entries * 2) ((commit_sigs env signatures entries).1 * 3)) plain) _
          g3 in
      let (normal, at_height, v1) =
        >>=-eq-ok (fail_as plain (normalize_height env.height asked)) _ shown in
      let (chained, build, v2) = >>=-eq-ok (mode_validators env env.attester_mode) _ v1 in
      let (entries', set', v3) =
        >>=-eq-ok (get_attester_set env) _ (ap (mode_validators env) (sym mode) ∙ build) in
      let same_set : entries' ≡ entries = ok_injective (sym set' ∙ set_) in
      let (some_, built) = >>-eq-ok (require (ltb 0 (length entries')) plain) _ v3 in
      let same_vs : chained ≡ vs = ap (λ p. p.1) (ok_injective v2) in
      let built' : build_validators env entries ≡ ok vs =
        ap (build_validators env) (sym same_set) ∙ built ∙ ap ok same_vs in
      let most : length entries * 2 < (commit_sigs env signatures entries).1 * 3 =
        ltb→lt _ _ (require_ok _ plain quorum) in
      subst
        (λ (c : Commit).
          Aligned c.signatures vs
          × (2 * length vs < 3 * commits c.signatures)
          × (get_block_id env.sources.codecs.is_nil env.sources.codecs.ids height env.ds
              ≡ ok c.block_id)
          × (c.height ≡ to_int64 height))
        (ok_injective g4)
        (
          commit_sigs-Aligned signatures entries vs built',
          omega (
            arith,
            most,
            commits-commit_sigs signatures entries,
            length-build_validators entries vs built',
          ),
          stored,
          refl,
        )
