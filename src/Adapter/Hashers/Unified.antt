-- ===== src/Adapter/Hashers/Unified.antt =====
-- The unified hasher of pkg/adapter/providers.go, against the one of a single sequencer.
use ev_abci.Prelude.{
  Bool, List, Result, [], ap, arith, bytes_beq, err, false, map, ok, plain, refl, require, ℕ, ◌||◌,
  ◌∙◌, ◌∷◌, ◌≡◌,
}
use ev_abci.Prelude.Outcome.{◌>>=◌, ◌>>◌}
use ev_abci.Adapter.Types.{Validator}
use ev_abci.Adapter.Convert.{Comet}
use ev_abci.Adapter.Hashers.{
  Keys, LibKey, copy_to, ed25519_key, hasher_loop, sequencer_hash, validator_of, validators_hasher,
}

-- The bytes of all keys.
abbrev pub raw_keys : List LibKey → Result (List (List ℕ))
raw_keys [] = ok []
raw_keys (key ∷ more) = ed25519_key key >>= λ raw. raw_keys more >>= λ raws. ok (raw ∷ raws)

-- Whether a key of the list has the address.
abbrev pub has_address : Keys → List ℕ → List (List ℕ) → Bool
has_address keys address [] = false
has_address keys address (raw ∷ raws) =
    bytes_beq (keys.address raw) address || has_address keys address raws

module _ (comet : Comet) (keys : Keys) where
  abbrev pub looped_of : List ℕ → Bool → Result (List (List ℕ)) → Result (List Validator × Bool)
  looped_of address found_ r =
      r >>= λ raws. ok (map (validator_of comet keys) raws, found_ || has_address keys address raws)

  loop_step :
      (address : List ℕ) (found_ : Bool) (raw : List ℕ) (rest : Result (List (List ℕ)))
      → (looped_of address (found_ || bytes_beq (keys.address raw) address) rest >>= λ more.
          ok (validator_of comet keys raw ∷ more.0, more.1))
        ≡ looped_of address found_ (rest >>= λ raws. ok (raw ∷ raws))
  loop_step address found_ raw (ok raws) = ground arith
  loop_step address found_ raw (err e) = refl

  hasher_loop_lem :
      (address : List ℕ) (validators : List LibKey) (found_ : Bool)
      → hasher_loop comet keys address validators found_
        ≡ looped_of address found_ (raw_keys validators)
  unfolding hasher_loop
  hasher_loop_lem address [] found_ = ground arith
  hasher_loop_lem address (key ∷ more) found_ = by_key (ed25519_key key) λ raw.
      ap
        (λ (r : Result (List Validator × Bool)).
          r >>= λ rest. ok (validator_of comet keys raw ∷ rest.0, rest.1))
        (hasher_loop_lem address more (found_ || bytes_beq (keys.address raw) address))
      ∙ loop_step address found_ raw (raw_keys more)
    where
      by_key :
          (r : Result (List ℕ))
          → ((raw : List ℕ)
              → (hasher_loop comet keys address more
                    (found_ || bytes_beq (keys.address raw) address)
                  >>= λ rest. ok (validator_of comet keys raw ∷ rest.0, rest.1))
                ≡ looped_of address found_ (raw_keys more >>= λ raws. ok (raw ∷ raws)))
          → (r >>= λ raw.
              hasher_loop comet keys address more (found_ || bytes_beq (keys.address raw) address)
              >>= λ rest. ok (validator_of comet keys raw ∷ rest.0, rest.1))
            ≡ looped_of address found_ (r >>= λ raw. raw_keys more >>= λ raws. ok (raw ∷ raws))
      by_key (ok raw) later = later raw
      by_key (err e) later = refl

  -- The hash of the validators with the given keys and power 1.
  abbrev pub hash_of : List (List ℕ) → List ℕ
  hash_of raws =
      copy_to 32
        (comet.validators_hash (comet.new_validator_set (map (validator_of comet keys) raws)))

  -- `ValidatorsHasher` of some keys fails unless all are Ed25519 keys of 32 bytes, and unless one of
  -- them has the sequencer's address; otherwise it gives the hash of validators with these keys, in
  -- this order, and power 1. On one key it gives the hash of the sequencer's hasher, and fails where
  -- that fails; the texts of the errors are not told apart.
  pub validators_hasher_lem :
      (key : LibKey) (more : List LibKey) (address : List ℕ)
      → (validators_hasher comet keys (key ∷ more) address ≡ (
          raw_keys (key ∷ more) >>= λ raws.
          require (has_address keys address raws) plain >> ok (hash_of raws)))
        × (validators_hasher comet keys (key ∷ []) address ≡ sequencer_hash comet keys address key)
  unfolding validators_hasher sequencer_hash
  validators_hasher_lem key more address = (general more, general [] ∙ single (ed25519_key key))
    where
      by_raws :
          (r : Result (List (List ℕ)))
          → (looped_of address false r >>= λ looped.
              require looped.1 plain
              >> ok (copy_to 32 (comet.validators_hash (comet.new_validator_set looped.0))))
            ≡ (r >>= λ raws. require (has_address keys address raws) plain >> ok (hash_of raws))
      by_raws (ok raws) = refl
      by_raws (err e) = refl

      general :
          (ks : List LibKey)
          → validators_hasher comet keys (key ∷ ks) address ≡ (
              raw_keys (key ∷ ks) >>= λ raws.
              require (has_address keys address raws) plain >> ok (hash_of raws))
      general ks =
          ap
            (λ (r : Result (List Validator × Bool)). r >>= λ looped.
              require looped.1 plain
              >> ok (copy_to 32 (comet.validators_hash (comet.new_validator_set looped.0))))
            (hasher_loop_lem address (key ∷ ks) false)
          ∙ by_raws (raw_keys (key ∷ ks))

      single :
          (r : Result (List ℕ))
          → ((r >>= λ raw. ok (raw ∷ [])) >>= λ raws.
              require (has_address keys address raws) plain >> ok (hash_of raws))
            ≡ (r >>= λ raw.
                require (bytes_beq (keys.address raw) address) plain >> ok (hash_of (raw ∷ [])))
      single (ok raw) =
          let one : (bytes_beq (keys.address raw) address || false)
              ≡ bytes_beq (keys.address raw) address =
            ground arith in
          rw one refl
      single (err e) = refl
