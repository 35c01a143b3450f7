-- ===== src/Adapter/Hashers.antt =====
-- The hashes of validator sets in pkg/adapter/providers.go: of one sequencer, of a list of
-- validators, and of those that the store holds.
pub mod Unified
use ev_abci.Prelude.{
  Bool, List, Option, Result, [], bytes_beq, err, false, if◌then◌else◌, length, ok, or_fail, plain,
  pos, require, suc, zero, ℕ, ◌==◌, ◌||◌, ◌∷◌,
}
use ev_abci.Prelude.Outcome.{◌>>=◌, ◌>>◌}
use ev_abci.Store.{Datastore, load_state}
use ev_abci.Adapter.Types.{Opaque, Validator}
use ev_abci.Adapter.Convert.{Comet}
use ev_abci.Adapter.Commits.{Sources}

-- A libp2p public key.
pub record LibKey : Type 0 where
  pub is_ed25519 : Bool
  pub raw : Result (List ℕ)

-- The keys of CometBFT and libp2p: the address of an Ed25519 key, the bytes of a validator's key if
-- it is one, and the libp2p key of such bytes.
pub record Keys : Type 0 where
  pub address : List ℕ → List ℕ
  pub ed25519_bytes : Opaque → Option (List ℕ)
  pub unmarshal_ed25519 : List ℕ → Result LibKey

-- `make` of 32 bytes and `copy` into them.
abbrev pub copy_to : ℕ → List ℕ → List ℕ
copy_to zero bytes = []
copy_to (suc n) [] = 0 ∷ copy_to n []
copy_to (suc n) (b ∷ bytes) = b ∷ copy_to n bytes

-- The bytes of an Ed25519 key of the right size.
abbrev pub ed25519_key : LibKey → Result (List ℕ)
ed25519_key key =
    if key.is_ed25519
    then (key.raw >>= λ raw. require (length raw == 32) plain >> ok raw)
    else err plain

module _ (comet : Comet) (keys : Keys) where
  -- A validator with voting power 1.
  abbrev pub validator_of : List ℕ → Validator
  validator_of raw = record { address = keys.address raw; pub_key = raw; power = pos 1 }

  -- The function of `ValidatorHasherProvider`.
  unfoldable pub sequencer_hash : List ℕ → LibKey → Result (List ℕ)
  sequencer_hash sequencer_address key = do
    raw ← ed25519_key key
    require (bytes_beq (keys.address raw) sequencer_address) plain
    ok (copy_to 32 (comet.validators_hash (comet.new_validator_set (validator_of raw ∷ []))))

  -- The loop of `ValidatorsHasher`: the validators, and whether one of them is the sequencer.
  unfoldable pub hasher_loop : List ℕ → List LibKey → Bool → Result (List Validator × Bool)
  hasher_loop sequencer_address [] found_ = ok ([], found_)
  hasher_loop sequencer_address (key ∷ more) found_ = do
    raw ← ed25519_key key
    rest ←
        hasher_loop sequencer_address more
          (found_ || bytes_beq (keys.address raw) sequencer_address)
    ok (validator_of raw ∷ rest.0, rest.1)

  -- `ValidatorsHasher` of a list that is not empty.
  unfoldable pub set_hash : List LibKey → List ℕ → Result (List ℕ)
  unfolding hasher_loop
  set_hash validators sequencer_address = do
    looped ← hasher_loop sequencer_address validators false
    require looped.1 plain
    ok (copy_to 32 (comet.validators_hash (comet.new_validator_set looped.0)))

  -- `ValidatorsHasher`.
  unfoldable pub validators_hasher : List LibKey → List ℕ → Result (List ℕ)
  unfolding set_hash
  validators_hasher [] sequencer_address = ok (comet.validators_hash (comet.new_validator_set []))
  validators_hasher (key ∷ more) sequencer_address = set_hash (key ∷ more) sequencer_address

  -- The keys of the store's validators as libp2p's.
  unfoldable pub lib_keys : List Validator → Result (List LibKey)
  lib_keys [] = ok []
  lib_keys (v ∷ vs) = do
    bytes ← or_fail (keys.ed25519_bytes v.pub_key) plain
    key ← keys.unmarshal_ed25519 bytes
    rest ← lib_keys vs
    ok (key ∷ rest)

  -- The validators to hash: those of the state, or else the sequencer alone.
  abbrev pub hashed_keys : List Validator → LibKey → Result (List LibKey)
  hashed_keys [] key = ok (key ∷ [])
  hashed_keys (v ∷ vs) key = lib_keys (v ∷ vs)

  -- The function of `ValidatorHasherFromStoreProvider`.
  unfoldable pub store_hash : Sources → List ℕ → LibKey → Datastore → Result (List ℕ)
  unfolding lib_keys
  store_hash src sequencer_address key ds = do
    s ← load_state src.codecs.is_nil src.codecs.states src.codecs.empty ds
    validators ← hashed_keys s.validators.validators key
    validators_hasher validators sequencer_address
