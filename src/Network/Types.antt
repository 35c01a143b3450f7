-- ===== src/Network/Types.antt =====
-- The data of the network module (modules/network/types), the store of its keeper, and what it is
-- wired with.
use ev_abci.Prelude.{
  Bool, Error, Get, List, Map, Option, Result, String, ap, err, ok, or_fail, plain, pos, ℕ, ℤ, ◌≡◌,
}

pub record Params : Type 0 where
  pub epoch_length : ℕ
  pub quorum_fraction : String
  pub min_participation : String
  pub prune_after : ℕ
  pub sign_mode : ℤ

-- `Params{}`.
abbrev pub zero_params : Params
zero_params = record {
  epoch_length = 0;
  quorum_fraction = "";
  min_participation = "";
  prune_after = 0;
  sign_mode = pos 0;
}

-- A public key, as the `Any` that carries it holds it.
pub record PubKey : Type 0 where
  pub type_url : String
  pub key : List ℕ

-- `pubkey` is `none` where the `Any` is nil or caches no public key.
pub record AttesterInfo : Type 0 where
  pub authority : String
  pub pubkey : Option PubKey
  pub joined_height : ℤ
  pub consensus_address : String

-- `AttesterInfo.GetPubKey`.
unfoldable pub get_pub_key : AttesterInfo → Result PubKey
get_pub_key a = or_fail a.pubkey plain

pub record AttestationBitmap : Type 0 where
  pub height : ℤ
  pub bitmap : List ℕ
  pub voted_power : ℕ
  pub total_power : ℕ
  pub soft_confirmed : Bool

pub record ValidatorIndex : Type 0 where
  pub address : String
  pub index : ℕ
  pub power : ℕ

pub record BlockId : Type 0 where
  pub hash : List ℕ
  pub parts_total : ℕ
  pub parts_hash : List ℕ

-- CometBFT's vote message.
pub record Vote : Type 0 where
  pub type : ℤ
  pub height : ℤ
  pub round : ℤ
  pub block_id : BlockId
  pub timestamp : ℤ
  pub validator_address : List ℕ
  pub validator_index : ℤ
  pub signature : List ℕ

pub record MsgAttest : Type 0 where
  pub authority : String
  pub consensus_address : String
  pub height : ℤ
  pub vote : List ℕ

pub record MsgUpdateParams : Type 0 where
  pub authority : String
  pub params : Params

pub record GenesisState : Type 0 where
  pub params : Params
  pub validator_indices : List ValidatorIndex
  pub attestation_bitmaps : List AttestationBitmap
  pub attester_infos : List AttesterInfo

pub data Event : Type 0 where
  attested : String → String → ℤ → Event
  params_updated : String → Event
  checkpoint : ℤ → String → String → Bool → Event

-- The collections of the keeper, and the events of the block.
pub record State : Type 0 where
  pub validator_index : Map String ℕ
  pub validator_power : Map ℕ ℕ
  pub attestation_bitmap : Map ℤ (List ℕ)
  pub epoch_bitmap : Map ℕ (List ℕ)
  pub attester_set : List String
  pub attester_info : Map String AttesterInfo
  pub signatures : Map (ℤ × String) (List ℕ)
  pub stored_attestation_info : Map ℤ AttestationBitmap
  pub last_attested_height : Get ℤ
  pub params : Get Params
  pub events : List Event

-- The parts of `sdk.Context` that the module reads.
pub record Ctx : Type 0 where
  pub block_height : ℤ
  pub chain_id : String

-- What the keeper is wired with, and the functions of other packages that it calls. Decimals are
-- `LegacyDec`, in units of 10^-18.
pub record Env : Type 0 where
  pub authority : String
  pub block_id_provider : Option (ℕ → Result (Option BlockId))
  pub last_validators_bonded : Result (List Bool)
  pub unmarshal_vote : List ℕ → Option Vote
  pub block_id_from_proto : BlockId → Option BlockId
  pub block_id_equals : BlockId → BlockId → Bool
  pub vote_sign_bytes : String → Vote → List ℕ
  pub pub_key_address : PubKey → List ℕ
  pub verify_signature : PubKey → List ℕ → List ℕ → Bool
  pub dec_from_str : String → Option ℤ
  pub dec_quo_int64 : ℤ → ℤ → ℤ
  pub bech32_decode : String → Option (List ℕ)
  pub cons_address_string : List ℕ → String
  pub sha256 : List ℕ → List ℕ
  pub base64 : List ℕ → String

-- A handler returns its outcome and the store as it leaves it, also when it fails.
abbrev pub M : Type 0 → Type 0
M A = State → Result A × State

abbrev pub pure : {A : Type 0} → A → M A
pure a s = (ok a, s)

abbrev pub raise : {A : Type 0} → Error → M A
raise e s = (err e, s)

-- A read of the store.
abbrev pub lift : {A : Type 0} → (State → Result A) → M A
lift f s = (f s, s)

-- A write to the store.
abbrev pub put : (State → State) → M (Unit {0})
put f s = (ok tt, f s)

infixl 5 ◌>>=◌
abbrev pub ◌>>=◌ : {A B : Type 0} → M A → (A → M B) → M B
◌>>=◌ first next s = let (r, t) = first s in elim r [ ok a ↦ next a t | err e ↦ (err e, t) ]

infixl 5 ◌>>◌
abbrev pub ◌>>◌ : {B : Type 0} → M (Unit {0}) → M B → M B
first >> rest = first >>= λ _. rest

-- One step of a handler that has come to its end.
pub >>=-step :
    {A B : Type 0} (m : M A) (f : A → M B) (s : State) {a : A} {t : State}
    → m s ≡ (ok a, t)
    → (m >>= f) s ≡ f a t
>>=-step {A} m f s {a} {t} h =
    ap (λ (r : Result A × State). elim r.0 [ ok a ↦ f a r.1 | err e ↦ (err e, r.1) ]) h

pub >>=-stop :
    {A B : Type 0} (m : M A) (f : A → M B) (s : State) {e : Error} {t : State}
    → m s ≡ (err e, t)
    → (m >>= f) s ≡ (err e, t)
>>=-stop {A} m f s {e} {t} h =
    ap (λ (r : Result A × State). elim r.0 [ ok a ↦ f a r.1 | err e ↦ (err e, r.1) ]) h
