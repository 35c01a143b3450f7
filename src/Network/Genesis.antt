-- ===== src/Network/Genesis.antt =====
-- modules/network/genesis.go: the first store of the module.
pub mod Attesters
pub mod Setup
pub mod Start
mod Tests
use ev_abci.Prelude.{
  Bool, List, Result, String, [], bytes_eq, contains, err, false, fetch, get, if◌then◌else◌, int_eq,
  leb, length, ltb, missing, nat_eq, none, not, ok, or_fail, pair_eq, panic, plain, require, same,
  set, some, string_eq, suc, true, ℕ, ℤ, ◌%◌, ◌&&◌, ◌==◌, ◌^◌, ◌||◌, ◌∷◌,
}
use ev_abci.Prelude.Outcome.{◌>>=◌, ◌>>◌}
use ev_abci.Network.Types.{
  AttestationBitmap, AttesterInfo, Env, GenesisState, M, State, get_pub_key,
}
use ev_abci.Network.Keeper.{
  set_attestation_bitmap, set_attester_info, set_attester_set_member, set_params,
  set_validator_index,
}

-- The store before the genesis.
abbrev pub empty_store : State
empty_store = record {
  validator_index = [];
  validator_power = [];
  attestation_bitmap = [];
  epoch_bitmap = [];
  attester_set = [];
  attester_info = [];
  signatures = [];
  stored_attestation_info = [];
  last_attested_height = missing;
  params = missing;
  events = [];
}

-- One round of the first loop of `InitGenesis`: the attester with its address as the module prints
-- it, which no attester before it has.
unfoldable pub normalize_attester : Env → List String → AttesterInfo → Result AttesterInfo
normalize_attester env seen info = do
  pk ← get_pub_key info
  raw_addr ← or_fail (env.bech32_decode info.consensus_address) plain
  require (same raw_addr (env.pub_key_address pk)) plain
  require (not (contains (env.cons_address_string (env.pub_key_address pk)) seen)) plain
  ok (record info { consensus_address = env.cons_address_string (env.pub_key_address pk) })

-- The first loop of `InitGenesis`.
unfoldable pub normalize_attesters :
    Env → List String → List AttesterInfo → Result (List AttesterInfo)
unfolding normalize_attester
normalize_attesters env seen [] = ok []
normalize_attesters env seen (info ∷ infos) = do
  attester ← normalize_attester env seen info
  attesters ← normalize_attesters env (attester.consensus_address ∷ seen) infos
  ok (attester ∷ attesters)

-- `bytes.Compare(a, b) < 0`.
unfoldable pub bytes_ltb : List ℕ → List ℕ → Bool
bytes_ltb [] [] = false
bytes_ltb [] (y ∷ ys) = true
bytes_ltb (x ∷ xs) [] = false
bytes_ltb (x ∷ xs) (y ∷ ys) = ltb x y || (x == y && bytes_ltb xs ys)

-- The bytes by which attesters are ordered; without a public key, none.
unfoldable pub sort_key : Env → AttesterInfo → List ℕ
sort_key env info = elim info.pubkey [ some pk ↦ env.pub_key_address pk | none ↦ [] ]

unfoldable pub has_pub_key : AttesterInfo → Bool
has_pub_key info = elim info.pubkey [ some pk ↦ true | none ↦ false ]

abbrev pub all_have_pub_key : List AttesterInfo → Bool
all_have_pub_key [] = true
all_have_pub_key (info ∷ infos) = has_pub_key info && all_have_pub_key infos

unfoldable pub insert_attester : Env → AttesterInfo → List AttesterInfo → List AttesterInfo
insert_attester env info [] = info ∷ []
insert_attester env info (other ∷ others) =
    if bytes_ltb (sort_key env other) (sort_key env info)
    then other ∷ insert_attester env info others
    else info ∷ other ∷ others

unfoldable pub order_attesters : Env → List AttesterInfo → List AttesterInfo
order_attesters env [] = []
order_attesters env (info ∷ infos) = insert_attester env info (order_attesters env infos)

-- `sort.Slice` by address. Comparing an attester without a public key panics.
unfoldable pub sort_attesters : Env → List AttesterInfo → Result (List AttesterInfo)
sort_attesters env infos =
    if leb (length infos) 1 || all_have_pub_key infos
    then ok (order_attesters env infos)
    else err panic

-- One round of the second loop, with the conversion of the index to uint16.
unfoldable pub register_attester : ℕ → AttesterInfo → State → State
register_attester idx info s = set_validator_index info.consensus_address (idx % 2 ^ 16) 1 (
    set_attester_set_member info.consensus_address
      (set_attester_info info.consensus_address info s))

-- The second loop of `InitGenesis`.
unfoldable pub register_attesters : ℕ → List AttesterInfo → State → State
register_attesters idx [] s = s
register_attesters idx (info ∷ infos) s =
    register_attesters (suc idx) infos (register_attester idx info s)

-- `setSoftConfirmed`.
unfoldable pub set_soft_confirmed : ℤ → M (Unit {0})
set_soft_confirmed height s = elim (fetch (get height s.stored_attestation_info)) [
  | ok ab ↦ (
    ok tt,
    record s {
      stored_attestation_info =
          set height (record ab { soft_confirmed = true }) s.stored_attestation_info;
    },
  )
  | err e ↦ (err e, s)
]

-- The store after the two writes of one round of the third loop.
unfoldable pub store_bitmap : AttestationBitmap → State → State
store_bitmap ab s = record (set_attestation_bitmap ab.height ab.bitmap s) {
  stored_attestation_info = set ab.height ab s.stored_attestation_info;
}

-- The third loop of `InitGenesis`.
unfoldable pub load_bitmaps : List AttestationBitmap → M (Unit {0})
load_bitmaps [] s = (ok tt, s)
load_bitmaps (ab ∷ abs) s =
    let (r, t) =
      if ab.soft_confirmed
      then set_soft_confirmed ab.height (store_bitmap ab s)
      else (ok tt, store_bitmap ab s) in
    elim r [ ok u ↦ load_bitmaps abs t | err e ↦ (err e, t) ]

-- The first loop and the sort.
unfoldable pub prepare_attesters : Env → List AttesterInfo → Result (List AttesterInfo)
prepare_attesters env infos = normalize_attesters env [] infos >>= sort_attesters env

-- `InitGenesis`.
unfoldable pub init_genesis : Env → GenesisState → M (Unit {0})
init_genesis env gs s = elim (prepare_attesters env gs.attester_infos) [
  | ok attesters ↦
      load_bitmaps gs.attestation_bitmaps (register_attesters 0 attesters (set_params gs.params s))
  | err e ↦ (err e, set_params gs.params s)
]
