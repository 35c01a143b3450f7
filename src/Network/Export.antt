-- ===== src/Network/Export.antt =====
-- `ExportGenesis` of modules/network/genesis.go: the store as a genesis.
pub mod Walk
pub mod Ready
pub mod Restored
use Prim.Native.String.{compare}
use text.Mathlib.Text.{is_lt}
use ev_abci.Prelude.{
  Bool, Get, List, Map, Result, String, [], fail_as, fetch, if◌then◌else◌, ltb_ℤ, ok, panic, ◌∷◌,
}
use ev_abci.Prelude.Outcome.{◌>>=◌, ◌>>◌}
use ev_abci.Network.Types.{Env, GenesisState, State}
use ev_abci.Network.Keeper.{get_params}
use ev_abci.Network.Genesis.{sort_attesters}

-- The values of a walk over a collection; one that cannot be read fails it.
unfoldable pub walked : {K V : Type 0} → Map K V → Result (List V)
walked [] = ok []
walked ((key, value) ∷ entries) = do v ← fetch value; vs ← walked entries; ok (v ∷ vs)

-- The order of keys that are strings.
abbrev pub string_ltb : String → String → Bool
string_ltb s t = is_lt (compare s t)

-- A walk goes by key.
unfoldable pub insert_key : {K V : Type 0} → (K → K → Bool) → K × Get V → Map K V → Map K V
insert_key less entry [] = entry ∷ []
insert_key less entry (other ∷ others) =
    if less other.0 entry.0 then other ∷ insert_key less entry others else entry ∷ other ∷ others

unfoldable pub by_key : {K V : Type 0} → (K → K → Bool) → Map K V → Map K V
unfolding insert_key
by_key less [] = []
by_key less (entry ∷ entries) = insert_key less entry (by_key less entries)

-- `ExportGenesis`.
unfoldable pub export_genesis : Env → State → Result GenesisState
unfolding walked by_key
export_genesis env s = do
  params ← get_params s
  infos ← fail_as panic (walked (by_key string_ltb s.attester_info))
  attesters ← sort_attesters env infos
  bitmaps ← fail_as panic (walked (by_key ltb_ℤ s.stored_attestation_info))
  ok (record {
    params = params;
    validator_indices = [];
    attestation_bitmaps = bitmaps;
    attester_infos = attesters;
  })
