-- ===== src/Migration.antt =====
-- modules/migrationmngr: the move of a chain to a sequencer or to attesters.
pub mod Schedule
pub mod Updates
pub mod Powers
pub mod Attesters
mod Tests
use ev_abci.Prelude.{
  Bool, Error, Get, List, Option, Result, String, [], bytes_eq, contains, err, fail_as, failed,
  false, fetch, found, if◌then◌else◌, int_eq, invalid_request, invalid_signer, leb, logic, ltb,
  missing, nat_eq, none, not, ok, or_fail, pair_eq, panic, plain, same, some, string_eq, to_uint64,
  wrap64, ℕ, ◌&&◌, ◌++◌, ◌+◌, ◌==◌, ◌||◌, ◌∷◌,
}
use ev_abci.Prelude.Outcome.{◌>>=◌, ◌>>◌}
use ev_abci.Network.Types.{Ctx, PubKey}

-- A packed value; `cached` is the public key that it has been unpacked to.
pub record Any : Type 0 where
  pub type_url : String
  pub value : List ℕ
  pub cached : Option PubKey

-- A nil pointer is `none`.
pub record Sequencer : Type 0 where
  pub name : String
  pub consensus_pubkey : Option Any

pub record Attester : Type 0 where
  pub name : String
  pub consensus_pubkey : Option Any

pub record EvolveMigration : Type 0 where
  pub block_height : ℕ
  pub sequencer : Sequencer
  pub attesters : List Attester

pub record MsgMigrateToEvolve : Type 0 where
  pub authority : String
  pub block_height : ℕ
  pub sequencer : Sequencer
  pub attesters : List Attester

-- The parts of a staking validator that the module reads; without a key that CometBFT knows,
-- `tm_pub_key` is `none`.
pub record Validator : Type 0 where
  pub moniker : String
  pub consensus_pubkey : Option Any
  pub tm_pub_key : Option (List ℕ)

pub record ValidatorUpdate : Type 0 where
  pub pub_key : List ℕ
  pub power : ℕ

-- The items of the keeper; `MigrationStep` is never read or written.
pub record Store : Type 0 where
  pub sequencer : Get Sequencer
  pub migration : Get EvolveMigration

-- What the keeper is wired with. `recode` is what a read gives back of a stored migration, and
-- `any_string` and `any_equal` are `Any.String` and `Any.Equal`.
pub record Wiring : Type 0 where
  pub authority : String
  pub last_validators : Result (List Validator)
  pub recode : EvolveMigration → EvolveMigration
  pub unpack_any : Any → Option PubKey
  pub to_tm_public_key : PubKey → Option (List ℕ)
  pub any_string : Option Any → String
  pub any_equal : Option Any → Option Any → Bool

-- `TmConsPublicKey` of a sequencer and of an attester.
unfoldable pub tm_cons_public_key : Wiring → Option Any → Result (List ℕ)
tm_cons_public_key w none = err panic
tm_cons_public_key w (some key) = do
  pk ← or_fail key.cached plain
  or_fail (w.to_tm_public_key pk) plain

-- `if err != nil { return kind }`, which a panic passes by.
abbrev pub wrap_as {ℓ} : {A : Type ℓ} → Error → Result A → Result A
wrap_as e (ok a) = ok a
wrap_as e (err cause) = elim cause [ panic ↦ err panic | _ ↦ err e ]

-- `Sequencer.UnpackInterfaces`.
unfoldable pub unpack_sequencer : Wiring → Sequencer → Result Sequencer
unpack_sequencer w seq = elim seq.consensus_pubkey [
  | none ↦ ok seq
  | some key ↦ or_fail (w.unpack_any key) plain >>= λ pk.
      ok (record seq { consensus_pubkey = some (record key { cached = some pk }) })
]

-- `Keeper.IsMigrating`: the start, the end, and whether the height lies between them.
unfoldable pub is_migrating : Ctx → Store → ℕ × ℕ × Bool
is_migrating ctx s = elim s.migration [
  | found migration ↦ (
    migration.block_height,
    wrap64 (migration.block_height + 1),
    leb migration.block_height (to_uint64 ctx.block_height)
        && leb (to_uint64 ctx.block_height) (wrap64 (migration.block_height + 1)),
  )
  | missing ↦ (0, 0, false)
  | failed ↦ (0, 0, false)
]

-- The test of `PreBlock`.
unfoldable pub should_halt : Ctx → Store → Bool
should_halt ctx s =
    let (start, end, _) = is_migrating ctx s in
    ltb 0 end && to_uint64 ctx.block_height == wrap64 (end + 1)

-- `PreBlock`.
unfoldable pub pre_block : Ctx → Store → Result (Unit {0}) × Store
pre_block ctx s =
    if should_halt ctx s then (err logic, record s { migration = missing }) else (ok tt, s)

-- `ABCIValidatorUpdateZero`.
unfoldable pub update_zero : Validator → Result ValidatorUpdate
update_zero val = do key ← or_fail val.tm_pub_key panic; ok (record { pub_key = key; power = 0 })

-- The loop of `migrateToSequencer`.
unfoldable pub remove_others : Wiring → Sequencer → List Validator → Result (List ValidatorUpdate)
remove_others w seq [] = ok []
remove_others w seq (val ∷ vals) =
    let others = remove_others w seq vals in
    do
      power_update ← update_zero val
      updates ← others
      ok (
          if w.any_equal val.consensus_pubkey seq.consensus_pubkey
          then updates
          else power_update ∷ updates)

-- `migrateToSequencer`.
unfoldable pub migrate_to_sequencer :
    Wiring → EvolveMigration → List Validator → Result (List ValidatorUpdate)
migrate_to_sequencer w migration validators = do
  pk ← tm_cons_public_key w migration.sequencer.consensus_pubkey
  removed ← remove_others w migration.sequencer validators
  ok (removed ++ (record { pub_key = pk; power = 1 } ∷ []))

-- The keys of `attesterPubKeys`.
unfoldable pub attester_pub_keys : Wiring → List Attester → List String
attester_pub_keys w [] = []
attester_pub_keys w (attester ∷ attesters) =
    w.any_string attester.consensus_pubkey ∷ attester_pub_keys w attesters

-- The second loop of `migrateToAttesters`.
unfoldable pub remove_non_attesters :
    Wiring → List String → List Validator → Result (List ValidatorUpdate)
remove_non_attesters w keys [] = ok []
remove_non_attesters w keys (val ∷ vals) =
    let others = remove_non_attesters w keys vals in
    if contains (w.any_string val.consensus_pubkey) keys
    then others
    else (update_zero val >>= λ power_update. others >>= λ updates. ok (power_update ∷ updates))

-- The third loop of `migrateToAttesters`.
unfoldable pub add_attesters : Wiring → List Attester → Result (List ValidatorUpdate)
add_attesters w [] = ok []
add_attesters w (attester ∷ attesters) =
    let others = add_attesters w attesters in
    do
      pk ← tm_cons_public_key w attester.consensus_pubkey
      updates ← others
      ok (record { pub_key = pk; power = 1 } ∷ updates)

-- `migrateToAttesters`.
unfoldable pub migrate_to_attesters :
    Wiring → EvolveMigration → List Validator → Result (List ValidatorUpdate)
migrate_to_attesters w migration validators = do
  removed ← remove_non_attesters w (attester_pub_keys w migration.attesters) validators
  added ← add_attesters w migration.attesters
  ok (removed ++ added)

-- The switch of `migrateNow`.
unfoldable pub choose_updates :
    Wiring → EvolveMigration → List Validator → Result (List ValidatorUpdate)
choose_updates w migration validators = elim migration.attesters [
  | [] ↦ wrap_as invalid_request (migrate_to_sequencer w migration validators)
  | attester ∷ attesters ↦ wrap_as invalid_request (migrate_to_attesters w migration validators)
]

-- The updates of `migrateNow`, with the unpacked sequencer.
unfoldable pub plan_updates :
    Wiring → EvolveMigration → List Validator → Result (Sequencer × List ValidatorUpdate)
plan_updates w migration validators = do
  seq ← wrap_as invalid_request (unpack_sequencer w migration.sequencer)
  updates ← choose_updates w (record migration { sequencer = seq }) validators
  ok (seq, updates)

-- `migrateNow`.
unfoldable pub migrate_now :
    Wiring → EvolveMigration → List Validator → Store → Result (List ValidatorUpdate) × Store
migrate_now w migration validators s = elim (plan_updates w migration validators) [
  | ok (seq, updates) ↦ (ok updates, record s { sequencer = found seq })
  | err e ↦ (err e, s)
]

-- What `EndBlock` reads of a migration in progress.
unfoldable pub read_migration : Wiring → Store → Result (EvolveMigration × List Validator)
read_migration w s = do
  migration ← fail_as logic (fetch s.migration)
  validators ← w.last_validators
  ok (migration, validators)

-- `EndBlock`.
unfoldable pub end_block : Wiring → Ctx → Store → Result (List ValidatorUpdate) × Store
end_block w ctx s =
    let (start, end, migrating) = is_migrating ctx s in
    if not migrating || ltb (to_uint64 ctx.block_height) start
    then (ok [], s)
    else elim (read_migration w s) [
      | ok (migration, validators) ↦
          if to_uint64 ctx.block_height == start
          then migrate_now w migration validators s
          else (ok [], s)
      | err e ↦ (err e, s)
    ]

-- `MigrateToEvolve`.
unfoldable pub migrate_to_evolve :
    Wiring → Ctx → MsgMigrateToEvolve → Store → Result (Unit {0}) × Store
migrate_to_evolve w ctx msg s =
    if not (same w.authority msg.authority)
    then (err invalid_signer, s)
    else if ltb msg.block_height (to_uint64 ctx.block_height)
    then (err invalid_request, s)
    else (
      ok tt,
      record s {
        migration = found (
            w.recode (record {
              block_height = msg.block_height;
              sequencer = msg.sequencer;
              attesters = msg.attesters;
            }));
      },
    )

-- The query `IsMigrating`.
unfoldable pub query_is_migrating : Ctx → Store → Bool × ℕ × ℕ
query_is_migrating ctx s =
    let (start, end, migrating) = is_migrating ctx s in (migrating, start, end)

-- The query `Sequencer`.
unfoldable pub query_sequencer : Ctx → Store → Result Sequencer
query_sequencer ctx s =
    let (start, end, migrating) = is_migrating ctx s in
    if migrating then err logic else fail_as logic (fetch s.sequencer)

unfoldable pub attesters_of : List Validator → List Attester
attesters_of [] = []
attesters_of (val ∷ vals) =
    record { name = val.moniker; consensus_pubkey = val.consensus_pubkey } ∷ attesters_of vals

-- The query `Attesters`.
unfoldable pub query_attesters : Wiring → Result (List Attester)
query_attesters w = fail_as logic w.last_validators >>= λ vals. ok (attesters_of vals)
