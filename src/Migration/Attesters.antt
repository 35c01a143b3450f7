-- ===== src/Migration/Attesters.antt =====
-- The other ends of a block during a migration (modules/migrationmngr/keeper/migration.go and abci.go).
use ev_abci.Prelude.{
  List, String, [], arith, bytes_eq, contains, err, found, if◌then◌else◌, int_eq, invalid_request,
  nat_eq, none, ok, pair_eq, plain, refl, some, string_eq, to_uint64, ℕ, ◌+◌, ◌<◌, ◌^◌, ◌∷◌, ◌≡◌,
  ◌≢◌,
}
use ev_abci.Network.Types.{Ctx}
use ev_abci.Migration.{
  Any, Attester, EvolveMigration, Sequencer, Store, Validator, ValidatorUpdate, Wiring,
  add_attesters, attester_pub_keys, choose_updates, end_block, migrate_now, migrate_to_attesters,
  plan_updates, read_migration, remove_non_attesters, tm_cons_public_key, unpack_sequencer,
  update_zero,
}
use ev_abci.Migration.Schedule.{Starts, is_migrating-window}
use ev_abci.Migration.Powers.{AllKeyed}

-- At every height but the start of the stored migration, whose end does not wrap, the end of a
-- block changes no power and nothing in the store, where the staking module can list the last
-- validators.
pub end_block_idle :
    (w : Wiring) (ctx : Ctx) (start : ℕ) (vals : List Validator) (s : Store)
    → Starts start s
    → start + 1 < 2 ^ 64
    → w.last_validators ≡ ok vals
    → to_uint64 ctx.block_height ≢ start
    → end_block w ctx s ≡ (ok [], s)
unfolding end_block read_migration
end_block_idle w ctx start vals s (m, stored, e) small listed other =
    ground (arith, is_migrating-window ctx start s (m, stored, e) small, stored, listed, other)

remove_non_attesters_total :
    (w : Wiring) (keys : List String) (vals : List Validator)
    → AllKeyed vals
    → (us : List ValidatorUpdate) × (remove_non_attesters w keys vals ≡ ok us)
unfolding remove_non_attesters update_zero
remove_non_attesters_total w keys [] keyed = ([], refl)
remove_non_attesters_total w keys (val ∷ vals) ((key, known), keyed) =
    let (us, h) = remove_non_attesters_total w keys vals keyed in
    (
      if contains (w.any_string val.consensus_pubkey) keys
          then us
          else record { pub_key = key; power = 0 } ∷ us,
      ground (arith, known, h),
    )

add_attesters_uncached :
    (w : Wiring) (a : Attester) (attesters : List Attester) (key : Any)
    → a.consensus_pubkey ≡ some key
    → key.cached ≡ none
    → add_attesters w (a ∷ attesters) ≡ err plain
unfolding add_attesters tm_cons_public_key
add_attesters_uncached w a attesters key has_key uncached = rw (has_key, uncached) refl

migrate_uncached :
    (w : Wiring) (m : EvolveMigration) (a : Attester) (attesters : List Attester) (key : Any)
    (vals : List Validator)
    → m.attesters ≡ a ∷ attesters
    → a.consensus_pubkey ≡ some key
    → key.cached ≡ none
    → AllKeyed vals
    → migrate_to_attesters w m vals ≡ err plain
unfolding migrate_to_attesters
migrate_uncached w m a attesters key vals some_attesters has_key uncached keyed =
    let (us, h) = remove_non_attesters_total w (attester_pub_keys w (a ∷ attesters)) vals keyed in
    rw (some_attesters, migrate_to_attesters)
      (rw (h, add_attesters_uncached w a attesters key has_key uncached) refl)

plan_uncached :
    (w : Wiring) (m : EvolveMigration) (a : Attester) (attesters : List Attester) (key : Any)
    (vals : List Validator) {seq : Sequencer}
    → m.attesters ≡ a ∷ attesters
    → a.consensus_pubkey ≡ some key
    → key.cached ≡ none
    → AllKeyed vals
    → unpack_sequencer w m.sequencer ≡ ok seq
    → plan_updates w m vals ≡ err invalid_request
unfolding plan_updates choose_updates
plan_uncached w m a attesters key vals {seq} some_attesters has_key uncached keyed unpacked =
    rw (unpacked, some_attesters, plan_updates, choose_updates)
      (rw
        (migrate_uncached w (record m { sequencer = seq }) a attesters key vals some_attesters
          has_key uncached keyed)
        refl)

-- At its start, with an end that does not wrap, a migration with attesters fails and changes
-- nothing where the first attester's key is not unpacked, though the sequencer's key can be
-- unpacked and every last validator has a key that CometBFT knows.
pub end_block_uncached :
    (w : Wiring) (ctx : Ctx) (m : EvolveMigration) (a : Attester) (attesters : List Attester)
    (key : Any) (vals : List Validator) (s : Store) {seq : Sequencer}
    → s.migration ≡ found m
    → m.attesters ≡ a ∷ attesters
    → a.consensus_pubkey ≡ some key
    → key.cached ≡ none
    → to_uint64 ctx.block_height ≡ m.block_height
    → m.block_height + 1 < 2 ^ 64
    → w.last_validators ≡ ok vals
    → AllKeyed vals
    → unpack_sequencer w m.sequencer ≡ ok seq
    → end_block w ctx s ≡ (err invalid_request, s)
unfolding end_block migrate_now read_migration
end_block_uncached w ctx m a attesters key vals s stored some_attesters has_key uncached at_start
      small listed keyed unpacked =
    ground (
      arith,
      is_migrating-window ctx m.block_height s (m, stored, refl) small,
      at_start,
      stored,
      listed,
      plan_uncached w m a attesters key vals some_attesters has_key uncached keyed unpacked,
    )
