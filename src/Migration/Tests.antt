-- ===== src/Migration/Tests.antt =====
-- A migration of two validators (modules/migrationmngr).
use ev_abci.Prelude.{
  Bool, List, Option, [], arith, bytes_beq, bytes_eq, err, false, found, if◌then◌else◌, int_eq,
  invalid_request, logic, missing, nat_eq, none, ok, pair_eq, pos, refl, same, some, string_eq, sym,
  to_uint64, true, true_ne, ℕ, ◌+◌, ◌==◌, ◌||◌, ◌∷◌, ◌≡◌,
}
use ev_abci.Network.Types.{Ctx, PubKey}
use ev_abci.Migration.{
  Any, Attester, EvolveMigration, MsgMigrateToEvolve, Store, Validator, ValidatorUpdate, Wiring,
  end_block, is_migrating, migrate_to_evolve, pre_block, query_is_migrating, should_halt,
  unpack_sequencer,
}
use ev_abci.Migration.Schedule.{
  Schedules, Starts, is_migrating-window, migrate_to_evolve-cases, migrate_to_evolve-schedule,
  pre_block-halts, requested,
}
use ev_abci.Migration.Updates.{apply_updates, has_tm_key}
use ev_abci.Migration.Powers.{IsReady, end_block_sequencer, with_key}
use ev_abci.Migration.Attesters.{end_block_uncached}

-- A packed key of one byte, as a read of the store gives it.
abbrev packed : ℕ → Any
packed b = record { type_url = "key"; value = b ∷ []; cached = none }

abbrev key_of : ℕ → PubKey
key_of b = record { type_url = "key"; key = b ∷ [] }

abbrev uncached : Option Any → Option Any
uncached none = none
uncached (some key) = some (record key { cached = none })

abbrev uncached_attesters : List Attester → List Attester
uncached_attesters [] = []
uncached_attesters (a ∷ others) =
    record a { consensus_pubkey = uncached a.consensus_pubkey } ∷ uncached_attesters others

abbrev same_any : Option Any → Option Any → Bool
same_any (some a) (some b) = bytes_beq a.value b.value
same_any none none = true
same_any _ _ = false

abbrev two_validators : List Validator
two_validators =
    record { moniker = "one"; consensus_pubkey = some (packed 1); tm_pub_key = some (1 ∷ []) }
    ∷ record { moniker = "two"; consensus_pubkey = some (packed 2); tm_pub_key = some (2 ∷ []) }
    ∷ []

abbrev chain : Wiring
chain = record {
  authority = "gov";
  last_validators = ok two_validators;
  recode = λ m. record m {
    sequencer = record m.sequencer { consensus_pubkey = uncached m.sequencer.consensus_pubkey };
    attesters = uncached_attesters m.attesters;
  };
  unpack_any = λ a. some (record { type_url = a.type_url; key = a.value });
  to_tm_public_key = λ pk. some pk.key;
  any_string = λ a. "any";
  any_equal = same_any;
}

abbrev header : ℕ → Ctx
header n = record { block_height = pos n; chain_id = "chain" }

-- A message that makes the first validator the sequencer at height 10.
abbrev to_first : List Attester → MsgMigrateToEvolve
to_first attesters = record {
  authority = "gov";
  block_height = 10;
  sequencer = record { name = "one"; consensus_pubkey = some (packed 1) };
  attesters = attesters;
}

abbrev empty : Store
empty = record { sequencer = missing; migration = missing }

abbrev scheduled : List Attester → Store
scheduled attesters = (migrate_to_evolve chain (header 8) (to_first attesters) empty).1

to_uint64_ten : to_uint64 (pos 10) ≡ 10
unfolding to_uint64
to_uint64_ten = refl

schedule_ok : migrate_to_evolve chain (header 8) (to_first []) empty ≡ (ok tt, scheduled [])
unfolding migrate_to_evolve to_uint64
schedule_ok = refl

scheduled-Starts : Starts 10 (scheduled [])
unfolding migrate_to_evolve to_uint64
scheduled-Starts = (requested (to_first []), refl, refl)

is_migrating-window_example :
    is_migrating (header 10) (scheduled [])
    ≡ (10, 10 + 1, to_uint64 (pos 10) == 10 || to_uint64 (pos 10) == 10 + 1)
is_migrating-window_example =
    is_migrating-window (header 10) 10 (scheduled []) scheduled-Starts (omega arith)

pre_block-halts_example : pre_block (header 12) (scheduled []) ≡ (
    if to_uint64 (pos 12) == 10 + 2
    then (err logic, record (scheduled []) { migration = missing })
    else (ok tt, scheduled []))
pre_block-halts_example =
    pre_block-halts (header 12) 10 (scheduled []) scheduled-Starts (omega arith)

abbrev stopped : Store
stopped = (pre_block (header 12) (scheduled [])).1

halts_at_twelve : pre_block (header 12) (scheduled []) ≡ (err logic, stopped)
unfolding pre_block should_halt is_migrating migrate_to_evolve to_uint64
halts_at_twelve = refl

migrate_to_evolve-cases_example : Schedules chain (header 8) (to_first []) empty
migrate_to_evolve-cases_example = migrate_to_evolve-cases chain (header 8) (to_first []) empty

migrate_to_evolve-schedule_example :
    (query_is_migrating (header 11) (scheduled [])
      ≡ (to_uint64 (pos 11) == 10 || to_uint64 (pos 11) == 10 + 1, 10, 10 + 1))
    × (pre_block (header 11) (scheduled []) ≡ (
        if to_uint64 (pos 11) == 10 + 2
        then (err logic, record (scheduled []) { migration = missing })
        else (ok tt, scheduled [])))
migrate_to_evolve-schedule_example =
    migrate_to_evolve-schedule chain (header 8) (header 11) (to_first []) empty (λ m. refl)
      (omega arith) schedule_ok

abbrev planned : EvolveMigration
planned = requested (to_first [])

some_key : {a b : List ℕ} → some a ≡ some b → a ≡ b
some_key h = cc

key_is : {a b : List ℕ} → some a ≡ some b → same a b ≡ true
key_is {a} {b} h = (bytes_eq.beq_iff a b).1 (some_key h)

planned-IsReady : IsReady chain planned two_validators
planned-IsReady = record {
  key = packed 1;
  has_key = refl;
  pk = key_of 1;
  unpacks = refl;
  tm = 1 ∷ [];
  converts = refl;
  alone = refl;
  listed = refl;
  keyed = ((1 ∷ [], refl), ((2 ∷ [], refl), tt));
  same_keys = (λ kept key e. key_is e, (λ kept key e. absurd (true_ne (sym kept)), tt));
}

-- Both validators have power five before the migration.
abbrev powers : List ℕ → ℕ
powers k = if has_tm_key k two_validators then 5 else 0

scheduled-planned : (scheduled []).migration ≡ found planned
unfolding migrate_to_evolve to_uint64
scheduled-planned = refl

end_block_sequencer_example :
    (us : List ValidatorUpdate) × (end_block chain (header 10) (scheduled []) ≡ (
      ok us,
      record (scheduled []) {
        sequencer = found (with_key planned.sequencer (packed 1) (key_of 1));
      },
    ))
    × ((k : List ℕ) → apply_updates us powers k ≡ (if same (1 ∷ []) k then 1 else 0))
unfolding planned-IsReady
end_block_sequencer_example =
    end_block_sequencer chain (header 10) planned two_validators (scheduled []) powers
      planned-IsReady scheduled-planned to_uint64_ten (omega arith) (λ k absent. rw absent refl)

-- The second validator as the only attester.
abbrev second : Attester
second = record { name = "two"; consensus_pubkey = some (packed 2) }

abbrev with_attester : EvolveMigration
with_attester = requested (to_first (second ∷ []))

stored_attester : (scheduled (second ∷ [])).migration ≡ found with_attester
unfolding migrate_to_evolve to_uint64
stored_attester = refl

unpacked_first :
    unpack_sequencer chain with_attester.sequencer
    ≡ ok (with_key with_attester.sequencer (packed 1) (key_of 1))
unfolding unpack_sequencer
unpacked_first = refl

end_block_uncached_example :
    end_block chain (header 10) (scheduled (second ∷ []))
    ≡ (err invalid_request, scheduled (second ∷ []))
end_block_uncached_example =
    end_block_uncached chain (header 10) with_attester second [] (packed 2) two_validators
      (scheduled (second ∷ [])) stored_attester refl refl refl to_uint64_ten (omega arith) refl
      ((1 ∷ [], refl), ((2 ∷ [], refl), tt)) unpacked_first
