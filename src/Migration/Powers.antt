-- ===== src/Migration/Powers.antt =====
-- A migration to a single sequencer (modules/migrationmngr/keeper/migration.go and abci.go).
use ev_abci.Prelude.{
  Bool-cases, List, [], ap, arith, bytes_eq, false, found, if◌then◌else◌, inl, inr, int_eq, nat_eq,
  ok, pair_eq, refl, same, some, string_eq, to_uint64, ℕ, ◌++◌, ◌+◌, ◌<◌, ◌^◌, ◌∙◌, ◌∷◌, ◌≡◌,
}
use ev_abci.Network.Types.{Ctx, PubKey}
use ev_abci.Migration.{
  Any, EvolveMigration, Sequencer, Store, Validator, ValidatorUpdate, Wiring, choose_updates,
  end_block, migrate_now, migrate_to_sequencer, plan_updates, read_migration, remove_others,
  tm_cons_public_key, unpack_sequencer, update_zero,
}
use ev_abci.Migration.Updates.{
  KeptAre, Removed-powerless, apply-append, apply_updates, has_tm_key, remove_others-Removed,
}
use ev_abci.Migration.Schedule.{is_migrating-window}

abbrev pub AllKeyed : List Validator → Type 0
AllKeyed [] = Unit
AllKeyed (val ∷ vals) = ((key : List ℕ) × (val.tm_pub_key ≡ some key)) × AllKeyed vals

-- The stored sequencer, with its key unpacked.
abbrev pub with_key : Sequencer → Any → PubKey → Sequencer
with_key seq key pk = record seq { consensus_pubkey = some (record key { cached = some pk }) }

-- A migration without attesters whose sequencer has a key that CometBFT knows, for validators that
-- have such keys, one of them at most the sequencer's.
pub record IsReady (w : Wiring) (m : EvolveMigration) (vals : List Validator) : Type 0 where
  pub key : Any
  pub has_key : m.sequencer.consensus_pubkey ≡ some key
  pub pk : PubKey
  pub unpacks : w.unpack_any key ≡ some pk
  pub tm : List ℕ
  pub converts : w.to_tm_public_key pk ≡ some tm
  pub alone : m.attesters ≡ []
  pub listed : w.last_validators ≡ ok vals
  pub keyed : AllKeyed vals
  pub same_keys :
      KeptAre
        (λ v. w.any_equal v.consensus_pubkey (some (record key { cached = some pk })))
        (λ k. same tm k)
        vals

remove_others_total :
    (w : Wiring) (seq : Sequencer) (vals : List Validator)
    → AllKeyed vals
    → (us : List ValidatorUpdate) × (remove_others w seq vals ≡ ok us)
unfolding remove_others update_zero
remove_others_total w seq [] keyed = ([], refl)
remove_others_total w seq (val ∷ vals) ((key, known), keyed) =
    let (us, h) = remove_others_total w seq vals keyed in
    (
      if w.any_equal val.consensus_pubkey seq.consensus_pubkey
          then us
          else record { pub_key = key; power = 0 } ∷ us,
      rw (known, h) refl,
    )

module _ (w : Wiring) (m : EvolveMigration) (vals : List Validator) (ready : IsReady w m vals) where
  abbrev seq : Sequencer
  seq = with_key m.sequencer ready.key ready.pk

  abbrev seq_update : ValidatorUpdate
  seq_update = record { pub_key = ready.tm; power = 1 }

  plan_lem :
      {us : List ValidatorUpdate}
      → remove_others w seq vals ≡ ok us
      → plan_updates w m vals ≡ ok (seq, us ++ (seq_update ∷ []))
  unfolding plan_updates choose_updates migrate_to_sequencer unpack_sequencer tm_cons_public_key
  plan_lem {us} h =
      rw
        (ready.has_key, ready.unpacks, ready.alone, ready.converts, h, plan_updates, choose_updates)
        refl

  powers_lem :
      (us : List ValidatorUpdate) (power : List ℕ → ℕ)
      → remove_others w seq vals ≡ ok us
      → ((k : List ℕ) → has_tm_key k vals ≡ false → power k ≡ 0)
      → (k : List ℕ)
      → apply_updates (us ++ (seq_update ∷ [])) power k ≡ (if same ready.tm k then 1 else 0)
  powers_lem us power h outside k =
      ap (λ (f : List ℕ → ℕ). f k) (apply-append us (seq_update ∷ []) power)
      ∙ elim (Bool-cases (same ready.tm k)) [
        | inl hit ↦ rw hit refl
        | inr miss ↦ rw miss (
            Removed-powerless _ (λ j. same ready.tm j) vals us power k
              (remove_others-Removed w seq vals h) ready.same_keys miss (outside k))
      ]

-- At its start, with an end that does not wrap, a migration without attesters succeeds where the
-- sequencer's key unpacks to one that CometBFT knows, the last validators can be listed and have
-- such keys, and only those with that key equal the sequencer's: it stores the sequencer with its
-- key unpacked, and once CometBFT has applied the updates to powers that only the last validators
-- had, the sequencer has power one and every other key none.
pub end_block_sequencer :
    (w : Wiring) (ctx : Ctx) (m : EvolveMigration) (vals : List Validator) (s : Store)
    (power : List ℕ → ℕ)
    → (ready : IsReady w m vals) → s.migration ≡ found m
    → to_uint64 ctx.block_height ≡ m.block_height
    → m.block_height + 1 < 2 ^ 64
    → ((k : List ℕ) → has_tm_key k vals ≡ false → power k ≡ 0)
    → (us : List ValidatorUpdate) × (end_block w ctx s
        ≡ (ok us, record s { sequencer = found (with_key m.sequencer ready.key ready.pk) }))
      × ((k : List ℕ) → apply_updates us power k ≡ (if same ready.tm k then 1 else 0))
unfolding end_block migrate_now read_migration
end_block_sequencer w ctx m vals s power ready stored at_start small outside =
    let (us, h) =
      remove_others_total w (with_key m.sequencer ready.key ready.pk) vals ready.keyed in
    (
      us ++ (seq_update w m vals ready ∷ []),
      ground (
        arith,
        is_migrating-window ctx m.block_height s (m, stored, refl) small,
        at_start,
        stored,
        ready.listed,
        plan_lem w m vals ready h,
      ),
      powers_lem w m vals ready us power h outside,
    )
