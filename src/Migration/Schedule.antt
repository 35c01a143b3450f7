-- ===== src/Migration/Schedule.antt =====
-- When a migration acts (modules/migrationmngr/keeper/abci.go and keeper.go).
use mathlib.Core.Path.{subst}
use ev_abci.Prelude.{
  Bool, Bool-cases, Error, Result, ap, arith, bytes_eq, err, false, found, if◌then◌else◌, inl, inr,
  int_eq, invalid_request, invalid_signer, leb, logic, ltb, ltb→lt, missing, nat_eq, ok, pair_eq,
  refl, same, string_eq, sym, to_uint64, true, true_ne, wrap64, ℕ, ◌&&◌, ◌+◌, ◌<◌, ◌==◌, ◌^◌, ◌||◌,
  ◌∙◌, ◌≡◌, ◌≤◌, ◌⊎◌,
}
use ev_abci.Prelude.Outcome.{ok_ne_err}
use ev_abci.Network.Types.{Ctx}
use ev_abci.Migration.{
  EvolveMigration, MsgMigrateToEvolve, Store, Wiring, is_migrating, migrate_to_evolve, pre_block,
  query_is_migrating, should_halt,
}

-- A store with a migration that starts at a height.
abbrev pub Starts : ℕ → Store → Type 0
Starts start s = (m : EvolveMigration) × (s.migration ≡ found m) × (m.block_height ≡ start)

window : (h b : ℕ) → (leb b h && leb h (b + 1)) ≡ (h == b || h == b + 1)
window h b = ground arith

-- A migration whose end does not wrap is in progress exactly at its start and at the height after.
pub is_migrating-window :
    (ctx : Ctx) (start : ℕ) (s : Store)
    → Starts start s
    → start + 1 < 2 ^ 64
    → is_migrating ctx s ≡ (
      start,
      start + 1,
      to_uint64 ctx.block_height == start || to_uint64 ctx.block_height == start + 1,
    )
unfolding is_migrating
is_migrating-window ctx start s (m, stored, e) small =
    let no_wrap : wrap64 (m.block_height + 1) ≡ m.block_height + 1 = omega arith in
    rw (stored, is_migrating, no_wrap, e, window (to_uint64 ctx.block_height) start) refl

-- For a stored migration whose start is below 2^64 - 2, `PreBlock` halts the chain exactly two
-- heights after the start, and removes the migration then; at any other height it does nothing.
pub pre_block-halts :
    (ctx : Ctx) (start : ℕ) (s : Store)
    → Starts start s
    → start + 2 < 2 ^ 64
    → pre_block ctx s ≡ (
        if to_uint64 ctx.block_height == start + 2
        then (err logic, record s { migration = missing })
        else (ok tt, s))
unfolding pre_block should_halt is_migrating
pre_block-halts ctx start s (m, stored, e) small =
    let no_wrap : wrap64 (m.block_height + 1) ≡ m.block_height + 1 = omega arith in
    let no_wrap' : wrap64 (m.block_height + 1 + 1) ≡ m.block_height + 1 + 1 = omega arith in
    ground (arith, no_wrap, no_wrap', stored, e)

halted :
    (b : Bool) (s : Store) {t : Store}
    → ◌≡◌ {A = Result (Unit {0}) × Store}
        (if b then (err logic, record s { migration = missing }) else (ok tt, s))
        (err logic, t)
    → t ≡ record s { migration = missing }
halted true s h = ap (λ (r : Result (Unit {0}) × Store). r.1) (sym h)
halted false s h = absurd (ok_ne_err (ap (λ (r : Result (Unit {0}) × Store). r.0) h))

-- After a block at which `PreBlock` halts, no later one halts.
pub pre_block_once :
    (ctx ctx' : Ctx) (s : Store) {t : Store}
    → pre_block ctx s ≡ (err logic, t)
    → pre_block ctx' t ≡ (ok tt, t)
unfolding pre_block should_halt is_migrating
pre_block_once ctx ctx' s {t} h = rw (halted (should_halt ctx s) s h) refl

-- The migration that a message asks for.
abbrev pub requested : MsgMigrateToEvolve → EvolveMigration
requested msg = record {
  block_height = msg.block_height;
  sequencer = msg.sequencer;
  attesters = msg.attesters;
}

-- Who may schedule a migration, and for when.
abbrev pub MaySchedule : Wiring → Ctx → MsgMigrateToEvolve → Type 0
MaySchedule w ctx msg =
    (w.authority ≡ msg.authority) × (to_uint64 ctx.block_height ≤ msg.block_height)

-- The two ways that `MsgMigrateToEvolve` ends.
abbrev pub Schedules : Wiring → Ctx → MsgMigrateToEvolve → Store → Type 0
Schedules w ctx msg s =
    (MaySchedule w ctx msg
      × (migrate_to_evolve w ctx msg s
          ≡ (ok tt, record s { migration = found (w.recode (requested msg)) })))
    ⊎ ((¬ MaySchedule w ctx msg) × ((e : Error) × (migrate_to_evolve w ctx msg s ≡ (err e, s))))

-- `MsgMigrateToEvolve` is accepted exactly from the module's authority and for a height that is not
-- below the current one, the current one included, and then replaces the stored migration; otherwise
-- it changes nothing.
pub migrate_to_evolve-cases :
    (w : Wiring) (ctx : Ctx) (msg : MsgMigrateToEvolve) (s : Store) → Schedules w ctx msg s
unfolding migrate_to_evolve
migrate_to_evolve-cases w ctx msg s = elim (Bool-cases (same w.authority msg.authority)) [
  | inl mine ↦ elim (Bool-cases (ltb msg.block_height (to_uint64 ctx.block_height))) [
    | inl past ↦
        inr (
          λ p. absurd (omega (arith, p.1, ltb→lt _ _ past)),
          (invalid_request, rw (mine, past) refl),
        )
    | inr future ↦
        inl (((string_eq.beq_iff _ _).0 mine, ground (arith, future)), rw (mine, future) refl)
  ]
  | inr other ↦
      inr (
        λ p. true_ne (sym ((string_eq.beq_iff _ _).1 p.0) ∙ other),
        (invalid_signer, rw other refl),
      )
]

migrate_to_evolve-Starts :
    (w : Wiring) (ctx : Ctx) (msg : MsgMigrateToEvolve) (s : Store) {t : Store}
    → ((m : EvolveMigration) → (w.recode m).block_height ≡ m.block_height)
    → migrate_to_evolve w ctx msg s ≡ (ok tt, t)
    → Starts msg.block_height t
migrate_to_evolve-Starts w ctx msg s {t} codec h = elim (migrate_to_evolve-cases w ctx msg s) [
  | inl (_, done) ↦
      subst (Starts msg.block_height) (ap (λ (r : Result (Unit {0}) × Store). r.1) (sym done ∙ h))
        (w.recode (requested msg), refl, codec (requested msg))
  | inr (_, (e, refused)) ↦
      absurd (ok_ne_err (ap (λ (r : Result (Unit {0}) × Store). r.0) (sym h ∙ refused)))
]

-- An accepted `MsgMigrateToEvolve` fixes the schedule: the migration is in progress exactly at the
-- height of the message and at the one after, and the chain halts exactly one height later. The
-- codec gives back the height that was stored, and the message's height is below 2^64 - 2.
pub migrate_to_evolve-schedule :
    (w : Wiring) (ctx ctx' : Ctx) (msg : MsgMigrateToEvolve) (s : Store) {t : Store}
    → ((m : EvolveMigration) → (w.recode m).block_height ≡ m.block_height)
    → msg.block_height + 2 < 2 ^ 64
    → migrate_to_evolve w ctx msg s ≡ (ok tt, t)
    → (query_is_migrating ctx' t ≡ (
      to_uint64 ctx'.block_height == msg.block_height
          || to_uint64 ctx'.block_height == msg.block_height + 1,
      msg.block_height,
      msg.block_height + 1,
    ))
      × (pre_block ctx' t ≡ (
          if to_uint64 ctx'.block_height == msg.block_height + 2
          then (err logic, record t { migration = missing })
          else (ok tt, t)))
unfolding query_is_migrating
migrate_to_evolve-schedule w ctx ctx' msg s {t} codec small h =
    let starts : Starts msg.block_height t = migrate_to_evolve-Starts w ctx msg s codec h in
    (
      ap (λ (p : ℕ × ℕ × Bool). let (start, end, migrating) = p in (migrating, start, end))
          (is_migrating-window ctx' msg.block_height t starts (omega arith)),
      pre_block-halts ctx' msg.block_height t starts small,
    )
