-- ===== src/Migration/Updates.antt =====
-- Whom a migration leaves with voting power (modules/migrationmngr/keeper/migration.go).
use mathlib.Core.Path.{subst}
use ev_abci.Prelude.{
  Bool, Bool-cases, List, Option, Result, [], ap, bytes_eq, false, if◌then◌else◌, inl, inr, int_eq,
  nat_eq, none, ok, or_fail, pair_eq, panic, refl, same, some, string_eq, sym, true, true_ne, ℕ,
  ◌++◌, ◌||◌, ◌∙◌, ◌∷◌, ◌≡◌, ◌⊎◌,
}
use ev_abci.Prelude.Outcome.{>>=-eq-ok, ok_injective, or_fail_ok}
use ev_abci.Migration.{Sequencer, Validator, ValidatorUpdate, Wiring, remove_others, update_zero}

-- The powers after CometBFT has applied updates, by the validators' keys.
abbrev pub apply_updates : List ValidatorUpdate → (List ℕ → ℕ) → List ℕ → ℕ
apply_updates [] power = power
apply_updates (u ∷ us) power = apply_updates us (λ k. if same u.pub_key k then u.power else power k)

pub apply-append :
    (us vs : List ValidatorUpdate) (power : List ℕ → ℕ)
    → apply_updates (us ++ vs) power ≡ apply_updates vs (apply_updates us power)
apply-append [] vs power = refl
apply-append (u ∷ us) vs power =
    apply-append us vs (λ k. if same u.pub_key k then u.power else power k)

abbrev pub has_tm_key : List ℕ → List Validator → Bool
has_tm_key k [] = false
has_tm_key k (val ∷ vals) =
    elim val.tm_pub_key [ some key ↦ same key k | none ↦ false ] || has_tm_key k vals

-- The validators that a test keeps have keys of which another test holds.
abbrev pub KeptAre : (Validator → Bool) → (List ℕ → Bool) → List Validator → Type 0
KeptAre keep fine [] = Unit
KeptAre keep fine (val ∷ vals) =
    (keep val ≡ true → (key : List ℕ) → val.tm_pub_key ≡ some key → fine key ≡ true)
    × KeptAre keep fine vals

-- The validators that a test does not keep, with power zero.
abbrev pub Removed : (Validator → Bool) → List Validator → List ValidatorUpdate → Type 0
Removed keep [] us = us ≡ []
Removed keep (val ∷ vals) us =
    ((keep val ≡ true) × Removed keep vals us)
    ⊎ ((key : List ℕ) × (rest : List ValidatorUpdate) × (val.tm_pub_key ≡ some key)
        × (us ≡ record { pub_key = key; power = 0 } ∷ rest)
        × Removed keep vals rest)

update_zero_ok :
    (val : Validator) {u : ValidatorUpdate}
    → update_zero val ≡ ok u
    → (key : List ℕ) × (val.tm_pub_key ≡ some key) × (u ≡ record { pub_key = key; power = 0 })
unfolding update_zero
update_zero_ok val {u} h =
    let (key, known, h₁) = >>=-eq-ok (or_fail val.tm_pub_key panic) _ h in
    (key, or_fail_ok _ _ known, sym (ok_injective h₁))

chosen_ok :
    {A : Type 0} (b : Bool) {x y z : A}
    → ◌≡◌ {A = Result A} (ok (if b then x else y)) (ok z)
    → (b ≡ true → x ≡ z) × (b ≡ false → y ≡ z)
chosen_ok true h = (λ _. ok_injective h, λ e. absurd (true_ne e))
chosen_ok false h = (λ e. absurd (true_ne (sym e)), λ _. ok_injective h)

pub remove_others-Removed :
    (w : Wiring) (seq : Sequencer) (vals : List Validator) {us : List ValidatorUpdate}
    → remove_others w seq vals ≡ ok us
    → Removed (λ v. w.any_equal v.consensus_pubkey seq.consensus_pubkey) vals us
unfolding remove_others
remove_others-Removed w seq [] h = sym (ok_injective h)
remove_others-Removed w seq (val ∷ vals) {us} h =
    let (u, zero_update, h₁) = >>=-eq-ok (update_zero val) _ h in
    let (rest, h₂, h₃) = >>=-eq-ok (remove_others w seq vals) _ h₁ in
    let (key, known, e) = update_zero_ok val zero_update in
    let both = chosen_ok (w.any_equal val.consensus_pubkey seq.consensus_pubkey) h₃ in
    elim (Bool-cases (w.any_equal val.consensus_pubkey seq.consensus_pubkey)) [
      | inl kept ↦ inl (
        kept,
        subst (Removed (λ v. w.any_equal v.consensus_pubkey seq.consensus_pubkey) vals)
            (both.0 kept) (remove_others-Removed w seq vals h₂),
      )
      | inr gone ↦ inr (
        key,
        rest,
        known,
        sym (both.1 gone) ∙ ap (λ x. x ∷ rest) e,
        remove_others-Removed w seq vals h₂,
      )
    ]

-- Removing leaves no power outside the keys that are fine.
pub Removed-powerless :
    (keep : Validator → Bool) (fine : List ℕ → Bool) (vals : List Validator)
    (us : List ValidatorUpdate) (power : List ℕ → ℕ) (k : List ℕ)
    → Removed keep vals us
    → KeptAre keep fine vals
    → fine k ≡ false
    → (has_tm_key k vals ≡ false → power k ≡ 0)
    → apply_updates us power k ≡ 0
Removed-powerless keep fine [] us power k gone fit bad outside = rw gone (outside refl)
Removed-powerless keep fine (val ∷ vals) us power k (inl (kept, gone)) (fit, fits) bad outside =
    Removed-powerless keep fine vals us power k gone fits bad
      (λ absent. from_key val.tm_pub_key refl absent)
  where
    from_key : (o : Option (List ℕ)) → val.tm_pub_key ≡ o → has_tm_key k vals ≡ false → power k ≡ 0
    from_key none e absent = outside (rw (e, absent) refl)
    from_key (some key) e absent = elim (Bool-cases (same key k)) [
      | inl hit ↦
          absurd (true_ne (sym (fit kept key e) ∙ ap fine ((bytes_eq.beq_iff key k).0 hit) ∙ bad))
      | inr miss ↦ outside (rw (e, miss, absent) refl)
    ]
Removed-powerless keep fine (val ∷ vals) us power k (inr (key, rest, known, e, gone)) (fit, fits)
      bad outside =
    rw e (
      Removed-powerless keep fine vals rest (λ j. if same key j then 0 else power j) k gone fits bad
        (λ absent. elim (Bool-cases (same key k)) [
          | inl hit ↦ rw hit refl
          | inr miss ↦ rw miss (outside (rw (known, miss, absent) refl))
        ]))
