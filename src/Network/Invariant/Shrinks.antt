-- ===== src/Network/Invariant/Shrinks.antt =====
-- Handlers that only drop bitmaps: the end of a block (modules/network/keeper/abci.go).
use mathlib.Core.Path.{subst}
use ev_abci.Prelude.{
  Bool, Get, List, Option, Result, ap, bytes_eq, err, failed, false, found, get, get-clear,
  if◌then◌else◌, int_eq, length, ltb, missing, nat_eq, none, ok, pair_eq, refl, some, string_eq,
  sym, true, ℕ, ℤ, ◌<◌, ◌^◌, ◌∙◌, ◌≡◌,
}
use ev_abci.Network.Types.{Env, State}
use ev_abci.Network.Keeper.{
  Boundary, attestation_retention_boundary, height_range, prune_at, prune_below, prune_old_bitmaps,
}
use ev_abci.Network.Invariant.{IsShaped, IsValid}

-- `t` has the registry, the parameters and the last attested height of `s`, and no bitmap that `s`
-- does not have.
pub record Shrinks (s t : State) : Type 0 where
  pub params : t.params ≡ s.params
  pub attester_set : t.attester_set ≡ s.attester_set
  pub attester_info : t.attester_info ≡ s.attester_info
  pub validator_index : t.validator_index ≡ s.validator_index
  pub validator_power : t.validator_power ≡ s.validator_power
  pub last_attested_height : t.last_attested_height ≡ s.last_attested_height
  pub bitmaps :
      (h : ℤ) (b : List ℕ)
      → get h t.attestation_bitmap ≡ found b
      → get h s.attestation_bitmap ≡ found b
  pub unreadable :
      (h : ℤ) → get h t.attestation_bitmap ≡ failed → get h s.attestation_bitmap ≡ failed
  pub epochs :
      (e : ℕ) (b : List ℕ) → get e t.epoch_bitmap ≡ found b → get e s.epoch_bitmap ≡ found b

pub Shrinks-refl : (s : State) → Shrinks s s
Shrinks-refl s = record {
  params = refl;
  attester_set = refl;
  attester_info = refl;
  validator_index = refl;
  validator_power = refl;
  last_attested_height = refl;
  bitmaps = λ h b e. e;
  unreadable = λ h e. e;
  epochs = λ e b p. p;
}

pub Shrinks-trans : {s t u : State} → Shrinks s t → Shrinks t u → Shrinks s u
Shrinks-trans p q = record {
  params = q.params ∙ p.params;
  attester_set = q.attester_set ∙ p.attester_set;
  attester_info = q.attester_info ∙ p.attester_info;
  validator_index = q.validator_index ∙ p.validator_index;
  validator_power = q.validator_power ∙ p.validator_power;
  last_attested_height = q.last_attested_height ∙ p.last_attested_height;
  bitmaps = λ h b e. p.bitmaps h b (q.bitmaps h b e);
  unreadable = λ h e. p.unreadable h (q.unreadable h e);
  epochs = λ e b x. p.epochs e b (q.epochs e b x);
}

-- A smaller store stays well-formed.
pub Shrinks-IsValid : (env : Env) {s t : State} → IsValid env s → Shrinks s t → IsValid env t
Shrinks-IsValid env {s} {t} v sh = record {
  current = v.current;
  current_params = sh.params ∙ v.current_params;
  valid_params = v.valid_params;
  small = subst (λ l. length l < 2 ^ 16) (sym sh.attester_set) v.small;
  indexed = λ a i e.
      subst (λ l. i < length l) (sym sh.attester_set)
        (v.indexed a i (ap (get a) (sym sh.validator_index) ∙ e));
  powered = λ i below.
      ap (get i) sh.validator_power ∙ v.powered i (subst (λ l. i < length l) sh.attester_set below);
  shaped = λ h b e.
      subst (λ l. IsShaped (length l) b) (sym sh.attester_set) (v.shaped h b (sh.bitmaps h b e));
  readable = λ h e. v.readable h (sh.unreadable h e);
  epochs_shaped = λ e b p.
      subst (λ l. IsShaped (length l) b) (sym sh.attester_set)
        (v.epochs_shaped e b (sh.epochs e b p));
  last_readable = λ e. v.last_readable (sym sh.last_attested_height ∙ e);
}

pub Shrinks-current :
    (env : Env) {s t : State} (v : IsValid env s) (sh : Shrinks s t)
    → (Shrinks-IsValid env v sh).current ≡ v.current
unfolding Shrinks-IsValid
Shrinks-current env v sh = refl

prune_below-Shrinks : (b : Boundary) (s : State) → Shrinks s (prune_below b s)
unfolding prune_below
prune_below-Shrinks b s = record {
  params = refl;
  attester_set = refl;
  attester_info = refl;
  validator_index = refl;
  validator_power = refl;
  last_attested_height = refl;
  bitmaps = λ h c e.
      clear_found (height_range b.first_retained_height h)
        (sym (get-clear (height_range b.first_retained_height) h s.attestation_bitmap) ∙ e);
  unreadable = λ h e.
      clear_failed (height_range b.first_retained_height h)
        (sym (get-clear (height_range b.first_retained_height) h s.attestation_bitmap) ∙ e);
  epochs = λ n c e.
      clear_found (ltb n b.first_retained_epoch)
        (sym (get-clear (λ epoch. ltb epoch b.first_retained_epoch) n s.epoch_bitmap) ∙ e);
}
  where
    clear_found :
        {V : Type 0} (c : Bool) {g : Get V} {v : V}
        → (if c then missing else g) ≡ found v
        → g ≡ found v
    clear_found true h = cc
    clear_found false h = h

    clear_failed :
        {V : Type 0} (c : Bool) {g : Get V} → (if c then missing else g) ≡ failed → g ≡ failed
    clear_failed true h = cc
    clear_failed false h = h

pub prune_old_bitmaps-Shrinks : (epoch : ℕ) (s : State) → Shrinks s (prune_old_bitmaps epoch s).1
unfolding prune_old_bitmaps
prune_old_bitmaps-Shrinks epoch s = from_boundary (attestation_retention_boundary epoch s)
  where
    from_boundary : (r : Result (Option Boundary)) → Shrinks s (prune_at r s).1
    from_boundary (ok none) = Shrinks-refl s
    from_boundary (ok (some b)) = prune_below-Shrinks b s
    from_boundary (err e) = Shrinks-refl s
