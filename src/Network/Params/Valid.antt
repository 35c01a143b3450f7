-- ===== src/Network/Params/Valid.antt =====
-- Which parameters modules/network/types/params.go accepts.
use ev_abci.Prelude.{
  Option-cases, String, arith, inl, inr, none, ok, pos, refl, some, sym, ℕ, ℤ, ◌<ℤ◌, ◌<◌, ◌↔◌, ◌∙◌,
  ◌≡◌, ◌≢◌, ◌≤ℤ◌,
}
use ev_abci.Prelude.Outcome.{>>-eq-ok}
use ev_abci.Network.Types.{Env, Params}
use ev_abci.Network.Params.{
  one_dec, sign_mode_checkpoint, validate, validate_epoch_length, validate_min_participation,
  validate_prune_after, validate_quorum_fraction, validate_sign_mode,
}

-- A decimal string of a fraction above zero and up to one.
pub record IsFraction (env : Env) (v : String) : Type 0 where
  pub dec : ℤ
  pub parsed : env.dec_from_str v ≡ some dec
  pub positive : pos 0 <ℤ dec
  pub at_most_one : dec ≤ℤ one_dec

pub record Accepted (env : Env) (p : Params) : Type 0 where
  pub epoch_positive : 0 < p.epoch_length
  pub quorum : IsFraction env p.quorum_fraction
  pub participation : IsFraction env p.min_participation
  pub prune_positive : 0 < p.prune_after
  pub mode : p.sign_mode ≡ sign_mode_checkpoint

IsFraction-ok : (env : Env) (v : String) → validate_quorum_fraction env v ≡ ok tt → IsFraction env v
unfolding validate_quorum_fraction
IsFraction-ok env v h = elim (Option-cases (env.dec_from_str v)) [
  | inl unparsed ↦ absurd (fraction_unparsed env v unparsed h)
  | inr (d, e) ↦ record { dec = d; parsed = e; positive = ground arith; at_most_one = ground arith }
]
  where
    fraction_unparsed :
        (env : Env) (v : String)
        → env.dec_from_str v ≡ none
        → validate_quorum_fraction env v ≢ ok tt
    fraction_unparsed env v e h = ground arith

ok_fraction : (env : Env) (v : String) → IsFraction env v → validate_quorum_fraction env v ≡ ok tt
unfolding validate_quorum_fraction
ok_fraction env v f = ground (arith, f.parsed, f.positive, f.at_most_one)

same_check :
    (env : Env) (v : String) → validate_min_participation env v ≡ validate_quorum_fraction env v
unfolding validate_min_participation validate_quorum_fraction
same_check env v = refl

epoch_ok : (v : ℕ) → validate_epoch_length v ≡ ok tt → 0 < v
unfolding validate_epoch_length
epoch_ok v h = ground arith

ok_epoch : (v : ℕ) → 0 < v → validate_epoch_length v ≡ ok tt
unfolding validate_epoch_length
ok_epoch v h = ground arith

prune_ok : (v : ℕ) → validate_prune_after v ≡ ok tt → 0 < v
unfolding validate_prune_after
prune_ok v h = ground arith

ok_prune : (v : ℕ) → 0 < v → validate_prune_after v ≡ ok tt
unfolding validate_prune_after
ok_prune v h = ground arith

mode_ok : (v : ℤ) → validate_sign_mode v ≡ ok tt → v ≡ sign_mode_checkpoint
unfolding validate_sign_mode
mode_ok v h = ground arith

ok_mode : (v : ℤ) → v ≡ sign_mode_checkpoint → validate_sign_mode v ≡ ok tt
unfolding validate_sign_mode
ok_mode v h = rw h

pub validate-Accepted : (env : Env) (p : Params) → validate env p ≡ ok tt → Accepted env p
unfolding validate
validate-Accepted env p h =
    let (epoch, h₁) = >>-eq-ok _ _ h in
    let (quorum, h₂) = >>-eq-ok _ _ h₁ in
    let (participation, h₃) = >>-eq-ok _ _ h₂ in
    let (prune, mode) = >>-eq-ok _ _ h₃ in
    record {
      epoch_positive = epoch_ok p.epoch_length epoch;
      quorum = IsFraction-ok env p.quorum_fraction quorum;
      participation =
          IsFraction-ok env p.min_participation
            (sym (same_check env p.min_participation) ∙ participation);
      prune_positive = prune_ok p.prune_after prune;
      mode = mode_ok p.sign_mode mode;
    }

Accepted-validate : (env : Env) (p : Params) → Accepted env p → validate env p ≡ ok tt
unfolding validate
Accepted-validate env p a = rw (
  ok_epoch p.epoch_length a.epoch_positive,
  same_check env p.min_participation,
  ok_fraction env p.quorum_fraction a.quorum,
  ok_fraction env p.min_participation a.participation,
  ok_prune p.prune_after a.prune_positive,
  ok_mode p.sign_mode a.mode,
)

-- `Params.Validate` accepts exactly the parameters with a positive epoch length, both fractions
-- above zero and up to one, a positive retention and the checkpoint sign mode.
pub validate_iff : (env : Env) (p : Params) → (validate env p ≡ ok tt) ↔ Accepted env p
validate_iff env p = (validate-Accepted env p, Accepted-validate env p)
