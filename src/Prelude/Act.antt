-- ===== src/Prelude/Act.antt =====
-- Calls that change a state of any type and return a result: a failure keeps what was changed.
use mathlib.Core.Path.{ap, refl, subst, ◌≡◌}
use ev_abci.Prelude.Outcome.{Result, err, ok, ok_injective}

abbrev pub Act : Type 0 → Type 0 → Type 0
Act W A = W → Result A × W

abbrev pub pure : {W A : Type 0} → A → Act W A
pure a w = (ok a, w)

-- A step that reads the state, or fails.
abbrev pub reads : {W A : Type 0} → (W → Result A) → Act W A
reads f w = (f w, w)

-- A step without state.
abbrev pub lift : {W A : Type 0} → Result A → Act W A
lift r w = (r, w)

-- The rest of a chain, by the first step's outcome.
abbrev pub continue : {W A B : Type 0} → Result A × W → (A → Act W B) → Result B × W
continue (ok a, w) next = next a w
continue (err e, w) next = (err e, w)

infixl 5 ◌>>=◌ ◌>>◌
abbrev pub ◌>>=◌ : {W A B : Type 0} → Act W A → (A → Act W B) → Act W B
(first >>= next) w = continue (first w) next

abbrev pub ◌>>◌ : {W A B : Type 0} → Act W A → Act W B → Act W B
first >> rest = first >>= λ _. rest

-- Chains may be bracketed either way.
pub continue_assoc :
    {W A B C : Type 0} (out : Result A × W) (f : A → Act W B) (g : B → Act W C)
    → continue (continue out f) g ≡ continue out (λ a. f a >>= g)
continue_assoc (ok a, w) f g = refl
continue_assoc (err e, w) f g = refl

-- What holds of the result of a call and of the state after it, if the call succeeds.
pub record Ensures {W A : Type 0} (Q : A → W → Type 0) (call : Act W A) (w : W) : Type 0 where
  pub holds : (a : A) (end : W) → call w ≡ (ok a, end) → Q a end

pub pure-Ensures :
    {W A : Type 0} (Q : A → W → Type 0) (a : A) (w : W) → Q a w → Ensures Q (pure a) w
pure-Ensures {W} {A} Q a w q = record {
  holds = λ b end h.
      subst (λ x. Q x end) (ok_injective (ap (λ p. p.0) h)) (subst (Q a) (ap (λ p. p.1) h) q);
}

pub bind-Ensures :
    {W A B : Type 0} (Q : B → W → Type 0) (first : Act W A) (next : A → Act W B) (w : W)
    → ((a : A) (w' : W) → first w ≡ (ok a, w') → Ensures Q (next a) w')
    → Ensures Q (first >>= next) w
bind-Ensures {W} {A} {B} Q first next w later = record {
  holds = λ b end. split (first w) refl b end;
}
  where
    split :
        (out : Result A × W)
        → first w ≡ out
        → (b : B) (end : W) → continue out next ≡ (ok b, end)
        → Q b end
    split (ok a, w') e b end h = (later a w' e).holds b end h
    split (err e', w') e b end h = cc

-- The same, where the first step only reads.
pub reads-Ensures :
    {W A B : Type 0} (Q : B → W → Type 0) (f : W → Result A) (next : A → Act W B) (w : W)
    → ((a : A) → f w ≡ ok a → Ensures Q (next a) w)
    → Ensures Q (reads f >>= next) w
reads-Ensures {W} {A} {B} Q f next w later = record { holds = λ b end. split (f w) refl b end }
  where
    split :
        (r : Result A) → f w ≡ r → (b : B) (end : W) → continue (r, w) next ≡ (ok b, end) → Q b end
    split (ok a) e b end h = (later a e).holds b end h
    split (err e') e b end h = cc
