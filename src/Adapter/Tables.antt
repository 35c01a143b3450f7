-- ===== src/Adapter/Tables.antt =====
-- Encodings for tests of pkg/adapter: a value stands for its place in a table.
use ev_abci.Prelude.{
  Bool, Bool-cases, Eq, List, Option, Result, [], ap, arith, bytes_eq, err, false, if◌then◌else◌,
  inl, inr, int_eq, nat_eq, none, ok, pair_eq, plain, refl, same, some, string_eq, suc, sym, true,
  zero, ℕ, ◌&&◌, ◌+◌, ◌↔◌, ◌∙◌, ◌∷◌, ◌≡◌,
}
use ev_abci.Prelude.Outcome.{ok_injective}
use ev_abci.Store.{Codec}
use ev_abci.Store.View.{Lawful}

-- Equality of lists, of options, and of a type by its fields.
abbrev pub list_beq : {A : Type 0} ⦃e : Eq A⦄ → List A → List A → Bool
list_beq [] [] = true
list_beq [] (y ∷ ys) = false
list_beq (x ∷ xs) [] = false
list_beq (x ∷ xs) (y ∷ ys) = same x y && list_beq xs ys

pub list_beq_iff : {A : Type 0} ⦃e : Eq A⦄ (xs ys : List A) → (list_beq xs ys ≡ true) ↔ (xs ≡ ys)
list_beq_iff ⦃e⦄ [] [] = (λ _. refl, λ _. refl)
list_beq_iff ⦃e⦄ [] (y ∷ ys) = (λ h. cc, λ h. cc)
list_beq_iff ⦃e⦄ (x ∷ xs) [] = (λ h. cc, λ h. cc)
list_beq_iff ⦃e⦄ (x ∷ xs) (y ∷ ys) = (
  λ h. ground (arith, e.beq_iff x y, list_beq_iff xs ys),
  λ h. ground (arith, e.beq_iff x y, list_beq_iff xs ys),
)

abbrev pub by_fields : {A B : Type 0} → (A → B) → Eq B → A → A → Bool
by_fields fields e a b = e.beq (fields a) (fields b)

pub by_fields_iff :
    {A B : Type 0} (fields : A → B) (build : B → A) (e : Eq B)
    → ((a : A) → build (fields a) ≡ a)
    → (a b : A) → (by_fields fields e a b ≡ true) ↔ (a ≡ b)
by_fields_iff fields build e back a b = (
  λ h. sym (back a) ∙ ap build ((e.beq_iff (fields a) (fields b)).0 h) ∙ back b,
  λ p. (e.beq_iff (fields a) (fields b)).1 (ap fields p),
)

-- The first place of a value in a table, with the values after it.
abbrev pub place : {A : Type 0} ⦃e : Eq A⦄ → A → List A → ℕ → Result (List ℕ)
place a [] i = err plain
place a (x ∷ xs) i = if same x a then ok (i ∷ []) else place a xs (i + 1)

abbrev pub value_at : {A : Type 0} → List A → ℕ → Result A
value_at [] i = err plain
value_at (x ∷ xs) zero = ok x
value_at (x ∷ xs) (suc i) = value_at xs i

abbrev pub decode_place : {A : Type 0} → List A → List ℕ → Result A
decode_place table [] = err plain
decode_place table (i ∷ bytes) = value_at table i

-- Values encoded as their places in a table.
abbrev pub table_codec : {A : Type 0} ⦃e : Eq A⦄ → List A → Codec A
table_codec table = record { encode = λ a. place a table 0; decode = decode_place table }

abbrev pub is_empty : List ℕ → Bool
is_empty [] = true
is_empty (b ∷ bytes) = false

-- A place counted from `i` on, in the table after it.
place_found :
    {A : Type 0} ⦃e : Eq A⦄ (a : A) (table : List A) (i : ℕ) {bytes : List ℕ}
    → place a table i ≡ ok bytes
    → (j : ℕ) × (bytes ≡ (i + j) ∷ []) × (value_at table j ≡ ok a)
place_found ⦃e⦄ a [] i h = cc
place_found ⦃e⦄ a (x ∷ xs) i {bytes} h = elim (Bool-cases (same x a)) [
  | inl eq ↦ (
    0,
    ok_injective (sym (rw eq at h)) ∙ ap (λ n. n ∷ []) (omega arith),
    ap ok ((e.beq_iff x a).0 eq),
  )
  | inr ne ↦
      let (j, at_j, there) = place_found a xs (i + 1) {bytes = bytes} (rw ne at h) in
      (suc j, at_j ∙ ap (λ n. n ∷ []) (omega arith), there)
]

pub table_codec-Lawful :
    {A : Type 0} ⦃e : Eq A⦄ (table : List A) → Lawful is_empty (table_codec table)
table_codec-Lawful table a bytes h =
    let (j, at_j, there) = place_found a table 0 {bytes = bytes} h in
    (ap is_empty at_j, ap (decode_place table) at_j ∙ ap (value_at table) (omega arith) ∙ there)

abbrev pub list_eq : {A : Type 0} ⦃e : Eq A⦄ → Eq (List A)
list_eq = record { beq = list_beq; beq_iff = list_beq_iff }

-- An option as the list of its value.
abbrev pub option_fields : {A : Type 0} → Option A → List A
option_fields none = []
option_fields (some a) = a ∷ []

abbrev pub option_of : {A : Type 0} → List A → Option A
option_of [] = none
option_of (a ∷ as_) = some a

pub option_back : {A : Type 0} (o : Option A) → option_of (option_fields o) ≡ o
option_back none = refl
option_back (some a) = refl

abbrev pub option_eq : {A : Type 0} ⦃e : Eq A⦄ → Eq (Option A)
option_eq = record {
  beq = by_fields option_fields list_eq;
  beq_iff = by_fields_iff option_fields option_of list_eq option_back;
}
