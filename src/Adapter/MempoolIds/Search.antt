-- ===== src/Adapter/MempoolIds/Search.antt =====
-- The search for a free id comes to an end (pkg/adapter/mempool_ids.go).
use mathlib.Core.Path.{subst}
use ev_abci.Prelude.{
  Bool, Bool-cases, List, Option, Option-cases, [], ap, arith, bytes_eq, contains, false,
  if◌then◌else◌, inl, inr, int_eq, length, nat_eq, none, pair_eq, refl, some, string_eq, suc, sym,
  true, true_ne, zero, ℕ, ◌%◌, ◌+◌, ◌<◌, ◌==◌, ◌^◌, ◌||◌, ◌∙◌, ◌∷◌, ◌≡◌, ◌≤◌,
}
use ev_abci.Network.Bitmap.Count.{one, tally}
use ev_abci.Adapter.MempoolIds.{search}

-- The id of a round.
abbrev key : ℕ → ℕ → ℕ
key id i = (id + i) % 2 ^ 16

zero_tally :
    (p : ℕ → Bool) (i n : ℕ) → ((k : ℕ) → i ≤ k → k < i + n → p k ≡ false) → tally p i n ≡ 0
zero_tally p i zero h = refl
zero_tally p i (suc n) h = omega (
  arith,
  ap one (h i (omega arith) (omega arith)),
  zero_tally p (suc i) n (λ k above below. h k (omega arith) (omega arith)),
)

single_tally :
    (p : ℕ → Bool) (i n : ℕ)
    → ((j k : ℕ) → i ≤ j → j < k → k < i + n → p j ≡ true → p k ≡ false)
    → tally p i n ≤ 1
single_tally p i zero h = omega arith
single_tally p i (suc n) h = elim (Bool-cases (p i)) [
  | inl here ↦ omega (
    arith,
    ap one here,
    zero_tally p (suc i) n (λ k above below. h i k (omega arith) (omega arith) (omega arith) here),
  )
  | inr absent ↦ omega (
    arith,
    ap one absent,
    single_tally p (suc i) n (λ j k a b c. h j k (omega arith) b (omega arith)),
  )
]

split_tally : (p q : ℕ → Bool) (i n : ℕ) → tally (λ k. p k || q k) i n ≤ tally p i n + tally q i n
split_tally p q i zero = omega arith
split_tally p q i (suc n) = ground (arith, split_tally p q (suc i) n)

distinct_keys : (x id n : ℕ) → n ≤ 2 ^ 16 → tally (λ i. x == key id i) 0 n ≤ 1
distinct_keys x id n small =
    single_tally (λ i. x == key id i) 0 n (λ j k above before below hit. ground (arith, hit))

-- A list holds at most as many ids of successive rounds as it has elements.
held_keys :
    (active : List ℕ) (id n : ℕ)
    → n ≤ 2 ^ 16
    → tally (λ i. contains (key id i) active) 0 n ≤ length active
held_keys [] id n small = omega (arith, zero_tally (λ i. false) 0 n (λ k above below. refl))
held_keys (x ∷ xs) id n small = omega (
  arith,
  split_tally (λ i. x == key id i) (λ i. contains (key id i) xs) 0 n,
  distinct_keys x id n small,
  held_keys xs id n small,
)

held_step :
    (b : Bool) (id : ℕ) {rest : Option ℕ}
    → (if b then rest else some id) ≡ none
    → (b ≡ true) × (rest ≡ none)
held_step true id h = (refl, h)
held_step false id h = cc

-- A search that fails has met an active id in every round.
all_held :
    (rounds i id : ℕ) (active : List ℕ)
    → search rounds (key id i) active ≡ none
    → tally (λ k. contains (key id k) active) i rounds ≡ rounds
unfolding search
all_held zero i id active h = refl
all_held (suc rounds) i id active h =
    let (here, later) = held_step (contains (key id i) active) (key id i) h in
    let next_key : (key id i + 1) % 2 ^ 16 ≡ key id (suc i) = omega arith in
    omega (
      arith,
      ap one here,
      all_held rounds (suc i) id active (ap (λ j. search rounds j active) (sym next_key) ∙ later),
    )

-- With one try more than there are active ids the search finds an id.
pub search_finds :
    (id : ℕ) (active : List ℕ)
    → id < 2 ^ 16
    → length active < 2 ^ 16
    → (j : ℕ) × (search (suc (length active)) id active ≡ some j)
search_finds id active small few = elim (Option-cases (search (suc (length active)) id active)) [
  | inl stuck ↦
      let start : key id 0 ≡ id = omega arith in
      absurd (
        omega (
          arith,
          all_held (suc (length active)) 0 id active
              (ap (λ j. search (suc (length active)) j active) start ∙ stuck),
          held_keys active id (suc (length active)) (omega arith),
        ))
  | inr (j, e) ↦ (j, e)
]

tried :
    (b : Bool) (id : ℕ) {rest : Option ℕ} {j : ℕ}
    → (if b then rest else some id) ≡ some j
    → (b ≡ true → rest ≡ some j) × (b ≡ false → id ≡ j)
tried true id h = (λ _. h, λ e. absurd (true_ne e))
tried false id h = (λ e. absurd (true_ne (sym e)), λ _. cc)

-- What the search finds is free.
pub search_free :
    (rounds id : ℕ) (active : List ℕ) {j : ℕ}
    → search rounds id active ≡ some j
    → id < 2 ^ 16
    → (contains j active ≡ false) × (j < 2 ^ 16)
unfolding search
search_free zero id active h small = cc
search_free (suc rounds) id active {j} h small = elim (Bool-cases (contains id active)) [
  | inl held ↦
      search_free rounds ((id + 1) % 2 ^ 16) active ((tried (contains id active) id h).0 held)
        (omega arith)
  | inr free ↦
      subst (λ k. (contains k active ≡ false) × (k < 2 ^ 16))
        ((tried (contains id active) id h).1 free) (free, small)
]
