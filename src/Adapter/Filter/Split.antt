-- ===== src/Adapter/Filter/Split.antt =====
-- The answers of `FilterTxs` of pkg/adapter/adapter.go as three kinds of transactions.
use ev_abci.Prelude.{
  Bool-cases, List, Option, Result, [], arith, err, false, if◌then◌else◌, inl, inr, length, ltb,
  ltb→lt, none, not, ok, refl, some, suc, to_uint64, true, wrap64, zero, ℕ, ◌&&◌, ◌+◌, ◌<◌, ◌==◌,
  ◌^◌, ◌∷◌, ◌≡◌, ◌≤◌, ◌⊎◌,
}
use ev_abci.Adapter.Filter.{
  CheckTxResponse, FilterStatus, Limits, Progress, exceeds, filter_accepted, filter_checked,
  filter_ok, filter_postpone, filter_remove,
}

-- Amounts within the limits that are set.
abbrev pub IsWithin : Limits → ℕ → ℕ → Type 0
IsWithin l bytes gas = (0 < l.max_bytes → bytes ≤ l.max_bytes) × (0 < l.max_gas → gas ≤ l.max_gas)

-- The bytes and the gas of a transaction that a block of its own could hold.
abbrev pub alone : Limits → ℕ → Result CheckTxResponse → Option (ℕ × ℕ)
alone l bytes (err e) = none
alone l bytes (ok r) =
    if r.code == 0
      && not (exceeds l.max_gas (to_uint64 r.gas_wanted))
      && not (exceeds l.max_bytes bytes)
    then some (bytes, to_uint64 r.gas_wanted)
    else none

module _ {App : Type 0} (check_tx : App → List ℕ → App × Result CheckTxResponse) where
  -- Those of all transactions, checked one after the other.
  abbrev pub sizes : Limits → List (List ℕ) → App → List (Option (ℕ × ℕ))
  sizes l [] app = []
  sizes l ([] ∷ txs) app = none ∷ sizes l txs app
  sizes l ((b ∷ bs) ∷ txs) app =
      alone l (length (b ∷ bs)) (check_tx app (b ∷ bs)).1 ∷ sizes l txs (check_tx app (b ∷ bs)).0

-- No more transactions go in.
pub data Waits : List FilterStatus → List (Option (ℕ × ℕ)) → Type 0 where
  done : Waits [] []
  removed :
      {ss : List FilterStatus} {xs : List (Option (ℕ × ℕ))}
      → Waits ss xs
      → Waits (filter_remove ∷ ss) (none ∷ xs)
  waits :
      {size : ℕ × ℕ} {ss : List FilterStatus} {xs : List (Option (ℕ × ℕ))}
      → Waits ss xs
      → Waits (filter_postpone ∷ ss) (some size ∷ xs)

-- The statuses of the transactions, after some of the given bytes and gas went in.
pub data Split (l : Limits) : ℕ → ℕ → List FilterStatus → List (Option (ℕ × ℕ)) → Type 0 where
  done : {bytes gas : ℕ} → Split l bytes gas [] []
  removed :
      {bytes gas : ℕ} {ss : List FilterStatus} {xs : List (Option (ℕ × ℕ))}
      → Split l bytes gas ss xs
      → Split l bytes gas (filter_remove ∷ ss) (none ∷ xs)
  taken :
      {bytes gas b g : ℕ} {ss : List FilterStatus} {xs : List (Option (ℕ × ℕ))}
      → IsWithin l (bytes + b) (gas + g)
      → Split l (bytes + b) (gas + g) ss xs
      → Split l bytes gas (filter_ok ∷ ss) (some (b, g) ∷ xs)
  full :
      {bytes gas b g : ℕ} {ss : List FilterStatus} {xs : List (Option (ℕ × ℕ))}
      → ¬ IsWithin l (bytes + b) (gas + g)
      → Waits ss xs
      → Split l bytes gas (filter_postpone ∷ ss) (some (b, g) ∷ xs)

-- A round once the limit is reached.
pub limited-cases :
    (l : Limits) (n : ℕ) (answer : Result CheckTxResponse) (p : Progress)
    → p.limit_reached ≡ true
    → ((alone l n answer ≡ none) × (filter_checked l n answer p ≡ (filter_remove, p)))
      ⊎ ((g : ℕ) × (alone l n answer ≡ some (n, g))
          × (filter_checked l n answer p ≡ (filter_postpone, p)))
unfolding filter_accepted
limited-cases l n (err e) p limited = inl (refl, refl)
limited-cases l n (ok r) p limited = elim (Bool-cases (r.code == 0)) [
  | inr refused ↦ inl (rw refused refl, rw refused refl)
  | inl accepted ↦ elim (Bool-cases (exceeds l.max_gas (to_uint64 r.gas_wanted))) [
    | inl heavy ↦ inl (rw (accepted, heavy) refl, rw (accepted, heavy) refl)
    | inr light ↦ elim (Bool-cases (exceeds l.max_bytes n)) [
      | inl big ↦ inl (rw (accepted, light, big) refl, rw (accepted, light, big) refl)
      | inr small ↦ inr (
        to_uint64 r.gas_wanted,
        rw (accepted, light, small) refl,
        rw (accepted, light, small, limited) refl,
      )
    ]
  ]
]

-- The amounts that went in.
abbrev pub Counts : Progress → ℕ → ℕ → Type 0
Counts p bytes gas =
    (p.cumulative_bytes ≡ wrap64 bytes)
    × (p.cumulative_gas ≡ wrap64 gas)
    × (p.limit_reached ≡ false)

-- What a round makes of a transaction that a block of its own could hold.
abbrev pub Placed : Limits → ℕ → ℕ → ℕ → ℕ → FilterStatus × Progress → Type 0
Placed l bytes gas n g out =
    ((IsWithin l (bytes + n) (gas + g)) × (out.0 ≡ filter_ok) × Counts out.1 (bytes + n) (gas + g))
    ⊎ ((¬ IsWithin l (bytes + n) (gas + g))
        × (out.0 ≡ filter_postpone)
        × (out.1.limit_reached ≡ true))

not_exceeds : (limit n : ℕ) → 0 < limit → exceeds limit n ≡ false → n ≤ limit
not_exceeds limit n set_ h = ground arith

exceeds_above : (limit n : ℕ) → limit < n → 0 < limit → exceeds limit n ≡ true
exceeds_above limit n above set_ = ground arith

-- Whether a sum exceeds a limit, where neither part does.
exceeds_sum :
    (limit total n : ℕ)
    → limit < 2 ^ 63
    → (0 < limit → total ≤ limit)
    → exceeds limit n ≡ false
    → ((exceeds limit (wrap64 (wrap64 total + n)) ≡ true) × (0 < limit) × (limit < total + n))
      ⊎ ((exceeds limit (wrap64 (wrap64 total + n)) ≡ false) × (0 < limit → total + n ≤ limit))
exceeds_sum zero total n small within alone_ok = inr (refl, λ set_. absurd (omega arith))
exceeds_sum (suc m) total n small within alone_ok =
    let fits : n ≤ suc m = not_exceeds (suc m) n (omega arith) alone_ok in
    let before : total ≤ suc m = within (omega arith) in
    let exact : wrap64 (wrap64 total + n) ≡ total + n = omega arith in
    rw exact (elim (Bool-cases (ltb (suc m) (total + n))) [
      | inl over ↦ inl (
        exceeds_above (suc m) (total + n) (ltb→lt _ _ over) (omega arith),
        omega arith,
        ltb→lt _ _ over,
      )
      | inr under ↦ inr (ground arith, λ set_. ground arith)
    ])

filter_accepted-Placed :
    (l : Limits) (n g bytes gas : ℕ) (p : Progress)
    → l.max_bytes < 2 ^ 63
    → l.max_gas < 2 ^ 63
    → IsWithin l bytes gas
    → Counts p bytes gas
    → exceeds l.max_gas g ≡ false
    → exceeds l.max_bytes n ≡ false
    → Placed l bytes gas n g (filter_accepted l n g p)
unfolding filter_accepted
filter_accepted-Placed l n g bytes gas p small_bytes small_gas (fits_bytes, fits_gas)
      (cb, cg, open_) light small =
    rw (light, small, open_, cb, cg)
      (elim (exceeds_sum l.max_bytes bytes n small_bytes fits_bytes small) [
        | inl (over, set_, above) ↦ rw over (inr (λ w. omega (arith, w.0 set_), refl, refl))
        | inr (under, below) ↦
            rw under (elim (exceeds_sum l.max_gas gas g small_gas fits_gas light) [
              | inl (over, set_, above) ↦ rw over (inr (λ w. omega (arith, w.1 set_), refl, refl))
              | inr (under', below') ↦
                  rw under' (inl ((below, below'), refl, (omega arith, omega arith, refl)))
            ])
      ])

removed_round :
    (l : Limits) (n g : ℕ) (p : Progress)
    → ((exceeds l.max_gas g ≡ true)
        ⊎ ((exceeds l.max_gas g ≡ false) × (exceeds l.max_bytes n ≡ true)))
    → filter_accepted l n g p ≡ (filter_remove, p)
unfolding filter_accepted
removed_round l n g p (inl heavy) = rw heavy refl
removed_round l n g p (inr (light, big)) = rw (light, big) refl

-- A round before the limit is reached.
pub open-cases :
    (l : Limits) (n bytes gas : ℕ) (answer : Result CheckTxResponse) (p : Progress)
    → l.max_bytes < 2 ^ 63
    → l.max_gas < 2 ^ 63
    → IsWithin l bytes gas
    → Counts p bytes gas
    → ((alone l n answer ≡ none) × (filter_checked l n answer p ≡ (filter_remove, p)))
      ⊎ ((g : ℕ) × (alone l n answer ≡ some (n, g))
          × Placed l bytes gas n g (filter_checked l n answer p))
open-cases l n bytes gas (err e) p small_bytes small_gas within counts = inl (refl, refl)
open-cases l n bytes gas (ok r) p small_bytes small_gas within counts =
    elim (Bool-cases (r.code == 0)) [
      | inr refused ↦ inl (rw refused refl, rw refused refl)
      | inl accepted ↦ elim (Bool-cases (exceeds l.max_gas (to_uint64 r.gas_wanted))) [
        | inl heavy ↦ inl (rw (accepted, heavy) refl, rw (accepted, heavy_removed heavy) refl)
        | inr light ↦ elim (Bool-cases (exceeds l.max_bytes n)) [
          | inl big ↦
              inl (rw (accepted, light, big) refl, rw (accepted, big_removed light big) refl)
          | inr small ↦ inr (
            to_uint64 r.gas_wanted,
            rw (accepted, light, small) refl,
            rw accepted (
                filter_accepted-Placed l n (to_uint64 r.gas_wanted) bytes gas p small_bytes
                  small_gas within counts light small),
          )
        ]
      ]
    ]
  where
    heavy_removed :
        exceeds l.max_gas (to_uint64 r.gas_wanted) ≡ true
        → filter_accepted l n (to_uint64 r.gas_wanted) p ≡ (filter_remove, p)
    heavy_removed heavy = removed_round l n (to_uint64 r.gas_wanted) p (inl heavy)

    big_removed :
        exceeds l.max_gas (to_uint64 r.gas_wanted) ≡ false
        → exceeds l.max_bytes n ≡ true
        → filter_accepted l n (to_uint64 r.gas_wanted) p ≡ (filter_remove, p)
    big_removed light big = removed_round l n (to_uint64 r.gas_wanted) p (inr (light, big))
