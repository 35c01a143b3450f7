-- ===== src/Adapter/Filter.antt =====
-- `FilterTxs` of pkg/adapter/adapter.go: which transactions go into the next block when some of them
-- were forced in. The application answers each `CheckTx`, and may change with it.
pub mod Split
pub mod Loop
mod Tests
use ev_abci.Prelude.{
  Bool, List, Result, [], err, false, if◌then◌else◌, length, ltb, map, ok, to_uint64, true, wrap64,
  ℕ, ℤ, ◌&&◌, ◌+◌, ◌==◌, ◌∷◌,
}

pub data FilterStatus : Type 0 where
  filter_ok filter_remove filter_postpone : FilterStatus

-- The response to a `CheckTx`; code 0 is `CodeTypeOK`.
pub record CheckTxResponse : Type 0 where
  pub code : ℕ
  pub gas_wanted : ℤ

-- The limits of a block, 0 for none.
pub record Limits : Type 0 where
  pub max_bytes : ℕ
  pub max_gas : ℕ

-- The variables of the loop.
pub record Progress : Type 0 where
  pub cumulative_bytes : ℕ
  pub cumulative_gas : ℕ
  pub limit_reached : Bool

-- A limit is set, and is exceeded.
abbrev pub exceeds : ℕ → ℕ → Bool
exceeds limit amount = ltb 0 limit && ltb limit amount

-- A round of the loop for a transaction that `CheckTx` accepts.
unfoldable pub filter_accepted : Limits → ℕ → ℕ → Progress → FilterStatus × Progress
filter_accepted l tx_bytes tx_gas p =
    if exceeds l.max_gas tx_gas
    then (filter_remove, p)
    else if exceeds l.max_bytes tx_bytes
    then (filter_remove, p)
    else if p.limit_reached
    then (filter_postpone, p)
    else if exceeds l.max_bytes (wrap64 (p.cumulative_bytes + tx_bytes))
    then (filter_postpone, record p { limit_reached = true })
    else if exceeds l.max_gas (wrap64 (p.cumulative_gas + tx_gas))
    then (filter_postpone, record p { limit_reached = true })
    else (
      filter_ok,
      record p {
        cumulative_bytes = wrap64 (p.cumulative_bytes + tx_bytes);
        cumulative_gas = wrap64 (p.cumulative_gas + tx_gas);
      },
    )

-- A round by the answer of `CheckTx`.
abbrev pub filter_checked : Limits → ℕ → Result CheckTxResponse → Progress → FilterStatus × Progress
filter_checked l tx_bytes (err e) p = (filter_remove, p)
filter_checked l tx_bytes (ok r) p =
    if r.code == 0
    then filter_accepted l tx_bytes (to_uint64 r.gas_wanted) p
    else (filter_remove, p)

module _ {App : Type 0} (check_tx : App → List ℕ → App × Result CheckTxResponse) where
  -- A round of the loop.
  abbrev pub filter_tx : Limits → List ℕ → App → Progress → App × (FilterStatus × Progress)
  filter_tx l [] app p = (app, (filter_remove, p))
  filter_tx l (b ∷ bs) app p =
      let (next, answer) = check_tx app (b ∷ bs) in
      (next, filter_checked l (length (b ∷ bs)) answer p)

  -- The loop.
  unfoldable pub filter_loop : Limits → List (List ℕ) → App → Progress → App × List FilterStatus
  filter_loop l [] app p = (app, [])
  filter_loop l (tx ∷ txs) app p =
      let (next, (status, q)) = filter_tx l tx app p in
      let (last, statuses) = filter_loop l txs next q in (last, status ∷ statuses)

  -- `FilterTxs`.
  unfoldable pub filter_txs : List (List ℕ) → Limits → Bool → App → App × List FilterStatus
  filter_txs txs l has_force_included app =
      if has_force_included
      then filter_loop l txs app
          (record { cumulative_bytes = 0; cumulative_gas = 0; limit_reached = false })
      else (app, map (λ tx. filter_ok) txs)
