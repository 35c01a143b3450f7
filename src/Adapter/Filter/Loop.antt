-- ===== src/Adapter/Filter/Loop.antt =====
-- The loop of `FilterTxs` in pkg/adapter/adapter.go.
use ev_abci.Prelude.{
  List, Result, [], arith, false, inl, inr, length, refl, true, ℕ, ◌+◌, ◌<◌, ◌^◌, ◌∷◌, ◌≡◌,
}
use ev_abci.Adapter.Filter.{
  CheckTxResponse, Limits, Progress, filter_checked, filter_loop, filter_txs,
}
use ev_abci.Adapter.Filter.Split.{Counts, IsWithin, Split, Waits, limited-cases, open-cases, sizes}

module _ {App : Type 0} (check_tx : App → List ℕ → App × Result CheckTxResponse) where
  filter_loop-Waits :
      (l : Limits) (txs : List (List ℕ)) (app : App) (p : Progress)
      → p.limit_reached ≡ true
      → Waits (filter_loop check_tx l txs app p).1 (sizes check_tx l txs app)
  unfolding filter_loop
  filter_loop-Waits l [] app p limited = Waits.done
  filter_loop-Waits l ([] ∷ txs) app p limited =
      Waits.removed (filter_loop-Waits l txs app p limited)
  filter_loop-Waits l ((b ∷ bs) ∷ txs) app p limited =
      let next : App = (check_tx app (b ∷ bs)).0 in
      elim (limited-cases l (length (b ∷ bs)) (check_tx app (b ∷ bs)).1 p limited) [
        | inl (unfit, out) ↦
            rw (unfit, out) (Waits.removed (filter_loop-Waits l txs next p limited))
        | inr (g, fit, out) ↦ rw (fit, out) (Waits.waits (filter_loop-Waits l txs next p limited))
      ]

  filter_loop-Split :
      (l : Limits) (txs : List (List ℕ)) (app : App) (p : Progress) (bytes gas : ℕ)
      → l.max_bytes < 2 ^ 63
      → l.max_gas < 2 ^ 63
      → IsWithin l bytes gas
      → Counts p bytes gas
      → Split l bytes gas (filter_loop check_tx l txs app p).1 (sizes check_tx l txs app)
  unfolding filter_loop
  filter_loop-Split l [] app p bytes gas small_bytes small_gas within counts = Split.done
  filter_loop-Split l ([] ∷ txs) app p bytes gas small_bytes small_gas within counts =
      Split.removed (filter_loop-Split l txs app p bytes gas small_bytes small_gas within counts)
  filter_loop-Split l ((b ∷ bs) ∷ txs) app p bytes gas small_bytes small_gas within counts =
      let next : App = (check_tx app (b ∷ bs)).0 in
      let n : ℕ = length (b ∷ bs) in
      let q : Progress = (filter_checked l n (check_tx app (b ∷ bs)).1 p).1 in
      elim (open-cases l n bytes gas (check_tx app (b ∷ bs)).1 p small_bytes small_gas within
        counts) [
          | inl (unfit, out) ↦
              rw (unfit, out)
                (Split.removed
                  (filter_loop-Split l txs next p bytes gas small_bytes small_gas within counts))
          | inr (g, fit, inl (more, status, counts')) ↦
              rw (fit, status)
                (Split.taken more (
                  filter_loop-Split l txs next q (bytes + n) (gas + g) small_bytes small_gas more
                    counts'))
          | inr (g, fit, inr (above, status, limited)) ↦
              rw (fit, status) (Split.full above (filter_loop-Waits l txs next q limited))
        ]

  -- With forced transactions, `FilterTxs` removes exactly the transactions that no block could hold:
  -- the empty ones, those that `CheckTx` refuses and those above a limit alone. Of the others it puts
  -- in the longest first run whose bytes and gas are within the limits, and postpones the rest. The
  -- limits are below 2^63.
  pub filter_txs-Split :
      (l : Limits) (txs : List (List ℕ)) (app : App)
      → l.max_bytes < 2 ^ 63
      → l.max_gas < 2 ^ 63
      → Split l 0 0 (filter_txs check_tx txs l true app).1 (sizes check_tx l txs app)
  unfolding filter_txs
  filter_txs-Split l txs app small_bytes small_gas =
      filter_loop-Split l txs app
        (record { cumulative_bytes = 0; cumulative_gas = 0; limit_reached = false }) 0 0 small_bytes
        small_gas (omega arith) (refl, refl, refl)
