-- ===== src/Adapter/Filter/Tests.antt =====
-- Tests of the model of `FilterTxs` in pkg/adapter/adapter.go, and its theorem at a concrete input.
use ev_abci.Prelude.{
  List, Result, [], arith, err, if◌then◌else◌, ok, plain, pos, refl, to_uint64, true, ℕ, ◌+◌, ◌==◌,
  ◌∷◌, ◌≡◌,
}
use ev_abci.Adapter.Filter.{
  CheckTxResponse, Limits, filter_accepted, filter_loop, filter_ok, filter_postpone, filter_remove,
  filter_txs,
}
use ev_abci.Adapter.Filter.Split.{Split, sizes}
use ev_abci.Adapter.Filter.Loop.{filter_txs-Split}

-- An application that wants as much gas as a transaction's first byte says, refuses those with first
-- byte 0, and counts its calls.
abbrev check : ℕ → List ℕ → ℕ × Result CheckTxResponse
check calls [] = (calls + 1, err plain)
check calls (b ∷ bs) =
    (calls + 1, ok (record { code = if b == 0 then 1 else 0; gas_wanted = pos b }))

abbrev limits : Limits
limits = record { max_bytes = 6; max_gas = 10 }

abbrev txs : List (List ℕ)
txs =
    (4 ∷ 1 ∷ [])
    ∷ []
    ∷ (0 ∷ [])
    ∷ (11 ∷ [])
    ∷ (5 ∷ 1 ∷ 1 ∷ [])
    ∷ (1 ∷ 1 ∷ [])
    ∷ (1 ∷ 1 ∷ 1 ∷ 1 ∷ 1 ∷ 1 ∷ 1 ∷ [])
    ∷ (1 ∷ [])
    ∷ []

filtered : filter_txs check txs limits true 0 ≡ (
  7,
  filter_ok ∷ filter_remove ∷ filter_remove ∷ filter_remove ∷ filter_ok ∷ filter_postpone
      ∷ filter_remove ∷ filter_postpone ∷ [],
)
unfolding filter_txs filter_loop filter_accepted to_uint64
filtered = refl

filter_txs-Split_example :
    Split limits 0 0 (filter_txs check txs limits true 0).1 (sizes check limits txs 0)
filter_txs-Split_example = filter_txs-Split check limits txs 0 (omega arith) (omega arith)
