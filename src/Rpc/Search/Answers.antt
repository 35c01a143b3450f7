-- ===== src/Rpc/Search/Answers.antt =====
-- What `TxSearch` and `BlockSearch` of pkg/rpc/core answer.
use mathlib.Core.Path.{subst}
use ev_abci.Prelude.{
  Bool, List, Option, String, [], ap, arith, length, ltb_ℤ, map, ok, sym, ℕ, ℤ, ◌<◌, ◌^◌, ◌∙◌, ◌∷◌,
  ◌≡◌,
}
use ev_abci.Prelude.Outcome.{>>=-eq-ok, ok_injective}
use ev_abci.Adapter.Types.{Opaque}
use ev_abci.Adapter.Convert.{Comet}
use ev_abci.Rpc.Commits.{RpcEnv}
use ev_abci.Rpc.Blocks.{BlockSource, ResultBlock}
use ev_abci.Rpc.Search.{
  IndexedTx, Indexers, ResultTx, api_results, block_search, order_results, page_of, proof_if,
  searched_blocks, tx_less, tx_search,
}
use ev_abci.Rpc.Search.Sorting.{
  IsSorted, ltb_ℤ-IsAsymmetric, order_results-IsSorted, tx_less-IsAsymmetric,
}
use ev_abci.Rpc.Search.Window.{IsPage, page_of-IsPage}

-- A page of the results in the requested order.
pub record IsAnswer {A : Type 0} (less : A → A → Bool) (page per_page : Option ℤ)
    (order_by : String) (results window : List A) : Type 0 where
  pub sorted : List A
  pub in_order : IsSorted less order_by results sorted
  pub on_page : IsPage page per_page sorted window

module _ (comet : Comet) (env : RpcEnv) (blocks : BlockSource) (ix : Indexers) where
  found-api_results :
      (prove : Bool) (window : List IndexedTx) (txs : List ResultTx)
      → api_results comet env blocks ix prove window ≡ ok txs
      → map (λ (t : ResultTx). t.found_tx) txs ≡ window
  unfolding api_results
  found-api_results prove [] txs h = ap (map (λ (t : ResultTx). t.found_tx)) (sym (ok_injective h))
  found-api_results prove (t ∷ ts) txs h =
      let (proof, made, h1) = >>=-eq-ok (proof_if comet env blocks ix prove t) _ h in
      let (rest, others, h2) = >>=-eq-ok (api_results comet env blocks ix prove ts) _ h1 in
      ap (map (λ (t : ResultTx). t.found_tx)) (sym (ok_injective h2))
      ∙ ap (λ xs. t ∷ xs) (found-api_results prove ts rest others)

  -- Where the indexer finds fewer than 2^63 transactions, a `TxSearch` that succeeds answers with the
  -- number of all of them, and with one page of them in the requested order: at most a hundred, from
  -- the start of the requested page on, which lies within the results if there are any.
  pub tx_search-IsAnswer :
      (query : String) (prove : Bool) (page per_page : Option ℤ) (order_by : String) (q : Opaque)
      (results : List IndexedTx) (txs : List ResultTx) (total : ℕ)
      → ix.parse_query query ≡ ok q
      → ix.search_txs q ≡ ok results
      → length results < 2 ^ 63
      → tx_search comet env blocks ix query prove page per_page order_by ≡ ok (txs, total)
      → IsAnswer tx_less page per_page order_by results (map (λ (t : ResultTx). t.found_tx) txs)
        × (total ≡ length results)
  unfolding tx_search
  tx_search-IsAnswer query prove page per_page order_by q results txs total parsed found_ short h =
      let h1 = rw (parsed, found_) at h in
      let (sorted, ordered, h2) = >>=-eq-ok (order_results tx_less order_by results) _ h1 in
      let in_order =
        order_results-IsSorted tx_less order_by results sorted tx_less-IsAsymmetric ordered in
      let (window, paged, h3) = >>=-eq-ok (page_of page per_page sorted) _ h2 in
      let (made, proved, h4) = >>=-eq-ok (api_results comet env blocks ix prove window) _ h3 in
      let same_window : map (λ (t : ResultTx). t.found_tx) txs ≡ window =
        ap (λ a. map (λ (t : ResultTx). t.found_tx) a.0) (sym (ok_injective h4))
        ∙ found-api_results prove window made proved in
      (
        record {
          sorted = sorted;
          in_order = in_order;
          on_page = subst (IsPage page per_page sorted) (sym same_window) (
              page_of-IsPage page per_page sorted window
                (omega (arith, in_order.same_length, short)) paged);
        },
        sym (ap (λ a. a.1) (ok_injective h4)),
      )

  -- The same of `BlockSearch`, for the heights that the indexer finds; each block of the answer is the
  -- one of its height.
  pub block_search-IsAnswer :
      (query : String) (page per_page : Option ℤ) (order_by : String) (q : Opaque)
      (results : List ℤ) (found_blocks : List ResultBlock) (total : ℕ)
      → ix.parse_query query ≡ ok q
      → ix.search_blocks q ≡ ok results
      → length results < 2 ^ 63
      → block_search comet env blocks ix query page per_page order_by ≡ ok (found_blocks, total)
      → (window : List ℤ) × IsAnswer ltb_ℤ page per_page order_by results window
        × (searched_blocks comet env blocks ix window ≡ ok found_blocks)
        × (total ≡ length results)
  unfolding block_search
  block_search-IsAnswer query page per_page order_by q results found_blocks total parsed found_
        short h =
      let h1 = rw (parsed, found_) at h in
      let (sorted, ordered, h2) = >>=-eq-ok (order_results ltb_ℤ order_by results) _ h1 in
      let in_order =
        order_results-IsSorted ltb_ℤ order_by results sorted ltb_ℤ-IsAsymmetric ordered in
      let (window, paged, h3) = >>=-eq-ok (page_of page per_page sorted) _ h2 in
      let (made, searched, h4) = >>=-eq-ok (searched_blocks comet env blocks ix window) _ h3 in
      (
        window,
        record {
          sorted = sorted;
          in_order = in_order;
          on_page =
              page_of-IsPage page per_page sorted window
                (omega (arith, in_order.same_length, short)) paged;
        },
        searched ∙ ap (λ a. ok a.0) (ok_injective h4),
        sym (ap (λ a. a.1) (ok_injective h4)),
      )
