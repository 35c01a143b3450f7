-- ===== src/Rpc/Search.antt =====
-- The search for blocks (blocks.go) and for transactions (tx.go) of pkg/rpc/core: sorted, a page at a
-- time.
pub mod Sorting
pub mod Window
pub mod Answers
use ev_abci.Prelude.{
  Bool, List, Option, Result, String, [], bytes_eq, eq_ℤ, err, false, get_elem?, if◌then◌else◌,
  int_eq, length, ltb, ltb_ℤ, map, nat_eq, negsuc, none, ok, or_fail, pair_eq, panic, plain, pos,
  same, some, string_eq, suc, to_uint64, true, zero, ℕ, ℤ, ◌-ℤ◌, ◌||◌, ◌∷◌,
}
use ev_abci.Prelude.Outcome.{◌>>=◌, ◌>>◌}
use ev_abci.Adapter.Types.{Opaque}
use ev_abci.Adapter.Convert.{Comet, to_abci_block, to_abci_header}
use ev_abci.Adapter.Commits.{get_last_commit}
use ev_abci.Rpc.{min_ℤ, validate_page, validate_per_page, validate_skip_count, wrap_int64}
use ev_abci.Rpc.Commits.{RpcEnv}
use ev_abci.Rpc.Blocks.{BlockSource, ResultBlock, header, parted_block}

-- A transaction of the indexer.
pub record IndexedTx : Type 0 where
  pub height : ℤ
  pub index : ℕ
  pub bytes : List ℕ
  pub result : Opaque

pub record TxProof : Type 0 where
  pub root_hash : List ℕ
  pub bytes : List ℕ
  pub proof : Opaque

pub record ResultTx : Type 0 where
  pub hash : List ℕ
  pub found_tx : IndexedTx
  pub proof : Option TxProof

-- The indexers, the hash of a transaction, and the Merkle root and proofs of some byte slices.
pub record Indexers : Type 0 where
  pub parse_query : String → Result Opaque
  pub search_blocks : Opaque → Result (List ℤ)
  pub search_txs : Opaque → Result (List IndexedTx)
  pub tx_by_hash : List ℕ → Result (Option IndexedTx)
  pub tx_hash : List ℕ → List ℕ
  pub merkle : List (List ℕ) → List ℕ × List Opaque

-- `sort.Slice` by a test of "less".
unfoldable pub insert_by : {A : Type 0} → (A → A → Bool) → A → List A → List A
insert_by less a [] = a ∷ []
insert_by less a (x ∷ xs) = if less x a then x ∷ insert_by less a xs else a ∷ (x ∷ xs)

unfoldable pub sort_by : {A : Type 0} → (A → A → Bool) → List A → List A
unfolding insert_by
sort_by less [] = []
sort_by less (a ∷ as_) = insert_by less a (sort_by less as_)

abbrev pub greater : {A : Type 0} → (A → A → Bool) → A → A → Bool
greater less a b = less b a

-- The results in the requested order.
unfoldable pub order_results : {A : Type 0} → (A → A → Bool) → String → List A → Result (List A)
unfolding sort_by
order_results less order_by results =
    if same order_by "desc"
    then ok (sort_by (greater less) results)
    else if same order_by "asc" || same order_by ""
    then ok (sort_by less results)
    else err plain

-- The order of `TxSearch`.
abbrev pub tx_less : IndexedTx → IndexedTx → Bool
tx_less a b = if eq_ℤ a.height b.height then ltb a.index b.index else ltb_ℤ a.height b.height

abbrev pub take {ℓ} : {A : Type ℓ} → ℕ → List A → List A
take zero xs = []
take (suc n) [] = []
take (suc n) (x ∷ xs) = x ∷ take n xs

abbrev pub skip {ℓ} : {A : Type ℓ} → ℕ → List A → List A
skip zero xs = xs
skip (suc n) [] = []
skip (suc n) (x ∷ xs) = skip n xs

-- A Go slice bound or capacity; a negative one is a panic.
abbrev pub bound : ℤ → Result ℕ
bound (pos n) = ok n
bound (negsuc n) = err panic

-- The page of sorted results that both searches loop over.
unfoldable pub page_of : {A : Type 0} → Option ℤ → Option ℤ → List A → Result (List A)
page_of page per_page results = do
  let total = pos (length results)
  let page_size = validate_per_page per_page
  number ← validate_page page page_size total
  size ← bound page_size
  let start = validate_skip_count number size
  from ← bound start
  count ← bound (min_ℤ page_size (wrap_int64 (total -ℤ start)))
  ok (take count (skip from results))

module _ (comet : Comet) (env : RpcEnv) (blocks : BlockSource) (ix : Indexers) where
  -- A round of `BlockSearch`; a block without header or data is a nil pointer.
  unfoldable pub searched_block : ℤ → Result ResultBlock
  searched_block height = do
    b ← blocks.block_data (to_uint64 height)
    last_commit ← get_last_commit env.sources (to_uint64 height) env.ds
    there ← or_fail b panic
    header ← to_abci_header comet there.signed.header last_commit
    made ← to_abci_block comet header last_commit there.txs
    parted_block comet env blocks made

  unfoldable pub searched_blocks : List ℤ → Result (List ResultBlock)
  unfolding searched_block
  searched_blocks [] = ok []
  searched_blocks (height ∷ heights) = do
    first ← searched_block height
    rest ← searched_blocks heights
    ok (first ∷ rest)

  -- `BlockSearch`: the blocks of a page, and the number of all results.
  unfoldable pub block_search :
      String → Option ℤ → Option ℤ → String → Result (List ResultBlock × ℕ)
  unfolding order_results page_of searched_blocks
  block_search query page per_page order_by = do
    q ← ix.parse_query query
    results ← ix.search_blocks q
    sorted ← order_results ltb_ℤ order_by results
    window ← page_of page per_page sorted
    made ← searched_blocks window
    ok (made, length results)

  -- `proofTXExists` and `hashList`.
  unfoldable pub proof_tx_exists : List (List ℕ) → ℕ → Result TxProof
  proof_tx_exists txs i = do
    let made = ix.merkle (map ix.tx_hash txs)
    bytes ← or_fail (get_elem? txs i) panic
    proof ← or_fail (get_elem? made.1 i) panic
    ok (record { root_hash = made.0; bytes = bytes; proof = proof })

  -- `buildProof`.
  unfoldable pub build_proof : ℤ → ℕ → Result TxProof
  unfolding proof_tx_exists
  build_proof height index = do
    b ← blocks.block_data (to_uint64 height)
    there ← or_fail b panic
    proof_tx_exists there.txs index

  -- The proof of a transaction, where one is asked for.
  abbrev pub proof_if : Bool → IndexedTx → Result (Option TxProof)
  proof_if false t = ok none
  proof_if true t = build_proof t.height t.index >>= λ proof. ok (some proof)

  -- `Tx`.
  unfoldable pub tx_of_hash : List ℕ → Bool → Result ResultTx
  unfolding build_proof
  tx_of_hash hash prove = do
    indexed ← ix.tx_by_hash hash
    t ← or_fail indexed plain
    proof ← proof_if prove t
    ok (record { hash = hash; found_tx = t; proof = proof })

  -- The loop of `TxSearch`.
  unfoldable pub api_results : Bool → List IndexedTx → Result (List ResultTx)
  unfolding build_proof
  api_results prove [] = ok []
  api_results prove (t ∷ ts) = do
    proof ← proof_if prove t
    rest ← api_results prove ts
    ok (record { hash = ix.tx_hash t.bytes; found_tx = t; proof = proof } ∷ rest)

  -- `TxSearch`.
  unfoldable pub tx_search :
      String → Bool → Option ℤ → Option ℤ → String → Result (List ResultTx × ℕ)
  unfolding order_results page_of api_results
  tx_search query prove page per_page order_by = do
    q ← ix.parse_query query
    results ← ix.search_txs q
    sorted ← order_results tx_less order_by results
    window ← page_of page per_page sorted
    made ← api_results prove window
    ok (made, length results)
