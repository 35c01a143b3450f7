-- ===== src/Adapter/Events.antt =====
-- `fireEvents` of pkg/adapter/adapter.go.
pub mod Order
use ev_abci.Prelude.{
  List, Result, [], err, length, ok, panic, to_int64, ℕ, ℤ, ◌%◌, ◌++◌, ◌+◌, ◌^◌, ◌∷◌,
}
use ev_abci.Prelude.Act.{Act, lift, pure, ◌>>=◌, ◌>>◌}
use ev_abci.Network.Types.{BlockId}
use ev_abci.Adapter.Types.{
  Block, BusEvent, Node, Opaque, Response, Validator, new_block, new_block_events, new_block_header,
  new_evidence, tx, validator_set_updates,
}

-- The answer of the event bus to an event.
abbrev pub Bus : Type 0
Bus = BusEvent → Result (Unit {0})

module _ {App : Type 0} (bus : Bus) where
  abbrev pub published_if : BusEvent → Result (Unit {0}) → Act (Node App) (Unit {0})
  published_if event (ok _) node = (ok tt, record node { published = node.published ++ event ∷ [] })
  published_if event (err e) node = (err e, node)

  unfoldable pub publish : BusEvent → Act (Node App) (Unit {0})
  publish event = published_if event (bus event)

  -- The loop over the evidence.
  unfoldable pub fire_evidence : ℤ → List Opaque → Act (Node App) (Unit {0})
  fire_evidence height [] = pure tt
  fire_evidence height (evidence ∷ more) =
      publish (new_evidence evidence height) >> fire_evidence height more

  -- The loop over the transactions from index `i` on; a result that is not there is a panic.
  unfoldable pub fire_txs : ℤ → ℕ → List (List ℕ) → List Opaque → Act (Node App) (Unit {0})
  fire_txs height i [] results = pure tt
  fire_txs height i (t ∷ txs) [] = lift (err panic)
  fire_txs height i (t ∷ txs) (result ∷ results) =
      publish (tx height (i % 2 ^ 32) t result) >> fire_txs height (i + 1) txs results

  -- The events of changed validators.
  abbrev pub fire_updates : List Validator → Act (Node App) (Unit {0})
  fire_updates [] = pure tt
  fire_updates (v ∷ vs) = publish (validator_set_updates (v ∷ vs))

  unfoldable pub fire_events :
      Block → BlockId → Response → List Validator → Act (Node App) (Unit {0})
  fire_events block block_id response updates = do
    publish (new_block block block_id response)
    publish (new_block_header block.header)
    publish (new_block_events block.header.height response.events (to_int64 (length block.txs)))
    fire_evidence block.header.height block.evidence
    fire_txs block.header.height 0 block.txs response.tx_results
    fire_updates updates
