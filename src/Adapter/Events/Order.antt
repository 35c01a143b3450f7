-- ===== src/Adapter/Events/Order.antt =====
-- The events that `fireEvents` of pkg/adapter/adapter.go publishes, in their order.
use mathlib.Core.List.{append-nil, append_assoc}
use ev_abci.Prelude.{
  List, Result, [], ap, err, length, ok, panic, refl, sym, to_int64, ℕ, ℤ, ◌%◌, ◌++◌, ◌+◌, ◌^◌, ◌∙◌,
  ◌∷◌, ◌≡◌,
}
use ev_abci.Prelude.Act.{Act, continue, continue_assoc, ◌>>◌}
use ev_abci.Network.Types.{BlockId}
use ev_abci.Adapter.Types.{
  Block, BusEvent, Node, Opaque, Response, Validator, new_block, new_block_events, new_block_header,
  new_evidence, tx, validator_set_updates,
}
use ev_abci.Adapter.Events.{
  Bus, fire_events, fire_evidence, fire_txs, fire_updates, publish, published_if,
}

-- An event before others, by the bus's answer to it.
abbrev pub accepted_if : Result (Unit {0}) → BusEvent → List BusEvent → List BusEvent
accepted_if (ok _) event rest = event ∷ rest
accepted_if (err e) event rest = []

-- The first events, up to the first that the bus refuses.
abbrev pub accepted : Bus → List BusEvent → List BusEvent
accepted bus [] = []
accepted bus (event ∷ events) = accepted_if (bus event) event (accepted bus events)

abbrev pub then_result : Result (Unit {0}) → Result (Unit {0}) → Result (Unit {0})
then_result (ok _) rest = rest
then_result (err e) rest = err e

-- The first refusal, or else how the sequence ends.
abbrev pub outcome : Bus → List BusEvent → Result (Unit {0}) → Result (Unit {0})
outcome bus [] end = end
outcome bus (event ∷ events) end = then_result (bus event) (outcome bus events end)

-- The transactions with their indices and results.
abbrev pub tx_events : ℤ → ℕ → List (List ℕ) → List Opaque → List BusEvent
tx_events height i [] results = []
tx_events height i (t ∷ txs) [] = []
tx_events height i (t ∷ txs) (result ∷ results) =
    tx height (i % 2 ^ 32) t result ∷ tx_events height (i + 1) txs results

-- A missing result is a panic.
abbrev pub tx_end : List (List ℕ) → List Opaque → Result (Unit {0})
tx_end [] results = ok tt
tx_end (t ∷ txs) [] = err panic
tx_end (t ∷ txs) (result ∷ results) = tx_end txs results

abbrev pub update_events : List Validator → List BusEvent
update_events [] = []
update_events (v ∷ vs) = validator_set_updates (v ∷ vs) ∷ []

abbrev pub evidence_events : ℤ → List Opaque → List BusEvent
evidence_events height [] = []
evidence_events height (e ∷ es) = new_evidence e height ∷ evidence_events height es

-- What comes after the transactions, unless a result was missing.
abbrev pub after_txs : Result (Unit {0}) → List BusEvent → List BusEvent
after_txs (ok _) events = events
after_txs (err e) events = []

-- All events of a block: the block, its header, its events, its evidence, its transactions in order,
-- and the changed validators.
abbrev pub events_of : Block → BlockId → Response → List Validator → List BusEvent
events_of block block_id response updates =
    new_block block block_id response
    ∷ new_block_header block.header
    ∷ new_block_events block.header.height response.events (to_int64 (length block.txs))
    ∷ (evidence_events block.header.height block.evidence
        ++ (tx_events block.header.height 0 block.txs response.tx_results
            ++ after_txs (tx_end block.txs response.tx_results) (update_events updates)))

module _ {App : Type 0} (bus : Bus) where
  -- Events that are published one after the other.
  abbrev pub sent : List BusEvent → Result (Unit {0}) → Node App → Result (Unit {0}) × Node App
  sent events end node =
      (outcome bus events end, record node { published = node.published ++ accepted bus events })

  -- What follows a published event is published after it.
  publish-cons :
      (event : BusEvent) (events : List BusEvent) (end : Result (Unit {0}))
      (rest : Act (Node App) (Unit {0})) (node : Node App)
      → ((n : Node App) → rest n ≡ sent events end n)
      → (publish bus event >> rest) node ≡ sent (event ∷ events) end node
  unfolding publish
  publish-cons event events end rest node later = by_answer (bus event)
    where
      by_answer :
          (answer : Result (Unit {0}))
          → continue (published_if bus event answer node) (λ _. rest) ≡ (
            then_result answer (outcome bus events end),
            record node {
              published = node.published ++ accepted_if answer event (accepted bus events);
            },
          )
      by_answer (ok _) =
          later (record node { published = node.published ++ event ∷ [] })
          ∙ ap (λ (xs : List BusEvent). (outcome bus events end, record node { published = xs }))
              (append_assoc node.published (event ∷ []) (accepted bus events))
      by_answer (err e) =
          ap (λ (xs : List BusEvent). (err e, record node { published = xs }))
            (sym (append-nil node.published))

  nothing-sent : (end : Result (Unit {0})) (node : Node App) → (end, node) ≡ sent [] end node
  nothing-sent end node =
      ap (λ (xs : List BusEvent). (end, record node { published = xs }))
        (sym (append-nil node.published))

  module _ (events : List BusEvent) (end : Result (Unit {0})) (rest : Act (Node App) (Unit {0}))
      (later : (n : Node App) → rest n ≡ sent events end n) where
    fire_evidence-then :
        (height : ℤ) (evidence : List Opaque) (node : Node App)
        → (fire_evidence bus height evidence >> rest) node
          ≡ sent (evidence_events height evidence ++ events) end node
    unfolding fire_evidence
    fire_evidence-then height [] node = later node
    fire_evidence-then height (e ∷ es) node =
        continue_assoc (publish bus (new_evidence e height) node) (λ _. fire_evidence bus height es)
          (λ _. rest)
        ∙ publish-cons (new_evidence e height) (evidence_events height es ++ events) end
            (fire_evidence bus height es >> rest) node (fire_evidence-then height es)

    fire_txs-then :
        (height : ℤ) (i : ℕ) (txs : List (List ℕ)) (results : List Opaque) (node : Node App)
        → (fire_txs bus height i txs results >> rest) node
          ≡ sent
              (tx_events height i txs results ++ after_txs (tx_end txs results) events)
              (then_result (tx_end txs results) end)
              node
    unfolding fire_txs
    fire_txs-then height i [] results node = later node
    fire_txs-then height i (t ∷ txs) [] node = nothing-sent (err panic) node
    fire_txs-then height i (t ∷ txs) (result ∷ results) node =
        let event : BusEvent = tx height (i % 2 ^ 32) t result in
        continue_assoc (publish bus event node) (λ _. fire_txs bus height (i + 1) txs results)
          (λ _. rest)
        ∙ publish-cons event
            (tx_events height (i + 1) txs results ++ after_txs (tx_end txs results) events)
            (then_result (tx_end txs results) end) (fire_txs bus height (i + 1) txs results >> rest)
            node (fire_txs-then height (i + 1) txs results)

  fire_updates-sent :
      (updates : List Validator) (node : Node App)
      → fire_updates bus updates node ≡ sent (update_events updates) (ok tt) node
  unfolding publish
  fire_updates-sent [] node = nothing-sent (ok tt) node
  fire_updates-sent (v ∷ vs) node = by_answer (bus (validator_set_updates (v ∷ vs)))
    where
      by_answer :
          (answer : Result (Unit {0}))
          → published_if bus (validator_set_updates (v ∷ vs)) answer node ≡ (
            then_result answer (ok tt),
            record node {
              published = node.published ++ accepted_if answer (validator_set_updates (v ∷ vs)) [];
            },
          )
      by_answer (ok _) = refl
      by_answer (err e) = nothing-sent (err e) node

  -- `fireEvents` publishes the events of a block in their order: the block, its header, its events,
  -- the evidence, the transactions with their indices and results, and the changed validators. It
  -- stops at the first event that the bus refuses, with its error, and panics where a transaction
  -- has no result, after those that have one.
  pub fire_events-sent :
      (block : Block) (block_id : BlockId) (response : Response) (updates : List Validator)
      (node : Node App)
      → fire_events bus block block_id response updates node
        ≡ sent
            (events_of block block_id response updates)
            (tx_end block.txs response.tx_results)
            node
  unfolding fire_events
  fire_events-sent block block_id response updates node =
      publish-cons first (header ∷ block_events ∷ later_events) end
        (publish bus header >> (publish bus block_events >> evidence_rest)) node
        (λ n1.
          publish-cons header (block_events ∷ later_events) end
            (publish bus block_events >> evidence_rest) n1
            (λ n2. publish-cons block_events later_events end evidence_rest n2 (λ n3.
              fire_evidence-then txs_events end txs_rest
                (λ n4.
                  fire_txs-then (update_events updates) (ok tt) (fire_updates bus updates)
                    (fire_updates-sent updates) height 0 block.txs response.tx_results n4
                  ∙ ap (λ r. sent txs_events r n4) (then_ok end))
                height block.evidence n3)))
    where
      height : ℤ
      height = block.header.height

      first : BusEvent
      first = new_block block block_id response

      header : BusEvent
      header = new_block_header block.header

      block_events : BusEvent
      block_events = new_block_events height response.events (to_int64 (length block.txs))

      end : Result (Unit {0})
      end = tx_end block.txs response.tx_results

      txs_events : List BusEvent
      txs_events =
          tx_events height 0 block.txs response.tx_results ++ after_txs end (update_events updates)

      later_events : List BusEvent
      later_events = evidence_events height block.evidence ++ txs_events

      txs_rest : Act (Node App) (Unit {0})
      txs_rest = fire_txs bus height 0 block.txs response.tx_results >> fire_updates bus updates

      evidence_rest : Act (Node App) (Unit {0})
      evidence_rest = fire_evidence bus height block.evidence >> txs_rest

      then_ok : (r : Result (Unit {0})) → then_result r (ok tt) ≡ r
      then_ok (ok u) = refl
      then_ok (err e) = refl
