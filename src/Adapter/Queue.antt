-- ===== src/Adapter/Queue.antt =====
-- `SetFinal` and `publishQueuedBlockEvents` of pkg/adapter/adapter.go: events of blocks that wait for
-- their block to be final.
pub mod Releasable
pub mod Order
use ev_abci.Prelude.{
  Bool, List, [], err, if◌then◌else◌, leb_ℤ, panic, suc, to_int64, to_uint64, zero, ℕ, ℤ, ◌&&◌, ◌+◌,
  ◌==◌, ◌∷◌,
}
use ev_abci.Prelude.Act.{Act, lift, pure, reads, ◌>>=◌, ◌>>◌}
use ev_abci.Network.Types.{BlockId}
use ev_abci.Store.{get_block_response, save_block_response}
use ev_abci.Adapter.Types.{Block, Node, Response, Validator}
use ev_abci.Adapter.Events.{fire_events}
use ev_abci.Adapter.Execute.{Adapter, save}

pub record StackedEvent : Type 0 where
  pub block_id : BlockId
  pub block : Block
  pub abci_response : Response
  pub validator_updates : List Validator

abbrev pub height_of : StackedEvent → ℤ
height_of event = event.block.header.height

-- Whether an event may be published once a height is final, by the block filter.
abbrev pub is_released : (ℤ → Bool) → ℤ → StackedEvent → Bool
is_released is_publishable persisted event =
    leb_ℤ (height_of event) persisted && is_publishable (height_of event)

-- The number of events up to the last that may be published: `maxPosReleased + 1`.
unfoldable pub released : (StackedEvent → Bool) → List StackedEvent → ℕ
released test [] = 0
released test (event ∷ events) =
    let later = released test events in
    if later == 0 then if test event then 1 else 0 else suc later

-- What is left of a list after its first elements.
abbrev pub drop {ℓ} : {A : Type ℓ} → ℕ → List A → List A
drop zero xs = xs
drop (suc n) [] = []
drop (suc n) (x ∷ xs) = drop n xs

module _ {App : Type 0} (a : Adapter App) where
  -- A round of the loop: the events of the block are saved with its response, and are published.
  unfoldable pub release_event : StackedEvent → Act (Node App) (Unit {0})
  release_event event = do
    response ← reads (λ node.
        get_block_response a.sources.codecs.is_nil a.sources.codecs.responses
          (to_uint64 (height_of event)) node.ds)
    save (
        save_block_response a.disk a.sources.codecs.responses (to_uint64 (height_of event))
          (record response { events = event.abci_response.events }))
    fire_events a.bus event.block event.block_id event.abci_response event.validator_updates

  -- The loop over `n` events from position `i` on, `cancelled` being whether the context is done at
  -- the start of a round. The result is the number of events that leave the queue.
  unfoldable pub release : (ℕ → Bool) → ℕ → ℕ → List StackedEvent → Act (Node App) ℕ
  release cancelled i zero events = pure i
  release cancelled i (suc n) [] = lift (err panic)
  release cancelled i (suc n) (event ∷ events) =
      let rest = release_event event >> release cancelled (i + 1) n events in
      if cancelled i then pure (i + 1) else rest

  -- `publishQueuedBlockEvents`, on the queue and the node. An error leaves the queue.
  unfoldable pub publish_queued :
      (ℤ → Bool) → (ℕ → Bool) → ℤ → List StackedEvent → Act (Node App) (List StackedEvent)
  publish_queued is_publishable cancelled persisted queue = do
    count ← release cancelled 0 (released (is_released is_publishable persisted) queue) queue
    pure (drop count queue)

  -- `SetFinal`: the queue after it is the old one where the call fails.
  unfoldable pub set_final :
      (ℤ → Bool) → (ℕ → Bool) → ℕ → List StackedEvent → Act (Node App) (List StackedEvent)
  unfolding publish_queued
  set_final is_publishable cancelled height queue =
      publish_queued is_publishable cancelled (to_int64 height) queue
