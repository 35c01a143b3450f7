-- ===== src/Adapter/Queue/Order.antt =====
-- The order of the queued events in pkg/adapter/adapter.go, with and without a cancelled context.
use mathlib.Core.Path.{subst}
use mathlib.Core.List.{append-nil, append_assoc}
use ev_abci.Prelude.{
  Bool, List, [], ap, arith, false, if◌then◌else◌, inl, inr, ok, refl, suc, sym, to_int64,
  to_uint64, true, zero, ℕ, ℤ, ◌++◌, ◌+◌, ◌<◌, ◌==◌, ◌∙◌, ◌∷◌, ◌≡◌, ◌≤◌, ◌⊎◌,
}
use ev_abci.Prelude.Act.{Ensures, bind-Ensures, pure-Ensures, reads-Ensures}
use ev_abci.Store.{get_block_response, save_block_response}
use ev_abci.Adapter.Types.{BusEvent, Node}
use ev_abci.Adapter.Events.Order.{events_of}
use ev_abci.Adapter.Execute.{Adapter, save}
use ev_abci.Adapter.Execute.Made.{fire_ok, save_ok}
use ev_abci.Adapter.Queue.Releasable.{EndsReleased, IsHeld, released-split, take}
use ev_abci.Adapter.Queue.{
  StackedEvent, drop, height_of, is_released, release, release_event, released, set_final,
}

-- The events of some blocks, in order.
abbrev pub all_events : List StackedEvent → List BusEvent
all_events [] = []
all_events (event ∷ more) =
    events_of event.block event.block_id event.abci_response event.validator_updates
    ++ all_events more

take-drop :
    (n : ℕ) (queue : List StackedEvent)
    → all_events queue ≡ all_events (take n queue) ++ all_events (drop n queue)
take-drop zero queue = refl
take-drop (suc n) [] = refl
take-drop (suc n) (e ∷ es) =
    ap (λ xs. events_of e.block e.block_id e.abci_response e.validator_updates ++ xs)
      (take-drop n es)
    ∙ sym (append_assoc (events_of e.block e.block_id e.abci_response e.validator_updates) _ _)

module _ {App : Type 0} (a : Adapter App) where
  -- A round publishes the events of its block.
  release_event-events :
      (event : StackedEvent) (node : Node App)
      → Ensures
          (λ _ after.
            after.published
            ≡ node.published
              ++ events_of event.block event.block_id event.abci_response event.validator_updates)
          (release_event a event)
          node
  unfolding release_event
  release_event-events event node =
      reads-Ensures Q
        (λ n.
          get_block_response a.sources.codecs.is_nil a.sources.codecs.responses
            (to_uint64 (height_of event)) n.ds)
        _ node
        λ response loaded.
          bind-Ensures Q
            (save (
              save_block_response a.disk a.sources.codecs.responses (to_uint64 (height_of event))
                (record response { events = event.abci_response.events })))
            _ node
            λ u n1 saved. record {
              holds = λ v n2 fired_.
                  (fire_ok a event.block event.block_id event.abci_response event.validator_updates
                    n1 fired_).1
                  ∙ ap
                      (λ xs.
                        xs
                        ++ events_of event.block event.block_id event.abci_response
                            event.validator_updates)
                      (save_ok a
                        (save_block_response a.disk a.sources.codecs.responses
                          (to_uint64 (height_of event))
                          (record response { events = event.abci_response.events }))
                        node saved).1;
            }
    where
      Q : Unit {0} → Node App → Type 0
      Q u after =
          after.published
          ≡ node.published
            ++ events_of event.block event.block_id event.abci_response event.validator_updates

  -- The loop until its end, or until round `k` where the context is done.
  release-events :
      (cancelled : ℕ → Bool) (i n k : ℕ) (events : List StackedEvent) (node : Node App)
      → ((j : ℕ) → i ≤ j → j < i + k → cancelled j ≡ false)
      → (k ≡ n) ⊎ ((k < n) × (cancelled (i + k) ≡ true))
      → Ensures
          (λ count after.
            (after.published ≡ node.published ++ all_events (take k events))
            × (count ≡ (if k == n then i + n else i + k + 1)))
          (release a cancelled i n events)
          node
  unfolding release
  release-events cancelled i zero zero events node going stop =
      pure-Ensures _ i node (sym (append-nil node.published), omega arith)
  release-events cancelled i zero (suc k) events node going stop =
      absurd (elim stop [ inl e ↦ omega arith | inr (lt, c) ↦ omega arith ])
  release-events cancelled i (suc n) zero [] node going stop = record { holds = λ b end h. cc }
  release-events cancelled i (suc n) (suc k) [] node going stop = record { holds = λ b end h. cc }
  release-events cancelled i (suc n) zero (event ∷ events) node going stop =
      let done : cancelled i ≡ true = elim stop [
        | inl none_left ↦ absurd (omega arith)
        | inr (more, c) ↦ ap cancelled (omega arith) ∙ c
      ] in
      rw done (pure-Ensures _ (i + 1) node (sym (append-nil node.published), ground arith))
  release-events cancelled i (suc n) (suc k) (event ∷ events) node going stop =
      let on : cancelled i ≡ false = going i (omega arith) (omega arith) in
      let stop' : (k ≡ n) ⊎ ((k < n) × (cancelled (i + 1 + k) ≡ true)) = elim stop [
        | inl all ↦ inl (omega arith)
        | inr (more, c) ↦ inr (omega arith, ap cancelled (omega arith) ∙ c)
      ] in
      rw on (
        bind-Ensures
          (λ count after.
            (after.published ≡ node.published ++ all_events (take (suc k) (event ∷ events)))
            × (count ≡ (if suc k == suc n then i + suc n else i + suc k + 1)))
          (release_event a event) _ node
          λ u n1 released_. record {
            holds = λ count after ended.
                let (published, counted) =
                  (release-events cancelled (i + 1) n k events n1
                      (λ j low high. going j (omega arith) (omega arith)) stop').holds
                    count after ended in
                (
                  published
                      ∙ ap (λ xs. xs ++ all_events (take k events))
                          ((release_event-events event node).holds u n1 released_)
                      ∙ append_assoc node.published
                          (events_of event.block event.block_id event.abci_response
                            event.validator_updates)
                          _,
                  counted ∙ ground arith,
                );
          })

  -- When a call comes to its end with the context never done, the events that were published before,
  -- then those of the queue, are the events published after and those of the queue after. The new
  -- queue is the old one less its first blocks, the last of which is final and publishable, and no
  -- block of it is.
  pub set_final-order :
      (is_publishable : ℤ → Bool) (cancelled : ℕ → Bool) (height : ℕ)
      (queue queue' : List StackedEvent) (node after : Node App)
      → ((j : ℕ) → cancelled j ≡ false)
      → set_final a is_publishable cancelled height queue node ≡ (ok queue', after)
      → (after.published ++ all_events queue' ≡ node.published ++ all_events queue)
        × IsHeld (is_released is_publishable (to_int64 height)) queue'
        × ((n : ℕ) × (queue' ≡ drop n queue)
            × EndsReleased (is_released is_publishable (to_int64 height)) (take n queue))
  unfolding set_final
  set_final-order is_publishable cancelled height queue queue' node after going ended =
      (bind-Ensures Q (release a cancelled 0 n queue) _ node λ count n1 looped.
          let (published, counted) =
            (release-events cancelled 0 n n queue node (λ j low high. going j) (inl refl)).holds
              count n1 looped in
          let all : count ≡ n = counted ∙ ground arith in
          let (held, ends) = released-split test queue in
          pure-Ensures Q (drop count queue) n1 (
            ap (λ xs. xs ++ all_events (drop count queue)) published
                ∙ append_assoc node.published (all_events (take n queue))
                    (all_events (drop count queue))
                ∙ ap
                    (λ c.
                      node.published ++ (all_events (take n queue) ++ all_events (drop c queue)))
                    all
                ∙ ap (λ xs. node.published ++ xs) (sym (take-drop n queue)),
            subst (λ c. IsHeld test (drop c queue)) (sym all) held,
            (n, ap (λ c. drop c queue) all, ends),
          )).holds
        queue' after ended
    where
      test : StackedEvent → Bool
      test = is_released is_publishable (to_int64 height)

      n : ℕ
      n = released test queue

      Q : List StackedEvent → Node App → Type 0
      Q q end =
          (end.published ++ all_events q ≡ node.published ++ all_events queue)
          × IsHeld test q
          × ((m : ℕ) × (q ≡ drop m queue) × EndsReleased test (take m queue))

  -- When the context is done at round `k`, before the last block to publish, a call that succeeds has
  -- published the events of the first k blocks, and yet takes k + 1 blocks out of the queue: those of
  -- block k are never published.
  pub set_final-lost :
      (is_publishable : ℤ → Bool) (cancelled : ℕ → Bool) (height k : ℕ)
      (queue queue' : List StackedEvent) (node after : Node App)
      → ((j : ℕ) → j < k → cancelled j ≡ false)
      → cancelled k ≡ true
      → k < released (is_released is_publishable (to_int64 height)) queue
      → set_final a is_publishable cancelled height queue node ≡ (ok queue', after)
      → (after.published ≡ node.published ++ all_events (take k queue))
        × (queue' ≡ drop (k + 1) queue)
  unfolding set_final
  set_final-lost is_publishable cancelled height k queue queue' node after going done early ended =
      (bind-Ensures Q (release a cancelled 0 n queue) _ node λ count n1 looped.
          let (published, counted) =
            (release-events cancelled 0 n k queue node (λ j low high. going j (omega arith))
                (inr (early, ap cancelled (omega arith) ∙ done))).holds
              count n1 looped in
          let other : (k == n) ≡ false = ground arith in
          let gone : count ≡ k + 1 = counted ∙ rw other (omega arith) in
          pure-Ensures Q (drop count queue) n1 (published, ap (λ c. drop c queue) gone)).holds
        queue' after ended
    where
      n : ℕ
      n = released (is_released is_publishable (to_int64 height)) queue

      Q : List StackedEvent → Node App → Type 0
      Q q end =
          (end.published ≡ node.published ++ all_events (take k queue)) × (q ≡ drop (k + 1) queue)
