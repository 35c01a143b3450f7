-- ===== src/Adapter/Execute/Stages.antt =====
-- What `ExecuteTxs` of pkg/adapter/adapter.go has done wherever it ends.
use mathlib.Core.Path.{subst}
use ev_abci.Prelude.{
  Error, List, Option, Result, ap, bytes_eq, err, int_eq, leb, length, nat_eq, ok, or_fail, pair_eq,
  panic, plain, refl, require, string_eq, sym, ℕ, ◌++◌, ◌∙◌, ◌≡◌,
}
use ev_abci.Prelude.Act.{Act, continue, lift, pure, reads, ◌>>◌}
use ev_abci.Network.Types.{BlockId}
use ev_abci.Store.{Datastore, save_block_id, save_block_response, save_state}
use ev_abci.Adapter.Types.{Block, ChainState, EvHeader, Node, Opaque, Response, Validator}
use ev_abci.Adapter.Events.{fire_events}
use ev_abci.Adapter.Events.Order.{accepted, events_of, fire_events-sent, outcome, tx_end}
use ev_abci.Adapter.Convert.{make_abci_block, to_abci_header}
use ev_abci.Adapter.Commits.{get_last_commit}
use ev_abci.Adapter.Transition.{next_state}
use ev_abci.Adapter.Execute.Quiet.{
  IsQuiet, Same, Same-trans, after_quiet, after_write, bind-IsQuiet,
}
use ev_abci.Adapter.Execute.{
  Adapter, Executed, block_request, commit_app, execute_txs, load, on_app, run_block, save,
}

-- The app hash, once the events are published.
abbrev pub with_hash : Result (Unit {0}) → List ℕ → Result (List ℕ)
with_hash (ok _) hash = ok hash
with_hash (err e) hash = err e

-- Where a call of `ExecuteTxs` on a node may end.
pub data Stage {App : Type 0} (a : Adapter App) (height : ℕ) (node : Node App)
    : Result (List ℕ) × Node App → Type 0 where
  nothing_saved :
      (e : Error) (n : Node App)
      → n.ds ≡ node.ds
      → n.published ≡ node.published
      → Stage a height node (err e, n)
  state_saved :
      (e : Error) (n : Node App) (s : ChainState)
      → save_state a.disk a.sources.codecs.states s node.ds ≡ ok n.ds
      → n.published ≡ node.published
      → Stage a height node (err e, n)
  block_id_saved :
      (e : Error) (n : Node App) (s : ChainState) (id : BlockId) (d : Datastore)
      → save_state a.disk a.sources.codecs.states s node.ds ≡ ok d
      → save_block_id a.disk a.sources.codecs.ids height id d ≡ ok n.ds
      → n.published ≡ node.published
      → Stage a height node (err e, n)
  all_saved :
      (r : Result (List ℕ)) (n : Node App) (s : ChainState) (block : Block) (id : BlockId)
      (response : Response) (updates : List Validator) (d d' : Datastore)
      → save_state a.disk a.sources.codecs.states s node.ds ≡ ok d
      → save_block_id a.disk a.sources.codecs.ids height id d ≡ ok d'
      → save_block_response a.disk a.sources.codecs.responses height response d' ≡ ok n.ds
      → n.published ≡ node.published ++ accepted a.bus (events_of block id response updates)
      → r
        ≡ with_hash
            (outcome a.bus
              (events_of block id response updates)
              (tx_end block.txs response.tx_results))
            response.app_hash
      → Stage a height node (r, n)

module _ {App : Type 0} (a : Adapter App) where
  pub run_block-IsQuiet :
      (txs : List (List ℕ)) (height : ℕ) (time : Opaque) (ev_header : Option EvHeader)
      → IsQuiet (run_block a txs height time ev_header)
  unfolding run_block
  run_block-IsQuiet txs height time ev_header =
      bind-IsQuiet (load a) _ (λ n. (refl, refl))
        λ s.
          bind-IsQuiet (lift (or_fail ev_header plain)) _ (λ n. (refl, refl))
            λ header.
              bind-IsQuiet (reads (λ node. get_last_commit a.sources height node.ds)) _
                (λ n. (refl, refl))
                λ last_commit.
                  bind-IsQuiet (lift (to_abci_header a.comet header last_commit)) _
                    (λ n. (refl, refl))
                    λ abci_header.
                      bind-IsQuiet
                        (lift (make_abci_block a.comet height txs s abci_header last_commit)) _
                        (λ n. (refl, refl))
                        λ made.
                          bind-IsQuiet (lift (or_fail s.validators.proposer panic)) _
                            (λ n. (refl, refl))
                            λ proposer.
                              bind-IsQuiet
                                (on_app (
                                  a.calls.process_proposal (
                                    block_request a height txs time s abci_header last_commit
                                      proposer)))
                                _ (λ n. (refl, refl))
                                λ accepted.
                                  bind-IsQuiet (lift (require accepted plain)) _ (λ n. (refl, refl))
                                    λ u.
                                      bind-IsQuiet
                                        (on_app (
                                          a.calls.finalize_block (
                                            block_request a height txs time s abci_header
                                              last_commit proposer)))
                                        _ (λ n. (refl, refl))
                                        λ response.
                                          bind-IsQuiet
                                            (lift (
                                              require
                                                (leb (length txs) (length response.tx_results))
                                                panic))
                                            _ (λ n. (refl, refl)) λ v n. (refl, refl)

  pub commit_app-IsQuiet :
      (height : ℕ) (txs : List (List ℕ)) (response : Response) (s : ChainState)
      → IsQuiet (commit_app a height txs response s)
  unfolding commit_app
  commit_app-IsQuiet height txs response s =
      bind-IsQuiet (on_app a.calls.flush_app_conn) _ (λ n. (refl, refl))
        λ u. bind-IsQuiet (on_app a.calls.commit) _ (λ n. (refl, refl)) λ v n. (refl, refl)

  -- The last step, when all is saved.
  pub fired :
      (done : Executed) (updates : List Validator) (n : Node App)
      → (fire_events a.bus done.block done.block_id done.response updates
            >> pure done.response.app_hash)
          n
        ≡ (
          with_hash
              (outcome a.bus
                (events_of done.block done.block_id done.response updates)
                (tx_end done.block.txs done.response.tx_results))
              done.response.app_hash,
          record n {
            published =
                n.published
                ++ accepted a.bus (events_of done.block done.block_id done.response updates);
          },
        )
  fired done updates n =
      ap (λ out. continue out (λ _. pure done.response.app_hash))
        (fire_events-sent a.bus done.block done.block_id done.response updates n)
      ∙ by_outcome
          (outcome a.bus (events_of done.block done.block_id done.response updates)
            (tx_end done.block.txs done.response.tx_results))
          _
    where
      by_outcome :
          (r : Result (Unit {0})) (m : Node App)
          → continue (r, m) (λ _. pure done.response.app_hash)
            ≡ (with_hash r done.response.app_hash, m)
      by_outcome (ok u) m = refl
      by_outcome (err e) m = refl

  -- The end of `ExecuteTxs`, from the first save on.
  abbrev record_block :
      ℕ → List (List ℕ) → Executed → ChainState × List Validator → Act (Node App) (List ℕ)
  record_block height txs done next =
      save (save_state a.disk a.sources.codecs.states next.0)
      >> (commit_app a height txs done.response next.0
          >> (save (save_block_id a.disk a.sources.codecs.ids height done.block_id)
              >> (save (save_block_response a.disk a.sources.codecs.responses height done.response)
                  >> (fire_events a.bus done.block done.block_id done.response next.1
                      >> pure done.response.app_hash))))

  record_block-Stage :
      (height : ℕ) (txs : List (List ℕ)) (done : Executed) (next : ChainState × List Validator)
      (node n : Node App)
      → Same node n
      → Stage a height node (record_block height txs done next n)
  record_block-Stage height txs done next node n (same_ds, same_events) =
      after_write (Stage a height node) (save_state a.disk a.sources.codecs.states next.0) _ n
        (λ e. Stage.nothing_saved e n same_ds same_events)
        (λ d saved.
          let first : save_state a.disk a.sources.codecs.states next.0 node.ds ≡ ok d =
            ap (save_state a.disk a.sources.codecs.states next.0) (sym same_ds) ∙ saved in
          after_quiet (Stage a height node) (commit_app a height txs done.response next.0) _
            (record n { ds = d }) (commit_app-IsQuiet height txs done.response next.0)
            (λ e m kept.
              Stage.state_saved e m next.0 (first ∙ ap ok (sym kept.0)) (kept.1 ∙ same_events))
            (λ u m committed kept.
              after_write (Stage a height node)
                (save_block_id a.disk a.sources.codecs.ids height done.block_id) _ m
                (λ e.
                  Stage.state_saved e m next.0 (first ∙ ap ok (sym kept.0)) (kept.1 ∙ same_events))
                (λ d' saved_id.
                  after_write (Stage a height node)
                    (save_block_response a.disk a.sources.codecs.responses height done.response) _
                    (record m { ds = d' })
                    (λ e.
                      Stage.block_id_saved e (record m { ds = d' }) next.0 done.block_id m.ds
                        (first ∙ ap ok (sym kept.0)) saved_id (kept.1 ∙ same_events))
                    (λ d'' saved_response.
                      subst (Stage a height node) (sym (fired done next.1 (record m { ds = d'' })))
                        (Stage.all_saved _ _ next.0 done.block done.block_id done.response next.1
                          m.ds d' (first ∙ ap ok (sym kept.0)) saved_id saved_response
                          (ap
                            (λ xs.
                              xs
                              ++ accepted a.bus
                                  (events_of done.block done.block_id done.response next.1))
                            (kept.1 ∙ same_events))
                          refl)))))

  -- Wherever `ExecuteTxs` ends, its store is the old one, the one with the state saved, with the
  -- block id saved after it, or with the response saved after both. It fails in all cases but the
  -- last, and only in the last does it publish events: those of the block in their order, up to the
  -- first that the bus refuses, and only then can it succeed.
  pub execute_txs-Stage :
      (txs : List (List ℕ)) (height : ℕ) (time : Opaque) (ev_header : Option EvHeader)
      (node : Node App)
      → Stage a height node (execute_txs a txs height time ev_header node)
  unfolding execute_txs
  execute_txs-Stage txs height time ev_header node =
      after_quiet (Stage a height node) (run_block a txs height time ev_header) _ node
        (run_block-IsQuiet txs height time ev_header)
        (λ e n same. Stage.nothing_saved e n same.0 same.1)
        (λ done n ran same.
          after_quiet (Stage a height node)
            (lift (next_state a.comet height done.response done.state)) _ n (λ n. (refl, refl))
            (λ e n' same'. Stage.nothing_saved e n' (same'.0 ∙ same.0) (same'.1 ∙ same.1))
            (λ next n' stepped same'.
              record_block-Stage height txs done next node n' (Same-trans node n n' same same')))
