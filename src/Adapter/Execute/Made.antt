-- ===== src/Adapter/Execute/Made.antt =====
-- The block that `ExecuteTxs` of pkg/adapter/adapter.go makes, and the steps of it that succeed.
use ev_abci.Prelude.{
  List, Result, [], ap, err, leb, length, ok, or_fail, panic, plain, refl, require, some, sym, true,
  ℕ, ◌++◌, ◌∙◌, ◌∷◌, ◌≡◌,
}
use ev_abci.Prelude.Act.{Ensures, bind-Ensures, pure-Ensures, reads-Ensures}
use ev_abci.Prelude.Outcome.{ok_injective, or_fail_ok, require_ok}
use ev_abci.Network.Types.{BlockId}
use ev_abci.Store.{Datastore, load_state}
use ev_abci.Adapter.Types.{
  AbciHeader, Block, BusEvent, ChainState, Commit, EvHeader, Node, Opaque, Response, Validator,
}
use ev_abci.Adapter.Events.{fire_events}
use ev_abci.Adapter.Events.Order.{
  accepted, accepted_if, events_of, fire_events-sent, outcome, sent, then_result, tx_end,
}
use ev_abci.Adapter.Convert.{make_abci_block, to_abci_header}
use ev_abci.Adapter.Commits.{get_last_commit}
use ev_abci.Adapter.Execute.Quiet.{on_app_ok}
use ev_abci.Adapter.Execute.{
  Adapter, Executed, after_save, block_request, load, on_app, run_block, save,
}

module _ {App : Type 0} (a : Adapter App) where
  -- The block that the adapter makes of a header and transactions on the store.
  pub record IsMade (txs : List (List ℕ)) (height : ℕ) (ev_header : EvHeader) (ds : Datastore)
      (s : ChainState) (block : Block) (id : BlockId) : Type 0 where
    pub last_commit : Commit
    pub abci_header : AbciHeader
    pub loaded :
        load_state a.sources.codecs.is_nil a.sources.codecs.states a.sources.codecs.empty ds ≡ ok s
    pub committed : get_last_commit a.sources height ds ≡ ok last_commit
    pub converted : to_abci_header a.comet ev_header last_commit ≡ ok abci_header
    pub made : make_abci_block a.comet height txs s abci_header last_commit ≡ ok (block, id)

  -- What a run of a block has done: the block is made, and the application accepted the proposal of
  -- it and answered its finalization with the response, which has a result for each transaction.
  pub record IsRun (txs : List (List ℕ)) (height : ℕ) (time : Opaque) (ev_header : EvHeader)
      (before : Node App) (done : Executed) (app : App) : Type 0 where
    pub made : IsMade txs height ev_header before.ds done.state done.block done.block_id
    pub proposer : List ℕ
    pub known : done.state.validators.proposer ≡ some proposer
    pub proposed_to : App
    pub proposed :
        a.calls.process_proposal
          (block_request a height txs time done.state made.abci_header made.last_commit proposer)
          before.app
        ≡ (ok true, proposed_to)
    pub finalized :
        a.calls.finalize_block
          (block_request a height txs time done.state made.abci_header made.last_commit proposer)
          proposed_to
        ≡ (ok done.response, app)
    pub complete : leb (length txs) (length done.response.tx_results) ≡ true

  pub run_block-IsRun :
      (txs : List (List ℕ)) (height : ℕ) (time : Opaque) (ev_header : EvHeader) (node : Node App)
      → Ensures
          (λ done n. IsRun txs height time ev_header node done n.app)
          (run_block a txs height time (some ev_header))
          node
  unfolding run_block
  run_block-IsRun txs height time ev_header node =
      reads-Ensures Q (λ m. (load a m).0) _ node
        λ s loaded.
          reads-Ensures Q (λ m. ok ev_header) _ node
            λ header given.
              reads-Ensures Q (λ m. get_last_commit a.sources height m.ds) _ node
                λ last_commit committed.
                  reads-Ensures Q (λ m. to_abci_header a.comet header last_commit) _ node
                    λ abci_header converted.
                      reads-Ensures Q
                        (λ m. make_abci_block a.comet height txs s abci_header last_commit) _ node
                        λ pair made.
                          reads-Ensures Q (λ m. or_fail s.validators.proposer panic) _ node
                            λ proposer known.
                              bind-Ensures Q
                                (on_app (
                                  a.calls.process_proposal (
                                    block_request a height txs time s abci_header last_commit
                                      proposer)))
                                _ node
                                λ accepted_ n1 asked.
                                  reads-Ensures Q (λ m. require accepted_ plain) _ n1
                                    λ u allowed.
                                      bind-Ensures Q
                                        (on_app (
                                          a.calls.finalize_block (
                                            block_request a height txs time s abci_header
                                              last_commit proposer)))
                                        _ n1
                                        λ response n2 finalized.
                                          reads-Ensures Q
                                            (λ m.
                                              require
                                                (leb (length txs) (length response.tx_results))
                                                panic)
                                            _ n2
                                            λ v complete.
                                              pure-Ensures Q
                                                (record {
                                                  state = s;
                                                  block = pair.0;
                                                  block_id = pair.1;
                                                  response = response;
                                                })
                                                n2
                                                (record {
                                                  made = record {
                                                    last_commit = last_commit;
                                                    abci_header = abci_header;
                                                    loaded = loaded;
                                                    committed = committed;
                                                    converted =
                                                        ap
                                                          (λ h.
                                                            to_abci_header a.comet h last_commit)
                                                          (ok_injective given)
                                                        ∙ converted;
                                                    made = made;
                                                  };
                                                  proposer = proposer;
                                                  known =
                                                      or_fail_ok s.validators.proposer panic known;
                                                  proposed_to = n1.app;
                                                  proposed =
                                                      on_app_ok
                                                        (a.calls.process_proposal (
                                                          block_request a height txs time s
                                                            abci_header last_commit proposer))
                                                        node asked
                                                      ∙ ap (λ b. (ok b, n1.app))
                                                          (require_ok accepted_ plain allowed);
                                                  finalized =
                                                      on_app_ok
                                                        (a.calls.finalize_block (
                                                          block_request a height txs time s
                                                            abci_header last_commit proposer))
                                                        n1 finalized;
                                                  complete = require_ok _ panic complete;
                                                })
    where
      Q : Executed → Node App → Type 0
      Q done n = IsRun txs height time ev_header node done n.app

  -- When the sequence ends well, every event was accepted.
  pub outcome_ok :
      (events : List BusEvent) (end : Result (Unit {0}))
      → outcome a.bus events end ≡ ok tt
      → accepted a.bus events ≡ events
  outcome_ok [] end h = refl
  outcome_ok (e ∷ es) end h = by_answer (a.bus e) (outcome_ok es end) h
    where
      by_answer :
          (answer : Result (Unit {0}))
          → (outcome a.bus es end ≡ ok tt → accepted a.bus es ≡ es)
          → then_result answer (outcome a.bus es end) ≡ ok tt
          → accepted_if answer e (accepted a.bus es) ≡ e ∷ es
      by_answer (ok u) later k = ap (λ rest. e ∷ rest) (later k)
      by_answer (err c) later k = cc

  pub save_ok :
      (put_to : Datastore → Result Datastore) (n : Node App) {u : Unit {0}} {n' : Node App}
      → save put_to n ≡ (ok u, n')
      → (put_to n.ds ≡ ok n'.ds) × (n'.published ≡ n.published)
  save_ok put_to n {u} {n'} h = by_result (put_to n.ds) h
    where
      by_result :
          (r : Result Datastore)
          → after_save n r ≡ (ok u, n')
          → (r ≡ ok n'.ds) × (n'.published ≡ n.published)
      by_result (ok d) k = (ap (λ p. ok p.1.ds) k, ap (λ p. p.1.published) (sym k))
      by_result (err e) k = cc

  pub fire_ok :
      (block : Block) (id : BlockId) (response : Response) (updates : List Validator) (n : Node App)
      {u : Unit {0}} {n' : Node App}
      → fire_events a.bus block id response updates n ≡ (ok u, n')
      → (n'.ds ≡ n.ds) × (n'.published ≡ n.published ++ events_of block id response updates)
  fire_ok block id response updates n {u} {n'} h =
      let events : List BusEvent = events_of block id response updates in
      let e : sent a.bus events (tx_end block.txs response.tx_results) n ≡ (ok u, n') =
        sym (fire_events-sent a.bus block id response updates n) ∙ h in
      (
        ap (λ p. p.1.ds) (sym e),
        ap (λ p. p.1.published) (sym e)
            ∙ ap (λ xs. n.published ++ xs)
                (outcome_ok events (tx_end block.txs response.tx_results) (ap (λ p. p.0) e)),
      )
