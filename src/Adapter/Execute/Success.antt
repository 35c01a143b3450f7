-- ===== src/Adapter/Execute/Success.antt =====
-- What a successful `ExecuteTxs` of pkg/adapter/adapter.go has done, and the commit of its block.
use mathlib.Core.Path.{subst}
use ev_abci.Prelude.{
  List, Result, ap, arith, ltb, ok, refl, some, sym, true, ℕ, ◌++◌, ◌+◌, ◌-◌, ◌<◌, ◌^◌, ◌∙◌, ◌≡◌,
}
use ev_abci.Prelude.Act.{bind-Ensures, pure-Ensures, reads-Ensures}
use ev_abci.Network.Types.{BlockId}
use ev_abci.Store.{save_block_id, save_block_response, save_state}
use ev_abci.Store.View.{LawfulCodecs}
use ev_abci.Store.Record.{IsRecorded, saves-IsRecorded}
use ev_abci.Adapter.Types.{Block, ChainState, EvHeader, Node, Opaque, SignedHeader, Validator}
use ev_abci.Adapter.Events.{fire_events}
use ev_abci.Adapter.Events.Order.{events_of}
use ev_abci.Adapter.Commits.{commit_of, get_last_commit}
use ev_abci.Adapter.Transition.{next_state}
use ev_abci.Adapter.Execute.Quiet.{Same}
use ev_abci.Adapter.Execute.{Adapter, Executed, commit_app, execute_txs, run_block, save}
use ev_abci.Adapter.Execute.Stages.{commit_app-IsQuiet, run_block-IsQuiet}
use ev_abci.Adapter.Execute.Made.{IsMade, IsRun, fire_ok, run_block-IsRun, save_ok}

module _ {App : Type 0} (a : Adapter App) where
  -- What a successful call leaves: the block it made, the state after it, the app hash of the
  -- response, all saved, and its events published.
  pub record Succeeded (txs : List (List ℕ)) (height : ℕ) (time : Opaque) (ev_header : EvHeader)
      (before : Node App) (hash : List ℕ) (after : Node App) : Type 0 where
    pub done : Executed
    pub next : ChainState
    pub updates : List Validator
    pub answered_to : App
    pub ran : IsRun a txs height time ev_header before done answered_to
    pub stepped : next_state a.comet height done.response done.state ≡ ok (next, updates)
    pub recorded :
        IsRecorded a.sources.codecs height next done.block_id done.response before.ds after.ds
    pub published :
        after.published
        ≡ before.published ++ events_of done.block done.block_id done.response updates
    pub hashed : hash ≡ done.response.app_hash

  -- A successful `ExecuteTxs` made its block and block id from the saved state and the last commit,
  -- and the application accepted this block's proposal and finalized it with the response used here.
  -- Afterwards the state that follows from the response, the block id and the response are read back
  -- from the store, the other heights read as before, all events of the block have been published in
  -- their order, and the result is the app hash of the response. The encodings are lawful and the
  -- height is a 64-bit number.
  pub execute_txs-Succeeded :
      (txs : List (List ℕ)) (height : ℕ) (time : Opaque) (ev_header : EvHeader)
      (node after : Node App) (hash : List ℕ)
      → LawfulCodecs a.sources.codecs
      → height < 2 ^ 64
      → execute_txs a txs height time (some ev_header) node ≡ (ok hash, after)
      → Succeeded txs height time ev_header node hash after
  unfolding execute_txs
  execute_txs-Succeeded txs height time ev_header node after hash law word ended =
      (bind-Ensures Q (run_block a txs height time (some ev_header)) _ node λ done n1 ran.
          reads-Ensures Q (λ m. next_state a.comet height done.response done.state) _ n1
            λ next stepped.
              bind-Ensures Q (save (save_state a.disk a.sources.codecs.states next.0)) _ n1
                λ u1 n2 saved1.
                  bind-Ensures Q (commit_app a height txs done.response next.0) _ n2
                    λ u2 n3 committed.
                      bind-Ensures Q
                        (save (save_block_id a.disk a.sources.codecs.ids height done.block_id)) _ n3
                        λ u3 n4 saved2.
                          bind-Ensures Q
                            (save (
                              save_block_response a.disk a.sources.codecs.responses height
                                done.response))
                            _ n4
                            λ u4 n5 saved3.
                              bind-Ensures Q
                                (fire_events a.bus done.block done.block_id done.response next.1) _
                                n5
                                λ u5 n6 fired_.
                                  let same1 : Same node n1 =
                                    subst (λ (p : Result Executed × Node App). Same node p.1) ran
                                      (run_block-IsQuiet a txs height time (some ev_header) node) in
                                  let same3 : Same n2 n3 =
                                    subst (λ (p : Result (Unit {0}) × Node App). Same n2 p.1)
                                      committed
                                      (commit_app-IsQuiet a height txs done.response next.0 n2) in
                                  let (put1, kept1) =
                                    save_ok a (save_state a.disk a.sources.codecs.states next.0) n1
                                      saved1 in
                                  let (put2, kept2) =
                                    save_ok a
                                      (save_block_id a.disk a.sources.codecs.ids height
                                        done.block_id)
                                      n3 saved2 in
                                  let (put3, kept3) =
                                    save_ok a
                                      (save_block_response a.disk a.sources.codecs.responses height
                                        done.response)
                                      n4 saved3 in
                                  let (same6, events) =
                                    fire_ok a done.block done.block_id done.response next.1 n5
                                      fired_ in
                                  pure-Ensures Q done.response.app_hash n6 (record {
                                    done = done;
                                    next = next.0;
                                    updates = next.1;
                                    answered_to = n1.app;
                                    ran =
                                        (run_block-IsRun a txs height time ev_header node).holds
                                          done n1 ran;
                                    stepped = stepped;
                                    recorded =
                                        saves-IsRecorded a.sources.codecs law a.disk height next.0
                                          done.block_id done.response node.ds n2.ds n4.ds n6.ds word
                                          (ap (save_state a.disk a.sources.codecs.states next.0)
                                              (sym same1.0)
                                            ∙ put1)
                                          (ap
                                              (save_block_id a.disk a.sources.codecs.ids height
                                                done.block_id)
                                              (sym same3.0)
                                            ∙ put2)
                                          (put3 ∙ ap ok (sym same6));
                                    published =
                                        events
                                        ∙ ap
                                            (λ xs.
                                              xs
                                              ++ events_of done.block done.block_id done.response
                                                  next.1)
                                            (kept3 ∙ kept2 ∙ same3.1 ∙ kept1 ∙ same1.1);
                                    hashed = refl;
                                  })).holds
        hash after ended
    where
      Q : List ℕ → Node App → Type 0
      Q h n = Succeeded txs height time ev_header node h n

  -- The commit that block h + 1 is made with carries the block id that the execution of block h
  -- saved, signed as ev-node's header of h is, where h is above 0 and that header is stored.
  pub get_last_commit-execute_txs :
      (txs : List (List ℕ)) (height : ℕ) (time : Opaque) (ev_header : EvHeader)
      (node after : Node App) (hash : List ℕ) (signed : SignedHeader)
      → LawfulCodecs a.sources.codecs
      → height < 2 ^ 64
      → 0 < height
      → a.sources.ev_header height ≡ ok signed
      → execute_txs a txs height time (some ev_header) node ≡ (ok hash, after)
      → (block : Block) × (id : BlockId) × (s : ChainState) × IsMade a txs height ev_header node.ds
          s block id
        × (get_last_commit a.sources (height + 1) after.ds
            ≡ ok (commit_of a.sources.genesis signed id))
  unfolding get_last_commit
  get_last_commit-execute_txs txs height time ev_header node after hash signed law word positive
        stored ended =
      let success : Succeeded txs height time ev_header node hash after =
        execute_txs-Succeeded txs height time ev_header node after hash law word ended in
      let above : ltb 1 (height + 1) ≡ true = ground arith in
      let below : height + 1 - 1 ≡ height = omega arith in
      (
        success.done.block,
        success.done.block_id,
        success.done.state,
        success.ran.made,
        rw (above, below, stored, success.recorded.block_id) refl,
      )
