-- ===== src/Rpc/Mempool.antt =====
-- pkg/rpc/core/mempool.go: transactions that are handed in. The mempool, the gossip and the event bus
-- are one state that each call may change; where the code waits, the answer says what comes first.
pub mod Sent
pub mod Handed
mod Tests
use ev_abci.Prelude.{
  List, Option, Result, [], err, if◌then◌else◌, leb, length, ltb, negsuc, none, ok, or_fail, plain,
  pos, require, some, ℕ, ℤ, ◌==◌,
}
use ev_abci.Prelude.Act.{Act, lift, pure, reads, ◌>>=◌, ◌>>◌}
use ev_abci.Adapter.Types.{Opaque}
use ev_abci.Rpc.Search.{take}

-- The response of the application to a `CheckTx`.
pub record CheckResponse : Type 0 where
  pub code : ℕ
  pub answer : Opaque

-- What ends the wait for a block with a transaction.
pub data Delivery : Type 0 where
  in_block : ℤ → Opaque → Delivery
  cancelled timed_out context_done : Delivery

-- `check_tx` answers with `none` where the context is done before the response; `delivered` is the
-- end of the wait on the subscription. The key of a transaction is its hash.
pub record MempoolCalls (P : Type 0) : Type 0 where
  pub tx_hash : List ℕ → List ℕ
  pub check_tx : List ℕ → Act P (Option CheckResponse)
  pub publish : List ℕ → Act P (Unit {0})
  pub remove_tx_by_key : List ℕ → Act P (Unit {0})
  pub num_clients : P → ℕ
  pub num_client_subscriptions : P → ℕ
  pub subscribe : List ℕ → Act P (Unit {0})
  pub unsubscribe : List ℕ → Act P (Unit {0})
  pub delivered : List ℕ → Act P Delivery
  pub all_txs : P → List (List ℕ)
  pub size : P → ℕ
  pub size_bytes : P → ℤ

-- `ResultBroadcastTx`; the response is none where nobody waited for it.
pub record ResultBroadcastTx : Type 0 where
  pub response : Option CheckResponse
  pub hash : List ℕ

pub record ResultBroadcastTxCommit : Type 0 where
  pub check_tx : CheckResponse
  pub tx_result : Option Opaque
  pub hash : List ℕ
  pub height : ℤ

pub record ResultUnconfirmedTxs : Type 0 where
  pub count : ℕ
  pub total : ℕ
  pub total_bytes : ℤ
  pub txs : List (List ℕ)

-- An answer of `BroadcastTxCommit` with the error that goes with it.
abbrev pub CommitAnswer : Type 0
CommitAnswer = ResultBroadcastTxCommit × Result (Unit {0})

module _ {P : Type 0} (calls : MempoolCalls P) where
  abbrev pub after_publish : List ℕ → Result (Unit {0}) × P → Result (Unit {0}) × P
  after_publish bytes (ok _, p) = (ok tt, p)
  after_publish bytes (err e, p) = (err plain, (calls.remove_tx_by_key (calls.tx_hash bytes) p).1)

  -- The gossip of a transaction, which leaves the mempool if that fails; an error of the removal is
  -- logged.
  unfoldable pub gossip_or_remove : List ℕ → Act P (Unit {0})
  gossip_or_remove bytes p = after_publish bytes (calls.publish bytes p)

  -- `BroadcastTxAsync`, which does not look at the response.
  unfoldable pub broadcast_tx_async : List ℕ → Act P ResultBroadcastTx
  unfolding gossip_or_remove
  broadcast_tx_async bytes = do
    calls.check_tx bytes
    gossip_or_remove bytes
    pure (record { response = none; hash = calls.tx_hash bytes })

  -- The rest of `BroadcastTxSync`, by the response.
  abbrev pub gossip_if_ok : List ℕ → CheckResponse → Act P (Unit {0})
  gossip_if_ok bytes response = if response.code == 0 then gossip_or_remove bytes else pure tt

  -- `BroadcastTxSync`.
  unfoldable pub broadcast_tx_sync : List ℕ → Act P ResultBroadcastTx
  unfolding gossip_or_remove
  broadcast_tx_sync bytes = do
    answer ← calls.check_tx bytes
    response ← lift (or_fail answer plain)
    gossip_if_ok bytes response
    pure (record { response = some response; hash = calls.tx_hash bytes })

  abbrev pub undelivered : List ℕ → CheckResponse → ResultBroadcastTxCommit
  undelivered bytes response = record {
    check_tx = response;
    tx_result = none;
    hash = calls.tx_hash bytes;
    height = pos 0;
  }

  abbrev pub commit_answer : List ℕ → CheckResponse → Delivery → CommitAnswer
  commit_answer bytes response (in_block height result) =
      (record (undelivered bytes response) { tx_result = some result; height = height }, ok tt)
  commit_answer bytes response cancelled = (undelivered bytes response, err plain)
  commit_answer bytes response timed_out = (undelivered bytes response, err plain)
  commit_answer bytes response context_done = (undelivered bytes response, err plain)

  -- The gossip and the wait of `BroadcastTxCommit`.
  unfoldable pub await_commit : List ℕ → CheckResponse → Act P CommitAnswer
  await_commit bytes response = do
    calls.publish bytes
    delivery ← calls.delivered bytes
    pure (commit_answer bytes response delivery)

  -- `BroadcastTxCommit` once it is subscribed.
  unfoldable pub commit_subscribed : List ℕ → Act P CommitAnswer
  unfolding await_commit
  commit_subscribed bytes = do
    answer ← calls.check_tx bytes
    response ← lift (or_fail answer plain)
    if response.code == 0
        then await_commit bytes response
        else pure (undelivered bytes response, ok tt)

  -- A deferred call, whose error is logged.
  abbrev pub deferred : {A : Type 0} → Act P (Unit {0}) → Result A × P → Result A × P
  deferred last (r, p) = (r, (last p).1)

  -- `BroadcastTxCommit`.
  unfoldable pub broadcast_tx_commit : List ℕ → Act P CommitAnswer
  unfolding commit_subscribed
  broadcast_tx_commit bytes = do
    reads (λ p. require (ltb (calls.num_clients p) 100) plain)
    reads (λ p. require (ltb (calls.num_client_subscriptions p) 100) plain)
    calls.subscribe bytes
    (λ p. deferred (calls.unsubscribe bytes) (commit_subscribed bytes p))

  -- `UnconfirmedTxs`.
  abbrev pub clamp : Option ℤ → ℕ → ℕ
  clamp none total = total
  clamp (some (pos n)) total = if leb n total then n else total
  clamp (some (negsuc n)) total = 0

  unfoldable pub unconfirmed_txs : Option ℤ → P → ResultUnconfirmedTxs
  unconfirmed_txs limit p =
      let txs = calls.all_txs p in
      let shown = take (clamp limit (length txs)) txs in
      record {
        count = length shown;
        total = calls.size p;
        total_bytes = calls.size_bytes p;
        txs = shown;
      }

  -- `NumUnconfirmedTxs`.
  unfoldable pub num_unconfirmed_txs : P → ResultUnconfirmedTxs
  num_unconfirmed_txs p = record {
    count = calls.size p;
    total = calls.size p;
    total_bytes = calls.size_bytes p;
    txs = [];
  }

  -- `CheckTx`.
  unfoldable pub check_tx : List ℕ → Act P CheckResponse
  check_tx bytes = do answer ← calls.check_tx bytes; lift (or_fail answer plain)
