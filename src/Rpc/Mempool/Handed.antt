-- ===== src/Rpc/Mempool/Handed.antt =====
-- The handlers that take a transaction in and gossip it (pkg/rpc/core/mempool.go).
use mathlib.Core.Path.{subst}
use ev_abci.Prelude.{
  Bool, List, Option, Result, ap, err, false, if◌then◌else◌, inl, inr, ltb, none, ok, or_fail,
  plain, refl, require, some, true, ℕ, ◌==◌, ◌≡◌,
}
use ev_abci.Prelude.Act.{Act, lift, pure, reads, ◌>>=◌, ◌>>◌}
use ev_abci.Rpc.Mempool.{
  CheckResponse, CommitAnswer, MempoolCalls, ResultBroadcastTx, await_commit, broadcast_tx_async,
  broadcast_tx_commit, broadcast_tx_sync, commit_subscribed, deferred, gossip_if_ok,
  gossip_or_remove, undelivered,
}
use ev_abci.Rpc.Mempool.Sent.{
  AllSent, AllSentBut, Calm, Calm-AllSent, Calm-AllSentBut, IsMempool, Kept, Settled,
  check_step-AllSentBut, failed_check, follow, gossip-AllSent, kept_out-AllSent, publish-AllSent,
  refused_check, step-AllSent,
}

module _ {P : Type 0} {calls : MempoolCalls P} {holds sent : P → List ℕ → Type 0}
    (laws : IsMempool calls holds sent) where
  gossip_end-AllSent :
      {B : Type 0} (t : List ℕ) (p : P) (x : B)
      → AllSentBut holds sent t p
      → AllSent holds sent ((gossip_or_remove calls t >> pure x) p).1
  gossip_end-AllSent {B} t p x all =
      follow (λ (out : Result B × P). AllSent holds sent out.1) (gossip_or_remove calls t)
        (λ _. pure x) p
        (λ code n e. subst (AllSent holds sent) (ap (λ o. o.1) e) (gossip-AllSent laws t p all))
        (λ done n e. subst (AllSent holds sent) (ap (λ o. o.1) e) (gossip-AllSent laws t p all))

  async-AllSent :
      (t : List ℕ) (p : P)
      → AllSent holds sent p
      → AllSent holds sent (broadcast_tx_async calls t p).1
  unfolding broadcast_tx_async
  async-AllSent t p all =
      follow (λ (out : Result ResultBroadcastTx × P). AllSent holds sent out.1) (calls.check_tx t) _
        p (λ code n e. kept_out-AllSent laws t p n (err code) e (failed_check laws code) all)
        (λ answer n e.
          gossip_end-AllSent t n _ (check_step-AllSentBut laws t p n (ok answer) e all))

  gossip_if_ok-AllSent :
      {B : Type 0} (t : List ℕ) (p n : P) (response : CheckResponse) (x : B)
      → calls.check_tx t p ≡ (ok (some response), n)
      → AllSent holds sent p
      → AllSent holds sent ((gossip_if_ok calls t response >> pure x) n).1
  gossip_if_ok-AllSent {B} t p n response x e all = by_code (response.code == 0) refl
    where
      by_code :
          (b : Bool)
          → (response.code == 0) ≡ b
          → AllSent holds sent (((if b then gossip_or_remove calls t else pure tt) >> pure x) n).1
      by_code true zero_code =
          gossip_end-AllSent t n x (check_step-AllSentBut laws t p n (ok (some response)) e all)
      by_code false other =
          kept_out-AllSent laws t p n (ok (some response)) e (refused_check laws response other) all

  sync-Settled :
      (t : List ℕ) (p : P)
      → AllSent holds sent p
      → Settled holds sent t (calls.check_tx t p).0 (broadcast_tx_sync calls t p)
  unfolding broadcast_tx_sync
  sync-Settled t p all =
      follow (Settled holds sent t (calls.check_tx t p).0) (calls.check_tx t) _ p
        (λ code n e. inl (kept_out-AllSent laws t p n (err code) e (failed_check laws code) all))
        by_answer
    where
      by_answer :
          (answer : Option CheckResponse) (n : P)
          → calls.check_tx t p ≡ (ok answer, n)
          → Settled holds sent {A = ResultBroadcastTx} t (calls.check_tx t p).0 (
              (lift (or_fail answer plain) >>= λ response.
              gossip_if_ok calls t response
              >> pure (record { response = some response; hash = calls.tx_hash t }))
                n)
      by_answer none n e =
          inr (ap (λ o. o.0) e, (plain, refl), check_step-AllSentBut laws t p n (ok none) e all)
      by_answer (some response) n e = inl (gossip_if_ok-AllSent t p n response _ e all)

  await-Kept :
      (t : List ℕ) (n : P) (response : CheckResponse)
      → AllSentBut holds sent t n
      → Kept holds sent t (await_commit calls t response n)
  unfolding await_commit
  await-Kept t n response all =
      follow (Kept holds sent t) (calls.publish t) _ n
        (λ code w e. inr (
          (code, refl),
          subst (AllSentBut holds sent t) (ap (λ o. o.1) e)
              (Calm-AllSentBut laws t (calls.publish t) n (laws.published t) all),
        ))
        (λ done w e.
          let sent_all : AllSent holds sent w =
            subst (AllSent holds sent) (ap (λ o. o.1) e)
              (publish-AllSent laws t n (ap (λ o. o.0) e) all) in
          inl (
            follow (λ (out : Result CommitAnswer × P). AllSent holds sent out.1) (calls.delivered t)
              _ w
              (λ code v d.
                step-AllSent laws (calls.delivered t) w v (err code) d (laws.waited t) sent_all)
              (λ delivery v d.
                step-AllSent laws (calls.delivered t) w v (ok delivery) d (laws.waited t)
                  sent_all)))

  commit_code-Kept :
      (t : List ℕ) (p n : P) (response : CheckResponse)
      → calls.check_tx t p ≡ (ok (some response), n)
      → AllSent holds sent p
      → Kept holds sent t (
          (if response.code == 0
              then await_commit calls t response
              else pure (undelivered calls t response, ok tt))
            n)
  commit_code-Kept t p n response e all = by_code (response.code == 0) refl
    where
      by_code :
          (b : Bool)
          → (response.code == 0) ≡ b
          → Kept holds sent t (
              (if b
                  then await_commit calls t response
                  else pure (undelivered calls t response, ok tt))
                n)
      by_code true zero_code =
          await-Kept t n response (check_step-AllSentBut laws t p n (ok (some response)) e all)
      by_code false other = inl (
          kept_out-AllSent laws t p n (ok (some response)) e (refused_check laws response other)
            all)

  subscribed-Kept :
      (t : List ℕ) (p : P) → AllSent holds sent p → Kept holds sent t (commit_subscribed calls t p)
  unfolding commit_subscribed
  subscribed-Kept t p all =
      follow (Kept holds sent t) (calls.check_tx t) _ p
        (λ code n e. inl (kept_out-AllSent laws t p n (err code) e (failed_check laws code) all))
        by_answer
    where
      by_answer :
          (answer : Option CheckResponse) (n : P)
          → calls.check_tx t p ≡ (ok answer, n)
          → Kept holds sent t (
              (lift (or_fail answer plain) >>= λ response.
              if response.code == 0
              then await_commit calls t response
              else pure (undelivered calls t response, ok tt))
                n)
      by_answer none n e = inr ((plain, refl), check_step-AllSentBut laws t p n (ok none) e all)
      by_answer (some response) n e = commit_code-Kept t p n response e all

  deferred-Kept :
      {A : Type 0} (t : List ℕ) (out : Result A × P)
      → Kept holds sent t out
      → Kept holds sent t (deferred calls (calls.unsubscribe t) out)
  deferred-Kept t (r, n) (inl all) =
      inl (Calm-AllSent laws (calls.unsubscribe t) n (laws.unsubscribed t) all)
  deferred-Kept t (r, n) (inr (failure, all)) =
      inr (failure, Calm-AllSentBut laws t (calls.unsubscribe t) n (laws.unsubscribed t) all)

  -- The rest of a chain after a calm step.
  after-Calm :
      {A B : Type 0} (t : List ℕ) (first : Act P A) (next : A → Act P B) (p : P)
      → Calm holds sent first
      → AllSent holds sent p
      → ((x : A) (n : P) → AllSent holds sent n → Kept holds sent t (next x n))
      → Kept holds sent t ((first >>= next) p)
  after-Calm t first next p calm all later =
      follow (Kept holds sent t) first next p
        (λ code n e. inl (step-AllSent laws first p n (err code) e calm all))
        (λ x n e. later x n (step-AllSent laws first p n (ok x) e calm all))

  commit-Kept :
      (t : List ℕ) (p : P)
      → AllSent holds sent p
      → Kept holds sent t (broadcast_tx_commit calls t p)
  unfolding broadcast_tx_commit
  commit-Kept t p all =
      after-Calm t (reads (λ q. require (ltb (calls.num_clients q) 100) plain)) _ p
        (λ q u. (λ h. h, λ h. h)) all
        (λ x n all_n.
          after-Calm t (reads (λ q. require (ltb (calls.num_client_subscriptions q) 100) plain)) _ n
            (λ q u. (λ h. h, λ h. h)) all_n
            (λ y m all_m.
              after-Calm t (calls.subscribe t) _ m (laws.subscribed t) all_m (λ z w all_w.
                deferred-Kept t (commit_subscribed calls t w) (subscribed-Kept t w all_w))))

  -- Whatever the calls answer, a mempool that holds only transactions that were sent to the gossip
  -- holds only such transactions after BroadcastTxAsync; after BroadcastTxSync too, unless the
  -- context ended during CheckTx, where the call fails and its own transaction may stay unsent; and
  -- after BroadcastTxCommit too, unless the call fails, where its own transaction may stay unsent.
  -- CheckTx takes in its own transaction at most, and none that it refused; Publish sends its own
  -- where it succeeds; RemoveTxByKey removes; no other call takes in a transaction.
  pub broadcast-AllSent :
      (t : List ℕ) (p : P)
      → AllSent holds sent p
      → AllSent holds sent (broadcast_tx_async calls t p).1
        × Settled holds sent t (calls.check_tx t p).0 (broadcast_tx_sync calls t p)
        × Kept holds sent t (broadcast_tx_commit calls t p)
  broadcast-AllSent t p all = (async-AllSent t p all, sync-Settled t p all, commit-Kept t p all)
