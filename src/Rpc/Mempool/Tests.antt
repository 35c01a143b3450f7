-- ===== src/Rpc/Mempool/Tests.antt =====
-- A node whose gossip takes only short transactions (pkg/rpc/core/mempool.go).
use ev_abci.Prelude.{
  Bool, List, Option, Result, [], arith, bytes_beq, bytes_beq_iff, bytes_eq, err, false, inl, inr,
  int_eq, length, ltb, nat_eq, not, ok, pair_eq, plain, pos, refl, set, some, string_eq, true, ℕ,
  ◌&&◌, ◌||◌, ◌∷◌, ◌≡◌, ◌⊎◌,
}
use ev_abci.Prelude.Act.{Act, pure}
use ev_abci.Rpc.Mempool.{
  CheckResponse, MempoolCalls, broadcast_tx_async, broadcast_tx_commit, broadcast_tx_sync,
  timed_out,
}
use ev_abci.Rpc.Mempool.Sent.{AllSent, Calm, IsMempool, Kept, Settled}
use ev_abci.Rpc.Mempool.Handed.{broadcast-AllSent}

-- The mempool and what was gossiped, as tests on transactions.
record Pool : Type 0 where
  held : List ℕ → Bool
  gossiped : List ℕ → Bool

abbrev accepted : CheckResponse
accepted = record { code = 0; answer = [] }

abbrev with_tx : List ℕ → (List ℕ → Bool) → List ℕ → Bool
with_tx bytes set u = bytes_beq u bytes || set u

abbrev without_tx : List ℕ → (List ℕ → Bool) → List ℕ → Bool
without_tx bytes set u = not (bytes_beq u bytes) && set u

abbrev add : List ℕ → Act Pool (Option CheckResponse)
add bytes pool = (ok (some accepted), record pool { held = with_tx bytes pool.held })

abbrev gossip_if : Bool → List ℕ → Act Pool (Unit {0})
gossip_if true bytes pool = (ok tt, record pool { gossiped = with_tx bytes pool.gossiped })
gossip_if false bytes pool = (err plain, pool)

abbrev gossip : List ℕ → Act Pool (Unit {0})
gossip bytes = gossip_if (ltb (length bytes) 2) bytes

abbrev remove : List ℕ → Act Pool (Unit {0})
remove key pool = (ok tt, record pool { held = without_tx key pool.held })

abbrev calls : MempoolCalls Pool
calls = record {
  tx_hash = λ bytes. bytes;
  check_tx = add;
  publish = gossip;
  remove_tx_by_key = remove;
  num_clients = λ pool. 0;
  num_client_subscriptions = λ pool. 0;
  subscribe = λ bytes. pure tt;
  unsubscribe = λ bytes. pure tt;
  delivered = λ bytes. pure timed_out;
  all_txs = λ pool. [];
  size = λ pool. 0;
  size_bytes = λ pool. pos 0;
}

abbrev Holds : Pool → List ℕ → Type 0
Holds pool u = pool.held u ≡ true

abbrev Sent : Pool → List ℕ → Type 0
Sent pool u = pool.gossiped u ≡ true

with_tx-keeps : (t u : List ℕ) (set : List ℕ → Bool) → set u ≡ true → with_tx t set u ≡ true
with_tx-keeps t u set h = ground arith

with_tx_self : (t : List ℕ) (set : List ℕ → Bool) → with_tx t set t ≡ true
with_tx_self t set = let same : bytes_beq t t ≡ true = (bytes_beq_iff t t).1 refl in ground arith

with_tx-cases :
    (t u : List ℕ) (set : List ℕ → Bool) → with_tx t set u ≡ true → (set u ≡ true) ⊎ (u ≡ t)
with_tx-cases t u set h = by_test (bytes_beq u t) refl h
  where
    by_test : (b : Bool) → bytes_beq u t ≡ b → (b || set u) ≡ true → (set u ≡ true) ⊎ (u ≡ t)
    by_test true e h' = inr ((bytes_beq_iff u t).0 e)
    by_test false e h' = inl h'

still : {A : Type 0} (r : Result A) → Calm {P = Pool} Holds Sent (λ pool. (r, pool))
still r pool u = (λ h. h, λ h. h)

gossip_if-Calm : (b : Bool) (t : List ℕ) → Calm Holds Sent (gossip_if b t)
gossip_if-Calm true t pool u = (λ h. h, with_tx-keeps t u pool.gossiped)
gossip_if-Calm false t pool u = (λ h. h, λ h. h)

gossip_if-Sent :
    (b : Bool) (t : List ℕ) (pool : Pool)
    → (gossip_if b t pool).0 ≡ ok tt
    → Sent (gossip_if b t pool).1 t
gossip_if-Sent true t pool h = with_tx_self t pool.gossiped
gossip_if-Sent false t pool h = cc

without_tx-keeps : (t u : List ℕ) (set : List ℕ → Bool) → without_tx t set u ≡ true → set u ≡ true
without_tx-keeps t u set h = ground arith

without_tx_self : (t : List ℕ) (set : List ℕ → Bool) → ¬ without_tx t set t ≡ true
without_tx_self t set h =
    let same : bytes_beq t t ≡ true = (bytes_beq_iff t t).1 refl in ground arith

calls-IsMempool : IsMempool calls Holds Sent
calls-IsMempool = record {
  checked = λ t pool u h. elim (with_tx-cases t u pool.held h) [
    | inl before ↦ inl before
    | inr this ↦ inr (this, inl (accepted, refl, refl))
  ];
  checked_sent = λ t pool u h. h;
  published = λ t. gossip_if-Calm (ltb (length t) 2) t;
  published_sent = λ t. gossip_if-Sent (ltb (length t) 2) t;
  removed = λ t pool u. (without_tx-keeps t u pool.held, λ h. h);
  removed_gone = λ t pool. without_tx_self t pool.held;
  subscribed = λ t. still (ok tt);
  unsubscribed = λ t. still (ok tt);
  waited = λ t. still (ok timed_out);
}

abbrev long_tx : List ℕ
long_tx = 7 ∷ 8 ∷ []

abbrev empty_pool : Pool
empty_pool = record { held = λ u. false; gossiped = λ u. false }

empty-AllSent : AllSent Holds Sent empty_pool
empty-AllSent u h = cc

-- The refused transaction stays after `BroadcastTxCommit`, and not after `BroadcastTxSync`.
commit_stays : (broadcast_tx_commit calls long_tx empty_pool).1.held long_tx ≡ true
unfolding broadcast_tx_commit
commit_stays = refl

sync_removed : (broadcast_tx_sync calls long_tx empty_pool).1.held long_tx ≡ false
unfolding broadcast_tx_sync
sync_removed = refl

broadcast-AllSent_example :
    AllSent Holds Sent (broadcast_tx_async calls long_tx empty_pool).1
    × Settled Holds Sent long_tx
        (add long_tx empty_pool).0
        (broadcast_tx_sync calls long_tx empty_pool)
    × Kept Holds Sent long_tx (broadcast_tx_commit calls long_tx empty_pool)
broadcast-AllSent_example = broadcast-AllSent calls-IsMempool long_tx empty_pool empty-AllSent
