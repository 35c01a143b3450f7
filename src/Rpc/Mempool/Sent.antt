-- ===== src/Rpc/Mempool/Sent.antt =====
-- Which transactions of the mempool were gossiped (pkg/rpc/core/mempool.go).
use mathlib.Core.Path.{subst}
use ev_abci.Prelude.{
  Error, List, Option, Result, ap, arith, err, false, inl, inr, none, ok, refl, some, sym, ℕ, ◌==◌,
  ◌∙◌, ◌≡◌, ◌⊎◌,
}
use ev_abci.Prelude.Act.{Act, continue, ◌>>=◌}
use ev_abci.Rpc.Mempool.{CheckResponse, MempoolCalls, after_publish, gossip_or_remove}

-- The application accepted a transaction, or nobody waited for its answer.
abbrev pub MayEnter : Result (Option CheckResponse) → Type 0
MayEnter answer =
    ((response : CheckResponse) × (answer ≡ ok (some response)) × (response.code ≡ 0))
    ⊎ (answer ≡ ok none)

-- The code of an answer, zero where there is none.
abbrev answer_code : Result (Option CheckResponse) → ℕ
answer_code (ok (some response)) = response.code
answer_code (ok none) = 0
answer_code (err e) = 0

-- A call returned an error.
abbrev pub IsFailure : {A : Type 0} → Result A → Type 0
IsFailure r = (code : Error) × (r ≡ err code)

-- What holds after a chain, by what its first step returned.
pub follow :
    {W A B : Type 0} (Q : Result B × W → Type 0) (first : Act W A) (next : A → Act W B) (w : W)
    → ((code : Error) (n : W) → first w ≡ (err code, n) → Q (err code, n))
    → ((x : A) (n : W) → first w ≡ (ok x, n) → Q (next x n))
    → Q ((first >>= next) w)
follow {W} {A} {B} Q first next w failing going = by_outcome (first w) refl
  where
    by_outcome : (out : Result A × W) → first w ≡ out → Q (continue out next)
    by_outcome (ok x, n) e = going x n e
    by_outcome (err code, n) e = failing code n e

module _ {P : Type 0} (holds sent : P → List ℕ → Type 0) where
  -- A call takes no transaction into the mempool and forgets no gossip.
  abbrev pub Calm : {A : Type 0} → Act P A → Type 0
  Calm call =
      (p : P) (u : List ℕ) → (holds (call p).1 u → holds p u) × (sent p u → sent (call p).1 u)

  -- The mempool holds only transactions that were sent, but for one at most.
  abbrev pub AllSentBut : List ℕ → P → Type 0
  AllSentBut t p = (u : List ℕ) → holds p u → sent p u ⊎ (u ≡ t)

  -- The mempool holds only transactions that were sent.
  abbrev pub AllSent : P → Type 0
  AllSent p = (u : List ℕ) → holds p u → sent p u

  -- What `BroadcastTxSync` leaves, by what `CheckTx` returned: every held transaction was sent, or
  -- nobody waited for the answer, the call failed and its own transaction may stay.
  abbrev pub Settled : {A : Type 0} → List ℕ → Result (Option CheckResponse) → Result A × P → Type 0
  Settled t answer out = AllSent out.1 ⊎ ((answer ≡ ok none) × IsFailure out.0 × AllSentBut t out.1)

  -- What `BroadcastTxCommit` leaves: every held transaction was sent, or the call failed and its own
  -- transaction may stay.
  abbrev pub Kept : {A : Type 0} → List ℕ → Result A × P → Type 0
  Kept t out = AllSent out.1 ⊎ (IsFailure out.0 × AllSentBut t out.1)

module _ {P : Type 0} (calls : MempoolCalls P) (holds sent : P → List ℕ → Type 0) where
  -- What the calls do with the transactions that the mempool holds and that were sent to the gossip.
  -- `CheckTx` takes in only its own transaction, and only where the application accepts it; a
  -- `Publish` that succeeds has sent its own; what `RemoveTxByKey` removes is gone.
  pub record IsMempool : Type 0 where
    pub checked :
        (t : List ℕ) (p : P) (u : List ℕ)
        → holds (calls.check_tx t p).1 u
        → holds p u ⊎ ((u ≡ t) × MayEnter (calls.check_tx t p).0)
    pub checked_sent : (t : List ℕ) (p : P) (u : List ℕ) → sent p u → sent (calls.check_tx t p).1 u
    pub published : (t : List ℕ) → Calm holds sent (calls.publish t)
    pub published_sent :
        (t : List ℕ) (p : P) → (calls.publish t p).0 ≡ ok tt → sent (calls.publish t p).1 t
    pub removed : (t : List ℕ) → Calm holds sent (calls.remove_tx_by_key (calls.tx_hash t))
    pub removed_gone :
        (t : List ℕ) (p : P) → ¬ holds (calls.remove_tx_by_key (calls.tx_hash t) p).1 t
    pub subscribed : (t : List ℕ) → Calm holds sent (calls.subscribe t)
    pub unsubscribed : (t : List ℕ) → Calm holds sent (calls.unsubscribe t)
    pub waited : (t : List ℕ) → Calm holds sent (calls.delivered t)

module _ {P : Type 0} {calls : MempoolCalls P} {holds sent : P → List ℕ → Type 0}
    (laws : IsMempool calls holds sent) where
  pub Calm-AllSent :
      {A : Type 0} (call : Act P A) (p : P)
      → Calm holds sent call
      → AllSent holds sent p
      → AllSent holds sent (call p).1
  Calm-AllSent call p calm all u held = (calm p u).1 (all u ((calm p u).0 held))

  pub Calm-AllSentBut :
      {A : Type 0} (t : List ℕ) (call : Act P A) (p : P)
      → Calm holds sent call
      → AllSentBut holds sent t p
      → AllSentBut holds sent t (call p).1
  Calm-AllSentBut t call p calm all u held = elim (all u ((calm p u).0 held)) [
    | inl was_sent ↦ inl ((calm p u).1 was_sent)
    | inr this ↦ inr this
  ]

  check-AllSentBut :
      (t : List ℕ) (p : P) → AllSent holds sent p → AllSentBut holds sent t (calls.check_tx t p).1
  check-AllSentBut t p all u held = elim (laws.checked t p u held) [
    | inl before ↦ inl (laws.checked_sent t p u (all u before))
    | inr (this, accepted) ↦ inr this
  ]

  pub publish-AllSent :
      (t : List ℕ) (p : P)
      → (calls.publish t p).0 ≡ ok tt
      → AllSentBut holds sent t p
      → AllSent holds sent (calls.publish t p).1
  publish-AllSent t p published all u held = elim (all u ((laws.published t p u).0 held)) [
    | inl was_sent ↦ (laws.published t p u).1 was_sent
    | inr this ↦
        subst (λ v. sent (calls.publish t p).1 v) (sym this) (laws.published_sent t p published)
  ]

  remove-AllSent :
      (t : List ℕ) (p : P)
      → AllSentBut holds sent t p
      → AllSent holds sent (calls.remove_tx_by_key (calls.tx_hash t) p).1
  remove-AllSent t p all u held = elim (all u ((laws.removed t p u).0 held)) [
    | inl was_sent ↦ (laws.removed t p u).1 was_sent
    | inr this ↦ absurd (
        laws.removed_gone t p
          (subst (λ v. holds (calls.remove_tx_by_key (calls.tx_hash t) p).1 v) this held))
  ]

  pub gossip-AllSent :
      (t : List ℕ) (p : P)
      → AllSentBut holds sent t p
      → AllSent holds sent (gossip_or_remove calls t p).1
  unfolding gossip_or_remove
  gossip-AllSent t p all = by_outcome (calls.publish t p) refl
    where
      by_outcome :
          (out : Result (Unit {0}) × P)
          → calls.publish t p ≡ out
          → AllSent holds sent (after_publish calls t out).1
      by_outcome (ok done, w) e =
          subst (AllSent holds sent) (ap (λ o. o.1) e) (publish-AllSent t p (ap (λ o. o.0) e) all)
      by_outcome (err c, w) e = remove-AllSent t w (
          subst (AllSentBut holds sent t) (ap (λ o. o.1) e)
            (Calm-AllSentBut t (calls.publish t) p (laws.published t) all))

  -- After a `CheckTx` whose answer keeps its transaction out.
  pub kept_out-AllSent :
      (t : List ℕ) (p n : P) (answer : Result (Option CheckResponse))
      → calls.check_tx t p ≡ (answer, n)
      → ¬ MayEnter answer
      → AllSent holds sent p
      → AllSent holds sent n
  kept_out-AllSent t p n answer e out all = subst (AllSent holds sent) (ap (λ o. o.1) e) (λ u held.
      elim (laws.checked t p u held) [
        | inl before ↦ laws.checked_sent t p u (all u before)
        | inr (this, entered) ↦ absurd (out (subst MayEnter (ap (λ o. o.0) e) entered))
      ])

  pub step-AllSent :
      {A : Type 0} (call : Act P A) (p n : P) (r : Result A)
      → call p ≡ (r, n)
      → Calm holds sent call
      → AllSent holds sent p
      → AllSent holds sent n
  step-AllSent call p n r e calm all =
      subst (AllSent holds sent) (ap (λ o. o.1) e) (Calm-AllSent call p calm all)

  pub check_step-AllSentBut :
      (t : List ℕ) (p n : P) (answer : Result (Option CheckResponse))
      → calls.check_tx t p ≡ (answer, n)
      → AllSent holds sent p
      → AllSentBut holds sent t n
  check_step-AllSentBut t p n answer e all =
      subst (AllSentBut holds sent t) (ap (λ o. o.1) e) (check-AllSentBut t p all)

  pub failed_check : (code : Error) → ¬ MayEnter (err code)
  failed_check code (inl (response, h, zero_code)) = cc
  failed_check code (inr h) = cc

  pub refused_check :
      (response : CheckResponse) → (response.code == 0) ≡ false → ¬ MayEnter (ok (some response))
  refused_check response other (inl (r, h, zero_code)) =
      let entered : response.code ≡ 0 = ap answer_code h ∙ zero_code in ground arith
  refused_check response other (inr h) = cc
