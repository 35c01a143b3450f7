-- ===== src/Network/MsgServer/Effects.antt =====
-- What a vote changes in the store (modules/network/keeper/msg_server.go).
use ev_abci.Prelude.{
  Bool-cases, Error, Get, List, Option, Result, String, ap, arith, bytes_eq, eq_ℤ, eq_ℤ_sound, err,
  failed, fetch_opt, found, get, get-set, if◌then◌else◌, inl, inr, int_eq, missing, nat_eq, none,
  ok, pair_eq, pos, refl, same, some, string_eq, sym, to_uint64, true, ℕ, ℤ, ◌&&◌, ◌/◌, ◌==◌, ◌∙◌,
  ◌≡◌, ◌⊎◌,
}
use ev_abci.Prelude.Outcome.{ok_injective, ok_ne_err}
use ev_abci.Network.Bitmap.{is_set, set_bit}
use ev_abci.Network.Bitmap.Bytes.{is_set-new_bitmap}
use ev_abci.Network.Bitmap.Count.{bit-set_bit}
use ev_abci.Network.Types.{>>=-step, >>=-stop, Ctx, Env, MsgAttest, Params, State, lift}
use ev_abci.Network.Keeper.{get_all_attesters, get_attestation_bitmap}
use ev_abci.Network.Vote.{admit_attest}
use ev_abci.Network.Vote.Admit.{Admitted, admit_attest-Admitted}
use ev_abci.Network.Invariant.{IsShaped, IsValid, new_bitmap-IsShaped, size}
use ev_abci.Network.MsgServer.{attest, record_attest}
use ev_abci.Network.Invariant.Confirmed.{vote_in, voted_at}
use ev_abci.Network.MsgServer.Attest.{attested_state, record_attest_lem}

-- A refused vote: an error, and the store as it was.
abbrev pub Refused : Result (Unit {0}) × State → State → Type 0
Refused r s = (e : Error) × (r ≡ (err e, s))

-- The two ways that a vote ends, under parameters `p`.
abbrev pub Decided : Env → Ctx → MsgAttest → Params → State → Type 0
Decided env ctx msg p s =
    Refused (attest env ctx msg s) s
    ⊎ ((index : ℕ) × (bitmap : List ℕ) × Admitted env ctx msg s index bitmap
        × (attest env ctx msg s ≡ (
          ok tt,
          attested_state msg (to_uint64 ctx.block_height / p.epoch_length) index
              (set_bit bitmap (pos index)) s,
        )))

read_cases :
    (height : ℤ) (s : State) {o : Option (List ℕ)}
    → get_attestation_bitmap height s ≡ ok o
    → ((get height s.attestation_bitmap ≡ missing) × (o ≡ none))
      ⊎ ((b : List ℕ) × (get height s.attestation_bitmap ≡ found b) × (o ≡ some b))
unfolding get_attestation_bitmap
read_cases height s h = fetch_cases (get height s.attestation_bitmap) h
  where
    fetch_cases :
        (g : Get (List ℕ)) {o : Option (List ℕ)}
        → fetch_opt g ≡ ok o
        → ((g ≡ missing) × (o ≡ none)) ⊎ ((b : List ℕ) × (g ≡ found b) × (o ≡ some b))
    fetch_cases (found b) h = inr (b, refl, sym (ok_injective h))
    fetch_cases missing h = inl (refl, sym (ok_injective h))
    fetch_cases failed h = cc

module _ (env : Env) (ctx : Ctx) (msg : MsgAttest) (s : State) (valid : IsValid env s) where
  pub Admitted-IsShaped :
      {index : ℕ} {bitmap : List ℕ} → Admitted env ctx msg s index bitmap → IsShaped (size s) bitmap
  unfolding get_all_attesters
  Admitted-IsShaped {index} {bitmap} a = elim (read_cases msg.height s a.read) [
    | inl (_, fresh) ↦ rw (a.chosen, fresh) (new_bitmap-IsShaped (size s) valid.small)
    | inr (b, known, e) ↦ rw (a.chosen, e) (valid.shaped msg.height b known)
  ]

  -- On a well-formed store a vote is refused with the store as it was, or it passes every check and
  -- then cannot fail, and leaves the store that `attested_state` computes.
  pub attest-cases : Decided env ctx msg valid.current s
  unfolding attest
  attest-cases = from_checks (admit_attest env ctx msg s) refl
    where
      from_checks :
          (r : Result (ℕ × List ℕ))
          → admit_attest env ctx msg s ≡ r
          → Decided env ctx msg valid.current s
      from_checks (err e) h = inl (
        e,
        >>=-stop (lift (admit_attest env ctx msg)) (λ p. record_attest env ctx msg p.0 p.1) s
            (ap (λ r. (r, s)) h),
      )
      from_checks (ok (index, bitmap)) h =
          let a = admit_attest-Admitted env ctx msg s h in
          inr (
            index,
            bitmap,
            a,
            >>=-step (lift (admit_attest env ctx msg)) (λ p. record_attest env ctx msg p.0 p.1) s
                  (ap (λ r. (r, s)) h)
                ∙ record_attest_lem env ctx msg s valid index bitmap (Admitted-IsShaped a)
                    (valid.indexed msg.consensus_address index a.registered_index),
          )

  pub votes_before :
      {index : ℕ} {bitmap : List ℕ}
      → Admitted env ctx msg s index bitmap
      → (j : ℕ) → is_set bitmap (pos j) ≡ voted_at msg.height j s
  unfolding get_all_attesters
  votes_before a j = elim (read_cases msg.height s a.read) [
    | inl (absent, fresh) ↦ rw (a.chosen, fresh, absent) (is_set-new_bitmap (size s) (pos j))
    | inr (b, known, e) ↦ rw (a.chosen, e, known)
  ]

  -- The votes after an accepted one: it adds the sender's vote for the height, and no other vote
  -- changes.
  pub voted_at-attested :
      (epoch index : ℕ) (bitmap : List ℕ)
      → Admitted env ctx msg s index bitmap
      → (h : ℤ) (j : ℕ)
      → voted_at h j (attested_state msg epoch index (set_bit bitmap (pos index)) s)
        ≡ (if eq_ℤ msg.height h && index == j then true else voted_at h j s)
  voted_at-attested epoch index bitmap a h j =
      let shaped = Admitted-IsShaped a in
      let below = valid.indexed msg.consensus_address index a.registered_index in
      ap (λ g. vote_in g j) (get-set msg.height h (set_bit bitmap (pos index)) s.attestation_bitmap)
      ∙ elim (Bool-cases (eq_ℤ msg.height h)) [
        | inl same_height ↦
            let e : msg.height ≡ h = eq_ℤ_sound msg.height h same_height in
            rw same_height (
              bit-set_bit bitmap index j shaped.bytes (omega (arith, shaped.long))
              ∙ rw (votes_before a j, e))
        | inr other ↦ rw other
      ]

  -- An accepted vote has passed every check, and leaves the store that it computes.
  pub accepted :
      {t : State}
      → attest env ctx msg s ≡ (ok tt, t)
      → (index : ℕ) × (bitmap : List ℕ) × Admitted env ctx msg s index bitmap
        × (t
            ≡ attested_state msg
                (to_uint64 ctx.block_height / valid.current.epoch_length)
                index
                (set_bit bitmap (pos index))
                s)
  accepted {t} h = elim attest-cases [
    | inl (e, refused) ↦ absurd (
        ok_ne_err (
          sym (ap (λ (r : Result (Unit {0}) × State). r.0) h)
          ∙ ap (λ (r : Result (Unit {0}) × State). r.0) refused))
    | inr (index, bitmap, a, done) ↦
        (index, bitmap, a, ap (λ (r : Result (Unit {0}) × State). r.1) (sym h ∙ done))
  ]

pub same_found {ℓ} : {A : Type ℓ} {g : Get A} {a b : A} → g ≡ found a → g ≡ found b → a ≡ b
same_found p q = cc

-- The store after a vote of the attester at `i`: its bit of the height is set and the message's vote
-- is its signature; no other bit, no other signature, and nothing of the attesters changes.
abbrev pub Records : MsgAttest → ℕ → State → State → Type 0
Records msg i s t =
    ((h : ℤ) (j : ℕ)
      → voted_at h j t ≡ (if eq_ℤ msg.height h && i == j then true else voted_at h j s))
    × ((h : ℤ) (a : String)
        → get (h, a) t.signatures ≡ (
            if eq_ℤ msg.height h && same msg.consensus_address a
            then found msg.vote
            else get (h, a) s.signatures))
    × (t.attester_set ≡ s.attester_set)
    × (t.validator_index ≡ s.validator_index)
    × (t.validator_power ≡ s.validator_power)
    × (t.attester_info ≡ s.attester_info)
    × (t.params ≡ s.params)

-- On a well-formed store an accepted vote of an address with an index sets the bit of this index
-- for the height and stores the message's vote as its signature; no other bit of any height and no
-- other signature changes, and the attester set, its indices, its powers, its keys and the
-- parameters stay.
pub attest-Records :
    (env : Env) (ctx : Ctx) (msg : MsgAttest) (s : State) {t : State} {i : ℕ}
    → IsValid env s
    → get msg.consensus_address s.validator_index ≡ found i
    → attest env ctx msg s ≡ (ok tt, t)
    → Records msg i s t
attest-Records env ctx msg s {t} {i} valid known h =
    let (index, bitmap, a, done) = accepted env ctx msg s valid h in
    let same_index : index ≡ i = same_found a.registered_index known in
    (
      λ k j.
          ap (λ u. voted_at k j u) done
          ∙ voted_at-attested env ctx msg s valid
              (to_uint64 ctx.block_height / valid.current.epoch_length) index bitmap a k j
          ∙ ap (λ n. if eq_ℤ msg.height k && n == j then true else voted_at k j s) same_index,
      λ k b.
          ap (λ u. get (k, b) u.signatures) done
          ∙ get-set (msg.height, msg.consensus_address) (k, b) msg.vote s.signatures,
      ap (λ u. u.attester_set) done,
      ap (λ u. u.validator_index) done,
      ap (λ u. u.validator_power) done,
      ap (λ u. u.attester_info) done,
      ap (λ u. u.params) done,
    )
