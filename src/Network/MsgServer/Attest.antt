-- ===== src/Network/MsgServer/Attest.antt =====
-- What `Attest` of modules/network/keeper/msg_server.go leaves behind on a well-formed store.
use ev_abci.Prelude.{
  Bool, Bool-cases, Get, List, Option, ap, arith, bytes_eq, failed, false, found, if◌then◌else◌,
  inl, inr, int_eq, ltb, ltb_ℤ, missing, nat_eq, none, ok, pair_eq, pos, refl, set, some, string_eq,
  to_uint64, true, ℕ, ℤ, ◌*◌, ◌/◌, ◌<◌, ◌∙◌, ◌∷◌, ◌≡◌, ◌≢◌,
}
use ev_abci.Network.Bitmap.{pop_count, set_bit}
use ev_abci.Network.Types.{>>=-step, Ctx, Env, MsgAttest, Params, State, attested}
use ev_abci.Network.Keeper.{
  calculate_voted_power, check_quorum, get_all_attesters, get_current_epoch, get_epoch_bitmap,
  get_last_attested_height, get_params, get_total_power, set_attestation_bitmap, set_epoch_bitmap,
  set_last_attested_height, set_signature, update_last_attested_height,
}
use ev_abci.Network.Keeper.Quorum.{calculate_voted_power-pop_count, check_quorum-two_thirds}
use ev_abci.Network.Params.Valid.{validate-Accepted}
use ev_abci.Network.Vote.{or_new_bitmap}
use ev_abci.Network.Invariant.{IsShaped, IsValid, set_bit-IsShaped, size}
use ev_abci.Network.Invariant.Confirmed.{pop_count-le, total_power-size}
use ev_abci.Network.MsgServer.{count_votes, emit, mark_epoch, record_attest}

-- The store after the two writes for the vote.
abbrev pub voted : MsgAttest → List ℕ → State → State
voted msg bitmap s = record s {
  attestation_bitmap = set msg.height bitmap s.attestation_bitmap;
  signatures = set (msg.height, msg.consensus_address) msg.vote s.signatures;
}

-- The last attested height after an update: the larger of the two, zero where none is stored.
abbrev pub larger : ℤ → Get ℤ → Get ℤ
larger height (found current) = if ltb_ℤ current height then found height else found current
larger height missing = if ltb_ℤ (pos 0) height then found height else missing
larger height failed = failed

-- The store after the vote is counted, on `bitmap`.
abbrev pub counted : MsgAttest → List ℕ → State → State
counted msg bitmap s = record (voted msg bitmap s) {
  last_attested_height =
      if ltb (2 * size s) (3 * pop_count bitmap)
      then larger msg.height s.last_attested_height
      else s.last_attested_height;
}

-- The bitmap of an epoch, new where none is stored.
abbrev pub epoch_votes : ℕ → State → List ℕ
epoch_votes epoch s = or_new_bitmap (get_epoch_bitmap epoch s) s

-- The store after the whole of `Attest`.
abbrev pub attested_state : MsgAttest → ℕ → ℕ → List ℕ → State → State
attested_state msg epoch index bitmap s = record (counted msg bitmap s) {
  epoch_bitmap = set epoch (set_bit (epoch_votes epoch s) (pos index)) s.epoch_bitmap;
  events = attested msg.consensus_address msg.authority msg.height ∷ s.events;
}

count_votes_lem :
    (env : Env) (msg : MsgAttest) (bitmap : List ℕ) (t : State) (v n : ℕ) (q : Bool)
    → calculate_voted_power bitmap t ≡ ok v
    → get_total_power t ≡ n
    → check_quorum env v n t ≡ ok q
    → count_votes env msg bitmap t
      ≡ (if q then update_last_attested_height msg.height t else (ok tt, t))
unfolding count_votes
count_votes_lem env msg bitmap t v n true hv hn hq = ground (arith, hv, hn, hq)
count_votes_lem env msg bitmap t v n false hv hn hq = ground (arith, hv, hn, hq)

mark_epoch_lem :
    (ctx : Ctx) (msg : MsgAttest) (index epoch : ℕ) (t : State)
    → get_current_epoch ctx t ≡ ok epoch
    → mark_epoch ctx msg index t ≡ (
      ok tt,
      emit (attested msg.consensus_address msg.authority msg.height) (
          set_epoch_bitmap epoch
            (set_bit (or_new_bitmap (get_epoch_bitmap epoch t) t) (pos index))
            t),
    )
unfolding mark_epoch
mark_epoch_lem ctx msg index epoch t h = ground (arith, h)

pub epoch_lem :
    (ctx : Ctx) (t : State) (p : Params)
    → t.params ≡ found p
    → 0 < p.epoch_length
    → get_current_epoch ctx t ≡ ok (to_uint64 ctx.block_height / p.epoch_length)
unfolding get_current_epoch get_params
epoch_lem ctx t p h pos_len = ground arith

update_lem :
    (height : ℤ) (t : State)
    → t.last_attested_height ≢ failed
    → update_last_attested_height height t
      ≡ (ok tt, record t { last_attested_height = larger height t.last_attested_height })
unfolding update_last_attested_height get_last_attested_height set_last_attested_height
update_lem height t readable = ground arith

module _ (env : Env) (ctx : Ctx) (msg : MsgAttest) (s : State) (valid : IsValid env s) where
  voted_power-voted :
      (bitmap : List ℕ)
      → IsShaped (size s) bitmap
      → calculate_voted_power bitmap (voted msg bitmap s) ≡ ok (pop_count bitmap)
  voted_power-voted bitmap shaped =
      calculate_voted_power-pop_count bitmap (voted msg bitmap s) shaped.bytes shaped.short
        (λ k e. valid.powered k (shaped.inside k e))

  quorum-voted :
      (bitmap : List ℕ)
      → IsShaped (size s) bitmap
      → check_quorum env (pop_count bitmap) (size s) (voted msg bitmap s)
        ≡ ok (ltb (2 * size s) (3 * pop_count bitmap))
  quorum-voted bitmap shaped =
      let accepted = validate-Accepted env valid.current valid.valid_params in
      check_quorum-two_thirds env (pop_count bitmap) (size s) (voted msg bitmap s)
        valid.current_params accepted.quorum.parsed
        (omega (arith, pop_count-le (size s) bitmap shaped, valid.small))
        (omega (arith, valid.small))

  counted_lem :
      (bitmap : List ℕ)
      → IsShaped (size s) bitmap
      → count_votes env msg bitmap (voted msg bitmap s) ≡ (ok tt, counted msg bitmap s)
  counted_lem bitmap shaped =
      count_votes_lem env msg bitmap (voted msg bitmap s) (pop_count bitmap) (size s) _
        (voted_power-voted bitmap shaped) (total_power-size (voted msg bitmap s) valid.small)
        (quorum-voted bitmap shaped)
      ∙ elim (Bool-cases (ltb (2 * size s) (3 * pop_count bitmap))) [
        | inl quorum ↦ rw quorum (update_lem msg.height (voted msg bitmap s) valid.last_readable)
        | inr below ↦ rw below
      ]

  or_new_counted :
      (bitmap : List ℕ) (o : Option (List ℕ))
      → or_new_bitmap o (counted msg bitmap s) ≡ or_new_bitmap o s
  unfolding get_all_attesters
  or_new_counted bitmap none = refl
  or_new_counted bitmap (some b) = refl

  marked_lem :
      (index epoch : ℕ) (bitmap : List ℕ)
      → get_current_epoch ctx (counted msg bitmap s) ≡ ok epoch
      → mark_epoch ctx msg index (counted msg bitmap s)
        ≡ (ok tt, attested_state msg epoch index bitmap s)
  unfolding set_epoch_bitmap get_epoch_bitmap
  marked_lem index epoch bitmap h =
      mark_epoch_lem ctx msg index epoch (counted msg bitmap s) h
      ∙ ap
          (λ b. (
            ok tt,
            record (counted msg bitmap s) {
              epoch_bitmap = set epoch (set_bit b (pos index)) s.epoch_bitmap;
              events = attested msg.consensus_address msg.authority msg.height ∷ s.events;
            },
          ))
          (or_new_counted bitmap (get_epoch_bitmap epoch s))

  -- On a well-formed store, what follows the checks of `Attest` cannot fail, and leaves this store.
  pub record_attest_lem :
      (index : ℕ) (bitmap : List ℕ)
      → IsShaped (size s) bitmap
      → index < size s
      → record_attest env ctx msg index bitmap s ≡ (
        ok tt,
        attested_state msg
            (to_uint64 ctx.block_height / valid.current.epoch_length)
            index
            (set_bit bitmap (pos index))
            s,
      )
  unfolding record_attest set_signature set_attestation_bitmap
  record_attest_lem index bitmap shaped below =
      let marked : List ℕ = set_bit bitmap (pos index) in
      let accepted = validate-Accepted env valid.current valid.valid_params in
      >>=-step (count_votes env msg marked) (λ _. mark_epoch ctx msg index) (voted msg marked s)
        (counted_lem marked (set_bit-IsShaped (size s) index bitmap below shaped))
      ∙ marked_lem index (to_uint64 ctx.block_height / valid.current.epoch_length) marked (
          epoch_lem ctx (counted msg marked s) valid.current valid.current_params
            accepted.epoch_positive)
