-- ===== src/Network/MsgServer/Progress.antt =====
-- Votes over time (modules/network/keeper/msg_server.go): the invariant, repeated votes, and the
-- last attested height.
use mathlib.Core.Path.{subst, ap₂}
use ev_abci.Prelude.{
  Bool-cases, Eq, Get, List, Map, Result, ap, arith, bytes_eq, eq_ℤ_refl, failed, found,
  found_injective, get, get-set, get-set_self, inl, inr, int_eq, ltb, missing, nat_eq, ok, pair_eq,
  pos, refl, same_refl, set, string_eq, sym, to_uint64, true, true_ne, ℕ, ℤ, ◌*◌, ◌/◌, ◌∙◌, ◌≡◌,
  ◌≢◌, ◌≤ℤ◌, ◌⊎◌,
}
use ev_abci.Network.Bitmap.{pop_count, set_bit}
use ev_abci.Network.Types.{Ctx, Env, MsgAttest, State}
use ev_abci.Network.Keeper.{get_all_attesters, get_epoch_bitmap, is_soft_confirmed}
use ev_abci.Network.Invariant.{IsShaped, IsValid, new_bitmap-IsShaped, set_bit-IsShaped, size}
use ev_abci.Network.Invariant.Confirmed.{confirmed_by, pop_count-votes, voted_at}
use ev_abci.Network.MsgServer.{attest}
use ev_abci.Network.MsgServer.Attest.{attested_state, counted, epoch_votes, larger}
use ev_abci.Network.MsgServer.Effects.{
  Admitted-IsShaped, Refused, accepted, attest-Records, attest-cases, same_found, votes_before,
}

-- A write of a shaped bitmap keeps every bitmap shaped.
IsShaped-set :
    {K : Type 0} ⦃e : Eq K⦄ (n : ℕ) (k : K) (b : List ℕ) (m : Map K (List ℕ))
    → IsShaped n b
    → ((j : K) (c : List ℕ) → get j m ≡ found c → IsShaped n c)
    → (j : K) (c : List ℕ) → get j (set k b m) ≡ found c
    → IsShaped n c
IsShaped-set ⦃e⦄ n k b m sb sm j c h = elim (Bool-cases (e.beq k j)) [
  | inl hit ↦ subst (IsShaped n) (found_injective (sym (get-set k j b m ∙ rw hit) ∙ h)) sb
  | inr miss ↦ sm j c (sym (get-set k j b m ∙ rw miss) ∙ h)
]

readable-set :
    {K V : Type 0} ⦃e : Eq K⦄ (k j : K) (v : V) (m : Map K V)
    → get j m ≢ failed
    → get j (set k v m) ≢ failed
readable-set ⦃e⦄ k j v m h bad = ground (arith, get-set k j v m)

epoch_votes-IsShaped :
    (env : Env) (s : State) (epoch : ℕ) → IsValid env s → IsShaped (size s) (epoch_votes epoch s)
unfolding get_epoch_bitmap get_all_attesters
epoch_votes-IsShaped env s epoch valid = from_read (get epoch s.epoch_bitmap) refl
  where
    from_read :
        (g : Get (List ℕ)) → get epoch s.epoch_bitmap ≡ g → IsShaped (size s) (epoch_votes epoch s)
    from_read (found b) h = rw h (valid.epochs_shaped epoch b h)
    from_read missing h = rw h (new_bitmap-IsShaped (size s) valid.small)
    from_read failed h = rw h (new_bitmap-IsShaped (size s) valid.small)

larger_readable : (height : ℤ) (g : Get ℤ) → g ≢ failed → larger height g ≢ failed
larger_readable height (found c) h bad = ground arith
larger_readable height missing h bad = ground arith
larger_readable height failed h bad = h refl

last_readable-counted :
    (msg : MsgAttest) (bitmap : List ℕ) (s : State)
    → s.last_attested_height ≢ failed
    → (counted msg bitmap s).last_attested_height ≢ failed
last_readable-counted msg bitmap s h = elim (Bool-cases (ltb (2 * size s) (3 * pop_count bitmap))) [
  | inl quorum ↦ rw quorum (larger_readable msg.height s.last_attested_height h)
  | inr below ↦ rw below h
]

-- A vote keeps a well-formed store well-formed, accepted or not.
pub attest-IsValid :
    (env : Env) (ctx : Ctx) (msg : MsgAttest) (s : State)
    → IsValid env s
    → IsValid env (attest env ctx msg s).1
attest-IsValid env ctx msg s valid = elim (attest-cases env ctx msg s valid) [
  | inl (e, refused) ↦ rw refused valid
  | inr (index, bitmap, a, done) ↦ rw done (record {
    current = valid.current;
    current_params = valid.current_params;
    valid_params = valid.valid_params;
    small = valid.small;
    indexed = valid.indexed;
    powered = valid.powered;
    shaped =
        IsShaped-set (size s) msg.height (set_bit bitmap (pos index)) s.attestation_bitmap
          (set_bit-IsShaped (size s) index bitmap
            (valid.indexed msg.consensus_address index a.registered_index)
            (Admitted-IsShaped env ctx msg s valid a))
          valid.shaped;
    readable = λ h. readable-set msg.height h _ s.attestation_bitmap (valid.readable h);
    epochs_shaped =
        IsShaped-set (size s) (to_uint64 ctx.block_height / valid.current.epoch_length)
          (set_bit (epoch_votes (to_uint64 ctx.block_height / valid.current.epoch_length) s)
            (pos index))
          s.epoch_bitmap
          (set_bit-IsShaped (size s) index
            (epoch_votes (to_uint64 ctx.block_height / valid.current.epoch_length) s)
            (valid.indexed msg.consensus_address index a.registered_index)
            (epoch_votes-IsShaped env s (to_uint64 ctx.block_height / valid.current.epoch_length)
              valid))
          valid.epochs_shaped;
    last_readable = last_readable-counted msg (set_bit bitmap (pos index)) s valid.last_readable;
  })
]

has_voted :
    (env : Env) (ctx : Ctx) (msg : MsgAttest) (s : State) {t : State} {i : ℕ}
    → IsValid env s
    → get msg.consensus_address s.validator_index ≡ found i
    → attest env ctx msg s ≡ (ok tt, t)
    → voted_at msg.height i t ≡ true
has_voted env ctx msg s {t} {i} valid known h =
    (attest-Records env ctx msg s valid known h).0 msg.height i
    ∙ rw (eq_ℤ_refl msg.height, same_refl i)

-- In the store that an accepted vote leaves from a well-formed one, a message of the same address
-- for the same height is refused, with any vote and at any block height, and changes nothing.
pub attest_twice :
    (env : Env) (ctx ctx' : Ctx) (msg msg' : MsgAttest) (s : State) {t : State}
    → IsValid env s
    → attest env ctx msg s ≡ (ok tt, t)
    → msg'.height ≡ msg.height
    → msg'.consensus_address ≡ msg.consensus_address
    → Refused (attest env ctx' msg' t) t
attest_twice env ctx ctx' msg msg' s {t} valid h same_height same_address =
    let valid' : IsValid env t =
      subst (IsValid env) (ap (λ (r : Result (Unit {0}) × State). r.1) h)
        (attest-IsValid env ctx msg s valid) in
    let (index, bitmap, a, done) = accepted env ctx msg s valid h in
    elim (attest-cases env ctx' msg' t valid') [
      | inl refused ↦ refused
      | inr (index', bitmap', a', _) ↦
          let e : index' ≡ index = same_found a'.registered_index (
            ap₂ (λ x m. get x m) same_address (ap (λ u. u.validator_index) done)
            ∙ a.registered_index) in
          absurd (
            true_ne (
              sym (has_voted env ctx msg s valid a.registered_index h)
              ∙ ap₂ (λ k j. voted_at k j t) (sym same_height) (sym e)
              ∙ sym (votes_before env ctx' msg' t valid' a' index')
              ∙ a'.fresh))
    ]

-- The last attested height, zero where none is stored.
abbrev pub height_of : Get ℤ → ℤ
height_of (found height) = height
height_of missing = pos 0
height_of failed = pos 0

abbrev pub last : State → ℤ
last s = height_of s.last_attested_height

larger_cases :
    (height : ℤ) (g : Get ℤ)
    → (height_of g ≤ℤ height_of (larger height g))
      × ((height_of (larger height g) ≡ height_of g) ⊎ (height_of (larger height g) ≡ height))
larger_cases height (found c) = ground arith
larger_cases height missing = ground arith
larger_cases height failed = ground arith

-- How the last attested height moves between two stores, for a vote at a height.
abbrev pub Moves : Env → ℤ → State → State → Type 0
Moves env height s t =
    (last s ≤ℤ last t)
    × ((last t ≡ last s) ⊎ ((last t ≡ height) × (is_soft_confirmed env height t ≡ ok true)))

attested-Moves :
    (env : Env) (msg : MsgAttest) (s : State) (epoch index : ℕ) (marked : List ℕ)
    → IsShaped (size s) marked
    → IsValid env (attested_state msg epoch index marked s)
    → Moves env msg.height s (attested_state msg epoch index marked s)
attested-Moves env msg s epoch index marked shaped valid =
    elim (Bool-cases (ltb (2 * size s) (3 * pop_count marked))) [
      | inl quorum ↦
          let u : State = attested_state msg epoch index marked s in
          let e : last u ≡ height_of (larger msg.height s.last_attested_height) = rw quorum in
          let confirmed : is_soft_confirmed env msg.height u ≡ ok true =
            confirmed_by env u valid msg.height (found marked)
              (get-set_self msg.height marked s.attestation_bitmap)
            ∙ rw (← pop_count-votes (size s) marked shaped, quorum) in
          let (grows, moved) = larger_cases msg.height s.last_attested_height in
          (
            subst (λ x. last s ≤ℤ x) (sym e) grows,
            elim moved [ inl p ↦ inl (e ∙ p) | inr p ↦ inr (e ∙ p, confirmed) ],
          )
      | inr below ↦ rw below (omega arith, inl refl)
    ]

-- On a well-formed store an accepted vote never lowers the last attested height; where it changes
-- it, the new value is the height of the vote, and that height is soft-confirmed then.
pub attest-Moves :
    (env : Env) (ctx : Ctx) (msg : MsgAttest) (s : State) {t : State}
    → IsValid env s
    → attest env ctx msg s ≡ (ok tt, t)
    → Moves env msg.height s t
attest-Moves env ctx msg s {t} valid h =
    let (index, bitmap, a, done) = accepted env ctx msg s valid h in
    let valid' : IsValid env t =
      subst (IsValid env) (ap (λ (r : Result (Unit {0}) × State). r.1) h)
        (attest-IsValid env ctx msg s valid) in
    subst (Moves env msg.height s) (sym done) (
      attested-Moves env msg s (to_uint64 ctx.block_height / valid.current.epoch_length) index
        (set_bit bitmap (pos index))
        (set_bit-IsShaped (size s) index bitmap
          (valid.indexed msg.consensus_address index a.registered_index)
          (Admitted-IsShaped env ctx msg s valid a))
        (subst (IsValid env) done valid'))
