-- ===== src/Network/Vote/Admit.antt =====
-- The checks of `Attest` in modules/network/keeper/msg_server.go, as one condition.
use mathlib.Core.Path.{subst, ap₂}
use ev_abci.Prelude.{
  Bool, Error, Get, List, Option, Result, String, [], ap, arith, bytes_beq, bytes_beq_iff, bytes_eq,
  eq_ℤ, eq_ℤ_sound, fail_as, failed, false, found, get, inc64, int_eq, invalid_request, leb_ℤ,
  leb→le, logic, missing, nat_eq, not, ok, or_fail, pair_eq, plain, pos, refl, require, some,
  string_eq, sym, to_uint64, true, unauthorized, unknown_key, ℕ, ℤ, ◌∙◌, ◌≡◌, ◌≤ℤ◌,
}
use ev_abci.Prelude.Outcome.{>>-eq-ok, >>=-eq-ok, fail_as_ok, ok_injective, or_fail_ok, require_ok}
use ev_abci.Network.Bitmap.{is_set}
use ev_abci.Network.Types.{
  AttesterInfo, BlockId, Ctx, Env, MsgAttest, PubKey, State, Vote, get_pub_key,
}
use ev_abci.Network.Keeper.{get_attestation_bitmap, get_current_epoch, get_validator_index}
use ev_abci.Network.Vote.{
  admit_attest, assert_retained, assert_valid_validator_authority, or_new_bitmap, precommit_type,
  registered, verify_vote,
}

-- A vote message that is well signed by the registered key of an address, for a height, over the
-- block id that the node has for this height.
pub record Verified (env : Env) (ctx : Ctx) (addr : String) (bytes : List ℕ) (height : ℤ)
    (s : State) (v : Vote) : Type 0 where
  pub decoded : env.unmarshal_vote bytes ≡ some v
  pub precommit : v.type ≡ precommit_type
  pub same_height : v.height ≡ height
  pub round_zero : v.round ≡ pos 0
  pub info : AttesterInfo
  pub registered_info : get addr s.attester_info ≡ found info
  pub key : PubKey
  pub registered_key : info.pubkey ≡ some key
  pub same_address : v.validator_address ≡ env.pub_key_address key
  pub block_id : BlockId
  pub converted : env.block_id_from_proto v.block_id ≡ some block_id
  pub signed :
      env.verify_signature key
        (env.vote_sign_bytes ctx.chain_id (record v { signature = [] }))
        v.signature
      ≡ true
  pub provider : ℕ → Result (Option BlockId)
  pub wired : env.block_id_provider ≡ some provider
  pub stored : BlockId
  pub known : provider (to_uint64 height) ≡ ok (some stored)
  pub pinned : env.block_id_equals stored block_id ≡ true

registered_ok :
    (e : Error) (g : Get AttesterInfo) {info : AttesterInfo}
    → registered e g ≡ ok info
    → g ≡ found info
registered_ok e (found i) h = cc
registered_ok e missing h = cc
registered_ok e failed h = cc

-- A vote that `verifyVote` returns is a decoded precommit of round zero for the height, from the
-- address of the registered key and with a valid signature of this key, and its block id equals
-- the one that the node has for the height.
pub verify_vote-Verified :
    (env : Env) (ctx : Ctx) (addr : String) (bytes : List ℕ) (height : ℤ) (s : State) {v : Vote}
    → verify_vote env ctx addr bytes height s ≡ ok v
    → Verified env ctx addr bytes height s v
unfolding verify_vote get_pub_key
verify_vote-Verified env ctx addr bytes height s {v} h =
    let (w, decoded, h₁) = >>=-eq-ok (or_fail (env.unmarshal_vote bytes) invalid_request) _ h in
    let (type, h₂) = >>-eq-ok (require (eq_ℤ w.type precommit_type) invalid_request) _ h₁ in
    let (same_height, h₃) = >>-eq-ok (require (eq_ℤ w.height height) invalid_request) _ h₂ in
    let (round, h₄) = >>-eq-ok (require (eq_ℤ w.round (pos 0)) invalid_request) _ h₃ in
    let (info, known_info, h₅) =
      >>=-eq-ok (registered unknown_key (get addr s.attester_info)) _ h₄ in
    let (key, known_key, h₆) = >>=-eq-ok (or_fail info.pubkey plain) _ h₅ in
    let (address, h₇) =
      >>-eq-ok (require (bytes_beq w.validator_address (env.pub_key_address key)) unauthorized) _
        h₆ in
    let (block_id, converted, h₈) =
      >>=-eq-ok (or_fail (env.block_id_from_proto w.block_id) invalid_request) _ h₇ in
    let (signed, h₉) =
      >>-eq-ok
        (require
          (env.verify_signature key (env.vote_sign_bytes ctx.chain_id (record w { signature = [] }))
            w.signature)
          unauthorized)
        _ h₈ in
    let (provider, wired, h₁₀) = >>=-eq-ok (or_fail env.block_id_provider logic) _ h₉ in
    let (stored, known, h₁₁) =
      >>=-eq-ok (fail_as invalid_request (provider (to_uint64 height))) _ h₁₀ in
    let (stored_id, present, h₁₂) = >>=-eq-ok (or_fail stored invalid_request) _ h₁₁ in
    let (pinned, h₁₃) =
      >>-eq-ok (require (env.block_id_equals stored_id block_id) invalid_request) _ h₁₂ in
    subst (Verified env ctx addr bytes height s) (ok_injective h₁₃) (record {
      decoded = or_fail_ok _ _ decoded;
      precommit = eq_ℤ_sound _ _ (require_ok _ _ type);
      same_height = eq_ℤ_sound _ _ (require_ok _ _ same_height);
      round_zero = eq_ℤ_sound _ _ (require_ok _ _ round);
      info = info;
      registered_info = registered_ok _ _ known_info;
      key = key;
      registered_key = or_fail_ok _ _ known_key;
      same_address = (bytes_beq_iff _ _).0 (require_ok _ _ address);
      block_id = block_id;
      converted = or_fail_ok _ _ converted;
      signed = require_ok _ _ signed;
      provider = provider;
      wired = or_fail_ok _ _ wired;
      stored = stored_id;
      known = fail_as_ok _ _ known ∙ ap ok (or_fail_ok _ _ present);
      pinned = require_ok _ _ pinned;
    })

-- What `Attest` has established before its first write.
pub record Admitted (env : Env) (ctx : Ctx) (msg : MsgAttest) (s : State) (index : ℕ)
    (bitmap : List ℕ) : Type 0 where
  pub info : AttesterInfo
  pub registered_info : get msg.consensus_address s.attester_info ≡ found info
  pub authorised : info.authority ≡ msg.authority
  pub vote : Vote
  pub verified : Verified env ctx msg.consensus_address msg.vote msg.height s vote
  pub registered_index : get msg.consensus_address s.validator_index ≡ found index
  pub not_future : msg.height ≤ℤ inc64 ctx.block_height
  pub epoch : ℕ
  pub current : get_current_epoch ctx s ≡ ok epoch
  pub retained : assert_retained epoch msg.height s ≡ ok tt
  pub stored : Option (List ℕ)
  pub read : get_attestation_bitmap msg.height s ≡ ok stored
  pub chosen : bitmap ≡ or_new_bitmap stored s
  pub fresh : is_set bitmap (pos index) ≡ false

authority_ok :
    (addr authority : String) (s : State)
    → assert_valid_validator_authority addr authority s ≡ ok tt
    → (info : AttesterInfo) × (get addr s.attester_info ≡ found info) × (info.authority ≡ authority)
unfolding assert_valid_validator_authority
authority_ok addr authority s h =
    let (info, known, h₁) = >>=-eq-ok (registered unauthorized (get addr s.attester_info)) _ h in
    (info, registered_ok _ _ known, (string_eq.beq_iff _ _).0 (require_ok _ _ h₁))

index_ok :
    (addr : String) (s : State) {i : ℕ}
    → get_validator_index addr s ≡ some i
    → get addr s.validator_index ≡ found i
unfolding get_validator_index
index_ok addr s h = ground arith

leb_ℤ_sound : (a b : ℤ) → leb_ℤ a b ≡ true → a ≤ℤ b
leb_ℤ_sound a b h = leb→le _ _ h

not-true : (b : Bool) → not b ≡ true → b ≡ false
not-true true h = cc
not-true false h = refl

-- Where the checks of `Attest` let a message through, its authority is that of the registered
-- attester, its vote is verified, the index is the attester's, the height is at most one above the
-- block's and within the retention window, and the bitmap is the stored one, or else a new one,
-- without the attester's bit.
pub admit_attest-Admitted :
    (env : Env) (ctx : Ctx) (msg : MsgAttest) (s : State) {index : ℕ} {bitmap : List ℕ}
    → admit_attest env ctx msg s ≡ ok (index, bitmap)
    → Admitted env ctx msg s index bitmap
unfolding admit_attest
admit_attest-Admitted env ctx msg s {index} {bitmap} h =
    let addr : String = msg.consensus_address in
    let (authority, h₁) = >>-eq-ok (assert_valid_validator_authority addr msg.authority s) _ h in
    let (vote, verified, h₂) = >>=-eq-ok (verify_vote env ctx addr msg.vote msg.height s) _ h₁ in
    let (i, known, h₃) = >>=-eq-ok (or_fail (get_validator_index addr s) unknown_key) _ h₂ in
    let (height, h₄) =
      >>-eq-ok (require (leb_ℤ msg.height (inc64 ctx.block_height)) invalid_request) _ h₃ in
    let (epoch, current, h₅) = >>=-eq-ok (get_current_epoch ctx s) _ h₄ in
    let (retained, h₆) = >>-eq-ok (assert_retained epoch msg.height s) _ h₅ in
    let (stored, read, h₇) = >>=-eq-ok (get_attestation_bitmap msg.height s) _ h₆ in
    let (fresh, h₈) =
      >>-eq-ok (require (not (is_set (or_new_bitmap stored s) (pos i))) invalid_request) _ h₇ in
    let (info, registered_info, authorised) = authority_ok addr msg.authority s authority in
    let found_pair : (i, or_new_bitmap stored s) ≡ (index, bitmap) = ok_injective h₈ in
    let same_index : i ≡ index = ap (λ (p : ℕ × List ℕ). p.0) found_pair in
    let same_bitmap : or_new_bitmap stored s ≡ bitmap = ap (λ (p : ℕ × List ℕ). p.1) found_pair in
    record {
      info = info;
      registered_info = registered_info;
      authorised = authorised;
      vote = vote;
      verified = verify_vote-Verified env ctx addr msg.vote msg.height s verified;
      registered_index = index_ok addr s (or_fail_ok _ _ known) ∙ ap found same_index;
      not_future = leb_ℤ_sound msg.height (inc64 ctx.block_height) (require_ok _ _ height);
      epoch = epoch;
      current = current;
      retained = retained;
      stored = stored;
      read = read;
      chosen = sym same_bitmap;
      fresh =
          ap₂ (λ b j. is_set b (pos j)) (sym same_bitmap) (sym same_index)
          ∙ not-true _ (require_ok _ _ fresh);
    }
