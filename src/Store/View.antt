-- ===== src/Store/View.antt =====
-- The store of pkg/store/store.go as what its readers answer: the state, the block id and the
-- response of each height, and the last pruned height. Each call is a change to these functions.
pub mod Saves
pub mod Drops
use ev_abci.Prelude.{
  Bool, List, Option, Result, err, false, if◌then◌else◌, leb, ltb, not_found, ok, some, suc, ℕ,
  ◌&&◌, ◌+◌, ◌<◌, ◌==◌, ◌^◌, ◌≡◌,
}
use ev_abci.Store.{
  Codec, Codecs, Datastore, Disk, get_block_id, get_block_response, last_pruned, load_state, prune,
  save_block_id, save_block_response, save_state,
}

-- What the readers answer.
pub record View (S B R : Type 0) : Type 0 where
  pub state : Result S
  pub block_id : ℕ → Result B
  pub response : ℕ → Result R
  pub pruned : Result ℕ

-- The calls that change the store.
pub data Call (S B R : Type 0) : Type 0 where
  put_state : S → Call S B R
  put_block_id : ℕ → B → Call S B R
  put_response : ℕ → R → Call S B R
  drop_to : ℕ → Call S B R

-- A function, changed at one height.
abbrev pub update : {A : Type 0} → ℕ → A → (ℕ → Result A) → ℕ → Result A
update h a f i = if i == h then ok a else f i

-- Pruning, on the functions.
abbrev pub forget : {S B R : Type 0} → ℕ → View S B R → ℕ → View S B R
forget last v height = record v {
  block_id = λ i. if ltb last i && leb i height then err not_found else v.block_id i;
  response = λ i. if ltb last i && leb i height then err not_found else v.response i;
  pruned = ok height;
}

abbrev pub forget_to : {S B R : Type 0} → ℕ → View S B R → Result ℕ → View S B R
forget_to height v (err e) = v
forget_to height v (ok last) = if leb height last then v else forget last v height

-- A call that succeeds, on the functions.
abbrev pub replay : {S B R : Type 0} → Call S B R → View S B R → View S B R
replay (put_state s) v = record v { state = ok s }
replay (put_block_id h b) v = record v { block_id = update h b v.block_id }
replay (put_response h r) v = record v { response = update h r v.response }
replay (drop_to height) v = forget_to height v v.pruned

-- The heights for which the loop of `Prune` ends.
abbrev pub Fits : {S B R : Type 0} → Call S B R → Type 0
Fits (put_state s) = Unit
Fits (put_block_id h b) = h < 2 ^ 64
Fits (put_response h r) = h < 2 ^ 64
Fits (drop_to h) = h + 1 < 2 ^ 64

-- What an encoding gives back: its value, where the datastore does not hand it back as nil.
abbrev pub Lawful : {A : Type 0} → (List ℕ → Bool) → Codec A → Type 0
Lawful {A} is_nil codec =
    (a : A) (bytes : List ℕ)
    → codec.encode a ≡ ok bytes
    → (is_nil bytes ≡ false) × (codec.decode bytes ≡ ok a)

-- Encodings are lawful.
pub record LawfulCodecs {S B R : Type 0} (c : Codecs S B R) : Type 0 where
  pub states : Lawful c.is_nil c.states
  pub ids : Lawful c.is_nil c.ids
  pub responses : Lawful c.is_nil c.responses

-- The readers answer as the view does.
pub record Reads {S B R : Type 0} (c : Codecs S B R) (ds : Datastore) (v : View S B R)
    : Type 0 where
  pub state : load_state c.is_nil c.states c.empty ds ≡ v.state
  pub block_id : (h : ℕ) → h < 2 ^ 64 → get_block_id c.is_nil c.ids h ds ≡ v.block_id h
  pub response : (h : ℕ) → h < 2 ^ 64 → get_block_response c.is_nil c.responses h ds ≡ v.response h
  pub pruned : last_pruned ds ≡ v.pruned

-- A call on the datastore.
abbrev pub perform :
    {S B R : Type 0} → Codecs S B R → Disk → Call S B R → Datastore → Option (Result Datastore)
perform c disk (put_state s) ds = some (save_state disk c.states s ds)
perform c disk (put_block_id h b) ds = some (save_block_id disk c.ids h b ds)
perform c disk (put_response h r) ds = some (save_block_response disk c.responses h r ds)
perform c disk (drop_to height) ds = prune disk (suc (suc height)) height ds
