-- ===== src/Store.antt =====
-- pkg/store/store.go: the executor's own store, on the datastore of the node. It holds the state of
-- the chain, and for each height the id of the block and the results of its execution.
pub mod View
pub mod Prune
pub mod Effect
pub mod Runs
pub mod Record
mod Tests
use ev_abci.Prelude.{
  Bool, Get, List, Map, Option, Result, String, [], bytes_eq, clear, decoding, err, failed, fetch,
  format_uint, found, get, if◌then◌else◌, int_eq, leb, missing, nat_eq, none, not_found, ok,
  or_fail, pair_eq, parse_uint, plain, same, set, some, string_eq, suc, zero, ℕ, ◌%◌, ◌++◌, ◌+◌,
  ◌^◌, ◌∷◌,
}
use ev_abci.Prelude.Outcome.{◌>>=◌, ◌>>◌}

-- A name below the prefix "abci", and the child of it, if any.
abbrev pub Key : Type 0
Key = String × List ℕ

abbrev pub state_key : Key
state_key = ("s", [])

abbrev pub last_pruned_height_key : Key
last_pruned_height_key = ("lphk", [])

abbrev pub block_id_key : ℕ → Key
block_id_key height = ("bid", format_uint height)

abbrev pub block_response_key : ℕ → Key
block_response_key height = ("br", format_uint height)

-- An entry that cannot be read is `failed`.
abbrev pub Datastore : Type 0
Datastore = Map Key (List ℕ)

-- How the datastore answers the writes of a call.
pub record Disk : Type 0 where
  pub put : Key → Result (Unit {0})
  pub batch : Result (Unit {0})
  pub batch_delete : Key → Result (Unit {0})
  pub batch_put : Key → Result (Unit {0})
  pub commit : Result (Unit {0})

-- The protobuf encoding of a type, its conversion to and from the protobuf type included.
pub record Codec (A : Type 0) : Type 0 where
  pub encode : A → Result (List ℕ)
  pub decode : List ℕ → Result A

-- The encodings of the three types, `is_nil` for the values that the datastore hands back as nil,
-- and the zero state.
pub record Codecs (S B R : Type 0) : Type 0 where
  pub is_nil : List ℕ → Bool
  pub empty : S
  pub states : Codec S
  pub ids : Codec B
  pub responses : Codec R

-- `Put`.
abbrev pub put : Disk → Key → List ℕ → Datastore → Result Datastore
put disk key value ds = disk.put key >> ok (set key value ds)

module _ {A : Type 0} (disk : Disk) (codec : Codec A) where
  -- `SaveState`.
  unfoldable pub save_state : A → Datastore → Result Datastore
  save_state state ds = do bytes ← codec.encode state; put disk state_key bytes ds

  -- `SaveBlockID`.
  unfoldable pub save_block_id : ℕ → A → Datastore → Result Datastore
  save_block_id height block_id ds = do
    bytes ← codec.encode block_id
    put disk (block_id_key height) bytes ds

  -- `SaveBlockResponse`.
  unfoldable pub save_block_response : ℕ → A → Datastore → Result Datastore
  save_block_response height response ds = do
    bytes ← codec.encode response
    put disk (block_response_key height) bytes ds

-- `is_nil` tells the values that the datastore hands back as nil.
module _ {A : Type 0} (is_nil : List ℕ → Bool) (codec : Codec A) where
  -- `LoadState`; `empty` is the zero state.
  unfoldable pub load_state : A → Datastore → Result A
  load_state empty ds = do
    bytes ← fetch (get state_key ds)
    if is_nil bytes then ok empty else codec.decode bytes

  -- `GetBlockID`.
  unfoldable pub get_block_id : ℕ → Datastore → Result A
  get_block_id height ds = do
    bytes ← fetch (get (block_id_key height) ds)
    if is_nil bytes then err plain else codec.decode bytes

  -- `GetBlockResponse`.
  unfoldable pub get_block_response : ℕ → Datastore → Result A
  get_block_response height ds = do
    bytes ← fetch (get (block_response_key height) ds)
    if is_nil bytes then err plain else codec.decode bytes

-- The write operations that a batch collects.
pub data Op : Type 0 where
  delete : Key → Op
  write : Key → List ℕ → Op

-- A batch that is committed has all its effects, in order; one that is not has none.
unfoldable pub apply_ops : List Op → Datastore → Datastore
apply_ops [] ds = ds
apply_ops (delete key ∷ ops) ds = apply_ops ops (clear (λ k. same k key) ds)
apply_ops (write key value ∷ ops) ds = apply_ops ops (set key value ds)

-- `batch.Delete`, whose `ds.ErrNotFound` is ignored.
unfoldable pub queue_delete : Disk → Key → Result (Unit {0})
queue_delete disk key = elim (disk.batch_delete key) [
  | ok _ ↦ ok tt
  | err not_found ↦ ok tt
  | err e ↦ err e
]

-- What follows a loop whose fuel may run out.
abbrev pub after_loop : {A B : Type 0} → Option (Result A) → (A → Result B) → Option (Result B)
after_loop none next = none
after_loop (some result) next = some (result >>= next)

-- The round of height `h`, by its two deletions, and the rounds after it.
abbrev pub after_height :
    ℕ → Result (Unit {0}) → Option (Result (List Op)) → Option (Result (List Op))
after_height h (ok _) rest =
    after_loop rest (λ ops. ok (delete (block_id_key h) ∷ delete (block_response_key h) ∷ ops))
after_height h (err e) rest = some (err e)

-- The loop of `Prune` from height `h` on. `none`: the fuel ran out.
unfoldable pub queue_deletes : Disk → ℕ → ℕ → ℕ → Option (Result (List Op))
queue_deletes disk zero h height = none
queue_deletes disk (suc fuel) h height =
    let rest = queue_deletes disk fuel ((h + 1) % 2 ^ 64) height in
    if leb h height
    then after_height h
        (queue_delete disk (block_id_key h) >> queue_delete disk (block_response_key h)) rest
    else some (ok [])

-- The bytes of the last pruned height; it need not be there.
abbrev pub pruned_bytes : Get (List ℕ) → Result (List ℕ)
pruned_bytes (found bytes) = ok bytes
pruned_bytes missing = ok []
pruned_bytes failed = err decoding

abbrev pub parse_height : List ℕ → Result ℕ
parse_height [] = ok 0
parse_height (c ∷ cs) = or_fail (parse_uint (c ∷ cs)) plain

-- The last pruned height, as `Prune` reads it.
unfoldable pub last_pruned : Datastore → Result ℕ
last_pruned ds = pruned_bytes (get last_pruned_height_key ds) >>= parse_height

-- The rest of `Prune` where the heights of the batch are at hand.
unfoldable pub commit_batch : Disk → ℕ → List Op → Datastore → Result Datastore
commit_batch disk height deletes ds = do
  disk.batch_put last_pruned_height_key
  disk.commit
  ok (apply_ops (deletes ++ write last_pruned_height_key (format_uint height) ∷ []) ds)

-- The rest of `Prune` by its answer to the opening of a batch.
abbrev pub with_batch : Disk → ℕ → ℕ → ℕ → Datastore → Result (Unit {0}) → Option (Result Datastore)
with_batch disk fuel last height ds (err e) = some (err e)
with_batch disk fuel last height ds (ok _) =
    after_loop (queue_deletes disk fuel ((last + 1) % 2 ^ 64) height)
      (λ deletes. commit_batch disk height deletes ds)

-- The rest of `Prune` by the last pruned height.
abbrev pub prune_after : Disk → ℕ → ℕ → Datastore → Result ℕ → Option (Result Datastore)
prune_after disk fuel height ds (err e) = some (err e)
prune_after disk fuel height ds (ok last) =
    if leb height last then some (ok ds) else with_batch disk fuel last height ds disk.batch

-- `Prune`, with at most `fuel` rounds of its loop.
unfoldable pub prune : Disk → ℕ → ℕ → Datastore → Option (Result Datastore)
prune disk fuel height ds = prune_after disk fuel height ds (last_pruned ds)
