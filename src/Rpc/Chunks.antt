-- ===== src/Rpc/Chunks.antt =====
-- The genesis in chunks, in pkg/rpc/core/net.go.
pub mod Whole
use ev_abci.Prelude.{
  Bool, List, Option, Result, String, [], fail_as, get_elem?, if◌then◌else◌, leb, length, ltb,
  ltb_ℤ, map, none, not, ok, or_fail, panic, plain, pos, require, some, suc, to_int64, zero, ℕ, ℤ,
  ◌*◌, ◌+◌, ◌-◌, ◌==◌, ◌∷◌,
}
use ev_abci.Prelude.Outcome.{◌>>=◌, ◌>>◌}
use ev_abci.Rpc.Search.{skip, take}

-- `genesisChunkSize`.
abbrev pub genesis_chunk_size : ℕ
genesis_chunk_size = 16 * 1024 * 1024

-- The genesis as JSON, `none` where there is no document; and base64.
pub record GenesisSource : Type 0 where
  pub loaded : Bool
  pub to_json : Result (Option (List ℕ))
  pub base64 : List ℕ → String

pub record GenesisChunk : Type 0 where
  pub total_chunks : ℕ
  pub chunk_number : ℤ
  pub content : String

-- The loop of `getGenesisChunks` from byte `i` on, before base64, for any size of a chunk.
unfoldable pub chunk_loop : ℕ → ℕ → ℕ → List ℕ → List (List ℕ)
chunk_loop zero size i doc = []
chunk_loop (suc fuel) size i doc =
    let rest = chunk_loop fuel size (i + size) doc in
    let end = if leb (i + size) (length doc) then i + size else length doc in
    if ltb i (length doc) then take (end - i) (skip i doc) ∷ rest else []

module _ (source : GenesisSource) where
  -- The chunks of a document, one round of the loop for each byte at most.
  abbrev pub chunks_of : Option (List ℕ) → List String
  chunks_of none = []
  chunks_of (some doc) = map source.base64 (chunk_loop (length doc) genesis_chunk_size 0 doc)

  -- `getGenesisChunks`.
  unfoldable pub get_genesis_chunks : Result (List String)
  unfolding chunk_loop
  get_genesis_chunks = do require source.loaded plain; json ← source.to_json; ok (chunks_of json)

  -- `GenesisChunked`, for an index of type uint.
  unfoldable pub genesis_chunked : ℕ → Result GenesisChunk
  unfolding get_genesis_chunks
  genesis_chunked chunk = do
    all_chunks ← fail_as plain get_genesis_chunks
    require (not (length all_chunks == 0)) plain
    require (ltb_ℤ (to_int64 chunk) (pos (length all_chunks))) plain
    content ← or_fail (get_elem? all_chunks chunk) panic
    ok (record {
      total_chunks = length all_chunks;
      chunk_number = to_int64 chunk;
      content = content;
    })
