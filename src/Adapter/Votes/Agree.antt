-- ===== src/Adapter/Votes/Agree.antt =====
-- The bytes to sign of the two providers of pkg/adapter/providers.go, side by side.
use ev_abci.Prelude.{Bool-cases, List, inl, inr, ok, refl, some, ℕ, ◌<◌, ◌==◌, ◌^◌, ◌≡◌}
use ev_abci.Network.Types.{BlockId}
use ev_abci.Store.{Datastore}
use ev_abci.Store.View.{LawfulCodecs}
use ev_abci.Adapter.Types.{Block, ChainState, EvHeader, Node, Opaque, no_block_id}
use ev_abci.Adapter.Execute.{Adapter, execute_txs}
use ev_abci.Adapter.Execute.Made.{IsMade}
use ev_abci.Adapter.Execute.Success.{Succeeded, execute_txs-Succeeded}
use ev_abci.Adapter.Votes.{
  SignBytes, computed_block_id, create_vote, sequencer_signature_bytes, sync_signature_bytes,
}

module _ {App : Type 0} (a : Adapter App) (sign_bytes : SignBytes) where
  computed_made :
      (txs : List (List ℕ)) (header : EvHeader) (ds : Datastore) (s : ChainState) (block : Block)
      (id : BlockId)
      → IsMade a txs header.height header ds s block id
      → computed_block_id a.comet a.sources header txs ds ≡ ok id
  unfolding computed_block_id
  computed_made txs header ds s block id made =
      rw (made.committed, made.converted, made.loaded, made.made) refl

  -- Once the sequencer has executed a block, the bytes that it signs for it, from its store, are
  -- those that a node computes from the header and the transactions on the store from before the
  -- execution. The encodings are lawful.
  pub sequencer-sync :
      (txs : List (List ℕ)) (time : Opaque) (header : EvHeader) (node after : Node App)
      (hash : List ℕ)
      → LawfulCodecs a.sources.codecs
      → header.height < 2 ^ 64
      → execute_txs a txs header.height time (some header) node ≡ (ok hash, after)
      → (bytes : List ℕ) × (sequencer_signature_bytes a.comet a.sources sign_bytes header after.ds
          ≡ ok bytes)
        × (sync_signature_bytes a.comet a.sources sign_bytes header txs node.ds ≡ ok bytes)
  unfolding sequencer_signature_bytes sync_signature_bytes
  sequencer-sync txs time header node after hash law word ended =
      let success : Succeeded a txs header.height time header node hash after =
        execute_txs-Succeeded a txs header.height time header node after hash law word ended in
      let id : BlockId = success.done.block_id in
      let computed : computed_block_id a.comet a.sources header txs node.ds ≡ ok id =
        computed_made txs header node.ds success.done.state success.done.block id
          success.ran.made in
      elim (Bool-cases (header.height == 1)) [
        | inl one ↦ (create_vote sign_bytes header no_block_id, rw one refl, rw one refl)
        | inr later ↦ (
          create_vote sign_bytes header id,
          rw (later, success.recorded.block_id) refl,
          rw (later, computed) refl,
        )
      ]
