-- ===== src/Adapter/MempoolIds/Tests.antt =====
-- A node and a peer (pkg/adapter/mempool_ids.go).
use ev_abci.Prelude.{arith, bytes_eq, get, int_eq, nat_eq, ok, pair_eq, refl, string_eq, ℕ, ◌≡◌}
use ev_abci.Adapter.MempoolIds.{
  MempoolIds, assign, get_for_peer, new_mempool_ids, next_peer_id, search,
}
use ev_abci.Adapter.MempoolIds.Sound.{
  IsGiven, IsSound, advanced, assign-IsSound, get_for_peer-IsGiven, new_mempool_ids-IsSound,
}

get_for_peer-IsGiven_example :
    (id : ℕ) × (ids' : MempoolIds) × (get_for_peer "p" new_mempool_ids ≡ ok (id, ids'))
    × IsGiven "p" new_mempool_ids id ids'
get_for_peer-IsGiven_example =
    get_for_peer-IsGiven "p" new_mempool_ids new_mempool_ids-IsSound (omega arith)

abbrev with_peer : MempoolIds
with_peer = assign "p" 1 (advanced 1 new_mempool_ids)

first_id : get_for_peer "p" new_mempool_ids ≡ ok (1, with_peer)
unfolding get_for_peer next_peer_id search get
first_id = refl

with_peer-IsSound : IsSound with_peer
with_peer-IsSound =
    assign-IsSound "p" 1 new_mempool_ids new_mempool_ids-IsSound (omega arith) refl (omega arith)
