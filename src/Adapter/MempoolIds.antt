-- ===== src/Adapter/MempoolIds.antt =====
-- pkg/adapter/mempool_ids.go: short ids for peers. The mutex makes each operation one step.
pub mod Search
pub mod Sound
pub mod Release
mod Tests
use ev_abci.Prelude.{
  List, Map, Option, Result, String, [], bytes_eq, clear, contains, err, failed, filter, found, get,
  if◌then◌else◌, int_eq, length, missing, nat_eq, none, not, ok, pair_eq, panic, plain, same, set,
  some, string_eq, suc, zero, ℕ, ◌%◌, ◌+◌, ◌==◌, ◌^◌, ◌∷◌,
}

-- Go maps hold no undecodable values; `peer_map` is a map whose entries are all `found`.
pub record MempoolIds : Type 0 where
  pub peer_map : Map String ℕ
  pub next_id : ℕ
  pub active_ids : List ℕ

-- The loop of `nextPeerID`: at most `rounds` tries from `id` on.
unfoldable pub search : ℕ → ℕ → List ℕ → Option ℕ
search zero id active = none
search (suc rounds) id active =
    let rest = search rounds ((id + 1) % 2 ^ 16) active in
    if contains id active then rest else some id

-- `nextPeerID`, with one try more than there are active ids.
unfoldable pub next_peer_id : MempoolIds → Result (ℕ × MempoolIds)
next_peer_id ids =
    if length ids.active_ids == 65535
    then err panic
    else elim (search (suc (length ids.active_ids)) ids.next_id ids.active_ids) [
      | some id ↦ ok (id, record ids { next_id = (id + 1) % 2 ^ 16 })
      | none ↦ err plain
    ]

-- The id of a peer, in use from now on.
abbrev pub assign : String → ℕ → MempoolIds → MempoolIds
assign peer id ids = record ids {
  peer_map = set peer id ids.peer_map;
  active_ids = id ∷ ids.active_ids;
}

-- `ReserveForPeer`.
unfoldable pub reserve_for_peer : String → MempoolIds → Result MempoolIds
reserve_for_peer peer ids = elim (next_peer_id ids) [
  | ok (id, rest) ↦ ok (assign peer id rest)
  | err e ↦ err e
]

-- `Reclaim`.
unfoldable pub reclaim : String → MempoolIds → MempoolIds
reclaim peer ids = elim (get peer ids.peer_map) [
  | found id ↦ record ids {
    peer_map = clear (λ p. same p peer) ids.peer_map;
    active_ids = filter (λ i. not (i == id)) ids.active_ids;
  }
  | missing ↦ ids
  | failed ↦ ids
]

-- `GetForPeer`.
unfoldable pub get_for_peer : String → MempoolIds → Result (ℕ × MempoolIds)
get_for_peer peer ids = elim (get peer ids.peer_map) [
  | found id ↦ ok (id, ids)
  | missing ↦ elim (next_peer_id ids) [
    | ok (id, rest) ↦ ok (id, assign peer id rest)
    | err e ↦ err e
  ]
  | failed ↦ err panic
]

-- `newMempoolIDs`.
abbrev pub new_mempool_ids : MempoolIds
new_mempool_ids = record { peer_map = []; next_id = 1; active_ids = 0 ∷ [] }
