-- ===== src/Adapter/MempoolIds/Sound.antt =====
-- No two peers share an id (pkg/adapter/mempool_ids.go).
use mathlib.Core.Path.{subst}
use ev_abci.Prelude.{
  Bool, Get, List, String, ap, arith, bytes_eq, contains, failed, false, found, found_injective,
  get, get-set, get-set_ne, get-set_self, if◌then◌else◌, inl, inr, int_eq, length, missing, nat_eq,
  ok, pair_eq, refl, same, same_refl, set, string_eq, suc, sym, true, true_ne, zero, ℕ, ◌%◌, ◌+◌,
  ◌<◌, ◌^◌, ◌∙◌, ◌∷◌, ◌≡◌, ◌≢◌, ◌≤◌, ◌⊎◌,
}
use ev_abci.Adapter.MempoolIds.{
  MempoolIds, assign, get_for_peer, new_mempool_ids, next_peer_id, reserve_for_peer,
}
use ev_abci.Adapter.MempoolIds.Search.{search_finds, search_free}

-- Ids in use are active, belong to one peer each, and are never the reserved id zero.
pub record IsSound (ids : MempoolIds) : Type 0 where
  pub small : ids.next_id < 2 ^ 16
  pub few : length ids.active_ids ≤ 65535
  pub held : (p : String) (i : ℕ) → get p ids.peer_map ≡ found i → contains i ids.active_ids ≡ true
  pub alone :
      (p q : String) (i : ℕ) → get p ids.peer_map ≡ found i → get q ids.peer_map ≡ found i → p ≡ q
  pub proper : (p : String) (i : ℕ) → get p ids.peer_map ≡ found i → (0 < i) × (i < 2 ^ 16)
  pub reserved : contains 0 ids.active_ids ≡ true
  pub readable : (p : String) → get p ids.peer_map ≢ failed

-- The ids after an id search.
abbrev pub advanced : ℕ → MempoolIds → MempoolIds
advanced id ids = record ids { next_id = (id + 1) % 2 ^ 16 }

next_ok :
    (ids : MempoolIds)
    → IsSound ids
    → length ids.active_ids < 65535
    → (id : ℕ) × (next_peer_id ids ≡ ok (id, advanced id ids))
      × (contains id ids.active_ids ≡ false)
      × (id < 2 ^ 16)
unfolding next_peer_id
next_ok ids sound room =
    let (id, e) = search_finds ids.next_id ids.active_ids sound.small (omega arith) in
    let (free, low) =
      search_free (suc (length ids.active_ids)) ids.next_id ids.active_ids e sound.small in
    (id, ground (arith, e, room), free, low)

-- Whose id a read after a write finds.
written :
    (b : Bool) (id i : ℕ) (g : Get ℕ)
    → (if b then found id else g) ≡ found i
    → ((b ≡ true) × (id ≡ i)) ⊎ ((b ≡ false) × (g ≡ found i))
written true id i g h = inl (refl, found_injective h)
written false id i g h = inr (refl, h)

read_failed : (b : Bool) (id : ℕ) (g : Get ℕ) → (if b then found id else g) ≡ failed → g ≡ failed
read_failed true id g h = cc
read_failed false id g h = h

newest : (id : ℕ) (active : List ℕ) → contains id (id ∷ active) ≡ true
newest id active = rw (same_refl id) refl

older : (id i : ℕ) (active : List ℕ) → contains i active ≡ true → contains i (id ∷ active) ≡ true
older id i active h = ground (arith, h)

pub assign-IsSound :
    (peer : String) (id : ℕ) (ids : MempoolIds)
    → IsSound ids
    → length ids.active_ids < 65535
    → contains id ids.active_ids ≡ false
    → id < 2 ^ 16
    → IsSound (assign peer id (advanced id ids))
assign-IsSound peer id ids sound room free low = record {
  small = omega arith;
  few = omega arith;
  held = λ p i h. elim (owner p i h) [
    | inl (_, e) ↦ subst (λ k. contains k (id ∷ ids.active_ids) ≡ true) e (newest id ids.active_ids)
    | inr (_, old) ↦ older id i ids.active_ids (sound.held p i old)
  ];
  alone = λ p q i hp hq. elim (owner p i hp) [
    | inl (mine, e) ↦ elim (owner q i hq) [
      | inl (mine', _) ↦
          sym ((string_eq.beq_iff peer p).0 mine) ∙ (string_eq.beq_iff peer q).0 mine'
      | inr (_, old) ↦ absurd (taken q i e old)
    ]
    | inr (_, old) ↦ elim (owner q i hq) [
      | inl (_, e) ↦ absurd (taken p i e old)
      | inr (_, old') ↦ sound.alone p q i old old'
    ]
  ];
  proper = λ p i h. elim (owner p i h) [
    | inl (_, e) ↦ subst (λ k. (0 < k) × (k < 2 ^ 16)) e (positive, low)
    | inr (_, old) ↦ sound.proper p i old
  ];
  reserved = older id 0 ids.active_ids sound.reserved;
  readable = λ p h. sound.readable p (
      read_failed (same peer p) id (get p ids.peer_map) (sym (get-set peer p id ids.peer_map) ∙ h));
}
  where
    owner :
        (p : String) (i : ℕ)
        → get p (set peer id ids.peer_map) ≡ found i
        → ((same peer p ≡ true) × (id ≡ i))
          ⊎ ((same peer p ≡ false) × (get p ids.peer_map ≡ found i))
    owner p i h =
        written (same peer p) id i (get p ids.peer_map) (sym (get-set peer p id ids.peer_map) ∙ h)

    not_zero : (k : ℕ) → contains k ids.active_ids ≡ false → 0 < k
    not_zero zero absent = absurd (true_ne (sym sound.reserved ∙ absent))
    not_zero (suc k) absent = omega arith

    positive : 0 < id
    positive = not_zero id free

    taken : (p : String) (i : ℕ) → id ≡ i → get p ids.peer_map ≢ found i
    taken p i e old =
        true_ne (sym (sound.held p i old) ∙ ap (λ k. contains k ids.active_ids) (sym e) ∙ free)

-- What a successful `GetForPeer` returns and leaves.
pub record IsGiven (peer : String) (ids : MempoolIds) (id : ℕ) (ids' : MempoolIds) : Type 0 where
  pub sound : IsSound ids'
  pub mine : get peer ids'.peer_map ≡ found id
  pub others : (q : String) → q ≢ peer → get q ids'.peer_map ≡ get q ids.peer_map

-- On sound ids with fewer than 65535 of them active, `GetForPeer` comes to an end with an id that
-- the peer has from then on, and no other peer's id changes; after it no two peers share an id and
-- every id is above zero and below 2^16.
pub get_for_peer-IsGiven :
    (peer : String) (ids : MempoolIds)
    → IsSound ids
    → length ids.active_ids < 65535
    → (id : ℕ) × (ids' : MempoolIds) × (get_for_peer peer ids ≡ ok (id, ids'))
      × IsGiven peer ids id ids'
unfolding get_for_peer
get_for_peer-IsGiven peer ids sound room = from_read (get peer ids.peer_map) refl
  where
    from_read :
        (g : Get ℕ)
        → get peer ids.peer_map ≡ g
        → (id : ℕ) × (ids' : MempoolIds) × (get_for_peer peer ids ≡ ok (id, ids'))
          × IsGiven peer ids id ids'
    from_read (found id) h = (
      id,
      ids,
      rw (h, get_for_peer) refl,
      record { sound = sound; mine = h; others = λ q ne. refl },
    )
    from_read missing h =
        let (id, e, free, low) = next_ok ids sound room in
        (
          id,
          assign peer id (advanced id ids),
          rw (h, e, get_for_peer) refl,
          record {
            sound = assign-IsSound peer id ids sound room free low;
            mine = get-set_self peer id ids.peer_map;
            others = λ q ne. get-set_ne peer q id ids.peer_map (λ same_peer. ne (sym same_peer));
          },
        )
    from_read failed h = absurd (sound.readable peer h)

-- On sound ids with fewer than 65535 of them active, `ReserveForPeer` gives the peer an id that
-- was free, whether it had one before or not, and no other peer's id changes; the ids stay sound.
pub reserve_for_peer-IsGiven :
    (peer : String) (ids : MempoolIds)
    → IsSound ids
    → length ids.active_ids < 65535
    → (id : ℕ) × (ids' : MempoolIds) × (reserve_for_peer peer ids ≡ ok ids')
      × IsGiven peer ids id ids'
      × (contains id ids.active_ids ≡ false)
unfolding reserve_for_peer
reserve_for_peer-IsGiven peer ids sound room =
    let (id, e, free, low) = next_ok ids sound room in
    (
      id,
      assign peer id (advanced id ids),
      rw (e, reserve_for_peer) refl,
      record {
        sound = assign-IsSound peer id ids sound room free low;
        mine = get-set_self peer id ids.peer_map;
        others = λ q ne. get-set_ne peer q id ids.peer_map (λ same_peer. ne (sym same_peer));
      },
      free,
    )

pub missing_found : {i : ℕ} → missing ≢ found i
missing_found h = cc

-- The ids of a new node.
pub new_mempool_ids-IsSound : IsSound new_mempool_ids
unfolding get
new_mempool_ids-IsSound = record {
  small = omega arith;
  few = omega arith;
  held = λ p i h. cc;
  alone = λ p q i hp hq. cc;
  proper = λ p i h. absurd (missing_found h);
  reserved = refl;
  readable = λ p h. cc;
}
