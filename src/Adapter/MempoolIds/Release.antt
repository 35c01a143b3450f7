-- ===== src/Adapter/MempoolIds/Release.antt =====
-- Ids go back to the pool (pkg/adapter/mempool_ids.go).
use ev_abci.Prelude.{
  Bool, Bool-cases, Get, List, String, [], ap, arith, bytes_eq, clear, contains, failed, false,
  filter, found, found_injective, get, get-clear, if◌then◌else◌, inl, inr, int_eq, length, missing,
  nat_eq, not, pair_eq, refl, same, same_refl, string_eq, sym, true, true_ne, ℕ, ◌==◌, ◌∙◌, ◌∷◌,
  ◌≡◌, ◌≢◌, ◌≤◌,
}
use ev_abci.Adapter.MempoolIds.{MempoolIds, reclaim}
use ev_abci.Adapter.MempoolIds.Sound.{IsSound, missing_found}

contains-filter :
    (k id : ℕ) (xs : List ℕ)
    → contains k (filter (λ i. not (i == id)) xs) ≡ (if k == id then false else contains k xs)
contains-filter k id [] = ground arith
contains-filter k id (x ∷ xs) = ground (arith, contains-filter k id xs)

length-filter : (id : ℕ) (xs : List ℕ) → length (filter (λ i. not (i == id)) xs) ≤ length xs
length-filter id [] = omega arith
length-filter id (x ∷ xs) = ground (arith, length-filter id xs)

-- Who keeps an id.
kept :
    (b : Bool) (i : ℕ) (g : Get ℕ)
    → (if b then missing else g) ≡ found i
    → (b ≡ false) × (g ≡ found i)
kept true i g h = cc
kept false i g h = (refl, h)

still_readable : (b : Bool) (g : Get ℕ) → (if b then missing else g) ≡ failed → g ≡ failed
still_readable true g h = cc
still_readable false g h = h

-- The ids after `Reclaim` of a peer that has one.
abbrev released : String → ℕ → MempoolIds → MempoolIds
released peer id ids = record ids {
  peer_map = clear (λ p. same p peer) ids.peer_map;
  active_ids = filter (λ i. not (i == id)) ids.active_ids;
}

still_held :
    (i id : ℕ) (xs : List ℕ)
    → i ≢ id
    → contains i xs ≡ true
    → contains i (filter (λ j. not (j == id)) xs) ≡ true
still_held i id xs ne h = contains-filter i id xs ∙ ground (arith, h, ne)

released-IsSound :
    (peer : String) (id : ℕ) (ids : MempoolIds)
    → IsSound ids
    → get peer ids.peer_map ≡ found id
    → IsSound (released peer id ids)
released-IsSound peer id ids sound mine = record {
  small = sound.small;
  few = omega (arith, length-filter id ids.active_ids, sound.few);
  held = λ p i h.
      let (other, old) = owner p i h in
      still_held i id ids.active_ids (differs p i other old) (sound.held p i old);
  alone = λ p q i hp hq. sound.alone p q i (owner p i hp).1 (owner q i hq).1;
  proper = λ p i h. sound.proper p i (owner p i h).1;
  reserved =
      still_held 0 id ids.active_ids (λ e. omega (arith, (sound.proper peer id mine).0, e))
        sound.reserved;
  readable = λ p h. sound.readable p (
      still_readable (same p peer) (get p ids.peer_map)
        (sym (get-clear (λ q. same q peer) p ids.peer_map) ∙ h));
}
  where
    owner :
        (p : String) (i : ℕ)
        → get p (clear (λ q. same q peer) ids.peer_map) ≡ found i
        → (same p peer ≡ false) × (get p ids.peer_map ≡ found i)
    owner p i h =
        kept (same p peer) i (get p ids.peer_map)
          (sym (get-clear (λ q. same q peer) p ids.peer_map) ∙ h)

    differs : (p : String) (i : ℕ) → same p peer ≡ false → get p ids.peer_map ≡ found i → i ≢ id
    differs p i other old e = true_ne (
        sym ((string_eq.beq_iff p peer).1 (sound.alone p peer i old (mine ∙ ap found (sym e))))
        ∙ other)

unlike : (p q : String) → p ≢ q → same p q ≡ false
unlike p q ne = elim (Bool-cases (same p q)) [
  | inl e ↦ absurd (ne ((string_eq.beq_iff p q).0 e))
  | inr other ↦ other
]

-- The ids after `Reclaim`: sound, with the peer's id free again and every other peer's kept.
pub record IsReleased (peer : String) (ids ids' : MempoolIds) : Type 0 where
  pub sound : IsSound ids'
  pub gone : get peer ids'.peer_map ≡ missing
  pub free : (id : ℕ) → get peer ids.peer_map ≡ found id → contains id ids'.active_ids ≡ false
  pub others : (q : String) → q ≢ peer → get q ids'.peer_map ≡ get q ids.peer_map

-- On sound ids `Reclaim` takes the peer's id from it and frees it, leaves every other peer its id,
-- and changes no peer's id where the peer has none; the ids stay sound.
pub reclaim-IsReleased :
    (peer : String) (ids : MempoolIds) → IsSound ids → IsReleased peer ids (reclaim peer ids)
unfolding reclaim
reclaim-IsReleased peer ids sound = from_read (get peer ids.peer_map) refl
  where
    from_read : (g : Get ℕ) → get peer ids.peer_map ≡ g → IsReleased peer ids (reclaim peer ids)
    from_read (found id) h =
        rw (h, reclaim)
          (record {
            sound = released-IsSound peer id ids sound h;
            gone = get-clear (λ q. same q peer) peer ids.peer_map ∙ rw (same_refl peer) refl;
            free = λ j e.
                contains-filter j id ids.active_ids ∙ ground (arith, found_injective (sym h ∙ e));
            others =
                λ q ne. get-clear (λ p. same p peer) q ids.peer_map ∙ rw (unlike q peer ne) refl;
          })
    from_read missing h =
        rw (h, reclaim)
          (record {
            sound = sound;
            gone = h;
            free = λ j e. absurd (missing_found (sym h ∙ e));
            others = λ q ne. refl;
          })
    from_read failed h = absurd (sound.readable peer h)
