-- ===== src/Store/Prune.antt =====
-- `Prune` of pkg/store/store.go: its loop, and the entries that its batch covers.
use ev_abci.Prelude.{
  ==_iff, Bool, Bool-cases, Get, List, Option, Result, [], ap, arith, bytes_beq, bytes_beq_iff,
  bytes_eq, clear, err, false, format_uint, format_uint_injective, get, get-clear, if◌then◌else◌,
  inl, inr, int_eq, leb, leb→le, ltb, missing, nat_eq, none, ok, pair_eq, refl, same, some,
  string_eq, suc, sym, true_ne, zero, ℕ, ◌%◌, ◌&&◌, ◌+◌, ◌-◌, ◌<◌, ◌==◌, ◌^◌, ◌||◌, ◌∙◌, ◌∷◌, ◌≡◌,
  ◌≤◌,
}
use ev_abci.Prelude.Outcome.{ok_injective, ◌>>=◌, ◌>>◌}
use ev_abci.Store.{
  Datastore, Disk, Key, Op, after_height, apply_ops, block_id_key, block_response_key, commit_batch,
  delete, last_pruned, prune, prune_after, queue_delete, queue_deletes, state_key, with_batch,
}

queue_deletes_step :
    (disk : Disk) (fuel h height : ℕ)
    → (rest : Result (List Op)) → (queue_deletes disk fuel ((h + 1) % 2 ^ 64) height ≡ some rest)
    → (r : Result (List Op)) × (queue_deletes disk (suc fuel) h height ≡ some r)
unfolding queue_deletes
queue_deletes_step disk fuel h height rest e = elim (Bool-cases (leb h height)) [
  | inr stop ↦ (ok [], rw stop)
  | inl go ↦
      let (r, done) =
        from_answer
          (queue_delete disk (block_id_key h) >> queue_delete disk (block_response_key h)) in
      (r, rw (go, e) done)
]
  where
    from_answer :
        (a : Result (Unit {0})) → (r : Result (List Op)) × (after_height h a (some rest) ≡ some r)
    from_answer (ok u) =
        ((rest >>= λ ops. ok (delete (block_id_key h) ∷ delete (block_response_key h) ∷ ops)), refl)
    from_answer (err c) = (err c, refl)

queue_deletes_stop :
    (disk : Disk) (fuel h height : ℕ)
    → leb h height ≡ false
    → queue_deletes disk (suc fuel) h height ≡ some (ok [])
unfolding queue_deletes
queue_deletes_stop disk fuel h height stop = rw stop

-- The loop ends below the largest height.
pub queue_deletes_total :
    (disk : Disk) (fuel h height : ℕ)
    → height + 1 < 2 ^ 64
    → height + 1 < suc fuel + h
    → (r : Result (List Op)) × (queue_deletes disk (suc fuel) h height ≡ some r)
queue_deletes_total disk zero h height small enough =
    (ok [], queue_deletes_stop disk zero h height (ground arith))
queue_deletes_total disk (suc fuel) h height small enough = elim (Bool-cases (leb h height)) [
  | inr stop ↦ (ok [], queue_deletes_stop disk (suc fuel) h height stop)
  | inl go ↦
      let below : h ≤ height = leb→le h height go in
      let next : (h + 1) % 2 ^ 64 ≡ h + 1 = omega arith in
      let (rest, e) = queue_deletes_total disk fuel ((h + 1) % 2 ^ 64) height small (omega arith) in
      queue_deletes_step disk (suc fuel) h height rest e
]

pub some_injective : {A : Type 0} {a b : A} → some a ≡ some b → a ≡ b
some_injective e = cc

-- The deletions of `n` heights from `h` on.
abbrev pub deletes : ℕ → ℕ → List Op
deletes h zero = []
deletes h (suc n) = delete (block_id_key h) ∷ delete (block_response_key h) ∷ deletes (suc h) n

pub deletes_from :
    (disk : Disk) (fuel h height : ℕ) {ops : List Op}
    → height + 1 < 2 ^ 64
    → h ≤ height + 1
    → queue_deletes disk fuel h height ≡ some (ok ops)
    → ops ≡ deletes h (height + 1 - h)
unfolding queue_deletes
deletes_from disk zero h height small start e = cc
deletes_from disk (suc fuel) h height {ops} small start e = elim (Bool-cases (leb h height)) [
  | inr stop ↦
      let none_left : height + 1 - h ≡ 0 = ground arith in
      rw none_left (ok_injective (some_injective (sym (rw stop at e))))
  | inl go ↦
      let below : h ≤ height = leb→le h height go in
      let next : (h + 1) % 2 ^ 64 ≡ suc h = omega arith in
      let count : height + 1 - h ≡ suc (height + 1 - suc h) = omega arith in
      rw count (
        from_answer (queue_delete disk (block_id_key h) >> queue_delete disk (block_response_key h))
          (queue_deletes disk fuel (suc h) height)
          (λ more read. deletes_from disk fuel (suc h) height {ops = more} small (omega arith) read)
          (rw (go, next) at e))
]
  where
    both : List Op → List Op
    both more = delete (block_id_key h) ∷ delete (block_response_key h) ∷ more

    from_answer :
        (a : Result (Unit {0})) (rest : Option (Result (List Op)))
        → ((more : List Op) → rest ≡ some (ok more) → more ≡ deletes (suc h) (height + 1 - suc h))
        → after_height h a rest ≡ some (ok ops)
        → ops
          ≡ delete (block_id_key h)
            ∷ delete (block_response_key h)
            ∷ deletes (suc h) (height + 1 - suc h)
    from_answer (ok u) none later h = cc
    from_answer (ok u) (some (err c)) later h = cc
    from_answer (ok u) (some (ok more)) later h = cc (later more refl)
    from_answer (err c) rest later h = cc

-- The keys that they remove.
abbrev pub covers : ℕ → ℕ → Key → Bool
covers h zero key = false
covers h (suc n) key =
    same key (block_id_key h) || same key (block_response_key h) || covers (suc h) n key

pub get-deletes :
    (h n : ℕ) (key : Key) (ds : Datastore)
    → get key (apply_ops (deletes h n) ds) ≡ (if covers h n key then missing else get key ds)
unfolding apply_ops
get-deletes h zero key ds = refl
get-deletes h (suc n) key ds =
    let first : Datastore = clear (λ k. same k (block_id_key h)) ds in
    let second : Datastore = clear (λ k. same k (block_response_key h)) first in
    get-deletes (suc h) n key second
    ∙ merge (get key ds) (same key (block_id_key h)) (same key (block_response_key h))
        (covers (suc h) n key) (get-clear (λ k. same k (block_id_key h)) key ds)
        (get-clear (λ k. same k (block_response_key h)) key first)
  where
    merge :
        (x : Get (List ℕ)) (a b c : Bool) {y z : Get (List ℕ)}
        → y ≡ (if a then missing else x)
        → z ≡ (if b then missing else y)
        → (if c then missing else z) ≡ (if a || b || c then missing else x)
    merge x a b c p q = ground arith

pub same_format :
    (i h : ℕ) → i < 2 ^ 64 → h < 2 ^ 64 → bytes_beq (format_uint i) (format_uint h) ≡ (i == h)
same_format i h a b = elim (Bool-cases (bytes_beq (format_uint i) (format_uint h))) [
  | inl eq ↦
      let one : i ≡ h = format_uint_injective i h a b ((bytes_beq_iff _ _).0 eq) in
      eq ∙ sym ((==_iff i h).1 one)
  | inr ne ↦ elim (Bool-cases (i == h)) [
    | inl eq ↦ absurd (
        true_ne (
          sym
            ((bytes_beq_iff (format_uint i) (format_uint h)).1 (ap format_uint ((==_iff i h).0 eq)))
          ∙ ne))
    | inr other ↦ ne ∙ sym other
  ]
]

pub covers-block_id_key :
    (h n i : ℕ)
    → h + n ≤ 2 ^ 64
    → i < 2 ^ 64
    → covers h n (block_id_key i) ≡ (leb h i && ltb i (h + n))
covers-block_id_key h zero i word small = ground arith
covers-block_id_key h (suc n) i word small =
    rw (same_format i h small (omega arith), covers-block_id_key (suc h) n i (omega arith) small)
      (ground arith)

pub covers-block_response_key :
    (h n i : ℕ)
    → h + n ≤ 2 ^ 64
    → i < 2 ^ 64
    → covers h n (block_response_key i) ≡ (leb h i && ltb i (h + n))
covers-block_response_key h zero i word small = ground arith
covers-block_response_key h (suc n) i word small =
    rw
      (
        same_format i h small (omega arith),
        covers-block_response_key (suc h) n i (omega arith) small,
      )
      (ground arith)

pub covers-state_key : (h n : ℕ) → covers h n state_key ≡ false
covers-state_key h zero = refl
covers-state_key h (suc n) = covers-state_key (suc h) n

-- `Prune` ends, with a result or an error, for every height below the largest: its loop needs no
-- more rounds than the height.
pub prune_total :
    (disk : Disk) (height : ℕ) (ds : Datastore)
    → height + 1 < 2 ^ 64
    → (r : Result Datastore) × (prune disk (suc (suc height)) height ds ≡ some r)
unfolding prune
prune_total disk height ds small = from_last (last_pruned ds)
  where
    from_loop :
        (last : ℕ) {ops : Result (List Op)}
        → queue_deletes disk (suc (suc height)) ((last + 1) % 2 ^ 64) height ≡ some ops
        → (a : Result (Unit {0}))
        → (r : Result Datastore) × (with_batch disk (suc (suc height)) last height ds a ≡ some r)
    from_loop last {ops} e (ok u) =
        ((ops >>= λ deletes. commit_batch disk height deletes ds), rw e refl)
    from_loop last {ops} e (err c) = (err c, refl)

    from_last :
        (read : Result ℕ)
        → (r : Result Datastore) × (prune_after disk (suc (suc height)) height ds read ≡ some r)
    from_last (err c) = (err c, refl)
    from_last (ok last) = elim (Bool-cases (leb height last)) [
      | inl old ↦ (ok ds, rw old refl)
      | inr fresh ↦
          let (ops, e) =
            queue_deletes_total disk (suc height) ((last + 1) % 2 ^ 64) height small
              (omega arith) in
          let (r, done) = from_loop last e disk.batch in (r, rw fresh done)
    ]
