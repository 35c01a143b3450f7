-- ===== src/Store/Effect.antt =====
-- What a `Prune` of pkg/store/store.go that succeeds has done to the store.
use ev_abci.Prelude.{
  Bool-cases, List, Option, Result, [], arith, bytes_eq, clear, err, format_uint, inl, inr, int_eq,
  leb, leb→le, nat_eq, none, ok, pair_eq, refl, same, set, some, string_eq, sym, ℕ, ◌%◌, ◌++◌, ◌+◌,
  ◌<◌, ◌^◌, ◌∙◌, ◌∷◌, ◌≡◌, ◌≤◌, ◌⊎◌,
}
use ev_abci.Prelude.Outcome.{>>-eq-ok, ok_injective}
use ev_abci.Store.{
  Datastore, Disk, Op, after_loop, apply_ops, commit_batch, delete, last_pruned,
  last_pruned_height_key, prune, prune_after, queue_deletes, with_batch, write,
}
use ev_abci.Store.Prune.{some_injective}

-- A batch that the loop collected is committed.
abbrev pub Deleted : Disk → ℕ → ℕ → ℕ → Datastore → Datastore → Type 0
Deleted disk fuel last height ds out =
    (ops : List Op) × (queue_deletes disk fuel ((last + 1) % 2 ^ 64) height ≡ some (ok ops))
    × (out ≡ set last_pruned_height_key (format_uint height) (apply_ops ops ds))

-- A commit has the effects of its batch.
pub commit_batch_ok :
    (disk : Disk) (height : ℕ) (ops : List Op) (ds : Datastore) {out : Datastore}
    → commit_batch disk height ops ds ≡ ok out
    → out ≡ set last_pruned_height_key (format_uint height) (apply_ops ops ds)
unfolding commit_batch apply_ops
commit_batch_ok disk height ops ds e =
    let (_, e1) = >>-eq-ok (disk.batch_put last_pruned_height_key) _ e in
    let (_, e2) = >>-eq-ok disk.commit _ e1 in sym (ok_injective e2) ∙ apply_ops-append ops _ ds
  where
    apply_ops-append :
        (xs ys : List Op) (d : Datastore) → apply_ops (xs ++ ys) d ≡ apply_ops ys (apply_ops xs d)
    apply_ops-append [] ys d = refl
    apply_ops-append (delete key ∷ xs) ys d = apply_ops-append xs ys (clear (λ k. same k key) d)
    apply_ops-append (write key value ∷ xs) ys d = apply_ops-append xs ys (set key value d)

-- What a `Prune` that succeeds has done.
pub prune_ok :
    (disk : Disk) (fuel height : ℕ) (ds : Datastore) {out : Datastore}
    → prune disk fuel height ds ≡ some (ok out)
    → (last : ℕ) × (last_pruned ds ≡ ok last)
      × (((height ≤ last) × (out ≡ ds)) ⊎ ((last < height) × Deleted disk fuel last height ds out))
unfolding prune
prune_ok disk fuel height ds {out} e = from_last (last_pruned ds) refl e
  where
    from_loop :
        (loop : Option (Result (List Op)))
        → after_loop loop (λ deletes. commit_batch disk height deletes ds) ≡ some (ok out)
        → (ops : List Op) × (loop ≡ some (ok ops)) × (commit_batch disk height ops ds ≡ ok out)
    from_loop none h = cc
    from_loop (some (err c)) h = cc
    from_loop (some (ok ops)) h = (ops, refl, some_injective h)

    from_answer :
        (a : Result (Unit {0})) (last : ℕ)
        → with_batch disk fuel last height ds a ≡ some (ok out)
        → Deleted disk fuel last height ds out
    from_answer (err c) last h = cc
    from_answer (ok u) last h =
        let (ops, queued, done) =
          from_loop (queue_deletes disk fuel ((last + 1) % 2 ^ 64) height) h in
        (ops, queued, commit_batch_ok disk height ops ds done)

    from_last :
        (r : Result ℕ)
        → last_pruned ds ≡ r
        → prune_after disk fuel height ds r ≡ some (ok out)
        → (last : ℕ) × (last_pruned ds ≡ ok last)
          × (((height ≤ last) × (out ≡ ds))
              ⊎ ((last < height) × Deleted disk fuel last height ds out))
    from_last (err c) read h = cc
    from_last (ok last) read h = elim (Bool-cases (leb height last)) [
      | inl old ↦ (
        last,
        read,
        inl (leb→le height last old, sym (ok_injective (some_injective (rw old at h)))),
      )
      | inr fresh ↦
          let below : last < height = ground arith in
          (last, read, inr (below, from_answer disk.batch last (rw fresh at h)))
    ]
