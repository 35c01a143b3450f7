-- ===== src/Store/View/Drops.antt =====
-- A `Prune` of pkg/store/store.go, by what the readers answer.
use mathlib.Core.Path.{subst}
use mathlib.Core.Path.{subst}
use ev_abci.Store.Effect.{prune_ok}
use ev_abci.Store.Prune.{
  covers, covers-block_id_key, covers-block_response_key, covers-state_key, deletes, deletes_from,
  get-deletes,
}
use ev_abci.Prelude.{
  Bool, Get, List, Result, ap, arith, bytes_eq, err, false, fetch, format_uint, format_uint_ne_nil,
  get, get-set, get-set_self, if◌then◌else◌, inl, inr, int_eq, leb, le→leb, ltb, missing, nat_eq,
  not_found, ok, or_fail, pair_eq, parse_uint, parse_uint-format_uint, plain, refl, same, set, some,
  string_eq, suc, sym, true, ℕ, ◌%◌, ◌&&◌, ◌+◌, ◌-◌, ◌<◌, ◌^◌, ◌∙◌, ◌≡◌,
}
use ev_abci.Prelude.Outcome.{◌>>=◌}
use ev_abci.Store.{
  Codecs, Datastore, Disk, Key, apply_ops, block_id_key, block_response_key, get_block_id,
  get_block_response, last_pruned, last_pruned_height_key, parse_height, prune, pruned_bytes,
  state_key,
}
use ev_abci.Store.View.{Reads, View, forget, forget_to}
use ev_abci.Store.View.Saves.{load_state_cong}

-- The text of a height is not empty, so a written last pruned height is read back.
last_pruned-set :
    (height : ℕ) (ds : Datastore)
    → height < 2 ^ 64
    → last_pruned (set last_pruned_height_key (format_uint height) ds) ≡ ok height
unfolding last_pruned
last_pruned-set height ds word =
    let (c, cs, e) = format_uint_ne_nil height in
    ap (λ g. pruned_bytes g >>= parse_height)
      (get-set_self last_pruned_height_key (format_uint height) ds)
    ∙ ap parse_height e
    ∙ ap (λ o. or_fail o plain) (ap parse_uint (sym e) ∙ parse_uint-format_uint height word)

-- What the deletions leave at a key, when the last pruned height is written after them.
get_after :
    (last height : ℕ) (key : Key) (ds : Datastore)
    → same last_pruned_height_key key ≡ false
    → get key (
        set last_pruned_height_key
          (format_uint height)
          (apply_ops (deletes (suc last) (height - last)) ds))
      ≡ (if covers (suc last) (height - last) key then missing else get key ds)
get_after last height key ds other =
    get-set last_pruned_height_key key (format_uint height) _
    ∙ rw other (get-deletes (suc last) (height - last) key ds)

-- The heights that are removed, as `Prune` tests them.
range_test :
    (last height h : ℕ)
    → last < height
    → (leb (suc last) h && ltb h (suc last + (height - last))) ≡ (ltb last h && leb h height)
range_test last height h below = ground arith

-- A reader of the heights, after the deletions.
at_height :
    {A : Type 0} (f : Get (List ℕ) → Result A) (old : Result A) (test : Bool) (key : Get (List ℕ))
    → f missing ≡ err not_found
    → f key ≡ old
    → f (if test then missing else key) ≡ (if test then err not_found else old)
at_height f old true key gone kept = gone
at_height f old false key gone kept = kept

module _ {S B R : Type 0} (c : Codecs S B R) where
  open c use {is_nil, empty, states, ids, responses}

  deleted-Reads :
      (last height : ℕ) (ds : Datastore) (v : View S B R)
      → last < height
      → height + 1 < 2 ^ 64
      → Reads c ds v
      → Reads c
          (set last_pruned_height_key
            (format_uint height)
            (apply_ops (deletes (suc last) (height - last)) ds))
          (forget last v height)
  unfolding get_block_id get_block_response
  deleted-Reads last height ds v below small reads = record {
    state =
        load_state_cong c _ ds (
          get_after last height state_key ds refl
          ∙ ap (λ b. if b then missing else get state_key ds)
              (covers-state_key (suc last) (height - last)))
        ∙ reads.state;
    block_id = λ h word.
        ap (λ g. fetch g >>= λ x. if is_nil x then err plain else ids.decode x)
          (get_after last height (block_id_key h) ds refl
            ∙ ap (λ b. if b then missing else get (block_id_key h) ds)
                (covers-block_id_key (suc last) (height - last) h (omega arith) word
                  ∙ range_test last height h below))
        ∙ at_height (λ g. fetch g >>= λ x. if is_nil x then err plain else ids.decode x)
            (v.block_id h) (ltb last h && leb h height) (get (block_id_key h) ds) refl
            (reads.block_id h word);
    response = λ h word.
        ap (λ g. fetch g >>= λ x. if is_nil x then err plain else responses.decode x)
          (get_after last height (block_response_key h) ds refl
            ∙ ap (λ b. if b then missing else get (block_response_key h) ds)
                (covers-block_response_key (suc last) (height - last) h (omega arith) word
                  ∙ range_test last height h below))
        ∙ at_height (λ g. fetch g >>= λ x. if is_nil x then err plain else responses.decode x)
            (v.response h) (ltb last h && leb h height) (get (block_response_key h) ds) refl
            (reads.response h word);
    pruned = last_pruned-set height _ (omega arith);
  }

  pub prune-Reads :
      (disk : Disk) (height : ℕ) (ds : Datastore) (v : View S B R) {out : Datastore}
      → height + 1 < 2 ^ 64
      → prune disk (suc (suc height)) height ds ≡ some (ok out)
      → Reads c ds v
      → Reads c out (forget_to height v v.pruned)
  prune-Reads disk height ds v {out} small e reads =
      let (last, read, done) = prune_ok disk (suc (suc height)) height ds e in
      subst (λ p. Reads c out (forget_to height v p)) (sym read ∙ reads.pruned)
        (elim done [
          | inl (old, same_store) ↦
              rw (le→leb height last old) (subst (λ d. Reads c d v) (sym same_store) reads)
          | inr (below, (ops, queued, stored)) ↦
              let fresh : leb height last ≡ false = ground arith in
              let next : (last + 1) % 2 ^ 64 ≡ suc last = omega arith in
              let count : height + 1 - suc last ≡ height - last = omega arith in
              let listed : ops ≡ deletes (suc last) (height - last) =
                deletes_from disk (suc (suc height)) (suc last) height small (omega arith)
                  (rw next at queued)
                ∙ ap (deletes (suc last)) count in
              rw fresh (
                subst (λ d. Reads c d (forget last v height))
                  (sym (
                    stored
                    ∙ ap (λ o. set last_pruned_height_key (format_uint height) (apply_ops o ds))
                        listed))
                  (deleted-Reads last height ds v below small reads))
        ])
