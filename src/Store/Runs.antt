-- ===== src/Store/Runs.antt =====
-- Sequences of calls of pkg/store/store.go, against the functions that its readers answer with.
use ev_abci.Prelude.{
  ==_iff, Bool-cases, List, Option, Result, [], ap, arith, err, false, if◌then◌else◌, inl, inr, leb,
  ltb, none, ok, refl, some, sym, ℕ, ◌<◌, ◌==◌, ◌^◌, ◌∙◌, ◌∷◌, ◌≡◌, ◌≢◌,
}
use ev_abci.Store.{
  Codecs, Datastore, Disk, get_block_id, get_block_response, last_pruned, load_state, save_block_id,
}
use ev_abci.Store.Prune.{some_injective}
use ev_abci.Store.View.{
  Call, Fits, LawfulCodecs, Reads, View, drop_to, forget_to, perform, put_block_id, put_response,
  put_state, replay,
}
use ev_abci.Store.View.Saves.{save_block_id-Reads, save_block_response-Reads, save_state-Reads}
use ev_abci.Store.View.Drops.{prune-Reads}

-- A list of calls, each with the answers of the datastore to it, all of which satisfy a predicate.
abbrev pub Every : {S B R : Type 0} → (Call S B R → Type 0) → List (Disk × Call S B R) → Type 0
Every P [] = Unit
Every P ((disk, call) ∷ calls) = P call × Every P calls

-- The calls that leave the block id of a height.
abbrev pub Keeps : {S B R : Type 0} → ℕ → Call S B R → Type 0
Keeps h (put_state s) = Unit
Keeps h (put_block_id i b) = i ≢ h
Keeps h (put_response i r) = Unit
Keeps h (drop_to height) = height < h

-- The functions after the calls.
abbrev pub replay_all : {S B R : Type 0} → List (Call S B R) → View S B R → View S B R
replay_all [] v = v
replay_all (call ∷ calls) v = replay_all calls (replay call v)

-- A call that fails leaves the store as it is, and is not in the log.
abbrev pub logged :
    {S B R : Type 0}
    → Call S B R
    → Datastore
    → Option (Result Datastore)
    → (Datastore → Datastore × List (Call S B R))
    → Datastore × List (Call S B R)
logged call ds (some (ok out)) rest = let (end, log) = rest out in (end, call ∷ log)
logged call ds (some (err e)) rest = rest ds
logged call ds none rest = rest ds

-- What holds whether the call failed or succeeded.
logged-cases :
    {S B R : Type 0} (P : Datastore × List (Call S B R) → Type 0) (call : Call S B R)
    (ds : Datastore) (outcome : Option (Result Datastore))
    (rest : Datastore → Datastore × List (Call S B R))
    → P (rest ds)
    → ((out : Datastore) → outcome ≡ some (ok out) → P ((rest out).0, call ∷ (rest out).1))
    → P (logged call ds outcome rest)
logged-cases P call ds none rest refused done = refused
logged-cases P call ds (some (err e)) rest refused done = refused
logged-cases P call ds (some (ok out)) rest refused done = done out refl

-- The calls one after the other, with the log of those that succeeded.
unfoldable pub run :
    {S B R : Type 0}
    → Codecs S B R
    → List (Disk × Call S B R)
    → Datastore
    → Datastore × List (Call S B R)
run c [] ds = (ds, [])
run c ((disk, call) ∷ calls) ds = logged call ds (perform c disk call ds) (run c calls)

module _ {S B R : Type 0} (c : Codecs S B R) (law : LawfulCodecs c) where
  pub perform-Reads :
      (disk : Disk) (call : Call S B R) (ds : Datastore) (v : View S B R) {out : Datastore}
      → Fits call
      → perform c disk call ds ≡ some (ok out)
      → Reads c ds v
      → Reads c out (replay call v)
  perform-Reads disk (put_state s) ds v fits e reads =
      save_state-Reads c law disk s ds v (some_injective e) reads
  perform-Reads disk (put_block_id h b) ds v fits e reads =
      save_block_id-Reads c law disk h b ds v fits (some_injective e) reads
  perform-Reads disk (put_response h r) ds v fits e reads =
      save_block_response-Reads c law disk h r ds v fits (some_injective e) reads
  perform-Reads disk (drop_to height) ds v fits e reads =
      prune-Reads c disk height ds v fits e reads

  -- The readers after a run answer as the functions do after the calls of the run that succeeded, in
  -- their order, where the encodings are lawful and no height is near 2^64.
  pub run-Reads :
      (calls : List (Disk × Call S B R)) (ds : Datastore) (v : View S B R)
      → Every Fits calls
      → Reads c ds v
      → Reads c (run c calls ds).0 (replay_all (run c calls ds).1 v)
  unfolding run
  run-Reads [] ds v fits reads = reads
  run-Reads ((disk, call) ∷ calls) ds v (fit, fits) reads =
      logged-cases (λ r. Reads c r.0 (replay_all r.1 v)) call ds (perform c disk call ds)
        (run c calls) (run-Reads calls ds v fits reads)
        (λ out e.
          run-Reads calls out (replay call v) fits
            (perform-Reads disk call ds v {out = out} fit e reads))

  -- What the readers answer now.
  abbrev pub view_of : Datastore → View S B R
  view_of ds = record {
    state = load_state c.is_nil c.states c.empty ds;
    block_id = λ h. get_block_id c.is_nil c.ids h ds;
    response = λ h. get_block_response c.is_nil c.responses h ds;
    pruned = last_pruned ds;
  }

  forget_to-keeps :
      (h height : ℕ) (v : View S B R) (r : Result ℕ)
      → height < h
      → (forget_to height v r).block_id h ≡ v.block_id h
  forget_to-keeps h height v (err e) above = refl
  forget_to-keeps h height v (ok last) above = elim (Bool-cases (leb height last)) [
    | inl old ↦ rw old refl
    | inr fresh ↦
        let outside : leb h height ≡ false = ground arith in
        rw fresh
          (elim (Bool-cases (ltb last h)) [ inl a ↦ rw (a, outside) refl | inr b ↦ rw b refl ])
  ]

  replay-Keeps :
      (h : ℕ) (call : Call S B R) (v : View S B R)
      → Keeps h call
      → (replay call v).block_id h ≡ v.block_id h
  replay-Keeps h (put_state s) v keeps = refl
  replay-Keeps h (put_response i r) v keeps = refl
  replay-Keeps h (drop_to height) v keeps = forget_to-keeps h height v v.pruned keeps
  replay-Keeps h (put_block_id i b) v keeps = elim (Bool-cases (h == i)) [
    | inl eq ↦ absurd (keeps (sym ((==_iff h i).0 eq)))
    | inr ne ↦ rw ne refl
  ]

  pub now : {d : Datastore} → Reads c d (view_of d)
  now = record { state = refl; block_id = λ i w. refl; response = λ i w. refl; pruned = refl }

  run-Keeps :
      (h : ℕ) (b : B) (calls : List (Disk × Call S B R)) (ds : Datastore)
      → h < 2 ^ 64
      → Every Fits calls
      → Every (Keeps h) calls
      → get_block_id c.is_nil c.ids h ds ≡ ok b
      → get_block_id c.is_nil c.ids h (run c calls ds).0 ≡ ok b
  unfolding run
  run-Keeps h b [] ds word fits keeps there = there
  run-Keeps h b ((disk, call) ∷ calls) ds word (fit, fits) (keep, keeps) there =
      logged-cases (λ r. get_block_id c.is_nil c.ids h r.0 ≡ ok b) call ds (perform c disk call ds)
        (run c calls) (run-Keeps h b calls ds word fits keeps there)
        (λ out e. run-Keeps h b calls out word fits keeps (
          (perform-Reads disk call ds (view_of ds) {out = out} fit e now).block_id h word
          ∙ replay-Keeps h call (view_of ds) keep
          ∙ there))

  -- A block id that was saved is read back after any later calls that neither save at its height nor
  -- prune up to it, whichever of them fail, where the encodings are lawful and no height is near
  -- 2^64.
  pub get_block_id-save_block_id :
      (disk : Disk) (h : ℕ) (b : B) (ds : Datastore) {out : Datastore}
      (calls : List (Disk × Call S B R))
      → save_block_id disk c.ids h b ds ≡ ok out
      → h < 2 ^ 64
      → Every Fits calls
      → Every (Keeps h) calls
      → get_block_id c.is_nil c.ids h (run c calls out).0 ≡ ok b
  get_block_id-save_block_id disk h b ds {out} calls saved word fits keeps =
      run-Keeps h b calls out word fits keeps (
        (perform-Reads disk (put_block_id h b) ds (view_of ds) {out = out} word (ap some saved)
            now).block_id
          h word
        ∙ ap (λ t. if t then ok b else get_block_id c.is_nil c.ids h ds) ((==_iff h h).1 refl))
