-- ===== src/Store/View/Saves.antt =====
-- The saves of pkg/store/store.go, by what the readers answer.
use mathlib.Core.Path.{subst}
use ev_abci.Prelude.{
  Bool, Bool-cases, Get, List, Result, ap, arith, bytes_eq, err, false, fetch, found, get, get-set,
  get-set_self, if◌then◌else◌, inl, inr, int_eq, nat_eq, ok, pair_eq, plain, refl, set, string_eq,
  true, ℕ, ◌<◌, ◌==◌, ◌^◌, ◌∙◌, ◌≡◌,
}
use ev_abci.Prelude.Outcome.{>>-eq-ok, >>=-eq-ok, ok_injective, ◌>>=◌}
use ev_abci.Store.{
  Codec, Codecs, Datastore, Disk, Key, block_id_key, block_response_key, get_block_id,
  get_block_response, last_pruned, last_pruned_height_key, load_state, parse_height, pruned_bytes,
  put, save_block_id, save_block_response, save_state, state_key,
}
use ev_abci.Store.Prune.{same_format}
use ev_abci.Store.View.{
  Lawful, LawfulCodecs, Reads, View, put_block_id, put_response, put_state, replay,
}

put_ok :
    (disk : Disk) (key : Key) (bytes : List ℕ) (ds : Datastore) {out : Datastore}
    → put disk key bytes ds ≡ ok out
    → set key bytes ds ≡ out
put_ok disk key bytes ds e = ok_injective ((>>-eq-ok (disk.put key) _ e).1)

-- A reader of the heights, at a height after a write of another.
at_height :
    {A : Type 0} (f : Get (List ℕ) → Result A) (bytes : List ℕ) (new : A) (old : Result A)
    (h height : ℕ) (test : Bool) {before after : Get (List ℕ)}
    → test ≡ (height == h)
    → f (found bytes) ≡ ok new
    → f before ≡ old
    → after ≡ (if test then found bytes else before)
    → f after ≡ (if h == height then ok new else old)
at_height f bytes new old h height test {before} {after} heights written kept e =
    elim (Bool-cases (height == h)) [
      | inl eq ↦
          let turned : (h == height) ≡ true = ground arith in rw (turned, e, heights, eq) written
      | inr ne ↦
          let turned : (h == height) ≡ false = ground arith in rw (turned, e, heights, ne) kept
    ]

module _ {S B R : Type 0} (c : Codecs S B R) where
  open c use {is_nil, empty, states, ids, responses}

  -- A reader sees no more of the store than its key.
  module _ (a b : Datastore) where
    pub load_state_cong :
        get state_key a ≡ get state_key b
        → load_state is_nil states empty a ≡ load_state is_nil states empty b
    unfolding load_state
    load_state_cong e = ap (λ g. fetch g >>= λ x. if is_nil x then ok empty else states.decode x) e

    pub get_block_id_cong :
        (h : ℕ)
        → get (block_id_key h) a ≡ get (block_id_key h) b
        → get_block_id is_nil ids h a ≡ get_block_id is_nil ids h b
    unfolding get_block_id
    get_block_id_cong h e =
        ap (λ g. fetch g >>= λ x. if is_nil x then err plain else ids.decode x) e

    pub get_block_response_cong :
        (h : ℕ)
        → get (block_response_key h) a ≡ get (block_response_key h) b
        → get_block_response is_nil responses h a ≡ get_block_response is_nil responses h b
    unfolding get_block_response
    get_block_response_cong h e =
        ap (λ g. fetch g >>= λ x. if is_nil x then err plain else responses.decode x) e

    pub last_pruned_cong :
        get last_pruned_height_key a ≡ get last_pruned_height_key b → last_pruned a ≡ last_pruned b
    unfolding last_pruned
    last_pruned_cong e = ap (λ g. pruned_bytes g >>= parse_height) e

  -- An encoded value is read back.
  read_back :
      {A : Type 0} (codec : Codec A) (a : A) (bytes : List ℕ) (other : Result A) {g : Get (List ℕ)}
      → Lawful is_nil codec
      → codec.encode a ≡ ok bytes
      → g ≡ found bytes
      → (fetch g >>= λ x. if is_nil x then other else codec.decode x) ≡ ok a
  read_back codec a bytes other {g} law encoded there =
      let (full, decoded) = law a bytes encoded in
      ap (λ x. fetch x >>= λ y. if is_nil y then other else codec.decode y) there ∙ rw full decoded

module _ {S B R : Type 0} (c : Codecs S B R) (law : LawfulCodecs c) where
  open c use {is_nil, empty, states, ids, responses}

  pub save_state-Reads :
      (disk : Disk) (s : S) (ds : Datastore) (v : View S B R) {out : Datastore}
      → save_state disk states s ds ≡ ok out
      → Reads c ds v
      → Reads c out (replay (put_state s) v)
  unfolding save_state load_state
  save_state-Reads disk s ds v {out} e reads =
      let (bytes, encoded, stored) = >>=-eq-ok (states.encode s) _ e in
      subst (λ d. Reads c d (replay (put_state s) v)) (put_ok disk state_key bytes ds stored)
        (record {
          state =
              read_back c states s bytes (ok empty) law.states encoded
                (get-set_self state_key bytes ds);
          block_id = λ h word.
              get_block_id_cong c _ ds h (get-set state_key (block_id_key h) bytes ds)
              ∙ reads.block_id h word;
          response = λ h word.
              get_block_response_cong c _ ds h (get-set state_key (block_response_key h) bytes ds)
              ∙ reads.response h word;
          pruned =
              last_pruned_cong c _ ds (get-set state_key last_pruned_height_key bytes ds)
              ∙ reads.pruned;
        })

  pub save_block_id-Reads :
      (disk : Disk) (height : ℕ) (b : B) (ds : Datastore) (v : View S B R) {out : Datastore}
      → height < 2 ^ 64
      → save_block_id disk ids height b ds ≡ ok out
      → Reads c ds v
      → Reads c out (replay (put_block_id height b) v)
  unfolding save_block_id get_block_id
  save_block_id-Reads disk height b ds v {out} small e reads =
      let (bytes, encoded, stored) = >>=-eq-ok (ids.encode b) _ e in
      let key : Key = block_id_key height in
      subst (λ d. Reads c d (replay (put_block_id height b) v)) (put_ok disk key bytes ds stored)
        (record {
          state = load_state_cong c _ ds (get-set key state_key bytes ds) ∙ reads.state;
          block_id = λ h word.
              at_height (λ g. fetch g >>= λ x. if is_nil x then err plain else ids.decode x) bytes b
                (v.block_id h) h height _ (same_format height h small word)
                (read_back c ids b bytes (err plain) law.ids encoded refl) (reads.block_id h word)
                (get-set key (block_id_key h) bytes ds);
          response = λ h word.
              get_block_response_cong c _ ds h (get-set key (block_response_key h) bytes ds)
              ∙ reads.response h word;
          pruned =
              last_pruned_cong c _ ds (get-set key last_pruned_height_key bytes ds) ∙ reads.pruned;
        })

  pub save_block_response-Reads :
      (disk : Disk) (height : ℕ) (r : R) (ds : Datastore) (v : View S B R) {out : Datastore}
      → height < 2 ^ 64
      → save_block_response disk responses height r ds ≡ ok out
      → Reads c ds v
      → Reads c out (replay (put_response height r) v)
  unfolding save_block_response get_block_response
  save_block_response-Reads disk height r ds v {out} small e reads =
      let (bytes, encoded, stored) = >>=-eq-ok (responses.encode r) _ e in
      let key : Key = block_response_key height in
      subst (λ d. Reads c d (replay (put_response height r) v)) (put_ok disk key bytes ds stored)
        (record {
          state = load_state_cong c _ ds (get-set key state_key bytes ds) ∙ reads.state;
          block_id = λ h word.
              get_block_id_cong c _ ds h (get-set key (block_id_key h) bytes ds)
              ∙ reads.block_id h word;
          response = λ h word.
              at_height (λ g. fetch g >>= λ x. if is_nil x then err plain else responses.decode x)
                bytes r (v.response h) h height _ (same_format height h small word)
                (read_back c responses r bytes (err plain) law.responses encoded refl)
                (reads.response h word) (get-set key (block_response_key h) bytes ds);
          pruned =
              last_pruned_cong c _ ds (get-set key last_pruned_height_key bytes ds) ∙ reads.pruned;
        })
