-- ===== src/Store/Tests.antt =====
-- Tests of the model of pkg/store/store.go, and its theorems at concrete inputs.
use ev_abci.Prelude.{
  Bool, List, Result, [], ap, arith, bytes_eq, clear, err, false, format_uint, found, get, int_eq,
  nat_eq, not_found, ok, pair_eq, plain, refl, set, some, string_eq, sym, true, ℕ, ◌∷◌, ◌≡◌,
}
use ev_abci.Prelude.Outcome.{◌>>=◌}
use ev_abci.Store.{
  Codec, Codecs, Datastore, Disk, apply_ops, commit_batch, get_block_id, get_block_response,
  last_pruned, load_state, prune, queue_delete, queue_deletes, save_block_id, save_block_response,
  save_state,
}
use ev_abci.Store.Prune.{prune_total}
use ev_abci.Store.View.{
  Call, Lawful, LawfulCodecs, Reads, View, drop_to, put_block_id, put_response, put_state,
}
use ev_abci.Store.Runs.{replay_all, run, run-Reads}

-- Texts, encoded with a byte before them.
abbrev decode_text : List ℕ → Result (List ℕ)
decode_text [] = err plain
decode_text (b ∷ bytes) = ok bytes

abbrev texts : Codec (List ℕ)
texts = record { encode = λ text. ok (1 ∷ text); decode = decode_text }

abbrev is_empty : List ℕ → Bool
is_empty [] = true
is_empty (b ∷ bytes) = false

abbrev codecs : Codecs (List ℕ) (List ℕ) (List ℕ)
codecs = record { is_nil = is_empty; empty = []; states = texts; ids = texts; responses = texts }

texts-Lawful : Lawful is_empty texts
texts-Lawful text [] h = cc
texts-Lawful text (b ∷ bytes) h = (refl, ap (λ r. r >>= decode_text) (sym h))

codecs_lawful : LawfulCodecs codecs
codecs_lawful = record { states = texts-Lawful; ids = texts-Lawful; responses = texts-Lawful }

-- A datastore that takes all writes, and one that takes none.
abbrev healthy : Disk
healthy = record {
  put = λ key. ok tt;
  batch = ok tt;
  batch_delete = λ key. err not_found;
  batch_put = λ key. ok tt;
  commit = ok tt;
}

abbrev full : Disk
full = record healthy { put = λ key. err plain; commit = err plain }

abbrev calls : List (Disk × Call (List ℕ) (List ℕ) (List ℕ))
calls =
    (healthy, put_state (7 ∷ []))
    ∷ (healthy, put_block_id 1 (10 ∷ []))
    ∷ (healthy, put_block_id 2 (20 ∷ []))
    ∷ (full, put_block_id 2 (30 ∷ []))
    ∷ (healthy, put_response 2 (21 ∷ []))
    ∷ (full, drop_to 2)
    ∷ (healthy, drop_to 1)
    ∷ []

abbrev no_answers : View (List ℕ) (List ℕ) (List ℕ)
no_answers = record {
  state = err not_found;
  block_id = λ h. err not_found;
  response = λ h. err not_found;
  pruned = ok 0;
}

no_answers-Reads : Reads codecs [] no_answers
unfolding load_state get_block_id get_block_response last_pruned get
no_answers-Reads = record {
  state = refl;
  block_id = λ h w. refl;
  response = λ h w. refl;
  pruned = refl;
}

run_log :
    (run codecs calls []).1
    ≡ put_state (7 ∷ [])
      ∷ put_block_id 1 (10 ∷ [])
      ∷ put_block_id 2 (20 ∷ [])
      ∷ put_response 2 (21 ∷ [])
      ∷ drop_to 1
      ∷ []
unfolding run save_state save_block_id save_block_response prune last_pruned get set format_uint
    queue_deletes queue_delete commit_batch apply_ops clear
run_log = refl

run-Reads_example :
    Reads codecs (run codecs calls []).0 (replay_all (run codecs calls []).1 no_answers)
run-Reads_example =
    run-Reads codecs codecs_lawful calls [] no_answers (omega arith) no_answers-Reads

abbrev stored : Datastore
stored = (("bid", b'3' ∷ []), found (1 ∷ 5 ∷ [])) ∷ []

saved : save_block_id healthy texts 3 (5 ∷ []) [] ≡ ok stored
unfolding save_block_id set format_uint
saved = refl

prune_total_example : (r : Result Datastore) × (prune healthy 5 3 [] ≡ some r)
prune_total_example = prune_total healthy 3 [] (omega arith)
