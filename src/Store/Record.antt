-- ===== src/Store/Record.antt =====
-- The three saves of an executed block in pkg/store/store.go: what is read back after them.
use ev_abci.Prelude.{
  ==_iff, Bool-cases, ap, if◌then◌else◌, inl, inr, ok, refl, some, ℕ, ◌<◌, ◌==◌, ◌^◌, ◌∙◌, ◌≡◌, ◌≢◌,
}
use ev_abci.Store.{
  Codecs, Datastore, Disk, get_block_id, get_block_response, load_state, save_block_id,
  save_block_response, save_state,
}
use ev_abci.Store.View.{LawfulCodecs, Reads, View, put_block_id, put_response, put_state, replay}
use ev_abci.Store.Runs.{now, perform-Reads, view_of}

-- All three are read back, and the other heights as before.
pub record IsRecorded {S B R : Type 0} (c : Codecs S B R) (height : ℕ) (s : S) (b : B) (r : R)
    (before after : Datastore) : Type 0 where
  pub state : load_state c.is_nil c.states c.empty after ≡ ok s
  pub block_id : get_block_id c.is_nil c.ids height after ≡ ok b
  pub response : get_block_response c.is_nil c.responses height after ≡ ok r
  pub other_ids :
      (i : ℕ)
      → i < 2 ^ 64
      → i ≢ height
      → get_block_id c.is_nil c.ids i after ≡ get_block_id c.is_nil c.ids i before
  pub other_responses :
      (i : ℕ)
      → i < 2 ^ 64
      → i ≢ height
      → get_block_response c.is_nil c.responses i after
        ≡ get_block_response c.is_nil c.responses i before

module _ {S B R : Type 0} (c : Codecs S B R) (law : LawfulCodecs c) where
  pub saves-IsRecorded :
      (disk : Disk) (height : ℕ) (s : S) (b : B) (r : R) (before d d' after : Datastore)
      → height < 2 ^ 64
      → save_state disk c.states s before ≡ ok d
      → save_block_id disk c.ids height b d ≡ ok d'
      → save_block_response disk c.responses height r d' ≡ ok after
      → IsRecorded c height s b r before after
  saves-IsRecorded disk height s b r before d d' after word first second third =
      let v0 : View S B R = view_of c law before in
      let v1 : View S B R = replay (put_state s) v0 in
      let v2 : View S B R = replay (put_block_id height b) v1 in
      let reads : Reads c after (replay (put_response height r) v2) =
        perform-Reads c law disk (put_response height r) d' v2 {out = after} word (ap some third) (
          perform-Reads c law disk (put_block_id height b) d v1 {out = d'} word (ap some second) (
            perform-Reads c law disk (put_state s) before v0 {out = d} tt (ap some first)
              (now c law))) in
      record {
        state = reads.state;
        block_id =
            reads.block_id height word
            ∙ ap (λ t. if t then ok b else v0.block_id height) ((==_iff height height).1 refl);
        response =
            reads.response height word
            ∙ ap (λ t. if t then ok r else v0.response height) ((==_iff height height).1 refl);
        other_ids = λ i small ne. reads.block_id i small ∙ other i (ok b) (v0.block_id i) ne;
        other_responses = λ i small ne. reads.response i small ∙ other i (ok r) (v0.response i) ne;
      }
    where
      other : {A : Type 0} (i : ℕ) (x y : A) → i ≢ height → (if i == height then x else y) ≡ y
      other i x y ne = elim (Bool-cases (i == height)) [
        | inl eq ↦ absurd (ne ((==_iff i height).0 eq))
        | inr differs ↦ rw differs refl
      ]
