-- ===== src/Rpc/Chunks/Whole.antt =====
-- The chunks of a genesis, joined (pkg/rpc/core/net.go).
use ev_abci.Prelude.{
  Bool-cases, List, Option, Result, String, [], ap, arith, err, false, get_elem?, inl, inr, leb,
  length, ltb, ltb_ℤ, map, none, ok, plain, pos, refl, some, suc, sym, to_int64-lt, true, zero, ℕ,
  ◌++◌, ◌+◌, ◌-◌, ◌<◌, ◌==◌, ◌^◌, ◌∙◌, ◌∷◌, ◌≡◌, ◌≤◌, ◌⊎◌,
}
use ev_abci.Rpc.Search.{skip, take}
use ev_abci.Rpc.Chunks.{
  GenesisChunk, GenesisSource, chunk_loop, genesis_chunk_size, genesis_chunked, get_genesis_chunks,
}

abbrev pub joined : List (List ℕ) → List ℕ
joined [] = []
joined (chunk ∷ chunks) = chunk ++ joined chunks

-- No chunk is empty, or longer than a size.
abbrev pub AreSmall : ℕ → List (List ℕ) → Type 0
AreSmall size [] = Unit
AreSmall size (chunk ∷ chunks) = (0 < length chunk) × (length chunk ≤ size) × AreSmall size chunks

take-skip : (n i m : ℕ) (xs : List ℕ) → m ≡ i + n → take n (skip i xs) ++ skip m xs ≡ skip i xs
take-skip zero zero zero xs e = refl
take-skip zero zero (suc m) xs e = absurd (omega arith)
take-skip (suc n) zero zero xs e = absurd (omega arith)
take-skip (suc n) zero (suc m) [] e = refl
take-skip (suc n) zero (suc m) (x ∷ xs) e = ap (λ ys. x ∷ ys) (take-skip n zero m xs (omega arith))
take-skip n (suc i) zero xs e = absurd (omega arith)
take-skip zero (suc i) (suc m) [] e = refl
take-skip (suc n) (suc i) (suc m) [] e = refl
take-skip n (suc i) (suc m) (x ∷ xs) e = take-skip n i m xs (omega arith)

skip_all : (i : ℕ) (xs : List ℕ) → length xs ≤ i → skip i xs ≡ []
skip_all zero [] h = refl
skip_all zero (x ∷ xs) h = absurd (omega arith)
skip_all (suc i) [] h = refl
skip_all (suc i) (x ∷ xs) h = skip_all i xs (omega arith)

length-take : (n : ℕ) (xs : List ℕ) → n ≤ length xs → length (take n xs) ≡ n
length-take zero xs h = refl
length-take (suc n) [] h = absurd (omega arith)
length-take (suc n) (x ∷ xs) h = ap suc (length-take n xs (omega arith))

pub joined-chunk_loop :
    (fuel size i : ℕ) (doc : List ℕ)
    → 0 < size
    → length doc ≤ i + fuel
    → joined (chunk_loop fuel size i doc) ≡ skip i doc
unfolding chunk_loop
joined-chunk_loop zero size i doc positive enough = sym (skip_all i doc (omega arith))
joined-chunk_loop (suc fuel) size i doc positive enough = elim (Bool-cases (ltb i (length doc))) [
  | inr stop ↦ rw stop (sym (skip_all i doc (ground (arith, stop))))
  | inl go ↦ elim (Bool-cases (leb (i + size) (length doc))) [
    | inl full ↦
        rw (go, full, joined-chunk_loop fuel size (i + size) doc positive (omega arith))
          (ap (λ n. take n (skip i doc) ++ skip (i + size) doc) (omega arith)
            ∙ take-skip size i (i + size) doc refl)
    | inr last ↦
        rw (go, last, joined-chunk_loop fuel size (i + size) doc positive (omega arith))
          (ap (λ ys. take (length doc - i) (skip i doc) ++ ys)
              (skip_all (i + size) doc (ground (arith, last))
                ∙ sym (skip_all (i + (length doc - i)) doc (omega arith)))
            ∙ take-skip (length doc - i) i (i + (length doc - i)) doc refl)
  ]
]

length-skip : (n : ℕ) (xs : List ℕ) → length (skip n xs) ≡ length xs - n
length-skip zero xs = omega arith
length-skip (suc n) [] = omega arith
length-skip (suc n) (x ∷ xs) = length-skip n xs ∙ omega arith

chunk_loop-AreSmall :
    (fuel size i : ℕ) (doc : List ℕ) → 0 < size → AreSmall size (chunk_loop fuel size i doc)
unfolding chunk_loop
chunk_loop-AreSmall zero size i doc positive = tt
chunk_loop-AreSmall (suc fuel) size i doc positive = elim (Bool-cases (ltb i (length doc))) [
  | inr stop ↦ rw stop tt
  | inl go ↦
      let rest = chunk_loop-AreSmall fuel size (i + size) doc positive in
      elim (Bool-cases (leb (i + size) (length doc))) [
        | inl full ↦
            let e : length (take (i + size - i) (skip i doc)) ≡ i + size - i =
              length-take (i + size - i) (skip i doc) (ground (arith, full, length-skip i doc)) in
            rw (go, full) (omega (arith, e), omega (arith, e), rest)
        | inr last ↦
            let e : length (take (length doc - i) (skip i doc)) ≡ length doc - i =
              length-take (length doc - i) (skip i doc) (omega (arith, length-skip i doc)) in
            rw (go, last) (ground (arith, e, go), ground (arith, e, last), rest)
      ]
]

elem_lem :
    (xs : List (List ℕ)) (k : ℕ)
    → ((x : List ℕ) × (get_elem? xs k ≡ some x) × (k < length xs))
      ⊎ ((get_elem? xs k ≡ none) × (length xs ≤ k))
elem_lem [] k = inr (refl, omega arith)
elem_lem (x ∷ xs) zero = inl (x, refl, omega arith)
elem_lem (x ∷ xs) (suc k) = elim (elem_lem xs k) [
  | inl (y, here, below) ↦ inl (y, here, omega arith)
  | inr (absent, above) ↦ inr (absent, omega arith)
]

get_elem?-map :
    (f : List ℕ → String) (xs : List (List ℕ)) (k : ℕ) {x : List ℕ}
    → get_elem? xs k ≡ some x
    → get_elem? (map f xs) k ≡ some (f x)
get_elem?-map f [] k h = cc
get_elem?-map f (y ∷ ys) zero h = cc
get_elem?-map f (y ∷ ys) (suc k) h = get_elem?-map f ys k h

length-map : (f : List ℕ → String) (xs : List (List ℕ)) → length (map f xs) ≡ length xs
length-map f [] = refl
length-map f (x ∷ xs) = ap suc (length-map f xs)

-- The answer for a piece of the document.
abbrev pub served : GenesisSource → ℕ → ℕ → Option (List ℕ) → Result GenesisChunk
served source total k none = err plain
served source total k (some piece) =
    ok (record { total_chunks = total; chunk_number = pos k; content = source.base64 piece })

serve_all :
    (source : GenesisSource) (pieces : List (List ℕ)) (k : ℕ)
    → k < 2 ^ 63
    → get_genesis_chunks source ≡ ok (map source.base64 pieces)
    → genesis_chunked source k ≡ served source (length pieces) k (get_elem? pieces k)
unfolding genesis_chunked
serve_all source pieces k small given = elim (elem_lem pieces k) [
  | inl (piece, here, below) ↦
      let some_chunks : (length pieces == 0) ≡ false = ground (arith, below) in
      let inside : ltb_ℤ (pos k) (pos (length pieces)) ≡ true = ground (arith, below) in
      rw
        (
          given,
          length-map source.base64 pieces,
          some_chunks,
          to_int64-lt k small,
          inside,
          get_elem?-map source.base64 pieces k here,
          here,
        )
        refl
  | inr (absent, above) ↦ elim (Bool-cases (length pieces == 0)) [
    | inl no_chunks ↦ rw (given, length-map source.base64 pieces, no_chunks, absent) refl
    | inr some_chunks ↦
        let outside : ltb_ℤ (pos k) (pos (length pieces)) ≡ false = ground (arith, above) in
        rw
          (
            given,
            length-map source.base64 pieces,
            some_chunks,
            to_int64-lt k small,
            outside,
            absent,
          )
          refl
  ]
]

-- The chunks that are served are the base64 of pieces that make up the document in their order, none
-- empty and none longer than 16 MiB. Below 2^63 an index is answered with its piece, or refused if
-- there is none.
pub genesis_chunked-joined :
    (source : GenesisSource) (doc : List ℕ)
    → source.loaded ≡ true
    → source.to_json ≡ ok (some doc)
    → (pieces : List (List ℕ)) × (joined pieces ≡ doc)
      × AreSmall genesis_chunk_size pieces
      × ((k : ℕ)
          → k < 2 ^ 63
          → genesis_chunked source k ≡ served source (length pieces) k (get_elem? pieces k))
unfolding get_genesis_chunks
genesis_chunked-joined source doc loaded given =
    let pieces = chunk_loop (length doc) genesis_chunk_size 0 doc in
    (
      pieces,
      joined-chunk_loop (length doc) genesis_chunk_size 0 doc (omega arith) (omega arith),
      chunk_loop-AreSmall (length doc) genesis_chunk_size 0 doc (omega arith),
      λ k small. serve_all source pieces k small (rw (loaded, given) refl),
    )
