-- ===== src/Network/Export/Walk.antt =====
-- The sort of `ExportGenesis` and the order of its walk (modules/network/genesis.go).
use ev_abci.Prelude.{
  Bool-cases, List, [], ap, arith, bytes_eq, contains, false, if◌then◌else◌, inl, inr, int_eq,
  length, nat_eq, pair_eq, refl, string_eq, suc, sym, true, true_ne, ℕ, ◌&&◌, ◌∙◌, ◌∷◌, ◌≡◌, ◌⊎◌,
}
use ev_abci.Network.Types.{AttesterInfo, Env}
use ev_abci.Network.Genesis.{
  all_have_pub_key, bytes_ltb, has_pub_key, insert_attester, order_attesters, sort_key,
}
use ev_abci.Network.Genesis.Attesters.{Distinct, addresses, or_left, or_right}
use ev_abci.Network.Genesis.Start.{bytes_ltb_asym}
use ev_abci.Network.Export.{string_ltb}

bytes_ltb_trans :
    (a b c : List ℕ) → bytes_ltb a b ≡ true → bytes_ltb b c ≡ true → bytes_ltb a c ≡ true
unfolding bytes_ltb
bytes_ltb_trans [] [] c h k = cc
bytes_ltb_trans [] (y ∷ ys) [] h k = cc
bytes_ltb_trans [] (y ∷ ys) (z ∷ zs) h k = refl
bytes_ltb_trans (x ∷ xs) [] c h k = cc
bytes_ltb_trans (x ∷ xs) (y ∷ ys) [] h k = cc
bytes_ltb_trans (x ∷ xs) (y ∷ ys) (z ∷ zs) h k = ground (arith, bytes_ltb_trans xs ys zs)

bytes_ltb_connected : (a b : List ℕ) → bytes_ltb a b ≡ false → bytes_ltb b a ≡ false → a ≡ b
unfolding bytes_ltb
bytes_ltb_connected [] [] h k = refl
bytes_ltb_connected [] (y ∷ ys) h k = cc
bytes_ltb_connected (x ∷ xs) [] h k = cc
bytes_ltb_connected (x ∷ xs) (y ∷ ys) h k =
    let heads : x ≡ y = ground (arith, h, k) in
    let tails : xs ≡ ys = bytes_ltb_connected xs ys (ground (arith, h, k)) (ground (arith, h, k)) in
    ap (λ z. z ∷ xs) heads ∙ ap (λ zs. y ∷ zs) tails

-- Two attesters of which one comes before the other.
abbrev pub Differ : Env → AttesterInfo → AttesterInfo → Type 0
Differ env x y =
    (bytes_ltb (sort_key env x) (sort_key env y) ≡ true)
    ⊎ (bytes_ltb (sort_key env y) (sort_key env x) ≡ true)

abbrev pub AllDiffer : Env → AttesterInfo → List AttesterInfo → Type 0
AllDiffer env x [] = Unit
AllDiffer env x (y ∷ ys) = Differ env x y × AllDiffer env x ys

-- Inserting an attester after an earlier one.
insert_swap_lt :
    (env : Env) (x y : AttesterInfo) (l : List AttesterInfo)
    → bytes_ltb (sort_key env x) (sort_key env y) ≡ true
    → insert_attester env x (insert_attester env y l)
      ≡ insert_attester env y (insert_attester env x l)
unfolding insert_attester
insert_swap_lt env x y [] lt = rw (lt, bytes_ltb_asym _ _ lt) refl
insert_swap_lt env x y (z ∷ zs) lt =
    elim (Bool-cases (bytes_ltb (sort_key env z) (sort_key env x))) [
      | inl first ↦
          let both : bytes_ltb (sort_key env z) (sort_key env y) ≡ true =
            bytes_ltb_trans _ _ _ first lt in
          rw (first, both, first) (ap (λ rest. z ∷ rest) (insert_swap_lt env x y zs lt))
      | inr after ↦ elim (Bool-cases (bytes_ltb (sort_key env z) (sort_key env y))) [
        | inl between ↦ rw (between, after, lt, between) refl
        | inr last ↦ rw (last, after, bytes_ltb_asym _ _ lt, lt, last) refl
      ]
    ]

insert_swap :
    (env : Env) (x y : AttesterInfo) (l : List AttesterInfo)
    → Differ env x y
    → insert_attester env x (insert_attester env y l)
      ≡ insert_attester env y (insert_attester env x l)
insert_swap env x y l (inl lt) = insert_swap_lt env x y l lt
insert_swap env x y l (inr gt) = sym (insert_swap_lt env y x l gt)

-- The attesters in the order of a walk.
unfoldable pub insert_walk : AttesterInfo → List AttesterInfo → List AttesterInfo
insert_walk x [] = x ∷ []
insert_walk x (y ∷ ys) =
    if string_ltb y.consensus_address x.consensus_address
    then y ∷ insert_walk x ys
    else x ∷ (y ∷ ys)

unfoldable pub walk_order : List AttesterInfo → List AttesterInfo
unfolding insert_walk
walk_order [] = []
walk_order (x ∷ xs) = insert_walk x (walk_order xs)

AllDiffer-insert_walk :
    (env : Env) (x y : AttesterInfo) (ys : List AttesterInfo)
    → Differ env x y
    → AllDiffer env x ys
    → AllDiffer env x (insert_walk y ys)
unfolding insert_walk
AllDiffer-insert_walk env x y [] differs all = (differs, all)
AllDiffer-insert_walk env x y (z ∷ zs) differs (here, all) =
    elim (Bool-cases (string_ltb z.consensus_address y.consensus_address)) [
      | inl later ↦ rw later (here, AllDiffer-insert_walk env x y zs differs all)
      | inr first ↦ rw first (differs, (here, all))
    ]

AllDiffer-walk_order :
    (env : Env) (x : AttesterInfo) (ys : List AttesterInfo)
    → AllDiffer env x ys
    → AllDiffer env x (walk_order ys)
unfolding walk_order
AllDiffer-walk_order env x [] all = tt
AllDiffer-walk_order env x (y ∷ ys) (differs, all) =
    AllDiffer-insert_walk env x y (walk_order ys) differs (AllDiffer-walk_order env x ys all)

order-insert_walk :
    (env : Env) (x : AttesterInfo) (ys : List AttesterInfo)
    → AllDiffer env x ys
    → order_attesters env (insert_walk x ys) ≡ insert_attester env x (order_attesters env ys)
unfolding insert_walk order_attesters
order-insert_walk env x [] all = refl
order-insert_walk env x (y ∷ ys) (differs, all) =
    elim (Bool-cases (string_ltb y.consensus_address x.consensus_address)) [
      | inl later ↦ rw later (
          ap (insert_attester env y) (order-insert_walk env x ys all)
          ∙ sym (insert_swap env x y (order_attesters env ys) differs))
      | inr first ↦ rw first refl
    ]

-- Each attester differs from those after it.
abbrev pub Pairwise : Env → List AttesterInfo → Type 0
Pairwise env [] = Unit
Pairwise env (x ∷ xs) = AllDiffer env x xs × Pairwise env xs

-- The sort forgets the order of the walk.
pub order-walk_order :
    (env : Env) (xs : List AttesterInfo)
    → Pairwise env xs
    → order_attesters env (walk_order xs) ≡ order_attesters env xs
unfolding walk_order order_attesters
order-walk_order env [] pairs = refl
order-walk_order env (x ∷ xs) (all, pairs) =
    order-insert_walk env x (walk_order xs) (AllDiffer-walk_order env x xs all)
    ∙ ap (insert_attester env x) (order-walk_order env xs pairs)

length-insert_walk :
    (x : AttesterInfo) (xs : List AttesterInfo) → length (insert_walk x xs) ≡ suc (length xs)
unfolding insert_walk
length-insert_walk x [] = refl
length-insert_walk x (y ∷ ys) = ground (arith, length-insert_walk x ys)

pub length-walk_order : (xs : List AttesterInfo) → length (walk_order xs) ≡ length xs
unfolding walk_order
length-walk_order [] = refl
length-walk_order (x ∷ xs) = length-insert_walk x (walk_order xs) ∙ ap suc (length-walk_order xs)

all-insert_walk :
    (x : AttesterInfo) (xs : List AttesterInfo)
    → all_have_pub_key (insert_walk x xs) ≡ (has_pub_key x && all_have_pub_key xs)
unfolding insert_walk
all-insert_walk x [] = refl
all-insert_walk x (y ∷ ys) = ground (arith, all-insert_walk x ys)

pub all-walk_order :
    (xs : List AttesterInfo) → all_have_pub_key (walk_order xs) ≡ all_have_pub_key xs
unfolding walk_order
all-walk_order [] = refl
all-walk_order (x ∷ xs) =
    all-insert_walk x (walk_order xs) ∙ ap (λ b. has_pub_key x && b) (all-walk_order xs)

-- The attester's address is made of its public key.
abbrev pub AllCanonical : Env → List AttesterInfo → Type 0
AllCanonical env [] = Unit
AllCanonical env (x ∷ xs) =
    (x.consensus_address ≡ env.cons_address_string (sort_key env x)) × AllCanonical env xs

distinct-AllDiffer :
    (env : Env) (x : AttesterInfo) (xs : List AttesterInfo)
    → x.consensus_address ≡ env.cons_address_string (sort_key env x)
    → AllCanonical env xs
    → contains x.consensus_address (addresses xs) ≡ false
    → AllDiffer env x xs
distinct-AllDiffer env x [] mine theirs absent = tt
distinct-AllDiffer env x (y ∷ ys) mine (its, theirs) absent = (
  elim (Bool-cases (bytes_ltb (sort_key env x) (sort_key env y))) [
    | inl lt ↦ inl lt
    | inr not_lt ↦ elim (Bool-cases (bytes_ltb (sort_key env y) (sort_key env x))) [
      | inl gt ↦ inr gt
      | inr not_gt ↦
          let same_key : sort_key env y ≡ sort_key env x = bytes_ltb_connected _ _ not_gt not_lt in
          let same_address : y.consensus_address ≡ x.consensus_address =
            its ∙ ap env.cons_address_string same_key ∙ sym mine in
          absurd (
            true_ne (
              sym ((string_eq.beq_iff y.consensus_address x.consensus_address).1 same_address)
              ∙ or_left _ _ absent))
    ]
  ],
  distinct-AllDiffer env x ys mine theirs (or_right _ _ absent),
)

pub Distinct-Pairwise :
    (env : Env) (xs : List AttesterInfo)
    → AllCanonical env xs
    → Distinct (addresses xs)
    → Pairwise env xs
Distinct-Pairwise env [] canonical distinct = tt
Distinct-Pairwise env (x ∷ xs) (mine, theirs) (fresh, distinct) =
    (distinct-AllDiffer env x xs mine theirs fresh, Distinct-Pairwise env xs theirs distinct)
