-- ===== src/Rpc/Search/Sorting.antt =====
-- The sorted results of a search in pkg/rpc/core.
use mathlib.Core.List.{Perm}
use mathlib.Core.List.Perm
use mathlib.Core.Path.{subst}
use ev_abci.Prelude.{
  Bool, Bool-cases, List, String, [], ap, arith, bytes_eq, false, inl, inr, int_eq, length, ltb_ℤ,
  nat_eq, ok, pair_eq, refl, same, string_eq, suc, sym, true, true_ne, ◌||◌, ◌∙◌, ◌∷◌, ◌≡◌,
}
use ev_abci.Prelude.Outcome.{ok_injective, ok_ne_err}
use ev_abci.Rpc.Search.{greater, insert_by, order_results, sort_by, tx_less}

-- No result is "less" than the one before it.
abbrev pub IsOrdered : {A : Type 0} → (A → A → Bool) → List A → Type 0
IsOrdered less [] = Unit
IsOrdered less (x ∷ []) = Unit
IsOrdered less (x ∷ (y ∷ ys)) = (less y x ≡ false) × IsOrdered less (y ∷ ys)

abbrev pub IsAsymmetric : {A : Type 0} → (A → A → Bool) → Type 0
IsAsymmetric {A} less = (a b : A) → less a b ≡ true → less b a ≡ false

pub tx_less-IsAsymmetric : IsAsymmetric tx_less
tx_less-IsAsymmetric a b h = ground (arith, h)

pub ltb_ℤ-IsAsymmetric : IsAsymmetric ltb_ℤ
ltb_ℤ-IsAsymmetric a b h = ground (arith, h)

module _ {A : Type 0} (less : A → A → Bool) where
  insert_by-Perm : (a : A) (xs : List A) → Perm (a ∷ xs) (insert_by less a xs)
  unfolding insert_by
  insert_by-Perm a [] = Perm.rfl
  insert_by-Perm a (x ∷ xs) = elim (Bool-cases (less x a)) [
    | inl later ↦ rw later (Perm.trans (Perm.swap x a xs) (Perm.cons x (insert_by-Perm a xs)))
    | inr first ↦ rw first Perm.rfl
  ]

  pub sort_by-Perm : (xs : List A) → Perm xs (sort_by less xs)
  unfolding sort_by
  sort_by-Perm [] = Perm.rfl
  sort_by-Perm (x ∷ xs) =
      Perm.trans (Perm.cons x (sort_by-Perm xs)) (insert_by-Perm x (sort_by less xs))

  insert_after :
      (x y : A) (ys : List A)
      → IsAsymmetric less
      → less y x ≡ true
      → IsOrdered less (y ∷ ys)
      → IsOrdered less (y ∷ insert_by less x ys)
  unfolding insert_by
  insert_after x y [] asym h ordered = (asym y x h, tt)
  insert_after x y (z ∷ zs) asym h (near, ordered) = elim (Bool-cases (less z x)) [
    | inl later ↦ rw later (near, insert_after x z zs asym later ordered)
    | inr first ↦ rw first (asym y x h, (first, ordered))
  ]

  insert_by-IsOrdered :
      (x : A) (xs : List A)
      → IsAsymmetric less
      → IsOrdered less xs
      → IsOrdered less (insert_by less x xs)
  unfolding insert_by
  insert_by-IsOrdered x [] asym ordered = tt
  insert_by-IsOrdered x (y ∷ ys) asym ordered = elim (Bool-cases (less y x)) [
    | inl later ↦ rw later (insert_after x y ys asym later ordered)
    | inr first ↦ rw first (first, ordered)
  ]

  pub sort_by-IsOrdered : (xs : List A) → IsAsymmetric less → IsOrdered less (sort_by less xs)
  unfolding sort_by
  sort_by-IsOrdered [] asym = tt
  sort_by-IsOrdered (x ∷ xs) asym =
      insert_by-IsOrdered x (sort_by less xs) asym (sort_by-IsOrdered xs asym)

length-insert_by :
    {A : Type 0} (less : A → A → Bool) (a : A) (xs : List A)
    → length (insert_by less a xs) ≡ suc (length xs)
unfolding insert_by
length-insert_by less a [] = refl
length-insert_by less a (x ∷ xs) = ground (arith, length-insert_by less a xs)

length-sort_by :
    {A : Type 0} (less : A → A → Bool) (xs : List A) → length (sort_by less xs) ≡ length xs
unfolding sort_by
length-sort_by less [] = refl
length-sort_by less (x ∷ xs) =
    length-insert_by less x (sort_by less xs) ∙ ap suc (length-sort_by less xs)

-- The same results, in descending order where that is asked for, or else in ascending order.
pub record IsSorted {A : Type 0} (less : A → A → Bool) (order_by : String) (results sorted : List A)
    : Type 0 where
  pub same_results : Perm results sorted
  pub same_length : length sorted ≡ length results
  pub descending : same order_by "desc" ≡ true → IsOrdered (greater less) sorted
  pub ascending : same order_by "desc" ≡ false → IsOrdered less sorted

pub order_results-IsSorted :
    {A : Type 0} (less : A → A → Bool) (order_by : String) (results sorted : List A)
    → IsAsymmetric less
    → order_results less order_by results ≡ ok sorted
    → IsSorted less order_by results sorted
unfolding order_results
order_results-IsSorted less order_by results sorted asym h =
    elim (Bool-cases (same order_by "desc")) [
      | inl down ↦ subst (IsSorted less order_by results) (ok_injective (rw down at h)) (record {
        same_results = sort_by-Perm (greater less) results;
        same_length = length-sort_by (greater less) results;
        descending = λ _. sort_by-IsOrdered (greater less) results (λ a b. asym b a);
        ascending = λ up. absurd (true_ne (sym down ∙ up));
      })
      | inr up ↦ elim (Bool-cases (same order_by "asc" || same order_by "")) [
        | inr other ↦ absurd (ok_ne_err (sym (rw (up, other) at h)))
        | inl ascending_ ↦
            subst (IsSorted less order_by results) (ok_injective (rw (up, ascending_) at h))
              (record {
                same_results = sort_by-Perm less results;
                same_length = length-sort_by less results;
                descending = λ down. absurd (true_ne (sym down ∙ up));
                ascending = λ _. sort_by-IsOrdered less results asym;
              })
      ]
    ]
