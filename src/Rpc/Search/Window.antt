-- ===== src/Rpc/Search/Window.antt =====
-- The page of a search in pkg/rpc/core, as a window on the sorted results.
use ev_abci.Prelude.{
  Bool-cases, List, Option, [], ap, arith, inl, inr, leb_ℤ, length, ltb, negsuc, none, ok, pos,
  refl, some, suc, sym, true, zero, ℕ, ℤ, ◌*◌, ◌+ℤ◌, ◌-ℤ◌, ◌-◌, ◌/◌, ◌<◌, ◌^◌, ◌∙◌, ◌∷◌, ◌≡◌, ◌≤◌,
}
use ev_abci.Prelude.Outcome.{>>=-eq-ok, ok_injective, ok_ne_err, ◌>>=◌}
use ev_abci.Rpc.{min_ℤ, page_within, quotient, validate_page, validate_per_page, wrap_int64}
use ev_abci.Rpc.Range.{wrap_int64-pos}
use ev_abci.Rpc.Pages.{accepted_page, page_fits, skip_lem}
use ev_abci.Rpc.Search.{bound, page_of, skip, take}

-- The request is for the page after the first `number` ones.
abbrev pub Asks : Option ℤ → ℕ → Type 0
Asks none number = number ≡ 0
Asks (some page) number = page ≡ pos (suc number)

size_lem :
    (per_page : Option ℤ) → (d : ℕ) × (validate_per_page per_page ≡ pos (suc d)) × (suc d ≤ 100)
unfolding validate_per_page
size_lem none = (29, refl, omega arith)
size_lem (some (negsuc n)) = (29, ground arith, omega arith)
size_lem (some (pos zero)) = (29, ground arith, omega arith)
size_lem (some (pos (suc n))) = elim (Bool-cases (ltb 100 (suc n))) [
  | inl large ↦ (99, ground arith, omega arith)
  | inr small ↦ (n, ground arith, ground arith)
]

accepted_empty :
    (page d : ℕ) {q : ℤ}
    → page_within (some (pos page)) (suc d) (pos 0) ≡ ok q
    → (page ≡ 1) × (q ≡ pos page)
unfolding page_within quotient ◌-ℤ◌ ◌+ℤ◌
accepted_empty page zero h = (ground (arith, h), ground (arith, h))
accepted_empty page (suc d) h =
    let none_full : 1 / suc (suc d) ≡ 0 = omega arith in
    (ground (arith, h, none_full), ground (arith, h, none_full))

page_lem :
    (page : Option ℤ) (d total : ℕ) {q : ℤ}
    → page_within page (suc d) (pos total) ≡ ok q
    → (number : ℕ) × (q ≡ pos (suc number))
      × (number * suc d ≤ total)
      × Asks page number
      × (0 < total → number * suc d < total)
unfolding page_within
page_lem none d total h = (0, sym (ok_injective h), omega arith, refl, λ positive. omega arith)
page_lem (some (negsuc n)) d total h =
    let test : leb_ℤ (negsuc n) (pos 0) ≡ true = ground arith in
    absurd (ok_ne_err (sym (rw test at h)))
page_lem (some (pos page)) d zero h =
    let (only, same_page) = accepted_empty page d h in
    (0, same_page ∙ ap pos only, omega arith, ap pos only, λ positive. absurd (omega arith))
page_lem (some (pos page)) d (suc t) h =
    let (number, e, same_page, fits) = accepted_page page d t h in
    let inside : number * suc d ≤ t = page_fits number d t fits in
    (number, same_page ∙ ap pos e, omega arith, ap pos e, λ positive. omega arith)

take_enough :
    {A : Type 0} (m n : ℕ) (xs : List A) → length xs ≤ m → length xs ≤ n → take m xs ≡ take n xs
take_enough zero zero xs a b = refl
take_enough zero (suc n) [] a b = refl
take_enough zero (suc n) (x ∷ xs) a b = absurd (omega arith)
take_enough (suc m) zero [] a b = refl
take_enough (suc m) zero (x ∷ xs) a b = absurd (omega arith)
take_enough (suc m) (suc n) [] a b = refl
take_enough (suc m) (suc n) (x ∷ xs) a b =
    ap (λ ys. x ∷ ys) (take_enough m n xs (omega arith) (omega arith))

length-skip : {A : Type 0} (n : ℕ) (xs : List A) → length (skip n xs) ≡ length xs - n
length-skip zero xs = omega arith
length-skip (suc n) [] = omega arith
length-skip (suc n) (x ∷ xs) = length-skip n xs ∙ omega arith

-- The end of `page_of`: a last page that is short is what is left.
window_lem :
    {A : Type 0} (d start : ℕ) (sorted : List A)
    → start ≤ length sorted
    → length sorted < 2 ^ 63
    → (bound (min_ℤ (pos (suc d)) (wrap_int64 (pos (length sorted) -ℤ pos start))) >>= λ count.
        ok (take count (skip start sorted)))
      ≡ ok (take (suc d) (skip start sorted))
unfolding ◌-ℤ◌
window_lem d start sorted inside short =
    let left : ℕ = length sorted - start in
    let difference : wrap_int64 (pos (length sorted) -ℤ pos start) ≡ pos left =
      ap wrap_int64 (ground arith) ∙ wrap_int64-pos left (omega arith) in
    ap (λ z. bound (min_ℤ (pos (suc d)) z) >>= λ count. ok (take count (skip start sorted)))
      difference
    ∙ elim (Bool-cases (leb_ℤ (pos (suc d)) (pos left))) [
      | inl whole ↦ rw whole refl
      | inr short_page ↦ rw short_page (
          ap ok (
            take_enough left (suc d) (skip start sorted) (omega (arith, length-skip start sorted))
              (ground (arith, length-skip start sorted, short_page))))
    ]

-- A page of sorted results: its size and the number of pages before it, within the results unless
-- there are none, and its results.
pub record IsPage {A : Type 0} (page per_page : Option ℤ) (sorted window : List A) : Type 0 where
  pub size : ℕ
  pub number : ℕ
  pub sized : validate_per_page per_page ≡ pos size
  pub some_results : 1 ≤ size
  pub few_results : size ≤ 100
  pub asked : Asks page number
  pub inside : 0 < length sorted → number * size < length sorted
  pub those : window ≡ take size (skip (number * size) sorted)

pub page_of-IsPage :
    {A : Type 0} (page per_page : Option ℤ) (sorted window : List A)
    → length sorted < 2 ^ 63
    → page_of page per_page sorted ≡ ok window
    → IsPage page per_page sorted window
unfolding page_of validate_page
page_of-IsPage page per_page sorted window short h =
    let (d, sized, few) = size_lem per_page in
    let h1 = rw sized at h in
    let (q, accepted, h2) =
      >>=-eq-ok (validate_page page (pos (suc d)) (pos (length sorted))) _ h1 in
    let (number, shown, below, asked, inside) = page_lem page d (length sorted) accepted in
    let h3 = rw (shown, skip_lem number d (omega arith)) at h2 in
    record {
      size = suc d;
      number = number;
      sized = sized;
      some_results = omega arith;
      few_results = few;
      asked = asked;
      inside = inside;
      those = sym (ok_injective (sym (window_lem d (number * suc d) sorted below short) ∙ h3));
    }
