-- ===== src/Store/Listing/Pages.antt =====
-- The pages of a listing cover its entries once each, in the order of the keys.
use agamemnon.Base.{
  ℕ, zero, suc, ◌+◌, ◌-◌, ◌*◌, ◌≤◌, ◌≡◌, refl, sym, ap, String, List, [], ◌∷◌, ◌++◌, map, ltb,
  if◌then◌else◌, length, drop, arith, length-append, length-drop,
}
use agamemnon.Base.Dict.{Dict, lookup}
use agamemnon.Base.Sorting.{
  sort_by_key, HasDistinctKeys, IsAscending, sort_by_key-IsAscending, lookup-sort_by_key,
  ascending_unique, length-sort_by_key,
}
use agamemnon.Store.Listing.{page, page_loop}
use mathlib.Core.List.{append-nil, append_assoc}
use native.Mathlib.Numerals.{unary_clauses}

-- The first `n` entries.
abbrev pub take {ℓ} : {A : Type ℓ} → ℕ → List A → List A
take zero xs = []
take (suc n) [] = []
take (suc n) (x ∷ xs) = x ∷ take n xs

-- min a b
abbrev pub min : ℕ → ℕ → ℕ
min a b = if ltb a b then a else b

length-take {ℓ} : {A : Type ℓ} (n : ℕ) (xs : List A) → length (take n xs) ≡ min n (length xs)
length-take zero [] = refl
length-take zero (x ∷ xs) = ground arith
length-take (suc n) [] = ground arith
length-take (suc n) (x ∷ xs) = ground (arith, length-take n xs)

take-all {ℓ} : {A : Type ℓ} (n : ℕ) (xs : List A) → length xs ≤ n → take n xs ≡ xs
take-all zero [] h = refl
take-all zero (x ∷ xs) h = absurd (omega arith)
take-all (suc n) [] h = refl
take-all (suc n) (x ∷ xs) h = ap (◌∷◌ x) (take-all n xs (omega arith))

suc_plus : (m n : ℕ) → suc m + n ≡ suc (m + n)
suc_plus m n = omega arith

zero_times : (n : ℕ) → 0 ≡ 0 * n
zero_times n = omega arith

take-split {ℓ} :
    {A : Type ℓ} (m n : ℕ) (xs : List A) → take (m + n) xs ≡ take m xs ++ take n (drop m xs)
take-split zero n xs = ap (λ k. take k xs) (omega arith)
take-split (suc m) zero [] = simp unary_clauses refl
take-split (suc m) (suc n) [] = simp unary_clauses refl
take-split (suc m) n (x ∷ xs) = ground (arith, suc_plus m n, take-split m n xs)

drop-drop {ℓ} : {A : Type ℓ} (m n : ℕ) (xs : List A) → drop (m + n) xs ≡ drop n (drop m xs)
drop-drop zero n xs = ap (λ k. drop k xs) (omega arith)
drop-drop (suc m) zero [] = simp unary_clauses refl
drop-drop (suc m) (suc n) [] = simp unary_clauses refl
drop-drop (suc m) n (x ∷ xs) = ground (arith, suc_plus m n, drop-drop m n xs)

suc_times : (n k : ℕ) → suc n * k ≡ k + n * k
suc_times n k = grind arith

module _ {V : Type 0} where
  abbrev pub values : Dict V → List V
  values m = map (λ (p : String × V). p.1) m

  page_loop-take :
      (limit n : ℕ) (m : Dict V) (arr : List V)
      → limit ≡ length arr + n
      → page_loop limit m arr ≡ arr ++ values (take n m)
  unfolding page_loop
  page_loop-take limit zero [] arr h = sym (append-nil arr)
  page_loop-take limit (suc n) [] arr h = sym (append-nil arr)
  page_loop-take limit zero ((key, value) ∷ rest) arr h = ground (arith, append-nil arr)
  page_loop-take limit (suc n) ((key, value) ∷ rest) arr h = ground (
    arith,
    page_loop-take limit n rest (arr ++ (value ∷ [])),
    length-append arr (value ∷ []),
    append_assoc arr (value ∷ []) (values (take n rest)),
  )

  pub page-take :
      (limit offset : ℕ) (m : Dict V)
      → page limit offset m ≡ values (take limit (drop offset (sort_by_key m)))
  unfolding page
  page-take limit offset m =
      page_loop-take limit limit (drop offset (sort_by_key m)) [] (omega arith)

  length-values : (m : Dict V) → length (values m) ≡ length m
  length-values [] = refl
  length-values (e ∷ m) = omega (arith, length-values m)

  -- A page has as many entries as the limit asks for, or as there are from the offset on.
  pub length-page :
      (limit offset : ℕ) (m : Dict V) → length (page limit offset m) ≡ min limit (length m - offset)
  length-page limit offset m = ground (
    arith,
    page-take limit offset m,
    length-values (take limit (drop offset (sort_by_key m))),
    length-take limit (drop offset (sort_by_key m)),
    length-drop offset (sort_by_key m),
    length-sort_by_key m,
  )

  -- The first `n` pages of that limit, from an offset on.
  abbrev pub pages : ℕ → ℕ → ℕ → Dict V → List V
  pages limit zero offset m = []
  pages limit (suc n) offset m = page limit offset m ++ pages limit n (offset + limit) m

  values-append : (m n : Dict V) → values (m ++ n) ≡ values m ++ values n
  values-append [] n = refl
  values-append (e ∷ m) n = ap (◌∷◌ e.1) (values-append m n)

  pages-take :
      (limit n offset : ℕ) (m : Dict V)
      → pages limit n offset m ≡ values (take (n * limit) (drop offset (sort_by_key m)))
  pages-take limit zero offset m =
      ap (λ k. values (take k (drop offset (sort_by_key m)))) (zero_times limit)
  pages-take limit (suc n) offset m = ground (
    arith,
    page-take limit offset m,
    pages-take limit n (offset + limit) m,
    drop-drop offset limit (sort_by_key m),
    take-split limit (n * limit) (drop offset (sort_by_key m)),
    suc_times n limit,
    values-append (take limit (drop offset (sort_by_key m)))
        (take (n * limit) (drop limit (drop offset (sort_by_key m)))),
  )

  -- Enough pages are the whole map, in the order of the keys.
  pub pages-all :
      (limit n : ℕ) (m : Dict V) → length m ≤ n * limit → pages limit n 0 m ≡ values (sort_by_key m)
  pages-all limit n m h =
      ground
        (arith, pages-take limit n 0 m, take-all (n * limit) (sort_by_key m), length-sort_by_key m)

  -- A page depends on what the map holds, and not on the order of its iteration.
  pub page_unique :
      (limit offset : ℕ) (m n : Dict V)
      → HasDistinctKeys m
      → HasDistinctKeys n
      → ((k : String) → lookup k m ≡ lookup k n)
      → page limit offset m ≡ page limit offset n
  unfolding page
  page_unique limit offset m n h h' same =
      ap (λ sorted. page_loop limit (drop offset sorted) [])
        (ascending_unique (sort_by_key m) (sort_by_key n) (sort_by_key-IsAscending m h)
          (sort_by_key-IsAscending n h')
          (λ k. ground (arith, lookup-sort_by_key m k h, lookup-sort_by_key n k h', same k)))

  -- Enough pages, one after the other, list each entry of the map once, in the order of the keys.
  pub pages_cover :
      (limit n : ℕ) (m : Dict V)
      → HasDistinctKeys m
      → length m ≤ n * limit
      → (sorted : Dict V) × IsAscending sorted
        × ((k : String) → lookup k sorted ≡ lookup k m)
        × (pages limit n 0 m ≡ values sorted)
  pages_cover limit n m distinct h = (
    sort_by_key m,
    sort_by_key-IsAscending m distinct,
    λ k. lookup-sort_by_key m k distinct,
    pages-all limit n m h,
  )
