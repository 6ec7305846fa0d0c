-- ===== src/Base/Sorting.antt =====
-- std::sort of the entries of a map by their keys, as an insertion sort. The keys of a map are
-- distinct, so every sort by the keys gives this list.
use agamemnon.Base.{
  ◌+◌, length, String, ◌≡◌, refl, true, [], ◌∷◌, none, some, if◌then◌else◌, arith, str_eq,
  str_eq_iff,
}
use agamemnon.Base.Dict.{Dict, lookup, insert, erase, lookup-insert, lookup-erase}
use agamemnon.Base.Order.{text_ltb, text_ltb_irrefl, text_ltb_trans, text_ltb_total}

module _ {V : Type 0} where
  -- The entry before the first one that has a larger key.
  unfoldable pub insert_sorted : String → V → Dict V → Dict V
  insert_sorted key value [] = (key, value) ∷ []
  insert_sorted key value ((name, held) ∷ rest) =
      if text_ltb key name
      then (key, value) ∷ (name, held) ∷ rest
      else (name, held) ∷ insert_sorted key value rest

  unfoldable pub sort_by_key : Dict V → Dict V
  unfolding insert_sorted
  sort_by_key [] = []
  sort_by_key ((key, value) ∷ rest) = insert_sorted key value (sort_by_key rest)

  -- No key occurs twice.
  abbrev pub HasDistinctKeys : Dict V → Type 0
  HasDistinctKeys [] = Unit
  HasDistinctKeys ((key, value) ∷ rest) = (lookup key rest ≡ none) × HasDistinctKeys rest

  -- Every key of the list is above the text.
  abbrev pub IsAbove : String → Dict V → Type 0
  IsAbove low [] = Unit
  IsAbove low ((key, value) ∷ rest) = (text_ltb low key ≡ true) × IsAbove low rest

  abbrev pub IsAscending : Dict V → Type 0
  IsAscending [] = Unit
  IsAscending ((key, value) ∷ rest) = IsAbove key rest × IsAscending rest

  pub IsAbove-trans :
      (low mid : String) (m : Dict V) → text_ltb low mid ≡ true → IsAbove mid m → IsAbove low m
  IsAbove-trans low mid [] h above = tt
  IsAbove-trans low mid ((key, value) ∷ rest) h (first, others) =
      (text_ltb_trans low mid key h first, IsAbove-trans low mid rest h others)

  pub lookup-above : (low : String) (m : Dict V) → IsAbove low m → lookup low m ≡ none
  unfolding lookup
  lookup-above low [] above = refl
  lookup-above low ((key, value) ∷ rest) (first, others) =
      ground (arith, lookup-above low rest others, str_eq_iff key low, text_ltb_irrefl low)

  length-insert_sorted :
      (key : String) (value : V) (m : Dict V) → length (insert_sorted key value m) ≡ length m + 1
  unfolding insert_sorted
  length-insert_sorted key value [] = omega arith
  length-insert_sorted key value ((name, held) ∷ rest) =
      ground (arith, length-insert_sorted key value rest)

  pub length-sort_by_key : (m : Dict V) → length (sort_by_key m) ≡ length m
  unfolding sort_by_key
  length-sort_by_key [] = refl
  length-sort_by_key ((key, value) ∷ rest) =
      omega (arith, length-sort_by_key rest, length-insert_sorted key value (sort_by_key rest))

  insert_sorted-IsAbove :
      (low key : String) (value : V) (m : Dict V)
      → text_ltb low key ≡ true
      → IsAbove low m
      → IsAbove low (insert_sorted key value m)
  unfolding insert_sorted
  insert_sorted-IsAbove low key value [] h above = (h, tt)
  insert_sorted-IsAbove low key value ((name, held) ∷ rest) h (first, others) =
      ground (arith, insert_sorted-IsAbove low key value rest h others)

  lookup-insert_sorted :
      (key other : String) (value : V) (m : Dict V)
      → lookup key m ≡ none
      → lookup other (insert_sorted key value m)
        ≡ (if str_eq key other then some value else lookup other m)
  unfolding lookup insert_sorted
  lookup-insert_sorted key other value [] h = refl
  lookup-insert_sorted key other value ((name, held) ∷ rest) h = ground (
    arith,
    lookup-insert_sorted key other value rest,
    str_eq_iff key other,
    str_eq_iff name key,
    str_eq_iff name other,
  )

  insert_sorted-IsAscending :
      (key : String) (value : V) (m : Dict V)
      → lookup key m ≡ none
      → IsAscending m
      → IsAscending (insert_sorted key value m)
  unfolding lookup insert_sorted
  insert_sorted-IsAscending key value [] h up = (tt, tt)
  insert_sorted-IsAscending key value ((name, held) ∷ rest) h (above, up) = ground (
    arith,
    insert_sorted-IsAscending key value rest,
    insert_sorted-IsAbove name key value rest,
    IsAbove-trans key name rest,
    text_ltb_total key name,
    str_eq_iff name key,
  )

  -- Sorting keeps what is found.
  pub lookup-sort_by_key :
      (m : Dict V) (k : String) → HasDistinctKeys m → lookup k (sort_by_key m) ≡ lookup k m
  unfolding lookup sort_by_key
  lookup-sort_by_key [] k h = refl
  lookup-sort_by_key ((key, value) ∷ rest) k (fresh, h) = ground (
    arith,
    lookup-sort_by_key rest k h,
    lookup-sort_by_key rest key h,
    lookup-insert_sorted key k value (sort_by_key rest),
  )

  pub sort_by_key-IsAscending : (m : Dict V) → HasDistinctKeys m → IsAscending (sort_by_key m)
  unfolding sort_by_key
  sort_by_key-IsAscending [] h = tt
  sort_by_key-IsAscending ((key, value) ∷ rest) (fresh, h) =
      insert_sorted-IsAscending key value (sort_by_key rest)
        (ground (arith, lookup-sort_by_key rest key h)) (sort_by_key-IsAscending rest h)

  heads_agree :
      (key name : String) (value held : V) (m n : Dict V)
      → IsAbove key m
      → IsAbove name n
      → ((k : String) → lookup k ((key, value) ∷ m) ≡ lookup k ((name, held) ∷ n))
      → key ≡ name
  unfolding lookup
  heads_agree key name value held m n above above' same = ground (
    arith,
    same key,
    same name,
    text_ltb_total key name,
    IsAbove-trans key name n,
    IsAbove-trans name key m,
    lookup-above key n,
    lookup-above name m,
    str_eq_iff name key,
    str_eq_iff key name,
    str_eq_iff key key,
    str_eq_iff name name,
  )

  -- An ascending list is determined by what is found in it.
  pub ascending_unique :
      (m n : Dict V)
      → IsAscending m
      → IsAscending n
      → ((k : String) → lookup k m ≡ lookup k n)
      → m ≡ n
  unfolding lookup
  ascending_unique [] [] up up' same = refl
  ascending_unique [] ((key, value) ∷ n) up up' same = ground (arith, same key, str_eq_iff key key)
  ascending_unique ((key, value) ∷ m) [] up up' same = ground (arith, same key, str_eq_iff key key)
  ascending_unique ((key, value) ∷ m) ((name, held) ∷ n) (above, up) (above', up') same =
      let heads = heads_agree key name value held m n above above' same in
      let tails = ascending_unique m n up up' (λ k. ground (
        arith,
        heads,
        same k,
        lookup-above key m,
        lookup-above name n,
        str_eq_iff key k,
        str_eq_iff name k,
      )) in
      ground (arith, heads, tails, same key, str_eq_iff key key, str_eq_iff name key)

  pub insert-HasDistinctKeys :
      (key : String) (value : V) (m : Dict V)
      → HasDistinctKeys m
      → HasDistinctKeys (insert key value m)
  unfolding lookup insert
  insert-HasDistinctKeys key value [] h = (refl, tt)
  insert-HasDistinctKeys key value ((name, held) ∷ rest) (fresh, h) = ground (
    arith,
    insert-HasDistinctKeys key value rest h,
    lookup-insert key name value rest,
    str_eq_iff name key,
    str_eq_iff key name,
  )

  pub erase-HasDistinctKeys :
      (key : String) (m : Dict V) → HasDistinctKeys m → HasDistinctKeys (erase key m)
  unfolding lookup erase
  erase-HasDistinctKeys key [] h = tt
  erase-HasDistinctKeys key ((name, held) ∷ rest) (fresh, h) = ground (
    arith,
    erase-HasDistinctKeys key rest h,
    lookup-erase key name rest,
    str_eq_iff name key,
    str_eq_iff key name,
  )
