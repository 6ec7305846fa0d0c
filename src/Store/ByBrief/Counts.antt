-- ===== src/Store/ByBrief/Counts.antt =====
-- How often an id is listed under a brief, after each change of the index.
use agamemnon.Base.{
  ℕ, ◌+◌, String, ◌≡◌, not, ◌&&◌, List, [], ◌∷◌, ◌++◌, arith, str_eq, str_eq_iff, if◌then◌else◌,
}
use agamemnon.Base.Dict.{Dict, lookup, lookup-insert, lookup-erase}
use agamemnon.HmasTypes.BriefCodec.{bucket, push_entry}
use agamemnon.Store.ByBrief.{
  is_empty, remove_all, add_to_brief, put_bucket, remove_from_brief, move_brief,
}

-- How often a text stands in a list.
abbrev pub count : String → List String → ℕ
count k [] = 0
count k (x ∷ xs) = let rest = count k xs in if str_eq x k then rest + 1 else rest

-- How often the id `k` stands in the bucket of the brief `b`.
abbrev pub listed : String → String → Dict (List String) → ℕ
listed b k index = count k (bucket (lookup b index))

count-push :
    (k x : String) (xs : List String)
    → count k (xs ++ (x ∷ [])) ≡ count k xs + (if str_eq x k then 1 else 0)
count-push k x [] = ground arith
count-push k x (y ∷ ys) = ground (arith, count-push k x ys)

count-remove_all :
    (k x : String) (xs : List String)
    → count k (remove_all x xs) ≡ (if str_eq x k then 0 else count k xs)
unfolding remove_all
count-remove_all k x [] = ground arith
count-remove_all k x (y ∷ ys) =
    ground (arith, count-remove_all k x ys, str_eq_iff y x, str_eq_iff x k, str_eq_iff y k)

pub listed-add :
    (b k c x : String) (index : Dict (List String))
    → listed b k (add_to_brief c x index)
      ≡ listed b k index + (if not (is_empty c) && (str_eq c b && str_eq x k) then 1 else 0)
unfolding push_entry
listed-add b k c x index = ground (
  arith,
  lookup-insert c b (bucket (lookup c index) ++ (x ∷ [])) index,
  count-push k x (bucket (lookup c index)),
  str_eq_iff c b,
)

listed-put :
    (b k c : String) (ids : List String) (index : Dict (List String))
    → listed b k (put_bucket c ids index) ≡ (if str_eq c b then count k ids else listed b k index)
listed-put b k c [] index = ground (arith, lookup-erase c b index)
listed-put b k c (x ∷ ids) index = ground (arith, lookup-insert c b (x ∷ ids) index)

listed-remove :
    (b k c x : String) (index : Dict (List String))
    → listed b k (remove_from_brief c x index)
      ≡ (if not (is_empty c) && (str_eq c b && str_eq x k) then 0 else listed b k index)
listed-remove b k c x index = ground (
  arith,
  listed-put b k c (remove_all x (bucket (lookup c index))) index,
  count-remove_all k x (bucket (lookup c index)),
  str_eq_iff c b,
)

-- A task with the id `x` that moves from the brief `old` to `new` loses its places under `old` and
-- gains one under `new`.
pub listed-move :
    (b k x old new : String) (index : Dict (List String))
    → listed b k (move_brief x old new index) ≡ (
        if str_eq old new
        then listed b k index
        else (if not (is_empty old) && (str_eq old b && str_eq x k) then 0 else listed b k index)
          + (if not (is_empty new) && (str_eq new b && str_eq x k) then 1 else 0))
unfolding move_brief
listed-move b k x old new index =
    ground
      (arith, listed-add b k new x (remove_from_brief old x index), listed-remove b k old x index)
