-- ===== src/Store/ByBrief.antt =====
-- hmas_tasks_by_brief_ of src/store.cpp: the ids of each brief's tasks.
pub mod Counts
use agamemnon.Base.{String, Bool, true, false, List, [], ◌∷◌, ◌++◌, str_eq, if◌then◌else◌}
use agamemnon.Base.Dict.{Dict, lookup, insert, erase}
use agamemnon.HmasTypes.BriefCodec.{bucket, push_entry}

abbrev pub is_empty : String → Bool
is_empty s = str_eq s ""

-- std::remove and erase: all occurrences go.
unfoldable pub remove_all : String → List String → List String
remove_all x [] = []
remove_all x (y ∷ ys) = let rest = remove_all x ys in if str_eq y x then rest else y ∷ rest

-- if (!brief_id.empty()) hmas_tasks_by_brief_[brief_id].push_back(id)
abbrev pub add_to_brief : String → String → Dict (List String) → Dict (List String)
add_to_brief brief_id id index = if is_empty brief_id then index else push_entry brief_id id index

abbrev pub is_nil : List String → Bool
is_nil [] = true
is_nil (x ∷ xs) = false

abbrev pub put_bucket : String → List String → Dict (List String) → Dict (List String)
put_bucket b ids index = if is_nil ids then erase b index else insert b ids index

-- The id leaves its old brief's bucket, and an empty bucket goes.
abbrev pub remove_from_brief : String → String → Dict (List String) → Dict (List String)
remove_from_brief brief_id id index =
    if is_empty brief_id
    then index
    else put_bucket brief_id (remove_all id (bucket (lookup brief_id index))) index

-- hmas_tasks_by_brief_ after a task with `id` changes its brief from `old` to `new`.
unfoldable pub move_brief : String → String → String → Dict (List String) → Dict (List String)
unfolding remove_all push_entry
move_brief id old new index =
    if str_eq old new then index else add_to_brief new id (remove_from_brief old id index)
