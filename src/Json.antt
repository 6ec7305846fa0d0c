-- ===== src/Json.antt =====
-- The JSON library that the program uses (nlohmann/json, which is not part of the repository), as
-- an interface: the operations that the code calls and what it relies on of them.
pub mod Sample
use agamemnon.Base.{
  String, ◌≡◌, refl, Bool, true, false, List, [], ◌∷◌, Option, none, some, arith, if◌then◌else◌,
  str_eq, str_eq_iff, Option-cases, inl, inr,
}
use agamemnon.Base.Dict.{Dict, lookup, insert, lookup-insert}
use agamemnon.Base.Int.{ℤ}

pub record JsonLibrary : Type 1 where
  pub Json : Type 0
  pub null : Json
  pub string : String → Json
  pub integer : ℤ → Json
  pub boolean : Bool → Json
  pub array : List Json → Json
  -- The object that has these members; of two with one key, the first.
  pub object : Dict Json → Json
  -- j[k] = v
  pub set : Json → String → Json → Json
  -- The members of an object, in the order of items(); `none` if it is no object.
  pub members : Json → Option (Dict Json)
  -- get<std::string>(), get<int>(), and the elements of an array; `none` is a type error.
  pub as_string : Json → Option String
  pub as_integer : Json → Option ℤ
  pub is_null : Json → Bool
  pub elements : Json → Option (List Json)
  -- dump(), dump(2), and parse(), where `none` is a parse error.
  pub dump : Json → String
  pub dump_indented : Json → String
  pub parse : String → Option Json
  -- An object has the members that it was built from.
  pub members_object :
      (d : Dict Json)
      → (m : Dict Json) × (members (object d) ≡ some m) × ((k : String) → lookup k m ≡ lookup k d)
  pub set_object :
      (d : Dict Json) (k : String) (v : Json) → set (object d) k v ≡ object (insert k v d)
  -- Writing a member of an object changes that member only.
  pub members_set :
      (j : Json) (d : Dict Json) (k : String) (v : Json)
      → members j ≡ some d
      → (m : Dict Json) × (members (set j k v) ≡ some m)
        × ((x : String) → lookup x m ≡ lookup x (insert k v d))
  pub as_string_string : (s : String) → as_string (string s) ≡ some s
  pub as_integer_integer : (n : ℤ) → as_integer (integer n) ≡ some n
  pub elements_array : (xs : List Json) → elements (array xs) ≡ some xs

-- A conversion that may throw, and the rest that runs if it does not.
infixl 5 ◌>>=◌
abbrev pub ◌>>=◌ {ℓ κ} : {A : Type ℓ} {B : Type κ} → Option A → (A → Option B) → Option B
none >>= f = none
some a >>= f = f a

module _ (J : JsonLibrary) where
  open J use {Json, object, members, set, members_object, members_set, as_string, as_integer}

  -- The member of that key, as j.contains(k) and j[k] read it.
  unfoldable pub find : Json → String → Option Json
  find j k = members j >>= lookup k

  abbrev present {ℓ} : {A : Type ℓ} → Option Json → (Json → Option A) → A → Option A
  present none read default = some default
  present (some v) read default = read v

  -- j.value(k, default) at a text and at an int: a type error if `j` is no object, or if the
  -- member is there and has another type.
  unfoldable pub value_string : Json → String → String → Option String
  value_string j k default = members j >>= λ m. present (lookup k m) as_string default

  unfoldable pub value_integer : Json → String → ℤ → Option ℤ
  value_integer j k default = members j >>= λ m. present (lookup k m) as_integer default

  pub find-object : (d : Dict Json) (k : String) → find (object d) k ≡ lookup k d
  unfolding find
  find-object d k = let (m, e, same) = members_object d in rw (e, ◌>>=◌) (same k)

  pub value_string-object :
      (d : Dict Json) (k default : String)
      → value_string (object d) k default ≡ present (lookup k d) as_string default
  unfolding value_string
  value_string-object d k default =
      let (m, e, same) = members_object d in rw (e, ◌>>=◌) (rw (same k))

  pub value_integer-object :
      (d : Dict Json) (k : String) (default : ℤ)
      → value_integer (object d) k default ≡ present (lookup k d) as_integer default
  unfolding value_integer
  value_integer-object d k default =
      let (m, e, same) = members_object d in rw (e, ◌>>=◌) (rw (same k))

  -- j.value(k, default) at a json: a type error if `j` is no object.
  unfoldable pub value_json : Json → String → Json → Option Json
  value_json j k default = members j >>= λ m. present (lookup k m) some default

  -- The member as a text; `none` also where it has another type.
  unfoldable pub text_at : Json → String → Option String
  unfolding find
  text_at j k = find j k >>= as_string

  -- j[k] == "...", of a value that may be no text.
  abbrev pub is_text : Json → String → Bool
  is_text j t = elim (as_string j) [ none ↦ false | some s ↦ str_eq s t ]

  abbrev pub IsObject : Json → Type 0
  IsObject j = (d : Dict Json) × (members j ≡ some d)

  pub find-set :
      (j : Json) (k : String) (v : Json) (x : String)
      → IsObject j
      → find (set j k v) x ≡ (if str_eq k x then some v else find j x)
  unfolding find
  find-set j k v x (d, e) =
      let (m, e', same) = members_set j d k v e in
      ground (arith, e, e', same x, lookup-insert k x v d)

  pub set-IsObject : (j : Json) (k : String) (v : Json) → IsObject j → IsObject (set j k v)
  set-IsObject j k v (d, e) = let (m, e', same) = members_set j d k v e in (m, e')

  pub find-IsObject : (j : Json) (k : String) {v : Json} → find j k ≡ some v → IsObject j
  unfolding find
  find-IsObject j k h = elim (Option-cases (members j)) [
    | inl absent ↦ ground (arith, absent)
    | inr (d, e) ↦ (d, e)
  ]

  pub object-IsObject : (d : Dict Json) → IsObject (object d)
  object-IsObject d = let (m, e, same) = members_object d in (m, e)

  -- The member that was written is read back as a text.
  pub value_string-set :
      (j : Json) (k s default : String)
      → IsObject j
      → value_string (set j k (J.string s)) k default ≡ some s
  unfolding value_string
  value_string-set j k s default (d, e) =
      let (m, e', same) = members_set j d k (J.string s) e in
      ground
        (arith, e', same k, lookup-insert k k (J.string s) d, str_eq_iff k k, J.as_string_string s)
