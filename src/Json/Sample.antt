-- ===== src/Json/Sample.antt =====
-- A concrete JSON library, which meets the assumptions of the interface. Its texts are as simple
-- as these allow: every text parses, as an object that names it under "task_id" and "id".
use agamemnon.Base.{String, Bool, true, false, arith, ◌≡◌, refl, List, [], ◌∷◌, Option, none, some}
use agamemnon.Base.Dict.{Dict, lookup, insert}
use agamemnon.Base.Int.{ℤ}
use agamemnon.Json.{JsonLibrary}

mutual
  pub data Value : Type 0 where
    obj : Fields → Value
    arr : Items → Value
    int : ℤ → Value
    text : String → Value
    bool : Bool → Value
    null : Value

  pub data Fields : Type 0 where
    field : String → Value → Fields → Fields
    end : Fields

  pub data Items : Type 0 where
    cons : Value → Items → Items
    nil : Items

abbrev to_items : List Value → Items
to_items [] = nil
to_items (x ∷ xs) = cons x (to_items xs)

abbrev from_items : Items → List Value
from_items nil = []
from_items (cons x xs) = x ∷ from_items xs

abbrev to_fields : Dict Value → Fields
to_fields [] = end
to_fields ((k, v) ∷ d) = field k v (to_fields d)

abbrev from_fields : Fields → Dict Value
from_fields end = []
from_fields (field k v fs) = (k, v) ∷ from_fields fs

from_items-to_items : (xs : List Value) → from_items (to_items xs) ≡ xs
from_items-to_items [] = refl
from_items-to_items (x ∷ xs) = cc (from_items-to_items xs)

from_fields-to_fields : (d : Dict Value) → from_fields (to_fields d) ≡ d
from_fields-to_fields [] = refl
from_fields-to_fields ((k, v) ∷ d) = cc (from_fields-to_fields d)

abbrev set_member : Value → String → Value → Value
set_member (obj fs) k v = obj (to_fields (insert k v (from_fields fs)))
set_member null k v = obj (field k v end)
set_member j k v = j

abbrev members_of : Value → Option (Dict Value)
members_of (obj fs) = some (from_fields fs)
members_of _ = none

abbrev text_of : Value → Option String
text_of (text s) = some s
text_of _ = none

abbrev int_of : Value → Option ℤ
int_of (int n) = some n
int_of _ = none

abbrev null_of : Value → Bool
null_of null = true
null_of _ = false

abbrev elements_of : Value → Option (List Value)
elements_of (arr xs) = some (from_items xs)
elements_of _ = none

pub members_of-object :
    (d : Dict Value)
    → (m : Dict Value) × (members_of (obj (to_fields d)) ≡ some m)
      × ((k : String) → lookup k m ≡ lookup k d)
members_of-object d = (d, cc (from_fields-to_fields d), λ k. refl)

pub set_member-object :
    (d : Dict Value) (k : String) (v : Value)
    → set_member (obj (to_fields d)) k v ≡ obj (to_fields (insert k v d))
set_member-object d k v = rw (from_fields-to_fields d)

pub set_member-members :
    (j : Value) (d : Dict Value) (k : String) (v : Value)
    → members_of j ≡ some d
    → (m : Dict Value) × (members_of (set_member j k v) ≡ some m)
      × ((x : String) → lookup x m ≡ lookup x (insert k v d))
set_member-members (obj fs) d k v h =
    (insert k v d, ground (arith, from_fields-to_fields (insert k v d)), λ x. refl)
set_member-members (arr xs) d k v h = absurd (cc)
set_member-members (int n) d k v h = absurd (cc)
set_member-members (text t) d k v h = absurd (cc)
set_member-members (bool b) d k v h = absurd (cc)
set_member-members null d k v h = absurd (cc)

pub elements_of-array : (xs : List Value) → elements_of (arr (to_items xs)) ≡ some xs
elements_of-array xs = cc (from_items-to_items xs)

abbrev pub sample : JsonLibrary
sample = record {
  Json = Value;
  null = null;
  string = text;
  integer = int;
  boolean = bool;
  array = λ xs. arr (to_items xs);
  object = λ d. obj (to_fields d);
  set = set_member;
  members = members_of;
  as_string = text_of;
  as_integer = int_of;
  is_null = null_of;
  elements = elements_of;
  dump = λ j. "json";
  dump_indented = λ j. "json";
  parse = λ s. some (obj (field "task_id" (text s) (field "id" (text s) end)));
  members_object = members_of-object;
  set_object = set_member-object;
  members_set = set_member-members;
  as_string_string = λ s. refl;
  as_integer_integer = λ n. refl;
  elements_array = elements_of-array;
}
