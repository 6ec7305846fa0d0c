-- ===== src/HmasTypes/RoundTrip.antt =====
-- Names and JSON forms are read back as they were written.
use agamemnon.Base.{◌≡◌, refl, List, [], ◌∷◌, map, Option, some}
use agamemnon.Base.Dict.{lookup}
use agamemnon.Json.{JsonLibrary, find-object, value_string-object, value_integer-object}
use agamemnon.HmasTypes.{
  HmasLayer, TaskState, EscalationRecord, HmasTask, hmas_layer_to_string, task_state_to_string,
  hmas_layer_from_string, task_state_from_string, l0_chief_architect, pending,
}
use agamemnon.HmasTypes.Codec.{
  escalation_record_to_json, escalation_record_from_json, hmas_task_to_json, hmas_task_from_json,
  read_all, read_array,
}

-- Each layer is read back from its name.
pub layer_round_trip : (l : HmasLayer) → hmas_layer_from_string (hmas_layer_to_string l) ≡ some l
unfolding hmas_layer_from_string hmas_layer_to_string
layer_round_trip l0_chief_architect = refl
layer_round_trip _ = refl

-- Each state is read back from its name.
pub state_round_trip : (s : TaskState) → task_state_from_string (task_state_to_string s) ≡ some s
unfolding task_state_from_string task_state_to_string
state_round_trip pending = refl
state_round_trip _ = refl

module _ (J : JsonLibrary) where
  open J use {Json, string, array, as_string_string, as_integer_integer, elements_array}

  -- Reading a list back, where each element is read back.
  read_all-map {ℓ} :
      {A : Type ℓ} (write : A → Json) (read : Json → Option A)
      → ((a : A) → read (write a) ≡ some a)
      → (xs : List A) → read_all J read (map write xs) ≡ some xs
  unfolding read_all
  read_all-map write read h [] = refl
  read_all-map write read h (x ∷ xs) = rw (h x, read_all-map write read h xs)

  read_array-map {ℓ} :
      {A : Type ℓ} (write : A → Json) (read : Json → Option A)
      → ((a : A) → read (write a) ≡ some a)
      → (xs : List A) → read_array J read (some (array (map write xs))) ≡ some xs
  unfolding read_array
  read_array-map write read h xs = rw (elements_array, read_array) (read_all-map write read h xs)

  escalation_round_trip :
      (r : EscalationRecord)
      → escalation_record_from_json J (escalation_record_to_json J r) ≡ some r
  unfolding escalation_record_from_json escalation_record_to_json lookup
  escalation_round_trip r = simp (value_string-object, as_string_string, layer_round_trip)

  -- A task is read back from its JSON form as it was, every field included, whatever texts it holds.
  pub task_round_trip : (t : HmasTask) → hmas_task_from_json J (hmas_task_to_json J t) ≡ some t
  unfolding hmas_task_from_json hmas_task_to_json lookup
  task_round_trip t = simp (
    value_string-object,
    value_integer-object,
    find-object,
    as_string_string,
    as_integer_integer,
    layer_round_trip,
    state_round_trip,
    read_array-map string J.as_string as_string_string,
    read_array-map (escalation_record_to_json J) (escalation_record_from_json J)
        escalation_round_trip,
  )
