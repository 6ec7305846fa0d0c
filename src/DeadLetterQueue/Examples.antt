-- ===== src/DeadLetterQueue/Examples.antt =====
-- The queue at concrete entries.
use agamemnon.Base.{String, ◌≡◌, ◌≤◌, refl, List, [], ◌∷◌, some}
use agamemnon.Base.Int.{pos}
use agamemnon.DeadLetterQueue.{Entry, DeadLetterQueue, init, push_all, push, drain, size}
use agamemnon.DeadLetterQueue.Recent.{last_entries, push_all-drain}

abbrev entry : String → Entry
entry s = record {
  subject = s;
  payload = "{}";
  attempts = pos 3;
  timestamp_ms = pos 10;
  level = "";
  service = "";
}

abbrev three : List Entry
three = entry "a" ∷ entry "b" ∷ entry "c" ∷ []

-- The oldest of three goes from a queue that holds two.
oldest_goes :
    push_all three (init 2) ≡ some (record { capacity = 2; queue = entry "b" ∷ entry "c" ∷ [] })
unfolding push_all push init
oldest_goes = refl

push_all-drain_example :
    (q : DeadLetterQueue) × (push_all three (init 2) ≡ some q)
    × ((drain q).1 ≡ last_entries 2 three)
    × (size (drain q).0 ≡ 0)
    × (size q ≤ 2)
push_all-drain_example = push_all-drain 1 three
