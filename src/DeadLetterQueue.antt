-- ===== src/DeadLetterQueue.antt =====
-- include/agamemnon/dead_letter_queue.hpp and src/dead_letter_queue.cpp. Each call holds the mutex
-- throughout, so it is one step. The value of the steady clock that `push` reads is its argument.
pub mod Recent
pub mod Examples
use agamemnon.Base.{
  ℕ, String, Bool, List, [], ◌∷◌, ◌++◌, Option, none, some, leb, if◌then◌else◌, length,
}
use agamemnon.Base.Int.{ℤ}

pub record Entry : Type 0 where
  pub subject : String
  pub payload : String
  pub attempts : ℤ
  pub timestamp_ms : ℤ
  pub level : String
  pub service : String

-- Oldest first.
pub record DeadLetterQueue : Type 0 where
  pub capacity : ℕ
  pub queue : List Entry

unfoldable pub init : ℕ → DeadLetterQueue
init capacity = record { capacity = capacity; queue = [] }

-- `none` is the undefined behaviour of pop_front on an empty deque.
abbrev pop_front : List Entry → Option (List Entry)
pop_front [] = none
pop_front (e ∷ es) = some es

abbrev push_back : Entry → DeadLetterQueue → Option (List Entry) → Option DeadLetterQueue
push_back e q none = none
push_back e q (some es) = some (record q { queue = es ++ (e ∷ []) })

unfoldable pub push : Entry → DeadLetterQueue → Option DeadLetterQueue
push e q =
    push_back e q (if leb q.capacity (length q.queue) then pop_front q.queue else some q.queue)

unfoldable pub drain : DeadLetterQueue → DeadLetterQueue × List Entry
drain q = (record q { queue = [] }, q.queue)

unfoldable pub clear : DeadLetterQueue → DeadLetterQueue
clear q = record q { queue = [] }

unfoldable pub size : DeadLetterQueue → ℕ
size q = length q.queue

abbrev is_nil : List Entry → Bool
is_nil [] = Bool.true
is_nil (e ∷ es) = Bool.false

unfoldable pub empty : DeadLetterQueue → Bool
empty q = is_nil q.queue

-- Several entries, in turn.
unfoldable pub push_all : List Entry → DeadLetterQueue → Option DeadLetterQueue
push_all [] q = some q
push_all (e ∷ es) q = elim (push e q) [ none ↦ none | some q' ↦ push_all es q' ]
