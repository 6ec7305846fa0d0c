-- ===== src/TaskAgent/Command.antt =====
-- The commands that a task agent may run, and the command line that it hands to bash (validateCommand
-- and executeBash of src/agents/task_agent.cpp). A text is read as its characters; the code tests
-- bytes, and every character that it tests for is one byte.
use Prim.Native.Char.{code}
use Prim.Native.String.{◌++◌ as append_text}
use agamemnon.Base.{
  ℕ, ◌+◌, ◌-◌, ◌*◌, ◌^◌, String, Bool, true, false, ◌&&◌, ◌||◌, not, List, [], ◌∷◌, Option, none,
  some, leb, ltb, ◌==◌, if◌then◌else◌, length, drop,
}
use agamemnon.PlanningBreakdown.ImplRef.{codes}
use agamemnon.Store.ByBrief.{is_empty}

-- ALLOWED_COMMANDS
abbrev pub allowed_commands : List String
allowed_commands =
    "echo" ∷ "cat" ∷ "ls" ∷ "pwd" ∷ "date" ∷ "whoami" ∷ "uname" ∷ "head" ∷ "tail" ∷ "wc" ∷ "grep"
    ∷ "find" ∷ "bc" ∷ []

abbrev pub among : List ℕ → ℕ → Bool
among [] c = false
among (a ∷ as') c = a == c || among as' c

abbrev pub all_among : (ℕ → Bool) → List ℕ → Bool
all_among test [] = true
all_among test (c ∷ cs) = test c && all_among test cs

abbrev pub none_among : List ℕ → List ℕ → Bool
none_among bad [] = true
none_among bad (c ∷ cs) = not (among bad c) && none_among bad cs

-- What stands behind a prefix.
abbrev pub behind : List ℕ → List ℕ → Option (List ℕ)
behind [] cs = some cs
behind (p ∷ ps) [] = none
behind (p ∷ ps) (c ∷ cs) = let rest = behind ps cs in if p == c then rest else none

abbrev pub is_digit : ℕ → Bool
is_digit c = leb b'0' c && leb c b'9'

abbrev pub is_letter : ℕ → Bool
is_letter c = (leb b'a' c && leb c b'z') || (leb b'A' c && leb c b'Z')

-- [-+*/0-9 ()]
abbrev pub is_arithmetic : ℕ → Bool
is_arithmetic c = is_digit c || among (codes "-+*/ ()") c

-- Characters of the class, and the two parentheses that end the text; those are of the class too.
abbrev pub closes : List ℕ → Bool
closes [] = false
closes (a ∷ []) = false
closes (a ∷ b ∷ []) = a == b')' && b == b')'
closes (a ∷ b ∷ c ∷ cs) = is_arithmetic a && closes (b ∷ c ∷ cs)

-- [-+*/0-9 ()]+\)\)
abbrev pub is_expression : List ℕ → Bool
is_expression [] = false
is_expression (a ∷ cs) = is_arithmetic a && closes cs

-- [-a-zA-Z0-9 .,!?'"]
abbrev pub is_plain : ℕ → Bool
is_plain c = is_digit c || is_letter c || among (39 ∷ codes "- .,!?\"") c

abbrev pub is_phrase : List ℕ → Bool
is_phrase [] = false
is_phrase (c ∷ cs) = all_among is_plain (c ∷ cs)

-- Digits: their value, their number, and what stands behind them.
abbrev pub read_digits : ℕ → ℕ → List ℕ → ℕ × ℕ × List ℕ
read_digits value count [] = (value, count, [])
read_digits value count (c ∷ cs) =
    let rest = read_digits (value * 10 + (c - b'0')) (count + 1) cs in
    if is_digit c then rest else (value, count, c ∷ cs)

-- std::stod has an exception for a decimal m / 10 ^ k beyond the doubles or below the normal ones.
abbrev pub is_out_of_range : ℕ → ℕ → Bool
is_out_of_range m k =
    leb ((2 ^ 1024 - 2 ^ 970) * 10 ^ k) m || (ltb 0 m && ltb (m * 2 ^ 1022) (10 ^ k))

-- stod(text) > 10.0: the largest decimal that is rounded to the double 10 is 10 + 2 ^ -50.
abbrev exceeds_limit : ℕ → ℕ → Bool
exceeds_limit m k = ltb ((10 * 2 ^ 50 + 1) * 10 ^ k) (m * 2 ^ 50)

-- The text of the exception for a sleep.
abbrev duration_error : ℕ → ℕ → Option String
duration_error m k =
    if is_out_of_range m k
    then some "stod"
    else if exceeds_limit m k
    then some "sleep duration exceeds maximum allowed (10s)"
    else none

-- [0-9]+(?:\.[0-9]+)?
abbrev pub is_fraction : List ℕ → Bool
is_fraction [] = true
is_fraction (c ∷ cs) =
    let (value, count, rest) = read_digits 0 0 cs in
    c == b'.' && ltb 0 count && elim rest [ [] ↦ true | _ ↦ false ]

abbrev pub is_duration : List ℕ → Bool
is_duration cs = let (value, count, rest) = read_digits 0 0 cs in ltb 0 count && is_fraction rest

-- The digits behind the point, if there are any, go on with the number and are counted.
abbrev fraction_error : ℕ → List ℕ → Option String
fraction_error m [] = duration_error m 0
fraction_error m (_ ∷ cs) =
    let (value, count, rest) = read_digits m 0 cs in duration_error value count

abbrev pub sleep_error : List ℕ → Option String
sleep_error cs = let (value, count, rest) = read_digits 0 0 cs in fraction_error value rest

-- isspace
abbrev pub is_space : ℕ → Bool
is_space c = c == 32 || (leb 9 c && leb c 13)

abbrev pub skip_spaces : List ℕ → List ℕ
skip_spaces [] = []
skip_spaces (c ∷ cs) = let rest = skip_spaces cs in if is_space c then rest else c ∷ cs

abbrev pub take_word : List ℕ → List ℕ
take_word [] = []
take_word (c ∷ cs) = let rest = take_word cs in if is_space c then [] else c ∷ rest

abbrev pub same : List ℕ → List ℕ → Bool
same [] [] = true
same (a ∷ as') (b ∷ bs) = a == b && same as' bs
same _ _ = false

abbrev pub is_allowed : List ℕ → List String → Bool
is_allowed w [] = false
is_allowed w (name ∷ names) = same (codes name) w || is_allowed w names

-- No ".." in the text.
abbrev pub no_parent : List ℕ → Bool
no_parent [] = true
no_parent (a ∷ []) = true
no_parent (a ∷ b ∷ cs) = not (a == b'.' && b == b'.') && no_parent (b ∷ cs)

abbrev pub very_dangerous : List ℕ
very_dangerous = codes ";|&`$<>!{}[]"

-- The word that begins the command is allowed, and what stands behind as many characters as it has is
-- free of dangerous characters and of "..".
unfoldable pub is_whitelisted : List ℕ → Bool
is_whitelisted cs =
    let base = take_word (skip_spaces cs) in
    let args = drop (length base) cs in
    is_allowed base allowed_commands && none_among very_dangerous args && no_parent args

abbrev pub matches_behind : String → (List ℕ → Bool) → List ℕ → Bool
matches_behind prefix test cs = elim (behind (codes prefix) cs) [
  | none ↦ false
  | some rest ↦ test rest
]

-- The text of a sleep's duration, if the command is one.
abbrev pub sleep_duration : List ℕ → Option (List ℕ)
sleep_duration cs = elim (behind (codes "sleep ") cs) [
  | none ↦ none
  | some rest ↦ if is_duration rest then some rest else none
]

-- The last resort, with the names of the allowed commands in the order of the hash set.
abbrev pub whitelisted_or_refused : String → String → Option String
whitelisted_or_refused names command =
    if is_whitelisted (codes command)
    then none
    else some (
        append_text "Command does not match any allowed patterns.\nAllowed patterns:\n" (
          append_text "  1. Arithmetic: echo $((expression))\n  2. Simple echo: echo <text>\n" (
            append_text "  3. sleep <N> where N <= 10\n  4. Whitelisted commands: "
              (append_text names (append_text "\nYour command: " command)))))

-- The text of the exception; `none` if the command is accepted.
unfoldable pub validate_command : String → String → Option String
unfolding is_whitelisted
validate_command names command =
    let cs = codes command in
    if is_empty command
    then some "Command cannot be empty"
    else if matches_behind "echo $((" is_expression cs
    then none
    else if matches_behind "echo " is_phrase cs
    then none
    else elim (sleep_duration cs) [
      | some duration ↦ sleep_error duration
      | none ↦ whitelisted_or_refused names command
    ]

-- Quotes are escaped.
unfoldable pub escape : String → String
escape String.[] = ""
escape (String.◌∷◌ c s) =
    let rest = escape s in if code c == 34 then append_text "\\\"" rest else String.◌∷◌ c rest

unfoldable pub bash_command : String → String
unfolding escape
bash_command command = append_text "/bin/bash -c \"" (append_text (escape command) "\"")

-- Trailing white space is removed.
unfoldable pub trim : String → String
trim String.[] = ""
trim (String.◌∷◌ c s) =
    let rest = trim s in if is_empty rest && is_space (code c) then "" else String.◌∷◌ c rest
