-- ===== src/TaskAgent/Safety.antt =====
-- What the characters of an accepted command are.
use agamemnon.Base.{
  ℕ, ◌≡◌, ◌≢◌, refl, sym, ap, ◌∙◌, subst, String, Bool, true, false, ◌&&◌, not, List, [], ◌∷◌, ◌++◌,
  Option, none, some, ◌⊎◌, inl, inr, ◌==◌, ltb, ==_iff, if◌then◌else◌, length, drop, arith,
}
use agamemnon.PlanningBreakdown.ImplRef.{codes}
use agamemnon.Store.ByBrief.{is_empty}
use agamemnon.TaskAgent.Command.{
  among, all_among, none_among, behind, closes, is_expression, is_arithmetic, is_plain, is_phrase,
  read_digits, is_duration, is_fraction, is_whitelisted, matches_behind, sleep_duration,
  validate_command, whitelisted_or_refused, very_dangerous, no_parent, is_allowed, allowed_commands,
  sleep_error,
}
use agamemnon.TaskAgent.Characters.{
  false≢true, both, and_true, is_true, passes-among, behind-append, base, all_among-none_among,
  none_among-append, digits-none_among, whitelisted-none_among,
}

parenthesis-arithmetic : (a : ℕ) → (a == b')') ≡ true → is_arithmetic a ≡ true
parenthesis-arithmetic a h = subst (λ c. is_arithmetic c ≡ true) (sym ((==_iff a b')').0 h)) refl

closes-arithmetic : (cs : List ℕ) → closes cs ≡ true → all_among is_arithmetic cs ≡ true
closes-arithmetic [] h = refl
closes-arithmetic (a ∷ []) h = absurd (false≢true h)
closes-arithmetic (a ∷ b ∷ []) h =
    let (p, q) = both (a == b')') (b == b')') h in
    and_true (parenthesis-arithmetic a p) (and_true (parenthesis-arithmetic b q) refl)
closes-arithmetic (a ∷ b ∷ c ∷ cs) h =
    let (p, q) = both (is_arithmetic a) (closes (b ∷ c ∷ cs)) h in
    and_true p (closes-arithmetic (b ∷ c ∷ cs) q)

-- Characters by which a shell joins, pipes, redirects, substitutes or matches; the newline and the
-- parentheses are not among them.
abbrev pub hazards : List ℕ
hazards = codes ";|&`$<>{}[]"

-- Those, the newline and the parentheses.
abbrev pub separators : List ℕ
separators = 10 ∷ b'(' ∷ b')' ∷ hazards

not_dangerous-none_among :
    (cs : List ℕ) → none_among very_dangerous cs ≡ true → none_among hazards cs ≡ true
not_dangerous-none_among [] h = refl
not_dangerous-none_among (c ∷ cs) h =
    let (p, q) = both (not (among very_dangerous c)) (none_among very_dangerous cs) h in
    and_true (ap not (passes-among (λ c. not (among very_dangerous c)) hazards c refl p))
      (not_dangerous-none_among cs q)

-- An arithmetic command: `echo $((` and digits, operators, spaces and parentheses.
abbrev pub IsArithmetic : String → Type 0
IsArithmetic command =
    (body : List ℕ) × (codes command ≡ codes "echo $((" ++ body)
    × (all_among is_arithmetic body ≡ true)

expression-arithmetic : (cs : List ℕ) → is_expression cs ≡ true → all_among is_arithmetic cs ≡ true
expression-arithmetic [] h = refl
expression-arithmetic (a ∷ cs) h =
    let (p, q) = both (is_arithmetic a) (closes cs) h in and_true p (closes-arithmetic cs q)

phrase-none_among : (cs : List ℕ) → is_phrase cs ≡ true → none_among separators cs ≡ true
phrase-none_among [] h = refl
phrase-none_among (c ∷ cs) h = all_among-none_among separators is_plain (c ∷ cs) refl h

matches-behind :
    (prefix : String) (test : List ℕ → Bool) (cs : List ℕ)
    → matches_behind prefix test cs ≡ true
    → (rest : List ℕ) × (cs ≡ codes prefix ++ rest) × (test rest ≡ true)
matches-behind prefix test cs h = found (behind (codes prefix) cs) refl h
  where
    found :
        (o : Option (List ℕ))
        → behind (codes prefix) cs ≡ o
        → elim o [ none ↦ false | some rest ↦ test rest ] ≡ true
        → (rest : List ℕ) × (cs ≡ codes prefix ++ rest) × (test rest ≡ true)
    found none e h = absurd (false≢true h)
    found (some rest) e h = (rest, behind-append (codes prefix) cs rest e, h)

-- What is left of a text that has been read in full is nothing.
ended : (cs : List ℕ) → elim cs [ [] ↦ true | _ ↦ false ] ≡ true → none_among separators cs ≡ true
ended [] h = refl
ended (c ∷ cs) h = absurd (false≢true h)

fraction-none_among : (cs : List ℕ) → is_fraction cs ≡ true → none_among separators cs ≡ true
fraction-none_among [] h = refl
fraction-none_among (c ∷ cs) h =
    let (value, count, rest) = read_digits 0 0 cs in
    let (first, end) = both (c == b'.' && ltb 0 count) (elim rest [ [] ↦ true | _ ↦ false ]) h in
    let (point, _) = both (c == b'.') (ltb 0 count) first in
    and_true (subst (λ c. not (among separators c) ≡ true) (sym ((==_iff c b'.').0 point)) refl)
      (digits-none_among separators 0 0 cs refl (ended (read_digits 0 0 cs).2 end))

duration-none_among : (cs : List ℕ) → is_duration cs ≡ true → none_among separators cs ≡ true
duration-none_among cs h =
    let (value, count, rest) = read_digits 0 0 cs in
    digits-none_among separators 0 0 cs refl
      (fraction-none_among (read_digits 0 0 cs).2 (both (ltb 0 count) (is_fraction rest) h).1)

behind-none_among :
    (prefix : String) (test : List ℕ → Bool) (cs : List ℕ)
    → none_among separators (codes prefix) ≡ true
    → ((rest : List ℕ) → test rest ≡ true → none_among separators rest ≡ true)
    → matches_behind prefix test cs ≡ true
    → none_among separators cs ≡ true
behind-none_among prefix test cs clean good h =
    let (rest, whole, passed) = matches-behind prefix test cs h in
    ap (none_among separators) whole
    ∙ none_among-append separators (codes prefix) rest clean (good rest passed)

-- A command whose first word is allowed, and which has none of the hazards.
abbrev pub HasAllowedWord : String → Type 0
HasAllowedWord command =
    (is_allowed (base (codes command)) allowed_commands ≡ true)
    × (none_among hazards (codes command) ≡ true)

is_whitelisted-HasAllowedWord :
    (command : String) → is_whitelisted (codes command) ≡ true → HasAllowedWord command
unfolding is_whitelisted
is_whitelisted-HasAllowedWord command h =
    let cs = codes command in
    let args = drop (length (base cs)) cs in
    let (first, _) =
      both (is_allowed (base cs) allowed_commands && none_among very_dangerous args)
        (no_parent args) h in
    (
      (both (is_allowed (base cs) allowed_commands) (none_among very_dangerous args) first).0,
      whitelisted-none_among hazards cs refl refl (not_dangerous-none_among args) h,
    )

refused_or_whitelisted :
    (names command : String)
    → whitelisted_or_refused names command ≡ none
    → is_whitelisted (codes command) ≡ true
refused_or_whitelisted names command h = ground (arith, h)

no_sleep :
    (o : Option (List ℕ))
    → (elim o as (λ _. Bool) [ none ↦ false | some rest ↦ is_duration rest ]) ≢ true
    → (elim o as (λ _. Option (List ℕ)) [
      | none ↦ none
      | some rest ↦ if is_duration rest then some rest else none
    ])
      ≡ none
no_sleep none h = refl
no_sleep (some rest) h = elim (is_true (is_duration rest)) [
  | yes p ↦ absurd (h p)
  | no p ↦ ground (arith, p)
]

-- The last of four branches, where the others do not apply.
last_branch :
    (a b c : Bool) (text : String) (o : Option String)
    → (if a then some text else if b then none else if c then none else o) ≡ none
    → b ≢ true
    → c ≢ true
    → o ≡ none
last_branch true b c text o h p q = absurd (ground (arith, h))
last_branch false true c text o h p q = absurd (p refl)
last_branch false false true text o h p q = absurd (q refl)
last_branch false false false text o h p q = h

sleep_or_whitelisted :
    (names command : String)
    → elim (sleep_duration (codes command)) as (λ _. Option String) [
      | some duration ↦ sleep_error duration
      | none ↦ whitelisted_or_refused names command
    ]
      ≡ none
    → (none_among separators (codes command) ≡ true) ⊎ HasAllowedWord command
sleep_or_whitelisted names command h =
    elim (is_true (matches_behind "sleep " is_duration (codes command))) [
      | yes p ↦
          inl (behind-none_among "sleep " is_duration (codes command) refl duration-none_among p)
      | no p ↦ inr (
          is_whitelisted-HasAllowedWord command (
            refused_or_whitelisted names command (
              subst
                (λ o.
                  elim o as (λ _. Option String) [
                    | some duration ↦ sleep_error duration
                    | none ↦ whitelisted_or_refused names command
                  ]
                  ≡ none)
                (no_sleep (behind (codes "sleep ") (codes command)) p) h)))
    ]

-- A command that validateCommand accepts is of one of three kinds. It is `echo $((` with only digits,
-- `+`, `-`, `*`, `/`, spaces and parentheses behind it; or it has no newline, no parenthesis and none of
-- the characters `;`, `|`, `&`, "`", `$`, `<`, `>`, `{`, `}`, `[` and `]`; or its first word is one of
-- the allowed commands, and it has none of those eleven characters, though a newline or a parenthesis
-- may be in it.
pub accepted_characters :
    (names command : String)
    → validate_command names command ≡ none
    → IsArithmetic command
      ⊎ ((none_among separators (codes command) ≡ true) ⊎ HasAllowedWord command)
unfolding validate_command
accepted_characters names command h =
    elim (is_true (matches_behind "echo $((" is_expression (codes command))) [
      | yes p ↦
          (let (body, whole, passed) = matches-behind "echo $((" is_expression (codes command) p in
            inl (body, whole, expression-arithmetic body passed))
      | no p ↦ inr (elim (is_true (matches_behind "echo " is_phrase (codes command))) [
        | yes q ↦ inl (behind-none_among "echo " is_phrase (codes command) refl phrase-none_among q)
        | no q ↦ sleep_or_whitelisted names command (
            last_branch (is_empty command) (matches_behind "echo $((" is_expression (codes command))
              (matches_behind "echo " is_phrase (codes command)) "Command cannot be empty" _ h p q)
      ])
    ]
