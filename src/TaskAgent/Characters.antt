-- ===== src/TaskAgent/Characters.antt =====
-- Which characters a text has, and how the tests of the commands read them.
use agamemnon.Base.{
  ℕ, ◌+◌, ◌≡◌, refl, sym, ap, ◌∙◌, String, Bool, true, false, ◌&&◌, not, List, [], ◌∷◌, ◌++◌, some,
  ==_iff, length, drop, drop-append_le, length-append, ◌≤◌, ◌*◌, ◌-◌, arith,
}
use mathlib.Core.List.{append_assoc}
use agamemnon.PlanningBreakdown.ImplRef.{codes}
use agamemnon.TaskAgent.Command.{
  among, all_among, none_among, behind, is_digit, read_digits, is_space, skip_spaces, take_word,
  same, is_allowed, allowed_commands, is_whitelisted, very_dangerous, no_parent,
}

pub false≢true : false ≡ true → ⊥
false≢true h = ground (arith, h)

pub both : (p q : Bool) → (p && q) ≡ true → (p ≡ true) × (q ≡ true)
both true q h = (refl, h)
both false q h = absurd (false≢true h)

pub and_true : {p q : Bool} → p ≡ true → q ≡ true → (p && q) ≡ true
and_true {p = true} h g = g
and_true {p = false} h g = absurd (false≢true h)

pub is_true : (b : Bool) → Dec (b ≡ true)
is_true true = yes refl
is_true false = no false≢true

-- Every character of `bad` fails the test.
abbrev fails : (ℕ → Bool) → List ℕ → Bool
fails test [] = true
fails test (a ∷ as') = not (test a) && fails test as'

pub passes-among :
    (test : ℕ → Bool) (bad : List ℕ) (c : ℕ)
    → fails test bad ≡ true
    → test c ≡ true
    → among bad c ≡ false
passes-among test [] c f h = refl
passes-among test (a ∷ bad) c f h = grind (arith, passes-among test bad c, ==_iff a c)

pub behind-append : (ps cs rest : List ℕ) → behind ps cs ≡ some rest → cs ≡ ps ++ rest
behind-append [] cs rest h = ground (arith, h)
behind-append (p ∷ ps) [] rest h = ground (arith, h)
behind-append (p ∷ ps) (c ∷ cs) rest h = ground (arith, h, behind-append ps cs rest, ==_iff p c)

-- The base command.
abbrev pub base : List ℕ → List ℕ
base cs = take_word (skip_spaces cs)

module _ (bad : List ℕ) where
  -- No name has a character of `bad`.
  abbrev are_clean : List String → Bool
  are_clean [] = true
  are_clean (name ∷ names) = none_among bad (codes name) && are_clean names

  pub all_among-none_among :
      (test : ℕ → Bool) (cs : List ℕ)
      → fails test bad ≡ true
      → all_among test cs ≡ true
      → none_among bad cs ≡ true
  all_among-none_among test [] f h = refl
  all_among-none_among test (c ∷ cs) f h =
      ground (arith, h, passes-among test bad c f, all_among-none_among test cs f)

  pub none_among-append :
      (xs ys : List ℕ)
      → none_among bad xs ≡ true
      → none_among bad ys ≡ true
      → none_among bad (xs ++ ys) ≡ true
  none_among-append [] ys h g = g
  none_among-append (x ∷ xs) ys h g = ground (arith, none_among-append xs ys, h, g)

  none_among-right : (xs ys : List ℕ) → none_among bad (xs ++ ys) ≡ true → none_among bad ys ≡ true
  none_among-right [] ys h = h
  none_among-right (x ∷ xs) ys h = none_among-right xs ys (ground (arith, h))

  -- What stands behind a text is in the rest of the whole behind fewer characters than the text has.
  none_among-behind :
      (n : ℕ) (xs ys : List ℕ)
      → n ≤ length xs
      → none_among bad (drop n (xs ++ ys)) ≡ true
      → none_among bad ys ≡ true
  none_among-behind n xs ys le h =
      none_among-right (drop n xs) ys (ap (none_among bad) (sym (drop-append_le n xs ys le)) ∙ h)

  pub digits-none_among :
      (v k : ℕ) (cs : List ℕ)
      → fails is_digit bad ≡ true
      → none_among bad (read_digits v k cs).2 ≡ true
      → none_among bad cs ≡ true
  digits-none_among v k [] f h = h
  digits-none_among v k (c ∷ cs) f h = elim (is_true (is_digit c)) [
    | yes p ↦ ground (
      arith,
      p,
      passes-among is_digit bad c f p,
      h,
      digits-none_among (v * 10 + (c - b'0')) (k + 1) cs f,
    )
    | no p ↦ ground (arith, p, h)
  ]

  spaces-none_among :
      (cs : List ℕ)
      → fails is_space bad ≡ true
      → (sp : List ℕ) × (cs ≡ sp ++ skip_spaces cs) × (none_among bad sp ≡ true)
  spaces-none_among [] f = ([], refl, refl)
  spaces-none_among (c ∷ cs) f = elim (is_true (is_space c)) [
    | yes p ↦
        (let (sp, whole, good) = spaces-none_among cs f in
          (c ∷ sp, ground (arith, p, whole), ground (arith, passes-among is_space bad c f p, good)))
    | no p ↦ ([], ground (arith, p), refl)
  ]

  word-append : (cs : List ℕ) → (tail : List ℕ) × (cs ≡ take_word cs ++ tail)
  word-append [] = ([], refl)
  word-append (c ∷ cs) = elim (is_true (is_space c)) [
    | yes p ↦ (c ∷ cs, ground (arith, p))
    | no p ↦ (let (tail, whole) = word-append cs in (tail, ground (arith, p, whole)))
  ]

  same-eq : (xs ys : List ℕ) → same xs ys ≡ true → xs ≡ ys
  same-eq [] [] h = refl
  same-eq [] (y ∷ ys) h = ground (arith, h)
  same-eq (x ∷ xs) [] h = ground (arith, h)
  same-eq (x ∷ xs) (y ∷ ys) h = ground (arith, h, same-eq xs ys, ==_iff x y)

  allowed-none_among :
      (w : List ℕ) (names : List String)
      → are_clean names ≡ true
      → is_allowed w names ≡ true
      → none_among bad w ≡ true
  allowed-none_among w [] g h = absurd (false≢true h)
  allowed-none_among w (name ∷ names) g h = elim (is_true (same (codes name) w)) [
    | yes p ↦
        (ap (none_among bad) (sym (same-eq (codes name) w p))
          ∙ (both (none_among bad (codes name)) (are_clean names) g).0)
    | no p ↦
        allowed-none_among w names (both (none_among bad (codes name)) (are_clean names) g).1
          (ground (arith, p, h))
  ]

  -- A character that the code looks for among those behind the base command.
  pub whitelisted-none_among :
      (cs : List ℕ)
      → fails is_space bad ≡ true
      → are_clean allowed_commands ≡ true
      → (none_among very_dangerous (drop (length (base cs)) cs) ≡ true
          → none_among bad (drop (length (base cs)) cs) ≡ true)
      → is_whitelisted cs ≡ true
      → none_among bad cs ≡ true
  unfolding is_whitelisted
  whitelisted-none_among cs f g weaker h =
      let (sp, whole, good) = spaces-none_among cs f in
      let (tail, word) = word-append (skip_spaces cs) in
      let n = length (base cs) in
      let (first, _) =
        both (is_allowed (base cs) allowed_commands && none_among very_dangerous (drop n cs))
          (no_parent (drop n cs)) h in
      let (allowed, args) =
        both (is_allowed (base cs) allowed_commands) (none_among very_dangerous (drop n cs))
          first in
      let split = whole ∙ ap (λ l. sp ++ l) word ∙ sym (append_assoc sp (base cs) tail) in
      ap (none_among bad) split
      ∙ none_among-append (sp ++ base cs) tail
          (none_among-append sp (base cs) good
            (allowed-none_among (base cs) allowed_commands g allowed))
          (none_among-behind n (sp ++ base cs) tail (omega (arith, length-append sp (base cs)))
            (ap (λ l. none_among bad (drop n l)) (sym split) ∙ weaker args))
