-- ===== src/PlanningBreakdown/ImplRef.antt =====
-- parse_impl_ref: "#123 (depends on: #456, #789)". The text is walked by its characters; the code
-- tests bytes, which differ only inside characters that it passes over.
use Prim.Native.Char.{code}
use Prim.Native.Nat.{◌*◌}
use agamemnon.Base.{
  ℕ, ◌+◌, ◌-◌, ◌^◌, ◌≡◌, refl, String, Bool, true, false, ◌&&◌, ◌||◌, List, [], ◌∷◌, Option, none,
  some, leb, ltb, ◌==◌, if◌then◌else◌,
}
use agamemnon.Base.Int.{ℤ, pos}
use agamemnon.Json.{◌>>=◌}

pub record Ref : Type 0 where
  pub issue : ℤ
  pub depends_on : List ℤ
  pub has_explicit_deps : Bool

abbrev pub plain_ref : Ref
plain_ref = record { issue = pos 0; depends_on = []; has_explicit_deps = false }

abbrev pub codes : String → List ℕ
codes String.[] = []
codes (String.◌∷◌ c s) = code c ∷ codes s

abbrev is_digit : ℕ → Bool
is_digit c = leb b'0' c && leb c b'9'

-- find_first_not_of(" \t")
skip_blanks : List ℕ → List ℕ
skip_blanks [] = []
skip_blanks (c ∷ cs) = let rest = skip_blanks cs in if c == 32 || c == 9 then rest else c ∷ cs

take_digits : List ℕ → List ℕ
take_digits [] = []
take_digits (c ∷ cs) = let rest = take_digits cs in if is_digit c then c ∷ rest else []

drop_digits : List ℕ → List ℕ
drop_digits [] = []
drop_digits (c ∷ cs) = let rest = drop_digits cs in if is_digit c then rest else c ∷ cs

value : ℕ → List ℕ → ℕ
value n [] = n
value n (c ∷ cs) = value (n * 10 + (c - b'0')) cs

-- std::stoi on digits: `none` is the std::out_of_range that it throws.
stoi : List ℕ → Option ℤ
unfolding value
stoi ds = let n = value 0 ds in if ltb n (2 ^ 31) then some (pos n) else none

-- What stands after a prefix; `none` if the text does not begin with it.
strip : List ℕ → List ℕ → Option (List ℕ)
strip [] cs = some cs
strip (p ∷ ps) [] = none
strip (p ∷ ps) (c ∷ cs) = let rest = strip ps cs in if p == c then rest else none

abbrev marker : List ℕ
marker = codes "(depends on:"

-- What stands after the first marker.
after_marker : List ℕ → Option (List ℕ)
unfolding strip
after_marker [] = none
after_marker (c ∷ cs) =
    let later = after_marker cs in
    elim (strip marker (c ∷ cs)) [ some rest ↦ some rest | none ↦ later ]

-- What stands before the first ')'; the marker has none.
before_paren : List ℕ → Option (List ℕ)
before_paren [] = none
before_paren (c ∷ cs) =
    let rest = before_paren cs in if c == b')' then some [] else rest >>= λ ds. some (c ∷ ds)

abbrev is_nil : List ℕ → Bool
is_nil [] = true
is_nil (c ∷ cs) = false

abbrev cons_ref : Option ℤ → Option (List ℤ) → Option (List ℤ)
cons_ref n ns = n >>= λ a. ns >>= λ as'. some (a ∷ as')

-- The loop over the annotation: each '#' with digits after it is a reference. The code goes on
-- behind the digits, where this goes on at them; no digit is a '#'.
scan_refs : List ℕ → Option (List ℤ)
scan_refs [] = some []
scan_refs (c ∷ cs) =
    let rest = scan_refs cs in
    if c == b'#' && (if is_nil (take_digits cs) then false else true)
    then cons_ref (stoi (take_digits cs)) rest
    else rest

abbrev with_deps : ℤ → Option (List ℕ) → Option Ref
with_deps n none = some (record { issue = n; depends_on = []; has_explicit_deps = false })
with_deps n (some inside) = scan_refs inside >>= λ deps.
    some (record { issue = n; depends_on = deps; has_explicit_deps = true })

abbrev parse_at_hash : List ℕ → Option Ref
parse_at_hash [] = some plain_ref
parse_at_hash (c ∷ cs) =
    if c == b'#' && (if is_nil (take_digits cs) then false else true)
    then (stoi (take_digits cs) >>= λ n.
        with_deps n (after_marker (drop_digits cs) >>= before_paren))
    else some plain_ref

-- `none` is the exception of a number that is no int.
unfoldable pub parse_impl_ref : String → Option Ref
unfolding skip_blanks take_digits drop_digits stoi after_marker before_paren scan_refs
parse_impl_ref impl_desc = parse_at_hash (skip_blanks (codes impl_desc))

parse_annotated :
    parse_impl_ref " #12 fix (depends on: #11, x #7)"
    ≡ some (record { issue = pos 12; depends_on = pos 11 ∷ pos 7 ∷ []; has_explicit_deps = true })
unfolding parse_impl_ref
parse_annotated = refl

parse_plain : parse_impl_ref "Implement core" ≡ some plain_ref
unfolding parse_impl_ref
parse_plain = refl

parse_too_large : parse_impl_ref "#2147483648" ≡ none
unfolding parse_impl_ref
parse_too_large = refl
