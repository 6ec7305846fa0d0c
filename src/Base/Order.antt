-- ===== src/Base/Order.antt =====
-- The order of std::string, which compares texts from the left.
use Prim.Native.String.compare
use Prim.Native.String.{String, compare}
use mathlib.Core.Path.{◌≡◌, refl}
use mathlib.Core.Bool.{Bool, true, false}
use native.Mathlib.Omega.{arith}
use text.Mathlib.Text.{is_lt}
use text.Mathlib.TextEquality.{codes_equal}
use text.Mathlib.TextPositions.{compare_refl}

-- a < b
abbrev pub text_ltb : String → String → Bool
text_ltb a b = is_lt (compare a b)

pub text_ltb_irrefl : (a : String) → text_ltb a a ≡ false
text_ltb_irrefl a = rw (compare_refl a)

pub text_ltb_trans :
    (a b c : String) → text_ltb a b ≡ true → text_ltb b c ≡ true → text_ltb a c ≡ true
text_ltb_trans String.[] String.[] c p q = q
text_ltb_trans String.[] (String.◌∷◌ y b) String.[] p q = ground (arith, compare.cons-nil y b)
text_ltb_trans String.[] (String.◌∷◌ y b) (String.◌∷◌ z c) p q = rw (compare.nil-cons z c)
text_ltb_trans (String.◌∷◌ x a) String.[] c p q = ground (arith, compare.cons-nil x a)
text_ltb_trans (String.◌∷◌ x a) (String.◌∷◌ y b) String.[] p q =
    ground (arith, compare.cons-nil y b)
text_ltb_trans (String.◌∷◌ x a) (String.◌∷◌ y b) (String.◌∷◌ z c) p q = ground (
  arith,
  text_ltb_trans a b c,
  compare.cons-cons x y a b,
  compare.cons-cons y z b c,
  compare.cons-cons x z a c,
)

pub text_ltb_total : (a b : String) → text_ltb a b ≡ false → text_ltb b a ≡ false → a ≡ b
text_ltb_total String.[] String.[] p q = refl
text_ltb_total String.[] (String.◌∷◌ y b) p q = ground (arith, compare.nil-cons y b)
text_ltb_total (String.◌∷◌ x a) String.[] p q = ground (arith, compare.nil-cons x a)
text_ltb_total (String.◌∷◌ x a) (String.◌∷◌ y b) p q = ground (
  arith,
  text_ltb_total a b,
  codes_equal x y,
  compare.cons-cons x y a b,
  compare.cons-cons y x b a,
)
