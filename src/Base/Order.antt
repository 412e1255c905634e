-- ===== src/Base/Order.antt =====
-- The order of texts, as ORDER BY and sorted() compare them.
use Prim.Native.String.{String, compare}
use Prim.Native.String.compare
use Prim.Native.Char.{Char, code}
use text.Mathlib.Text.{is_lt}
use mathlib.Core.Path.{◌≡◌, refl}
use mathlib.Core.Bool.{Bool, true, false, ◌&&◌, ◌||◌}
use native.Mathlib.Omega.{arith}
use myota_platform.Base.Tests.{ltb, ◌==◌}

abbrev pub text_lt : String → String → Bool
text_lt s t = is_lt (compare s t)

text_lt-cons :
    (c d : Char) (s t : String)
    → text_lt (String.◌∷◌ c s) (String.◌∷◌ d t)
      ≡ (ltb (code c) (code d) || (code c == code d && text_lt s t))
text_lt-cons c d s t = rw (compare.cons-cons c d s t) (ground arith)

-- A text that comes before another does not come after it.
pub text_lt_asym : (s t : String) → text_lt s t ≡ true → text_lt t s ≡ false
text_lt_asym String.[] String.[] h = refl
text_lt_asym String.[] (String.◌∷◌ d t) h = rw (compare.cons-nil d t) refl
text_lt_asym (String.◌∷◌ c s) String.[] h = ground (arith, compare.cons-nil c s)
text_lt_asym (String.◌∷◌ c s) (String.◌∷◌ d t) h =
    ground (arith, text_lt-cons c d s t, text_lt-cons d c t s, text_lt_asym s t)

-- Not coming before is transitive.
pub text_ge_trans :
    (s t u : String) → text_lt s t ≡ false → text_lt t u ≡ false → text_lt s u ≡ false
text_ge_trans String.[] String.[] u h k = k
text_ge_trans String.[] (String.◌∷◌ d t) u h k = ground (arith, compare.nil-cons d t)
text_ge_trans (String.◌∷◌ c s) t String.[] h k = rw (compare.cons-nil c s) refl
text_ge_trans (String.◌∷◌ c s) String.[] (String.◌∷◌ e u) h k = ground (arith, compare.nil-cons e u)
text_ge_trans (String.◌∷◌ c s) (String.◌∷◌ d t) (String.◌∷◌ e u) h k =
    ground
      (arith, text_lt-cons c d s t, text_lt-cons d e t u, text_lt-cons c e s u, text_ge_trans s t u)
