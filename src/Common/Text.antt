-- ===== src/Common/Text.antt =====
-- C strings as lists of bytes, without the terminating NUL, and the comparisons of them.
use Prim.Native.Char.{code}
use Prim.Native.Nat.{ℕ, ◌+◌}
use Prim.Native.String.{String}
use mathlib.Core.Bool.{Bool, true, false, ◌&&◌}
use mathlib.Core.List.{List, [], ◌∷◌}
use mathlib.Core.Logic.{◌↔◌}
use mathlib.Core.Path.{◌≡◌, refl}
use native.Mathlib.Omega.{arith}
use cadaver.Common.Tests.{leb, ◌==◌, if◌then◌else◌}

abbrev pub Bytes : Type 0
Bytes = List ℕ

-- The bytes of a literal; every literal of the development is ASCII.
abbrev pub codes : String → Bytes
codes String.[] = []
codes (String.◌∷◌ c s) = code c ∷ codes s

-- `strcmp (a, b) == 0`.
unfoldable pub streq : Bytes → Bytes → Bool
streq [] [] = true
streq (x ∷ xs) (y ∷ ys) = x == y && streq xs ys
streq _ _ = false

-- `tolower` of the C locale.
unfoldable pub tolower : ℕ → ℕ
tolower c = if leb b'A' c && leb c b'Z' then c + 32 else c

-- `strcasecmp (a, b) == 0`.
unfoldable pub strcaseeq : Bytes → Bytes → Bool
unfolding tolower
strcaseeq [] [] = true
strcaseeq (x ∷ xs) (y ∷ ys) = tolower x == tolower y && strcaseeq xs ys
strcaseeq _ _ = false

pub streq_iff : (a b : Bytes) → (streq a b ≡ true) ↔ (a ≡ b)
unfolding streq
streq_iff (x ∷ a) (y ∷ b) = ground (arith, streq_iff a b)
streq_iff _ _ = ground arith

pub streq_refl : (a : Bytes) → streq a a ≡ true
streq_refl a = (streq_iff a a).1 refl

pub strcaseeq_refl : (a : Bytes) → strcaseeq a a ≡ true
unfolding strcaseeq
strcaseeq_refl [] = refl
strcaseeq_refl (x ∷ a) = ground (arith, strcaseeq_refl a)

-- Names that differ in case only are equal to the same names.
pub strcaseeq_congr : (a b c : Bytes) → strcaseeq a b ≡ true → strcaseeq c b ≡ strcaseeq c a
unfolding strcaseeq
strcaseeq_congr (x ∷ a) (y ∷ b) (z ∷ c) h = ground (arith, strcaseeq_congr a b c)
strcaseeq_congr _ _ _ h = ground arith
