-- ===== src/Credentials/Samples.antt =====
-- A copy into a buffer for tests, as `ne_strnzcpy` is documented.
use cadaver.Common.{ℕ, zero, suc, ◌<◌, [], arith, length, take, length-take-le}
use cadaver.Common.Text.{Bytes}

abbrev pub cut : Bytes → ℕ → Bytes
cut s zero = []
cut s (suc n) = take n s

pub length-cut : (s : Bytes) (n : ℕ) → 0 < n → length (cut s n) < n
length-cut s zero h = absurd (omega arith)
length-cut s (suc n) h = omega (arith, length-take-le n s)
