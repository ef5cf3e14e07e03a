-- ===== src/Tokenizer/Bounds.antt =====
-- The bounds of `gettoken`: the buffer is never overrun, and a word takes its bytes off the line.
use cadaver.Common.{ℕ, ◌+◌, ◌≤◌, ◌<◌, ◌≡◌, [], ◌∷◌, some, arith, length, length-append}
use cadaver.Common.Text.{Bytes}
use cadaver.Tokenizer.{State, Scanner, step_in, step, scan, start, gettoken}

-- One step adds at most the byte that it reads.
length-step_in : (st : State) (s : Scanner) (c : ℕ) → length (step_in st s c).buf ≤ length s.buf + 1
unfolding step_in
length-step_in _ s c = ground (arith, length-append s.buf (c ∷ []))

pub scan_bounds :
    (n : ℕ) (line : Bytes) (s : Scanner)
    → length s.buf ≤ n
    → (length (scan n s line).0.buf ≤ n)
      × (length (scan n s line).0.buf + length (scan n s line).1 ≤ length s.buf + length line)
unfolding scan
scan_bounds n [] s h = omega arith
scan_bounds n (c ∷ cs) s h = ground (arith, length-step_in s.state s c, scan_bounds n cs (step s c))

-- A word holds at least one byte and fits the buffer with its NUL, and its bytes have been taken
-- off the line: the loop over the words of a line ends.
pub gettoken_bounds :
    (bufsiz : ℕ) (line : Bytes) {token rest : Bytes}
    → gettoken bufsiz line ≡ (some token, rest)
    → (0 < length token) × (length token < bufsiz) × (length token + length rest ≤ length line)
unfolding gettoken
gettoken_bounds n line h = ground (arith, scan_bounds n line start)
