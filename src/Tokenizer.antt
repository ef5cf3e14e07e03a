-- ===== src/Tokenizer.antt =====
-- `gettoken` of src/cmdline.c: the scanner that takes one word off a command line.
pub mod Bounds
pub mod RoundTrip
use cadaver.Common.{
  ℕ, Bool, true, false, not, ◌||◌, [], ◌∷◌, ◌++◌, Option, none, some, ltb, ◌==◌, if◌then◌else◌,
  length,
}
use cadaver.Common.Text.{Bytes}

-- The values of `state`: 0, 1, 2, 3, 4, 8 and 9. No case of the switch handles 8 (or 9), so a
-- comment is read to the end of the line.
pub data State : Type 0 where
  lead chew quoted escaped quoted_escape comment accept : State

-- The locals of the loop; `pos` is the length of `buf`.
pub record Scanner : Type 0 where
  pub state : State
  pub quote : ℕ
  pub buf : Bytes

abbrev pub is_quote : ℕ → Bool
is_quote c = c == b'\'' || c == b'"'

abbrev pub is_white : ℕ → Bool
is_white c = c == b' ' || c == b'\t'

abbrev pub push : Scanner → ℕ → State → Scanner
push s c next = record s { buf = s.buf ++ c ∷ []; state = next }

abbrev pub goto : Scanner → State → Scanner
goto s next = record s { state = next }

-- The switch on `state`.
unfoldable pub step_in : State → Scanner → ℕ → Scanner
step_in lead s c =
    if is_quote c
    then record s { state = quoted; quote = c }
    else if c == b'#'
    then goto s comment
    else if not (is_white c)
    then push s c chew
    else s
step_in chew s c =
    if is_white c
    then goto s accept
    else if c == b'#'
    then goto s comment
    else if c == b'\\'
    then goto s escaped
    else push s c chew
step_in quoted s c =
    if c == s.quote
    then goto s accept
    else if c == b'\\'
    then goto s quoted_escape
    else push s c quoted
step_in escaped s c = push s c chew
step_in quoted_escape s c = push s c quoted
step_in _ s c = s

abbrev pub step : Scanner → ℕ → Scanner
step s c = step_in s.state s c

abbrev pub accepting : State → Bool
accepting accept = true
accepting _ = false

-- The test of the while loop, but for the end of the line.
abbrev pub stops : ℕ → Scanner → Bool
stops bufsiz s = accepting s.state || not (ltb (length s.buf) bufsiz)

-- The while loop: the locals where it stops, and what `pnt` points to.
unfoldable pub scan : ℕ → Scanner → Bytes → Scanner × Bytes
unfolding step_in
scan bufsiz s [] = (s, [])
scan bufsiz s (c ∷ cs) =
    let rest = scan bufsiz (step s c) cs in if stops bufsiz s then (s, c ∷ cs) else rest

abbrev pub start : Scanner
start = record { state = lead; quote = 0; buf = [] }

-- What follows the loop: `none` is the returned NULL. An overflow leaves `*pointer` as it was.
abbrev pub finish : ℕ → Bytes → Scanner × Bytes → Option Bytes × Bytes
finish bufsiz line (s, rest) =
    if length s.buf == bufsiz
    then (none, line)
    else if ltb 0 (length s.buf)
    then (some s.buf, rest)
    else (none, rest)

unfoldable pub gettoken : ℕ → Bytes → Option Bytes × Bytes
unfolding scan
gettoken bufsiz line = finish bufsiz line (scan bufsiz start line)
