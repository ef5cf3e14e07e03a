-- ===== src/Tokenizer/RoundTrip.antt =====
-- Words written out with quotes come back from `gettoken`.
use cadaver.Common.{
  ℕ, ◌+◌, ◌<◌, ◌≡◌, refl, ◌∙◌, true, ◌||◌, [], ◌∷◌, ◌++◌, some, none, arith, ◌==◌, if◌then◌else◌,
  length, length-append, append-nil, append_assoc, All,
}
use cadaver.Common.Text.{Bytes}
use cadaver.Tokenizer.{
  quoted, comment, accept, Scanner, is_white, push, goto, scan, start, gettoken,
}

-- A byte as it is written between single quotes.
abbrev pub escape_byte : ℕ → Bytes → Bytes
escape_byte c rest = if c == b'\'' || c == b'\\' then b'\\' ∷ c ∷ rest else c ∷ rest

-- A word between single quotes, before `rest`.
abbrev pub escape : Bytes → Bytes → Bytes
escape [] rest = b'\'' ∷ rest
escape (c ∷ t) rest = escape_byte c (escape t rest)

abbrev pub enquote : Bytes → Bytes → Bytes
enquote t rest = b'\'' ∷ escape t rest

scan-accept : (n : ℕ) (s : Scanner) (rest : Bytes) → s.state ≡ accept → scan n s rest ≡ (s, rest)
unfolding scan
scan-accept n s [] h = refl
scan-accept n s (c ∷ cs) h = ground arith

scan-escape_byte :
    (n c : ℕ) (s : Scanner) (rest : Bytes)
    → s.state ≡ quoted
    → s.quote ≡ b'\''
    → length s.buf < n
    → scan n s (escape_byte c rest) ≡ scan n (push s c quoted) rest
unfolding scan
scan-escape_byte n c s rest h q l = ground arith

scan-escape :
    (n : ℕ) (t : Bytes) (s : Scanner) (rest : Bytes)
    → s.state ≡ quoted
    → s.quote ≡ b'\''
    → length s.buf + length t < n
    → scan n s (escape t rest) ≡ (record s { buf = s.buf ++ t; state = accept }, rest)
scan-escape n [] s rest h q l =
    rw append-nil (unfold scan in ground (arith, scan-accept n (goto s accept) rest refl))
scan-escape n (c ∷ t) s rest h q l =
    scan-escape_byte n c s _ h q (omega arith)
    ∙ scan-escape n t (push s c quoted) rest refl q (omega (arith, length-append s.buf (c ∷ [])))
    ∙ rw append_assoc

-- White space before a word, or before the end of the line, is skipped.
abbrev pub IsWhite : ℕ → Type 0
IsWhite c = is_white c ≡ true

scan-white :
    (n : ℕ) (ws : Bytes) (rest : Bytes)
    → 0 < n
    → All IsWhite ws
    → scan n start (ws ++ rest) ≡ scan n start rest
unfolding scan
scan-white n [] rest l h = refl
scan-white n (c ∷ ws) rest l h = ground (arith, scan-white n ws rest l h.1)

scan-enquote :
    (n : ℕ) (t rest : Bytes)
    → length t < n
    → scan n start (enquote t rest) ≡ (record { buf = t; state = accept; quote = b'\'' }, rest)
unfolding scan
scan-enquote n t rest l = ground (
  arith,
  scan-escape n t (record start { state = quoted; quote = b'\'' }) rest refl refl (omega arith),
)

-- A word that was written between quotes, with any white space before it and anything behind
-- it, is read back, whatever its bytes are, if it is not empty and fits the buffer.
pub gettoken-enquote :
    (bufsiz : ℕ) (ws t rest : Bytes)
    → All IsWhite ws
    → 0 < length t
    → length t < bufsiz
    → gettoken bufsiz (ws ++ enquote t rest) ≡ (some t, rest)
unfolding gettoken
gettoken-enquote n ws t rest h p l =
    rw (scan-white n ws (enquote t rest) (omega arith) h)
      (rw (scan-enquote n t rest l) (ground arith))

scan-comment :
    (n : ℕ) (junk : Bytes) (s : Scanner)
    → s.state ≡ comment
    → length s.buf < n
    → scan n s junk ≡ (s, [])
unfolding scan
scan-comment n [] s h l = refl
scan-comment n (c ∷ cs) s h l = ground (arith, scan-comment n cs s h l)

-- What ends a line: nothing, or a comment.
pub data Ending : Bytes → Type 0 where
  nothing : Ending []
  remark : (junk : Bytes) → Ending (b'#' ∷ junk)

-- White space and a comment hold no word, and are taken off whole.
pub gettoken-Ending :
    (bufsiz : ℕ) (ws : Bytes) {end : Bytes}
    → 0 < bufsiz
    → All IsWhite ws
    → Ending end
    → gettoken bufsiz (ws ++ end) ≡ (none, [])
unfolding gettoken
gettoken-Ending n ws l h nothing = rw (scan-white n ws [] l h) (unfold scan in ground arith)
gettoken-Ending n ws l h (remark junk) =
    rw (scan-white n ws (b'#' ∷ junk) l h)
      (unfold scan in ground (arith, scan-comment n junk (goto start comment) refl l))
